-- ===== src/SpinLock/Invariant.antt =====
-- flat_combining/writer_preference_spin_lock.c: what every reachable state of the lock satisfies.
use mangosteen_code.Common.{
  ℕ, ◌+◌, ◌<◌, ◌≡◌, ◌≢◌, Bool, true, false, update, refl, arith, ◌==◌, Bool-cases, inl, inr, ==→eq,
  ==→ne,
}
use mangosteen_code.SpinLock.{
  Lock, Pc, outside, marked, retreating, waiting, reading, scanning, writing, Move, mark, admit,
  back_off, unmark, wait, retry, read_unlock, lock_writer, lock_busy, reader_passed, reader_found,
  drained, write_unlock, System, Step, pick, Reach, start, later,
}

-- The thread holds the writers' flag.
abbrev pub owns : Pc → Bool
owns (scanning i) = true
owns writing = true
owns _ = false

-- The thread shows in the readers' set.
abbrev pub shown : Pc → Bool
shown marked = true
shown retreating = true
shown reading = true
shown _ = false

-- The reader `j` has been passed by the writer at `p`: it is not inside.
abbrev pub Past : ℕ → Pc → ℕ → Type 0
Past n (scanning i) j = j < i
Past n writing j = j < n
Past n _ j = ⊥

pub record IsLocked (n : ℕ) (s : System) : Type 0 where
  pub flagged : (i : ℕ) → owns (s.pc i) ≡ true → s.lock.writers ≡ 1
  pub one_owner : (i j : ℕ) → owns (s.pc i) ≡ true → owns (s.pc j) ≡ true → i ≡ j
  pub mirrored : (i : ℕ) → s.lock.readers i ≡ shown (s.pc i)
  pub passed : (w j : ℕ) → Past n (s.pc w) j → s.pc j ≢ reading

Past-owns : (n : ℕ) (p : Pc) (j : ℕ) → Past n p j → owns p ≡ true
Past-owns n (scanning i) j h = refl
Past-owns n writing j h = refl
Past-owns n outside j h = absurd h
Past-owns n marked j h = absurd h
Past-owns n retreating j h = absurd h
Past-owns n waiting j h = absurd h
Past-owns n reading j h = absurd h

module _ {n : ℕ} {l : Lock} {pc : ℕ → Pc} (inv : IsLocked n (record { lock = l; pc = pc }))
    (me : ℕ) where
  Move-flagged :
      {l' : Lock} {p p' : Pc}
      → Move n me l p l' p'
      → pc me ≡ p
      → (i : ℕ) → owns (update pc me p' i) ≡ true
      → l'.writers ≡ 1
  Move-flagged mark e i o = ground (arith, inv.flagged i)
  Move-flagged mv e i o = ground (arith, inv.flagged i, inv.one_owner i me)

  Move-mirrored :
      {l' : Lock} {p p' : Pc}
      → Move n me l p l' p'
      → pc me ≡ p
      → (i : ℕ) → l'.readers i ≡ shown (update pc me p' i)
  Move-mirrored mark e i = ground (arith, inv.mirrored i)
  Move-mirrored mv e i = ground (arith, inv.mirrored i)

  Move-one_owner :
      {l' : Lock} {p p' : Pc}
      → Move n me l p l' p'
      → pc me ≡ p
      → (i j : ℕ) → owns (update pc me p' i) ≡ true
      → owns (update pc me p' j) ≡ true
      → i ≡ j
  Move-one_owner (lock_writer free) e i j oi oj =
      ground (arith, inv.flagged i, inv.flagged j, inv.one_owner i j)
  Move-one_owner mv e i j oi oj = ground (arith, inv.one_owner i j)

  -- A move that is neither an admission nor a passed reader.
  still_passed :
      (p p' : Pc)
      → pc me ≡ p
      → p' ≢ reading
      → ((j : ℕ) → Past n p' j → Past n p j)
      → (w j : ℕ) → Past n (update pc me p' w) j
      → update pc me p' j ≢ reading
  still_passed p p' e quiet less w j past = elim (Bool-cases (w == me)) [
    | inl mine ↦
        let before : Past n (pc me) j = rw e (less j (rw mine at past)) in
        ground (arith, inv.passed me j before)
    | inr other ↦
        let before : Past n (pc w) j = rw other at past in ground (arith, inv.passed w j before)
  ]

  -- An admission: the writers' flag is down, so no writer has passed anyone.
  admit_passed :
      l.writers ≡ 0
      → pc me ≡ marked
      → (w j : ℕ) → Past n (update pc me reading w) j
      → update pc me reading j ≢ reading
  admit_passed free e w j past = elim (Bool-cases (w == me)) [
    | inl mine ↦ absurd (rw mine at past)
    | inr other ↦
        let before : Past n (pc w) j = rw other at past in
        absurd (ground (arith, inv.flagged w (Past-owns n (pc w) j before)))
  ]

  -- The reader that the writer passes does not show in the readers' set.
  pass_passed :
      {i : ℕ}
      → l.readers i ≡ false
      → pc me ≡ scanning i
      → (w j : ℕ) → Past n (update pc me (scanning (i + 1)) w) j
      → update pc me (scanning (i + 1)) j ≢ reading
  pass_passed {i} idle e w j past = elim (Bool-cases (w == me)) [
    | inl mine ↦ elim (Bool-cases (j == i)) [
      | inl last ↦ ground (arith, inv.mirrored i, ==→eq j i last)
      | inr earlier ↦
          let reached : j < i + 1 = rw mine at past in
          let before : Past n (pc me) j = rw e (omega (arith, ==→ne j i earlier)) in
          ground (arith, inv.passed me j before)
    ]
    | inr other ↦
        let before : Past n (pc w) j = rw other at past in ground (arith, inv.passed w j before)
  ]

  Move-passed :
      {l' : Lock} {p p' : Pc}
      → Move n me l p l' p'
      → pc me ≡ p
      → (w j : ℕ) → Past n (update pc me p' w) j
      → update pc me p' j ≢ reading
  Move-passed mark e = still_passed outside marked e (λ q. cc) (λ j h. absurd h)
  Move-passed (admit free) e = admit_passed free e
  Move-passed (back_off h) e = still_passed marked retreating e (λ q. cc) (λ j h. absurd h)
  Move-passed unmark e = still_passed retreating waiting e (λ q. cc) (λ j h. absurd h)
  Move-passed (wait h) e = still_passed waiting waiting e (λ q. cc) (λ j h. absurd h)
  Move-passed (retry h) e = still_passed waiting marked e (λ q. cc) (λ j h. absurd h)
  Move-passed read_unlock e = still_passed reading outside e (λ q. cc) (λ j h. absurd h)
  Move-passed (lock_writer h) e =
      still_passed outside (scanning 0) e (λ q. cc) (λ j h. absurd (omega arith))
  Move-passed (lock_busy h) e = still_passed outside outside e (λ q. cc) (λ j h. absurd h)
  Move-passed (reader_passed lt idle) e = pass_passed idle e
  Move-passed (reader_found {i} lt h) e =
      still_passed (scanning i) (scanning 0) e (λ q. cc) (λ j h. absurd (omega arith))
  Move-passed (drained {i} all) e =
      still_passed (scanning i) writing e (λ q. cc) (λ j h. omega arith)
  Move-passed write_unlock e = still_passed writing outside e (λ q. cc) (λ j h. absurd h)

pub Step-IsLocked : {n : ℕ} {s t : System} → Step n s t → IsLocked n s → IsLocked n t
Step-IsLocked (pick me lt mv) inv = record {
  flagged = Move-flagged inv me mv refl;
  one_owner = Move-one_owner inv me mv refl;
  mirrored = Move-mirrored inv me mv refl;
  passed = Move-passed inv me mv refl;
}

pub Reach-IsLocked : {n : ℕ} {s : System} → Reach n s → IsLocked n s
Reach-IsLocked start = record {
  flagged = λ i o. absurd (ground arith);
  one_owner = λ i j oi oj. absurd (ground arith);
  mirrored = λ i. refl;
  passed = λ w j past. absurd past;
}
Reach-IsLocked (later r st) = Step-IsLocked st (Reach-IsLocked r)

-- ===== src/SpinLock/Safety.antt =====
-- flat_combining/writer_preference_spin_lock.c: what the lock promises its users.
use mangosteen_code.Common.{ℕ, zero, suc, ◌∙◌, ◌+◌, ◌<◌, ◌≡◌, ◌≢◌, true, false, update, refl, arith}
use mangosteen_code.SpinLock.{
  Lock, Pc, outside, marked, retreating, waiting, reading, scanning, writing, Move, mark, admit,
  reader_passed, drained, System, Step, pick, Reach, later,
}
use mangosteen_code.SpinLock.Invariant.{owns, shown, Reach-IsLocked}

-- In every reachable state of `n` threads a writer is alone: while one thread is between the drained
-- readers' set and `writeUnlock`, no other thread is there too, and no thread below `n` is between
-- `readLock` and `readUnlock`.
pub writer_excludes :
    {n : ℕ} {s : System}
    → Reach n s
    → (w : ℕ) → s.pc w ≡ writing
    → ((j : ℕ) → s.pc j ≡ writing → j ≡ w) × ((j : ℕ) → j < n → s.pc j ≢ reading)
writer_excludes r w at =
    let inv = Reach-IsLocked r in
    (λ j h. inv.one_owner j w (ground arith) (ground arith), λ j lt. inv.passed w j (rw at lt))

-- A thread comes to read only by a move that found the writers' flag down.
admits_free :
    {n me : ℕ} {l l' : Lock} {p p' : Pc} → Move n me l p l' p' → p' ≡ reading → l.writers ≡ 0
admits_free (admit free) e = free
admits_free mark e = absurd (ground arith)
admits_free mv e = absurd (ground arith)

-- The writer goes first: from the compare-exchange that `lockWriter` wins, no step admits a reader
-- while a thread owns the lock.
pub owner_admits_none :
    {n : ℕ} {s t : System}
    → Reach n s
    → (w : ℕ) → owns (s.pc w) ≡ true
    → Step n s t
    → (j : ℕ) → s.pc j ≢ reading
    → t.pc j ≢ reading
owner_admits_none r w own (pick me lt mv) j not_yet =
    let inv = Reach-IsLocked r in ground (arith, inv.flagged w own, admits_free mv)

hidden : (p : Pc) → p ≢ marked → p ≢ retreating → p ≢ reading → shown p ≡ false
hidden marked a b c = absurd (a refl)
hidden retreating a b c = absurd (b refl)
hidden reading a b c = absurd (c refl)
hidden outside a b c = refl
hidden waiting a b c = refl
hidden (scanning i) a b c = refl
hidden writing a b c = refl

-- The scan of a writer at the reader `i`, while the readers' set stays empty, ends in `left` passes
-- and the write section.
scan_from :
    {n : ℕ} (left i w : ℕ) {s : System}
    → Reach n s
    → w < n
    → i + left ≡ n
    → s.pc w ≡ scanning i
    → ((j : ℕ) → s.lock.readers j ≡ false)
    → (t : System) × Reach n t × (t.pc w ≡ writing)
scan_from {n} zero i w {s} r lt count at empty = (
  record { lock = s.lock; pc = update s.pc w writing },
  later r (pick w lt (rw at (drained (omega arith)))),
  ground arith,
)
scan_from {n} (suc left) i w {s} r lt count at empty =
    let next : System = record { lock = s.lock; pc = update s.pc w (scanning (i + 1)) } in
    let st : Step n s next = pick w lt (rw at (reader_passed (omega arith) (empty i))) in
    scan_from left (i + 1) w (later r st) lt (omega arith) (ground arith) empty

-- A writer that has won the flag and finds no active reader reaches the write section.
pub writer_progress :
    {n : ℕ} {s : System}
    → Reach n s
    → (w : ℕ) → w < n
    → s.pc w ≡ scanning 0
    → ((j : ℕ) → s.pc j ≢ marked)
    → ((j : ℕ) → s.pc j ≢ retreating)
    → ((j : ℕ) → s.pc j ≢ reading)
    → (t : System) × Reach n t × (t.pc w ≡ writing)
writer_progress {n} {s} r w lt at no_marked no_retreating no_reading =
    scan_from n 0 w r lt (omega arith) at (λ j.
      (Reach-IsLocked r).mirrored j
      ∙ hidden (s.pc j) (no_marked j) (no_retreating j) (no_reading j))

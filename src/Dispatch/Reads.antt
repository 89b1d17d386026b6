-- ===== src/Dispatch/Reads.antt =====
-- flat_combining/flat_combining.c: a read-only request and the updates around it.
use mangosteen_code.Common.{
  ℕ, ◌+◌, ◌<◌, ◌≡◌, refl, ap, true, false, update, update_self, update_ne, ℕ_discrete, Bool-cases,
  inl, inr,
}
use mangosteen_code.SpinLock
use mangosteen_code.SpinLock.{reading, scanning, writing}
use mangosteen_code.SpinLock.Safety.{writer_excludes}
use mangosteen_code.Combiner
use mangosteen_code.Combiner.{
  Tasks, looping, testing, trying, leaving, collecting, checking, executing, finishing, releasing,
  submit, see_started, not_started, woken, see_done, not_done, leave, collect, skip, scanned,
  readers_left, execute, executed_all, finish, clear,
}
use mangosteen_code.Combiner.Invariant.{owns}
use mangosteen_code.Combiner.Durable.{executes, logged_all}
use mangosteen_code.Dispatch.{
  System, reads_at, checks, reads, works, locks, passes, finds, drains, unlocks, Reach, start,
  later,
}
use mangosteen_code.Dispatch.Parts.{Reach-combiner, Reach-spin}

-- Where a thread stands at the lock, by where it stands in the combiner
abbrev Together : Combiner.Pc → SpinLock.Pc → Type 0
Together Combiner.Pc.outside q = reads_at q ≡ true
Together looping q = q ≡ SpinLock.Pc.outside
Together testing q = q ≡ SpinLock.Pc.outside
Together trying q = q ≡ SpinLock.Pc.outside
Together Combiner.Pc.waiting q = q ≡ SpinLock.Pc.outside
Together leaving q = q ≡ SpinLock.Pc.outside
Together (collecting i batch) q = q ≡ scanning 0
Together (checking batch) q = (i : ℕ) × (q ≡ scanning i)
Together (executing left batch) q = q ≡ writing
Together (finishing left) q = q ≡ writing
Together releasing q = q ≡ writing

works-Together :
    {n me : ℕ} {t t' : Tasks} {p p' : Combiner.Pc} (q : SpinLock.Pc)
    → Combiner.Move n me t p t' p'
    → owns p ≡ owns p'
    → checks p ≡ false
    → (p ≡ Combiner.Pc.outside → q ≡ SpinLock.Pc.outside)
    → Together p q
    → Together p' q
works-Together q submit o c alone h = alone refl
works-Together q (see_started e) o c alone h = h
works-Together q (not_started e) o c alone h = h
works-Together q (Combiner.Move.wait e) o c alone h = h
works-Together q (woken e) o c alone h = h
works-Together q (see_done e) o c alone h = h
works-Together q (not_done e) o c alone h = h
works-Together q leave o c alone h = ap reads_at h
works-Together q (Combiner.Move.lock_busy e) o c alone h = h
works-Together q (Combiner.Move.lock_writer e) o c alone h = absurd (cc)
works-Together q (collect e r) o c alone h = h
works-Together q (skip e r) o c alone h = h
works-Together q (scanned e) o c alone h = (0, h)
works-Together q readers_left o c alone h = absurd (cc)
works-Together q Combiner.Move.drained o c alone h = absurd (cc)
works-Together q execute o c alone h = h
works-Together q executed_all o c alone h = h
works-Together q finish o c alone h = h
works-Together q clear o c alone h = h
works-Together q Combiner.Move.write_unlock o c alone h = absurd (cc)

-- One thread moves in both parts, the others stay.
both_moved :
    (pc : ℕ → Combiner.Pc) (at_lock : ℕ → SpinLock.Pc) (me : ℕ) (p : Combiner.Pc) (q : SpinLock.Pc)
    → ((j : ℕ) → Together (pc j) (at_lock j))
    → Together p q
    → (j : ℕ) → Together (update pc me p j) (update at_lock me q j)
both_moved pc at_lock me p q h own j = elim (ℕ_discrete j me) [
  | yes same ↦ rw (same, update_self pc me p, update_self at_lock me q) own
  | no other ↦ rw (update_ne pc me j p other, update_ne at_lock me j q other) (h j)
]

lock_moved :
    (pc : ℕ → Combiner.Pc) (at_lock : ℕ → SpinLock.Pc) (me : ℕ) (q : SpinLock.Pc)
    → ((j : ℕ) → Together (pc j) (at_lock j))
    → Together (pc me) q
    → (j : ℕ) → Together (pc j) (update at_lock me q j)
lock_moved pc at_lock me q h own j = elim (ℕ_discrete j me) [
  | yes same ↦ rw (same, update_self at_lock me q) own
  | no other ↦ rw (update_ne at_lock me j q other) (h j)
]

combiner_moved :
    (pc : ℕ → Combiner.Pc) (at_lock : ℕ → SpinLock.Pc) (me : ℕ) (p : Combiner.Pc)
    → ((j : ℕ) → Together (pc j) (at_lock j))
    → Together p (at_lock me)
    → (j : ℕ) → Together (update pc me p j) (at_lock j)
combiner_moved pc at_lock me p h own j = elim (ℕ_discrete j me) [
  | yes same ↦ rw (same, update_self pc me p) own
  | no other ↦ rw (update_ne pc me j p other) (h j)
]

Reach-Together : {n : ℕ} {s : System} → Reach n s → (j : ℕ) → Together (s.pc j) (s.at_lock j)
Reach-Together start = λ j. refl
Reach-Together (later {s} r (reads me {l} {q} lt at a mv b)) =
    lock_moved s.pc s.at_lock me q (Reach-Together r) (rw at b)
Reach-Together (later {s} r (works me {t} {p} lt alone mv o c)) =
    combiner_moved s.pc s.at_lock me p (Reach-Together r)
      (works-Together (s.at_lock me) mv o c alone (Reach-Together r me))
Reach-Together (later {s} r (locks me lt at q free)) =
    both_moved s.pc s.at_lock me _ _ (Reach-Together r) refl
Reach-Together (later {s} r (passes me {i} lt at q lt' f)) =
    lock_moved s.pc s.at_lock me (scanning (i + 1)) (Reach-Together r) (rw at (i + 1, refl))
Reach-Together (later {s} r (finds me lt at q lt' f)) =
    both_moved s.pc s.at_lock me _ _ (Reach-Together r) refl
Reach-Together (later {s} r (drains me lt at q e)) =
    both_moved s.pc s.at_lock me _ _ (Reach-Together r) refl
Reach-Together (later {s} r (unlocks me lt at q)) =
    both_moved s.pc s.at_lock me _ _ (Reach-Together r) refl

executes-writing :
    (p : Combiner.Pc) (q : SpinLock.Pc) → executes p ≡ true → Together p q → q ≡ writing
executes-writing (executing left batch) q e h = h
executes-writing Combiner.Pc.outside q e h = absurd (cc)
executes-writing looping q e h = absurd (cc)
executes-writing testing q e h = absurd (cc)
executes-writing trying q e h = absurd (cc)
executes-writing Combiner.Pc.waiting q e h = absurd (cc)
executes-writing leaving q e h = absurd (cc)
executes-writing (collecting i batch) q e h = absurd (cc)
executes-writing (checking batch) q e h = absurd (cc)
executes-writing (finishing left) q e h = absurd (cc)
executes-writing releasing q e h = absurd (cc)

-- In every interleaving of `n` threads with requests of both kinds: while a thread processes a read-only
-- request, no thread executes updates, and every update that was executed is in the log. So a request
-- sees no part of a transaction, and nothing that a crash could undo.
pub reading-logged :
    {n : ℕ} {s : System}
    → Reach n s
    → (j : ℕ) → j < n
    → s.at_lock j ≡ reading
    → ((w : ℕ) → executes (s.pc w) ≡ false) × ((i : ℕ) → s.tasks.logged i ≡ s.tasks.executed i)
reading-logged {s = s} r j lt at =
    let quiet : (w : ℕ) → executes (s.pc w) ≡ false = λ w. elim (Bool-cases (executes (s.pc w))) [
      | inr no_one ↦ no_one
      | inl runs ↦
          let q = executes-writing (s.pc w) (s.at_lock w) runs (Reach-Together r w) in
          absurd ((writer_excludes (Reach-spin r) w q).1 j lt at)
    ] in
    (quiet, logged_all (Reach-combiner r) quiet)

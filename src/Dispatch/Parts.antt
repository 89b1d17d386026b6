-- ===== src/Dispatch/Parts.antt =====
-- flat_combining/flat_combining.c: a run of the threads seen as a run of the combiner, and as a run of
-- the lock.
use mangosteen_code.Common.{ℕ, ◌≡◌, refl, true}
use mangosteen_code.SpinLock
use mangosteen_code.SpinLock.{
  Lock, marked, retreating, reading, scanning, writing, mark, admit, back_off, unmark, wait, retry,
  read_unlock, lock_busy, reader_passed, reader_found,
}
use mangosteen_code.Combiner
use mangosteen_code.Combiner.{
  Tasks, submit, see_started, not_started, woken, see_done, not_done, leave, collect, skip, scanned,
  readers_left, execute, executed_all, finish, clear,
}
use mangosteen_code.Combiner.Invariant.{owns}
use mangosteen_code.Dispatch.{
  System, lock_of, reads_at, reads, works, locks, passes, finds, drains, unlocks, Reach, start,
  later,
}

-- A reader's step leaves the writers' flag.
reads_writers :
    {n me : ℕ} {l l' : Lock} {q q' : SpinLock.Pc}
    → SpinLock.Move n me l q l' q'
    → reads_at q ≡ true
    → reads_at q' ≡ true
    → l'.writers ≡ l.writers
reads_writers mark a b = refl
reads_writers (admit h) a b = refl
reads_writers (back_off h) a b = refl
reads_writers unmark a b = refl
reads_writers (wait h) a b = refl
reads_writers (retry h) a b = refl
reads_writers read_unlock a b = refl
reads_writers (SpinLock.Move.lock_writer h) a b = absurd (cc)
reads_writers (lock_busy h) a b = refl
reads_writers (reader_passed h r) a b = absurd (cc)
reads_writers (reader_found h r) a b = absurd (cc)
reads_writers (SpinLock.Move.drained h) a b = absurd (cc)
reads_writers SpinLock.Move.write_unlock a b = absurd (cc)

-- So does a step of the combiner that neither takes nor gives up the flag.
works_writers :
    {n me : ℕ} {t t' : Tasks} {p p' : Combiner.Pc}
    → Combiner.Move n me t p t' p'
    → owns p ≡ owns p'
    → t'.writers ≡ t.writers
works_writers submit o = refl
works_writers (see_started h) o = refl
works_writers (not_started h) o = refl
works_writers (Combiner.Move.wait h) o = refl
works_writers (woken h) o = refl
works_writers (see_done h) o = refl
works_writers (not_done h) o = refl
works_writers leave o = refl
works_writers (Combiner.Move.lock_busy h) o = refl
works_writers (Combiner.Move.lock_writer h) o = absurd (cc)
works_writers (collect h r) o = refl
works_writers (skip h r) o = refl
works_writers (scanned h) o = refl
works_writers readers_left o = refl
works_writers Combiner.Move.drained o = refl
works_writers execute o = refl
works_writers executed_all o = refl
works_writers finish o = refl
works_writers clear o = refl
works_writers Combiner.Move.write_unlock o = absurd (cc)

abbrev pub combiner_of : System → Combiner.System
combiner_of s = record { tasks = s.tasks; pc = s.pc }

abbrev pub spin_of : System → SpinLock.System
spin_of s = record { lock = lock_of s; pc = s.at_lock }

pub Reach-combiner : {n : ℕ} {s : System} → Reach n s → Combiner.Reach n (combiner_of s)
Reach-combiner start = Combiner.Reach.start
Reach-combiner (later r (reads me lt at a mv b)) = Reach-combiner r
Reach-combiner (later r (works me lt alone mv o c)) =
    Combiner.Reach.later (Reach-combiner r) (Combiner.Step.pick me lt mv)
Reach-combiner (later r (locks me lt at q free)) =
    Combiner.Reach.later (Reach-combiner r)
      (Combiner.Step.pick me lt (rw at (Combiner.Move.lock_writer free)))
Reach-combiner (later r (passes me lt at q i f)) = Reach-combiner r
Reach-combiner (later r (finds me lt at q i f)) =
    Combiner.Reach.later (Reach-combiner r) (Combiner.Step.pick me lt (rw at readers_left))
Reach-combiner (later r (drains me lt at q e)) =
    Combiner.Reach.later (Reach-combiner r) (Combiner.Step.pick me lt (rw at Combiner.Move.drained))
Reach-combiner (later r (unlocks me lt at q)) =
    Combiner.Reach.later (Reach-combiner r)
      (Combiner.Step.pick me lt (rw at Combiner.Move.write_unlock))

pub Reach-spin : {n : ℕ} {s : System} → Reach n s → SpinLock.Reach n (spin_of s)
Reach-spin start = SpinLock.Reach.start
Reach-spin (later {s} r (reads me {l} {q} lt at a mv b)) =
    let same : l.writers ≡ s.tasks.writers = reads_writers mv a b in
    let next = SpinLock.Reach.later (Reach-spin r) (SpinLock.Step.pick me lt mv) in rw same at next
Reach-spin (later {s} r (works me {t} {p} lt alone mv o c)) =
    let same : t.writers ≡ s.tasks.writers = works_writers mv o in rw same (Reach-spin r)
Reach-spin (later r (locks me lt at q free)) =
    SpinLock.Reach.later (Reach-spin r)
      (SpinLock.Step.pick me lt (rw q (SpinLock.Move.lock_writer free)))
Reach-spin (later r (passes me lt at q i f)) =
    SpinLock.Reach.later (Reach-spin r) (SpinLock.Step.pick me lt (rw q (reader_passed i f)))
Reach-spin (later r (finds me lt at q i f)) =
    SpinLock.Reach.later (Reach-spin r) (SpinLock.Step.pick me lt (rw q (reader_found i f)))
Reach-spin (later r (drains me lt at q e)) =
    SpinLock.Reach.later (Reach-spin r) (SpinLock.Step.pick me lt (rw q (SpinLock.Move.drained e)))
Reach-spin (later r (unlocks me lt at q)) =
    SpinLock.Reach.later (Reach-spin r) (SpinLock.Step.pick me lt (rw q SpinLock.Move.write_unlock))

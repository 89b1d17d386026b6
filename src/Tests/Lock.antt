-- ===== src/Tests/Lock.antt =====
-- flat_combining/writer_preference_spin_lock.c with two threads.
use mangosteen_code.Common.{ℕ, ◌<◌, ◌≡◌, ◌≢◌, refl, arith, true, update}
use mangosteen_code.SpinLock.{
  Pc, outside, marked, retreating, reading, scanning, writing, mark, lock_writer, reader_passed,
  drained, System, pick, initial, Reach, start, later,
}
use mangosteen_code.SpinLock.Safety.{writer_excludes}

-- Thread 0 wins the flag, scans both readers and writes.
abbrev locked : System
locked = record {
  lock = record { writers = 1; readers = initial.lock.readers };
  pc = update initial.pc 0 (scanning 0);
}

locked-Reach : Reach 2 locked
locked-Reach = later start (pick 0 (omega arith) (lock_writer refl))

abbrev scanned : System
scanned = record { lock = locked.lock; pc = update locked.pc 0 (scanning 1) }

abbrev scanned_all : System
scanned_all = record { lock = locked.lock; pc = update scanned.pc 0 (scanning 2) }

abbrev alone : System
alone = record { lock = locked.lock; pc = update scanned_all.pc 0 writing }

alone-Reach : Reach 2 alone
alone-Reach =
    later
      (later (later locked-Reach (pick 0 (omega arith) (reader_passed (omega arith) refl)))
        (pick 0 (omega arith) (reader_passed (omega arith) refl)))
      (pick 0 (omega arith) (drained refl))

writer_excludes_example :
    ((j : ℕ) → alone.pc j ≡ writing → j ≡ 0) × ((j : ℕ) → j < 2 → alone.pc j ≢ reading)
writer_excludes_example = writer_excludes alone-Reach 0 refl

-- Thread 1 marks itself while thread 0 owns the flag.
abbrev contended : System
contended = record {
  lock = record { writers = 1; readers = update locked.lock.readers 1 true };
  pc = update locked.pc 1 marked;
}

contended-Reach : Reach 2 contended
contended-Reach = later locked-Reach (pick 1 (omega arith) mark)

abbrev backed_off : System
backed_off = record { lock = contended.lock; pc = update contended.pc 1 retreating }

nobody_reads : (p : Pc) → p ≢ scanning 0 → p ≢ outside → (j : ℕ) → locked.pc j ≢ p
nobody_reads p a b j e = ground arith

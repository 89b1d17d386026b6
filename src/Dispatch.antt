-- ===== src/Dispatch.antt =====
-- flat_combining/flat_combining.c, `execute_using_flat_combining_no_rpc` with `exec_ro` and
-- `exec_rw_flat_combining`: any number of threads with requests of both kinds, which come in any order. A read-only request runs
-- under the readers' side of the lock of SpinLock, an update through the combiner of Combiner, whose
-- test of the readers' set is here the scan of the lock. The two share the writers' flag.
pub mod Parts
pub mod Reads
use mangosteen_code.Common.{ℕ, ◌+◌, ◌<◌, ◌≡◌, ◌≢◌, Bool, true, false, List, [], ◌∷◌, update}
use mangosteen_code.SpinLock
use mangosteen_code.SpinLock.{Lock, marked, retreating, waiting, reading, scanning, writing}
use mangosteen_code.Combiner
use mangosteen_code.Combiner.{Tasks, trying, collecting, checking, executing, releasing}
use mangosteen_code.Combiner.Invariant.{owns}

-- The tasks with the writers' flag, the readers' set, and where each thread stands in the combiner and
-- at the lock
pub record System : Type 0 where
  pub tasks : Tasks
  pub readers : ℕ → Bool
  pub pc : ℕ → Combiner.Pc
  pub at_lock : ℕ → SpinLock.Pc

abbrev pub lock_of : System → Lock
lock_of s = record { writers = s.tasks.writers; readers = s.readers }

-- In `readLock`, `readUnlock`, between them, or away from the lock
abbrev pub reads_at : SpinLock.Pc → Bool
reads_at (scanning i) = false
reads_at writing = false
reads_at _ = true

abbrev pub checks : Combiner.Pc → Bool
checks (checking batch) = true
checks _ = false

-- One step of the thread `me` of `n` threads. A thread has one request at a time: it takes up an update
-- away from the lock, and reads while it has no update.
pub data Step (n : ℕ) (s : System) : System → Type 0 where
  -- exec_ro
  reads :
      (me : ℕ) {l : Lock} {q : SpinLock.Pc}
      → me < n
      → s.pc me ≡ Combiner.Pc.outside
      → reads_at (s.at_lock me) ≡ true
      → SpinLock.Move n me (lock_of s) (s.at_lock me) l q
      → reads_at q ≡ true
      → Step n s (record s { readers = l.readers; at_lock = update s.at_lock me q })
  -- exec_rw_flat_combining, but for the writers' flag and the readers' set
  works :
      (me : ℕ) {t : Tasks} {p : Combiner.Pc}
      → me < n
      → (s.pc me ≡ Combiner.Pc.outside → s.at_lock me ≡ SpinLock.Pc.outside)
      → Combiner.Move n me s.tasks (s.pc me) t p
      → owns (s.pc me) ≡ owns p
      → checks (s.pc me) ≡ false
      → Step n s (record s { tasks = t; pc = update s.pc me p })
  locks :
      (me : ℕ)
      → me < n
      → s.pc me ≡ trying
      → s.at_lock me ≡ SpinLock.Pc.outside
      → s.tasks.writers ≡ 0
      → Step n s (
          let t = s.tasks in
          record s {
            tasks = record t { writers = 1 };
            pc = update s.pc me (collecting 0 []);
            at_lock = update s.at_lock me (scanning 0);
          })
  -- activeReadersSetIsEmpty
  passes :
      (me : ℕ) {i : ℕ} {batch : List ℕ}
      → me < n
      → s.pc me ≡ checking batch
      → s.at_lock me ≡ scanning i
      → i < n
      → s.readers i ≡ false
      → Step n s (record s { at_lock = update s.at_lock me (scanning (i + 1)) })
  finds :
      (me : ℕ) {i : ℕ} {batch : List ℕ}
      → me < n
      → s.pc me ≡ checking batch
      → s.at_lock me ≡ scanning i
      → i < n
      → s.readers i ≡ true
      → Step n s (record s {
        pc = update s.pc me (collecting 0 batch);
        at_lock = update s.at_lock me (scanning 0);
      })
  drains :
      (me : ℕ) {i : ℕ} {batch : List ℕ}
      → me < n
      → s.pc me ≡ checking batch
      → s.at_lock me ≡ scanning i
      → i ≡ n
      → Step n s (record s {
        pc = update s.pc me (executing batch batch);
        at_lock = update s.at_lock me writing;
      })
  unlocks :
      (me : ℕ)
      → me < n
      → s.pc me ≡ releasing
      → s.at_lock me ≡ writing
      → Step n s (
          let t = s.tasks in
          record s {
            tasks = record t { writers = 0 };
            pc = update s.pc me Combiner.Pc.outside;
            at_lock = update s.at_lock me SpinLock.Pc.outside;
          })

abbrev pub first : System
first = record {
  tasks = Combiner.initial.tasks;
  readers = λ _. false;
  pc = λ _. Combiner.Pc.outside;
  at_lock = λ _. SpinLock.Pc.outside;
}

pub data Reach (n : ℕ) : System → Type 0 where
  start : Reach n first
  later : {s t : System} → Reach n s → Step n s t → Reach n t

-- ===== src/Combiner.antt =====
-- flat_combining/flat_combining.c, `exec_rw_flat_combining`: any number of threads that submit one task
-- after another, interleaved one access to the task array or the writers' flag at a time. The thread
-- that wins the flag collects the tasks that are ready and executes them. Its test of the readers' set
-- may go either way at any time: SpinLock is about the readers. `submitted` and `executed` are the
-- histories: how often a thread came with a task, and how often `processRequestCallBack` ran on it.
-- `logged` is how many of the executions `instrument_stop` has put into the log.
pub mod Invariant
pub mod Steps
pub mod Once
pub mod Batch
pub mod Logged
pub mod Durable
use mangosteen_code.Common.{ℕ, ◌+◌, ◌<◌, ◌≡◌, ◌≢◌, List, [], ◌∷◌, ◌++◌, update}

-- The values of `ready`; NONE is `no_task` here.
abbrev pub started : ℕ
started = 0

abbrev pub done : ℕ
done = 1

abbrev pub ready_to_execute : ℕ
ready_to_execute = 2

abbrev pub no_task : ℕ
no_task = 3

-- The writers' flag, `taskArray[i].ready`, and the histories.
pub record Tasks : Type 0 where
  pub writers : ℕ
  pub ready : ℕ → ℕ
  pub submitted : ℕ → ℕ
  pub executed : ℕ → ℕ
  pub logged : ℕ → ℕ

-- Where a thread stands. `batch` is the filled part of `ready_commands_indexes`.
pub data Pc : Type 0 where
  -- outside `exec_rw_flat_combining`
  outside : Pc
  -- before the test for STARTED, the test for DONE, and the lock
  looping testing trying : Pc
  -- in the loop that waits for DONE
  waiting : Pc
  -- before the store of NONE
  leaving : Pc
  -- the combiner, about to look at the task `i`
  collecting : (i : ℕ) (batch : List ℕ) → Pc
  -- before `activeReadersSetIsEmpty`
  checking : (batch : List ℕ) → Pc
  -- with the tasks of `left` still to execute
  executing : (left batch : List ℕ) → Pc
  -- with the tasks of `left` still to mark as done
  finishing : (left : List ℕ) → Pc
  -- before `writeUnlock`
  releasing : Pc

-- One step of the thread `me` of `n` threads (NUMBER_OF_THREADS). A task that is found ready is marked
-- as started in one step: its own thread only reads it meanwhile, and there is one combiner.
pub data Move (n me : ℕ) (t : Tasks) : Pc → Tasks → Pc → Type 0 where
  submit :
      Move n me t outside
        (record t {
          ready = update t.ready me ready_to_execute;
          submitted = update t.submitted me (t.submitted me + 1);
        })
        looping
  see_started : t.ready me ≡ started → Move n me t looping t waiting
  not_started : t.ready me ≢ started → Move n me t looping t testing
  wait : t.ready me ≢ done → Move n me t waiting t waiting
  woken : t.ready me ≡ done → Move n me t waiting t leaving
  see_done : t.ready me ≡ done → Move n me t testing t leaving
  not_done : t.ready me ≢ done → Move n me t testing t trying
  leave : Move n me t leaving (record t { ready = update t.ready me no_task }) outside
  lock_busy : t.writers ≢ 0 → Move n me t trying t looping
  lock_writer : t.writers ≡ 0 → Move n me t trying (record t { writers = 1 }) (collecting 0 [])
  collect :
      {i : ℕ} {batch : List ℕ}
      → i < n
      → t.ready i ≡ ready_to_execute
      → Move n me t
          (collecting i batch)
          (record t { ready = update t.ready i started })
          (collecting (i + 1) (batch ++ (i ∷ [])))
  skip :
      {i : ℕ} {batch : List ℕ}
      → i < n
      → t.ready i ≢ ready_to_execute
      → Move n me t (collecting i batch) t (collecting (i + 1) batch)
  scanned : {i : ℕ} {batch : List ℕ} → i ≡ n → Move n me t (collecting i batch) t (checking batch)
  readers_left : {batch : List ℕ} → Move n me t (checking batch) t (collecting 0 batch)
  drained : {batch : List ℕ} → Move n me t (checking batch) t (executing batch batch)
  execute :
      {x : ℕ} {left batch : List ℕ}
      → Move n me t
          (executing (x ∷ left) batch)
          (record t { executed = update t.executed x (t.executed x + 1) })
          (executing left batch)
  -- `instrument_stop`: Instrumentation is about the log.
  executed_all :
      {batch : List ℕ}
      → Move n me t (executing [] batch) (record t { logged = t.executed }) (finishing batch)
  finish :
      {x : ℕ} {left : List ℕ}
      → Move n me t
          (finishing (x ∷ left))
          (record t { ready = update t.ready x done })
          (finishing left)
  clear : Move n me t (finishing []) (record t { ready = update t.ready me no_task }) releasing
  write_unlock : Move n me t releasing (record t { writers = 0 }) outside

pub record System : Type 0 where
  pub tasks : Tasks
  pub pc : ℕ → Pc

pub data Step (n : ℕ) (s : System) : System → Type 0 where
  pick :
      (me : ℕ) {t : Tasks} {p : Pc}
      → me < n
      → Move n me s.tasks (s.pc me) t p
      → Step n s (record { tasks = t; pc = update s.pc me p })

-- The flag is down, and every thread comes with NONE in its `ready`.
abbrev pub initial : System
initial = record {
  tasks = record {
    writers = 0;
    ready = λ _. no_task;
    submitted = λ _. 0;
    executed = λ _. 0;
    logged = λ _. 0;
  };
  pc = λ _. outside;
}

pub data Reach (n : ℕ) : System → Type 0 where
  start : Reach n initial
  later : {s t : System} → Reach n s → Step n s t → Reach n t

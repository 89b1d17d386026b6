-- ===== src/Launch.antt =====
-- front-end/front_end.c, back-end/back_end.c (`start_back_end`), mangosteen_instrumentation.c and
-- `start_worker_thread` of flat_combining/flat_combining.c: how a launch brings up the two processes. The
-- front end, the back end and the worker threads are interleaved one step at a time; they meet at a
-- named semaphore, which outlives the processes, at the log, the region table and its files, and at the
-- workers' flags. The checkpoint that CRIU takes first is left out. Requests are not here: the memory
-- of the front end is followed until the first one.
pub mod Restore
pub mod Recovery
pub mod Semaphore
pub mod Workers
pub mod Steps
pub mod Safety
pub mod Progress
pub mod Durable
use mangosteen_code.Common.{
  ℕ, zero, suc, ◌+◌, ◌-◌, ◌<◌, ◌≡◌, ◌≢◌, Bool, true, false, not, Option, none, some, ◌>>=◌, ◌==◌,
  if◌then◌else◌, update, length, ◌&&◌,
}
use mangosteen_code.Memory.{Mem, write, read}
use mangosteen_code.RegionTable.{RegionTable, Kernel, remap}
use mangosteen_code.BackEnd.{BackEnd, process_entry}

-- `mangosteen_args`: whether the callbacks that are tested are there, and the mode.
pub data Mode : Type 0 where
  single_thread multi_thread rpc : Mode

pub record MangosteenArgs : Type 0 where
  pub has_is_read_only : Bool
  pub has_process_request : Bool
  pub mode : Mode

-- `launch_mangosteen(rpc_mode)` as `initialise_mangosteen` calls it: its argument, or `none` for an
-- assertion that fails and for the exit of a second call.
unfoldable pub initialise_mangosteen : Bool → Option MangosteenArgs → Option Bool
initialise_mangosteen true args = none
initialise_mangosteen false none = none
initialise_mangosteen false (some args) = elim args.mode [
  | single_thread ↦ some false
  | multi_thread ↦ if args.has_is_read_only && args.has_process_request then some false else none
  | rpc ↦ some true
]

unfoldable pub new_process : RegionTable → Bool
new_process t = t.number_of_entries == 0

-- What the front end relies on of the operating system: `mmap` of a file at a fixed address, and the
-- bytes of a file, given what the back end has stored through its mappings of the files.
pub record FrontOs : Type 0 where
  pub map_fixed : (file addr size : ℕ) → Mem → Option Mem
  pub file_byte : (stored : Mem) (file offset : ℕ) → ℕ

-- `restore_memory` from the entry at `i` on, `left` entries: the file is mapped at the region and its
-- bytes are copied there from a second mapping.
unfoldable pub restore_memory : FrontOs → Mem → RegionTable → ℕ → ℕ → Mem → Option Mem
restore_memory os stored t i zero m = some m
restore_memory os stored t i (suc left) m =
    let e = t.entries i in
    os.map_fixed i e.address e.mmap_size m >>= λ mapped.
    restore_memory os stored t (i + 1) left
      (write mapped e.address (read (λ o. os.file_byte stored i o) 0 e.mmap_size))

-- The values of `ready` that the launch stores: NONE and READY_TO_INTIALISE
abbrev pub none_ready : ℕ
none_ready = 3

abbrev pub ready_to_intialise : ℕ
ready_to_intialise = 4

-- `start_back_end`: the names of the two branches of `isNewProcess` begin alike up to the semaphore.
pub data BackPc : Type 0 where
  back_entering : BackPc
  back_opened replaying back_posting : (sem : ℕ) → BackPc
  consuming : BackPc
  unlinking initialising : BackPc

-- `start_front_end` and its loops over the workers
pub data FrontPc : Type 0 where
  front_entering : FrontPc
  front_opened : (sem : ℕ) → FrontPc
  restoring restored : FrontPc
  front_posting : (sem : ℕ) → FrontPc
  starting flagging releasing : (i : ℕ) → FrontPc
  starting_new : (sem i : ℕ) → FrontPc
  joining : FrontPc

-- `start_worker_thread`: not created, in the loop on `ready`, in the event loop
pub data WorkerPc : Type 0 where
  absent polling serving : WorkerPc

-- Semaphores by number, with the one that the name stands for and the next number.
pub record Semaphores : Type 0 where
  pub name : Option ℕ
  pub value : ℕ → ℕ
  pub next : ℕ

-- `sem_open` with O_CREAT and the value 0
unfoldable pub sem_open : Semaphores → Semaphores × ℕ
sem_open s = elim s.name [
  | none ↦
      (record { name = some s.next; value = update s.value s.next 0; next = s.next + 1 }, s.next)
  | some h ↦ (s, h)
]

abbrev pub sem_post : ℕ → Semaphores → Semaphores
sem_post h s = record s { value = update s.value h (s.value h + 1) }

abbrev pub sem_down : ℕ → Semaphores → Semaphores
sem_down h s = record s { value = update s.value h (s.value h - 1) }

abbrev pub sem_unlink : Semaphores → Semaphores
sem_unlink s = record s { name = none }

-- `back` holds what the processes share, too: the ring and the region table.
pub record World : Type 0 where
  pub sems : Semaphores
  pub back : BackEnd
  pub back_at : BackPc
  pub memory : Mem
  pub front_at : FrontPc
  pub worker : ℕ → WorkerPc
  pub ready : ℕ → ℕ
  pub is_recovering : ℕ → Bool

-- The back end's table with the committed number of regions, after `remap_backend`
abbrev pub remapped : BackEnd → Mem → BackEnd
remapped b mem =
    let t = b.table in
    record b {
      mem = mem;
      table = record t { number_of_entries = b.ring.commit_metadata.number_of_regions };
    }

-- A worker's entry, filled in by `start_worker_threads`, and its thread
abbrev pub create_worker : ℕ → World → World
create_worker i w = record w {
  ready = update w.ready i none_ready;
  worker = update w.worker i polling;
}

-- One step of one of the processes of a launch with `n` workers (NUMBER_OF_THREADS).
pub data Move (is_new rpc_mode : Bool) (n : ℕ) (k : Kernel) (os : FrontOs) (w : World)
    : World → Type 0 where
  -- start_back_end
  back_open :
      w.back_at ≡ back_entering
      → Move is_new rpc_mode n k os w
          (record w { sems = (sem_open w.sems).0; back_at = back_opened (sem_open w.sems).1 })
  back_remap :
      {h : ℕ} {mem : Mem}
      → is_new ≡ false
      → w.back_at ≡ back_opened h
      → remap k w.back.table w.back.mem ≡ some mem
      → Move is_new rpc_mode n k os w
          (record w { back = remapped w.back mem; back_at = replaying h })
  back_replay :
      {h : ℕ} {b : BackEnd}
      → w.back_at ≡ replaying h
      → w.back.ring.remote_head ≢ w.back.ring.remote_tail
      → process_entry k w.back ≡ some b
      → Move is_new rpc_mode n k os w (record w { back = b })
  back_replayed :
      {h : ℕ}
      → w.back_at ≡ replaying h
      → w.back.ring.remote_head ≡ w.back.ring.remote_tail
      → Move is_new rpc_mode n k os w (record w { back_at = back_posting h })
  back_post :
      {h : ℕ}
      → w.back_at ≡ back_posting h
      → Move is_new rpc_mode n k os w (record w { sems = sem_post h w.sems; back_at = consuming })
  back_woken :
      {h : ℕ}
      → is_new ≡ true
      → w.back_at ≡ back_opened h
      → w.sems.value h ≢ 0
      → Move is_new rpc_mode n k os w (record w { sems = sem_down h w.sems; back_at = unlinking })
  back_unlink :
      w.back_at ≡ unlinking
      → Move is_new rpc_mode n k os w
          (record w { sems = sem_unlink w.sems; back_at = initialising })
  back_initialised :
      w.back_at ≡ initialising → Move is_new rpc_mode n k os w (record w { back_at = consuming })
  back_consume :
      {b : BackEnd}
      → w.back_at ≡ consuming
      → w.back.ring.last_persisted_tail ≢ w.back.ring.last_persisted_head
      → process_entry k w.back ≡ some b
      → Move is_new rpc_mode n k os w (record w { back = b })
  -- start_front_end
  front_open :
      w.front_at ≡ front_entering
      → Move is_new rpc_mode n k os w
          (record w { sems = (sem_open w.sems).0; front_at = front_opened (sem_open w.sems).1 })
  front_woken :
      {h : ℕ}
      → is_new ≡ false
      → w.front_at ≡ front_opened h
      → w.sems.value h ≢ 0
      → Move is_new rpc_mode n k os w (record w { sems = sem_down h w.sems; front_at = restoring })
  front_restore :
      {m : Mem}
      → w.front_at ≡ restoring
      → restore_memory os w.back.mem w.back.table 0 w.back.table.number_of_entries w.memory ≡ some m
      → Move is_new rpc_mode n k os w (record w { memory = m; front_at = restored })
  front_initialised :
      w.front_at ≡ restored
      → Move is_new rpc_mode n k os w
          (record w { front_at = (if rpc_mode then starting 0 else joining) })
  front_start :
      {i : ℕ}
      → w.front_at ≡ starting i
      → i < n
      → Move is_new rpc_mode n k os w
          (let c = create_worker i w in record c { front_at = starting (i + 1) })
  front_started :
      {i : ℕ}
      → w.front_at ≡ starting i
      → i ≡ n
      → Move is_new rpc_mode n k os w (record w { front_at = flagging 0 })
  -- the branch of a new process, up to the workers' flags
  front_new :
      {h : ℕ}
      → is_new ≡ true
      → w.front_at ≡ front_opened h
      → Move is_new rpc_mode n k os w
          (record w { front_at = (if rpc_mode then starting_new h 0 else front_posting h) })
  front_start_new :
      {h i : ℕ}
      → w.front_at ≡ starting_new h i
      → i < n
      → Move is_new rpc_mode n k os w
          (let c = create_worker i w in record c { front_at = starting_new h (i + 1) })
  front_started_new :
      {h i : ℕ}
      → w.front_at ≡ starting_new h i
      → i ≡ n
      → Move is_new rpc_mode n k os w (record w { front_at = front_posting h })
  front_post :
      {h : ℕ}
      → w.front_at ≡ front_posting h
      → Move is_new rpc_mode n k os w (record w {
        sems = sem_post h w.sems;
        front_at = (if rpc_mode then flagging 0 else joining);
      })
  -- the last two loops, and the workers
  front_flag :
      {i : ℕ}
      → w.front_at ≡ flagging i
      → i < n
      → Move is_new rpc_mode n k os w (record w {
        is_recovering = update w.is_recovering i (not is_new);
        front_at = flagging (i + 1);
      })
  front_flagged :
      {i : ℕ}
      → w.front_at ≡ flagging i
      → i ≡ n
      → Move is_new rpc_mode n k os w (record w { front_at = releasing 0 })
  front_release :
      {i : ℕ}
      → w.front_at ≡ releasing i
      → i < n
      → Move is_new rpc_mode n k os w
          (record w { ready = update w.ready i ready_to_intialise; front_at = releasing (i + 1) })
  front_released :
      {i : ℕ}
      → w.front_at ≡ releasing i
      → i ≡ n
      → Move is_new rpc_mode n k os w (record w { front_at = joining })
  worker_serves :
      (i : ℕ)
      → w.worker i ≡ polling
      → w.ready i ≡ ready_to_intialise
      → Move is_new rpc_mode n k os w (record w { worker = update w.worker i serving })

-- The launch as `launch_mangosteen` forks: the ring and the table are open, no worker exists.
abbrev pub launched : Semaphores → BackEnd → Mem → (ℕ → ℕ) → (ℕ → Bool) → World
launched sems back memory ready flags = record {
  sems = sems;
  back = back;
  back_at = back_entering;
  memory = memory;
  front_at = front_entering;
  worker = λ _. absent;
  ready = ready;
  is_recovering = flags;
}

pub data Reach (is_new rpc_mode : Bool) (n : ℕ) (k : Kernel) (os : FrontOs) (first : World)
    : World → Type 0 where
  start : Reach is_new rpc_mode n k os first first
  later :
      {v w : World}
      → Reach is_new rpc_mode n k os first v
      → Move is_new rpc_mode n k os v w
      → Reach is_new rpc_mode n k os first w

-- ===== src/Lib.antt =====
-- mangosteen: a C library that makes the memory of a state machine durable. A front-end process runs the
-- application under DynamoRIO, records which blocks a combiner's transaction stores to, and appends
-- them to a log in a file (the ring buffer). A back-end process replays the log to memory that files
-- back, and after a crash it replays what is left of it. Requests reach the combiner through a flat
-- combiner that a writer-preference lock guards.
--
-- The files, and the code that they model:
-- - Common, Memory: helpers, and memory as bytes by address with the block copies of the C library.
-- - RingBuffer: ring_buffer/ring_buffer.c and ring_buffer.h. The two shared pairs of indices are fields
--   of the ring, the indices of the producer and of the consumer are theirs. RingBuffer/Spin is about
--   the spin loops, Size about the slots as records, Window about positions, Fifo about the
--   interleaving of producer and consumer, Stale, Deadlock and Layout about what goes wrong.
-- - RegionTable: region_table/region_table.c and region_table.h, and `remap_backend` of back-end/back_end.c.
--   RegionTable/Records is about the records and the files behind them, RegionTable/Remap about what a new
--   process sees of the regions.
-- - BackEnd: back-end/back_end.c. `process_entry`, `run_consumer` and the recovery of `start_back_end`,
--   with the restart of the process (`reopen`). BackEnd/Log is what a log makes of memory, Replay the
--   loop of recovery, Crash a crash at any entry.
-- - Connection: `do_event` of flat_combining/flat_combining.c and the client of netutils/netutils.h.
--   Connection/Read is about requests over several reads, Connection/Write about partial sends.
-- - EventLoop: `handle_event`, `handle_accept_events` and `handle_request_event` of
--   flat_combining/flat_combining.c, over the events that epoll reports. EventLoop/Armed is about what a
--   connection waits for, Handled about every event, Leak about connections that end by an error.
-- - Combiner: `exec_rw_flat_combining` of flat_combining/flat_combining.c as a step relation of any number
--   of threads on the task array. Combiner/Invariant is its invariant, Steps that every step keeps it,
--   Once the executions, Batch the batch of a combiner, Logged what is in the log when a thread goes
--   on, Durable while no thread executes; the log itself is Instrumentation's.
-- - Dispatch: `execute_using_flat_combining_no_rpc` and `exec_ro` of flat_combining/flat_combining.c: threads with
--   requests of both kinds, over the combiner and the lock. Dispatch/Parts sees a run of them as a run of
--   each, Dispatch/Reads is about read-only requests.
-- - HashSet: hash_set/hash_set.c and hash_set.h. HashSet/Slots is about the set that the slots stand for,
--   HashSet/Insert about the probe of an insertion, HashSet/Room about the slots that stay free.
-- - Collector: the instructions that `store_address_in_hash_set` of
--   instrumentation/redo_entry_collector.c puts before a store of the application. Collector/Machine runs
--   them: seven registers, words of 64 bits, and a comparison's operands in place of the flags.
--   Collector/And is about the masks, Blocks about the code from one label to the next, Entry about the
--   code before the loop, Table and Scan about one slot, Probe about the probe of one block, Store about
--   the loop over the blocks, Cover about the blocks that the set has in the end.
-- - SpinLock: flat_combining/writer_preference_spin_lock.c as a step relation of any number of threads.
--   SpinLock/Invariant and SpinLock/Safety hold its invariant and what follows.
-- - Instrumentation: instrumentation/instrument_front_end.c, instrumentation/instrumenation_common.h and
--   the overflow buffer of instrumentation/redo_entry_collector.c. Instrumentation/Session is about
--   `instrument_stop` as a session of the ring's producer, Cover about the blocks of a copied range,
--   Durable about a transaction from `instrument_stop` through a crash to recovery.
-- - Transaction: the application's part of a transaction, with `event_bb_insert` and `instrument_mem` of
--   instrumentation/instrument_front_end.c: stores with the code before them, and calls of memcpy.
--   Transaction/Table is about the table as `instrument_stop` reads it, Collect about what stays tracked,
--   Length about the size of the log, Survives about the transaction through a crash to recovery.
-- - Launch: front-end/front_end.c, `start_back_end` of back-end/back_end.c, mangosteen_instrumentation.c and
--   `start_worker_thread` of flat_combining/flat_combining.c: the processes of a launch as a step
--   relation. Launch/Restore is about `restore_memory`, Recovery about the invariant of a recovery, Steps
--   that every step keeps it, Safety and Progress about what follows, Durable about a transaction and
--   the launch after a crash together.
-- - AddressSpace: `synchronize_address_space`, `should_replace` and `remap_address_space` of
--   instrumentation/instrument_front_end.c. The first launch runs the synchronization in the process of the
--   back end; no launch reaches `remap_address_space`, which is modelled for itself. AddressSpace/Shows
--   is about what the code relies on of the operating system and about the restart, Scan about the loop
--   over the address space, Region about one region, Sync about all of them, Restart about the
--   synchronization and the restart together.
-- - KvStore: examples/KVStoreStateMachine/kv_state_machine.c and kv_state_machine.h, a state machine for
--   the library to run. KvStore/Requests is about its requests.
-- - TransientAllocator: transient_allocator/transient_allocator.c. TransientAllocator/Reuse is about a block
--   that was freed, and about sizes that have no list.
-- - Tests: the theorems at concrete inputs.
--
-- Numbers are naturals, with the wrap-around of the source's widths written out where a value can
-- reach it. The spin loops run on fuel: two rounds decide them while the shared index stands still
-- (RingBuffer/Spin), and where another process moves the index the call stands for its last rounds.
-- The loop of recovery runs on fuel, one more than the records of the log (BackEnd/Replay), the scan
-- of the address space on one round for each address (AddressSpace/Scan), the code before a store on a
-- number of steps that its theorems give. `none` is a call that does not return, an assertion that
-- fails or an exit.
--
-- Stores are visible and durable in program order: flushes and fences are not modelled. The operating
-- system's calls are the parameter `Kernel`, and `Os` where the address space is put on files; the
-- crash theorems suppose that each region of the table can be mapped from the file with its number and
-- shows its bytes, that it was shared with that file before, and that the bytes of the ring past the
-- end of its file (RingBuffer/Layout), `remote_tail` and the metadata, are there again after the
-- crash, which the file's size does not ensure. Nothing else of the crashed process's memory survives.
-- Not modelled: the service's callbacks around a request in execute_using_flat_combining, the
-- checkpoint that CRIU takes at a launch, the network helpers and the other examples. Of the code
-- before a store, the saving and restoring of registers and of flags, which DynamoRIO's register
-- allocation does, is left out.
pub mod AddressSpace
pub mod BackEnd
pub mod Collector
pub mod Combiner
pub mod Common
pub mod Connection
pub mod Dispatch
pub mod EventLoop
pub mod HashSet
pub mod Instrumentation
pub mod KvStore
pub mod Launch
pub mod Memory
pub mod RegionTable
pub mod RingBuffer
pub mod SpinLock
pub mod Tests
pub mod Transaction
pub mod TransientAllocator

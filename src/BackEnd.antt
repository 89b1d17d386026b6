-- ===== src/BackEnd.antt =====
-- back-end/back_end.c: the consumer of the log, which applies it to the memory that files back.
pub mod Log
pub mod Replay
pub mod Crash
use mangosteen_code.Common.{
  ℕ, zero, suc, ◌+◌, ◌%◌, ◌^◌, ◌==◌, Bool, true, false, Option, none, some, if◌then◌else◌, leb,
  ◌&&◌, ◌>>=◌,
}
use mangosteen_code.Memory.{Mem, write}
use mangosteen_code.RingBuffer.{
  RingBuffer, Globals, Entry, redo_entry, mmap_entry, commit_entry, transient_mmap_entry, map_size,
  dequeue, commit_dequeued_entries, create_and_initialise,
}
use mangosteen_code.RegionTable.{
  RegionTable, Kernel, Regions, create_memory_region, commit_table, create_or_open, remap,
}

-- The back end: the shared ring and region table, its own globals, memory and `sequenceNumber`.
pub record BackEnd : Type 0 where
  pub ring : RingBuffer
  pub table : RegionTable
  pub globals : Globals
  pub mem : Mem
  pub sequence_number : ℕ

-- `commit_rb_batch`, with `region_table_commit` and `commit_batch`
unfoldable pub commit_rb_batch : BackEnd → BackEnd
unfolding commit_dequeued_entries commit_table
commit_rb_batch b =
    let r = b.ring in
    let marked = record r {
      commit_metadata = record {
        number_of_regions = b.table.uncommited_number_of_entries % 2 ^ 32;
        ring_buffer_head = b.globals.global_local_head % 2 ^ 32;
      };
    } in
    record b { ring = commit_dequeued_entries marked b.globals; table = commit_table b.table }

-- `addrees_is_mmaped`, from the entry at `i` on, `left` entries
unfoldable pub address_is_mmaped : RegionTable → ℕ → ℕ → ℕ → Bool
address_is_mmaped t addr i zero = false
address_is_mmaped t addr i (suc left) =
    let rest = address_is_mmaped t addr (i + 1) left in
    let start = (t.entries i).address in
    if leb start addr && leb addr (start + (t.entries i).mmap_size) then true else rest

-- One entry that was dequeued, by its type; an unknown type exits.
unfoldable pub apply_entry : Kernel → BackEnd → Entry → Option BackEnd
unfolding commit_rb_batch
apply_entry k b e =
    if e.entry_type == mmap_entry
    then create_memory_region k
        (record { table = b.table; sequence_number = b.sequence_number; mem = b.mem }) e.addr
        (map_size e)
      >>= (λ s.
          some (record b { table = s.table; sequence_number = s.sequence_number; mem = s.mem }))
    else if e.entry_type == transient_mmap_entry
    then k.map_anonymous e.addr (map_size e) b.mem >>= (λ mem. some (record b { mem = mem }))
    else if e.entry_type == redo_entry
    then some (record b { mem = write b.mem e.addr e.payload })
    else if e.entry_type == commit_entry
    then some (commit_rb_batch b)
    else none

unfoldable pub process_entry : Kernel → BackEnd → Option BackEnd
process_entry k b =
    dequeue b.ring b.globals >>= λ taken. apply_entry k (record b { globals = taken.1 }) taken.0

-- The loop of recovery, `while (remote_head != remote_tail) process_entry`; `none` is a fault, a
-- `dequeue` that spins, or the end of the fuel.
unfoldable pub replay : ℕ → Kernel → BackEnd → Option BackEnd
replay zero k b = none
replay (suc fuel) k b =
    let more = process_entry k b >>= replay fuel k in
    if b.ring.remote_head == b.ring.remote_tail then some b else more

-- `run_consumer` for as many entries: the loop has no end of its own. Before each entry it waits for
-- the two persisted indices to differ.
unfoldable pub run_consumer : ℕ → Kernel → BackEnd → Option BackEnd
run_consumer zero k b = some b
run_consumer (suc entries) k b =
    let next = process_entry k b >>= run_consumer entries k in
    if b.ring.last_persisted_tail == b.ring.last_persisted_head then none else next

-- `start_back_end` after a crash: `launch_mangosteen` has opened the ring and the table, memory is
-- remapped from the files, and the log is replayed.
unfoldable pub recover : ℕ → Kernel → BackEnd → Option BackEnd
recover fuel k b = remap k b.table b.mem >>= λ mem.
    let t = b.table in
    replay fuel k (record b {
      mem = mem;
      table = record t { number_of_entries = b.ring.commit_metadata.number_of_regions };
    })

-- What the mapping of the ring's file shows after a crash that found it as `r`. The file ends before
-- three of the fields (RingBuffer/Layout); what they are then, `past` says.
unfoldable pub mapped_again : (RingBuffer → RingBuffer) → RingBuffer → RingBuffer
mapped_again past r = record r {
  remote_tail = (past r).remote_tail;
  producer_addr = (past r).producer_addr;
  commit_metadata = (past r).commit_metadata;
}

-- The new process after a crash: of the old one there are the files. `fresh` is what its memory holds,
-- `mapped` is where the ring lies now, and the globals and statics are new
-- (`ring_buffer_create_and_initialise` and `region_table_create_or_open` in `launch_mangosteen`).
unfoldable pub reopen : ℕ → (RingBuffer → RingBuffer) → Mem → BackEnd → Option BackEnd
unfolding create_and_initialise create_or_open mapped_again
reopen mapped past fresh b =
    create_and_initialise (some (mapped_again past b.ring)) mapped >>= λ opened. some (record {
      ring = opened.0;
      table = create_or_open (some b.table) opened.0;
      globals = opened.1;
      mem = fresh;
      sequence_number = 0;
    })

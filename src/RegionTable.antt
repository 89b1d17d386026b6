-- ===== src/RegionTable.antt =====
-- region_table/region_table.c and region_table.h: the table of the memory regions that files back,
-- and the files, which are numbered (`get_file_name_for_sequence_number` prints the number behind a
-- fixed path). What the operating system answers is a parameter (`Kernel`).
pub mod Records
pub mod Remap
use mangosteen_code.Common.{
  ℕ, zero, suc, ◌+◌, ◌%◌, ◌^◌, ◌==◌, Bool, true, false, Option, none, some, if◌then◌else◌, ltb,
  ◌>>=◌, update, ◌||◌, ◌≤◌, ◌<◌,
}
use mangosteen_code.Memory.{Mem}
use mangosteen_code.RingBuffer.{RingBuffer}

-- `region_table_entry`
pub record RegionTableEntry : Type 0 where
  pub address : ℕ
  pub file_index : ℕ
  pub mmap_size : ℕ
  pub entry_commit_index : ℕ

abbrev pub initial_table_size : ℕ
initial_table_size = 65536

-- `region_table`; `entries` is its field `regionTable`.
pub record RegionTable : Type 0 where
  pub table_commit_index : ℕ
  pub current_table_size : ℕ
  pub number_of_entries : ℕ
  pub uncommited_number_of_entries : ℕ
  pub number_of_new_entries : ℕ
  pub new_entries : ℕ → RegionTableEntry
  pub needs_sync : Bool
  pub entries : ℕ → RegionTableEntry

-- The address lies in a region of the table.
abbrev pub InRegion : RegionTableEntry → ℕ → Type 0
InRegion e x = (e.address ≤ x) × (x < e.address + e.mmap_size)

-- What the numbered files hold: a byte by the file's number and the offset
abbrev pub Files : Type 0
Files = ℕ → ℕ → ℕ

-- What the calls of the operating system do to the memory of the process; `none` is a failed call, or
-- one that returns another address than the one asked for, which the code asserts against.
pub record Kernel : Type 0 where
  -- `ftruncate` of a file to a size
  pub truncates : ℕ → ℕ → Bool
  -- `mmap` with MAP_FIXED of a file at an address, with a size
  pub map_file : ℕ → ℕ → ℕ → Mem → Option Mem
  -- `mmap` with MAP_FIXED and MAP_ANONYMOUS
  pub map_anonymous : ℕ → ℕ → Mem → Option Mem

abbrev pub zero_region : RegionTableEntry
zero_region = record { address = 0; file_index = 0; mmap_size = 0; entry_commit_index = 0 }

abbrev pub zero_table : RegionTable
zero_table = record {
  table_commit_index = 0;
  current_table_size = 0;
  number_of_entries = 0;
  uncommited_number_of_entries = 0;
  number_of_new_entries = 0;
  new_entries = λ _. zero_region;
  needs_sync = false;
  entries = λ _. zero_region;
}

-- `file` is what the table's file held, `none` if there was none.
unfoldable pub create_or_open : Option RegionTable → RingBuffer → RegionTable
create_or_open none r = record zero_table { current_table_size = initial_table_size }
create_or_open (some t) r = record t {
  number_of_entries = r.commit_metadata.number_of_regions;
  number_of_new_entries = 0;
  needs_sync = false;
}

-- `region_table_commit`
unfoldable pub commit_table : RegionTable → RegionTable
commit_table t = record t { number_of_entries = t.uncommited_number_of_entries }

-- `none` is the failed assertion.
unfoldable pub add_region_record : RegionTable → ℕ → ℕ → Option RegionTable
add_region_record t addr size =
    let n = t.uncommited_number_of_entries in
    if ltb n t.current_table_size
    then some (record t {
      entries = update t.entries n (record {
        address = addr;
        file_index = n;
        mmap_size = size;
        entry_commit_index = (t.table_commit_index + 1) % 2 ^ 64;
      });
      uncommited_number_of_entries = n + 1;
    })
    else none

-- `create_pmem_file`: its static `sequenceNumber` is passed in, and comes out increased beside the
-- number of the file that was made. A failure exits.
unfoldable pub create_pmem_file : Kernel → ℕ → ℕ → Option (ℕ × ℕ)
create_pmem_file k sequence_number size =
    if k.truncates sequence_number size then some (sequence_number, sequence_number + 1) else none

-- The table, the static `sequenceNumber` and the memory of the process.
pub record Regions : Type 0 where
  pub table : RegionTable
  pub sequence_number : ℕ
  pub mem : Mem

unfoldable pub create_memory_region : Kernel → Regions → ℕ → ℕ → Option Regions
unfolding create_pmem_file
create_memory_region k s addr size = add_region_record s.table addr size >>= λ table.
    create_pmem_file k s.sequence_number size >>= λ made.
    k.map_file made.0 addr size s.mem >>= λ mem.
    some (record { table = table; sequence_number = made.1; mem = mem })

-- The loop of `remap_backend`, from the entry at `i` on, `left` entries: each is mapped from the file with
-- its index. `none` is the failed assertion on the address.
unfoldable pub restore_from : Kernel → RegionTable → ℕ → ℕ → Mem → Option Mem
restore_from k t i zero mem = some mem
restore_from k t i (suc left) mem =
    k.map_file i (t.entries i).address (t.entries i).mmap_size mem >>= restore_from k t (i + 1) left

unfoldable pub remap : Kernel → RegionTable → Mem → Option Mem
unfolding restore_from
remap k t mem = restore_from k t 0 t.number_of_entries mem

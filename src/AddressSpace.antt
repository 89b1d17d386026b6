-- ===== src/AddressSpace.antt =====
-- instrumentation/instrument_front_end.c: the scan of the address space, by which the process of the back
-- end puts each writable region of the application on a file, and `remap_address_space`, which maps the
-- files again, and which is modelled for itself: `start_back_end` does not start DynamoRIO when it recovers,
-- so that no launch calls it. DynamoRIO (`Dr`) and the operating system (`Os`) are parameters; the flags of `mmap` are in the
-- operations of `Os`. A failed `open` only prints, and the mapping after it fails.
pub mod Shows
pub mod Scan
pub mod Region
pub mod Sync
pub mod Restart
use mangosteen_code.Common.{
  ℕ, zero, suc, ◌+◌, ◌-◌, ◌%◌, ◌^◌, ◌==◌, Bool, true, false, not, ◌&&◌, ◌||◌, Option, none, some,
  List, [], ◌∷◌, ◌++◌, if◌then◌else◌, ltb, ◌>>=◌, update,
}
use mangosteen_code.Memory.{Mem, read}
use mangosteen_code.RegionTable.{
  RegionTable, Kernel, create_pmem_file, add_region_record, commit_table,
}

-- The bits of `prot` of `dr_mem_info_t`
pub record Prot : Type 0 where
  pub can_read : Bool
  pub can_write : Bool
  pub can_exec : Bool
  pub vdso : Bool
  pub stack : Bool
  pub shared : Bool
  pub pretend_write : Bool

-- `dr_mem_info_t`
pub record MemInfo : Type 0 where
  pub base_pc : ℕ
  pub size : ℕ
  pub prot : Prot
  pub is_free : Bool

pub record Dr : Type 0 where
  pub memory_is_dr_internal : ℕ → Bool
  pub memory_is_in_client : ℕ → Bool
  -- `dr_query_memory_ex`
  pub query_memory : ℕ → Option MemInfo

-- The operating system's states, with the memory of the process.
pub record Os (S : Type 0) : Type 0 where
  pub memory : S → Mem
  -- `memcpy` of bytes to an address
  pub copy : ℕ → List ℕ → S → S
  -- `mmap` of a file where there is room, for reading and writing
  pub map_anywhere : ℕ → ℕ → S → Option (ℕ × S)
  -- `mmap` of a file with MAP_FIXED, with the bits of its `prot` argument; `none` is MAP_FAILED
  pub map_fixed : ℕ → ℕ → ℕ → Prot → S → Option S
  -- `munmap`
  pub unmap : ℕ → ℕ → S → S

abbrev pub read_write : Prot
read_write = record {
  can_read = true;
  can_write = true;
  can_exec = false;
  vdso = false;
  stack = false;
  shared = false;
  pretend_write = false;
}

-- MAP_FAILED
abbrev pub map_failed : ℕ
map_failed = 2 ^ 64 - 1

-- `none` is a failed DR_ASSERT.
unfoldable pub should_replace : Dr → MemInfo → Option Bool
should_replace dr info =
    let p = info.prot in
    if dr.memory_is_dr_internal info.base_pc
    then some false
    else if dr.memory_is_in_client info.base_pc
    then some false
    else if info.is_free
    then some false
    else if not p.can_write
    then some false
    else if p.vdso
    then some false
    else if p.stack
    then some false
    else if p.shared
    then some false
    else if p.pretend_write
    then none
    else if p.can_read
    then some true
    else none

-- `missing_from_table`, from the entry at `i` on, `left` entries
unfoldable pub missing_from : RegionTable → ℕ → ℕ → ℕ → Bool
missing_from t pc i zero = true
missing_from t pc i (suc left) =
    let rest = missing_from t pc (i + 1) left in if pc == (t.entries i).address then false else rest

-- `to_replace`, and the table
pub record Scanned : Type 0 where
  pub to_replace : List MemInfo
  pub table : RegionTable

-- The length of `newEntries`
abbrev pub new_entries_size : ℕ
new_entries_size = 16

-- A region that is to be replaced; `none` is a store behind `newEntries`.
unfoldable pub visit : Bool → ℕ → MemInfo → Scanned → Option Scanned
unfolding missing_from
visit initial pc info s =
    let t = s.table in
    let n = t.number_of_new_entries in
    if initial
    then some (record s { to_replace = s.to_replace ++ (info ∷ []) })
    else if not (missing_from t pc 0 t.number_of_entries)
    then some s
    else if ltb n new_entries_size
    then some (record s {
      table = record t {
        new_entries =
            update t.new_entries n
              (record (t.new_entries n) { address = pc; mmap_size = info.size });
        number_of_new_entries = n + 1;
      };
    })
    else none

-- What `dr_query_memory_ex` answers ends the loop, or is a region.
abbrev pub on_region {ℓ} : {A : Type ℓ} → Option MemInfo → A → (MemInfo → A) → A
on_region none a f = a
on_region (some info) a f = f info

-- The loop over the address space. A round of fuel is a region.
unfoldable pub scan : ℕ → Dr → Bool → ℕ → Scanned → Option Scanned
unfolding visit should_replace
scan zero dr initial pc s = none
scan (suc fuel) dr initial pc s =
    let more : MemInfo → Option Scanned = λ info. should_replace dr info >>= (λ replace.
      (if replace then visit initial pc info s else some s)
      >>= (λ s'. scan fuel dr initial ((info.base_pc + info.size) % 2 ^ 64) s')) in
    if ltb pc (2 ^ 64 - 1) then on_region (dr.query_memory pc) (some s) more else some s

-- The process: the system, the region table, and the static `sequenceNumber` of `create_pmem_file`.
pub record Space (S : Type 0) : Type 0 where
  pub system : S
  pub table : RegionTable
  pub sequence_number : ℕ

-- The address that `mmap` returned, and the system
abbrev pub returned : {S : Type 0} → ℕ → S → Option S → ℕ × S
returned addr s none = (map_failed, s)
returned addr s (some s') = (addr, s')

-- Of `prot` the flags of mmap are worked out and not used: `mmap` is given `infop->prot`.
unfoldable pub replace_region : {S : Type 0} → Kernel → Os S → Space S → MemInfo → Option (Space S)
unfolding create_pmem_file add_region_record
replace_region k os s info = create_pmem_file k s.sequence_number info.size >>= λ made.
    os.map_anywhere made.0 info.size s.system >>= λ scratch.
    let bytes = read (os.memory scratch.1) info.base_pc info.size in
    let unmapped = os.unmap scratch.0 info.size (os.copy scratch.0 bytes scratch.1) in
    let mapped =
      returned info.base_pc unmapped
        (os.map_fixed made.0 info.base_pc info.size info.prot unmapped) in
    add_region_record s.table mapped.0 info.size >>= λ table.
    some (record { system = mapped.1; table = table; sequence_number = made.1 })

unfoldable pub replace_all :
    {S : Type 0} → Kernel → Os S → Space S → List MemInfo → Option (Space S)
unfolding replace_region
replace_all k os s [] = some s
replace_all k os s (info ∷ infos) = replace_region k os s info >>= λ s'. replace_all k os s' infos

unfoldable pub synchronize_address_space :
    {S : Type 0} → ℕ → Dr → Kernel → Os S → Space S → Bool → Option (Space S)
unfolding scan replace_all commit_table
synchronize_address_space fuel dr k os s initial =
    scan fuel dr initial 0 (record { to_replace = []; table = s.table }) >>= λ scanned.
    let synced = record s { table = record scanned.table { needs_sync = false } } in
    if initial
    then replace_all k os synced scanned.to_replace
      >>= (λ done. some (record done { table = commit_table done.table }))
    else some synced

-- The size that `remap_address_space` takes for the ring buffer's
abbrev pub ring_buffer_region : ℕ
ring_buffer_region = 2621472

-- The first loop of `remap_address_space`, from the entry at `i` on, `left` entries
unfoldable pub has_ring_buffer : RegionTable → ℕ → ℕ → Bool
has_ring_buffer t i zero = false
has_ring_buffer t i (suc left) =
    let rest = has_ring_buffer t (i + 1) left in
    if (t.entries i).mmap_size == ring_buffer_region then true else rest

-- The second loop
unfoldable pub remap_from : {S : Type 0} → Os S → RegionTable → ℕ → ℕ → S → Option S
remap_from os t i zero s = some s
remap_from os t i (suc left) s =
    os.map_fixed i (t.entries i).address (t.entries i).mmap_size read_write s >>= λ s'.
    remap_from os t (i + 1) left s'

-- `none` is the exit, or the failed assertion.
unfoldable pub remap_address_space : {S : Type 0} → Os S → RegionTable → S → Option S
unfolding has_ring_buffer remap_from
remap_address_space os t s =
    if has_ring_buffer t 0 t.number_of_entries
    then none
    else remap_from os t 0 t.number_of_entries s

-- ===== src/AddressSpace/Restart.antt =====
-- instrumentation/instrument_front_end.c: `synchronize_address_space` at the start of the back end, and
-- `remap_address_space` after a restart.
use mangosteen_code.Common.{ℕ, ◌≤◌, ◌≡◌, List, [], length, some, true, false, refl, ◌∙◌, ap, arith}
use mangosteen_code.RegionTable.{RegionTable, Kernel, commit_table}
use mangosteen_code.AddressSpace.{Os, Dr, MemInfo, Space, Scanned, scan, synchronize_address_space}
use mangosteen_code.AddressSpace.Shows.{View, Behaves, Succeeds, Backed}
use mangosteen_code.AddressSpace.Region.{Ready}
use mangosteen_code.AddressSpace.Scan.{scan_initial}
use mangosteen_code.AddressSpace.Sync.{InRegions, Named, replace_all-Saved}

-- The regions are on files: the memory in use is as it was, each committed record has a file that holds
-- its region, and each of the regions has a record.
pub record Synchronized {S : Type 0} (os : Os S) (v : View S) (infos : List MemInfo)
    (st st' : Space S) : Type 0 where
  pub same : (x : ℕ) → v.used st.system x → os.memory st'.system x ≡ os.memory st.system x
  pub number : st'.table.number_of_entries ≡ length infos
  pub backed : Backed v st'.system st'.table (os.memory st.system) 0 (length infos)
  pub named : (x : ℕ) → InRegions infos x → Named 0 (length infos) st' x

module _ {S : Type 0} (k : Kernel) (os : Os S) (v : View S) (behaves : Behaves os v)
    (succeeds : Succeeds k os) (fuel : ℕ) (dr : Dr) (st : Space S) (scanned : Scanned)
    (scans : scan fuel dr true 0 (record { to_replace = []; table = st.table }) ≡ some scanned)
    (ready : Ready os v 0 st) (room : length scanned.to_replace ≤ st.table.current_table_size)
    (in_use : (x : ℕ) → InRegions scanned.to_replace x → v.used st.system x) where
  -- At a fresh start, where the scan of the address space ends, its regions are in use, the table has room
  -- and no call fails, the first synchronization returns: the memory in use is as it was, each record is
  -- committed and its file holds its region, and each address of the regions of the scan lies in the
  -- region of a record.
  pub synchronize_lem :
      (st' : Space S) × (synchronize_address_space fuel dr k os st true ≡ some st')
      × Synchronized os v scanned.to_replace st st'
  unfolding synchronize_address_space commit_table
  synchronize_lem =
      let t : RegionTable = record scanned.table { needs_sync = false } in
      let synced : Space S = record st { table = t } in
      let e = scan_initial fuel dr 0 (record { to_replace = []; table = st.table }) scanned scans in
      let ready' : Ready os v 0 synced = record {
        numbered = ready.numbered;
        counted = ap (λ (x : RegionTable). x.uncommited_number_of_entries) e ∙ ready.counted;
        free = ready.free;
      } in
      let (done, ran, saved, named) =
        replace_all-Saved k os v behaves succeeds (v.used st.system) scanned.to_replace 0 synced
          ready' (omega (arith, room, ap (λ (x : RegionTable). x.current_table_size) e)) (λ x u. u)
          in_use in
      (
        record done { table = commit_table done.table },
        rw (scans, ran) refl,
        record {
          same = saved.same;
          number = saved.ready.counted ∙ omega arith;
          backed = λ j o low high lt. (saved.backed j o low high lt).1;
          named = λ x i.
              let (j, lo, hi, above, below) = named x i in (j, lo, omega arith, above, below);
        },
      )

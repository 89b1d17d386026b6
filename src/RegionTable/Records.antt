-- ===== src/RegionTable/Records.antt =====
-- region_table/region_table.c: the records of the table, the files behind them, and what a restart
-- makes of both.
use mangosteen_code.Common.{ℕ, ◌+◌, ◌≤◌, ◌<◌, ◌≡◌, ◌≢◌, some, arith, Option-cases, inl, inr}
use mangosteen_code.RingBuffer.{RingBuffer}
use mangosteen_code.RegionTable.{
  RegionTable, Kernel, Regions, create_or_open, commit_table, add_region_record,
  create_memory_region,
}

-- Each record names the file of its own number, and the table has room for its records.
pub record IsIndexed (t : RegionTable) : Type 0 where
  pub named : (i : ℕ) → i < t.uncommited_number_of_entries → (t.entries i).file_index ≡ i
  pub fits : t.uncommited_number_of_entries ≤ t.current_table_size
  pub committed : t.number_of_entries ≤ t.uncommited_number_of_entries

-- The processes of a fresh start number files as the table numbers records.
pub record IsPaired (s : Regions) : Type 0 where
  pub indexed : IsIndexed s.table
  pub paired : s.sequence_number ≡ s.table.uncommited_number_of_entries

added :
    (t : RegionTable) (addr size : ℕ) {t' : RegionTable}
    → add_region_record t addr size ≡ some t'
    → (t.uncommited_number_of_entries < t.current_table_size)
      × (t'.uncommited_number_of_entries ≡ t.uncommited_number_of_entries + 1)
      × (t'.current_table_size ≡ t.current_table_size)
      × (t'.number_of_entries ≡ t.number_of_entries)
      × ((t'.entries t.uncommited_number_of_entries).file_index ≡ t.uncommited_number_of_entries)
      × ((t'.entries t.uncommited_number_of_entries).address ≡ addr)
      × ((i : ℕ) → i ≢ t.uncommited_number_of_entries → t'.entries i ≡ t.entries i)
unfolding add_region_record
added t addr size e = (
  ground arith,
  ground arith,
  ground arith,
  ground arith,
  ground arith,
  ground arith,
  λ i ne. ground arith,
)

added-IsIndexed :
    (t : RegionTable) (addr size : ℕ) {t' : RegionTable}
    → add_region_record t addr size ≡ some t'
    → IsIndexed t
    → IsIndexed t'
added-IsIndexed t addr size {t'} e x =
    let a = added t addr size e in
    record {
      named = λ i lt. ground (arith, a.6 i, x.named i);
      fits = ground arith;
      committed = ground arith;
    }

-- A call of `region_table_create_memory_region` that returns.
record Created (k : Kernel) (s : Regions) (addr size : ℕ) (s' : Regions) : Type 0 where
  added_record : add_region_record s.table addr size ≡ some s'.table
  mapped : k.map_file s.sequence_number addr size s.mem ≡ some s'.mem
  numbered : s'.sequence_number ≡ s.sequence_number + 1

created :
    (k : Kernel) (s : Regions) (addr size : ℕ) {s' : Regions}
    → create_memory_region k s addr size ≡ some s'
    → Created k s addr size s'
unfolding create_memory_region
created k s addr size {s'} e = elim (Option-cases (add_region_record s.table addr size)) [
  | inl failed ↦ absurd (ground arith)
  | inr (t, done) ↦ record {
    added_record = ground arith;
    mapped = ground arith;
    numbered = ground arith;
  }
]

-- A region that `region_table_create_memory_region` makes in a process of a fresh start gets the next
-- record and the file of the same number, and the pairing of records and files is kept.
pub create_memory_region-IsPaired :
    (k : Kernel) (s : Regions) (addr size : ℕ) {s' : Regions}
    → create_memory_region k s addr size ≡ some s'
    → IsPaired s
    → IsPaired s'
      × (k.map_file s.table.uncommited_number_of_entries addr size s.mem ≡ some s'.mem)
      × ((s'.table.entries s.table.uncommited_number_of_entries).address ≡ addr)
create_memory_region-IsPaired k s addr size e p =
    let c = created k s addr size e in
    let a = added s.table addr size c.added_record in
    (
      record {
        indexed = added-IsIndexed s.table addr size c.added_record p.indexed;
        paired = omega (arith, c.numbered, p.paired, a.1);
      },
      rw (← p.paired) c.mapped,
      a.5,
    )

-- After a restart the first region that is created truncates and maps file 0, whatever record it
-- gets: with a record in the table already, the file is not the one that the record names.
pub create_memory_region_restarted :
    (k : Kernel) (s : Regions) (addr size : ℕ) {s' : Regions}
    → create_memory_region k s addr size ≡ some s'
    → s.sequence_number ≡ 0
    → 0 < s.table.uncommited_number_of_entries
    → (k.map_file 0 addr size s.mem ≡ some s'.mem)
      × ((s'.table.entries s.table.uncommited_number_of_entries).file_index ≢ 0)
create_memory_region_restarted k s addr size e restarted more =
    let c = created k s addr size e in
    let a = added s.table addr size c.added_record in
    (rw (← restarted) c.mapped, omega (arith, a.4))

-- A crash between the record of a region and the commit of its batch, and a restart that replays the
-- batch: the table then holds two committed records of the region.
pub replayed_region_twice :
    (t : RegionTable) (r : RingBuffer) (addr size : ℕ) {t' t'' : RegionTable}
    → add_region_record t addr size ≡ some t'
    → add_region_record (create_or_open (some t') r) addr size ≡ some t''
    → let n = t.uncommited_number_of_entries in
      ((commit_table t'').number_of_entries ≡ n + 2)
      × ((t''.entries n).address ≡ addr)
      × ((t''.entries (n + 1)).address ≡ addr)
unfolding create_or_open commit_table
replayed_region_twice t r addr size {t'} first again =
    let a = added t addr size first in
    let b = added (create_or_open (some t') r) addr size again in
    (omega (arith, a.1, b.1), ground (arith, b.6 t.uncommited_number_of_entries), ground arith)

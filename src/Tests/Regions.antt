-- ===== src/Tests/Regions.antt =====
-- region_table/region_table.c at concrete tables.
use mangosteen_code.Common.{ℕ, ◌≡◌, ◌≢◌, refl, arith, true, some, update}
use mangosteen_code.RingBuffer.{zero_ring}
use mangosteen_code.RegionTable.{
  RegionTable, RegionTableEntry, Kernel, Regions, zero_table, create_or_open, commit_table,
  add_region_record, create_memory_region,
}
use mangosteen_code.RegionTable.Records.{
  IsPaired, create_memory_region-IsPaired, create_memory_region_restarted, replayed_region_twice,
}

-- Every call succeeds, and a mapping leaves the bytes of a mark in the memory.
abbrev marking : Kernel
marking = record {
  truncates = λ file size. true;
  map_file = λ file addr size m. some (update m addr file);
  map_anonymous = λ addr size m. some (update m addr 0);
}

abbrev fresh : RegionTable
fresh = record zero_table { current_table_size = 65536 }

abbrev entry_at : ℕ → ℕ → ℕ → RegionTableEntry
entry_at addr n size = record {
  address = addr;
  file_index = n;
  mmap_size = size;
  entry_commit_index = 1;
}

abbrev one : RegionTable
one = record fresh {
  entries = update fresh.entries 0 (entry_at 4096 0 8192);
  uncommited_number_of_entries = 1;
}

abbrev begun : Regions
begun = record { table = fresh; sequence_number = 0; mem = λ a. 0 }

abbrev made : Regions
made = record { table = one; sequence_number = 1; mem = update (λ a. 0) 4096 0 }

begun-IsPaired : IsPaired begun
begun-IsPaired = record {
  indexed = record {
    named = λ i lt. absurd (omega arith);
    fits = omega arith;
    committed = omega arith;
  };
  paired = refl;
}

create_memory_region-IsPaired_example :
    IsPaired made
    × (marking.map_file 0 4096 8192 (λ a. 0) ≡ some made.mem)
    × ((one.entries 0).address ≡ 4096)
unfolding create_memory_region add_region_record
create_memory_region-IsPaired_example =
    create_memory_region-IsPaired marking begun 4096 8192 refl begun-IsPaired

-- A process that is restarted with one record in its table.
abbrev restarted : Regions
restarted = record { table = one; sequence_number = 0; mem = λ a. 0 }

abbrev two : RegionTable
two = record one {
  entries = update one.entries 1 (entry_at 65536 1 4096);
  uncommited_number_of_entries = 2;
}

abbrev remade : Regions
remade = record { table = two; sequence_number = 1; mem = update (λ a. 0) 65536 0 }

create_memory_region_restarted_example :
    (marking.map_file 0 65536 4096 (λ a. 0) ≡ some (update (λ a. 0) 65536 0))
    × ((two.entries 1).file_index ≢ 0)
unfolding create_memory_region add_region_record
create_memory_region_restarted_example =
    create_memory_region_restarted marking restarted 65536 4096 {s' = remade} refl refl
      (omega arith)

abbrev again : RegionTable
again = record one {
  entries = update one.entries 1 (entry_at 4096 1 8192);
  uncommited_number_of_entries = 2;
}

replayed_region_twice_example :
    ((commit_table again).number_of_entries ≡ 2)
    × ((again.entries 0).address ≡ 4096)
    × ((again.entries 1).address ≡ 4096)
unfolding add_region_record create_or_open
replayed_region_twice_example =
    replayed_region_twice fresh zero_ring 4096 8192 {t' = one} {t'' = again} refl refl

-- ===== src/Tests/Collect.antt =====
-- instrumentation/redo_entry_collector.c on a memory with an empty table at 1024 and its count at 50.
use mangosteen_code.Common.{ℕ, ◌≡◌, refl, arith, some, ◌==◌, if◌then◌else◌}
use mangosteen_code.HashSet.{HashSet, initialise, insert, probe, take_slot}
use mangosteen_code.HashSet.Insert.{initialise-IsHashSet}
use mangosteen_code.HashSet.Room.{HasRoom}
use mangosteen_code.Collector.Machine.{Regs}
use mangosteen_code.Collector.Table.{IsTable}
use mangosteen_code.Collector.Entry.{begun}
use mangosteen_code.Collector.Store.{EndsWith, insert_blocks, store-EndsWith}
use mangosteen_code.Collector.Cover.{Collected, store_collects}

abbrev regs : Regs
regs = record {
  destination = 7;
  pointer = 100000;
  range_end = 7;
  index = 7;
  value = 7;
  count_address = 7;
  counter = 7;
}

-- The thread's record is at 100000.
abbrev words : ℕ → ℕ → ℕ
words combiner x =
    if x == 100000 then 50 else if x == 100008 then 1024 else if x == 105912 then combiner else 0

initialise-IsTable : IsTable 1024 50 (words 1) (words 1) (initialise 1024 1 1)
unfolding initialise
initialise-IsTable = record {
  size = refl;
  entries = λ i lt. ground arith;
  count = refl;
  elsewhere = λ x nc nt. refl;
}

initialise-HasRoom : HasRoom 2 (initialise 1024 1 1)
unfolding initialise
initialise-HasRoom = record {
  slot = λ j. j;
  inside = λ j lt. omega arith;
  free = λ j lt. refl;
  apart = λ i j li lj e. e;
}

-- A store of 8 bytes at 60, over the end of a block
store_collects_example :
    (s' : HashSet) × EndsWith 8 60 1024 50 (words 1) (begun 8 regs (words 1) 0 0 0) s'
    × Collected (initialise 1024 1 1) 32 68 s'
store_collects_example =
    store_collects 8 60 1024 50 regs (words 1) 0 0 (initialise 1024 1 1) (omega arith)
      (λ i lt. omega arith) (omega arith) (omega arith) (λ e. omega arith) refl refl
      initialise-IsTable (initialise-IsHashSet 1024 1 1) initialise-HasRoom

-- Blocks 32 and 64 go to the slots 32 and 64.
abbrev both : HashSet
both = take_slot (take_slot (initialise 1024 1 1) 32 32) 64 64

both_inserted : insert_blocks 3 (initialise 1024 1 1) 32 68 ≡ some both
unfolding insert_blocks insert probe initialise
both_inserted = refl

store-EndsWith_example : EndsWith 8 60 1024 50 (words 1) (begun 8 regs (words 1) 0 0 0) both
store-EndsWith_example =
    store-EndsWith 8 60 1024 50 3 regs (words 1) 0 0 (initialise 1024 1 1) both (omega arith)
      (λ i lt. omega arith) (omega arith) (λ e. omega arith) refl refl initialise-IsTable
      both_inserted

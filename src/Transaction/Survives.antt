-- ===== src/Transaction/Survives.antt =====
-- instrumentation/ with ring_buffer/ and back-end/back_end.c: a transaction from its first store to the
-- restart after a crash.
use mangosteen_code.Common.{ℕ, ◌+◌, ◌*◌, ◌<◌, ◌^◌, ◌≡◌, []}
use mangosteen_code.HashSet.{HashSet}
use mangosteen_code.BackEnd.{BackEnd}
use mangosteen_code.Instrumentation.{FrontEnd}
use mangosteen_code.Transaction.{Layout, IsLayout, table_slots}

-- The transaction has begun: the table is empty, no range is recorded, and updates are collected.
pub record Begun (l : Layout) (words : ℕ → ℕ) (f : FrontEnd) : Type 0 where
  pub layout : IsLayout l words
  pub empty : (i : ℕ) → i < 1024 → words (l.base + 8 * i) ≡ 0
  pub word : words l.count < 2 ^ 64
  pub entries : f.thread.hash_set_entries ≡ table_slots words l.base 1024
  pub combiner : f.thread.combiner ≡ 1
  pub no_memcpy : f.thread.memcpy_array ≡ []
  pub no_overflow : f.overflow_buffer ≡ []

-- The set of an empty table, with the count that the table has.
abbrev empty_set : ℕ → HashSet
empty_set n = record {
  size = 1024;
  threshold_num = 1;
  threshold_den = 1;
  max_elements_before_resize = 1024;
  stats = record {
    number_of_entries = n;
    number_of_collisions = 0;
    number_of_duplicates = 0;
    number_of_resizes = 0;
  };
  set_of_entries = λ _. 0;
  last_used_index = 0;
}

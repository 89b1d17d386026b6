-- ===== src/Collector/Table.antt =====
-- instrumentation/redo_entry_collector.c: the words of the table, the registers, and one slot.
use mangosteen_code.Common.{
  ℕ, zero, suc, ◌+◌, ◌*◌, ◌%◌, ◌^◌, ◌<◌, ◌≡◌, ◌≢◌, arith, update, update_self,
}
use mangosteen_code.HashSet.{HashSet, take_slot}
use mangosteen_code.Collector.{store_address_in_hash_set}
use mangosteen_code.Collector.Machine.{Machine, Regs, step_at, steps}

-- The table of 1024 words at `b` and the count at `c` hold the slots and the number of entries of a
-- hash set; every other word is as in `before`.
pub record IsTable (b c : ℕ) (before mem : ℕ → ℕ) (s : HashSet) : Type 0 where
  pub size : s.size ≡ 1024
  pub entries : (i : ℕ) → i < 1024 → mem (b + 8 * i) ≡ s.set_of_entries i
  pub count : mem c ≡ s.stats.number_of_entries % 2 ^ 64
  pub elsewhere : (x : ℕ) → x ≢ c → ((i : ℕ) → i < 1024 → x ≢ b + 8 * i) → mem x ≡ before x

-- The registers of the loop: the table, the block, the end of the store, the count's address and the
-- count, with the offset and the value of a slot.
abbrev pub regs_for : ℕ → ℕ → ℕ → ℕ → HashSet → ℕ → ℕ → Regs
regs_for b c a end_address s index value = record {
  destination = a;
  pointer = b;
  range_end = end_address;
  index = index;
  value = value;
  count_address = c;
  counter = s.stats.number_of_entries % 2 ^ 64;
}

pub steps-add :
    (n k w operand : ℕ) (m : Machine) {m' m'' : Machine}
    → steps n (store_address_in_hash_set w) operand m ≡ m'
    → steps k (store_address_in_hash_set w) operand m' ≡ m''
    → steps (n + k) (store_address_in_hash_set w) operand m ≡ m''
unfolding steps
steps-add zero k w operand m e f = let q : 0 + k ≡ k = omega arith in rw (q, e) f
steps-add (suc n) k w operand m e f =
    let q : suc n + k ≡ suc (n + k) = omega arith in
    let code = store_address_in_hash_set w in
    rw q (steps-add n k w operand (step_at code operand m.rest m) e f)

module _ (b c : ℕ) (before : ℕ → ℕ) (low : b + 8192 < 2 ^ 63)
    (apart : (i : ℕ) → i < 1024 → c ≢ b + 8 * i) where
  -- A store to a free slot and to the count.
  pub take_slot-IsTable :
      (mem : ℕ → ℕ) (s : HashSet) (i a : ℕ)
      → i < 1024
      → IsTable b c before mem s
      → IsTable b c before
          (update (update mem (b + 8 * i) a) c ((s.stats.number_of_entries + 1) % 2 ^ 64))
          (take_slot s i a)
  take_slot-IsTable mem s i a lt h = record {
    size = h.size;
    entries = λ j lj. ground (arith, h.entries j lj, apart j lj);
    count = update_self (update mem (b + 8 * i) a) c ((s.stats.number_of_entries + 1) % 2 ^ 64);
    elsewhere = λ x nc nt. ground (arith, h.elsewhere x nc nt, nt i lt);
  }

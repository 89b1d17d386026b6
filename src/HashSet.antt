-- ===== src/HashSet.antt =====
-- hash_set/hash_set.c and hash_set.h: the set of block addresses that a transaction stores to, with
-- linear probing. A free slot holds 0. The threshold, a double, is a fraction; its product with a size
-- is taken to be exact. `none` is a probe that does not end, or a failed assertion.
pub mod Slots
pub mod Insert
pub mod Room
use mangosteen_code.Common.{
  ℕ, zero, suc, ◌+◌, ◌*◌, ◌/◌, ◌%◌, Option, none, some, ◌==◌, ltb, if◌then◌else◌, ◌>>=◌, update,
}

abbrev pub hash_set_address_coverage : ℕ
hash_set_address_coverage = 64

-- `address_hash_set_stats`
pub record Stats : Type 0 where
  pub number_of_entries : ℕ
  pub number_of_collisions : ℕ
  pub number_of_duplicates : ℕ
  pub number_of_resizes : ℕ

-- `address_hash_set`; `set_of_entries` gives the aligned address in each slot.
pub record HashSet : Type 0 where
  pub size : ℕ
  pub threshold_num : ℕ
  pub threshold_den : ℕ
  pub max_elements_before_resize : ℕ
  pub stats : Stats
  pub set_of_entries : ℕ → ℕ
  pub last_used_index : ℕ

abbrev pub zero_stats : Stats
zero_stats = record {
  number_of_entries = 0;
  number_of_collisions = 0;
  number_of_duplicates = 0;
  number_of_resizes = 0;
}

-- `address_hash_set_initialise`
unfoldable pub initialise : ℕ → ℕ → ℕ → HashSet
initialise size num den = record {
  size = size;
  threshold_num = num;
  threshold_den = den;
  max_elements_before_resize = size * num / den;
  stats = zero_stats;
  set_of_entries = λ _. 0;
  last_used_index = 0;
}

-- `address_hash_set_reset`
unfoldable pub reset : HashSet → HashSet
reset s = record s { stats = zero_stats; set_of_entries = λ _. 0 }

-- `element_is_inserted` on a free slot
abbrev pub take_slot : HashSet → ℕ → ℕ → HashSet
take_slot s index address =
    let n = s.stats in
    record s {
      set_of_entries = update s.set_of_entries index address;
      stats = record n { number_of_entries = n.number_of_entries + 1 };
      last_used_index = index;
    }

-- `element_is_inserted` on a slot that is taken
abbrev pub collide : HashSet → HashSet
collide s =
    let n = s.stats in
    record s { stats = record n { number_of_collisions = n.number_of_collisions + 1 } }

-- `element_is_a_duplicate` on a slot with the address
abbrev pub count_duplicate : HashSet → HashSet
count_duplicate s =
    let n = s.stats in
    record s { stats = record n { number_of_duplicates = n.number_of_duplicates + 1 } }

-- The loop of `address_hash_set_insert_aligned_block_address`, with `addressIsProcessed`.
unfoldable pub probe : ℕ → HashSet → ℕ → ℕ → Option HashSet
probe zero s index address = none
probe (suc fuel) s index address =
    let found = s.set_of_entries index in
    let rest = probe fuel (collide s) ((index + 1) % s.size) address in
    if found == 0
    then some (take_slot s index address)
    else if found == address
    then some (count_duplicate (collide s))
    else rest

-- One round for each slot is enough where a slot is free (Insert.antt).
unfoldable pub insert : HashSet → ℕ → Option HashSet
unfolding probe
insert s address = probe s.size s (address % s.size) address

-- The loop of `address_hash_set_resize` over the slots from `i` on, `left` slots.
unfoldable pub copy_from : HashSet → ℕ → ℕ → HashSet → Option HashSet
copy_from old i zero s = some s
copy_from old i (suc left) s =
    let address = old.set_of_entries i in
    (if address == 0 then some s else insert s address) >>= copy_from old (i + 1) left

-- `address_hash_set_resize`
unfoldable pub resize : HashSet → Option HashSet
unfolding copy_from
resize old =
    let fresh = initialise (old.size * 2) old.threshold_num old.threshold_den in
    let m = fresh.stats in
    let n = old.stats in
    let carried = record fresh {
      stats = record m {
        number_of_resizes = n.number_of_resizes + 1;
        number_of_collisions = n.number_of_collisions;
        number_of_duplicates = n.number_of_duplicates;
      };
    } in
    if old.size * 2 * old.threshold_num % old.threshold_den == 0
    then copy_from old 0 old.size carried
    else none

-- `while (alignedAddress < range)`, one block a round
unfoldable pub add_blocks : ℕ → HashSet → ℕ → ℕ → Option HashSet
add_blocks zero s aligned range = none
add_blocks (suc fuel) s aligned range =
    let grown =
      if s.stats.number_of_entries == s.max_elements_before_resize then resize s else some s in
    let more = grown >>= λ t.
    insert t aligned >>= λ u. add_blocks fuel u (aligned + hash_set_address_coverage) range in
    if ltb aligned range then more else some s

-- `address_hash_set_add_redo_log_stub`; each round moves on by a block, so that `size + 65` rounds pass
-- the end of the range.
unfoldable pub add_redo_log_stub : HashSet → ℕ → ℕ → Option HashSet
unfolding add_blocks
add_redo_log_stub s address size =
    let aligned = address / hash_set_address_coverage * hash_set_address_coverage in
    add_blocks (size + 65) s aligned (address + size)

-- ===== src/Collector/Blocks.antt =====
-- instrumentation/redo_entry_collector.c: the code from one label to the next.
use native.Mathlib.Nat.{add-zero}
use mangosteen_code.Common.{
  ℕ, zero, suc, ◌+◌, ◌-◌, ◌*◌, ◌%◌, ◌^◌, ◌<◌, ◌≤◌, ◌≡◌, ◌≢◌, refl, List, [], ◌∷◌, arith, update,
  true, false, ne→==, eq→==, lt→ltb, le→ltb, ltb,
}
use mangosteen_code.Collector.{
  Instr, Label, insert_stubs, try_to_insert, check_if_duplicate, check_next_index,
  process_remaining, restore_registers, store_address_in_hash_set, prepare_range, find_index,
  try_slot, next_slot, next_block, leave_code,
}
use mangosteen_code.Collector.Machine.{Machine, Regs, from_label, step_in, steps}
use mangosteen_code.Collector.And.{bits_and-low}

abbrev pub after : ℕ → List Instr → List Instr
after zero code = code
after (suc n) [] = []
after (suc n) (i ∷ code) = after n code

-- The machine `k` instructions after a label, with the operands of the last comparison.
unfoldable pub placed : ℕ → Regs → (ℕ → ℕ) → ℕ → ℕ → Label → ℕ → Machine
placed w r mem l t at k = record {
  regs = r;
  mem = mem;
  left = l;
  right = t;
  rest = after k (from_label at (store_address_in_hash_set w));
}

module _ (w operand : ℕ) (r : Regs) (mem : ℕ → ℕ) (l t : ℕ) where
  abbrev slot : ℕ
  slot = (r.pointer + r.index) % 2 ^ 64

  abbrev looked : Regs
  looked = record r { pointer = slot; value = mem slot }

  pub see_free :
      mem slot ≡ 0
      → steps 5 (store_address_in_hash_set w) operand (placed w r mem l t try_to_insert 0)
        ≡ placed w looked mem (mem slot) 0 try_to_insert 5
  unfolding steps step_in placed store_address_in_hash_set prepare_range find_index try_slot
      next_slot next_block leave_code
  see_free free = rw (add-zero slot, eq→== _ _ free) refl

  pub see_taken :
      mem slot ≢ 0
      → steps 5 (store_address_in_hash_set w) operand (placed w r mem l t try_to_insert 0)
        ≡ placed w looked mem (mem slot) 0 check_if_duplicate 0
  unfolding steps step_in placed store_address_in_hash_set prepare_range find_index try_slot
      next_slot next_block leave_code
  see_taken taken = rw (add-zero slot, ne→== _ _ taken) refl

  -- The free slot takes the block, and the count grows.
  pub fill :
      steps 4 (store_address_in_hash_set w) operand (placed w r mem l t try_to_insert 5)
      ≡ placed w
          (record r { counter = (r.counter + 1) % 2 ^ 64 })
          (update (update mem r.pointer r.destination) r.count_address ((r.counter + 1) % 2 ^ 64))
          l
          t
          process_remaining
          0
  unfolding steps step_in placed store_address_in_hash_set prepare_range find_index try_slot
      next_slot next_block leave_code
  fill = refl

  pub see_duplicate :
      r.value ≡ r.destination
      → steps 4 (store_address_in_hash_set w) operand (placed w r mem l t check_if_duplicate 0)
        ≡ placed w r mem r.value r.destination process_remaining 0
  unfolding steps step_in placed store_address_in_hash_set prepare_range find_index try_slot
      next_slot next_block leave_code
  see_duplicate same = rw (eq→== _ _ same) refl

  pub see_other :
      r.value ≢ r.destination
      → steps 3 (store_address_in_hash_set w) operand (placed w r mem l t check_if_duplicate 0)
        ≡ placed w r mem r.value r.destination check_next_index 0
  unfolding steps step_in placed store_address_in_hash_set prepare_range find_index try_slot
      next_slot next_block leave_code
  see_other other = rw (ne→== _ _ other) refl

  abbrev next_index : ℕ
  next_index = (r.index + 8) % 2 ^ 64

  abbrev moved : Regs
  moved = record r { pointer = (r.pointer + 2 ^ 64 - r.index) % 2 ^ 64; index = next_index }

  pub next_inside :
      r.index + 8 < 8192
      → steps 5 (store_address_in_hash_set w) operand (placed w r mem l t check_next_index 0)
        ≡ placed w moved mem next_index 8192 try_to_insert 0
  unfolding steps step_in placed store_address_in_hash_set prepare_range find_index try_slot
      next_slot next_block leave_code
  next_inside low =
      let below : ltb ((next_index + 2 ^ 63) % 2 ^ 64) ((8192 + 2 ^ 63) % 2 ^ 64) ≡ true =
        lt→ltb _ _ (omega arith) in
      rw below refl

  pub next_ends :
      r.index + 8 ≡ 8192
      → steps 5 (store_address_in_hash_set w) operand (placed w r mem l t check_next_index 0)
        ≡ placed w moved mem next_index 8192 check_next_index 5
  unfolding steps step_in placed store_address_in_hash_set prepare_range find_index try_slot
      next_slot next_block leave_code
  next_ends last =
      let not_below : ltb ((next_index + 2 ^ 63) % 2 ^ 64) ((8192 + 2 ^ 63) % 2 ^ 64) ≡ false =
        le→ltb _ _ (omega arith) in
      rw not_below refl

  pub wrap :
      steps 3 (store_address_in_hash_set w) operand (placed w r mem l t check_next_index 5)
      ≡ placed w (record r { index = 0 }) mem l t try_to_insert 0
  unfolding steps step_in placed store_address_in_hash_set prepare_range find_index try_slot
      next_slot next_block leave_code
  wrap = refl

  -- The next block, and back to the test of the loop.
  pub go_on :
      steps 5 (store_address_in_hash_set w) operand (placed w r mem l t process_remaining 0)
      ≡ placed w
          (record r {
            pointer = (r.pointer + 2 ^ 64 - r.index) % 2 ^ 64;
            destination = (r.destination + 32) % 2 ^ 64;
          })
          mem
          ((r.destination + 32) % 2 ^ 64)
          r.range_end
          insert_stubs
          0
  unfolding steps step_in placed store_address_in_hash_set prepare_range find_index try_slot
      next_slot next_block leave_code
  go_on = refl

  pub end_of_range :
      r.range_end ≤ r.destination
      → r.destination < 2 ^ 63
      → steps 3 (store_address_in_hash_set w) operand (placed w r mem l t insert_stubs 0)
        ≡ placed w r mem r.destination r.range_end restore_registers 0
  unfolding steps step_in placed store_address_in_hash_set prepare_range find_index try_slot
      next_slot next_block leave_code
  end_of_range past low =
      let over : ltb ((r.destination + 2 ^ 63) % 2 ^ 64) ((r.range_end + 2 ^ 63) % 2 ^ 64) ≡ false =
        le→ltb _ _ (omega arith) in
      rw over refl

  pub in_range :
      r.destination < r.range_end
      → r.range_end < 2 ^ 63
      → steps 3 (store_address_in_hash_set w) operand (placed w r mem l t insert_stubs 0)
        ≡ placed w r mem r.destination r.range_end insert_stubs 3
  unfolding steps step_in placed store_address_in_hash_set prepare_range find_index try_slot
      next_slot next_block leave_code
  in_range more low =
      let under : ltb ((r.destination + 2 ^ 63) % 2 ^ 64) ((r.range_end + 2 ^ 63) % 2 ^ 64) ≡ true =
        lt→ltb _ _ (omega arith) in
      rw under refl

  -- The slot of a block: its address modulo the size of the table, in words of eight bytes.
  pub first_slot :
      steps 4 (store_address_in_hash_set w) operand (placed w r mem l t insert_stubs 3)
      ≡ placed w (record r { index = r.destination % 1024 * 8 }) mem l t try_to_insert 0
  unfolding steps step_in placed store_address_in_hash_set prepare_range find_index try_slot
      next_slot next_block leave_code
  first_slot =
      let small : r.destination % 1024 * 8 % 2 ^ 64 ≡ r.destination % 1024 * 8 = omega arith in
      rw (bits_and-low r.destination, small) refl

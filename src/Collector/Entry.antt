-- ===== src/Collector/Entry.antt =====
-- instrumentation/redo_entry_collector.c: the code before the loop. It skips the store while no update is
-- collected, and otherwise loads the table, the count, and the range of the store.
use native.Mathlib.Nat.{add-zero}
use mangosteen_code.Common.{ℕ, ◌+◌, ◌*◌, ◌/◌, ◌%◌, ◌^◌, ◌<◌, ◌≡◌, ◌≢◌, refl, ne→==, eq→==}
use mangosteen_code.Collector.{
  insert_stubs, restore_registers, store_address_in_hash_set, prepare_range, find_index, try_slot,
  next_slot, next_block, leave_code, combiner_offset, hash_set_entries_offset,
}
use mangosteen_code.Collector.Machine.{Machine, Regs, steps, step_in}
use mangosteen_code.Collector.And.{bits_and-aligned}
use mangosteen_code.Collector.Blocks.{placed, after}
use mangosteen_code.Collector.Table.{steps-add}
use mangosteen_code.Collector.Scan.{Runs}

-- The machine at the `k`-th instruction.
unfoldable pub begun : ℕ → Regs → (ℕ → ℕ) → ℕ → ℕ → ℕ → Machine
begun w r mem l t k = record {
  regs = r;
  mem = mem;
  left = l;
  right = t;
  rest = after k (store_address_in_hash_set w);
}

module _ (w operand : ℕ) (r : Regs) (mem : ℕ → ℕ) (l t : ℕ) where
  abbrev flag : ℕ
  flag = mem (r.pointer + combiner_offset)

  load_steps :
      operand < 2 ^ 64
      → steps 7 (store_address_in_hash_set w) operand (begun w r mem l t 4)
        ≡ placed w
            (record r {
              destination = operand / 32 * 32;
              pointer = mem (r.pointer + hash_set_entries_offset);
              range_end = (operand + w) % 2 ^ 64;
              count_address = mem r.pointer;
              counter = mem (mem r.pointer);
            })
            mem
            l
            t
            insert_stubs
            0
  unfolding steps step_in begun placed store_address_in_hash_set prepare_range find_index try_slot
      next_slot next_block leave_code
  load_steps low =
      rw (bits_and-aligned operand low, add-zero r.pointer, add-zero (mem r.pointer)) refl

  idle_steps :
      flag ≡ 0
      → steps 4 (store_address_in_hash_set w) operand (begun w r mem l t 0)
        ≡ placed w (record r { value = flag }) mem flag 0 restore_registers 0
  unfolding steps step_in begun placed store_address_in_hash_set prepare_range find_index try_slot
      next_slot next_block leave_code
  idle_steps idle = rw (eq→== _ _ idle) refl

  -- Outside an update the code goes to its end and changes no memory and, of the registers, one.
  pub idle-Runs :
      flag ≡ 0
      → Runs w operand (begun w r mem l t 0) (record r { value = flag }) mem restore_registers
  idle-Runs idle = record { fuel = 4; left = flag; right = 0; ran = idle_steps idle }

  busy_steps :
      flag ≢ 0
      → steps 4 (store_address_in_hash_set w) operand (begun w r mem l t 0)
        ≡ begun w (record r { value = flag }) mem flag 0 4
  unfolding steps step_in begun placed store_address_in_hash_set prepare_range find_index try_slot
      next_slot next_block leave_code
  busy_steps busy = rw (ne→== _ _ busy) refl

module _ (w operand : ℕ) (r : Regs) (mem : ℕ → ℕ) (l t : ℕ) where
  -- An update: the loop begins with the first block of the store.
  pub busy-Runs :
      mem (r.pointer + combiner_offset) ≢ 0
      → operand < 2 ^ 64
      → Runs w operand
          (begun w r mem l t 0)
          (record r {
            value = mem (r.pointer + combiner_offset);
            destination = operand / 32 * 32;
            pointer = mem (r.pointer + hash_set_entries_offset);
            range_end = (operand + w) % 2 ^ 64;
            count_address = mem r.pointer;
            counter = mem (mem r.pointer);
          })
          mem
          insert_stubs
  busy-Runs busy low =
      let flag = mem (r.pointer + combiner_offset) in
      record {
        fuel = 11;
        left = flag;
        right = 0;
        ran =
            steps-add 4 7 w operand (begun w r mem l t 0) (busy_steps w operand r mem l t busy)
              (load_steps w operand (record r { value = flag }) mem flag 0 low);
      }

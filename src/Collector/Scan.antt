-- ===== src/Collector/Scan.antt =====
-- instrumentation/redo_entry_collector.c: what the code does at one slot of the table, from the label
-- try_to_insert on.
use mangosteen_code.Common.{
  ℕ, ◌+◌, ◌-◌, ◌*◌, ◌%◌, ◌^◌, ◌<◌, ◌≡◌, ◌≢◌, arith, List, update, ℕ_discrete,
}
use mangosteen_code.HashSet.{HashSet, take_slot}
use mangosteen_code.Collector.{
  Label, Instr, process_remaining, check_if_duplicate, check_next_index, try_to_insert,
  insert_stubs, store_address_in_hash_set,
}
use mangosteen_code.Collector.Machine.{Machine, Regs, steps}
use mangosteen_code.Collector.Blocks.{
  placed, see_free, see_taken, fill, see_duplicate, see_other, next_inside, next_ends, wrap, go_on,
}
use mangosteen_code.Collector.Table.{regs_for, steps-add}

-- Some steps of the code take the machine to a label.
pub record Runs (w operand : ℕ) (m : Machine) (r : Regs) (mem : ℕ → ℕ) (at : Label) : Type 0 where
  pub fuel : ℕ
  pub left : ℕ
  pub right : ℕ
  pub ran : steps fuel (store_address_in_hash_set w) operand m ≡ placed w r mem left right at 0

module _ (w operand b c a end_address i : ℕ) (low : b + 8192 < 2 ^ 63) (below : a + 32 < 2 ^ 64)
    (lt : i < 1024) where
  abbrev code : List Instr
  code = store_address_in_hash_set w

  -- Before a look at the slot, and after it
  abbrev before_slot_of : ℕ → HashSet → ℕ → Regs
  before_slot_of j s v = regs_for b c a end_address s (8 * j) v

  abbrev before_slot : HashSet → ℕ → Regs
  before_slot s v = before_slot_of i s v

  abbrev at_slot : HashSet → ℕ → Regs
  at_slot s v = record (before_slot s v) { pointer = b + 8 * i }

  small : (b + 8 * i) % 2 ^ 64 ≡ b + 8 * i
  small = omega arith

  back : (b + 8 * i + 2 ^ 64 - 8 * i) % 2 ^ 64 ≡ b
  back = omega arith

  leave :
      (s : HashSet) (v l t : ℕ) (mem : ℕ → ℕ)
      → steps 5 code operand (placed w (at_slot s v) mem l t process_remaining 0)
        ≡ placed w
            (regs_for b c (a + 32) end_address s (8 * i) v)
            mem
            (a + 32)
            end_address
            insert_stubs
            0
  leave s v l t mem =
      let next : (a + 32) % 2 ^ 64 ≡ a + 32 = omega arith in
      rw (back, next) at (go_on w operand (at_slot s v) mem l t)

  module _ (s : HashSet) (v l t : ℕ) (mem : ℕ → ℕ) where
    abbrev found : ℕ
    found = mem (b + 8 * i)

    abbrev here : Machine
    here = placed w (before_slot s v) mem l t try_to_insert 0

    look_free :
        found ≡ 0
        → steps 5 code operand here ≡ placed w (at_slot s found) mem found 0 try_to_insert 5
    look_free free = rw small at (see_free w operand (before_slot s v) mem l t (rw small free))

    look_taken :
        found ≢ 0
        → steps 5 code operand here ≡ placed w (at_slot s found) mem found 0 check_if_duplicate 0
    look_taken taken = rw small at (see_taken w operand (before_slot s v) mem l t (rw small taken))

    abbrev filled : ℕ → ℕ
    filled = update (update mem (b + 8 * i) a) c ((s.stats.number_of_entries + 1) % 2 ^ 64)

    fill_slot :
        steps 4 code operand (placed w (at_slot s found) mem found 0 try_to_insert 5)
        ≡ placed w (at_slot (take_slot s i a) found) filled found 0 process_remaining 0
    fill_slot =
        let counted : (s.stats.number_of_entries % 2 ^ 64 + 1) % 2 ^ 64
            ≡ (s.stats.number_of_entries + 1) % 2 ^ 64 =
          omega arith in
        rw counted at (fill w operand (at_slot s found) mem found 0)

    pub free_slot :
        found ≡ 0
        → Runs w operand here
            (regs_for b c (a + 32) end_address (take_slot s i a) (8 * i) found)
            filled
            insert_stubs
    free_slot free = record {
      fuel = 14;
      left = a + 32;
      right = end_address;
      ran = steps-add 5 9 w operand here (look_free free) (
          steps-add 4 5 w operand (placed w (at_slot s found) mem found 0 try_to_insert 5) fill_slot
            (leave (take_slot s i a) found found 0 filled));
    }

    pub duplicate_slot :
        found ≢ 0
        → found ≡ a
        → Runs w operand here (regs_for b c (a + 32) end_address s (8 * i) found) mem insert_stubs
    duplicate_slot taken same = record {
      fuel = 14;
      left = a + 32;
      right = end_address;
      ran = steps-add 5 9 w operand here (look_taken taken) (
          steps-add 4 5 w operand (placed w (at_slot s found) mem found 0 check_if_duplicate 0)
            (see_duplicate w operand (at_slot s found) mem found 0 same)
            (leave s found found a mem));
    }

    go_next :
        found ≢ 0
        → found ≢ a
        → steps 8 code operand here ≡ placed w (at_slot s found) mem found a check_next_index 0
    go_next taken other =
        steps-add 5 3 w operand here (look_taken taken)
          (see_other w operand (at_slot s found) mem found 0 other)

    step_inside :
        i ≢ 1023
        → steps 5 code operand (placed w (at_slot s found) mem found a check_next_index 0)
          ≡ placed w (before_slot_of ((i + 1) % 1024) s found) mem (8 * i + 8) 8192 try_to_insert 0
    step_inside inside =
        let on : (8 * i + 8) % 2 ^ 64 ≡ 8 * i + 8 = omega arith in
        let place : 8 * ((i + 1) % 1024) ≡ 8 * i + 8 = omega arith in
        rw place
          (rw (back, on) at (next_inside w operand (at_slot s found) mem found a (omega arith)))

    step_round :
        i ≡ 1023
        → steps 8 code operand (placed w (at_slot s found) mem found a check_next_index 0)
          ≡ placed w (before_slot_of ((i + 1) % 1024) s found) mem (8 * i + 8) 8192 try_to_insert 0
    step_round last =
        let on : (8 * i + 8) % 2 ^ 64 ≡ 8 * i + 8 = omega arith in
        let place : 8 * ((i + 1) % 1024) ≡ 0 = omega arith in
        let ended : Regs = record (before_slot s found) { index = 8 * i + 8 } in
        rw place (
          steps-add 5 3 w operand (placed w (at_slot s found) mem found a check_next_index 0)
            (rw (back, on) at (next_ends w operand (at_slot s found) mem found a (omega arith)))
            (wrap w operand ended mem (8 * i + 8) 8192))

    pub other_slot :
        found ≢ 0
        → found ≢ a
        → Runs w operand here (before_slot_of ((i + 1) % 1024) s found) mem try_to_insert
    other_slot taken other = elim (ℕ_discrete i 1023) [
      | yes last ↦ record {
        fuel = 16;
        left = 8 * i + 8;
        right = 8192;
        ran = steps-add 8 8 w operand here (go_next taken other) (step_round last);
      }
      | no inside ↦ record {
        fuel = 13;
        left = 8 * i + 8;
        right = 8192;
        ran = steps-add 8 5 w operand here (go_next taken other) (step_inside inside);
      }
    ]

-- ===== src/Collector/Machine.antt =====
-- instrumentation/redo_entry_collector.c: the machine that runs the code, with the processor's instructions
-- on words of 64 bits.
use mangosteen_code.Common.{
  ℕ, zero, suc, ◌+◌, ◌-◌, ◌*◌, ◌%◌, ◌/◌, ◌^◌, ◌==◌, Bool, true, false, not, List, [], ◌∷◌, ltb,
  if◌then◌else◌, update,
}
use mangosteen_code.Collector.{
  Reg, Label, Condition, Instr, reg_storing_destination, reg_storing_hash_set_pointer, range, rax,
  value_at_index, rsp, counter_pointer_reg, insert_stubs, try_to_insert, check_if_duplicate,
  check_next_index, process_remaining, use_overflow_buffer, restore_registers, je, jne, jge, jl,
  mov_ld, mov_st, mov_reg, mov_imm, xor_self, and_reg, and_imm, add_reg, add_imm, sub_reg, imul_imm,
  cmp_reg, cmp_imm, jcc, jmp, label, get_mem_addr,
}

pub record Regs : Type 0 where
  pub destination : ℕ
  pub pointer : ℕ
  pub range_end : ℕ
  pub index : ℕ
  pub value : ℕ
  pub count_address : ℕ
  pub counter : ℕ

-- The registers, the memory, the operands of the last comparison, and the instructions from the next on.
pub record Machine : Type 0 where
  pub regs : Regs
  pub mem : ℕ → ℕ
  pub left : ℕ
  pub right : ℕ
  pub rest : List Instr

abbrev pub get : Regs → Reg → ℕ
get r reg_storing_destination = r.destination
get r reg_storing_hash_set_pointer = r.pointer
get r range = r.range_end
get r rax = r.index
get r value_at_index = r.value
get r rsp = r.count_address
get r counter_pointer_reg = r.counter

abbrev pub set : Regs → Reg → ℕ → Regs
set r reg_storing_destination v = record r { destination = v }
set r reg_storing_hash_set_pointer v = record r { pointer = v }
set r range v = record r { range_end = v }
set r rax v = record r { index = v }
set r value_at_index v = record r { value = v }
set r rsp v = record r { count_address = v }
set r counter_pointer_reg v = record r { counter = v }

-- The bits that both numbers have, of the lowest `bits`.
unfoldable pub bits_and : ℕ → ℕ → ℕ → ℕ
bits_and zero a b = 0
bits_and (suc bits) a b = (a % 2) * (b % 2) + 2 * bits_and bits (a / 2) (b / 2)

-- A signed comparison of two words
abbrev pub less_signed : ℕ → ℕ → Bool
less_signed a b = ltb ((a + 2 ^ 63) % 2 ^ 64) ((b + 2 ^ 63) % 2 ^ 64)

abbrev pub test : Condition → ℕ → ℕ → Bool
test je a b = a == b
test jne a b = not (a == b)
test jge a b = not (less_signed a b)
test jl a b = less_signed a b

abbrev pub same_label : Label → Label → Bool
same_label insert_stubs insert_stubs = true
same_label try_to_insert try_to_insert = true
same_label check_if_duplicate check_if_duplicate = true
same_label check_next_index check_next_index = true
same_label process_remaining process_remaining = true
same_label use_overflow_buffer use_overflow_buffer = true
same_label restore_registers restore_registers = true
same_label _ _ = false

abbrev pub is_label : Instr → Label → Bool
is_label (label l) l' = same_label l l'
is_label _ _ = false

-- The instructions from a label on.
abbrev pub from_label : Label → List Instr → List Instr
from_label l [] = []
from_label l (i ∷ code) = let rest = from_label l code in if is_label i l then i ∷ code else rest

-- One instruction of `code`; `rest` is what follows it, and `operand` the address of the store.
unfoldable pub step_in : List Instr → ℕ → Instr → List Instr → Machine → Machine
unfolding bits_and
step_in code operand (mov_ld to base offset) rest m = record m {
  regs = set m.regs to (m.mem (get m.regs base + offset));
  rest = rest;
}
step_in code operand (mov_st base from) rest m = record m {
  mem = update m.mem (get m.regs base) (get m.regs from);
  rest = rest;
}
step_in code operand (mov_reg to from) rest m = record m {
  regs = set m.regs to (get m.regs from);
  rest = rest;
}
step_in code operand (mov_imm to value) rest m = record m {
  regs = set m.regs to value;
  rest = rest;
}
step_in code operand (xor_self r) rest m = record m { regs = set m.regs r 0; rest = rest }
step_in code operand (and_reg to from) rest m = record m {
  regs = set m.regs to (bits_and 64 (get m.regs to) (get m.regs from));
  rest = rest;
}
step_in code operand (and_imm to value) rest m = record m {
  regs = set m.regs to (bits_and 64 (get m.regs to) value);
  rest = rest;
}
step_in code operand (add_reg to from) rest m = record m {
  regs = set m.regs to ((get m.regs to + get m.regs from) % 2 ^ 64);
  rest = rest;
}
step_in code operand (add_imm to value) rest m = record m {
  regs = set m.regs to ((get m.regs to + value) % 2 ^ 64);
  rest = rest;
}
step_in code operand (sub_reg to from) rest m = record m {
  regs = set m.regs to ((get m.regs to + 2 ^ 64 - get m.regs from) % 2 ^ 64);
  rest = rest;
}
step_in code operand (imul_imm to value) rest m = record m {
  regs = set m.regs to (get m.regs to * value % 2 ^ 64);
  rest = rest;
}
step_in code operand (cmp_reg a b) rest m = record m {
  left = get m.regs a;
  right = get m.regs b;
  rest = rest;
}
step_in code operand (cmp_imm a value) rest m = record m {
  left = get m.regs a;
  right = value;
  rest = rest;
}
step_in code operand (jcc c l) rest m = record m {
  rest = if test c m.left m.right then from_label l code else rest;
}
step_in code operand (jmp l) rest m = record m { rest = from_label l code }
step_in code operand (label l) rest m = record m { rest = rest }
step_in code operand (get_mem_addr to scratch) rest m = record m {
  regs = set (set m.regs scratch 0) to operand;
  rest = rest;
}

-- At the end of the code the machine stays.
abbrev pub step_at : List Instr → ℕ → List Instr → Machine → Machine
step_at code operand [] m = m
step_at code operand (i ∷ rest) m = step_in code operand i rest m

unfoldable pub steps : ℕ → List Instr → ℕ → Machine → Machine
unfolding step_in
steps zero code operand m = m
steps (suc n) code operand m = steps n code operand (step_at code operand m.rest m)

-- ===== src/Collector.antt =====
-- instrumentation/redo_entry_collector.c, `store_address_in_hash_set`: the code that the instrumentation
-- puts before a store of the application, as a list of instructions, and a machine that runs it. The
-- machine has the seven registers that `instrument_mem` of instrument_front_end.c reserves, and a memory
-- of words of eight bytes by address: every access of the code is eight bytes wide. The configuration
-- defines neither STACK_FILTERING nor DISABLE_OVERFLOW_BUFFER for the C compiler, so nothing jumps to
-- the overflow buffer and its call is left out; PAYLOAD_SIZE is 32 and HASH_SET_SIZE 1024.
pub mod Machine
pub mod And
pub mod Table
pub mod Blocks
pub mod Scan
pub mod Probe
pub mod Entry
pub mod Store
pub mod Cover
use mangosteen_code.Common.{
  ℕ, zero, suc, ◌+◌, ◌-◌, ◌*◌, ◌%◌, ◌/◌, ◌^◌, ◌==◌, Bool, true, false, not, List, [], ◌∷◌, ◌++◌,
  ltb, if◌then◌else◌, update,
}

pub data Reg : Type 0 where
  reg_storing_destination reg_storing_hash_set_pointer range rax value_at_index rsp
        counter_pointer_reg :
      Reg

pub data Label : Type 0 where
  insert_stubs try_to_insert check_if_duplicate check_next_index process_remaining
        use_overflow_buffer restore_registers :
      Label

-- OP_je, OP_jne, OP_jge and OP_jl
pub data Condition : Type 0 where
  je jne jge jl : Condition

-- The instructions that the code is made of. `get_mem_addr` is drutil_insert_get_mem_addr: it puts the
-- address of the application's operand into the first register and may use the second.
pub data Instr : Type 0 where
  mov_ld : (to base : Reg) (offset : ℕ) → Instr
  mov_st : (base from : Reg) → Instr
  mov_reg : (to from : Reg) → Instr
  mov_imm : (to : Reg) (value : ℕ) → Instr
  xor_self : (r : Reg) → Instr
  and_reg : (to from : Reg) → Instr
  and_imm : (to : Reg) (value : ℕ) → Instr
  add_reg : (to from : Reg) → Instr
  add_imm : (to : Reg) (value : ℕ) → Instr
  sub_reg : (to from : Reg) → Instr
  imul_imm : (to : Reg) (value : ℕ) → Instr
  cmp_reg : (a b : Reg) → Instr
  cmp_imm : (a : Reg) (value : ℕ) → Instr
  jcc : (c : Condition) (l : Label) → Instr
  jmp : (l : Label) → Instr
  label : (l : Label) → Instr
  get_mem_addr : (to scratch : Reg) → Instr

-- offsetof(per_thread_t, ...)
abbrev pub number_of_hash_set_entries_offset : ℕ
number_of_hash_set_entries_offset = 0

abbrev pub hash_set_entries_offset : ℕ
hash_set_entries_offset = 8

abbrev pub combiner_offset : ℕ
combiner_offset = 5912

-- HASH_SET_SIZE, REAL_HASH_SET_SIZE and PAYLOAD_SIZE
abbrev pub hash_set_size : ℕ
hash_set_size = 1024

abbrev pub real_hash_set_size : ℕ
real_hash_set_size = 8192

abbrev pub payload_size : ℕ
payload_size = 32

-- 0xE0 as a signed byte, extended to 64 bits
abbrev pub aligned_mask : ℕ
aligned_mask = 18446744073709551584

unfoldable pub increment_entry_counter : List Instr
increment_entry_counter = add_imm counter_pointer_reg 1 ∷ mov_st rsp counter_pointer_reg ∷ []

unfoldable pub load_counter_in_register : List Instr
load_counter_in_register =
    mov_ld rsp reg_storing_hash_set_pointer number_of_hash_set_entries_offset
    ∷ mov_ld counter_pointer_reg rsp 0
    ∷ []

unfoldable pub check_combiner_state : List Instr
check_combiner_state =
    mov_ld value_at_index reg_storing_hash_set_pointer combiner_offset
    ∷ cmp_imm value_at_index 0
    ∷ jcc je restore_registers
    ∷ []

unfoldable pub check_remaining_space_in_hash_set : List Instr
unfolding load_counter_in_register
check_remaining_space_in_hash_set = load_counter_in_register

-- instrlist_meta_preinsert before the last instruction so far
unfoldable pub preinsert_before_last : Instr → List Instr → List Instr
preinsert_before_last i [] = i ∷ []
preinsert_before_last i (x ∷ []) = i ∷ x ∷ []
preinsert_before_last i (x ∷ y ∷ rest) = x ∷ preinsert_before_last i (y ∷ rest)

-- Up to the label of the loop: the address of the store, its end, and the first block.
unfoldable pub prepare_range : ℕ → List Instr
unfolding check_combiner_state check_remaining_space_in_hash_set
prepare_range write_size =
    (xor_self value_at_index ∷ check_combiner_state)
    ++ (check_remaining_space_in_hash_set
        ++ (mov_ld reg_storing_hash_set_pointer reg_storing_hash_set_pointer hash_set_entries_offset
            ∷ get_mem_addr reg_storing_destination range
            ∷ mov_reg range reg_storing_destination
            ∷ add_imm range write_size
            ∷ and_imm reg_storing_destination aligned_mask
            ∷ []))

-- The test of the loop over the blocks, and the first slot of a block.
unfoldable pub find_index : List Instr
find_index =
    label insert_stubs
    ∷ cmp_reg reg_storing_destination range
    ∷ jcc jge restore_registers
    ∷ xor_self rax
    ∷ mov_imm rax 1023
    ∷ and_reg rax reg_storing_destination
    ∷ imul_imm rax 8
    ∷ []

-- One slot.
unfoldable pub try_slot : List Instr
unfolding increment_entry_counter
try_slot =
    (label try_to_insert
      ∷ add_reg reg_storing_hash_set_pointer rax
      ∷ mov_ld value_at_index reg_storing_hash_set_pointer 0
      ∷ cmp_imm value_at_index 0
      ∷ jcc jne check_if_duplicate
      ∷ mov_st reg_storing_hash_set_pointer reg_storing_destination
      ∷ [])
    ++ (increment_entry_counter
        ++ (jmp process_remaining
            ∷ label check_if_duplicate
            ∷ cmp_reg value_at_index reg_storing_destination
            ∷ jcc jne check_next_index
            ∷ jmp process_remaining
            ∷ []))

-- The next slot, round the end of the table.
unfoldable pub next_slot : List Instr
next_slot =
    label check_next_index
    ∷ sub_reg reg_storing_hash_set_pointer rax
    ∷ add_imm rax 8
    ∷ cmp_imm rax real_hash_set_size
    ∷ jcc jl try_to_insert
    ∷ xor_self rax
    ∷ mov_imm rax 0
    ∷ jmp try_to_insert
    ∷ []

-- The next block. The last two jumps are inserted before `assemblyArgs->instr`, which is the
-- conditional jump.
unfoldable pub next_block : List Instr
unfolding preinsert_before_last
next_block = preinsert_before_last (jmp restore_registers) (
    preinsert_before_last (jmp insert_stubs) (
      label process_remaining
      ∷ sub_reg reg_storing_hash_set_pointer rax
      ∷ add_imm reg_storing_destination payload_size
      ∷ cmp_reg reg_storing_destination range
      ∷ jcc jge restore_registers
      ∷ []))

-- The call of `dump_address_to_overflow_buffer` is left out; a jump stands before the first label.
unfoldable pub leave_code : List Instr
leave_code =
    label use_overflow_buffer
    ∷ get_mem_addr reg_storing_destination range
    ∷ label restore_registers
    ∷ []

unfoldable pub store_address_in_hash_set : ℕ → List Instr
unfolding prepare_range find_index try_slot next_slot next_block leave_code
store_address_in_hash_set write_size =
    prepare_range write_size
    ++ (find_index ++ (try_slot ++ (next_slot ++ (next_block ++ leave_code))))

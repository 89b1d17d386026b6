-- ===== src/Transaction.antt =====
-- instrumentation/instrument_front_end.c with redo_entry_collector.c: the application's part of a
-- transaction, from `instrument_start` to `instrument_stop`, as a sequence of stores and of calls of
-- memcpy. The words of the per-thread record and of its hash set are DynamoRIO's, apart from the
-- application's memory. The service's own code is not here: the actions are any that it makes.
pub mod Table
pub mod Length
pub mod Collect
pub mod Survives
use mangosteen_code.Common.{
  ℕ, zero, suc, ◌+◌, ◌*◌, ◌/◌, ◌<◌, ◌^◌, ◌≤◌, ◌≡◌, ◌≢◌, Bool, true, false, not, List, [], ◌∷◌, some,
  length, if◌then◌else◌, ◌⊎◌,
}
use mangosteen_code.Memory.{Mem, read, write}
use mangosteen_code.Collector.{restore_registers, combiner_offset, hash_set_entries_offset}
use mangosteen_code.Collector.Machine.{Regs}
use mangosteen_code.Collector.Scan.{Runs}
use mangosteen_code.Collector.Entry.{begun}
use mangosteen_code.Instrumentation.{FrontEnd, wrap_pre, hash_set_size}

-- A destination operand of an application's instruction, as `event_bb_insert` tells them apart.
pub data Operand : Type 0 where
  no_memory_reference : Operand
  base_disp : (stack_pointer : Bool) → Operand
  other_memory_reference : Operand

-- The conditions under which `event_bb_insert` passes a destination to `instrument_mem`.
abbrev pub instruments : Operand → Bool
instruments no_memory_reference = false
instruments (base_disp stack_pointer) = not stack_pointer
instruments other_memory_reference = true

-- The loop of `event_bb_insert` over the destinations from position `i` on: the positions that it
-- instruments.
unfoldable pub event_bb_insert : ℕ → List Operand → List ℕ
event_bb_insert i [] = []
event_bb_insert i (dst ∷ dsts) =
    let rest = event_bb_insert (i + 1) dsts in if instruments dst then i ∷ rest else rest

-- What the application does: a store of bytes through an operand, with the registers and the flags
-- that the code before the store finds, and a call of memcpy.
pub data Action : Type 0 where
  store : (dst : Operand) (address : ℕ) (bytes : List ℕ) (regs : Regs) (left right : ℕ) → Action
  copy : (dst src size : ℕ) → Action

-- Where the thread has its `per_thread_t`, the table and the count that it points to.
pub record Layout : Type 0 where
  pub pointer : ℕ
  pub base : ℕ
  pub count : ℕ

-- `n` words of the table from `a` on
unfoldable pub table_slots : (ℕ → ℕ) → ℕ → ℕ → List ℕ
table_slots words a zero = []
table_slots words a (suc n) = words a ∷ table_slots words (a + 8) n

-- The hash set that `instrument_stop` will find, and the application's store itself.
unfoldable pub after_store : Layout → (ℕ → ℕ) → FrontEnd → ℕ → List ℕ → FrontEnd
unfolding table_slots
after_store l words f address bytes =
    let t = f.thread in
    record f {
      thread = record t {
        hash_set_entries = table_slots words l.base hash_set_size;
        number_of_hash_set_entries = words l.count;
      };
      mem = write f.mem address bytes;
    }

-- The last instruction of `instrument_mem` before the code: the thread's record into the register.
abbrev pub enter_code : Layout → Regs → Regs
enter_code l r = record r { pointer = l.pointer }

-- The actions take the words and the front end from one state to another: a store that is
-- instrumented runs the code first, another only stores, and a call of memcpy goes through `wrap_pre`.
pub data Executes (l : Layout)
    : (ℕ → ℕ) → FrontEnd → List Action → (ℕ → ℕ) → FrontEnd → Type 0 where
  done : {words : ℕ → ℕ} {f : FrontEnd} → Executes l words f [] words f
  instrumented :
      {words words' words'' : ℕ → ℕ} {f f' : FrontEnd} {dst : Operand} {address : ℕ}
      {bytes : List ℕ} {regs regs' : Regs} {left right : ℕ} {rest : List Action}
      → instruments dst ≡ true
      → Runs
          (length bytes)
          address
          (begun (length bytes) (enter_code l regs) words left right 0)
          regs'
          words'
          restore_registers
      → Executes l words' (after_store l words' f address bytes) rest words'' f'
      → Executes l words f (store dst address bytes regs left right ∷ rest) words'' f'
  skipped :
      {words words' : ℕ → ℕ} {f f' : FrontEnd} {dst : Operand} {address : ℕ} {bytes : List ℕ}
      {regs : Regs} {left right : ℕ} {rest : List Action}
      → instruments dst ≡ false
      → Executes l words (record f { mem = write f.mem address bytes }) rest words' f'
      → Executes l words f (store dst address bytes regs left right ∷ rest) words' f'
  copied :
      {words words' : ℕ → ℕ} {f g f' : FrontEnd} {dst src size : ℕ} {rest : List Action}
      → wrap_pre f dst src size ≡ some (g, 0)
      → Executes l words g rest words' f'
      → Executes l words f (copy dst src size ∷ rest) words' f'

-- The memory that the application expects of its actions
unfoldable pub effect : List Action → Mem → Mem
effect [] m = m
effect (store dst address bytes regs left right ∷ rest) m = effect rest (write m address bytes)
effect (copy dst src size ∷ rest) m = effect rest (write m dst (read m src size))

-- Stores and copies inside the addresses that the code handles: a store from 1024 on and below 2^63,
-- a copy of fewer than 2^31 bytes.
abbrev pub Fits : List Action → Type 0
Fits [] = Unit
Fits (store dst address bytes regs left right ∷ rest) =
    (1024 ≤ address) × (address + length bytes + 32 < 2 ^ 63) × Fits rest
Fits (copy dst src size ∷ rest) = (size < 2 ^ 31) × (dst + size < 2 ^ 64) × Fits rest

-- The slots that the instrumented stores take at most, the number of copies, and the records that the
-- copies log at most
unfoldable pub slots_for : List Action → ℕ
slots_for [] = 0
slots_for (store dst address bytes regs left right ∷ rest) =
    if instruments dst then length bytes / 32 + 2 + slots_for rest else slots_for rest
slots_for (copy dst src size ∷ rest) = slots_for rest

unfoldable pub copies : List Action → ℕ
copies [] = 0
copies (store dst address bytes regs left right ∷ rest) = copies rest
copies (copy dst src size ∷ rest) = suc (copies rest)

unfoldable pub records_for : List Action → ℕ
records_for [] = 0
records_for (store dst address bytes regs left right ∷ rest) = records_for rest
records_for (copy dst src size ∷ rest) = size / 32 + 2 + records_for rest

-- The byte is stored through the stack pointer, by an action that is not instrumented.
abbrev pub OnStack : List Action → ℕ → Type 0
OnStack [] x = ⊥
OnStack (store dst address bytes regs left right ∷ rest) x =
    ((instruments dst ≡ false) × (address ≤ x) × (x < address + length bytes)) ⊎ OnStack rest x
OnStack (copy dst src size ∷ rest) x = OnStack rest x

-- The thread's record names the table and the count, and nothing of the three overlaps.
pub record IsLayout (l : Layout) (words : ℕ → ℕ) : Type 0 where
  pub low : l.base + 8192 < 2 ^ 63
  pub apart : (i : ℕ) → i < 1024 → l.count ≢ l.base + 8 * i
  pub combiner_apart : l.pointer + combiner_offset ≢ l.count
  pub count_apart : l.pointer ≢ l.count
  pub entries_apart : l.pointer + hash_set_entries_offset ≢ l.count
  pub combiner_outside : (i : ℕ) → i < 1024 → l.pointer + combiner_offset ≢ l.base + 8 * i
  pub count_outside : (i : ℕ) → i < 1024 → l.pointer ≢ l.base + 8 * i
  pub entries_outside : (i : ℕ) → i < 1024 → l.pointer + hash_set_entries_offset ≢ l.base + 8 * i
  pub busy : words (l.pointer + combiner_offset) ≢ 0
  pub count_at : words l.pointer ≡ l.count
  pub table_at : words (l.pointer + hash_set_entries_offset) ≡ l.base

-- ===== src/Collector/Store.antt =====
-- instrumentation/redo_entry_collector.c and hash_set/hash_set.c: the loop over the blocks of a store.
use native.Mathlib.Nat.{mod-lt}
use mangosteen_code.Common.{
  ℕ, zero, suc, ◌+◌, ◌*◌, ◌/◌, ◌%◌, ◌^◌, ◌<◌, ◌≡◌, ◌≢◌, sym, ◌∙◌, ap, arith, inl, inr, Bool-cases,
  some, none, Option, ltb, ltb→lt, ltb→le, if◌then◌else◌, ◌>>=◌, >>=-eq-some,
}
use mathlib.Core.Option.{some-injective}
use mangosteen_code.HashSet.{HashSet, insert, probe}
use mangosteen_code.Collector.{
  insert_stubs, try_to_insert, restore_registers, payload_size, combiner_offset,
  hash_set_entries_offset,
}
use mangosteen_code.Collector.Machine.{Machine, Regs}
use mangosteen_code.Collector.Blocks.{placed, in_range, first_slot, end_of_range}
use mangosteen_code.Collector.Table.{IsTable, regs_for, steps-add}
use mangosteen_code.Collector.Scan.{Runs}
use mangosteen_code.Collector.Probe.{Runs-then, probe-BackWith}
use mangosteen_code.Collector.Entry.{begun, busy-Runs}

-- The blocks from `a` to before `end_address`, each inserted into the set.
unfoldable pub insert_blocks : ℕ → HashSet → ℕ → ℕ → Option HashSet
insert_blocks zero s a end_address = none
insert_blocks (suc fuel) s a end_address =
    let more = insert s a >>= λ t. insert_blocks fuel t (a + payload_size) end_address in
    if ltb a end_address then more else some s

-- The machine comes to the end with the table of the set `s`.
pub record EndsWith (w operand b c : ℕ) (before : ℕ → ℕ) (m : Machine) (s : HashSet) : Type 0 where
  pub regs : Regs
  pub mem : ℕ → ℕ
  pub runs : Runs w operand m regs mem restore_registers
  pub table : IsTable b c before mem s

module _ (w operand b c end_address : ℕ) (before : ℕ → ℕ) (low : b + 8192 < 2 ^ 63)
    (apart : (i : ℕ) → i < 1024 → c ≢ b + 8 * i) (inside : end_address + 32 < 2 ^ 63) where
  abbrev looping : HashSet → ℕ → ℕ → ℕ → (ℕ → ℕ) → ℕ → ℕ → Machine
  looping s a i v mem l t = placed w (regs_for b c a end_address s i v) mem l t insert_stubs 0

  -- The first slot of the next block
  enter :
      (s : HashSet) (a i v l t : ℕ) (mem : ℕ → ℕ)
      → a < end_address
      → Runs w operand
          (looping s a i v mem l t)
          (regs_for b c a end_address s (8 * (a % 1024)) v)
          mem
          try_to_insert
  enter s a i v l t mem more =
      let r = regs_for b c a end_address s i v in
      let swap : a % 1024 * 8 ≡ 8 * (a % 1024) = omega arith in
      record {
        fuel = 7;
        left = a;
        right = end_address;
        ran =
            steps-add 3 4 w operand (looping s a i v mem l t)
              (in_range w operand r mem l t more (omega arith))
              (rw swap at (first_slot w operand r mem a end_address));
      }

  pub insert_blocks-EndsWith :
      (fuel : ℕ) (s : HashSet) (a i v l t : ℕ) (mem : ℕ → ℕ) (s' : HashSet)
      → a < end_address + 32
      → IsTable b c before mem s
      → insert_blocks fuel s a end_address ≡ some s'
      → EndsWith w operand b c before (looping s a i v mem l t) s'
  unfolding insert_blocks insert
  insert_blocks-EndsWith zero s a i v l t mem s' la h ran = ground (arith, ran)
  insert_blocks-EndsWith (suc fuel) s a i v l t mem s' la h ran =
      elim (Bool-cases (ltb a end_address)) [
        | inl more ↦
            let (u, inserted, rest) = >>=-eq-some (insert s a) _ (rw more at ran) in
            let first = enter s a i v l t mem (ltb→lt _ _ more) in
            let there =
              probe-BackWith w operand b c a end_address before low apart (omega arith) 1024 s
                (a % 1024) v first.left first.right mem u (mod-lt a (omega arith)) h
                (ap (λ n. probe n s (a % n) a) (sym h.size) ∙ inserted) in
            let last =
              insert_blocks-EndsWith fuel u (a + 32) there.index there.value there.runs.left
                there.runs.right there.mem s' (ground (arith, ltb→lt _ _ more)) there.table rest in
            record {
              regs = last.regs;
              mem = last.mem;
              runs = Runs-then first (Runs-then there.runs last.runs);
              table = last.table;
            }
        | inr done ↦
            let r = regs_for b c a end_address s i v in
            let same_set : s ≡ s' = some-injective _ _ (rw done at ran) in
            rw (← same_set) (record {
              regs = r;
              mem = mem;
              runs = record {
                fuel = 3;
                left = a;
                right = end_address;
                ran = end_of_range w operand r mem l t (ltb→le _ _ done) (omega arith);
              };
              table = h;
            })
      ]

-- While updates are collected, the code before a store ends, with the table of the set that has taken the
-- blocks of the store one after another, and with the rest of the memory as before.
pub store-EndsWith :
    (w operand b c fuel : ℕ) (r : Regs) (mem : ℕ → ℕ) (l t : ℕ) (s s' : HashSet)
    → b + 8192 < 2 ^ 63
    → ((i : ℕ) → i < 1024 → c ≢ b + 8 * i)
    → operand + w + 32 < 2 ^ 63
    → mem (r.pointer + combiner_offset) ≢ 0
    → mem r.pointer ≡ c
    → mem (r.pointer + hash_set_entries_offset) ≡ b
    → IsTable b c mem mem s
    → insert_blocks fuel s (operand / 32 * 32) (operand + w) ≡ some s'
    → EndsWith w operand b c mem (begun w r mem l t 0) s'
store-EndsWith w operand b c fuel r mem l t s s' low apart inside busy count_at table_at h ran =
    let first = busy-Runs w operand r mem l t busy (omega arith) in
    let end_at : (operand + w) % 2 ^ 64 ≡ operand + w = omega arith in
    let first' : Runs w operand (begun w r mem l t 0)
        (regs_for b c (operand / 32 * 32) (operand + w) s r.index
          (mem (r.pointer + combiner_offset)))
        mem insert_stubs =
      rw (count_at, table_at, h.count, end_at) at first in
    let last =
      insert_blocks-EndsWith w operand b c (operand + w) mem low apart inside fuel s
        (operand / 32 * 32) r.index (mem (r.pointer + combiner_offset)) first'.left first'.right mem
        s' (omega arith) h ran in
    record {
      regs = last.regs;
      mem = last.mem;
      runs = Runs-then first' last.runs;
      table = last.table;
    }

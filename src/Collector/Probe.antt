-- ===== src/Collector/Probe.antt =====
-- instrumentation/redo_entry_collector.c and hash_set/hash_set.c: the code probes the table the way that
-- the insertion of the hash set does.
use native.Mathlib.Nat.{mod-lt}
use mathlib.Core.Option.{some-injective}
use mangosteen_code.Common.{
  ℕ, zero, suc, ◌+◌, ◌*◌, ◌%◌, ◌^◌, ◌<◌, ◌≡◌, ◌≢◌, sym, ◌∙◌, ap, arith, inl, inr, Bool-cases, ==→eq,
  ==→ne, ◌==◌, some, update,
}
use mangosteen_code.HashSet.{HashSet, take_slot, collide, count_duplicate, probe}
use mangosteen_code.Collector.{Label, try_to_insert, insert_stubs}
use mangosteen_code.Collector.Machine.{Machine, Regs}
use mangosteen_code.Collector.Blocks.{placed}
use mangosteen_code.Collector.Table.{IsTable, regs_for, take_slot-IsTable, steps-add}
use mangosteen_code.Collector.Scan.{Runs, free_slot, duplicate_slot, other_slot}

collide-IsTable :
    {b c : ℕ} {before mem : ℕ → ℕ} {s : HashSet}
    → IsTable b c before mem s
    → IsTable b c before mem (collide s)
collide-IsTable h = record {
  size = h.size;
  entries = h.entries;
  count = h.count;
  elsewhere = h.elsewhere;
}

count_duplicate-IsTable :
    {b c : ℕ} {before mem : ℕ → ℕ} {s : HashSet}
    → IsTable b c before mem s
    → IsTable b c before mem (count_duplicate s)
count_duplicate-IsTable h = record {
  size = h.size;
  entries = h.entries;
  count = h.count;
  elsewhere = h.elsewhere;
}

-- The machine comes back to the test of the loop, with the table of the set `s` and the next block `a`.
pub record BackWith (w operand b c a end_address : ℕ) (before : ℕ → ℕ) (m : Machine) (s : HashSet)
    : Type 0 where
  pub index : ℕ
  pub value : ℕ
  pub mem : ℕ → ℕ
  pub runs : Runs w operand m (regs_for b c a end_address s index value) mem insert_stubs
  pub table : IsTable b c before mem s

pub Runs-then :
    {w operand : ℕ} {m : Machine} {r r' : Regs} {mem mem' : ℕ → ℕ} {at at' : Label}
    → (first : Runs w operand m r mem at)
    → Runs w operand (placed w r mem first.left first.right at 0) r' mem' at'
    → Runs w operand m r' mem' at'
Runs-then {m = m} first second = record {
  fuel = first.fuel + second.fuel;
  left = second.left;
  right = second.right;
  ran = steps-add first.fuel second.fuel _ _ m first.ran second.ran;
}

module _ (w operand b c a end_address : ℕ) (before : ℕ → ℕ) (low : b + 8192 < 2 ^ 63)
    (apart : (i : ℕ) → i < 1024 → c ≢ b + 8 * i) (below : a + 32 < 2 ^ 64) where
  abbrev at_slot : HashSet → ℕ → ℕ → (ℕ → ℕ) → ℕ → ℕ → Machine
  at_slot s i v mem l t = placed w (regs_for b c a end_address s (8 * i) v) mem l t try_to_insert 0

  abbrev Back : Machine → HashSet → Type 0
  Back = BackWith w operand b c (a + 32) end_address before

  pub probe-BackWith :
      (fuel : ℕ) (s : HashSet) (i v l t : ℕ) (mem : ℕ → ℕ) (s' : HashSet)
      → i < 1024
      → IsTable b c before mem s
      → probe fuel s i a ≡ some s'
      → Back (at_slot s i v mem l t) s'
  unfolding probe
  probe-BackWith zero s i v l t mem s' lt h ran = ground (arith, ran)
  probe-BackWith (suc fuel) s i v l t mem s' lt h ran =
      let e = h.entries i lt in
      elim (Bool-cases (s.set_of_entries i == 0)) [
        | inl empty ↦
            let same_set : take_slot s i a ≡ s' = some-injective _ _ (rw empty at ran) in
            rw (← same_set) (record {
              index = 8 * i;
              value = mem (b + 8 * i);
              mem = update (update mem (b + 8 * i) a) c ((s.stats.number_of_entries + 1) % 2 ^ 64);
              runs =
                  free_slot w operand b c a end_address i low below lt s v l t mem
                    (e ∙ ==→eq _ _ empty);
              table = take_slot-IsTable b c before low apart mem s i a lt h;
            })
        | inr taken ↦ elim (Bool-cases (s.set_of_entries i == a)) [
          | inl same ↦
              let same_set : count_duplicate (collide s) ≡ s' =
                some-injective _ _ (rw (taken, same) at ran) in
              rw (← same_set) (record {
                index = 8 * i;
                value = mem (b + 8 * i);
                mem = mem;
                runs =
                    duplicate_slot w operand b c a end_address i low below lt s v l t mem
                      (λ z. ==→ne _ _ taken (sym e ∙ z)) (e ∙ ==→eq _ _ same);
                table = count_duplicate-IsTable (collide-IsTable h);
              })
          | inr other ↦
              let first =
                other_slot w operand b c a end_address i low below lt s v l t mem
                  (λ z. ==→ne _ _ taken (sym e ∙ z)) (λ z. ==→ne _ _ other (sym e ∙ z)) in
              let rest =
                probe-BackWith fuel (collide s) ((i + 1) % 1024) (mem (b + 8 * i)) first.left
                  first.right mem s' (mod-lt (i + 1) (omega arith)) (collide-IsTable h)
                  (rw (taken, other, ap (λ n. (i + 1) % n) h.size) at ran) in
              record {
                index = rest.index;
                value = rest.value;
                mem = rest.mem;
                runs = Runs-then first rest.runs;
                table = rest.table;
              }
        ]
      ]

-- ===== src/Collector/Cover.antt =====
-- instrumentation/redo_entry_collector.c and hash_set/hash_set.c: the blocks that the set has after the
-- code before a store.
use mangosteen_code.Common.{
  ℕ, zero, suc, ◌+◌, ◌*◌, ◌/◌, ◌%◌, ◌^◌, ◌<◌, ◌≤◌, ◌≡◌, ◌≢◌, refl, arith, inl, inr, ◌⊎◌, Bool-cases,
  some, ltb, ltb→lt, ltb→le, le→ltb, false, dec_lt,
}
use mangosteen_code.HashSet.{HashSet}
use mangosteen_code.HashSet.Slots.{IsHashSet, Member, Inserted}
use mangosteen_code.HashSet.Insert.{insert_lem}
use mangosteen_code.HashSet.Room.{HasRoom, insert-HasRoom}
use mangosteen_code.Collector.Store.{insert_blocks, EndsWith, store-EndsWith}
use mangosteen_code.Collector.{combiner_offset, hash_set_entries_offset}
use mangosteen_code.Collector.Machine.{Regs}
use mangosteen_code.Collector.Table.{IsTable}
use mangosteen_code.Collector.Entry.{begun}

-- The set has the blocks from `a` to before `end_address`, and no other block that it did not have.
pub record Collected (s : HashSet) (a end_address : ℕ) (s' : HashSet) : Type 0 where
  pub set : IsHashSet s'
  pub stored : (x : ℕ) → a ≤ x → x < end_address → Member s' (x / 32 * 32)
  pub kept : (x : ℕ) → x ≢ 0 → Member s x → Member s' x
  pub only :
      (x : ℕ) → x ≢ 0 → Member s' x → (Member s x) ⊎ ((a ≤ x) × (x < end_address) × (x % 32 ≡ 0))

nothing-Collected :
    (s : HashSet) {a end_address : ℕ} → IsHashSet s → end_address ≤ a → Collected s a end_address s
nothing-Collected s h past = record {
  set = h;
  stored = λ x lo hi. absurd (omega arith);
  kept = λ x nz m. m;
  only = λ x nz m. inl m;
}

-- One block, and then the others.
first-Collected :
    {s s' s'' : HashSet} {a end_address : ℕ}
    → a ≢ 0
    → a % 32 ≡ 0
    → a < end_address
    → Inserted s a s'
    → Collected s' (a + 32) end_address s''
    → Collected s a end_address s''
first-Collected {s'' = s''} {a = a} nonzero aligned more one others = record {
  set = others.set;
  stored = λ x lo hi. elim (dec_lt x (a + 32)) [
    | yes here ↦
        let block : x / 32 * 32 ≡ a = omega arith in rw block (others.kept a nonzero one.stored)
    | no beyond ↦ others.stored x (omega arith) hi
  ];
  kept = λ x nz m. others.kept x nz (one.kept x nz m);
  only = λ x nz m. elim (others.only x nz m) [
    | inl before ↦ elim (one.only x nz before) [
      | inl earlier ↦ inl earlier
      | inr here ↦ inr (omega arith, omega arith, rw here aligned)
    ]
    | inr new ↦ inr (omega (arith, new.0), new.1, new.2)
  ];
}

-- With a free slot for each block, all blocks are taken.
pub insert_blocks-Collected :
    (k : ℕ) (s : HashSet) (a end_address : ℕ)
    → IsHashSet s
    → HasRoom k s
    → a ≢ 0
    → a % 32 ≡ 0
    → end_address ≤ a + 32 * k
    → (s' : HashSet) × (insert_blocks (suc k) s a end_address ≡ some s')
      × Collected s a end_address s'
unfolding insert_blocks
insert_blocks-Collected zero s a e h room nonzero aligned enough =
    let done : ltb a e ≡ false = le→ltb _ _ (omega arith) in
    (s, rw done refl, nothing-Collected s h (omega arith))
insert_blocks-Collected (suc k) s a e h room nonzero aligned enough = elim (Bool-cases (ltb a e)) [
  | inr done ↦ (s, rw done refl, nothing-Collected s h (ltb→le _ _ done))
  | inl more ↦
      let (s1, ran1, one) =
        insert_lem s a (room.slot 0) h nonzero (room.inside 0 (omega arith))
          (room.free 0 (omega arith)) in
      let (s2, ran2, others) =
        insert_blocks-Collected k s1 (a + 32) e one.set (insert-HasRoom k s a s1 room ran1)
          (omega arith) (omega arith) (omega arith) in
      (s2, rw (more, ran1) ran2, first-Collected nonzero aligned (ltb→lt _ _ more) one others)
]

-- While updates are collected and the table has a free slot for each block of the store, the code ends.
-- The table in memory is that of a hash set with the block of every byte of the store, with the blocks
-- that it had, and with no others, and the rest of the memory is as before.
pub store_collects :
    (w operand b c : ℕ) (r : Regs) (mem : ℕ → ℕ) (l t : ℕ) (s : HashSet)
    → b + 8192 < 2 ^ 63
    → ((i : ℕ) → i < 1024 → c ≢ b + 8 * i)
    → 32 ≤ operand
    → operand + w + 32 < 2 ^ 63
    → mem (r.pointer + combiner_offset) ≢ 0
    → mem r.pointer ≡ c
    → mem (r.pointer + hash_set_entries_offset) ≡ b
    → IsTable b c mem mem s
    → IsHashSet s
    → HasRoom (w / 32 + 2) s
    → (s' : HashSet) × EndsWith w operand b c mem (begun w r mem l t 0) s'
      × Collected s (operand / 32 * 32) (operand + w) s'
store_collects w operand b c r mem l t s low apart user inside busy count_at table_at h set room =
    let (s', ran, collected) =
      insert_blocks-Collected (w / 32 + 2) s (operand / 32 * 32) (operand + w) set room
        (omega arith) (omega arith) (omega arith) in
    (
      s',
      store-EndsWith w operand b c (suc (w / 32 + 2)) r mem l t s s' low apart inside busy count_at
          table_at h ran,
      collected,
    )

-- ===== src/Transaction/Table.antt =====
-- instrumentation/redo_entry_collector.c with instrument_front_end.c: the table of the generated code,
-- as `instrument_stop` reads it.
use mangosteen_code.Common.{
  ℕ, zero, suc, ◌+◌, ◌*◌, ◌/◌, ◌<◌, ◌≤◌, ◌≡◌, refl, ◌∙◌, ap, inl, inr, arith, length, Bool-cases,
  some, ltb, ◌==◌, ltb→lt, lt→ltb, ne→==, >>=-eq-some, List, [], ◌∷◌,
}
use mathlib.Core.Option.{some-injective}
use mangosteen_code.HashSet.{HashSet, insert}
use mangosteen_code.HashSet.Slots.{Member}
use mangosteen_code.HashSet.Room.{HasRoom, insert-HasRoom}
use mangosteen_code.Collector.Store.{insert_blocks}
use mangosteen_code.Collector.Table.{IsTable}
use mangosteen_code.Instrumentation.Cover.{Covered}
use mangosteen_code.Instrumentation.Session.{logged}
use mangosteen_code.Transaction.{table_slots}

pub length-table_slots : (words : ℕ → ℕ) (a n : ℕ) → length (table_slots words a n) ≡ n
unfolding table_slots
length-table_slots words a zero = refl
length-table_slots words a (suc n) = ap suc (length-table_slots words (a + 8) n)

pub length-logged : (slots : List ℕ) → length (logged slots) ≤ length slots
unfolding logged
length-logged [] = omega arith
length-logged (a ∷ slots) = ground (arith, length-logged slots)

-- A slot with an address above 1000 is logged.
pub slot-Covered :
    (words : ℕ → ℕ) (base n i x : ℕ)
    → i < n
    → 1000 < words (base + 8 * i)
    → words (base + 8 * i) ≤ x
    → x < words (base + 8 * i) + 32
    → Covered (logged (table_slots words base n)) x
unfolding table_slots logged
slot-Covered words base zero i x lt high lo hi = absurd (omega arith)
slot-Covered words base (suc n) zero x lt high lo hi =
    let at : base + 8 * 0 ≡ base = omega arith in
    let high' : 1000 < words base = rw at at high in
    rw (ne→== (words base) 0 (λ z. omega arith), lt→ltb 1000 (words base) high')
      (inl (rw at at lo, rw at at hi))
slot-Covered words base (suc n) (suc i) x lt high lo hi =
    let at : base + 8 * suc i ≡ base + 8 + 8 * i = omega arith in
    let rest =
      slot-Covered words (base + 8) n i x (omega arith) (rw at at high) (rw at at lo)
        (rw at at hi) in
    elim (Bool-cases (words base == 0)) [
      | inl free ↦ rw free rest
      | inr taken ↦ elim (Bool-cases (ltb 1000 (words base))) [
        | inl above ↦ rw (taken, above) (inr rest)
        | inr below ↦ rw (taken, below) rest
      ]
    ]

-- A block of the set that starts above 1000 is logged.
pub member-Covered :
    {base count : ℕ} {before words : ℕ → ℕ} {s : HashSet} (x : ℕ)
    → IsTable base count before words s
    → 1024 ≤ x
    → Member s (x / 32 * 32)
    → Covered (logged (table_slots words base 1024)) x
member-Covered {base} {words = words} {s = s} x h high m =
    let lt : m.0 < 1024 = omega (arith, h.size, m.1) in
    let at : words (base + 8 * m.0) ≡ x / 32 * 32 = h.entries m.0 lt ∙ m.2 in
    slot-Covered words base 1024 m.0 x lt (omega (arith, at)) (omega (arith, at))
      (omega (arith, at))

-- The same table, with the words as they are now for those before.
pub rebased :
    {base count : ℕ} {before words : ℕ → ℕ} {s : HashSet}
    → IsTable base count before words s
    → IsTable base count words words s
rebased h = record {
  size = h.size;
  entries = h.entries;
  count = h.count;
  elsewhere = λ x nc nt. refl;
}

pub less_room : {s : HashSet} {k : ℕ} (n : ℕ) → n ≤ k → HasRoom k s → HasRoom n s
less_room n le h = record {
  slot = h.slot;
  inside = λ j lj. h.inside j (omega arith);
  free = λ j lj. h.free j (omega arith);
  apart = λ i j li lj. h.apart i j (omega arith) (omega arith);
}

-- A store takes one free slot for each of its blocks at most.
pub insert_blocks-HasRoom :
    (k n : ℕ) (s : HashSet) (a end_address : ℕ) (s' : HashSet)
    → HasRoom (k + n) s
    → end_address ≤ a + 32 * k
    → insert_blocks (suc k) s a end_address ≡ some s'
    → HasRoom n s'
unfolding insert_blocks
insert_blocks-HasRoom zero n s a e s' room enough ran = elim (Bool-cases (ltb a e)) [
  | inl more ↦ absurd (omega (arith, ltb→lt a e more))
  | inr done ↦
      let same : s ≡ s' = some-injective _ _ (rw done at ran) in
      rw (← same) (less_room n (omega arith) room)
]
insert_blocks-HasRoom (suc k) n s a e s' room enough ran = elim (Bool-cases (ltb a e)) [
  | inl more ↦
      let (u, inserted, rest) = >>=-eq-some (insert s a) _ (rw more at ran) in
      insert_blocks-HasRoom k n u (a + 32) e s'
        (insert-HasRoom (k + n) s a u (less_room (suc (k + n)) (omega arith) room) inserted)
        (omega arith) rest
  | inr done ↦
      let same : s ≡ s' = some-injective _ _ (rw done at ran) in
      rw (← same) (less_room n (omega arith) room)
]

-- A table without an address has all its slots free.
pub empty-HasRoom :
    (s : HashSet) (k : ℕ)
    → ((i : ℕ) → i < s.size → s.set_of_entries i ≡ 0)
    → k ≤ s.size
    → HasRoom k s
empty-HasRoom s k empty le = record {
  slot = λ j. j;
  inside = λ j lj. omega arith;
  free = λ j lj. empty j (omega arith);
  apart = λ i j li lj e. e;
}

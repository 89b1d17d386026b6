-- ===== src/HashSet/Room.antt =====
-- hash_set/hash_set.c: the free slots of the table, and what an insertion leaves of them.
use mathlib.Core.Option.{some-injective}
use mangosteen_code.Common.{
  ℕ, zero, suc, ◌+◌, ◌%◌, ◌<◌, ◌≡◌, ◌≢◌, refl, ◌∙◌, arith, inl, inr, Bool-cases, some, ◌==◌,
  if◌then◌else◌, update_ne,
}
use mangosteen_code.HashSet.{HashSet, collide, take_slot, count_duplicate, probe, insert}

-- `k` slots are free.
pub record HasRoom (k : ℕ) (s : HashSet) : Type 0 where
  pub slot : ℕ → ℕ
  pub inside : (j : ℕ) → j < k → slot j < s.size
  pub free : (j : ℕ) → j < k → s.set_of_entries (slot j) ≡ 0
  pub apart : (i j : ℕ) → i < k → j < k → slot i ≡ slot j → i ≡ j

-- All slots but one, and the size, are as before.
pub record OneChanged (s s' : HashSet) : Type 0 where
  pub place : ℕ
  pub size : s'.size ≡ s.size
  pub same : (j : ℕ) → j ≢ place → s'.set_of_entries j ≡ s.set_of_entries j

probe-OneChanged :
    (fuel : ℕ) (s : HashSet) (i a : ℕ) (s' : HashSet) → probe fuel s i a ≡ some s' → OneChanged s s'
unfolding probe
probe-OneChanged zero s i a s' ran = ground (arith, ran)
probe-OneChanged (suc fuel) s i a s' ran = elim (Bool-cases (s.set_of_entries i == 0)) [
  | inl empty ↦
      let e : take_slot s i a ≡ s' = some-injective _ _ (rw empty at ran) in
      rw (← e)
        (record { place = i; size = refl; same = λ j ne. update_ne s.set_of_entries i j a ne })
  | inr taken ↦ elim (Bool-cases (s.set_of_entries i == a)) [
    | inl same ↦
        let e : count_duplicate (collide s) ≡ s' = some-injective _ _ (rw (taken, same) at ran) in
        rw (← e) (record { place = i; size = refl; same = λ j ne. refl })
    | inr other ↦
        let rest =
          probe-OneChanged fuel (collide s) ((i + 1) % s.size) a s' (rw (taken, other) at ran) in
        record { place = rest.place; size = rest.size; same = rest.same }
  ]
]

-- An insertion takes one free slot at most.
pub insert-HasRoom :
    (k : ℕ) (s : HashSet) (a : ℕ) (s' : HashSet)
    → HasRoom (suc k) s
    → insert s a ≡ some s'
    → HasRoom k s'
unfolding insert
insert-HasRoom k s a s' room ran =
    let one = probe-OneChanged s.size s (a % s.size) a s' ran in
    let slot' : ℕ → ℕ = λ j. if room.slot j == one.place then room.slot k else room.slot j in
    let other : (j : ℕ) → j < k → slot' j ≢ one.place = λ j lj. ground (arith, room.apart j k) in
    let was : (j : ℕ) → j < k → s.set_of_entries (slot' j) ≡ 0 = λ j lj.
      elim (Bool-cases (room.slot j == one.place)) [
        | inl here ↦ rw here (room.free k (omega arith))
        | inr away ↦ rw away (room.free j (omega arith))
      ] in
    record {
      slot = slot';
      inside = λ j lj. ground (arith, one.size, room.inside j, room.inside k);
      free = λ j lj. one.same (slot' j) (other j lj) ∙ was j lj;
      apart = λ i j li lj. ground (arith, room.apart i j, room.apart i k, room.apart j k);
    }

-- ===== src/HashSet/Insert.antt =====
-- hash_set/hash_set.c: the probe of an insertion, and the set that the slots stand for.
use native.Mathlib.Nat.{mod-lt}
use mangosteen_code.Common.{
  ℕ, zero, suc, ◌+◌, ◌%◌, ◌<◌, ◌≡◌, ◌≢◌, refl, sym, ◌∙◌, ap, inl, inr, some, none, ne→==, arith,
  ◌==◌, Bool-cases, ==→eq, ==→ne, ℕ_discrete,
}
use mangosteen_code.HashSet.{
  HashSet, collide, take_slot, count_duplicate, probe, insert, initialise,
}
use mangosteen_code.HashSet.Slots.{
  place, place_lt, place_next, place_onto, IsHashSet, Inserted, Passed, taken-Inserted,
}

-- The address is there already: only counters change.
duplicate-Inserted :
    (s : HashSet) (a i : ℕ)
    → IsHashSet s
    → i < s.size
    → s.set_of_entries i ≡ a
    → Inserted s a (count_duplicate (collide s))
duplicate-Inserted s a i h lt at = record {
  size = refl;
  set = record { reached = h.reached; once = h.once };
  stored = (i, lt, at);
  kept = λ x nz m. m;
  only = λ x nz m. inl m;
}

collide-Inserted : {s s' : HashSet} {a : ℕ} → Inserted (collide s) a s' → Inserted s a s'
collide-Inserted h = record {
  size = h.size;
  set = h.set;
  stored = h.stored;
  kept = h.kept;
  only = h.only;
}

Passed-next :
    (s : HashSet) (a d : ℕ)
    → Passed s a d
    → s.set_of_entries (place s.size (a % s.size) d) ≢ 0
    → s.set_of_entries (place s.size (a % s.size) d) ≢ a
    → Passed s a (d + 1)
Passed-next s a d passed taken other e lt = elim (ℕ_discrete e d) [
  | yes here ↦ rw here (taken, other)
  | no before ↦ passed e (omega arith)
]

probe_from :
    (left : ℕ) (s : HashSet) (a d index free : ℕ)
    → IsHashSet s
    → a ≢ 0
    → 0 < s.size
    → d + left ≡ s.size
    → (left ≢ 0 → index ≡ place s.size (a % s.size) d)
    → Passed s a d
    → free < s.size
    → s.set_of_entries free ≡ 0
    → (s' : HashSet) × (probe left s index a ≡ some s') × Inserted s a s'
unfolding probe
probe_from zero s a d index free h nonzero some_slots count at passed lt is_free =
    let (f, low, there) = place_onto s.size (a % s.size) free (mod-lt a some_slots) lt in
    absurd ((passed f (omega arith)).0 (ap s.set_of_entries (sym there) ∙ is_free))
probe_from (suc left) s a d index free h nonzero some_slots count at passed lt is_free =
    let home = a % s.size in
    let here : index ≡ place s.size home d = at (λ z. omega arith) in
    let home_lt : home < s.size = mod-lt a some_slots in
    elim (Bool-cases (s.set_of_entries index == 0)) [
      | inl empty ↦ (
        take_slot s index a,
        rw empty refl,
        rw here (
            taken-Inserted s a d h nonzero (omega arith) passed
              (ap s.set_of_entries (sym here) ∙ ==→eq _ _ empty)),
      )
      | inr taken ↦ elim (Bool-cases (s.set_of_entries index == a)) [
        | inl same ↦ (
          count_duplicate (collide s),
          rw (taken, same) refl,
          duplicate-Inserted s a index h (rw here (place_lt s.size home d home_lt (omega arith)))
              (==→eq _ _ same),
        )
        | inr other ↦
            let (s', ran, done) =
              probe_from left (collide s) a (d + 1) ((index + 1) % s.size) free
                (record { reached = h.reached; once = h.once }) nonzero some_slots (omega arith)
                (λ more. rw here (place_next s.size home d home_lt (omega arith)))
                (Passed-next s a d passed (λ z. ==→ne _ _ taken (ap s.set_of_entries here ∙ z))
                  (λ z. ==→ne _ _ other (ap s.set_of_entries here ∙ z)))
                lt is_free in
            (s', rw (taken, other) ran, collide-Inserted done)
      ]
    ]

-- While a slot is free, the insertion of an address other than 0 returns: the address is a member then,
-- the members before are members still, nothing else is, and the slots are a hash set again.
pub insert_lem :
    (s : HashSet) (a free : ℕ)
    → IsHashSet s
    → a ≢ 0
    → free < s.size
    → s.set_of_entries free ≡ 0
    → (s' : HashSet) × (insert s a ≡ some s') × Inserted s a s'
unfolding insert
insert_lem s a free h nonzero lt is_free =
    let some_slots : 0 < s.size = omega arith in
    probe_from s.size s a 0 (a % s.size) free h nonzero some_slots (omega arith)
      (λ more. ground (arith, mod-lt a some_slots)) (λ e low. absurd (omega arith)) lt is_free

-- With every slot taken by another address the probe never ends, however many rounds it runs.
pub probe_stuck :
    (fuel : ℕ) (s : HashSet) (a index : ℕ)
    → index < s.size
    → ((i : ℕ) → i < s.size → (s.set_of_entries i ≢ 0) × (s.set_of_entries i ≢ a))
    → probe fuel s index a ≡ none
unfolding probe
probe_stuck zero s a index lt full = refl
probe_stuck (suc fuel) s a index lt full =
    rw (ne→== _ _ (full index lt).0, ne→== _ _ (full index lt).1)
      (probe_stuck fuel (collide s) a ((index + 1) % s.size) (mod-lt (index + 1) (omega arith))
        full)

-- A set that was just made is one.
pub initialise-IsHashSet : (size num den : ℕ) → IsHashSet (initialise size num den)
unfolding initialise
initialise-IsHashSet size num den = record {
  reached = λ i lt taken. absurd (taken refl);
  once = λ i j li lj taken same. absurd (taken refl);
}

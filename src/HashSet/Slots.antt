-- ===== src/HashSet/Slots.antt =====
-- hash_set/hash_set.c: the set that the slots stand for, and the slot that a new address takes.
use native.Mathlib.Nat.{mod_self, mod-lt, mod-eq_of_lt}
use mangosteen_code.Common.{
  ℕ, ◌+◌, ◌-◌, ◌%◌, ◌<◌, ◌≡◌, ◌≢◌, refl, sym, ◌∙◌, ap, ◌⊎◌, inl, inr, arith, ltb, if◌then◌else◌,
  dec_lt, ℕ_discrete,
}
use mangosteen_code.HashSet.{HashSet, take_slot}

-- The slot `d` places after `home`, round the end.
abbrev pub place : ℕ → ℕ → ℕ → ℕ
place size home d = if ltb (home + d) size then home + d else home + d - size

abbrev pub Member : HashSet → ℕ → Type 0
Member s a = (i : ℕ) × (i < s.size) × (s.set_of_entries i ≡ a)

-- An address lies behind a run of taken slots from its own place on, and in one slot only.
pub record IsHashSet (s : HashSet) : Type 0 where
  pub reached :
      (i : ℕ)
      → i < s.size
      → s.set_of_entries i ≢ 0
      → (d : ℕ) × (d < s.size)
        × (i ≡ place s.size (s.set_of_entries i % s.size) d)
        × ((e : ℕ) → e < d → s.set_of_entries (place s.size (s.set_of_entries i % s.size) e) ≢ 0)
  pub once :
      (i j : ℕ)
      → i < s.size
      → j < s.size
      → s.set_of_entries i ≢ 0
      → s.set_of_entries i ≡ s.set_of_entries j
      → i ≡ j

pub place_lt : (size home d : ℕ) → home < size → d < size → place size home d < size
place_lt size home d h k = ground arith

pub place_next :
    (size home d : ℕ)
    → home < size
    → d + 1 < size
    → (place size home d + 1) % size ≡ place size home (d + 1)
place_next size home d h k = elim (ℕ_discrete (place size home d + 1) size) [
  | yes wraps ↦ ground (arith, mod_self size)
  | no inside ↦ ground (arith, mod-eq_of_lt {n = place size home d + 1} {m = size})
]

-- Every slot is some places after `home`.
pub place_onto :
    (size home i : ℕ) → home < size → i < size → (d : ℕ) × (d < size) × (i ≡ place size home d)
place_onto size home i h k = elim (dec_lt i home) [
  | yes below ↦ (i + size - home, omega arith, ground arith)
  | no above ↦ (i - home, omega arith, ground arith)
]

-- What an insertion promises.
pub record Inserted (s : HashSet) (a : ℕ) (s' : HashSet) : Type 0 where
  pub size : s'.size ≡ s.size
  pub set : IsHashSet s'
  pub stored : Member s' a
  pub kept : (x : ℕ) → x ≢ 0 → Member s x → Member s' x
  pub only : (x : ℕ) → x ≢ 0 → Member s' x → (Member s x) ⊎ (x ≡ a)

-- The slots that a probe for `a` has left behind: taken, by other addresses.
abbrev pub Passed : HashSet → ℕ → ℕ → Type 0
Passed s a d =
    (e : ℕ)
    → e < d
    → (s.set_of_entries (place s.size (a % s.size) e) ≢ 0)
      × (s.set_of_entries (place s.size (a % s.size) e) ≢ a)

-- A probe that comes to a free slot has not missed the address.
absent :
    (s : HashSet) (a d j : ℕ)
    → IsHashSet s
    → a ≢ 0
    → Passed s a d
    → s.set_of_entries (place s.size (a % s.size) d) ≡ 0
    → j < s.size
    → s.set_of_entries j ≢ a
absent s a d j h nonzero passed free lt same =
    let (d', lt', at, run) = h.reached j lt (λ z. nonzero (sym same ∙ z)) in
    let at' : j ≡ place s.size (a % s.size) d' = rw (← same) at in
    let run' : (e : ℕ) → e < d' → s.set_of_entries (place s.size (a % s.size) e) ≢ 0 =
      rw (same) at run in
    elim (dec_lt d' d) [
      | yes before ↦ (passed d' before).1 (ap s.set_of_entries (sym at') ∙ same)
      | no after ↦ elim (ℕ_discrete d d') [
        | yes here ↦ nonzero (
            sym same ∙ ap s.set_of_entries (at' ∙ ap (place s.size (a % s.size)) (sym here)) ∙ free)
        | no beyond ↦ run' d (omega arith) free
      ]
    ]

-- A slot that was taken stays taken.
stays_taken :
    (s : HashSet) (a p i : ℕ)
    → a ≢ 0
    → s.set_of_entries i ≢ 0
    → (take_slot s p a).set_of_entries i ≢ 0
stays_taken s a p i nonzero taken = elim (ℕ_discrete i p) [
  | yes here ↦ λ z. nonzero (ground arith)
  | no other ↦ λ z. taken (ground arith)
]

module _ (s : HashSet) (a d : ℕ) (h : IsHashSet s) (nonzero : a ≢ 0) (lt : d < s.size)
    (passed : Passed s a d) (free : s.set_of_entries (place s.size (a % s.size) d) ≡ 0) where
  abbrev p : ℕ
  p = place s.size (a % s.size) d

  abbrev after : HashSet
  after = take_slot s p a

  p_lt : p < s.size
  p_lt = place_lt s.size (a % s.size) d (mod-lt a (omega arith)) lt

  at_p : after.set_of_entries p ≡ a
  at_p = ground arith

  elsewhere : (i : ℕ) → i ≢ p → after.set_of_entries i ≡ s.set_of_entries i
  elsewhere i ne = ground arith

  reached_p :
      (d' : ℕ) × (d' < s.size)
      × (p ≡ place s.size (after.set_of_entries p % s.size) d')
      × ((e : ℕ)
          → e < d'
          → after.set_of_entries (place s.size (after.set_of_entries p % s.size) e) ≢ 0)
  reached_p =
      rw at_p (
        d,
        lt,
        refl,
        λ e le. stays_taken s a p (place s.size (a % s.size) e) nonzero (passed e le).0,
      )

  reached_other :
      (i : ℕ)
      → i < s.size
      → i ≢ p
      → s.set_of_entries i ≢ 0
      → (d' : ℕ) × (d' < s.size)
        × (i ≡ place s.size (s.set_of_entries i % s.size) d')
        × ((e : ℕ)
            → e < d'
            → after.set_of_entries (place s.size (s.set_of_entries i % s.size) e) ≢ 0)
  reached_other i li ne taken =
      let (d', ld, at, run) = h.reached i li taken in
      (
        d',
        ld,
        at,
        λ e le. stays_taken s a p (place s.size (s.set_of_entries i % s.size) e) nonzero (run e le),
      )

  new_once :
      (i j : ℕ)
      → i < s.size
      → j < s.size
      → after.set_of_entries i ≢ 0
      → after.set_of_entries i ≡ after.set_of_entries j
      → i ≡ j
  new_once i j li lj taken same = elim (ℕ_discrete i p) [
    | yes i_here ↦ elim (ℕ_discrete j p) [
      | yes j_here ↦ i_here ∙ sym j_here
      | no j_else ↦ absurd (
          absent s a d j h nonzero passed free lj
            (sym (elsewhere j j_else) ∙ sym same ∙ ap after.set_of_entries i_here ∙ at_p))
    ]
    | no i_else ↦ elim (ℕ_discrete j p) [
      | yes j_here ↦ absurd (
          absent s a d i h nonzero passed free li
            (sym (elsewhere i i_else) ∙ same ∙ ap after.set_of_entries j_here ∙ at_p))
      | no j_else ↦
          h.once i j li lj (λ z. taken (elsewhere i i_else ∙ z))
            (sym (elsewhere i i_else) ∙ same ∙ elsewhere j j_else)
    ]
  ]

  pub taken-Inserted : Inserted s a after
  taken-Inserted = record {
    size = refl;
    set = record {
      reached = λ i li taken. elim (ℕ_discrete i p) [
        | yes here ↦ rw here reached_p
        | no other ↦
            rw (elsewhere i other) (reached_other i li other (λ z. taken (elsewhere i other ∙ z)))
      ];
      once = new_once;
    };
    stored = (p, p_lt, at_p);
    kept = λ x nz m.
        (m.0, m.1, elsewhere m.0 (λ e. nz (sym m.2 ∙ ap s.set_of_entries e ∙ free)) ∙ m.2);
    only = λ x nz m. elim (ℕ_discrete m.0 p) [
      | yes here ↦ inr (sym m.2 ∙ ap after.set_of_entries here ∙ at_p)
      | no other ↦ inl (m.0, m.1, sym (elsewhere m.0 other) ∙ m.2)
    ];
  }

-- ===== src/AddressSpace/Scan.antt =====
-- instrumentation/instrument_front_end.c: the loop of `synchronize_address_space` over the address space.
use mangosteen_code.Common.{
  ℕ, zero, suc, ◌+◌, ◌-◌, ◌%◌, ◌^◌, ◌<◌, ◌≤◌, ◌≡◌, ◌≢◌, inl, inr, some, none, true, refl, sym, ◌∙◌,
  ap, arith, >>=-eq-some, if◌then◌else◌, ltb, ltb→lt, Bool-cases, Option-cases, [], ◌∷◌, ◌++◌,
}
use mathlib.Core.Option.{some-injective}
use mangosteen_code.AddressSpace.{Dr, MemInfo, Scanned, scan, visit, should_replace}

visit_initial :
    (pc : ℕ) (info : MemInfo) (s s' : Scanned) → visit true pc info s ≡ some s' → s'.table ≡ s.table
unfolding visit
visit_initial pc info s s' h = sym (ap (λ (x : Scanned). x.table) (some-injective _ _ h))

-- The first scan leaves the table as it is.
pub scan_initial :
    (fuel : ℕ) (dr : Dr) (pc : ℕ) (s s' : Scanned)
    → scan fuel dr true pc s ≡ some s'
    → s'.table ≡ s.table
unfolding scan
scan_initial zero dr pc s s' h = ground (arith, h)
scan_initial (suc fuel) dr pc s s' h = elim (Bool-cases (ltb pc (2 ^ 64 - 1))) [
  | inr past ↦ sym (ap (λ (x : Scanned). x.table) (some-injective _ _ (rw past at h)))
  | inl more ↦ elim (Option-cases (dr.query_memory pc)) [
    | inl ended ↦ sym (ap (λ (x : Scanned). x.table) (some-injective _ _ (rw (more, ended) at h)))
    | inr (info, found) ↦
        let (replace, tested, h1) =
          >>=-eq-some (should_replace dr info) _ (rw (more, found) at h) in
        let (s1, visited, h2) =
          >>=-eq-some (if replace then visit true pc info s else some s) _ h1 in
        let next = scan_initial fuel dr ((info.base_pc + info.size) % 2 ^ 64) s1 s' h2 in
        elim (Bool-cases replace) [
          | inl yes_replace ↦ next ∙ visit_initial pc info s s1 (rw yes_replace at visited)
          | inr skip ↦
              next ∙ sym (ap (λ (x : Scanned). x.table) (some-injective _ _ (rw skip at visited)))
        ]
  ]
]

-- A region that DynamoRIO answers holds the address that was asked for and ends within the address space,
-- and passes the assertions.
pub record Answers (dr : Dr) : Type 0 where
  pub forward :
      (pc : ℕ) (info : MemInfo)
      → dr.query_memory pc ≡ some info
      → (pc < info.base_pc + info.size) × (info.base_pc + info.size < 2 ^ 64)
  pub asserted :
      (pc : ℕ) (info : MemInfo) → dr.query_memory pc ≡ some info → should_replace dr info ≢ none

-- One round for each address from `pc` on, and one, are enough for the first scan.
pub scan_ends :
    (fuel : ℕ) (dr : Dr) (pc : ℕ) (s : Scanned)
    → Answers dr
    → 2 ^ 64 ≤ pc + fuel
    → 0 < fuel
    → (s' : Scanned) × (scan fuel dr true pc s ≡ some s')
unfolding scan visit
scan_ends zero dr pc s answers enough more = absurd (omega arith)
scan_ends (suc fuel) dr pc s answers enough more = elim (Bool-cases (ltb pc (2 ^ 64 - 1))) [
  | inr past ↦ (s, rw past refl)
  | inl inside ↦ elim (Option-cases (dr.query_memory pc)) [
    | inl ended ↦ (s, rw (inside, ended) refl)
    | inr (info, found) ↦
        let (after, within) = answers.forward pc info found in
        let low = ltb→lt _ _ inside in
        let wraps : (info.base_pc + info.size) % 2 ^ 64 ≡ info.base_pc + info.size = omega arith in
        elim (Option-cases (should_replace dr info)) [
          | inl failed ↦ absurd (answers.asserted pc info found failed)
          | inr (replace, tested) ↦ elim (Bool-cases replace) [
            | inl taken ↦
                let next =
                  scan_ends fuel dr ((info.base_pc + info.size) % 2 ^ 64)
                    (record s { to_replace = s.to_replace ++ (info ∷ []) }) answers (omega arith)
                    (omega arith) in
                (next.0, rw (inside, found, tested, taken) next.1)
            | inr skipped ↦
                let next =
                  scan_ends fuel dr ((info.base_pc + info.size) % 2 ^ 64) s answers (omega arith)
                    (omega arith) in
                (next.0, rw (inside, found, tested, skipped) next.1)
          ]
        ]
  ]
]

-- ===== src/Launch/Semaphore.antt =====
-- front-end/front_end.c and back-end/back_end.c: the semaphore of a launch that recovers.
use mathlib.Core.Option.{some-injective}
use mangosteen_code.Common.{ℕ, ◌+◌, ◌≡◌, ◌≢◌, sym, ◌∙◌, none, some, arith, inl, inr, Option-cases}
use mangosteen_code.Launch.{Semaphores, sem_open}
use mangosteen_code.Launch.Recovery.{sem_open_lem}

-- A semaphore that is opened keeps the balance.
pub opened_balance :
    (s : Semaphores) (w p : ℕ)
    → ((h : ℕ) → s.name ≡ some h → s.value h + w ≡ p)
    → (s.name ≡ none → (w ≡ 0) × (p ≡ 0))
    → (h : ℕ) → (sem_open s).0.name ≡ some h
    → (sem_open s).0.value h + w ≡ p
opened_balance s w p balance unnamed h named =
    let (own, keeps, same, fresh) = sem_open_lem s in
    let is : (sem_open s).1 ≡ h = some-injective _ _ (sym own ∙ named) in
    elim (Option-cases s.name) [
      | inl none_yet ↦
          let z : (sem_open s).0.value h ≡ 0 = rw is at (fresh none_yet) in
          omega (arith, z, (unnamed none_yet).0, (unnamed none_yet).1)
      | inr (g, old) ↦
          let at : g ≡ h = some-injective _ _ (sym (keeps g old) ∙ named) in
          let old' : s.name ≡ some h = rw at at old in omega (arith, same h old', balance h old')
    ]

pub opened_named : (s : Semaphores) → (sem_open s).0.name ≢ none
opened_named s e = let named = (sem_open_lem s).0 in absurd (cc)

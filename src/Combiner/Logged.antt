-- ===== src/Combiner/Logged.antt =====
-- flat_combining/flat_combining.c, `exec_rw_flat_combining`: a task is in the log before its thread goes on.
use mangosteen_code.Common.{
  ℕ, ◌≡◌, ◌≢◌, inl, inr, ◌∙◌, sym, ap, Bool, true, false, refl, arith, ℕ_discrete, Bool-cases,
}
use mangosteen_code.Combiner.{
  started, no_task, Tasks, Pc, outside, finishing, Move, submit, leave, lock_writer, collect,
  execute, executed_all, finish, clear, write_unlock, System, Step, pick, Reach, start, later,
}
use mangosteen_code.Combiner.Invariant.{owns, Fits, Listed, IsCombining}
use mangosteen_code.Combiner.Once.{Reach-IsCombining, executed_once, pick_cases}

-- The combiner after `instrument_stop`, with tasks to mark as done.
abbrev finishes : Pc → Bool
finishes (finishing left) = true
finishes _ = false

-- The executions of a task that nobody has started are in the log, and all executions while the combiner
-- marks its tasks as done.
record IsLogged (t : Tasks) (pc : ℕ → Pc) : Type 0 where
  settled : (j : ℕ) → t.ready j ≢ started → t.logged j ≡ t.executed j
  stored : (w : ℕ) → finishes (pc w) ≡ true → (j : ℕ) → t.logged j ≡ t.executed j

Move-settled :
    {n me : ℕ} {t t' : Tasks} {p p' : Pc}
    → Move n me t p t' p'
    → Fits me p (t.ready me)
    → ((j : ℕ) → owns p ≡ true → Listed t p j)
    → (finishes p ≡ true → (j : ℕ) → t.logged j ≡ t.executed j)
    → (j : ℕ) → (t.ready j ≢ started → t.logged j ≡ t.executed j)
    → t'.ready j ≢ started
    → t'.logged j ≡ t'.executed j
Move-settled {me = me} {t = t} submit f l s j h ne = elim (ℕ_discrete j me) [
  | yes mine ↦ h (λ z. omega (arith, f, ap t.ready mine))
  | no other ↦ h (λ z. ne (ground arith))
]
Move-settled {me = me} {t = t} leave f l s j h ne = elim (ℕ_discrete j me) [
  | yes mine ↦ h (λ z. omega (arith, f, ap t.ready mine))
  | no other ↦ h (λ z. ne (ground arith))
]
Move-settled (collect {i} e r) f l s j h ne = elim (ℕ_discrete j i) [
  | yes taken ↦ absurd (ne (ground arith))
  | no other ↦ h (λ z. ne (ground arith))
]
Move-settled (execute {x}) f l s j h ne = elim (ℕ_discrete j x) [
  | yes here ↦ absurd (ground (arith, l j refl))
  | no other ↦ ground (arith, h ne)
]
Move-settled executed_all f l s j h ne = refl
Move-settled (finish {x} {left}) f l s j h ne = s refl j
Move-settled clear f l s j h ne = s refl j
Move-settled (lock_writer e) f l s j h ne = h ne
Move-settled write_unlock f l s j h ne = h ne
Move-settled mv f l s j h ne = h ne

-- A thread that does not combine neither executes nor logs.
Move-executed_other :
    {n me : ℕ} {t t' : Tasks} {p p' : Pc}
    → Move n me t p t' p'
    → owns p ≡ false
    → (j : ℕ) → (t'.executed j ≡ t.executed j) × (t'.logged j ≡ t.logged j)
Move-executed_other submit o j = (refl, refl)
Move-executed_other leave o j = (refl, refl)
Move-executed_other (lock_writer e) o j = (refl, refl)
Move-executed_other (collect e r) o j = (refl, refl)
Move-executed_other execute o j = absurd (cc)
Move-executed_other executed_all o j = absurd (cc)
Move-executed_other finish o j = (refl, refl)
Move-executed_other clear o j = (refl, refl)
Move-executed_other write_unlock o j = (refl, refl)
Move-executed_other mv o j = (refl, refl)

Move-stored :
    {n me : ℕ} {t t' : Tasks} {p p' : Pc}
    → Move n me t p t' p'
    → (finishes p ≡ true → (j : ℕ) → t.logged j ≡ t.executed j)
    → finishes p' ≡ true
    → (j : ℕ) → t'.logged j ≡ t'.executed j
Move-stored executed_all s o j = refl
Move-stored finish s o j = s refl j
Move-stored mv s o j = absurd (cc)

finishes-owns : (p : Pc) → finishes p ≡ true → owns p ≡ true
finishes-owns (finishing left) h = refl
finishes-owns p h = absurd (cc)

Step-IsLogged :
    {n : ℕ} {s t : System}
    → Step n s t
    → IsCombining n s.tasks s.pc
    → IsLogged s.tasks s.pc
    → IsLogged t.tasks t.pc
Step-IsLogged {n} {s} (pick me {t = t'} {p = p'} lt mv) inv log = record {
  settled = λ j.
      Move-settled mv (inv.fits me) (λ i o. inv.lists me o i) (log.stored me) j (log.settled j);
  stored =
      pick_cases (λ w p. finishes p ≡ true → (j : ℕ) → t'.logged j ≡ t'.executed j) s.pc me p'
        (Move-stored mv (log.stored me))
        (λ w ne o j.
          let other : owns (s.pc me) ≡ false = elim (Bool-cases (owns (s.pc me))) [
            | inl mine ↦ absurd (ne (inv.one_owner w me (finishes-owns (s.pc w) o) mine))
            | inr free ↦ free
          ] in
          let (e, g) = Move-executed_other mv other j in g ∙ log.stored w o j ∙ sym e);
}

Reach-IsLogged : {n : ℕ} {s : System} → Reach n s → IsLogged s.tasks s.pc
Reach-IsLogged start = record { settled = λ j ne. refl; stored = λ w o j. refl }
Reach-IsLogged (later r step) = Step-IsLogged step (Reach-IsCombining r) (Reach-IsLogged r)

-- A thread that is outside `exec_rw_flat_combining` has had each task that it submitted executed exactly
-- once, and all of these executions are in the log.
pub logged_before_return :
    {n : ℕ} {s : System}
    → Reach n s
    → (j : ℕ) → s.pc j ≡ outside
    → (s.tasks.executed j ≡ s.tasks.submitted j) × (s.tasks.logged j ≡ s.tasks.submitted j)
logged_before_return {n} {s} r j at =
    let f : s.tasks.ready j ≡ no_task = rw at at ((Reach-IsCombining r).fits j) in
    let e = executed_once r j at in (e, (Reach-IsLogged r).settled j (λ z. omega arith) ∙ e)

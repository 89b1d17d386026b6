-- ===== src/Combiner/Once.antt =====
-- flat_combining/flat_combining.c, `exec_rw_flat_combining`: what it promises the threads.
use mangosteen_code.Common.{
  ℕ, ◌+◌, ◌<◌, ◌≤◌, ◌≡◌, ◌≢◌, inl, inr, ◌∙◌, sym, ap, true, false, update, update_self, update_ne,
  refl, arith, All, ℕ_discrete, Bool-cases,
}
use mangosteen_code.Combiner.{
  no_task, Tasks, Pc, outside, Move, System, Step, pick, initial, Reach, start, later,
}
use mangosteen_code.Combiner.Invariant.{
  owns, pending, Fits, Listed, IsCombining, Move-Fits, Move-Fits_other,
}
use mangosteen_code.Combiner.Steps.{
  Move-Counted, Move-Listed, Move-Listed_other, Move-bounded, Move-flagged, Move-writers, Move-owns,
  Move-free,
}

-- What holds of every thread after one has moved.
pub pick_cases :
    (P : ℕ → Pc → Type 0) (pc : ℕ → Pc) (me : ℕ) (p' : Pc)
    → P me p'
    → ((j : ℕ) → j ≢ me → P j (pc j))
    → (j : ℕ) → P j (update pc me p' j)
pick_cases P pc me p' h k j = elim (ℕ_discrete j me) [
  | yes e ↦ rw (ap (update pc me p') e, update_self pc me p', e) h
  | no ne ↦ rw (update_ne pc me j p' ne) (k j ne)
]

module _ {n : ℕ} {t t' : Tasks} {pc : ℕ → Pc} {p' : Pc} (me : ℕ) (inv : IsCombining n t pc)
    (mv : Move n me t (pc me) t' p') where
  other_owner : (w : ℕ) → w ≢ me → owns (pc w) ≡ true → owns (pc me) ≡ false
  other_owner w ne o = elim (Bool-cases (owns (pc me))) [
    | inl mine ↦ absurd (ne (inv.one_owner w me o mine))
    | inr no_owner ↦ no_owner
  ]

  Step-flagged : (w : ℕ) → owns (update pc me p' w) ≡ true → t'.writers ≡ 1
  Step-flagged =
      pick_cases (λ w p. owns p ≡ true → t'.writers ≡ 1) pc me p' (Move-flagged mv (inv.flagged me))
        (λ w ne o. elim (Move-writers mv) [
          | inl same ↦ same ∙ inv.flagged w o
          | inr (inl (idle, takes, down)) ↦ absurd (omega (arith, inv.flagged w o))
          | inr (inr mine) ↦ absurd (ne (inv.one_owner w me o mine))
        ])

  mover_first : (v : ℕ) → v ≢ me → owns p' ≡ true → owns (pc v) ≡ true → me ≡ v
  mover_first v ne o o' = elim (Move-owns mv o) [
    | inl mine ↦ inv.one_owner me v mine o'
    | inr down ↦ absurd (omega (arith, inv.flagged v o'))
  ]

  Step-one_owner :
      (w v : ℕ) → owns (update pc me p' w) ≡ true → owns (update pc me p' v) ≡ true → w ≡ v
  Step-one_owner =
      pick_cases (λ w p. (v : ℕ) → owns p ≡ true → owns (update pc me p' v) ≡ true → w ≡ v) pc me p'
        (pick_cases (λ v p. owns p' ≡ true → owns p ≡ true → me ≡ v) pc me p' (λ o o'. refl)
          mover_first)
        (λ w ne.
          pick_cases (λ v p. owns (pc w) ≡ true → owns p ≡ true → w ≡ v) pc me p'
            (λ o o'. sym (mover_first w ne o' o)) (λ v ne' o o'. inv.one_owner w v o o'))

  Step-lists : (w : ℕ) → owns (update pc me p' w) ≡ true → (j : ℕ) → Listed t' (update pc me p' w) j
  Step-lists =
      pick_cases (λ w p. owns p ≡ true → (j : ℕ) → Listed t' p j) pc me p'
        (λ o. Move-Listed mv o inv.free (inv.fits me) inv.counted (λ j o'. inv.lists me o' j))
        (λ w ne o j.
          Move-Listed_other mv (other_owner w ne o) (inv.fits me) (pc w) j (inv.lists w o j))

Step-IsCombining :
    {n : ℕ} {s t : System} → Step n s t → IsCombining n s.tasks s.pc → IsCombining n t.tasks t.pc
Step-IsCombining {n} {s} (pick me {t = t'} {p = p'} lt mv) inv = record {
  fits =
      pick_cases (λ j p. Fits j p (t'.ready j)) s.pc me p'
        (Move-Fits mv lt (inv.fits me) (inv.counted me))
        (λ j ne. Move-Fits_other mv j (s.pc j) ne (λ o. inv.lists me o j) (inv.fits j));
  counted = λ j. Move-Counted mv (inv.fits me) (λ i o. inv.lists me o i) j (inv.counted j);
  flagged = Step-flagged me inv mv;
  one_owner = Step-one_owner me inv mv;
  free = Move-free mv inv.free (inv.flagged me) (λ j o. inv.lists me o j);
  lists = Step-lists me inv mv;
  bounded =
      pick_cases (λ w p. owns p ≡ true → All (λ x. x < n) (pending p)) s.pc me p'
        (λ o. Move-bounded mv o (inv.bounded me)) (λ w ne. inv.bounded w);
}

initial-IsCombining : (n : ℕ) → IsCombining n initial.tasks initial.pc
initial-IsCombining n = record {
  fits = λ j. refl;
  counted = λ j. record {
    range = omega arith;
    not_twice = omega arith;
    one_open = omega arith;
    open_task = λ e. absurd (omega arith);
    settled = λ a b. refl;
  };
  flagged = λ w o. absurd (cc);
  one_owner = λ w v o o'. absurd (cc);
  free = λ z j e. omega arith;
  lists = λ w o j. absurd (cc);
  bounded = λ w o. absurd (cc);
}

pub Reach-IsCombining : {n : ℕ} {s : System} → Reach n s → IsCombining n s.tasks s.pc
Reach-IsCombining {n} start = initial-IsCombining n
Reach-IsCombining (later r st) = Step-IsCombining st (Reach-IsCombining r)

-- In every reachable state of `n` threads a thread that is outside `exec_rw_flat_combining` has had each
-- of its tasks executed, by itself or by another thread, exactly as often as it came with one.
pub executed_once :
    {n : ℕ} {s : System}
    → Reach n s
    → (j : ℕ) → s.pc j ≡ outside
    → s.tasks.executed j ≡ s.tasks.submitted j
executed_once {n} {s} r j at =
    let inv = Reach-IsCombining r in
    let f : s.tasks.ready j ≡ no_task = rw at at (inv.fits j) in
    (inv.counted j).settled (λ e. omega arith) (λ e. omega arith)

-- No task is executed twice, and none that was not submitted: at any moment a thread has at most one
-- task that is not yet executed.
pub executed_bounds :
    {n : ℕ} {s : System}
    → Reach n s
    → (j : ℕ)
    → (s.tasks.executed j ≤ s.tasks.submitted j) × (s.tasks.submitted j ≤ s.tasks.executed j + 1)
executed_bounds r j = let c = (Reach-IsCombining r).counted j in (c.not_twice, c.one_open)

-- While one thread has the writers' flag no other has it: the executions are in mutual exclusion.
pub one_combiner :
    {n : ℕ} {s : System}
    → Reach n s
    → (w v : ℕ) → owns (s.pc w) ≡ true
    → w ≢ v
    → owns (s.pc v) ≡ false
one_combiner {s = s} r w v o other = elim (Bool-cases (owns (s.pc v))) [
  | inl too ↦ absurd (other ((Reach-IsCombining r).one_owner w v o too))
  | inr free ↦ free
]

-- ===== src/Launch/Safety.antt =====
-- front-end/front_end.c and back-end/back_end.c: what every launch that recovers keeps to, and what a
-- semaphore with a post left in it does.
use mathlib.Core.Option.{some-injective}
use mangosteen_code.Common.{
  ℕ, ◌+◌, ◌≡◌, refl, sym, ◌∙◌, Bool, true, false, none, some, arith, inl, inr, Option-cases,
}
use mangosteen_code.Memory.{Mem}
use mangosteen_code.RegionTable.{Kernel}
use mangosteen_code.BackEnd.{BackEnd, process_entry, recover}
use mangosteen_code.Launch.{
  World, Semaphores, Reach, start, later, FrontOs, launched, joining, serving,
}
use mangosteen_code.Launch.Restore.{MapsFixed, Shares}
use mangosteen_code.Launch.Recovery.{IsRestored, IsRecovering, Flagged, NoPost, waits}
use mangosteen_code.Launch.Steps.{step-IsRecovering, balance-goal, posts_le}

module _ (rpc_mode : Bool) (n fuel : ℕ) (k : Kernel) (os : FrontOs) (from goal : BackEnd)
    (sems : Semaphores) (memory : Mem) (ready : ℕ → ℕ) (flags : ℕ → Bool) (maps : MapsFixed os)
    (shares : Shares os goal.table) (recovers : recover fuel k from ≡ some goal)
    (idle : process_entry k goal ≡ none) (clean : NoPost sems) where
  abbrev first : World
  first = launched sems from memory ready flags

  empty_value : (h : ℕ) → sems.name ≡ some h → sems.value h + 0 ≡ 0
  empty_value h named = elim clean [
    | inl none_yet ↦ absurd (cc)
    | inr (g, named', empty) ↦
        let same : g ≡ h = some-injective _ _ (sym named' ∙ named) in
        let at : sems.value h ≡ 0 = rw same at empty in omega arith
  ]

  first-IsRecovering : IsRecovering n k from goal first
  first-IsRecovering = record {
    back = refl;
    front = λ i. refl;
    balance = λ h named. empty_value h named;
    unnamed = λ e. (refl, refl);
    bounded = λ i here. absurd (here refl);
    served = λ i e. (cc);
  }

  pub Reach-IsRecovering :
      {w : World} → Reach false rpc_mode n k os first w → IsRecovering n k from goal w
  Reach-IsRecovering start = first-IsRecovering
  Reach-IsRecovering {w} (later {v} r m) =
      step-IsRecovering rpc_mode n fuel k os from goal maps shares recovers idle v w m
        (Reach-IsRecovering r)

  -- Where recovery of the back end returns with nothing left to process, and no post is left in the
  -- semaphore, a worker that serves in a launch that recovers has its flag `is_recovering` set, the back
  -- end has ended recovery, and the front end's memory is the back end's in every region of the table.
  pub serving-IsRestored :
      (w : World) (i : ℕ)
      → Reach false rpc_mode n k os first w
      → w.worker i ≡ serving
      → (w.is_recovering i ≡ true) × (w.back ≡ goal) × IsRestored goal w.memory
  serving-IsRestored w i r serves =
      let h = Reach-IsRecovering r in
      let s = h.served i serves in (s.0, balance-goal n k from goal w h s.1, s.2)

  -- Such a launch that comes to its end leaves no post in the semaphore, with the front end's memory
  -- restored: the next launch begins as this one did.
  pub joining_clean :
      (w : World)
      → Reach false rpc_mode n k os first w
      → w.front_at ≡ joining
      → NoPost w.sems × (w.back ≡ goal) × IsRestored goal w.memory
  joining_clean w r at =
      let h = Reach-IsRecovering r in
      let past : waits w.front_at ≡ 1 = rw at refl in
      let f : Flagged w.worker w.is_recovering × IsRestored goal w.memory = rw at at h.front in
      (
        elim (Option-cases w.sems.name) [
          | inl none_yet ↦ inl none_yet
          | inr (s, named) ↦
              inr (s, named, omega (arith, h.balance s named, past, posts_le w.back_at))
        ],
        balance-goal n k from goal w h past,
        f.1,
      )

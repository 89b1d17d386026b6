-- ===== src/Launch/Steps/Moves.antt =====
-- front-end/front_end.c and back-end/back_end.c: one process of a launch that recovers goes on, and the
-- other finds what it found before.
use mangosteen_code.Common.{
  ℕ, ◌<◌, ◌≤◌, ◌≡◌, ◌≢◌, sym, ◌∙◌, Bool, true, Option, arith, inl, inr, Option-cases,
}
use mangosteen_code.Memory.{Mem}
use mangosteen_code.RegionTable.{Kernel}
use mangosteen_code.BackEnd.{BackEnd}
use mangosteen_code.Launch.{
  World, BackPc, back_entering, back_opened, replaying, back_posting, consuming, unlinking,
  initialising, FrontPc, WorkerPc, absent, serving,
}
use mangosteen_code.Launch.Recovery.{
  IsRestored, posts, waits, BackStands, FrontStands, IsRecovering,
}

pub posts_le : (pc : BackPc) → posts pc ≤ 1
posts_le back_entering = omega arith
posts_le (back_opened s) = omega arith
posts_le (replaying s) = omega arith
posts_le (back_posting s) = omega arith
posts_le consuming = omega arith
posts_le unlinking = omega arith
posts_le initialising = omega arith

-- The front end after its wait has the back end behind its post.
waited-goal :
    (k : Kernel) (from goal : BackEnd) (name : Option ℕ) (b : BackEnd) (pc : BackPc)
    → posts pc ≡ 1
    → BackStands k from goal name b pc
    → b ≡ goal
waited-goal k from goal name b back_entering p h = absurd (omega (arith, p))
waited-goal k from goal name b (back_opened s) p h = absurd (omega (arith, p))
waited-goal k from goal name b (replaying s) p h = absurd (omega (arith, p))
waited-goal k from goal name b (back_posting s) p h = absurd (omega (arith, p))
waited-goal k from goal name b consuming p h = h
waited-goal k from goal name b unlinking p h = absurd h
waited-goal k from goal name b initialising p h = absurd h

-- A post is there, so that the back end has ended recovery.
pub balance-goal :
    (n : ℕ) (k : Kernel) (from goal : BackEnd) (w : World)
    → IsRecovering n k from goal w
    → waits w.front_at ≡ 1
    → w.back ≡ goal
balance-goal n k from goal w h past = elim (Option-cases w.sems.name) [
  | inl none_yet ↦ absurd (omega (arith, (h.unnamed none_yet).0))
  | inr (s, named) ↦
      waited-goal k from goal w.sems.name w.back w.back_at
        (omega (arith, h.balance s named, posts_le w.back_at)) h.back
]

module _ (n : ℕ) (k : Kernel) (from goal : BackEnd) (w : World)
    (h : IsRecovering n k from goal w) where
  -- The back end goes on without a post.
  pub back_moves :
      (b : BackEnd) (pc : BackPc)
      → BackStands k from goal w.sems.name b pc
      → posts pc ≡ posts w.back_at
      → IsRecovering n k from goal (record w { back = b; back_at = pc })
  back_moves b pc stands same = record {
    back = stands;
    front = h.front;
    balance = λ s named. h.balance s named ∙ sym same;
    unnamed = λ e. ((h.unnamed e).0, same ∙ (h.unnamed e).1);
    bounded = h.bounded;
    served = h.served;
  }

  -- The front end goes on with what the workers find in memory, without a wait.
  pub front_moves :
      (pc : FrontPc) (m : Mem) (worker : ℕ → WorkerPc) (ready : ℕ → ℕ) (flags : ℕ → Bool)
      → FrontStands goal w.sems.name worker ready flags m pc
      → waits pc ≡ waits w.front_at
      → ((i : ℕ) → worker i ≢ absent → i < n)
      → ((i : ℕ) → worker i ≡ serving → (flags i ≡ true) × (waits pc ≡ 1) × IsRestored goal m)
      → IsRecovering n k from goal (record w {
        memory = m;
        front_at = pc;
        worker = worker;
        ready = ready;
        is_recovering = flags;
      })
  front_moves pc m worker ready flags stands same inside served' = record {
    back = h.back;
    front = stands;
    balance = λ s named. rw same (h.balance s named);
    unnamed = λ e. (same ∙ (h.unnamed e).0, (h.unnamed e).1);
    bounded = inside;
    served = served';
  }

  -- As long as workers and memory stay, they are served as before.
  pub still_served :
      (pc : FrontPc)
      → waits pc ≡ waits w.front_at
      → (i : ℕ) → w.worker i ≡ serving
      → (w.is_recovering i ≡ true) × (waits pc ≡ 1) × IsRestored goal w.memory
  still_served pc same i e = let s = h.served i e in (s.0, same ∙ s.1, s.2)

  -- The front end goes on and changes nothing else.
  pub front_goes :
      (pc : FrontPc)
      → FrontStands goal w.sems.name w.worker w.ready w.is_recovering w.memory pc
      → waits pc ≡ waits w.front_at
      → IsRecovering n k from goal (record w { front_at = pc })
  front_goes pc stands same =
      front_moves pc w.memory w.worker w.ready w.is_recovering stands same h.bounded
        (still_served pc same)

-- ===== src/Launch/Steps.antt =====
-- front-end/front_end.c and back-end/back_end.c: every step of a launch that recovers keeps the invariant.
mod Moves
pub use Moves.{balance-goal, posts_le}
use Moves.{back_moves, front_moves, front_goes, still_served}
use mathlib.Core.Option.{some-injective}
use mangosteen_code.Common.{
  ℕ, zero, suc, ◌+◌, ◌-◌, ◌<◌, ◌≤◌, ◌≡◌, ◌≢◌, refl, sym, ◌∙◌, ap, Bool, true, false, Option, none,
  some, arith, inl, inr, Option-cases, Bool-cases, update, update_self, update_ne, ℕ_discrete,
  ne→==, eq→==,
}
use mangosteen_code.Memory.{Mem}
use mangosteen_code.RegionTable.{Kernel, remap}
use mangosteen_code.BackEnd.{BackEnd, process_entry, replay, recover}
use mangosteen_code.Launch.{
  World, Semaphores, Move, FrontOs, sem_open, remapped, BackPc, back_entering, back_opened,
  replaying, back_posting, consuming, unlinking, initialising, FrontPc, front_entering,
  front_opened, restoring, restored, front_posting, starting, flagging, releasing, starting_new,
  joining, WorkerPc, absent, polling, serving, none_ready, ready_to_intialise, restore_memory,
  back_open, back_remap, back_replay, back_replayed, back_post, back_woken, back_unlink,
  back_initialised, back_consume, front_open, front_woken, front_restore, front_initialised,
  front_start, front_started, front_new, front_start_new, front_started_new, front_post, front_flag,
  front_flagged, front_release, front_released, worker_serves,
}
use mangosteen_code.Launch.Restore.{MapsFixed, Shares, restore_memory_lem}
use mangosteen_code.Launch.Recovery.{
  IsRestored, posts, waits, BackStands, FrontStands, Quiet, Empty, Flagged, IsRecovering,
  sem_open_lem, back_renamed, front_renamed,
}
use mangosteen_code.Launch.Semaphore.{opened_balance, opened_named}
use mangosteen_code.Launch.Workers.{
  Quiet-created, created_bounded, created_not_serving, flag_kept, flagged_next, polls_absent,
  serves_absent, released, front_serving,
}

-- One round of the loop of recovery
replay_round :
    (fuel : ℕ) (k : Kernel) (b b' goal : BackEnd)
    → b.ring.remote_head ≢ b.ring.remote_tail
    → process_entry k b ≡ some b'
    → replay fuel k b ≡ some goal
    → (fuel' : ℕ) × (replay fuel' k b' ≡ some goal)
unfolding replay
replay_round zero k b b' goal left ran done = absurd (cc)
replay_round (suc fuel) k b b' goal left ran done = (fuel, rw (ne→== _ _ left, ran) at done)

replay_end :
    (fuel : ℕ) (k : Kernel) (b goal : BackEnd)
    → b.ring.remote_head ≡ b.ring.remote_tail
    → replay fuel k b ≡ some goal
    → b ≡ goal
unfolding replay
replay_end zero k b goal same done = absurd (cc)
replay_end (suc fuel) k b goal same done = some-injective _ _ (rw (eq→== _ _ same) at done)

after_remap :
    (fuel : ℕ) (k : Kernel) (from goal : BackEnd) (mem : Mem)
    → recover fuel k from ≡ some goal
    → remap k from.table from.mem ≡ some mem
    → replay fuel k (remapped from mem) ≡ some goal
unfolding recover
after_remap fuel k from goal mem done ran = rw ran at done

-- The memory of a world whose back end has ended recovery
restore-IsRestored :
    (os : FrontOs) (goal : BackEnd) (m m' : Mem)
    → MapsFixed os
    → Shares os goal.table
    → restore_memory os goal.mem goal.table 0 goal.table.number_of_entries m ≡ some m'
    → IsRestored goal m'
restore-IsRestored os goal m m' maps shares ran =
    let (m'', ran', shown) = restore_memory_lem os goal.mem goal.table maps shares m in
    let same : m'' ≡ m' = some-injective _ _ (sym ran' ∙ ran) in
    λ i x lt h. ap (λ f. f x) (sym same) ∙ shown i x lt h

module _ (rpc_mode : Bool) (n fuel : ℕ) (k : Kernel) (os : FrontOs) (from goal : BackEnd)
    (maps : MapsFixed os) (shares : Shares os goal.table)
    (recovers : recover fuel k from ≡ some goal) (idle : process_entry k goal ≡ none) where
  pub step-IsRecovering :
      (w w' : World)
      → Move false rpc_mode n k os w w'
      → IsRecovering n k from goal w
      → IsRecovering n k from goal w'
  step-IsRecovering w w' (back_open at) h =
      let (own, keeps, same, fresh) = sem_open_lem w.sems in
      let b : w.back ≡ from = rw at at h.back in
      record {
        back = (own, b);
        front =
            front_renamed goal w.worker w.ready w.is_recovering w.memory w.front_at keeps h.front;
        balance =
            opened_balance w.sems (waits w.front_at) 0 (rw at at h.balance) (rw at at h.unnamed);
        unnamed = λ e. absurd (opened_named w.sems e);
        bounded = h.bounded;
        served = h.served;
      }
  step-IsRecovering w w' (back_remap {h = s} {mem = mem} old at ran) h =
      let b : (w.sems.name ≡ some s) × (w.back ≡ from) = rw at at h.back in
      back_moves n k from goal w h (remapped w.back mem) (replaying s)
        (b.0, fuel, rw b.1 (after_remap fuel k from goal mem recovers (rw b.1 at ran))) (rw at refl)
  step-IsRecovering w w' (back_replay {h = s} {b = b} at left ran) h =
      let r : (w.sems.name ≡ some s) × (f : ℕ) × (replay f k w.back ≡ some goal) =
        rw at at h.back in
      let (f, done) = replay_round r.1 k w.back b goal left ran r.2 in
      back_moves n k from goal w h b w.back_at (rw at (r.0, f, done)) refl
  step-IsRecovering w w' (back_replayed {h = s} at same) h =
      let r : (w.sems.name ≡ some s) × (f : ℕ) × (replay f k w.back ≡ some goal) =
        rw at at h.back in
      back_moves n k from goal w h w.back (back_posting s)
        (r.0, replay_end r.1 k w.back goal same r.2) (rw at refl)
  step-IsRecovering w w' (back_post {h = s} at) h =
      let r : (w.sems.name ≡ some s) × (w.back ≡ goal) = rw at at h.back in
      let before = h.balance s r.0 in
      let before' : w.sems.value s + waits w.front_at ≡ 0 = rw at at before in
      record {
        back = r.1;
        front = h.front;
        balance = λ g named.
            let is : g ≡ s = some-injective _ _ (sym named ∙ r.0) in
            rw is (omega (arith, update_self w.sems.value s (w.sems.value s + 1)));
        unnamed = λ e. absurd (let q = r.0 in cc);
        bounded = h.bounded;
        served = h.served;
      }
  step-IsRecovering w w' (back_woken fresh at free) h = absurd (cc)
  step-IsRecovering w w' (back_unlink at) h = absurd (rw at at h.back)
  step-IsRecovering w w' (back_initialised at) h = absurd (rw at at h.back)
  step-IsRecovering w w' (back_consume {b = b} at left ran) h =
      let r : w.back ≡ goal = rw at at h.back in
      let stuck : process_entry k w.back ≡ none = rw r idle in absurd (cc)
  step-IsRecovering w w' (front_open at) h =
      let none_yet : Empty w.worker = rw at at h.front in
      let (own, keeps, same, fresh) = sem_open_lem w.sems in
      let q : Empty w.worker = rw at at h.front in
      record {
        back = back_renamed k from goal w.back w.back_at keeps h.back;
        front = (own, q);
        balance =
            opened_balance w.sems 0 (posts w.back_at) (rw at at h.balance) (rw at at h.unnamed);
        unnamed = λ e. absurd (opened_named w.sems e);
        bounded = h.bounded;
        served = λ i e. absurd (serves_absent (none_yet i) e);
      }
  step-IsRecovering w w' (front_woken {h = s} old at free) h =
      let r : (w.sems.name ≡ some s) × Empty w.worker = rw at at h.front in
      let before = h.balance s r.0 in
      let before' : w.sems.value s + 0 ≡ posts w.back_at = rw at at before in
      record {
        back = h.back;
        front = r.1;
        balance = λ g named.
            let is : g ≡ s = some-injective _ _ (sym named ∙ r.0) in
            rw is (omega (arith, before', free, update_self w.sems.value s (w.sems.value s - 1)));
        unnamed = λ e. absurd (let q = r.0 in cc);
        bounded = h.bounded;
        served = λ i e. ((h.served i e).0, refl, (h.served i e).2);
      }
  step-IsRecovering w w' (front_restore {m = m} at ran) h =
      let q : Empty w.worker = rw at at h.front in
      let past : waits w.front_at ≡ 1 = rw at refl in
      let b : w.back ≡ goal = balance-goal n k from goal w h past in
      let all : IsRestored goal m =
        restore-IsRestored os goal w.memory m maps shares (rw b at ran) in
      front_moves n k from goal w h restored m w.worker w.ready w.is_recovering (q, all) (sym past)
        h.bounded (λ i e. ((h.served i e).0, refl, all))
  step-IsRecovering w w' (front_initialised at) h =
      let q : Empty w.worker × IsRestored goal w.memory = rw at at h.front in
      elim (Bool-cases rpc_mode) [
        | inl on ↦ rw on (
            front_goes n k from goal w h (starting 0) (λ i here. absurd (here (q.0 i)), q.1)
              (rw at refl))
        | inr off ↦ rw off (
            front_goes n k from goal w h joining (λ i here. absurd (here (q.0 i)), q.1)
              (rw at refl))
      ]
  step-IsRecovering w w' (front_start {i = i} at lt) h =
      let q : Quiet w.worker w.ready × IsRestored goal w.memory = rw at at h.front in
      let same : 1 ≡ waits w.front_at = rw at refl in
      front_moves n k from goal w h (starting (i + 1)) w.memory (update w.worker i polling)
        (update w.ready i none_ready) w.is_recovering (Quiet-created w.worker w.ready i q.0, q.1)
        same (created_bounded w.worker n i polling lt h.bounded)
        (λ j e.
          still_served n k from goal w h (starting i) same j (created_not_serving w.worker i j e))
  step-IsRecovering w w' (front_started {i = i} at end_) h =
      let q : Quiet w.worker w.ready × IsRestored goal w.memory = rw at at h.front in
      front_goes n k from goal w h (flagging 0) (q.0, q.1, λ j lt. absurd (omega arith))
        (rw at refl)
  step-IsRecovering w w' (front_new fresh at) h = absurd (cc)
  step-IsRecovering w w' (front_start_new at lt) h = absurd (rw at at h.front)
  step-IsRecovering w w' (front_started_new at e) h = absurd (rw at at h.front)
  step-IsRecovering w w' (front_post at) h = absurd (rw at at h.front)
  step-IsRecovering w w' (front_flag {i = i} at lt) h =
      let q : Quiet w.worker w.ready
          × IsRestored goal w.memory
          × ((j : ℕ) → j < i → w.is_recovering j ≡ true) =
        rw at at h.front in
      front_moves n k from goal w h (flagging (i + 1)) w.memory w.worker w.ready
        (update w.is_recovering i true) (q.0, q.1, flagged_next w.is_recovering i q.2) (rw at refl)
        h.bounded (λ j e. (flag_kept w.is_recovering i j (h.served j e).0, refl, (h.served j e).2))
  step-IsRecovering w w' (front_flagged {i = i} at end_) h =
      let q : Quiet w.worker w.ready
          × IsRestored goal w.memory
          × ((j : ℕ) → j < i → w.is_recovering j ≡ true) =
        rw at at h.front in
      front_goes n k from goal w h (releasing 0)
        (λ j here. q.2 j (omega (arith, h.bounded j here)), q.1) (rw at refl)
  step-IsRecovering w w' (front_release {i = i} at lt) h =
      let q : Flagged w.worker w.is_recovering × IsRestored goal w.memory = rw at at h.front in
      let same : 1 ≡ waits w.front_at = rw at refl in
      front_moves n k from goal w h (releasing (i + 1)) w.memory w.worker
        (update w.ready i ready_to_intialise) w.is_recovering q same h.bounded
        (still_served n k from goal w h (releasing i) same)
  step-IsRecovering w w' (front_released {i = i} at end_) h =
      let q : Flagged w.worker w.is_recovering × IsRestored goal w.memory = rw at at h.front in
      front_goes n k from goal w h joining q (rw at refl)
  step-IsRecovering w w' (worker_serves i polls ready) h =
      let free =
        released goal w.sems.name w.worker w.ready w.is_recovering w.memory w.front_at i h.front
          polls ready in
      front_moves n k from goal w h w.front_at w.memory (update w.worker i serving) w.ready
        w.is_recovering
        (front_serving goal w.sems.name w.worker w.ready w.is_recovering w.memory w.front_at i polls
          h.front)
        refl (created_bounded w.worker n i serving (h.bounded i (λ z. (cc))) h.bounded)
        (λ j e. elim (ℕ_discrete j i) [
          | yes same ↦ rw same free
          | no other ↦ h.served j (sym (update_ne w.worker i j serving other) ∙ e)
        ])

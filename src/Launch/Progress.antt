-- ===== src/Launch/Progress.antt =====
-- front-end/front_end.c and back-end/back_end.c: a launch that recovers can come to its end, with every
-- worker in its event loop.
use mathlib.Core.Option.{some-injective}
use mangosteen_code.Common.{
  ℕ, zero, suc, ◌+◌, ◌<◌, ◌≤◌, ◌≡◌, ◌≢◌, refl, sym, ◌∙◌, ap, Bool, true, false, some, arith, inl,
  inr, Bool-cases, update, update_self, update_ne, ℕ_discrete, >>=-eq-some, ==→eq, ==→ne, ◌==◌,
}
use mangosteen_code.Memory.{Mem}
use mangosteen_code.RegionTable.{Kernel, remap}
use mangosteen_code.BackEnd.{BackEnd, process_entry, recover, replay}
use mangosteen_code.Launch.{
  World, Semaphores, Reach, start, later, FrontOs, launched, sem_open, sem_post, sem_down, remapped,
  create_worker, back_opened, replaying, back_posting, consuming, front_opened, restoring, restored,
  starting, flagging, releasing, joining, WorkerPc, polling, serving, ready_to_intialise, back_open,
  back_remap, back_replay, back_replayed, back_post, front_open, front_woken, front_restore,
  front_initialised, front_start, front_started, front_flag, front_flagged, front_release,
  front_released, worker_serves,
}
use mangosteen_code.Launch.Restore.{MapsFixed, Shares, restore_memory_lem}
use mangosteen_code.Launch.Recovery.{sem_open_lem}

-- The workers below `n` are in the event loop.
abbrev pub AllServe : ℕ → (ℕ → WorkerPc) → Type 0
AllServe zero worker = Unit
AllServe (suc n) worker = (worker n ≡ serving) × AllServe n worker

AllServe-below :
    (n : ℕ) (worker : ℕ → WorkerPc) → ((i : ℕ) → i < n → worker i ≡ serving) → AllServe n worker
AllServe-below zero worker h = record {}
AllServe-below (suc n) worker h =
    (h n (omega arith), AllServe-below n worker (λ i lt. h i (omega arith)))

module _ (n : ℕ) (k : Kernel) (os : FrontOs) (first : World) where
  -- The loop of recovery, to its end
  replays :
      (fuel h : ℕ) (v : World) (goal : BackEnd)
      → v.back_at ≡ replaying h
      → replay fuel k v.back ≡ some goal
      → Reach false true n k os first v
      → Reach false true n k os first (record v { back = goal; back_at = back_posting h })
  unfolding replay
  replays zero h v goal at done r = absurd (cc)
  replays (suc fuel) h v goal at done r =
      elim (Bool-cases (v.back.ring.remote_head == v.back.ring.remote_tail)) [
        | inl same ↦
            let is : v.back ≡ goal = some-injective _ _ (rw same at done) in
            rw (← is) (later r (back_replayed at (==→eq _ _ same)))
        | inr left ↦
            let (b, ran, rest) = >>=-eq-some (process_entry k v.back) _ (rw left at done) in
            replays fuel h (record v { back = b }) goal at rest
              (later r (back_replay at (==→ne _ _ left) ran))
      ]

  -- The workers are created one after another.
  starts :
      (left i : ℕ) (v : World)
      → i + left ≡ n
      → v.front_at ≡ starting i
      → ((j : ℕ) → j < i → v.worker j ≡ polling)
      → Reach false true n k os first v
      → (w : World) × Reach false true n k os first w
        × (w.front_at ≡ starting n)
        × ((j : ℕ) → j < n → w.worker j ≡ polling)
  starts zero i v count at here r =
      let all : i ≡ n = omega arith in (v, r, rw all at at, rw all at here)
  starts (suc left) i v count at here r =
      starts left (i + 1) (let c = create_worker i v in record c { front_at = starting (i + 1) })
        (omega arith) refl
        (λ j lt. elim (ℕ_discrete j i) [
          | yes same ↦ rw same (update_self v.worker i polling)
          | no other ↦ update_ne v.worker i j polling other ∙ here j (omega arith)
        ])
        (later r (front_start at (omega arith)))

  flags_all :
      (left i : ℕ) (v : World)
      → i + left ≡ n
      → v.front_at ≡ flagging i
      → Reach false true n k os first v
      → (w : World) × Reach false true n k os first w
        × (w.front_at ≡ flagging n)
        × (w.worker ≡ v.worker)
  flags_all zero i v count at r = let all : i ≡ n = omega arith in (v, r, rw all at at, refl)
  flags_all (suc left) i v count at r =
      flags_all left (i + 1)
        (record v { is_recovering = update v.is_recovering i true; front_at = flagging (i + 1) })
        (omega arith) refl (later r (front_flag at (omega arith)))

  releases :
      (left i : ℕ) (v : World)
      → i + left ≡ n
      → v.front_at ≡ releasing i
      → ((j : ℕ) → j < i → v.ready j ≡ ready_to_intialise)
      → Reach false true n k os first v
      → (w : World) × Reach false true n k os first w
        × (w.front_at ≡ releasing n)
        × ((j : ℕ) → j < n → w.ready j ≡ ready_to_intialise)
        × (w.worker ≡ v.worker)
  releases zero i v count at here r =
      let all : i ≡ n = omega arith in (v, r, rw all at at, rw all at here, refl)
  releases (suc left) i v count at here r =
      releases left (i + 1)
        (record v { ready = update v.ready i ready_to_intialise; front_at = releasing (i + 1) })
        (omega arith) refl
        (λ j lt. elim (ℕ_discrete j i) [
          | yes same ↦ rw same (update_self v.ready i ready_to_intialise)
          | no other ↦ update_ne v.ready i j ready_to_intialise other ∙ here j (omega arith)
        ])
        (later r (front_release at (omega arith)))

  -- Every worker that is released leaves its loop.
  serves :
      (left i : ℕ) (v : World)
      → i + left ≡ n
      → ((j : ℕ) → j < i → v.worker j ≡ serving)
      → ((j : ℕ) → i ≤ j → j < n → v.worker j ≡ polling)
      → ((j : ℕ) → j < n → v.ready j ≡ ready_to_intialise)
      → Reach false true n k os first v
      → (w : World) × Reach false true n k os first w
        × (w.front_at ≡ v.front_at)
        × AllServe n w.worker
  serves zero i v count here polls ready r =
      let all : i ≡ n = omega arith in (v, r, refl, AllServe-below n v.worker (rw all at here))
  serves (suc left) i v count here polls ready r =
      serves left (i + 1) (record v { worker = update v.worker i serving }) (omega arith)
        (λ j lt. elim (ℕ_discrete j i) [
          | yes same ↦ rw same (update_self v.worker i serving)
          | no other ↦ update_ne v.worker i j serving other ∙ here j (omega arith)
        ])
        (λ j le lt. update_ne v.worker i j serving (omega arith) ∙ polls j (omega arith) lt) ready
        (later r (worker_serves i (polls i (omega arith) (omega arith)) (ready i (omega arith))))

  -- From the restored memory to the event loops
  workers_serve :
      (v : World)
      → v.front_at ≡ restored
      → Reach false true n k os first v
      → (w : World) × Reach false true n k os first w × (w.front_at ≡ joining) × AllServe n w.worker
  workers_serve v at r =
      let (a, ra, at_a, here_a) =
        starts n 0 (record v { front_at = starting 0 }) (omega arith) refl
          (λ j lt. absurd (omega arith)) (later r (front_initialised at)) in
      let (b, rb, at_b, same_b) =
        flags_all n 0 (record a { front_at = flagging 0 }) (omega arith) refl
          (later ra (front_started at_a refl)) in
      let (c, rc, at_c, ready_c, same_c) =
        releases n 0 (record b { front_at = releasing 0 }) (omega arith) refl
          (λ j lt. absurd (omega arith)) (later rb (front_flagged at_b refl)) in
      serves n 0 (record c { front_at = joining }) (omega arith) (λ j lt. absurd (omega arith))
        (λ j le lt. ap (λ f. f j) (same_c ∙ same_b) ∙ here_a j lt) ready_c
        (later rc (front_released at_c refl))

-- Where recovery of the back end returns, a launch that recovers can come to its end with every worker
-- in its event loop, whatever is in the semaphore at first.
pub recovery_progress :
    (n fuel : ℕ) (k : Kernel) (os : FrontOs) (from goal : BackEnd) (sems : Semaphores)
    (memory : Mem) (ready : ℕ → ℕ) (flags : ℕ → Bool)
    → MapsFixed os
    → Shares os goal.table
    → recover fuel k from ≡ some goal
    → (w : World) × Reach false true n k os (launched sems from memory ready flags) w
      × (w.front_at ≡ joining)
      × AllServe n w.worker
unfolding recover sem_open
recovery_progress n fuel k os from goal sems memory ready flags maps shares recovers =
    let w0 = launched sems from memory ready flags in
    let (mem, ran, done) = >>=-eq-some (remap k from.table from.mem) _ recovers in
    let s1 = (sem_open sems).0 in
    let h = (sem_open sems).1 in
    let w1 : World = record w0 { sems = s1; back_at = back_opened h } in
    let s2 = (sem_open s1).0 in
    let w2 : World = record w1 { sems = s2; front_at = front_opened (sem_open s1).1 } in
    let w3 : World = record w2 { back = remapped from mem; back_at = replaying h } in
    let r3 : Reach false true n k os w0 w3 =
      later (later (later start (back_open refl)) (front_open refl)) (back_remap refl refl ran) in
    let r4 = replays n k os w0 fuel h w3 goal refl done r3 in
    let w5 : World = record w3 { back = goal; back_at = consuming; sems = sem_post h s2 } in
    let r5 : Reach false true n k os w0 w5 = later r4 (back_post refl) in
    let same : (sem_open s1).1 ≡ h =
      some-injective _ _ (sym (sem_open_lem s1).0 ∙ (sem_open_lem s1).1 h (sem_open_lem sems).0) in
    let free : (sem_post h s2).value (sem_open s1).1 ≢ 0 = λ z.
      omega (arith, z, update_self s2.value h (s2.value h + 1), ap (sem_post h s2).value same) in
    let g = (sem_open s1).1 in
    let w6 : World = record w5 { sems = sem_down g (sem_post h s2); front_at = restoring } in
    let r6 : Reach false true n k os w0 w6 = later r5 (front_woken refl refl free) in
    let (m, ran', shown) = restore_memory_lem os goal.mem goal.table maps shares memory in
    workers_serve n k os w0 (record w6 { memory = m; front_at = restored }) refl
      (later r6 (front_restore refl ran'))

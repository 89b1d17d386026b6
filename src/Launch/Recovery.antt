-- ===== src/Launch/Recovery.antt =====
-- front-end/front_end.c and back-end/back_end.c: a launch that recovers. The invariant of its processes.
use mangosteen_code.Common.{
  ℕ, ◌+◌, ◌<◌, ◌≡◌, ◌≢◌, Bool, true, Option, none, some, refl, inl, inr, ◌⊎◌, Option-cases,
  update_self,
}
use mangosteen_code.Memory.{Mem}
use mangosteen_code.RegionTable.{Kernel, InRegion}
use mangosteen_code.BackEnd.{BackEnd, replay}
use mangosteen_code.Launch.{
  World, Semaphores, BackPc, back_entering, back_opened, replaying, back_posting, consuming,
  unlinking, initialising, FrontPc, front_entering, front_opened, restoring, restored,
  front_posting, starting, flagging, releasing, starting_new, joining, WorkerPc, absent, serving,
  none_ready, sem_open,
}

-- Memory shows the goal in every region of the goal's table.
abbrev pub IsRestored : BackEnd → Mem → Type 0
IsRestored goal m =
    (i x : ℕ)
    → i < goal.table.number_of_entries
    → InRegion (goal.table.entries i) x
    → m x ≡ goal.mem x

-- The semaphore of the name, if there is one, has no post in it.
abbrev pub NoPost : Semaphores → Type 0
NoPost s = (s.name ≡ none) ⊎ ((h : ℕ) × (s.name ≡ some h) × (s.value h ≡ 0))

-- How often the back end has posted, and the front end waited.
abbrev pub posts : BackPc → ℕ
posts back_entering = 0
posts (back_opened h) = 0
posts (replaying h) = 0
posts (back_posting h) = 0
posts consuming = 1
posts unlinking = 0
posts initialising = 0

abbrev pub waits : FrontPc → ℕ
waits front_entering = 0
waits (front_opened h) = 0
waits restoring = 1
waits restored = 1
waits (front_posting h) = 0
waits (starting i) = 1
waits (flagging i) = 1
waits (releasing i) = 1
waits (starting_new h i) = 0
waits joining = 1

-- Where the back end is on the way from the state at the fork to the goal.
abbrev pub BackStands : Kernel → BackEnd → BackEnd → Option ℕ → BackEnd → BackPc → Type 0
BackStands k from goal name b back_entering = b ≡ from
BackStands k from goal name b (back_opened h) = (name ≡ some h) × (b ≡ from)
BackStands k from goal name b (replaying h) =
    (name ≡ some h) × (fuel : ℕ) × (replay fuel k b ≡ some goal)
BackStands k from goal name b (back_posting h) = (name ≡ some h) × (b ≡ goal)
BackStands k from goal name b consuming = b ≡ goal
BackStands k from goal name b unlinking = ⊥
BackStands k from goal name b initialising = ⊥

-- There is no worker yet; no worker is past the loop on `ready`; every worker that there is has its flag.
abbrev pub Empty : (ℕ → WorkerPc) → Type 0
Empty worker = (i : ℕ) → worker i ≡ absent

abbrev pub Quiet : (ℕ → WorkerPc) → (ℕ → ℕ) → Type 0
Quiet worker ready = (i : ℕ) → worker i ≢ absent → ready i ≡ none_ready

abbrev pub Flagged : (ℕ → WorkerPc) → (ℕ → Bool) → Type 0
Flagged worker flags = (i : ℕ) → worker i ≢ absent → flags i ≡ true

module _ (goal : BackEnd) (name : Option ℕ) (worker : ℕ → WorkerPc) (ready : ℕ → ℕ)
    (flags : ℕ → Bool) (m : Mem) where
  abbrev pub FrontStands : FrontPc → Type 0
  FrontStands front_entering = Empty worker
  FrontStands (front_opened h) = (name ≡ some h) × Empty worker
  FrontStands restoring = Empty worker
  FrontStands restored = Empty worker × IsRestored goal m
  FrontStands (front_posting h) = ⊥
  FrontStands (starting i) = Quiet worker ready × IsRestored goal m
  FrontStands (flagging i) =
      Quiet worker ready × IsRestored goal m × ((j : ℕ) → j < i → flags j ≡ true)
  FrontStands (releasing i) = Flagged worker flags × IsRestored goal m
  FrontStands (starting_new h i) = ⊥
  FrontStands joining = Flagged worker flags × IsRestored goal m

-- The invariant of a recovery that the back end ends in `goal`.
pub record IsRecovering (n : ℕ) (k : Kernel) (from goal : BackEnd) (w : World) : Type 0 where
  pub back : BackStands k from goal w.sems.name w.back w.back_at
  pub front : FrontStands goal w.sems.name w.worker w.ready w.is_recovering w.memory w.front_at
  pub balance : (h : ℕ) → w.sems.name ≡ some h → w.sems.value h + waits w.front_at ≡ posts w.back_at
  pub unnamed : w.sems.name ≡ none → (waits w.front_at ≡ 0) × (posts w.back_at ≡ 0)
  pub bounded : (i : ℕ) → w.worker i ≢ absent → i < n
  pub served :
      (i : ℕ)
      → w.worker i ≡ serving
      → (w.is_recovering i ≡ true) × (waits w.front_at ≡ 1) × IsRestored goal w.memory

-- An open gives the semaphore of the name, which a name that is there keeps.
pub sem_open_lem :
    (s : Semaphores)
    → ((sem_open s).0.name ≡ some (sem_open s).1)
      × ((h : ℕ) → s.name ≡ some h → (sem_open s).0.name ≡ some h)
      × ((h : ℕ) → s.name ≡ some h → (sem_open s).0.value h ≡ s.value h)
      × (s.name ≡ none → (sem_open s).0.value (sem_open s).1 ≡ 0)
unfolding sem_open
sem_open_lem s = elim (Option-cases s.name) [
  | inl none_yet ↦
      rw none_yet (refl, λ h e. (cc), λ h e. absurd (cc), λ e. update_self s.value s.next 0)
  | inr (h, named) ↦ rw named (refl, λ h' e. e, λ h' e. refl, λ e. absurd (cc))
]

pub back_renamed :
    (k : Kernel) (from goal : BackEnd) {name name' : Option ℕ} (b : BackEnd) (pc : BackPc)
    → ((h : ℕ) → name ≡ some h → name' ≡ some h)
    → BackStands k from goal name b pc
    → BackStands k from goal name' b pc
back_renamed k from goal b back_entering keeps h = h
back_renamed k from goal b (back_opened s) keeps h = (keeps s h.0, h.1)
back_renamed k from goal b (replaying s) keeps h = (keeps s h.0, h.1, h.2)
back_renamed k from goal b (back_posting s) keeps h = (keeps s h.0, h.1)
back_renamed k from goal b consuming keeps h = h
back_renamed k from goal b unlinking keeps h = h
back_renamed k from goal b initialising keeps h = h

pub front_renamed :
    (goal : BackEnd) {name name' : Option ℕ} (worker : ℕ → WorkerPc) (ready : ℕ → ℕ)
    (flags : ℕ → Bool) (m : Mem) (pc : FrontPc)
    → ((h : ℕ) → name ≡ some h → name' ≡ some h)
    → FrontStands goal name worker ready flags m pc
    → FrontStands goal name' worker ready flags m pc
front_renamed goal worker ready flags m front_entering keeps h = h
front_renamed goal worker ready flags m (front_opened s) keeps h = (keeps s h.0, h.1)
front_renamed goal worker ready flags m restoring keeps h = h
front_renamed goal worker ready flags m restored keeps h = h
front_renamed goal worker ready flags m (front_posting s) keeps h = h
front_renamed goal worker ready flags m (starting i) keeps h = h
front_renamed goal worker ready flags m (flagging i) keeps h = h
front_renamed goal worker ready flags m (releasing i) keeps h = h
front_renamed goal worker ready flags m (starting_new s i) keeps h = h
front_renamed goal worker ready flags m joining keeps h = h

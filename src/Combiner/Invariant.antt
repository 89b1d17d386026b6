-- ===== src/Combiner/Invariant.antt =====
-- flat_combining/flat_combining.c, `exec_rw_flat_combining`: what every reachable state satisfies.
use mangosteen_code.Common.{
  ℕ, ◌+◌, ◌<◌, ◌≤◌, ◌≡◌, ◌≢◌, Bool, true, false, List, [], ◌∷◌, ◌++◌, update, update_ne,
  update_self, ap, ◌∙◌, refl, arith, ◌==◌, if◌then◌else◌, All, ℕ_discrete,
}
use mangosteen_code.Combiner.{
  started, done, ready_to_execute, no_task, Tasks, Pc, outside, looping, testing, trying, waiting,
  leaving, collecting, checking, executing, finishing, releasing, Move, submit, see_started,
  not_started, wait, woken, see_done, not_done, leave, lock_busy, lock_writer, collect, skip,
  scanned, readers_left, drained, execute, executed_all, finish, clear, write_unlock,
}

-- How often a thread is in a list.
abbrev pub count : ℕ → List ℕ → ℕ
count j [] = 0
count j (x ∷ xs) = (if j == x then 1 else 0) + count j xs

pub count-snoc :
    (j x : ℕ) (xs : List ℕ) → count j (xs ++ (x ∷ [])) ≡ count j xs + (if j == x then 1 else 0)
count-snoc j x [] = ground arith
count-snoc j x (y ∷ xs) = ground (arith, count-snoc j x xs)

-- The combiner.
abbrev pub owns : Pc → Bool
owns (collecting i batch) = true
owns (checking batch) = true
owns (executing left batch) = true
owns (finishing left) = true
owns releasing = true
owns _ = false

-- The tasks that the combiner has marked as started, and of these the ones not yet executed.
abbrev pub pending : Pc → List ℕ
pending (collecting i batch) = batch
pending (checking batch) = batch
pending (executing left batch) = batch
pending (finishing left) = left
pending _ = []

abbrev pub owed : Pc → List ℕ
owed (collecting i batch) = batch
owed (checking batch) = batch
owed (executing left batch) = left
owed _ = []

-- What a thread at `p` can find in its own `ready`.
abbrev pub Fits : ℕ → Pc → ℕ → Type 0
Fits me outside r = r ≡ no_task
Fits me looping r = r < no_task
Fits me testing r = r < no_task
Fits me trying r = r < no_task
Fits me waiting r = r < ready_to_execute
Fits me leaving r = r ≡ done
Fits me (collecting i batch) r = (r < no_task) × ((me < i) → r < ready_to_execute)
Fits me (checking batch) r = r < ready_to_execute
Fits me (executing left batch) r = r < ready_to_execute
Fits me (finishing left) r = r < ready_to_execute
Fits me releasing r = r ≡ no_task

-- A task's count of executions, by its `ready`, where no combiner has started it.
pub record Counted (t : Tasks) (j : ℕ) : Type 0 where
  pub range : t.ready j ≤ no_task
  pub not_twice : t.executed j ≤ t.submitted j
  pub one_open : t.submitted j ≤ t.executed j + 1
  pub open_task : t.ready j ≡ ready_to_execute → t.executed j + 1 ≡ t.submitted j
  pub settled : t.ready j ≢ ready_to_execute → t.ready j ≢ started → t.executed j ≡ t.submitted j

-- What the combiner's lists say of a task.
pub record Listed (t : Tasks) (p : Pc) (j : ℕ) : Type 0 where
  pub listed : count j (pending p) ≡ (if t.ready j == started then 1 else 0)
  pub less : count j (owed p) ≤ count j (pending p)
  pub balance : t.ready j ≡ started → t.executed j + count j (owed p) ≡ t.submitted j

pub record IsCombining (n : ℕ) (t : Tasks) (pc : ℕ → Pc) : Type 0 where
  pub fits : (j : ℕ) → Fits j (pc j) (t.ready j)
  pub counted : (j : ℕ) → Counted t j
  pub flagged : (w : ℕ) → owns (pc w) ≡ true → t.writers ≡ 1
  pub one_owner : (w v : ℕ) → owns (pc w) ≡ true → owns (pc v) ≡ true → w ≡ v
  pub free : t.writers ≡ 0 → (j : ℕ) → t.ready j ≢ started
  pub lists : (w : ℕ) → owns (pc w) ≡ true → (j : ℕ) → Listed t (pc w) j
  pub bounded : (w : ℕ) → owns (pc w) ≡ true → All (λ x. x < n) (pending (pc w))

-- The thread that moves: `Fits` in its new place.
pub Move-Fits :
    {n me : ℕ} {t t' : Tasks} {p p' : Pc}
    → Move n me t p t' p'
    → me < n
    → Fits me p (t.ready me)
    → Counted t me
    → Fits me p' (t'.ready me)
Move-Fits submit lt f c = ground arith
Move-Fits (see_started h) lt f c = ground arith
Move-Fits (not_started h) lt f c = f
Move-Fits (wait h) lt f c = f
Move-Fits (woken h) lt f c = h
Move-Fits (see_done h) lt f c = h
Move-Fits (not_done h) lt f c = f
Move-Fits leave lt f c = ground arith
Move-Fits (lock_busy h) lt f c = f
Move-Fits (lock_writer h) lt f c = (f, λ low. absurd (omega arith))
Move-Fits {me = me} (collect {i} h r) lt f c = elim (ℕ_discrete me i) [
  | yes mine ↦ ground arith
  | no other ↦ (ground arith, λ low. ground (arith, f.1))
]
Move-Fits {me = me} (skip {i} h r) lt f c = (f.0, λ low. ground (arith, f.1))
Move-Fits (scanned h) lt f c = f.1 (omega arith)
Move-Fits readers_left lt f c = (omega arith, λ low. f)
Move-Fits drained lt f c = f
Move-Fits execute lt f c = f
Move-Fits executed_all lt f c = f
Move-Fits (finish {x}) lt f c = ground arith
Move-Fits clear lt f c = ground arith
Move-Fits write_unlock lt f c = f

-- The other threads: only the combiner changes their `ready`, from ready to started to done.
Fits-started : (j : ℕ) (p : Pc) (r : ℕ) → r ≡ ready_to_execute → Fits j p r → Fits j p started
Fits-started j outside r e f = absurd (omega arith)
Fits-started j looping r e f = omega arith
Fits-started j testing r e f = omega arith
Fits-started j trying r e f = omega arith
Fits-started j waiting r e f = omega arith
Fits-started j leaving r e f = absurd (omega arith)
Fits-started j (collecting i batch) r e f = (omega arith, λ low. omega arith)
Fits-started j (checking batch) r e f = omega arith
Fits-started j (executing left batch) r e f = omega arith
Fits-started j (finishing left) r e f = omega arith
Fits-started j releasing r e f = absurd (omega arith)

Fits-done : (j : ℕ) (p : Pc) (r : ℕ) → r ≡ started → Fits j p r → Fits j p done
Fits-done j outside r e f = absurd (omega arith)
Fits-done j looping r e f = omega arith
Fits-done j testing r e f = omega arith
Fits-done j trying r e f = omega arith
Fits-done j waiting r e f = omega arith
Fits-done j leaving r e f = refl
Fits-done j (collecting i batch) r e f = (omega arith, λ low. omega arith)
Fits-done j (checking batch) r e f = omega arith
Fits-done j (executing left batch) r e f = omega arith
Fits-done j (finishing left) r e f = omega arith
Fits-done j releasing r e f = absurd (omega arith)

pub Move-Fits_other :
    {n me : ℕ} {t t' : Tasks} {p p' : Pc}
    → Move n me t p t' p'
    → (j : ℕ) (q : Pc) → j ≢ me
    → (owns p ≡ true → Listed t p j)
    → Fits j q (t.ready j)
    → Fits j q (t'.ready j)
Move-Fits_other submit j q ne l f = rw (update_ne _ _ j _ ne) f
Move-Fits_other leave j q ne l f = rw (update_ne _ _ j _ ne) f
Move-Fits_other {t = t} (collect {i} h r) j q ne l f = elim (ℕ_discrete j i) [
  | yes taken ↦
      rw (ap (update t.ready i started) taken ∙ update_self t.ready i started)
        (Fits-started j q (t.ready j) (ap t.ready taken ∙ r) f)
  | no other ↦ rw (update_ne _ _ j _ other) f
]
Move-Fits_other {t = t} (finish {x} {left}) j q ne l f = elim (ℕ_discrete j x) [
  | yes last ↦
      rw (ap (update t.ready x done) last ∙ update_self t.ready x done)
        (Fits-done j q (t.ready j) (ground (arith, (l refl).listed)) f)
  | no other ↦ rw (update_ne _ _ j _ other) f
]
Move-Fits_other clear j q ne l f = rw (update_ne _ _ j _ ne) f
Move-Fits_other mv j q ne l f = f

-- ===== src/Combiner/Steps.antt =====
-- flat_combining/flat_combining.c, `exec_rw_flat_combining`: one step and the counts of a task.
use mangosteen_code.Common.{
  ℕ, ◌<◌, ◌≡◌, ◌≢◌, ◌⊎◌, inl, inr, true, false, List, [], ◌∷◌, ◌++◌, refl, arith, All,
}
use mangosteen_code.Combiner.{
  started, Tasks, Pc, Move, submit, leave, lock_writer, collect, skip, scanned, readers_left,
  drained, execute, executed_all, finish, clear, write_unlock,
}
use mangosteen_code.Combiner.Invariant.{count-snoc, owns, pending, owed, Fits, Counted, Listed}

pub Move-Counted :
    {n me : ℕ} {t t' : Tasks} {p p' : Pc}
    → Move n me t p t' p'
    → Fits me p (t.ready me)
    → ((j : ℕ) → owns p ≡ true → Listed t p j)
    → (j : ℕ) → Counted t j
    → Counted t' j
Move-Counted {me = me} submit f l j c = ground arith
Move-Counted {me = me} leave f l j c = ground arith
Move-Counted (collect h r) f l j c = ground arith
Move-Counted (execute {x}) f l j c = ground (arith, l x refl)
Move-Counted (finish {x} {left}) f l j c = ground (arith, l x refl)
Move-Counted {me = me} clear f l j c = ground (arith, l me refl)
Move-Counted (lock_writer h) f l j c = record {
  range = c.range;
  not_twice = c.not_twice;
  one_open = c.one_open;
  open_task = c.open_task;
  settled = c.settled;
}
Move-Counted executed_all f l j c = record {
  range = c.range;
  not_twice = c.not_twice;
  one_open = c.one_open;
  open_task = c.open_task;
  settled = c.settled;
}
Move-Counted write_unlock f l j c = record {
  range = c.range;
  not_twice = c.not_twice;
  one_open = c.one_open;
  open_task = c.open_task;
  settled = c.settled;
}
Move-Counted mv f l j c = c

relisted :
    {t : Tasks} {p p' : Pc} {j : ℕ}
    → Listed t p j
    → pending p ≡ pending p'
    → owed p ≡ owed p'
    → Listed t p' j
relisted {j = j} h same same' = record {
  listed = rw (← same) h.listed;
  less = rw (← same, ← same') h.less;
  balance = rw (← same') h.balance;
}

-- The combiner's own lists.
pub Move-Listed :
    {n me : ℕ} {t t' : Tasks} {p p' : Pc}
    → Move n me t p t' p'
    → owns p' ≡ true
    → (t.writers ≡ 0 → (j : ℕ) → t.ready j ≢ started)
    → Fits me p (t.ready me)
    → ((j : ℕ) → Counted t j)
    → ((j : ℕ) → owns p ≡ true → Listed t p j)
    → (j : ℕ) → Listed t' p' j
Move-Listed (lock_writer h) o free f c l j = ground (arith, free h j)
Move-Listed (collect {i} {batch} h r) o free f c l j =
    ground (arith, l j refl, c j, count-snoc j i batch)
Move-Listed (skip h r) o free f c l j = relisted (l j refl) refl refl
Move-Listed (scanned h) o free f c l j = relisted (l j refl) refl refl
Move-Listed readers_left o free f c l j = relisted (l j refl) refl refl
Move-Listed drained o free f c l j = relisted (l j refl) refl refl
Move-Listed (execute {x} {left} {batch}) o free f c l j = ground (arith, l j refl)
Move-Listed executed_all o free f c l j = ground (arith, l j refl)
Move-Listed (finish {x} {left}) o free f c l j = ground (arith, l j refl)
Move-Listed {me = me} clear o free f c l j = ground (arith, l j refl, l me refl)
Move-Listed mv o free f c l j = absurd (cc)

-- The lists of a combiner, while another thread moves.
pub Move-Listed_other :
    {n me : ℕ} {t t' : Tasks} {p p' : Pc}
    → Move n me t p t' p'
    → owns p ≡ false
    → Fits me p (t.ready me)
    → (q : Pc) (j : ℕ) → Listed t q j
    → Listed t' q j
Move-Listed_other {me = me} submit o f q j h = ground arith
Move-Listed_other {me = me} leave o f q j h = ground arith
Move-Listed_other (lock_writer e) o f q j h = record {
  listed = h.listed;
  less = h.less;
  balance = h.balance;
}
Move-Listed_other (collect e r) o f q j h = absurd (cc)
Move-Listed_other executed_all o f q j h = absurd (cc)
Move-Listed_other execute o f q j h = absurd (cc)
Move-Listed_other finish o f q j h = absurd (cc)
Move-Listed_other clear o f q j h = absurd (cc)
Move-Listed_other write_unlock o f q j h = absurd (cc)
Move-Listed_other mv o f q j h = h

All-snoc : {n i : ℕ} (xs : List ℕ) → All (λ x. x < n) xs → i < n → All (λ x. x < n) (xs ++ (i ∷ []))
All-snoc [] a h = (h, tt)
All-snoc (x ∷ xs) a h = (a.0, All-snoc xs a.1 h)

pub Move-bounded :
    {n me : ℕ} {t t' : Tasks} {p p' : Pc}
    → Move n me t p t' p'
    → owns p' ≡ true
    → (owns p ≡ true → All (λ x. x < n) (pending p))
    → All (λ x. x < n) (pending p')
Move-bounded (lock_writer h) o a = tt
Move-bounded (collect {i} {batch} h r) o a = All-snoc batch (a refl) h
Move-bounded (skip h r) o a = a refl
Move-bounded (scanned h) o a = a refl
Move-bounded readers_left o a = a refl
Move-bounded drained o a = a refl
Move-bounded execute o a = a refl
Move-bounded executed_all o a = a refl
Move-bounded finish o a = (a refl).1
Move-bounded clear o a = tt
Move-bounded mv o a = absurd (cc)

-- The flag, and that no task is started while it is down.
pub Move-flagged :
    {n me : ℕ} {t t' : Tasks} {p p' : Pc}
    → Move n me t p t' p'
    → (owns p ≡ true → t.writers ≡ 1)
    → owns p' ≡ true
    → t'.writers ≡ 1
Move-flagged (lock_writer h) f o = refl
Move-flagged (collect h r) f o = f refl
Move-flagged (skip h r) f o = f refl
Move-flagged (scanned h) f o = f refl
Move-flagged readers_left f o = f refl
Move-flagged drained f o = f refl
Move-flagged execute f o = f refl
Move-flagged executed_all f o = f refl
Move-flagged finish f o = f refl
Move-flagged clear f o = f refl
Move-flagged mv f o = absurd (cc)

-- The flag changes only when its owner goes or a new owner comes.
pub Move-writers :
    {n me : ℕ} {t t' : Tasks} {p p' : Pc}
    → Move n me t p t' p'
    → (t'.writers ≡ t.writers)
      ⊎ ((owns p ≡ false) × (owns p' ≡ true) × (t.writers ≡ 0))
      ⊎ (owns p ≡ true)
Move-writers (lock_writer h) = inr (inl (refl, refl, h))
Move-writers write_unlock = inr (inr refl)
Move-writers submit = inl refl
Move-writers leave = inl refl
Move-writers (collect h r) = inl refl
Move-writers execute = inl refl
Move-writers finish = inl refl
Move-writers clear = inl refl
Move-writers mv = inl refl

-- A thread owns the flag after a step as before it, unless it takes it.
pub Move-owns :
    {n me : ℕ} {t t' : Tasks} {p p' : Pc}
    → Move n me t p t' p'
    → owns p' ≡ true
    → (owns p ≡ true) ⊎ (t.writers ≡ 0)
Move-owns (lock_writer h) o = inr h
Move-owns (collect h r) o = inl refl
Move-owns (skip h r) o = inl refl
Move-owns (scanned h) o = inl refl
Move-owns readers_left o = inl refl
Move-owns drained o = inl refl
Move-owns execute o = inl refl
Move-owns executed_all o = inl refl
Move-owns finish o = inl refl
Move-owns clear o = inl refl
Move-owns mv o = absurd (cc)

pub Move-free :
    {n me : ℕ} {t t' : Tasks} {p p' : Pc}
    → Move n me t p t' p'
    → (t.writers ≡ 0 → (j : ℕ) → t.ready j ≢ started)
    → (owns p ≡ true → t.writers ≡ 1)
    → ((j : ℕ) → owns p ≡ true → Listed t p j)
    → t'.writers ≡ 0
    → (j : ℕ) → t'.ready j ≢ started
Move-free write_unlock free f l z j = λ e. ground (arith, (l j refl).listed)
Move-free {me = me} submit free f l z j = λ e. ground (arith, free z j)
Move-free {me = me} leave free f l z j = λ e. ground (arith, free z j)
Move-free (lock_writer h) free f l z j = absurd (omega arith)
Move-free (collect h r) free f l z j = absurd (omega (arith, f refl))
Move-free finish free f l z j = absurd (omega (arith, f refl))
Move-free clear free f l z j = absurd (omega (arith, f refl))
Move-free execute free f l z j = free z j
Move-free mv free f l z j = free z j

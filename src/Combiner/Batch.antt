-- ===== src/Combiner/Batch.antt =====
-- flat_combining/flat_combining.c, `exec_rw_flat_combining`: the batch of the combiner.
use mangosteen_code.Common.{
  ℕ, zero, suc, ◌+◌, ◌<◌, ◌≤◌, ◌≡◌, ◌∙◌, sym, ap, true, List, [], ◌∷◌, refl, arith, All, length,
}
use mangosteen_code.Combiner.{System, Reach}
use mangosteen_code.Combiner.Invariant.{count, owns, pending}
use mangosteen_code.Combiner.Once.{Reach-IsCombining}

sum_counts : ℕ → List ℕ → ℕ
sum_counts zero xs = 0
sum_counts (suc n) xs = count n xs + sum_counts n xs

sum_counts-nil : (n : ℕ) → sum_counts n [] ≡ 0
unfolding sum_counts
sum_counts-nil zero = refl
sum_counts-nil (suc n) = omega (arith, sum_counts-nil n)

sum_counts-cons_above : (n x : ℕ) (xs : List ℕ) → n ≤ x → sum_counts n (x ∷ xs) ≡ sum_counts n xs
unfolding sum_counts
sum_counts-cons_above zero x xs h = refl
sum_counts-cons_above (suc n) x xs h = ground (arith, sum_counts-cons_above n x xs)

sum_counts-cons : (n x : ℕ) (xs : List ℕ) → x < n → sum_counts n (x ∷ xs) ≡ suc (sum_counts n xs)
unfolding sum_counts
sum_counts-cons zero x xs h = absurd (omega arith)
sum_counts-cons (suc n) x xs h =
    ground (arith, sum_counts-cons n x xs, sum_counts-cons_above n x xs)

length-sum_counts : (n : ℕ) (xs : List ℕ) → All (λ x. x < n) xs → length xs ≡ sum_counts n xs
length-sum_counts n [] a = sym (sum_counts-nil n)
length-sum_counts n (x ∷ xs) a =
    ap suc (length-sum_counts n xs a.1) ∙ sym (sum_counts-cons n x xs a.0)

sum_counts-le : (n : ℕ) (xs : List ℕ) → ((j : ℕ) → count j xs ≤ 1) → sum_counts n xs ≤ n
unfolding sum_counts
sum_counts-le zero xs h = omega arith
sum_counts-le (suc n) xs h = omega (arith, h n, sum_counts-le n xs h)

-- A combiner's batch holds threads below `n` only, each at most once, and so no more than `n` of them:
-- `ready_commands_indexes` does not overflow.
pub batch_bounded :
    {n : ℕ} {s : System}
    → Reach n s
    → (w : ℕ) → owns (s.pc w) ≡ true
    → (length (pending (s.pc w)) ≤ n)
      × All (λ x. x < n) (pending (s.pc w))
      × ((j : ℕ) → count j (pending (s.pc w)) ≤ 1)
batch_bounded {n} {s} r w o =
    let inv = Reach-IsCombining r in
    let below = inv.bounded w o in
    let once : (j : ℕ) → count j (pending (s.pc w)) ≤ 1 =
      λ j. ground (arith, (inv.lists w o j).listed) in
    (
      omega (
        arith,
        length-sum_counts n (pending (s.pc w)) below,
        sum_counts-le n (pending (s.pc w)) once,
      ),
      below,
      once,
    )

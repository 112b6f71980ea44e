-- ===== src/SortingUtils/Counting/Sums.antt =====
-- Sums of the first values of a function, and how the numbers of positions that pass a test change.
use graph_canon.Base.{
  ℕ, zero, suc, ◌+◌, ◌≤◌, ◌<◌, ◌≡◌, ◌≢◌, ◌==◌, arith, refl, inl, inr, eq-cases, count_below,
  count_below-zero, count_below-last, count_below-not_last, ◌∙◌, sym,
}

unfoldable pub sum_below : ℕ → (ℕ → ℕ) → ℕ
sum_below zero f = 0
sum_below (suc n) f = f n + sum_below n f

pub sum_below-congr :
    (n : ℕ) (f g : ℕ → ℕ) → ((i : ℕ) → i < n → f i ≡ g i) → sum_below n f ≡ sum_below n g
unfolding sum_below
sum_below-congr zero f g h = refl
sum_below-congr (suc n) f g h =
    omega (arith, h n (omega arith), sum_below-congr n f g (λ i l. h i (omega arith)))

-- One value is one more.
pub sum_below-insert :
    (n k : ℕ) (f g : ℕ → ℕ)
    → k < n
    → g k ≡ f k + 1
    → ((i : ℕ) → i < n → i ≢ k → g i ≡ f i)
    → sum_below n g ≡ sum_below n f + 1
unfolding sum_below
sum_below-insert zero k f g l e h = absurd (omega arith)
sum_below-insert (suc n) k f g l e h = elim (eq-cases k n) [
  | inl last ↦
      let rest = sum_below-congr n g f (λ i m. h i (omega arith) (omega arith)) in
      let here : g n ≡ f n + 1 = ground arith in omega (arith, rest, here)
  | inr other ↦
      let rest = sum_below-insert n k f g (omega arith) e (λ i m. h i (omega arith)) in
      omega (arith, rest, h n (omega arith) (λ d. other (sym d)))
]

sum_below-zero : (n : ℕ) (f : ℕ → ℕ) → ((i : ℕ) → f i ≡ 0) → sum_below n f ≡ 0
unfolding sum_below
sum_below-zero zero f h = refl
sum_below-zero (suc n) f h = omega (arith, h n, sum_below-zero n f h)

-- Each of the `n` positions has one value.
pub sum_below-count :
    (max n : ℕ) (v : ℕ → ℕ)
    → ((i : ℕ) → i < n → v i < max)
    → sum_below max (λ j. count_below n (λ i. v i == j)) ≡ n
sum_below-count max zero v h = sum_below-zero max _ (λ i. count_below-zero (λ k. v k == i))
sum_below-count max (suc n) v h =
    sum_below-insert max (v n) (λ j. count_below n (λ i. v i == j))
      (λ j. count_below (suc n) (λ i. v i == j)) (h n (omega arith))
      (count_below-last n (λ i. v i == v n) (ground arith))
      (λ i l ne. count_below-not_last n (λ k. v k == i) (ground arith))
    ∙ omega (arith, sum_below-count max n v (λ i l. h i (omega arith)))

pub sum_below-le :
    (n : ℕ) (f g : ℕ → ℕ) → ((i : ℕ) → i < n → f i ≤ g i) → sum_below n f ≤ sum_below n g
unfolding sum_below
sum_below-le zero f g h = omega arith
sum_below-le (suc n) f g h =
    omega (arith, h n (omega arith), sum_below-le n f g (λ i l. h i (omega arith)))

-- ===== src/SortingUtils/Counting/Buckets.antt =====
-- sorting_utils.hpp: where the buckets of the counting sort begin and end.
use graph_canon.Base.{
  ℕ, zero, suc, ◌+◌, ◌-◌, ◌≤◌, ◌<◌, ◌≡◌, Bool, Array, update, ◌==◌, arith, refl, inl, inr, eq-cases,
  lt-cases, count_below, count_below-zero, count_below-last, count_below-not_last, ◌∙◌, sym, ap,
}
use graph_canon.Base.Loops.{for_up_inv}
use graph_canon.SortingUtils.Counting.{count_values, partial_sum, starts}
use graph_canon.SortingUtils.Counting.Sums.{sum_below, sum_below-count}

-- The buckets follow one another from 0 to `n`, and bucket `j` has `c j` places.
pub record AreEnds (max n : ℕ) (c : ℕ → ℕ) (e : Array) : Type 0 where
  pub step : (j : ℕ) → j < max → e j ≡ starts e j + c j
  pub total : starts e max ≡ n

pub starts-sum_below :
    (max m : ℕ) (c : ℕ → ℕ) (e : Array)
    → ((j : ℕ) → j < max → e j ≡ starts e j + c j)
    → m ≤ max
    → starts e m ≡ sum_below m c
unfolding sum_below
starts-sum_below max zero c e h l = refl
starts-sum_below max (suc m) c e h l =
    ground (arith, h m, starts-sum_below max m c e h (omega arith))

partial_sum-step :
    (max : ℕ) (c : Array)
    → 1 ≤ max
    → (j : ℕ) → j < max
    → partial_sum max c j ≡ starts (partial_sum max c) j + c j
unfolding partial_sum
partial_sum-step max c pos j l =
    (for_up_inv (λ k t. ((i : ℕ) → i < k → t i ≡ starts t i + c i) × ((i : ℕ) → k ≤ i → t i ≡ c i))
        (λ i t. update t i (t (i - 1) + t i)) max 1 (max - 1) c (omega arith)
        (λ k t lo hi h. (λ i m. ground (arith, h.0 i, h.1 k, h.1 i), λ i m. ground (arith, h.1 i)))
        (λ i m. ground arith, λ i m. refl)).0
      j l

module _ {ℓ} {S : Type ℓ} (read : S → ℕ → ℕ) (put : ℕ → ℕ → S → S) (to_value : ℕ → ℕ) where
  count_values-count :
      (first n : ℕ) (s : S) (j : ℕ)
      → count_values read put to_value first n s j
        ≡ count_below n (λ i. to_value (read s (first + i)) == j)
  unfolding count_values
  count_values-count first n s =
      for_up_inv (λ k a. (j : ℕ) → a j ≡ count_below k (λ i. to_value (read s (first + i)) == j))
        (λ i e. update e (to_value (read s (first + i))) (e (to_value (read s (first + i))) + 1)) n
        0 n (λ i. 0) (omega arith)
        (λ k a lo hi h j.
          let p : ℕ → Bool = λ i. to_value (read s (first + i)) == j in
          ground (
            arith,
            eq-cases (to_value (read s (first + k))) j,
            h j,
            count_below-last k p,
            count_below-not_last k p,
          ))
        (λ j. sym (count_below-zero (λ i. to_value (read s (first + i)) == j)))

  -- The ends that the sorter computes, for values below `max`.
  pub partial_sum-AreEnds :
      (max first n : ℕ) (s : S)
      → 1 ≤ max
      → ((i : ℕ) → i < n → to_value (read s (first + i)) < max)
      → AreEnds max n
          (λ j. count_below n (λ i. to_value (read s (first + i)) == j))
          (partial_sum max (count_values read put to_value first n s))
  partial_sum-AreEnds max first n s pos small =
      let c = count_values read put to_value first n s in
      let e = partial_sum max c in
      let count : ℕ → ℕ = λ j. count_below n (λ i. to_value (read s (first + i)) == j) in
      let step : (j : ℕ) → j < max → e j ≡ starts e j + count j =
        λ j l. omega (arith, partial_sum-step max c pos j l, count_values-count first n s j) in
      record {
        step = step;
        total =
            starts-sum_below max max count e step (omega arith)
            ∙ sum_below-count max n (λ i. to_value (read s (first + i))) small;
      }

module _ (max n : ℕ) (c : ℕ → ℕ) (e : Array) (h : AreEnds max n c e) where
  pub starts-le : (j : ℕ) → j < max → starts e j ≤ e j
  starts-le j l = omega (arith, h.step j l)

  -- Later buckets begin where earlier ones have ended.
  pub end-le_start : (j k : ℕ) → j < k → k < max → e j ≤ starts e k
  end-le_start j zero l m = absurd (omega arith)
  end-le_start j (suc k) l m = elim (eq-cases j k) [
    | inl same ↦ ground arith
    | inr earlier ↦
        let before = end-le_start j k (omega arith) (omega arith) in
        let le = starts-le k (omega arith) in ground arith
  ]

  bucket_below :
      (m i : ℕ) → m ≤ max → i < starts e m → (j : ℕ) × (j < max) × (starts e j ≤ i) × (i < e j)
  bucket_below zero i l m = absurd (omega arith)
  bucket_below (suc m) i l lt = elim (lt-cases i (starts e m)) [
    | inl below ↦ bucket_below m i (omega arith) below
    | inr le ↦ (m, omega arith, le, ground arith)
  ]

  -- Every place is in a bucket.
  pub bucket_of : (i : ℕ) → i < n → (j : ℕ) × (j < max) × (starts e j ≤ i) × (i < e j)
  bucket_of i l = bucket_below max i (omega arith) (omega (arith, h.total))

  pub end-le : (j : ℕ) → j < max → e j ≤ n
  end-le j l = elim (eq-cases (suc j) max) [
    | inl last ↦ let end : starts e (suc j) ≡ n = ap (starts e) last ∙ h.total in ground arith
    | inr more ↦
        let before = end-le_start j (max - 1) (omega arith) (omega arith) in
        let le = starts-le (max - 1) (omega arith) in
        let last : suc (max - 1) ≡ max = omega arith in
        let end : starts e (suc (max - 1)) ≡ n = ap (starts e) last ∙ h.total in ground arith
  ]

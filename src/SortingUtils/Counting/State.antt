-- ===== src/SortingUtils/Counting/State.antt =====
-- sorting_utils.hpp: the state of the counting sorter between two steps.
use graph_canon.Base.{
  ℕ, ◌+◌, ◌≤◌, ◌<◌, ◌≡◌, ◌≢◌, ◌⊎◌, Bool, Array, ◌==◌, arith, inl, inr, lt-cases, count_below,
  count_below-beside,
}
use graph_canon.SortingUtils.Counting.{starts}
use graph_canon.SortingUtils.Counting.Buckets.{AreEnds, end-le_start, end-le}

-- `put` writes one place.
pub record IsPut {ℓ} {S : Type ℓ} (read : S → ℕ → ℕ) (put : ℕ → ℕ → S → S) : Type ℓ where
  pub written : (i v : ℕ) (s : S) → read (put i v s) i ≡ v
  pub kept : (i v j : ℕ) (s : S) → i ≢ j → read (put i v s) j ≡ read s j

-- The sorter at work on the `n` elements from `first` on, in bucket `k`. The places of each bucket up
-- to `front` hold elements of the bucket. `elements` are the elements with the one that is in the
-- hand at the place `hole`, and rearrange those of the state `s0` at the start.
pub record IsSorting {ℓ} {S : Type ℓ} (read : S → ℕ → ℕ) (to_value : ℕ → ℕ) (max first n : ℕ)
    (e : Array) (s0 : S) (k hole : ℕ) (front elements start : Array) (s : S) : Type ℓ where
  pub low : (j : ℕ) → j < max → starts e j ≤ front j
  pub high : (j : ℕ) → j < max → front j ≤ e j
  pub right : (j i : ℕ) → j < max → starts e j ≤ i → i < front j → to_value (elements i) ≡ j
  pub counts :
      (q : ℕ → Bool)
      → count_below n (λ i. q (elements i)) ≡ count_below n (λ i. q (read s0 (first + i)))
  pub small : (i : ℕ) → i < n → to_value (elements i) < max
  pub full : (j : ℕ) → j < k → front j ≡ e j
  pub marked : (j : ℕ) → k < j → j < max → start j ≡ front j
  pub held : (i : ℕ) → i < n → i ≢ hole → elements i ≡ read s (first + i)
  pub outside : (i : ℕ) → (i < first) ⊎ (first + n ≤ i) → read s i ≡ read s0 i

module _ {ℓ} {S : Type ℓ} (read : S → ℕ → ℕ) (to_value : ℕ → ℕ) (max first n : ℕ) (e : Array)
    (s0 : S)
    (ends : AreEnds max n (λ j. count_below n (λ i. to_value (read s0 (first + i)) == j)) e) where
  -- Places of different buckets.
  pub apart :
      (j k i h : ℕ)
      → j < max
      → k < max
      → starts e j ≤ i
      → i < e j
      → starts e k ≤ h
      → h < e k
      → j ≢ k
      → i ≢ h
  apart j k i h lj lk a b c d ne same = elim (lt-cases j k) [
    | inl lt ↦ omega (arith, end-le_start max n _ e ends j k lt lk)
    | inr le ↦ omega (arith, end-le_start max n _ e ends k j (omega arith) lj)
  ]

  -- The element in the hand has a place left in its bucket, which is a later one.
  pub room :
      (k hole : ℕ) (front elements start : Array) (s : S)
      → IsSorting read to_value max first n e s0 k hole front elements start s
      → k < max
      → starts e k ≤ hole
      → hole < e k
      → to_value (elements hole) ≢ k
      → (front (to_value (elements hole)) < e (to_value (elements hole)))
        × (k < to_value (elements hole))
  room k hole front elements start s w lk lo hi ne =
      let j = to_value (elements hole) in
      let inside : hole < n = omega (arith, end-le max n _ e ends k lk) in
      let lj = w.small hole inside in
      let left : front j < e j = elim (lt-cases (front j) (e j)) [
        | inl lt ↦ lt
        | inr le ↦
            let beside : (hole < starts e j) ⊎ (e j ≤ hole) = elim (lt-cases j k) [
              | inl lt ↦ inr (omega (arith, end-le_start max n _ e ends j k lt lk))
              | inr ge ↦ inl (omega (arith, end-le_start max n _ e ends k j (omega arith) lj))
            ] in
            let many =
              count_below-beside n (starts e j) (e j) hole (λ i. to_value (elements i) == j)
                (end-le max n _ e ends j lj) inside beside
                (λ i a b. ground (arith, w.right j i lj a (omega arith))) (ground arith) in
            let same = w.counts (λ x. to_value x == j) in
            absurd (omega (arith, many, same, ends.step j lj))
      ] in
      (left, ground (arith, w.full j))

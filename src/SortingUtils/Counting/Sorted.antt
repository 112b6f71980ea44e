-- ===== src/SortingUtils/Counting/Sorted.antt =====
-- sorting_utils.hpp: the counting sorter sorts.
use graph_canon.Base.{
  ℕ, zero, suc, ◌+◌, ◌-◌, ◌≤◌, ◌<◌, ◌≡◌, ◌⊎◌, Bool, Array, Option, some, ◌==◌, arith, refl, inl,
  inr, eq-cases, lt-cases, count_below, ◌∙◌, sym, ap, subst, count_below-congr,
}
use graph_canon.SortingUtils.Counting.{
  starts, fill_buckets, counting_sort, count_values, partial_sum,
}
use graph_canon.SortingUtils.Counting.Buckets.{
  AreEnds, end-le, end-le_start, starts-le, bucket_of, partial_sum-AreEnds,
}
use graph_canon.SortingUtils.Counting.State.{IsPut, IsSorting}
use graph_canon.SortingUtils.Counting.Filled.{fill_bucket-IsFilled}

module _ {ℓ} {S : Type ℓ} (read : S → ℕ → ℕ) (put : ℕ → ℕ → S → S) (to_value : ℕ → ℕ)
    (max first n : ℕ) (e : Array) (s0 : S)
    (ends : AreEnds max n (λ j. count_below n (λ i. to_value (read s0 (first + i)) == j)) e)
    (is_put : IsPut read put) where
  -- The sorter before the first bucket.
  starts-IsSorting :
      ((i : ℕ) → i < n → to_value (read s0 (first + i)) < max)
      → IsSorting read to_value max first n e s0 0 n
          (starts e)
          (λ i. read s0 (first + i))
          (starts e)
          s0
  starts-IsSorting small = record {
    low = λ j l. omega arith;
    high = λ j l. starts-le max n _ e ends j l;
    right = λ j i l lo hi. absurd (omega (arith, lo, hi));
    counts = λ q. refl;
    small = small;
    full = λ j l. absurd (omega arith);
    marked = λ j l m. refl;
    held = λ i l m. refl;
    outside = λ i o. refl;
  }

  -- A full bucket, and the next one.
  next_bucket :
      (k : ℕ) (front elements start : Array) (s : S)
      → IsSorting read to_value max first n e s0 k n front elements start s
      → front k ≡ e k
      → IsSorting read to_value max first n e s0 (k + 1) n front elements start s
  next_bucket k front elements start s w end = record {
    low = w.low;
    high = w.high;
    right = w.right;
    counts = w.counts;
    small = w.small;
    full = λ j l. ground (arith, w.full j, eq-cases j k);
    marked = λ j l m. w.marked j (omega arith) m;
    held = w.held;
    outside = w.outside;
  }

  -- The sorter after all buckets.
  record AreFilled (o : Option S) : Type ℓ where
    pub state : S
    pub start : Array
    pub front : Array
    pub elements : Array
    pub result : o ≡ some state
    pub sorting : IsSorting read to_value max first n e s0 max n front elements start state

  fill_buckets-AreFilled :
      (rounds k : ℕ) (front elements start : Array) (s : S)
      → k + rounds ≡ max
      → IsSorting read to_value max first n e s0 k n front elements start s
      → ((j : ℕ) → k ≤ j → j < max → start j ≡ front j)
      → AreFilled (fill_buckets read put to_value first n e rounds k start s)
  unfolding fill_buckets
  fill_buckets-AreFilled zero k front elements start s shape w m =
      let end : k ≡ max = omega arith in
      record {
        state = s;
        start = start;
        front = front;
        elements = elements;
        result = refl;
        sorting =
            subst (λ z. IsSorting read to_value max first n e s0 z n front elements start s) end w;
      }
  fill_buckets-AreFilled (suc rounds) k front elements start s shape w m =
      let lk : k < max = omega arith in
      let f =
        fill_bucket-IsFilled read put to_value max first n e s0 ends is_put k (e k - start k)
          (start k) front elements start s w lk (sym (m k (omega arith) lk))
          (omega (arith, m k (omega arith) lk, w.high k lk)) in
      rw f.result (
        fill_buckets-AreFilled rounds (k + 1) f.front f.elements f.start f.state (omega arith)
          (next_bucket k f.front f.elements f.start f.state f.sorting f.reached)
          (λ j l u. f.sorting.marked j (omega arith) u))

  filled_value :
      (o : Option S) (f : AreFilled o) (j i : ℕ)
      → j < max
      → starts e j ≤ i
      → i < e j
      → i < n
      → to_value (read f.state (first + i)) ≡ j
  filled_value o f j i l lo hi inside =
      let w = f.sorting in
      ap to_value (sym (w.held i inside (omega arith)))
      ∙ w.right j i l lo (omega (arith, w.full j l, hi))

  filled_sorted :
      (o : Option S) (f : AreFilled o) (i j : ℕ)
      → i ≤ j
      → j < n
      → to_value (read f.state (first + i)) ≤ to_value (read f.state (first + j))
  filled_sorted o f i j le l =
      let (b, lb, lo, hi) = bucket_of max n _ e ends i (omega arith) in
      let (b', lb', lo', hi') = bucket_of max n _ e ends j l in
      let v = filled_value o f b i lb lo hi (omega arith) in
      let v' = filled_value o f b' j lb' lo' hi' l in
      elim (lt-cases b' b) [
        | inr ordered ↦ omega (arith, v, v')
        | inl later ↦ absurd (omega (arith, end-le_start max n _ e ends b' b later lb))
      ]

  filled_counts :
      (o : Option S) (f : AreFilled o) (q : ℕ → Bool)
      → count_below n (λ i. q (read f.state (first + i)))
        ≡ count_below n (λ i. q (read s0 (first + i)))
  filled_counts o f q =
      let w = f.sorting in
      count_below-congr n (λ i. q (read f.state (first + i))) (λ i. q (f.elements i))
        (λ i l. ap q (sym (w.held i l (omega arith))))
      ∙ w.counts q

-- The range from `first` to `last` is sorted by value, holds each element as often as before, and
-- nothing outside of it is changed; `callback` is given the ends of the buckets.
pub record IsSortedRange {ℓ} {S : Type ℓ} (read : S → ℕ → ℕ) (to_value : ℕ → ℕ) (max first n : ℕ)
    (s : S) (o : Option (Array × S)) : Type ℓ where
  pub ends : Array
  pub state : S
  pub result : o ≡ some (ends, state)
  pub sorted :
      (i j : ℕ)
      → i ≤ j
      → j < n
      → to_value (read state (first + i)) ≤ to_value (read state (first + j))
  pub buckets :
      (j i : ℕ) → j < max → starts ends j ≤ i → i < ends j → to_value (read state (first + i)) ≡ j
  pub sizes :
      (j : ℕ)
      → j < max
      → ends j ≡ starts ends j + count_below n (λ i. to_value (read s (first + i)) == j)
  pub total : starts ends max ≡ n
  pub counts :
      (q : ℕ → Bool)
      → count_below n (λ i. q (read state (first + i)))
        ≡ count_below n (λ i. q (read s (first + i)))
  pub outside : (i : ℕ) → (i < first) ⊎ (first + n ≤ i) → read state i ≡ read s i

-- For elements with values below `max` and a putter that writes one place, the counting sorter ends.
-- It leaves the range sorted by value and with each element as often as before, changes nothing
-- outside of the range, and gives its callback the ends of the buckets.
pub counting_sort-IsSortedRange {ℓ} :
    {S : Type ℓ} (read : S → ℕ → ℕ) (put : ℕ → ℕ → S → S) (to_value : ℕ → ℕ) (max first last : ℕ)
    (s : S)
    → IsPut read put
    → 1 ≤ max
    → ((i : ℕ) → i < last - first → to_value (read s (first + i)) < max)
    → IsSortedRange read to_value max first
        (last - first)
        s
        (counting_sort read put to_value max first last s)
unfolding counting_sort
counting_sort-IsSortedRange read put to_value max first last s is_put pos small =
    let n = last - first in
    let ends = partial_sum-AreEnds read put to_value max first n s pos small in
    let e = partial_sum max (count_values read put to_value first n s) in
    let f =
      fill_buckets-AreFilled read put to_value max first n e s ends is_put max 0 (starts e)
        (λ i. read s (first + i)) (starts e) s (omega arith)
        (starts-IsSorting read put to_value max first n e s ends is_put small) (λ j l m. refl) in
    record {
      ends = e;
      state = f.state;
      result = rw f.result refl;
      sorted = filled_sorted read put to_value max first n e s ends is_put _ f;
      buckets = λ j i l lo hi.
          filled_value read put to_value max first n e s ends is_put _ f j i l lo hi
            (omega (arith, end-le max n _ e ends j l));
      sizes = ends.step;
      total = ends.total;
      counts = filled_counts read put to_value max first n e s ends is_put _ f;
      outside = f.sorting.outside;
    }

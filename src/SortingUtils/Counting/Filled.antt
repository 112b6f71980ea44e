-- ===== src/SortingUtils/Counting/Filled.antt =====
-- sorting_utils.hpp: the loop over a bucket of the counting sorter fills it.
use graph_canon.Base.{
  ℕ, zero, suc, ◌+◌, ◌-◌, ◌≤◌, ◌<◌, ◌≡◌, true, false, Array, Option, some, update, ◌==◌, arith,
  refl, inl, inr, eq-cases, count_below, ◌∙◌, ap,
}
use graph_canon.SortingUtils.Counting.{fill_bucket}
use graph_canon.SortingUtils.Counting.Sums.{sum_below, sum_below-le}
use graph_canon.SortingUtils.Counting.Buckets.{AreEnds, end-le, starts-sum_below}
use graph_canon.SortingUtils.Counting.State.{IsPut, IsSorting}
use graph_canon.SortingUtils.Counting.Cycles.{shift_cycle-IsShifted}

module _ {ℓ} {S : Type ℓ} (read : S → ℕ → ℕ) (put : ℕ → ℕ → S → S) (to_value : ℕ → ℕ)
    (max first n : ℕ) (e : Array) (s0 : S)
    (ends : AreEnds max n (λ j. count_below n (λ i. to_value (read s0 (first + i)) == j)) e)
    (is_put : IsPut read put) where
  -- No element in the hand: the hole is no place.
  at_hole :
      (k hole : ℕ) (front elements start : Array) (s : S)
      → IsSorting read to_value max first n e s0 k n front elements start s
      → IsSorting read to_value max first n e s0 k hole front elements start s
  at_hole k hole front elements start s w = record {
    low = w.low;
    high = w.high;
    right = w.right;
    counts = w.counts;
    small = w.small;
    full = w.full;
    marked = w.marked;
    held = λ i l ne. w.held i l (omega arith);
    outside = w.outside;
  }

  -- The element in the hand is put down.
  put_down :
      (k hole elem : ℕ) (front elements start : Array) (s : S)
      → IsSorting read to_value max first n e s0 k hole front elements start s
      → hole < n
      → elements hole ≡ elem
      → IsSorting read to_value max first n e s0 k n front elements start
          (put (first + hole) elem s)
  put_down k hole elem front elements start s w l hand = record {
    low = w.low;
    high = w.high;
    right = w.right;
    counts = w.counts;
    small = w.small;
    full = w.full;
    marked = w.marked;
    held = λ i m ne. ground (
      arith,
      eq-cases i hole,
      w.held i,
      is_put.written (first + hole) elem s,
      is_put.kept (first + hole) elem (first + i) s,
    );
    outside = λ i o. is_put.kept (first + hole) elem i s (ground arith) ∙ w.outside i o;
  }

  -- The next place of the bucket holds an element of the bucket.
  advance :
      (k place : ℕ) (front elements start : Array) (s : S)
      → IsSorting read to_value max first n e s0 k n front elements start s
      → front k ≡ place
      → place < e k
      → to_value (elements place) ≡ k
      → IsSorting read to_value max first n e s0 k n (update front k (place + 1)) elements start s
  advance k place front elements start s w at lt v = record {
    low = λ i l. ground (arith, w.low i);
    high = λ i l. ground (arith, w.high i);
    right = λ b i l lo hi. ground (arith, w.right b i, eq-cases i place);
    counts = w.counts;
    small = w.small;
    full = λ i l. ground (arith, w.full i);
    marked = λ i l m. ground (arith, w.marked i);
    held = w.held;
    outside = w.outside;
  }

  places-le :
      (k hole : ℕ) (front elements start : Array) (s : S)
      → IsSorting read to_value max first n e s0 k hole front elements start s
      → sum_below max (λ j. e j - front j) ≤ n
  places-le k hole front elements start s w =
      let c : ℕ → ℕ = λ j. count_below n (λ i. to_value (read s0 (first + i)) == j) in
      let le =
        sum_below-le max (λ j. e j - front j) c (λ j l. omega (arith, w.low j l, ends.step j l)) in
      let all = starts-sum_below max max c e ends.step (omega arith) in
      omega (arith, le, all, ends.total)

  -- The sorter after a bucket.
  pub record IsFilled (k : ℕ) (o : Option (Array × S)) : Type ℓ where
    pub start : Array
    pub state : S
    pub front : Array
    pub elements : Array
    pub result : o ≡ some (start, state)
    pub sorting : IsSorting read to_value max first n e s0 k n front elements start state
    pub reached : front k ≡ e k

  pub fill_bucket-IsFilled :
      (k rounds place : ℕ) (front elements start : Array) (s : S)
      → IsSorting read to_value max first n e s0 k n front elements start s
      → k < max
      → front k ≡ place
      → place + rounds ≡ e k
      → IsFilled k (fill_bucket read put to_value first n k rounds place start s)
  unfolding fill_bucket
  fill_bucket-IsFilled k zero place front elements start s w lk at shape = record {
    start = start;
    state = s;
    front = front;
    elements = elements;
    result = refl;
    sorting = w;
    reached = omega arith;
  }
  fill_bucket-IsFilled k (suc rounds) place front elements start s w lk at shape =
      let inside : place < n = omega (arith, end-le max n _ e ends k lk) in
      let here : elements place ≡ read s (first + place) = w.held place inside (omega arith) in
      elim (eq-cases (to_value (read s (first + place))) k) [
        | inl home ↦
            let test : (to_value (read s (first + place)) == k) ≡ true = ground arith in
            rw test (
              fill_bucket-IsFilled k rounds (place + 1) (update front k (place + 1)) elements start
                s
                (advance k place front elements start s w at (omega arith)
                  (ap to_value here ∙ home))
                lk (ground arith) (omega arith))
        | inr away ↦
            let test : (to_value (read s (first + place)) == k) ≡ false = ground arith in
            let c =
              shift_cycle-IsShifted read put to_value max first n e s0 ends is_put k place n
                (read s (first + place)) front elements start s
                (at_hole k place front elements start s w) lk (omega (arith, w.low k lk))
                (omega arith) at here away (places-le k n front elements start s w) in
            let down =
              put_down k place c.elem c.front c.elements c.start c.state c.sorting inside
                c.in_hand in
            rw (test, c.result)
              (fill_bucket-IsFilled k rounds (place + 1) (update c.front k (place + 1)) c.elements
                c.start (put (first + place) c.elem c.state)
                (advance k place c.front c.elements c.start _ down c.reached (omega arith)
                  (ap to_value c.in_hand ∙ c.belongs))
                lk (ground arith) (omega arith))
      ]

-- ===== src/SortingUtils/Counting/Cycles.antt =====
-- sorting_utils.hpp: one round of the shifting of a cycle puts one more element into its bucket.
use graph_canon.Base.{
  ℕ, zero, suc, ◌+◌, ◌-◌, ◌≤◌, ◌<◌, ◌≡◌, ◌≢◌, true, false, Array, Option, some, update, ◌==◌, arith,
  refl, inl, inr, eq-cases, count_below, count_below-swap, ◌∙◌, sym, ap, subst,
}
use graph_canon.SortingUtils.Counting.{starts, shift_cycle}
use graph_canon.SortingUtils.Counting.Sums.{sum_below, sum_below-insert}
use graph_canon.SortingUtils.Counting.Buckets.{AreEnds, end-le}
use graph_canon.SortingUtils.Counting.State.{IsPut, IsSorting, apart, room}

module _ {ℓ} {S : Type ℓ} (read : S → ℕ → ℕ) (put : ℕ → ℕ → S → S) (to_value : ℕ → ℕ)
    (max first n : ℕ) (e : Array) (s0 : S)
    (ends : AreEnds max n (λ j. count_below n (λ i. to_value (read s0 (first + i)) == j)) e)
    (is_put : IsPut read put) where
  -- One round of the inner loop: the element goes to the front of its bucket, and the one that was
  -- there is in the hand.
  one_round :
      (k hole : ℕ) (front elements start : Array) (s : S)
      → IsSorting read to_value max first n e s0 k hole front elements start s
      → k < max
      → starts e k ≤ hole
      → hole < e k
      → front k ≡ hole
      → to_value (elements hole) ≢ k
      → (let j = to_value (elements hole) in
          let place = first + start j in
          IsSorting read to_value max first n e s0 k hole
            (update front j (front j + 1))
            (update (update elements (front j) (elements hole)) hole (read s place))
            (update start j (start j + 1))
            (put place (elements hole) s))
  one_round k hole front elements start s w lk lo hi at ne =
      let j = to_value (elements hole) in
      let inside : hole < n = omega (arith, end-le max n _ e ends k lk) in
      let lj = w.small hole inside in
      let (left, later) =
        room read to_value max first n e s0 ends k hole front elements start s w lk lo hi ne in
      let here : start j ≡ front j = w.marked j later lj in
      let place : front j < n = omega (arith, end-le max n _ e ends j lj) in
      let differ : front j ≢ hole =
        apart read to_value max first n e s0 ends j k (front j) hole lj lk (w.low j lj) left lo hi
          ne in
      let was : elements (front j) ≡ read s (first + start j) =
        w.held (front j) place differ ∙ ap (λ x. read s (first + x)) (sym here) in
      record {
        low = λ i l. ground (arith, w.low i);
        high = λ i l. ground (arith, w.high i);
        right = λ b i l lo' hi'.
            let inner : i < e b = ground (arith, w.high b) in
            let off : i ≢ hole = elim (eq-cases b k) [
              | inl same ↦ ground arith
              | inr other ↦
                  apart read to_value max first n e s0 ends b k i hole l lk lo' inner lo hi other
            ] in
            elim (eq-cases b j) [
              | inl same ↦ ground (arith, w.right b i)
              | inr other ↦
                  let off' =
                    apart read to_value max first n e s0 ends b j i (front j) l lj lo' inner
                      (w.low j lj) left other in
                  ground (arith, w.right b i)
            ];
        counts = λ q.
            count_below-swap n hole (front j) (λ i. q (elements i)) _ inside place
              (ap q (ground arith)) (ap q (ground arith)) (λ i l a b. ap q (ground arith))
            ∙ w.counts q;
        small = λ i l. ground (arith, w.small i, w.small (front j), was);
        full = λ i l. ground (arith, w.full i);
        marked = λ i l m. ground (arith, w.marked i);
        held = λ i l m. ground (
          arith,
          w.held i,
          is_put.written (first + start j) (elements hole) s,
          is_put.kept (first + start j) (elements hole) (first + i) s,
        );
        outside =
            λ i o. is_put.kept (first + start j) (elements hole) i s (ground arith) ∙ w.outside i o;
      }

  -- What the inner loop returns for the element at `hole`: one that belongs there.
  pub record IsShifted (k hole : ℕ) (o : Option (ℕ × Array × S)) : Type ℓ where
    pub elem : ℕ
    pub start : Array
    pub state : S
    pub front : Array
    pub elements : Array
    pub result : o ≡ some (elem, start, state)
    pub sorting : IsSorting read to_value max first n e s0 k hole front elements start state
    pub reached : front k ≡ hole
    pub in_hand : elements hole ≡ elem
    pub belongs : to_value elem ≡ k

  -- After one round, with `elem` in the hand before it and `next_elem` after it.
  record IsNext (k hole elem : ℕ) (front elements start : Array) (s : S) : Type ℓ where
    pub front' : Array
    pub elements' : Array
    pub sorting :
        IsSorting read to_value max first n e s0 k hole front' elements'
          (update start (to_value elem) (start (to_value elem) + 1))
          (put (first + start (to_value elem)) elem s)
    pub fewer : sum_below max (λ j. e j - front j) ≡ sum_below max (λ j. e j - front' j) + 1
    pub reached : front' k ≡ hole
    pub in_hand : elements' hole ≡ read s (first + start (to_value elem))

  shift_cycle-IsNext :
      (k hole elem : ℕ) (front elements start : Array) (s : S)
      → IsSorting read to_value max first n e s0 k hole front elements start s
      → k < max
      → starts e k ≤ hole
      → hole < e k
      → front k ≡ hole
      → elements hole ≡ elem
      → to_value elem ≢ k
      → IsNext k hole elem front elements start s
  shift_cycle-IsNext k hole elem front elements start s w lk lo hi at hand ne =
      let j = to_value elem in
      let ne' : to_value (elements hole) ≢ k = ground arith in
      let (left, later) =
        room read to_value max first n e s0 ends k hole front elements start s w lk lo hi ne' in
      let inside : hole < n = omega (arith, end-le max n _ e ends k lk) in
      let lj : j < max = ground (arith, w.small hole inside) in
      let left' : front j < e j = ground arith in
      let front' = update front j (front j + 1) in
      record {
        front' = front';
        elements' = update (update elements (front j) elem) hole (read s (first + start j));
        sorting =
            subst
              (λ x.
                IsSorting read to_value max first n e s0 k hole
                  (update front (to_value x) (front (to_value x) + 1))
                  (update (update elements (front (to_value x)) x) hole
                    (read s (first + start (to_value x))))
                  (update start (to_value x) (start (to_value x) + 1))
                  (put (first + start (to_value x)) x s))
              hand (one_round k hole front elements start s w lk lo hi at ne');
        fewer =
            sum_below-insert max j (λ i. e i - front' i) (λ i. e i - front i) lj (ground arith)
              (λ i m d. ground arith);
        reached = ground arith;
        in_hand = ground arith;
      }

  -- The inner loop ends, since each round takes one of the places that are left.
  pub shift_cycle-IsShifted :
      (k hole fuel elem : ℕ) (front elements start : Array) (s : S)
      → IsSorting read to_value max first n e s0 k hole front elements start s
      → k < max
      → starts e k ≤ hole
      → hole < e k
      → front k ≡ hole
      → elements hole ≡ elem
      → to_value elem ≢ k
      → sum_below max (λ j. e j - front j) ≤ fuel
      → IsShifted k hole (shift_cycle read put to_value first k fuel elem start s)
  unfolding shift_cycle
  shift_cycle-IsShifted k hole zero elem front elements start s w lk lo hi at hand ne l =
      let r = shift_cycle-IsNext k hole elem front elements start s w lk lo hi at hand ne in
      absurd (omega (arith, r.fewer))
  shift_cycle-IsShifted k hole (suc fuel) elem front elements start s w lk lo hi at hand ne l =
      let r = shift_cycle-IsNext k hole elem front elements start s w lk lo hi at hand ne in
      let place = first + start (to_value elem) in
      let start' = update start (to_value elem) (start (to_value elem) + 1) in
      elim (eq-cases (to_value (read s place)) k) [
        | inl home ↦
            let test : (to_value (read s place) == k) ≡ true = ground arith in
            rw test (record {
              elem = read s place;
              start = start';
              state = put place elem s;
              front = r.front';
              elements = r.elements';
              result = refl;
              sorting = r.sorting;
              reached = r.reached;
              in_hand = r.in_hand;
              belongs = home;
            })
        | inr away ↦
            let test : (to_value (read s place) == k) ≡ false = ground arith in
            rw test (
              shift_cycle-IsShifted k hole fuel (read s place) r.front' r.elements' start'
                (put place elem s) r.sorting lk lo hi r.reached r.in_hand away
                (omega (arith, r.fewer)))
      ]

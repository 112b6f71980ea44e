-- ===== src/EdgeHandler/AllEqual/SortRange.antt =====
-- all_equal.hpp: sort_range sorts the range by the counters and appends the positions where they grow.
use graph_canon.Base.{
  ℕ, ◌+◌, ◌-◌, ◌^◌, ◌≤◌, ◌<◌, ◌≡◌, ◌⊎◌, ◌↔◌, true, false, List, ◌++◌, Array, Bool, Option, some,
  ltb, if◌then◌else◌, arith, refl, inl, inr, lt-cases, IsIn, count_below, count_below-congr, ap,
  ◌∙◌, subst,
}
use graph_canon.Base.Int.{IntType}
use graph_canon.Partition.{Partition, put_element_on_index, reset_inverse, get}
use graph_canon.Partition.Split.{AreSplits}
use graph_canon.Partition.Inverse.{reset_inverse-elements}
use graph_canon.SortingUtils.Counting.State.{IsPut}
use graph_canon.SortingUtils.Counting.Buckets.{AreEnds}
use graph_canon.SortingUtils.Counting.Sorted.{counting_sort-IsSortedRange}
use graph_canon.EdgeHandler.{Sorted}
use graph_canon.EdgeHandler.AllEqual.{
  sort_range, do_sort, fall_back, put_on, push_splits, scan_splits,
}
use graph_canon.EdgeHandler.AllEqual.Splits.{
  IsGrowth, push_splits-IsGrowth, push_splits-AreSplits, scan_splits_iff, scan_splits-AreSplits,
}

put_on-IsPut : IsPut get put_on
unfolding put_element_on_index
put_on-IsPut = record { written = λ i v s. ground arith; kept = λ i v j s ne. ground arith }

-- `std::sort` by the key: the range is sorted, holds each element as often as before, and nothing
-- outside of it is changed.
pub record IsStdSort (key : ℕ → ℕ) (std_sort : (ℕ → ℕ → Bool) → ℕ → ℕ → Array → Array)
    : Type 0 where
  pub ordered :
      (first last : ℕ) (a : Array) (i j : ℕ)
      → first ≤ i
      → i ≤ j
      → j < last
      → key (std_sort (λ x y. ltb (key x) (key y)) first last a i)
        ≤ key (std_sort (λ x y. ltb (key x) (key y)) first last a j)
  pub counts :
      (first last : ℕ) (a : Array) (q : ℕ → Bool)
      → count_below
          (last - first)
          (λ i. q (std_sort (λ x y. ltb (key x) (key y)) first last a (first + i)))
        ≡ count_below (last - first) (λ i. q (a (first + i)))
  pub outside :
      (first last : ℕ) (a : Array) (i : ℕ)
      → (i < first) ⊎ (last ≤ i)
      → std_sort (λ x y. ltb (key x) (key y)) first last a i ≡ a i

-- What `sort_range` does to the range: the vertices are sorted by their counters, each is there as
-- often as before, nothing outside is changed, and exactly the positions where the counter grows are
-- appended to the splits, in ascending order and each once.
pub record IsRangeSorted {H : Type 0} (counters : Array) (first last : ℕ) (s : Sorted H)
    (o : Option (ℕ × Sorted H)) : Type 0 where
  pub position : ℕ
  pub after : Sorted H
  pub result : o ≡ some (position, after)
  pub added : List ℕ
  pub appended : after.splits ≡ s.splits ++ added
  pub growth : (x : ℕ) → IsIn x added ↔ IsGrowth (λ i. counters (get (after.pi) i)) first last x
  pub ascending : AreSplits first last added
  pub ordered :
      (i j : ℕ)
      → first ≤ i
      → i ≤ j
      → j < last
      → counters (get (after.pi) i) ≤ counters (get (after.pi) j)
  pub counts :
      (q : ℕ → Bool)
      → count_below (last - first) (λ i. q (get (after.pi) (first + i)))
        ≡ count_below (last - first) (λ i. q (get (s.pi) (first + i)))
  pub outside : (i : ℕ) → (i < first) ⊎ (last ≤ i) → get (after.pi) i ≡ get (s.pi) i
  pub handler : after.handler ≡ s.handler

do_sort-IsRangeSorted :
    {H : Type 0} (t : IntType) (values first last : ℕ) (counters : Array) (s : Sorted H)
    → first ≤ last
    → last - first ≤ 2 ^ 31
    → 1 ≤ values
    → ((i : ℕ) → first ≤ i → i < last → counters (get (s.pi) i) < values)
    → IsRangeSorted counters first last s (do_sort t values first last counters s)
unfolding do_sort
do_sort-IsRangeSorted {H} t values first last counters s le short pos small =
    let n = last - first in
    let c =
      counting_sort-IsSortedRange get put_on counters values first last s.pi put_on-IsPut pos
        (λ i l. small (first + i) (omega arith) (omega arith)) in
    let grown : List ℕ = push_splits t first n c.ends values 0 0 in
    let after : Sorted H = record s { pi = c.state; splits = s.splits ++ grown } in
    let end : first + n ≡ last = omega arith in
    let ends : AreEnds values n _ c.ends = record { step = c.sizes; total = c.total } in
    rw c.result (record {
      position = first + c.ends 0;
      after = after;
      result = refl;
      added = grown;
      appended = refl;
      growth = λ x.
          subst (λ z. IsIn x grown ↔ IsGrowth (λ i. counters (get (c.state) i)) first z x) end
            (push_splits-IsGrowth t values n _ c.ends ends short (λ i. counters (get (c.state) i))
              first x c.buckets);
      ascending =
          subst (λ z. AreSplits first z grown) end
            (push_splits-AreSplits t values n _ c.ends ends short first first values 0 0
              (omega arith) refl (omega arith));
      ordered = λ i j a b l.
          let shape : first + (i - first) ≡ i = omega arith in
          let shape' : first + (j - first) ≡ j = omega arith in
          let sorted = c.sorted (i - first) (j - first) (omega arith) (omega arith) in
          omega (
            arith,
            sorted,
            ap (λ z. counters (get (c.state) z)) shape,
            ap (λ z. counters (get (c.state) z)) shape',
          );
      counts = c.counts;
      outside = λ i o. c.outside i (omega (arith, o));
      handler = refl;
    })

fall_back-IsRangeSorted :
    {H : Type 0} (std_sort : (ℕ → ℕ → Bool) → ℕ → ℕ → Array → Array) (first last : ℕ)
    (counters : Array) (s : Sorted H)
    → IsStdSort counters std_sort
    → first < last
    → IsRangeSorted counters first last s (some (fall_back std_sort first last counters s))
unfolding fall_back
fall_back-IsRangeSorted {H} std_sort first last counters s h lt =
    let less : ℕ → ℕ → Bool = λ a b. ltb (counters a) (counters b) in
    let moved : Partition = record (s.pi) { elements = std_sort less first last (s.pi.elements) } in
    let pi = reset_inverse first last moved in
    let same = reset_inverse-elements first last moved (omega arith) in
    let grown = scan_splits counters pi (first + 1) (last - (first + 1)) in
    record {
      position = first;
      after = record s { pi = pi; splits = s.splits ++ grown };
      result = refl;
      added = grown;
      appended = refl;
      growth = λ x.
          let iff = scan_splits_iff counters pi (first + 1) (last - (first + 1)) x (omega arith) in
          (
            λ a. let (lo, hi, grows) = iff.0 a in (omega arith, omega arith, grows),
            λ (lo, hi, grows). iff.1 (omega arith, omega arith, grows),
          );
      ascending =
          scan_splits-AreSplits counters pi first (first + 1) (last - (first + 1)) last
            (omega arith) (omega arith);
      ordered = λ i j a b l. omega (
        arith,
        h.ordered first last (s.pi.elements) i j a b l,
        ap counters (same i),
        ap counters (same j),
      );
      counts = λ q.
          count_below-congr (last - first) (λ i. q (get pi (first + i)))
            (λ i. q (std_sort less first last (s.pi.elements) (first + i)))
            (λ i l. ap q (same (first + i)))
          ∙ h.counts first last (s.pi.elements) q;
      outside = λ i o. same i ∙ h.outside first last (s.pi.elements) i o;
      handler = refl;
    }

-- The three ways to sort, as results.
choose_sort :
    {A : Type 0} (P : A → Type 0) (max : ℕ) (few some_more many : A)
    → (max < 4 → P few)
    → (max < 256 → P some_more)
    → P many
    → P (if ltb max 256 then (if ltb max 4 then few else some_more) else many)
choose_sort P max few some_more many a b c = elim (lt-cases max 256) [
  | inr ge ↦ let test : ltb max 256 ≡ false = ground arith in rw test c
  | inl lt ↦
      let test : ltb max 256 ≡ true = ground arith in
      elim (lt-cases max 4) [
        | inr ge ↦ let test' : ltb max 4 ≡ false = ground arith in rw (test, test') (b lt)
        | inl four ↦ let test' : ltb max 4 ≡ true = ground arith in rw (test, test') (a four)
      ]
]

-- For a range that is not empty, has at most 2^31 vertices and whose counters are at most `max`, `sort_range` returns, by the
-- counting sorter of 4 or 256 values or by `std::sort`. The vertices of the range are sorted by their
-- counters, each is there as often as before, nothing outside is changed, and exactly the positions
-- where the counter grows are appended to the splits, in ascending order and each once.
pub sort_range-IsRangeSorted :
    {H : Type 0} (t : IntType) (std_sort : (ℕ → ℕ → Bool) → ℕ → ℕ → Array → Array)
    (first last max : ℕ) (counters : Array) (s : Sorted H)
    → IsStdSort counters std_sort
    → first < last
    → last - first ≤ 2 ^ 31
    → ((i : ℕ) → first ≤ i → i < last → counters (get (s.pi) i) ≤ max)
    → IsRangeSorted counters first last s (sort_range t std_sort first last max counters s)
unfolding sort_range
sort_range-IsRangeSorted t std_sort first last max counters s h lt short small =
    choose_sort (IsRangeSorted counters first last s) max (do_sort t 4 first last counters s)
      (do_sort t 256 first last counters s) (some (fall_back std_sort first last counters s))
      (λ four.
        do_sort-IsRangeSorted t 4 first last counters s (omega arith) short (omega arith)
          (λ i a b. omega (arith, small i a b)))
      (λ few.
        do_sort-IsRangeSorted t 256 first last counters s (omega arith) short (omega arith)
          (λ i a b. omega (arith, small i a b)))
      (fall_back-IsRangeSorted std_sort first last counters s h lt)

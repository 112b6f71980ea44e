-- ===== src/Tests/Sorting.antt =====
-- sorting_utils.hpp and the sorting of edge_handler/all_equal.hpp at small inputs.
use graph_canon.Base.{
  true, false, ◌^◌, ℕ, ◌+◌, ◌-◌, ◌≤◌, ◌<◌, ◌≡◌, refl, arith, List, [], ◌∷◌, ◌==◌, if◌then◌else◌,
  some, none, Option, ◌>>=◌, Bool, Array, update, subst,
}
use graph_canon.Base.Int.{IntType, equals_int}
use graph_canon.Partition.{Partition, unit_partition}
use graph_canon.SortingUtils.Counting.{counting_sort}
use graph_canon.SortingUtils.Counting.State.{IsPut}
use graph_canon.SortingUtils.Counting.Sorted.{IsSortedRange, counting_sort-IsSortedRange}
use graph_canon.EdgeHandler.{Sorted}
use graph_canon.EdgeHandler.AllEqual.{sort_range}
use graph_canon.EdgeHandler.AllEqual.SortRange.{IsStdSort, IsRangeSorted, sort_range-IsRangeSorted}

abbrev read_array : Array → ℕ → ℕ
read_array a i = a i

abbrev write_array : ℕ → ℕ → Array → Array
write_array i v a = update a i v

write_array-IsPut : IsPut read_array write_array
write_array-IsPut = record { written = λ i v s. ground arith; kept = λ i v j s ne. ground arith }

-- The counters of five vertices.
abbrev counters : Array
counters v =
    if v == 0 then 2 else if v == 1 then 0 else if v == 2 then 1 else if v == 3 then 2 else 0

counters-lt : (v : ℕ) → counters v < 4
counters-lt v = ground arith

abbrev identity : Array
identity i = i

abbrev values_of : Option (Array × Array) → Option (ℕ × ℕ × ℕ × ℕ × ℕ)
values_of o = o >>= λ (e, a). some (a 0, a 1, a 2, a 3, a 4)

counting_sort_run :
    values_of (counting_sort read_array write_array counters 4 0 5 identity) ≡ some (4, 1, 2, 0, 3)
unfolding counting_sort
counting_sort_run = refl

counting_sort-IsSortedRange_example :
    IsSortedRange read_array counters 4 0 5 identity
      (counting_sort read_array write_array counters 4 0 5 identity)
counting_sort-IsSortedRange_example =
    counting_sort-IsSortedRange read_array write_array counters 4 0 5 identity write_array-IsPut
      (omega arith) (λ i l. counters-lt (identity (0 + i)))

-- A sort by these counters, for what is asked of `std::sort`.
sorted_or : Option (Array × Array) → Array → Array
sorted_or none a = a
sorted_or (some (e, b)) a = b

sort_array : (ℕ → ℕ → Bool) → ℕ → ℕ → Array → Array
unfolding sorted_or
sort_array less first last a =
    sorted_or (counting_sort read_array write_array counters 4 first last a) a

sort_array-IsStdSort : IsStdSort counters sort_array
unfolding sort_array
sort_array-IsStdSort =
    let run : (first last : ℕ) (a : Array)
        → IsSortedRange read_array counters 4 first (last - first) a
            (counting_sort read_array write_array counters 4 first last a) =
      λ first last a.
        counting_sort-IsSortedRange read_array write_array counters 4 first last a write_array-IsPut
          (omega arith) (λ i l. counters-lt (a (first + i))) in
    record {
      ordered = λ first last a i j lo le l.
          let r = run first last a in
          let shape : first + (i - first) ≡ i = omega arith in
          let shape' : first + (j - first) ≡ j = omega arith in
          let sorted = r.sorted (i - first) (j - first) (omega arith) (omega arith) in
          let one =
            subst (λ z. counters (r.state z) ≤ counters (r.state (first + (j - first)))) shape
              sorted in
          rw r.result (subst (λ z. counters (r.state i) ≤ counters (r.state z)) shape' one);
      counts = λ first last a q. let r = run first last a in rw r.result (r.counts q);
      outside = λ first last a i o.
          let r = run first last a in rw r.result (r.outside i (omega (arith, o)));
    }

abbrev unit : Partition
unit = unit_partition 5 (record {
  elements = λ i. 9;
  inverse = λ i. 9;
  next_cell_begin = λ i. 9;
  cell_from_v_idx = λ i. 9;
})

abbrev unsigned_64 : IntType
unsigned_64 = record { bits = 64; is_signed = false }

-- An `int` that was assigned 2^31 differs from 2^31 in an unsigned type of 64 bits, not of 32.
equals_int_run :
    (equals_int unsigned_64 (2 ^ 31) (2 ^ 31) ≡ false)
    × (equals_int (record { bits = 32; is_signed = false }) (2 ^ 31) (2 ^ 31) ≡ true)
unfolding equals_int
equals_int_run = (refl, refl)

abbrev start : Sorted (Unit {0})
start = record { pi = unit; splits = 7 ∷ []; handler = tt }

abbrev splits_of : Option (ℕ × Sorted (Unit {0})) → Option (ℕ × List ℕ)
splits_of o = o >>= λ (position, s). some (position, s.splits)

sort_range_run :
    splits_of (sort_range unsigned_64 sort_array 0 5 2 counters start) ≡ some (2, 7 ∷ 2 ∷ 3 ∷ [])
unfolding sort_range unit_partition
sort_range_run = refl

sort_range-IsRangeSorted_example :
    IsRangeSorted counters 0 5 start (sort_range unsigned_64 sort_array 0 5 2 counters start)
sort_range-IsRangeSorted_example =
    sort_range-IsRangeSorted unsigned_64 sort_array 0 5 2 counters start sort_array-IsStdSort
      (omega arith) (omega arith) (λ i a b. ground arith)

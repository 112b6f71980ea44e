-- ===== src/EdgeHandler/AllEqual.antt =====
-- include/graph_canon/edge_handler/all_equal.hpp: how the handler for edges without labels sorts a
-- range of a cell by the counters of its vertices and finds the split positions.
pub mod Splits
pub mod SortRange
use graph_canon.Base.{
  ℕ, zero, suc, ◌+◌, ◌-◌, List, [], ◌∷◌, ◌++◌, Array, Bool, Option, some, ◌>>=◌, ltb, ◌==◌,
  if◌then◌else◌,
}
use graph_canon.Base.Int.{IntType, equals_int}
use graph_canon.Partition.{Partition, put_element_on_index, reset_inverse, get}
use graph_canon.SortingUtils.Counting.{counting_sort}
use graph_canon.EdgeHandler.{Sorted}

-- What the callback of the sorter appends to `splits`: the loop over `end` from entry `i` on, with
-- `rounds` entries left. The variable `prev` is an `int`; the argument is the value assigned to it.
unfoldable pub push_splits : IntType → ℕ → ℕ → Array → ℕ → ℕ → ℕ → List ℕ
unfolding equals_int
push_splits t idx_first cell_size e zero i prev = []
push_splits t idx_first cell_size e (suc rounds) i prev =
    let rest = push_splits t idx_first cell_size e rounds (i + 1) (e i) in
    if e i == cell_size
    then []
    else if equals_int t (e i) prev
    then rest
    else (idx_first + e i) ∷ rest

-- The putter of the sorter.
abbrev pub put_on : ℕ → ℕ → Partition → Partition
put_on element_idx value pi = put_element_on_index value element_idx pi

-- `do_sort` for a sorter of `values` values.
unfoldable pub do_sort :
    {H : Type 0} → IntType → ℕ → ℕ → ℕ → Array → Sorted H → Option (ℕ × Sorted H)
unfolding counting_sort push_splits put_element_on_index
do_sort t values idx_first idx_last counters s =
    counting_sort get put_on counters values idx_first idx_last s.pi >>= λ (e, pi). some (
      idx_first + e 0,
      record s {
        pi = pi;
        splits = s.splits ++ push_splits t idx_first (idx_last - idx_first) e values 0 0;
      },
    )

-- The loop that compares neighbours, from index `i_refinee` with `rounds` of them left.
unfoldable pub scan_splits : Array → Partition → ℕ → ℕ → List ℕ
scan_splits counters pi i_refinee zero = []
scan_splits counters pi i_refinee (suc rounds) =
    let rest = scan_splits counters pi (i_refinee + 1) rounds in
    if ltb (counters (get pi (i_refinee - 1))) (counters (get pi i_refinee))
    then i_refinee ∷ rest
    else rest

-- What follows for many values; `std_sort less first last` is `std::sort` on that range.
unfoldable pub fall_back :
    {H : Type 0}
    → ((ℕ → ℕ → Bool) → ℕ → ℕ → Array → Array)
    → ℕ
    → ℕ
    → Array
    → Sorted H
    → ℕ × Sorted H
unfolding scan_splits reset_inverse
fall_back std_sort idx_first idx_last counters s =
    let sorted : Partition = record (s.pi) {
      elements = std_sort (λ a b. ltb (counters a) (counters b)) idx_first idx_last (s.pi.elements);
    } in
    let pi = reset_inverse idx_first idx_last sorted in
    (
      idx_first,
      record s {
        pi = pi;
        splits = s.splits ++ scan_splits counters pi (idx_first + 1) (idx_last - (idx_first + 1));
      },
    )

-- `sort_range`: the returned position, the partition and the splits.
unfoldable pub sort_range :
    {H : Type 0}
    → IntType
    → ((ℕ → ℕ → Bool) → ℕ → ℕ → Array → Array)
    → ℕ
    → ℕ
    → ℕ
    → Array
    → Sorted H
    → Option (ℕ × Sorted H)
unfolding do_sort fall_back
sort_range t std_sort idx_first idx_last max counters s =
    if ltb max 256
    then (if ltb max 4
        then do_sort t 4 idx_first idx_last counters s
        else do_sort t 256 idx_first idx_last counters s)
    else some (fall_back std_sort idx_first idx_last counters s)

-- `sort`, which gives `first_non_zero`.
abbrev pub all_equal_sort :
    {H : Type 0}
    → IntType
    → ((ℕ → ℕ → Bool) → ℕ → ℕ → Array → Array)
    → ℕ
    → ℕ
    → ℕ
    → ℕ
    → Array
    → Sorted H
    → Option (ℕ × Sorted H)
all_equal_sort t std_sort cell cell_end max max_count counters s =
    sort_range t std_sort cell cell_end max counters s

-- `sort_duplicate_partitioned`, which sorts the hit part of the cell.
abbrev pub all_equal_sort_duplicate_partitioned :
    {H : Type 0}
    → IntType
    → ((ℕ → ℕ → Bool) → ℕ → ℕ → Array → Array)
    → ℕ
    → ℕ
    → ℕ
    → ℕ
    → ℕ
    → Array
    → Sorted H
    → Option (Sorted H)
all_equal_sort_duplicate_partitioned t std_sort cell cell_mid cell_end max max_count counters s =
    sort_range t std_sort cell_mid cell_end max counters s >>= λ (position, t). some t

-- The other functions for a cell as the refiner do nothing.
abbrev pub all_equal_add_edge : {E H : Type 0} → ℕ → ℕ → E → H → H
all_equal_add_edge cell cell_end e_out h = h

abbrev pub all_equal_sort_equal_hit : {H : Type 0} → ℕ → ℕ → ℕ → Sorted H → Sorted H
all_equal_sort_equal_hit cell cell_end max s = s

abbrev pub all_equal_sort_partitioned : {H : Type 0} → ℕ → ℕ → ℕ → ℕ → Sorted H → Sorted H
all_equal_sort_partitioned cell cell_mid cell_end max_count s = s

abbrev pub all_equal_sort_duplicate_partitioned_equal_hit :
    {H : Type 0} → ℕ → ℕ → ℕ → ℕ → Sorted H → Sorted H
all_equal_sort_duplicate_partitioned_equal_hit cell cell_mid cell_end max s = s

abbrev pub all_equal_clear_cell : {H : Type 0} → ℕ → ℕ → H → H
all_equal_clear_cell cell cell_end h = h

abbrev pub all_equal_clear_cell_aborted : {H : Type 0} → ℕ → ℕ → H → H
all_equal_clear_cell_aborted cell cell_end h = h

abbrev pub all_equal_initialize : {H : Type 0} → H → H
all_equal_initialize h = h

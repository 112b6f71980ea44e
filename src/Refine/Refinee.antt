-- ===== src/Refine/Refinee.antt =====
-- WL_1.hpp: handle_refinee, which splits one cell by what was counted.
use graph_canon.Base.{
  ℕ, ◌-◌, List, [], ◌∷◌, Bool, true, false, Option, none, some, ◌==◌, if◌then◌else◌, update,
}
use graph_canon.EdgeHandler.{EdgeHandler, Sorted}
use graph_canon.Partition.{Partition, swap_elements}
use graph_canon.SortingUtils.{partition_range}
use graph_canon.Refine.{CellData, RefineState, RefineeType}

pub data RefinementResult : Type 0 where
  never : RefinementResult
  unchanged : RefinementResult
  changed : RefinementResult
  again : RefinementResult
  abort : RefinementResult

-- The events of the refinement, for a visitor with the state `V`; the visitor sees the partition. The
-- result is false when the refinement is to stop.
pub record Visitor (V : Type 0) : Type 0 where
  -- refiner_begin, cell, hit_count
  pub refine_quotient_edge : Partition → ℕ → ℕ → ℕ → V → Bool × V
  -- refiner_begin, cell, cell_end
  pub refine_cell_split_begin : Partition → ℕ → ℕ → ℕ → V → V
  -- new_cell_begin, refine_new_cell_type
  pub refine_new_cell : Partition → ℕ → ℕ → V → Bool × V
  pub refine_cell_split_end : Partition → ℕ → ℕ → ℕ → V → V
  pub refine_abort : Partition → V → V
  -- refiner_begin, refiner_end
  pub refine_refiner_done : Partition → ℕ → ℕ → V → Bool × V

-- The state of a run on one node, with the result that is collected.
pub record RunState (H V : Type 0) : Type 0 where
  pub state : RefineState H
  pub visitor : V
  pub result : RefinementResult

abbrev pub get_cell_data : {H : Type 0} → RefineState H → ℕ → CellData
get_cell_data s cell = s.i_data.cell_data cell

abbrev pub set_first_non_zero : {H : Type 0} → ℕ → ℕ → RefineState H → RefineState H
set_first_non_zero cell value s = record s {
  i_data = record (s.i_data) {
    cell_data =
        update s.i_data.cell_data cell
          (record (s.i_data.cell_data cell) { first_non_zero = value });
  };
}

-- A call of a sorting function with `splits` in the list of split positions so far.
abbrev pub sort_with : {H : Type 0} → (Sorted H → Sorted H) → List ℕ → RefineState H → RefineState H
sort_with sorting splits s =
    let sorted = sorting (record { pi = s.pi; splits = splits; handler = s.handler }) in
    record {
      pi = sorted.pi;
      i_data = record (s.i_data) { refined_beginnings = sorted.splits };
      handler = sorted.handler;
    }

abbrev pub first_split : ℕ → ℕ → List ℕ
first_split cell cell_mid = if cell_mid == cell then [] else cell_mid ∷ []

module _ {E H : Type 0} (sorter : EdgeHandler E H) where
  unfoldable pub split_singleton : ℕ → ℕ → RefineState H → RefineState H
  split_singleton cell cell_end s =
      let cell_mid = cell_end - (get_cell_data s cell).hit_count in
      sort_with (sorter.sort_singleton_refiner cell cell_mid cell_end) (first_split cell cell_mid) s

  abbrev pub do_general_sort : ℕ → ℕ → RefineState H → RefineState H
  do_general_sort cell cell_end s =
      let d = get_cell_data s cell in
      let sorted =
        sorter.sort cell cell_end d.max d.max_count s.i_data.counters
          (record { pi = s.pi; splits = []; handler = s.handler }) in
      set_first_non_zero cell sorted.0 (sort_with (λ t. sorted.1) [] s)

  -- Without a redo the cell is partitioned now.
  unfoldable pub find_cell_mid : ℕ → ℕ → RefineState H → Option (ℕ × Partition)
  unfolding partition_range swap_elements
  find_cell_mid cell cell_end s =
      let hit_count = (get_cell_data s cell).hit_count in
      let partitioned =
        partition_range (λ pi i. pi.elements i) (λ v. s.i_data.counters v == 0) swap_elements cell
          cell_end s.pi in
      if hit_count == 0 then partitioned else some (cell_end - hit_count, s.pi)

  abbrev pub split_unique : ℕ → ℕ → RefineState H → Option (ℕ × Partition) → Option (RefineState H)
  split_unique cell cell_end s none = none
  split_unique cell cell_end s (some (cell_mid, pi)) = some (
      sort_with (sorter.sort_partitioned cell cell_mid cell_end (get_cell_data s cell).max_count)
        (cell_mid ∷ []) (set_first_non_zero cell cell_mid (record s { pi = pi })))

  abbrev pub split_duplicate : ℕ → ℕ → RefineState H → RefineState H
  split_duplicate cell cell_end s =
      let d = get_cell_data s cell in
      let cell_mid = cell_end - d.hit_count in
      let marked = set_first_non_zero cell cell_mid s in
      let equal =
        sort_with (sorter.sort_duplicate_partitioned_equal_hit cell cell_mid cell_end d.max)
          (first_split cell cell_mid) marked in
      let general =
        sort_with
          (sorter.sort_duplicate_partitioned cell cell_mid cell_end d.max d.max_count
            s.i_data.counters)
          (first_split cell cell_mid) marked in
      if d.max_count == d.hit_count then equal else general

  abbrev pub split_by_type : RefineeType → ℕ → ℕ → RefineState H → Option (RefineState H)
  split_by_type RefineeType.unique_partitioning cell cell_end s =
      split_unique cell cell_end s (find_cell_mid cell cell_end s)
  split_by_type RefineeType.equal_hit cell cell_end s = some (
      sort_with (sorter.sort_equal_hit cell cell_end (get_cell_data s cell).max) []
        (set_first_non_zero cell cell s))
  split_by_type RefineeType.duplicate_partitioning cell cell_end s =
      if (get_cell_data s cell).hit_count == 0
      then some (do_general_sort cell cell_end s)
      else some (split_duplicate cell cell_end s)
  split_by_type RefineeType.sort cell cell_end s = some (do_general_sort cell cell_end s)

  unfoldable pub find_splits : Bool → ℕ → ℕ → RefineState H → Option (RefineState H)
  unfolding split_singleton find_cell_mid
  find_splits true cell cell_end s = some (split_singleton cell cell_end s)
  find_splits false cell cell_end s = split_by_type (get_cell_data s cell).type cell cell_end s

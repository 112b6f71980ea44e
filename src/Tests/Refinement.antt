-- ===== src/Tests/Refinement.antt =====
-- refine/WL_1.hpp and detail/tree_node.hpp at small inputs: a star with the centre 0 and the leaves 1 and
-- 2, and a vertex 3 without edges.
use mathlib.Core.List.{map}
use graph_canon.Base.{
  ℕ, ◌≡◌, inr, refl, arith, List, [], ◌∷◌, ◌++◌, Bool, true, false, some, none, Option, ◌==◌, ltb,
  ◌+◌, if◌then◌else◌,
}
use graph_canon.Base.Int.{IntType}
use graph_canon.EdgeHandler.{EdgeHandler}
use graph_canon.Partition.{Partition, Storage, unit_partition}
use graph_canon.Partition.Cells.{IsPartition}
use graph_canon.Partition.Constructors.{unit_partition-IsPartition}
use graph_canon.Partition.Membership.{IsSameCells, split-IsMembershipOn, IsSameParts-IsInverse}
use graph_canon.Partition.Split.{split_at-IsCells, split_at-IsSplit}
use graph_canon.Partition.Splitter.{split_at}
use graph_canon.PermutedGraph.{Graph}
use graph_canon.Refine.{InstanceData, CellData, RefineeCell, RefineeType}
use graph_canon.Refine.Count.{count_neighbours_from_singleton}
use graph_canon.Refine.Handle.{refine_with_singleton_cell, handle_refinee}
use graph_canon.Refine.Hits.{IsHit}
use graph_canon.Refine.Neighbours.{count_neighbours_from_singleton-IsHit}
use graph_canon.Refine.Pending.{IsQueue, add_refiner_cells-IsQueue}
use graph_canon.Refine.Queue.{add_refiner_cells}
use graph_canon.Refine.Refinee.{Visitor, RunState, RefinementResult}
use graph_canon.Refine.Reset.{reset_cell_beginnings, reset_cell_beginnings-IsPartition}
use graph_canon.Refine.Singleton.{IsContinued, IsHandled, handle_refinee-IsHandled}
use graph_canon.Refine.SingletonRefiner.{IsEquitable, refine_with_singleton_cell-IsEquitable}
use graph_canon.SearchTree.{child_partition}
use graph_canon.SearchTree.Individualization.{IsChildPartition, child_partition-IsChildPartition}

abbrev pub storage : Storage
storage = record {
  elements = λ i. 9;
  inverse = λ i. 9;
  next_cell_begin = λ i. 9;
  cell_from_v_idx = λ i. 9;
}

abbrev pub unit : Partition
unit = unit_partition 4 storage

unit-IsPartition : IsPartition unit
unit-IsPartition = unit_partition-IsPartition 4 storage

-- Vertex 0 has a cell of its own, at index 3.
abbrev pub child : Partition
child = child_partition storage unit 0 0

child_partition_run :
    (child.elements 3 ≡ 0)
    × (child.elements 0 ≡ 3)
    × (child.next_cell_begin 0 ≡ 3)
    × (child.cell_from_v_idx 0 ≡ 3)
    × (child.num_cells ≡ 2)
unfolding unit_partition child_partition
child_partition_run = (refl, refl, refl, refl, refl)

child_partition-IsChildPartition_example :
    IsChildPartition 0 0 unit (child_partition storage unit 0 0)
unfolding unit_partition
child_partition-IsChildPartition_example =
    child_partition-IsChildPartition storage unit 0 0 unit-IsPartition (omega arith) (omega arith)
      (omega arith) (omega arith) (omega arith)

abbrev pub no_data : CellData
no_data = record {
  is_refiner = false;
  hit_count = 0;
  max = 0;
  max_count = 0;
  non_zero_count = 0;
  first_non_zero = 0;
  type = RefineeType.sort;
}

-- Nothing is queued, and a split at 3 has been found.
abbrev pub data_at : List ℕ → InstanceData
data_at splits = record {
  refiner_cells = [];
  refined_beginnings = splits;
  refinee_cells = [];
  cell_data = λ c. no_data;
  counters = λ v. 0;
}

abbrev pub unsigned_32 : IntType
unsigned_32 = record { bits = 32; is_signed = false }

child-IsPartition : IsPartition child
unfolding unit_partition
child-IsPartition =
    (child_partition-IsChildPartition storage unit 0 0 unit-IsPartition (omega arith) (omega arith)
      (omega arith) (omega arith) (omega arith)).partition

-- What is queued for a split of the cell 0 at 3, by a type of 16 bits, for which the test for -1 fails
-- so that an index out of range is read, and by one of 32 bits.
abbrev queued : Option InstanceData → List ℕ
queued none = []
queued (some d) = d.refiner_cells

add_refiner_cells_run :
    (add_refiner_cells (record { bits = 16; is_signed = false }) child 0 (data_at (3 ∷ [])) ≡ none)
    × (queued (add_refiner_cells unsigned_32 child 0 (data_at (3 ∷ []))) ≡ 3 ∷ [])
unfolding unit_partition child_partition add_refiner_cells
add_refiner_cells_run = (refl, refl)

add_refiner_cells-IsQueue_example :
    (new : List ℕ) × (e : InstanceData) × (add_refiner_cells unsigned_32 child 0 (data_at (3 ∷ []))
      ≡ some e)
    × IsQueue [] ([] ++ new) e
add_refiner_cells-IsQueue_example =
    add_refiner_cells-IsQueue unsigned_32 child 0 (data_at (3 ∷ [])) [] [] (inr (omega arith))
      (omega arith) (ground arith) (λ c i j. j)
      (record { queue = refl; marked = λ c. ground arith; once = tt })

-- An edge is its target.
abbrev pub star : Graph ℕ
star = record {
  n = 4;
  out_edges = λ v. if v == 0 then 1 ∷ 2 ∷ [] else if ltb v 3 then 0 ∷ [] else [];
  target = λ e. e;
}

-- A handler that only counts the edges that it is told of.
abbrev pub counting : EdgeHandler ℕ ℕ
counting = record {
  add_edge = λ cell end e h. h + 1;
  sort_equal_hit = λ cell end max s. s;
  sort_partitioned = λ cell mid end max_count s. s;
  sort_duplicate_partitioned_equal_hit = λ cell mid end max s. s;
  sort_duplicate_partitioned = λ cell mid end max max_count counters s. s;
  sort = λ cell end max max_count counters s. (cell, s);
  clear_cell = λ cell end h. 0;
  clear_cell_aborted = λ cell end h. 0;
  add_edge_singleton_refiner = λ cell end e target_pos h. h + 1;
  sort_singleton_refiner = λ cell mid end s. s;
  clear_cell_singleton_refiner = λ cell end h. 0;
  clear_cell_singleton_refiner_aborted = λ cell end h. 0;
}

-- A visitor that continues, and counts the new cells.
abbrev pub following : Visitor ℕ
following = record {
  refine_quotient_edge = λ pi refiner cell hits v. (true, v);
  refine_cell_split_begin = λ pi refiner cell end v. v;
  refine_new_cell = λ pi cell type v. (true, v + 1);
  refine_cell_split_end = λ pi refiner cell end v. v;
  refine_abort = λ pi v. v;
  refine_refiner_done = λ pi begin end v. (true, v);
}

abbrev pub start : RunState ℕ ℕ
start = record {
  state = record { pi = child; i_data = data_at []; handler = 0 };
  visitor = 0;
  result = RefinementResult.unchanged;
}

-- The parts of the result, where it continues.
abbrev after : Option (Bool × RunState ℕ ℕ) → List ℕ
after none = []
after (some (false, r)) = []
after (some (true, r)) =
    r.state.pi.next_cell_begin 0
    ∷ r.state.pi.next_cell_begin 1
    ∷ r.state.pi.elements 0
    ∷ r.state.pi.cell_from_v_idx 2
    ∷ r.visitor
    ∷ []

refine_with_singleton_cell_run :
    after (refine_with_singleton_cell star counting following unsigned_32 3 4 start)
    ≡ 1 ∷ 3 ∷ 3 ∷ 1 ∷ 1 ∷ []
unfolding unit_partition child_partition refine_with_singleton_cell
refine_with_singleton_cell_run = refl

count_neighbours_from_singleton-IsHit_example :
    IsHit
      (map star.target (star.out_edges (child.elements 3)))
      child
      (count_neighbours_from_singleton star counting 3 start.state)
unfolding unit_partition child_partition
count_neighbours_from_singleton-IsHit_example =
    count_neighbours_from_singleton-IsHit star counting 3 start.state child-IsPartition
      (ground arith) (ground arith) refl (λ c. refl)

refine_with_singleton_cell-IsEquitable_example :
    IsContinued
      (λ u.
        IsEquitable (map star.target (star.out_edges (child.elements 3))) child u.state.pi
        × ((c : ℕ) → (u.state.i_data.cell_data c).hit_count ≡ 0))
      (refine_with_singleton_cell star counting following unsigned_32 3 4 start)
unfolding unit_partition child_partition
refine_with_singleton_cell-IsEquitable_example =
    refine_with_singleton_cell-IsEquitable star counting following unsigned_32 (inr (omega arith))
      (omega arith) (λ cell mid end s. refl) 3 4 start child-IsPartition (ground arith)
      (ground arith) (λ c. refl)

-- The two last vertices of the cell 0 of the child have been hit.
abbrev hit_twice : RunState ℕ ℕ
hit_twice = record start {
  state = record (start.state) {
    i_data = record (start.state.i_data) { cell_data = λ c. record no_data { hit_count = 2 } };
  };
}

handle_refinee-IsHandled_example :
    IsContinued
      (λ u. IsHandled 0 (1 ∷ []) hit_twice.state u.state)
      (handle_refinee star counting following unsigned_32 0 3 3 true hit_twice)
unfolding unit_partition child_partition
handle_refinee-IsHandled_example =
    handle_refinee-IsHandled star counting following unsigned_32 (inr (omega arith)) (omega arith) 0
      3 hit_twice (λ cell mid end s. refl) child-IsPartition.cells (omega arith) (omega arith)
      (omega arith) (omega arith)

abbrev whole : RefineeCell
whole = record { first = 0; last = 4 }

-- The whole range has been split at 1 and 3.
abbrev parts : Partition
parts = split_at 0 (1 ∷ 3 ∷ []) unit

reset_cell_beginnings-IsPartition_example :
    (t : Partition) × (reset_cell_beginnings (whole ∷ []) parts ≡ some t)
    × IsPartition t
    × IsSameCells parts t
unfolding unit_partition split_at
reset_cell_beginnings-IsPartition_example =
    reset_cell_beginnings-IsPartition (whole ∷ []) parts
      (split_at-IsCells 0 (1 ∷ 3 ∷ []) unit unit-IsPartition.cells (omega arith) (omega arith)
        (ground arith))
      (IsSameParts-IsInverse unit parts refl (λ i. refl) (λ v. refl) unit-IsPartition.inverse)
      (ground arith)
      (λ cell i out.
        split-IsMembershipOn 0 (1 ∷ 3 ∷ []) unit parts unit-IsPartition (omega arith) (omega arith)
          (split_at-IsSplit 0 (1 ∷ 3 ∷ []) unit (omega arith) (ground arith))
          (split_at-IsCells 0 (1 ∷ 3 ∷ []) unit unit-IsPartition.cells (omega arith) (omega arith)
            (ground arith))
          cell i out.0)

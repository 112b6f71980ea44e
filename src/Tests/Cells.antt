-- ===== src/Tests/Cells.antt =====
-- The loops over cells, the target cells and sorting_utils.hpp at small inputs.
use mathlib.Core.List.{foldl}
use graph_canon.Base.{
  ℕ, ◌+◌, ◌≤◌, ◌<◌, ◌≡◌, ◌≢◌, ◌⊎◌, ◌↔◌, refl, arith, [], ◌∷◌, ltb, inr, some, none, Option, ◌==◌,
  if◌then◌else◌,
}
use graph_canon.PermutedGraph.{Graph}
use graph_canon.TargetCell.Joined.{JoinData, Search, target_cell_flm}
use graph_canon.TargetCell.JoinedCell.{target_cell_flm-IsTarget}
use graph_canon.TargetCell.Component.{ComponentData, target_cell_flmcr}
use graph_canon.Partition.{Partition, Storage, unit_partition, swap_elements, set_cell_from_v_idx}
use graph_canon.Partition.Splitter.{split_at}
use graph_canon.Partition.Cells.{IsCells}
use graph_canon.Partition.Constructors.{unit_partition-IsPartition}
use graph_canon.Partition.Split.{split_at-IsCells}
use graph_canon.Partition.Walk.{for_cells, begins, for_cells_visits}
use graph_canon.SortingUtils.{partition_range}
use graph_canon.SortingUtils.Range.{IsPartitioned, Swaps, partition_range-partitions}
use graph_canon.TargetCell.{target_cell_f, target_cell_fl}
use graph_canon.TargetCell.First.{IsFirst, target_cell_f-IsFirst, target_cell_f-ne}
use graph_canon.TargetCell.Largest.{IsFirstLargest, target_cell_fl-IsFirstLargest}

abbrev storage : Storage
storage = record {
  elements = λ i. 7;
  inverse = λ i. 7;
  next_cell_begin = λ i. 7;
  cell_from_v_idx = λ i. 7;
}

-- The cells {0}, {1, 2} and {3, 4, 5}.
abbrev three_cells : Partition
three_cells = split_at 0 (1 ∷ 3 ∷ []) (unit_partition 6 storage)

three_cells-IsCells : IsCells three_cells
unfolding unit_partition
three_cells-IsCells =
    split_at-IsCells 0 (1 ∷ 3 ∷ []) (unit_partition 6 storage)
      (unit_partition-IsPartition 6 storage).cells (omega arith) (omega arith) (omega arith)

target_cell_run : (target_cell_f three_cells ≡ some 1) × (target_cell_fl three_cells ≡ some 3)
unfolding unit_partition split_at target_cell_f target_cell_fl
target_cell_run = (refl, refl)

begins_run : begins three_cells 0 6 ≡ 0 ∷ 1 ∷ 3 ∷ []
unfolding unit_partition split_at begins
begins_run = refl

for_cells_visits_example :
    for_cells 7 three_cells (λ c s. s + c) 0 0
    ≡ some (foldl (λ s c. s + c) 0 (begins three_cells 0 6))
unfolding unit_partition split_at
for_cells_visits_example =
    for_cells_visits three_cells (λ c s. s + c) three_cells-IsCells 7 0 6 0 (omega arith)
      (inr (omega arith, omega arith)) (omega arith)

target_cell_f-IsFirst_example :
    (r : ℕ) × (target_cell_f three_cells ≡ some r) × IsFirst three_cells 0 r
target_cell_f-IsFirst_example = target_cell_f-IsFirst three_cells three_cells-IsCells

target_cell_f-ne_example : (1 ≡ three_cells.n) ↔ (three_cells.num_cells ≡ three_cells.n)
target_cell_f-ne_example = target_cell_f-ne three_cells 1 three_cells-IsCells target_cell_run.0

target_cell_fl-IsFirstLargest_example :
    (r : ℕ) × (target_cell_fl three_cells ≡ some r) × IsFirstLargest three_cells r
target_cell_fl-IsFirstLargest_example =
    target_cell_fl-IsFirstLargest three_cells three_cells-IsCells

abbrev exchange : ℕ → ℕ → Partition → Partition
exchange a b pi = swap_elements a b pi

partition_range_run :
    (t : Partition) × (partition_range
        (λ (p : Partition). p.elements)
        (λ x. ltb 2 x)
        exchange
        1
        6
        (unit_partition 6 storage)
      ≡ some (4, t))
    × (t.elements 1 ≡ 5)
    × (t.elements 5 ≡ 1)
unfolding partition_range unit_partition swap_elements
partition_range_run = (_, refl, refl, refl)

partition_range-partitions_example :
    (mid : ℕ) × (t : Partition) × (partition_range
        (λ (p : Partition). p.elements)
        (λ x. ltb 2 x)
        exchange
        1
        6
        (unit_partition 6 storage)
      ≡ some (mid, t))
    × IsPartitioned (λ (p : Partition). p.elements) (λ x. ltb 2 x) 1 6 mid t
    × Swaps exchange 1 6 (unit_partition 6 storage) t
    × ((i : ℕ) → (i < 1) ⊎ (6 ≤ i) → t.elements i ≡ (unit_partition 6 storage).elements i)
unfolding swap_elements
partition_range-partitions_example =
    partition_range-partitions (λ (p : Partition). p.elements) (λ x. ltb 2 x) exchange
      (λ a b i s. ground arith) 1 6 (unit_partition 6 storage) (omega arith)

-- Vertex 0 is joined to 1 and to 3, and these to it.
abbrev fork : Graph ℕ
fork = record {
  n = 6;
  out_edges =
      λ v. if v == 0 then 1 ∷ 3 ∷ [] else if v == 1 then 3 ∷ [] else if v == 3 then 1 ∷ [] else [];
  target = λ e. e;
}

abbrev no_join : JoinData
no_join = record { count = λ i. 0; non_zero_count = λ i. 0; cells = [] }

abbrev no_component : ComponentData
no_component = record { join = no_join; component = λ i. 0; degree = λ i. 0; size = λ i. 0 }

abbrev recorded : Partition
recorded = set_cell_from_v_idx 3 (set_cell_from_v_idx 1 three_cells)

-- The degree of the cell 3 that a call leaves behind, and the cell that it gives.
abbrev left_over : Option (ℕ × ComponentData) → ℕ × ℕ
left_over none = (0, 0)
left_over (some (cell, d)) = (d.degree 3, cell)

abbrev chosen : Option Search → ℕ
chosen none = 0
chosen (some s) = s.result

joined_run :
    (chosen (target_cell_flm fork recorded no_join) ≡ 3)
    × (left_over (target_cell_flmcr fork recorded no_component) ≡ (1, 3))
unfolding unit_partition split_at set_cell_from_v_idx target_cell_flm target_cell_flmcr
joined_run = (refl, refl)

target_cell_flm-IsTarget_example :
    (s : Search) × (target_cell_flm fork three_cells no_join ≡ some s)
    × (((s.result ≡ three_cells.n)
          × ((c : ℕ)
              → c < three_cells.n
              → three_cells.next_cell_begin c ≢ 0
              → c + 1 ≡ three_cells.next_cell_begin c))
        ⊎ ((s.result < three_cells.n)
            × (three_cells.next_cell_begin s.result ≢ 0)
            × (s.result + 1 < three_cells.next_cell_begin s.result)))
target_cell_flm-IsTarget_example =
    target_cell_flm-IsTarget fork three_cells three_cells-IsCells no_join

-- ===== src/Tests/Partitions.antt =====
-- detail/partition.hpp at small inputs.
use graph_canon.Base.{ℕ, ◌<◌, ◌≡◌, refl, arith, [], ◌∷◌, ◌==◌, if◌then◌else◌}
use graph_canon.Partition.{
  Partition, Storage, unit_partition, copy_partition, swap_elements, reset_inverse,
  set_cell_from_v_idx,
}
use graph_canon.Partition.Splitter.{split_at}
use graph_canon.Partition.Cells.{IsCells, IsInverse, IsPartition}
use graph_canon.Partition.Constructors.{unit_partition-IsPartition, copy_partition-IsPartition}
use graph_canon.Partition.Inverse.{
  swap_elements-IsInverse, swap_elements-IsPartition, IsReset, reset_inverse-IsReset, IsCellSet,
  set_cell_from_v_idx-IsCellSet,
}
use graph_canon.Partition.Split.{IsSplit, split_at-IsCells, split_at-IsSplit}

-- Arrays whose indeterminate content is 9 everywhere.
abbrev storage : Storage
storage = record {
  elements = λ i. 9;
  inverse = λ i. 9;
  next_cell_begin = λ i. 9;
  cell_from_v_idx = λ i. 9;
}

abbrev unit : Partition
unit = unit_partition 4 storage

abbrev halves : Partition
halves = split_at 0 (2 ∷ []) unit

unit_partition_run :
    (unit.next_cell_begin 0 ≡ 4)
    × (unit.next_cell_begin 1 ≡ 0)
    × (unit.elements 3 ≡ 3)
    × (unit.num_cells ≡ 1)
    × ((unit_partition 0 storage).num_cells ≡ 0)
unfolding unit_partition
unit_partition_run = (refl, refl, refl, refl, refl)

split_at_run :
    (halves.next_cell_begin 0 ≡ 2) × (halves.next_cell_begin 2 ≡ 4) × (halves.num_cells ≡ 2)
unfolding unit_partition split_at
split_at_run = (refl, refl, refl)

copy_partition-IsPartition_example :
    IsPartition (copy_partition unit storage)
    × ((i : ℕ)
        → i < unit.n
        → ((copy_partition unit storage).elements i ≡ unit.elements i)
          × ((copy_partition unit storage).next_cell_begin i ≡ unit.next_cell_begin i))
copy_partition-IsPartition_example =
    copy_partition-IsPartition unit storage (unit_partition-IsPartition 4 storage)

swap_elements-IsInverse_example :
    IsInverse (swap_elements 1 3 unit)
    × ((i : ℕ)
        → (swap_elements 1 3 unit).elements i ≡ (
            if i == 1
            then unit.elements 3
            else if i == 3
            then unit.elements 1
            else unit.elements i))
unfolding unit_partition
swap_elements-IsInverse_example =
    swap_elements-IsInverse 1 3 unit (omega arith) (omega arith)
      (unit_partition-IsPartition 4 storage).inverse

swap_elements-IsPartition_example : IsPartition (swap_elements 1 3 unit)
unfolding unit_partition
swap_elements-IsPartition_example =
    swap_elements-IsPartition 1 3 0 unit (unit_partition-IsPartition 4 storage) (omega arith)
      (omega arith) (omega arith) (omega arith) (omega arith) (omega arith)

reset_inverse-IsReset_example : IsReset 1 3 3 unit (reset_inverse 1 3 unit)
unfolding unit_partition
reset_inverse-IsReset_example =
    reset_inverse-IsReset 1 3 unit (omega arith) (λ i j a b c d e. ground arith)

set_cell_from_v_idx-IsCellSet_example :
    IsCellSet 0 (unit.next_cell_begin 0) (unit.next_cell_begin 0) unit (set_cell_from_v_idx 0 unit)
unfolding unit_partition
set_cell_from_v_idx-IsCellSet_example = set_cell_from_v_idx-IsCellSet 0 unit (omega arith)

split_at-IsCells_example : IsCells (split_at 0 (1 ∷ 3 ∷ []) unit)
unfolding unit_partition
split_at-IsCells_example =
    split_at-IsCells 0 (1 ∷ 3 ∷ []) unit (unit_partition-IsPartition 4 storage).cells (omega arith)
      (omega arith) (omega arith)

split_at-IsSplit_example : IsSplit 0 (1 ∷ 3 ∷ []) unit (split_at 0 (1 ∷ 3 ∷ []) unit)
unfolding unit_partition
split_at-IsSplit_example = split_at-IsSplit 0 (1 ∷ 3 ∷ []) unit (omega arith) (omega arith)

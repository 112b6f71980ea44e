-- ===== src/SearchTree.antt =====
-- include/graph_canon/detail/tree_node.hpp: how a node of the search tree makes the partition of a
-- child, by giving one vertex of its target cell a cell of its own.
pub mod Individualization
pub mod Ancestors
pub mod Nodes
pub mod Creation
use graph_canon.Base.{ℕ, ◌-◌, [], ◌∷◌, Option}
use graph_canon.Partition.{
  Partition, Storage, copy_partition, swap_elements, set_cell_from_v_idx, get_cell_end,
}
use graph_canon.Partition.Splitter.{split_at}

-- The members of the nodes that a walk towards the root reads: `get_parent()`, where `none` is the null
-- pointer of the root, and `level`. The nodes are the numbers below `size`.
pub record Ancestry : Type 0 where
  pub size : ℕ
  pub parent : ℕ → Option ℕ
  pub level : ℕ → ℕ

-- `get_child_individualized_position()` for the node's partition and `child_refiner_cell`.
abbrev pub get_child_individualized_position : Partition → ℕ → ℕ
get_child_individualized_position pi child_refiner_cell = get_cell_end pi child_refiner_cell - 1

-- The partition that `create_child(element_idx_to_individualise, state)` gives the child, before it is
-- refined. `raw` is what the allocations of the copy return.
unfoldable pub child_partition : Storage → Partition → ℕ → ℕ → Partition
unfolding copy_partition swap_elements split_at set_cell_from_v_idx
child_partition raw pi child_refiner_cell element_idx =
    let ind_pos = get_cell_end pi child_refiner_cell - 1 in
    set_cell_from_v_idx ind_pos (
      split_at child_refiner_cell (ind_pos ∷ [])
        (swap_elements ind_pos element_idx (copy_partition pi raw)))

-- ===== src/EdgeHandler.antt =====
-- include/graph_canon/edge_handler: what the refinement and the comparison of leaves ask of an edge
-- handler (edge_handler.hpp), and parts of the handler for edges without labels (all_equal.hpp).
pub mod AllEqual
use graph_canon.Base.{ℕ, List, Array}
use graph_canon.Base.Int.{ℤ, pos}
use graph_canon.Partition.{Partition}

-- What the sorting functions change: the partition, the list of split positions that they append to,
-- and the handler.
pub record Sorted (H : Type 0) : Type 0 where
  pub pi : Partition
  pub splits : List ℕ
  pub handler : H

-- The functions that the refinement calls, for a handler with the state `H`.
pub record EdgeHandler (E H : Type 0) : Type 0 where
  -- cell, cell_end, e_out
  pub add_edge : ℕ → ℕ → E → H → H
  -- cell, cell_end, max
  pub sort_equal_hit : ℕ → ℕ → ℕ → Sorted H → Sorted H
  -- cell, cell_mid, cell_end, max_count
  pub sort_partitioned : ℕ → ℕ → ℕ → ℕ → Sorted H → Sorted H
  -- cell, cell_mid, cell_end, max
  pub sort_duplicate_partitioned_equal_hit : ℕ → ℕ → ℕ → ℕ → Sorted H → Sorted H
  -- cell, cell_mid, cell_end, max, max_count, counters
  pub sort_duplicate_partitioned : ℕ → ℕ → ℕ → ℕ → ℕ → Array → Sorted H → Sorted H
  -- cell, cell_end, max, max_count, counters; it also gives first_non_zero
  pub sort : ℕ → ℕ → ℕ → ℕ → Array → Sorted H → ℕ × Sorted H
  -- cell, cell_end
  pub clear_cell : ℕ → ℕ → H → H
  pub clear_cell_aborted : ℕ → ℕ → H → H
  -- cell, cell_end, e_out, target_pos
  pub add_edge_singleton_refiner : ℕ → ℕ → E → ℕ → H → H
  -- cell, cell_mid, cell_end
  pub sort_singleton_refiner : ℕ → ℕ → ℕ → Sorted H → Sorted H
  -- cell, cell_end
  pub clear_cell_singleton_refiner : ℕ → ℕ → H → H
  pub clear_cell_singleton_refiner_aborted : ℕ → ℕ → H → H

-- `edge_handler_all_equal_impl::compare`
unfoldable pub all_equal_compare : {E : Type 0} → E → E → ℤ
all_equal_compare e_left e_right = pos 0

-- The functions of `edge_handler_all_equal_impl` for a single vertex as the refiner do nothing.
abbrev pub all_equal_add_edge_singleton_refiner : {E H : Type 0} → ℕ → ℕ → E → ℕ → H → H
all_equal_add_edge_singleton_refiner cell cell_end e_out target_pos h = h

abbrev pub all_equal_sort_singleton_refiner : {H : Type 0} → ℕ → ℕ → ℕ → Sorted H → Sorted H
all_equal_sort_singleton_refiner cell cell_mid cell_end s = s

abbrev pub all_equal_clear_cell_singleton_refiner : {H : Type 0} → ℕ → ℕ → H → H
all_equal_clear_cell_singleton_refiner cell cell_end h = h

abbrev pub all_equal_clear_cell_singleton_refiner_aborted : {H : Type 0} → ℕ → ℕ → H → H
all_equal_clear_cell_singleton_refiner_aborted cell cell_end h = h

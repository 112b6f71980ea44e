-- ===== src/Refine.antt =====
-- include/graph_canon/refine/WL_1.hpp: the Weisfeiler-Leman refinement of dimension 1. This file has
-- the data of the visitor; the operations are in the child modules.
pub mod Queue
pub mod Enqueue
pub mod Pending
pub mod Count
pub mod Rearranged
pub mod RefineeCells
pub mod Hits
pub mod Neighbours
pub mod Reset
pub mod Refinee
pub mod Handle
pub mod Singleton
pub mod Separation
pub mod Equitable
pub mod Ordering
pub mod SingletonRefiner
pub mod CellRefiner
pub mod Classification
pub mod Analysis
use graph_canon.Partition.{Partition}
use graph_canon.Base.{ℕ, zero, List, [], ◌∷◌, ◌++◌, Bool, true, false, Array, update}

pub data RefineeType : Type 0 where
  unique_partitioning : RefineeType
  equal_hit : RefineeType
  duplicate_partitioning : RefineeType
  sort : RefineeType

-- `cell_data_`
pub record CellData : Type 0 where
  pub is_refiner : Bool
  pub hit_count : ℕ
  pub max : ℕ
  pub max_count : ℕ
  pub non_zero_count : ℕ
  pub first_non_zero : ℕ
  pub type : RefineeType

pub record RefineeCell : Type 0 where
  pub first : ℕ
  pub last : ℕ

-- `instance_data`
pub record InstanceData : Type 0 where
  pub refiner_cells : List ℕ
  pub refined_beginnings : List ℕ
  pub refinee_cells : List RefineeCell
  pub cell_data : ℕ → CellData
  pub counters : Array

-- `cell_data[cell].is_refiner = value`
abbrev pub set_is_refiner : ℕ → Bool → InstanceData → InstanceData
set_is_refiner cell value d = record d {
  cell_data = update d.cell_data cell (record (d.cell_data cell) { is_refiner = value });
}

-- `refiner_cells.push_back(cell); cell_data[cell].is_refiner = true`
abbrev pub push_refiner : InstanceData → ℕ → InstanceData
push_refiner d cell = record d {
  refiner_cells = d.refiner_cells ++ (cell ∷ []);
  cell_data = update d.cell_data cell (record (d.cell_data cell) { is_refiner = true });
}

-- What an operation of the refinement changes: the partition of the node, the data of the visitor, and
-- the state of the edge handler.
pub record RefineState (H : Type 0) : Type 0 where
  pub pi : Partition
  pub i_data : InstanceData
  pub handler : H

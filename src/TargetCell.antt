-- ===== src/TargetCell.antt =====
-- include/graph_canon/target_cell/f.hpp and fl.hpp: the choice of the cell to branch on. `state.n`
-- is the size of the partition. `none` is the model's lack of fuel; n + 1 rounds are enough.
pub mod Discrete
pub mod First
pub mod Largest
pub mod Joined
pub mod JoinedCell
pub mod Component
use graph_canon.Base.{ℕ, zero, suc, ◌+◌, ◌-◌, Option, none, some, ltb, if◌then◌else◌}
use graph_canon.Partition.{Partition, get_cell_end}
use graph_canon.Partition.Walk.{for_cells}

-- target_cell_f: the loop returns at the first cell of more than one vertex.
first_loop : ℕ → Partition → ℕ → Option ℕ
first_loop zero pi cell_begin = none
first_loop (suc fuel) pi cell_begin =
    let cell_end = get_cell_end pi cell_begin in
    let rest = first_loop fuel pi cell_end in
    let round = if ltb 1 (cell_end - cell_begin) then some cell_begin else rest in
    if ltb cell_begin pi.n then round else some pi.n

unfoldable pub target_cell_f : Partition → Option ℕ
unfolding first_loop
target_cell_f pi = first_loop (pi.n + 1) pi 0

-- target_cell_fl: the local variables of the loop, and its body.
pub record Best : Type 0 where
  pub max_size : ℕ
  pub result : ℕ

pub largest_body : Partition → ℕ → Best → Best
largest_body pi cell_begin best =
    let cell_end = get_cell_end pi cell_begin in
    if ltb best.max_size (cell_end - cell_begin)
    then record { max_size = cell_end - cell_begin; result = cell_begin }
    else best

unfoldable pub target_cell_fl : Partition → Option ℕ
unfolding largest_body for_cells
target_cell_fl pi =
    elim (for_cells (pi.n + 1) pi (largest_body pi) 0 (record { max_size = 1; result = pi.n })) [
      | some best ↦ some best.result
      | none ↦ none
    ]

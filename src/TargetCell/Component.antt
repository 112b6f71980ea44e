-- ===== src/TargetCell/Component.antt =====
-- include/graph_canon/target_cell/flmcr.hpp: the cell of most non-uniform joins in the first component of
-- the cells. The loops of the source test `cell != n`, which on valid cells is `cell < n`.
use mathlib.Core.List.{foldl}
use graph_canon.Base.{
  ℕ, zero, suc, ◌+◌, ◌-◌, Bool, Option, none, some, not, ◌||◌, ◌==◌, ltb, if◌then◌else◌, ◌>>=◌,
  Array, update,
}
use graph_canon.Partition.{Partition, get_cell_end}
use graph_canon.Partition.Walk.{for_cells}
use graph_canon.PermutedGraph.{Graph}
use graph_canon.Refine.Count.{for_each_neighbour}
use graph_canon.TargetCell.{target_cell_f}
use graph_canon.TargetCell.Joined.{JoinData, count_target, reset_target, clear_joined}

-- `instance_data` of target_cell_flmcr.
pub record ComponentData : Type 0 where
  pub join : JoinData
  pub component : Array
  pub degree : Array
  pub size : Array

-- The two tests with which each loop passes over small cells.
abbrev pub is_small : Partition → ℕ → Bool
is_small pi cell = (cell + 1 == get_cell_end pi cell) || (cell + 2 == get_cell_end pi cell)

-- The local variables of the last loop of `find_cell`.
pub record BestCell : Type 0 where
  pub max_size : ℕ
  pub max_joined : ℕ
  pub result : ℕ

module _ {E : Type 0} (g : Graph E) (pi : Partition) where
  -- The callback is called for each cell that was reached from the first vertex of `cell`.
  unfoldable pub find_non_uniform :
      ℕ → (ComponentData → ℕ → ComponentData) → ComponentData → ComponentData
  unfolding for_each_neighbour
  find_non_uniform cell callback d =
      let edges = g.out_edges (pi.elements cell) in
      let counted = for_each_neighbour g (λ j. pi) (count_target pi) edges d.join in
      let called = foldl callback (record d { join = counted }) counted.cells in
      let cleaned = for_each_neighbour g (λ j. pi) (reset_target pi) edges called.join in
      record called { join = clear_joined cleaned }

  abbrev pub start_component : ℕ → ComponentData → ComponentData
  start_component cell d =
      if is_small pi cell then d else record d { component = update d.component cell cell }

  abbrev pub join_component : ℕ → ComponentData → ℕ → ComponentData
  join_component cell d cell_other =
      let counted = record d { degree = update d.degree cell (d.degree cell + 1) } in
      if ltb cell cell_other
      then record counted {
        component = update d.component cell_other (d.component cell);
        size = update d.size cell_other (d.size cell_other + 1);
      }
      else counted

  abbrev pub visit_component : ℕ → ComponentData → ComponentData
  visit_component cell d =
      let joined = find_non_uniform cell (join_component cell) d in
      if is_small pi cell then d else joined

  -- The first cell that is not small, or `n`; `none` is a lack of fuel.
  unfoldable pub first_large : ℕ → ℕ → Option ℕ
  first_large zero cell = none
  first_large (suc fuel) cell =
      let rest = first_large fuel (get_cell_end pi cell) in
      if not (ltb cell pi.n) then some pi.n else if is_small pi cell then rest else some cell

  abbrev pub prefer_cell : ComponentData → ℕ → ℕ → BestCell → BestCell
  prefer_cell d comp cell b =
      let cell_end = get_cell_end pi cell in
      let num_non_uniform = d.degree cell in
      let chosen : BestCell = record {
        result = cell;
        max_joined = num_non_uniform;
        max_size = cell_end - cell;
      } in
      let larger =
        if ltb b.max_size (cell_end - cell)
        then record b { result = cell; max_size = cell_end - cell }
        else b in
      if is_small pi cell || not (d.component cell == comp)
      then b
      else if ltb b.max_joined num_non_uniform || (b.result == pi.n)
      then chosen
      else if num_non_uniform == b.max_joined
      then larger
      else b

  -- The cleanup: `cell_end` keeps the value that the loop before left in it, and is not updated.
  unfoldable pub clear_degrees : ℕ → ℕ → ℕ → ComponentData → Option ComponentData
  clear_degrees zero cell_end cell_begin d = none
  clear_degrees (suc fuel) cell_end cell_begin d =
      let cleared = record d {
        degree = update d.degree cell_begin 0;
        size = update d.size cell_begin 0;
      } in
      let rest = clear_degrees fuel cell_end cell_end cleared in
      if cell_begin == pi.n then some d else rest

  -- The last loop, from the cell `comp`, and the cleanup, for which the loop has left `n` in `cell_end`.
  unfoldable pub find_best : ℕ → ComponentData → Option (ℕ × ComponentData)
  unfolding for_cells clear_degrees
  find_best comp d =
      let found =
        for_cells (pi.n + 1) pi (prefer_cell d comp) comp
          (record { max_size = 1; max_joined = 0; result = pi.n }) in
      let best =
        found
        >>= (λ b. clear_degrees (pi.n + 1) pi.n 0 d >>= (λ cleared. some (b.result, cleared))) in
      if comp == pi.n then some (pi.n, d) else best

  unfoldable pub find_component_cell : ComponentData → Option (ℕ × ComponentData)
  unfolding for_cells find_non_uniform first_large find_best
  find_component_cell d = do
    started ← for_cells (pi.n + 1) pi start_component 0 d
    joined ← for_cells (pi.n + 1) pi visit_component 0 started
    comp ← first_large (pi.n + 1) 0
    find_best comp joined

  -- Without a large cell the first cell of more than one vertex is taken, by the loop of target_cell_f.
  -- The source does not return where there is no such cell.
  unfoldable pub target_cell_flmcr : ComponentData → Option (ℕ × ComponentData)
  unfolding find_component_cell target_cell_f
  target_cell_flmcr d = do
    found ← find_component_cell d
    let other = target_cell_f pi >>= (λ cell. some (cell, found.1)) in
        if found.0 == pi.n then other else some found

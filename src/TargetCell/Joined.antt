-- ===== src/TargetCell/Joined.antt =====
-- include/graph_canon/target_cell/flm.hpp: the cell that is joined non-uniformly to most cells. The loops
-- of the source test `cell != n`, which on valid cells is `cell < n`.
use mathlib.Core.List.{foldl}
use graph_canon.Base.{
  ℕ, ◌+◌, ◌-◌, List, [], ◌∷◌, ◌++◌, Bool, true, Option, some, not, ◌==◌, ltb, if◌then◌else◌, ◌>>=◌,
  Array, update,
}
use graph_canon.Partition.{Partition, get_cell_end, get_cell_size}
use graph_canon.Partition.Walk.{for_cells}
use graph_canon.PermutedGraph.{Graph}
use graph_canon.Refine.Count.{for_each_neighbour}

-- `instance_data` of target_cell_flm.
pub record JoinData : Type 0 where
  pub count : Array
  pub non_zero_count : Array
  pub cells : List ℕ

-- The local variables of `find_cell`, with the data.
pub record Search : Type 0 where
  pub join : JoinData
  pub max_size : ℕ
  pub max_joined : ℕ
  pub result : ℕ

abbrev pub count_target : {E : Type 0} → Partition → E → ℕ → ℕ → ℕ → JoinData → JoinData
count_target pi e_out v_idx target_cell target_cell_end d =
    let v_pos = pi.inverse v_idx in
    let old = d.non_zero_count target_cell in
    let non_zero_count = if d.count v_pos == 0 then old + 1 else old in
    record d {
      non_zero_count = update d.non_zero_count target_cell non_zero_count;
      cells = if non_zero_count == 1 then d.cells ++ target_cell ∷ [] else d.cells;
    }

abbrev pub reset_target : {E : Type 0} → Partition → E → ℕ → ℕ → ℕ → JoinData → JoinData
reset_target pi e_out v_idx target_cell target_cell_end d = record d {
  count = update d.count (pi.inverse v_idx) 0;
}

abbrev pub count_non_uniform : Partition → JoinData → List ℕ → ℕ
count_non_uniform pi d [] = 0
count_non_uniform pi d (cell ∷ cells) =
    (if ltb (d.non_zero_count cell) (get_cell_size pi cell) then 1 else 0)
    + count_non_uniform pi d cells

abbrev pub clear_joined : JoinData → JoinData
clear_joined d = record d {
  non_zero_count = foldl (λ a c. update a c 0) d.non_zero_count d.cells;
  cells = [];
}

-- The comparison with the best cell so far.
abbrev pub prefer : ℕ → ℕ → ℕ → Search → Search
prefer cell_begin cell_end num_non_uniform s =
    if ltb s.max_joined num_non_uniform
    then record s {
      result = cell_begin;
      max_joined = num_non_uniform;
      max_size = cell_end - cell_begin;
    }
    else if num_non_uniform == s.max_joined
    then (if ltb s.max_size (cell_end - cell_begin)
        then record s { result = cell_begin; max_size = cell_end - cell_begin }
        else s)
    else s

module _ {E : Type 0} (g : Graph E) (pi : Partition) where
  -- `pred` gets the begin and the end of a cell.
  abbrev pub visit_cell : (ℕ → ℕ → Bool) → ℕ → Search → Search
  visit_cell pred cell_begin s =
      let cell_end = get_cell_end pi cell_begin in
      let edges = g.out_edges (pi.elements cell_begin) in
      let counted = for_each_neighbour g (λ d. pi) (count_target pi) edges s.join in
      let preferred = prefer cell_begin cell_end (count_non_uniform pi counted counted.cells) s in
      let cleaned = clear_joined (for_each_neighbour g (λ d. pi) (reset_target pi) edges counted) in
      if cell_begin + 1 == cell_end
      then s
      else if pred cell_begin cell_end
      then record preferred { join = cleaned }
      else s

  unfoldable pub find_cell : (ℕ → ℕ → Bool) → JoinData → Option Search
  unfolding for_cells for_each_neighbour
  find_cell pred d =
      for_cells (pi.n + 1) pi (visit_cell pred) 0
        (record { join = d; max_size = 1; max_joined = 0; result = pi.n })

  -- First among the cells that have not two vertices, then among all.
  unfoldable pub target_cell_flm : JoinData → Option Search
  unfolding find_cell
  target_cell_flm d = do
    first ← find_cell (λ cell cell_end. not (cell + 2 == cell_end)) d
    let second = find_cell (λ cell cell_end. true) first.join in
        if first.result == pi.n then second else some first

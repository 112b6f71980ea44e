-- ===== src/Refine/Count.antt =====
-- WL_1.hpp: counting the neighbours of the refiner cell, with for_each_neighbour of
-- detail/visitor_utils.hpp.
use graph_canon.Base.{ℕ, ◌+◌, ◌-◌, List, [], ◌∷◌, ◌++◌, ◌==◌, ltb, if◌then◌else◌, update}
use graph_canon.Base.Loops.{for_up}
use graph_canon.EdgeHandler.{EdgeHandler}
use graph_canon.Partition.{Partition, swap_elements}
use graph_canon.PermutedGraph.{Graph}
use graph_canon.Refine.{InstanceData, CellData, RefineState, RefineeType, RefineeCell}

-- The callback gets the edge, the index of its target, and the cell of the target with its end.
unfoldable pub for_each_neighbour {ℓ} :
    {E : Type 0} {S : Type ℓ} → Graph E → (S → Partition) → (E → ℕ → ℕ → ℕ → S → S) → List E → S → S
for_each_neighbour g pi_of callback [] s = s
for_each_neighbour g pi_of callback (e_out ∷ edges) s =
    let v_idx = g.target e_out in
    let cell = (pi_of s).cell_from_v_idx v_idx in
    let cell_end = (pi_of s).next_cell_begin cell in
    for_each_neighbour g pi_of callback edges
      (if cell + 1 == cell_end then s else callback e_out v_idx cell cell_end s)

abbrev pub set_cell_data : ℕ → CellData → InstanceData → InstanceData
set_cell_data cell value d = record d { cell_data = update d.cell_data cell value }

-- `if(!has_been_hit) refinee_cells.emplace_back(cell, cell_end)`
abbrev pub add_refinee : ℕ → ℕ → InstanceData → InstanceData
add_refinee cell cell_end d =
    let more : List RefineeCell = record { first = cell; last = cell_end } ∷ [] in
    record d {
      refinee_cells =
          if (d.cell_data cell).hit_count == 0 then d.refinee_cells ++ more else d.refinee_cells;
    }

-- `if(v_pos != target_pos) pi.swap_elements(v_pos, target_pos)`
abbrev pub move_element : ℕ → ℕ → Partition → Partition
move_element v_pos target_pos pi =
    if v_pos == target_pos then pi else swap_elements v_pos target_pos pi

-- `if(c == max) ++max_count; else if(c > max) max = c, max_count = 1`
abbrev pub count_max : ℕ → CellData → CellData
count_max c d =
    if c == d.max
    then record d { max_count = d.max_count + 1 }
    else if ltb d.max c
    then record d { max = c; max_count = 1 }
    else d

-- `++hit_count`, then the element moves to the front of the elements that were hit.
abbrev pub move_hit : {H : Type 0} → ℕ → ℕ → ℕ → RefineState H → RefineState H
move_hit v_idx cell cell_end s =
    let hit_count = (s.i_data.cell_data cell).hit_count + 1 in
    record s {
      pi = move_element (s.pi.inverse v_idx) (cell_end - hit_count) s.pi;
      i_data =
          set_cell_data cell (record (s.i_data.cell_data cell) { hit_count = hit_count }) s.i_data;
    }

abbrev pub redo_by_type : {H : Type 0} → RefineeType → ℕ → ℕ → ℕ → RefineState H → RefineState H
redo_by_type RefineeType.unique_partitioning v_idx cell cell_end s = move_hit v_idx cell cell_end s
redo_by_type RefineeType.equal_hit v_idx cell cell_end s = s
redo_by_type RefineeType.duplicate_partitioning v_idx cell cell_end s =
    if ltb (s.pi.inverse v_idx) (cell_end - (s.i_data.cell_data cell).hit_count)
    then move_hit v_idx cell cell_end s
    else s
redo_by_type RefineeType.sort v_idx cell cell_end s = s

unfoldable pub redo_hit : {E H : Type 0} → E → ℕ → ℕ → ℕ → RefineState H → RefineState H
unfolding swap_elements
redo_hit e_out v_idx cell cell_end s =
    redo_by_type (s.i_data.cell_data cell).type v_idx cell cell_end s

module _ {E H : Type 0} (g : Graph E) (sorter : EdgeHandler E H) where
  unfoldable pub hit_from_singleton : E → ℕ → ℕ → ℕ → RefineState H → RefineState H
  unfolding swap_elements
  hit_from_singleton e_out v_idx cell cell_end s =
      let hit_count = (s.i_data.cell_data cell).hit_count + 1 in
      let v_pos = s.pi.inverse v_idx in
      let target_pos = cell_end - hit_count in
      record {
        pi = move_element v_pos target_pos s.pi;
        i_data =
            set_cell_data cell (record (s.i_data.cell_data cell) { hit_count = hit_count })
              (add_refinee cell cell_end s.i_data);
        handler = sorter.add_edge_singleton_refiner cell cell_end e_out target_pos s.handler;
      }

  unfoldable pub count_neighbours_from_singleton : ℕ → RefineState H → RefineState H
  unfolding hit_from_singleton for_each_neighbour
  count_neighbours_from_singleton refiner_begin s =
      for_each_neighbour g (λ t. t.pi) hit_from_singleton
        (g.out_edges (s.pi.elements refiner_begin)) s

  unfoldable pub hit_from_cell : E → ℕ → ℕ → ℕ → RefineState H → RefineState H
  hit_from_cell e_out v_idx cell cell_end s =
      let cell_data = s.i_data.cell_data cell in
      let c = s.i_data.counters v_idx + 1 in
      let hit = record cell_data {
        hit_count = cell_data.hit_count + 1;
        non_zero_count =
            if s.i_data.counters v_idx == 0
            then cell_data.non_zero_count + 1
            else cell_data.non_zero_count;
      } in
      let listed = add_refinee cell cell_end s.i_data in
      record s {
        i_data = record (set_cell_data cell (count_max c hit) listed) {
          counters = update s.i_data.counters v_idx c;
        };
        handler = sorter.add_edge cell cell_end e_out s.handler;
      }

  unfoldable pub count_neighbours_from_cell : ℕ → ℕ → RefineState H → RefineState H
  unfolding hit_from_cell for_each_neighbour for_up
  count_neighbours_from_cell refiner_begin refiner_end s =
      for_up
        (λ i t. for_each_neighbour g (λ u. u.pi) hit_from_cell (g.out_edges (t.pi.elements i)) t)
        refiner_begin (refiner_end - refiner_begin) s

  unfoldable pub redo_neighbours_from_cell : ℕ → ℕ → RefineState H → RefineState H
  unfolding redo_hit for_each_neighbour for_up
  redo_neighbours_from_cell refiner_begin refiner_end s =
      for_up (λ i t. for_each_neighbour g (λ u. u.pi) redo_hit (g.out_edges (t.pi.elements i)) t)
        refiner_begin (refiner_end - refiner_begin) s

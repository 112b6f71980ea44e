-- ===== src/Refine/CellRefiner.antt =====
-- WL_1.hpp: refine_with_cell, for a refiner cell of any size, and refine.
use mathlib.Core.List.{foldl}
use graph_canon.Base.{
  ℕ, zero, suc, ◌+◌, ◌-◌, List, [], ◌∷◌, ◌++◌, Bool, true, false, Option, none, some, not, ◌&&◌,
  ◌==◌, ltb, if◌then◌else◌, ◌>>=◌, update, Array, get_elem?,
}
use graph_canon.Base.Int.{IntType, product}
use graph_canon.Base.Loops.{for_up}
use graph_canon.EdgeHandler.{EdgeHandler}
use graph_canon.Partition.{Partition, get_cell_end}
use graph_canon.PermutedGraph.{Graph}
use graph_canon.Refine.{
  InstanceData, CellData, RefineState, RefineeCell, RefineeType, set_is_refiner,
}
use graph_canon.Refine.Count.{count_neighbours_from_cell, redo_neighbours_from_cell, set_cell_data}
use graph_canon.Refine.Handle.{
  handle_refinee, finish_refiner, sort_refinees, refine_with_singleton_cell,
}
use graph_canon.Refine.Queue.{add_initial_refiner_cells}
use graph_canon.Refine.Refinee.{RefinementResult, Visitor, RunState}

-- How the cell is going to be split, for a cell of the given size. A count of hits that is reset doubles
-- as the sign that no redo has been done.
unfoldable pub analyse : IntType → ℕ → CellData → CellData
unfolding product
analyse t cell_size d =
    if d.max_count == cell_size
    then record d { type = RefineeType.equal_hit }
    else if d.max == 1
    then record d { type = RefineeType.unique_partitioning; hit_count = 0 }
    else if ltb (product t d.hit_count 4) (product t 3 cell_size)
    then record d { type = RefineeType.duplicate_partitioning; hit_count = 0 }
    else record d { type = RefineeType.sort }

pub record Analysis : Type 0 where
  pub i_data : InstanceData
  pub total_hit_count : ℕ
  pub zeroes_to_skip : ℕ
  pub redo_neighbours : Bool

abbrev pub is_partitioned : RefineeType → Bool
is_partitioned RefineeType.unique_partitioning = true
is_partitioned RefineeType.equal_hit = false
is_partitioned RefineeType.duplicate_partitioning = true
is_partitioned RefineeType.sort = false

unfoldable pub analyse_refinee : IntType → Analysis → RefineeCell → Analysis
unfolding analyse
analyse_refinee t a rp =
    let rp_data = a.i_data.cell_data rp.first in
    let cell_size = rp.last - rp.first in
    let analysed = analyse t cell_size rp_data in
    record {
      i_data = set_cell_data rp.first analysed a.i_data;
      total_hit_count = a.total_hit_count + rp_data.hit_count;
      zeroes_to_skip =
          if rp_data.max_count == cell_size
          then a.zeroes_to_skip
          else a.zeroes_to_skip + (cell_size - rp_data.non_zero_count);
      redo_neighbours = if is_partitioned analysed.type then true else a.redo_neighbours;
    }

unfoldable pub analyse_refinees : IntType → InstanceData → Analysis
unfolding analyse_refinee
analyse_refinees t d =
    foldl (analyse_refinee t)
      (record { i_data = d; total_hit_count = 0; zeroes_to_skip = 0; redo_neighbours = false })
      d.refinee_cells

abbrev pub clear_counts : InstanceData → RefineeCell → InstanceData
clear_counts d rp =
    set_cell_data rp.first
      (record (d.cell_data rp.first) { hit_count = 0; max = 0; max_count = 0; non_zero_count = 0 })
      d

-- `counters` of the elements from index `first` to `last` are reset.
abbrev pub clear_counters : Partition → ℕ → ℕ → Array → Array
clear_counters pi first last = for_up (λ i c. update c (pi.elements i) 0) first (last - first)

module _ {E H V : Type 0} (g : Graph E) (sorter : EdgeHandler E H) (visitor : Visitor V)
    (t : IntType) where
  abbrev pub clear_cell_data : List RefineeCell → List RefineeCell → RefineState H → RefineState H
  clear_cell_data before after s =
      let i_data = foldl clear_counts s.i_data s.i_data.refinee_cells in
      let handled =
        foldl (λ c rp. clear_counters s.pi (i_data.cell_data rp.first).first_non_zero rp.last c)
          s.i_data.counters before in
      record s {
        i_data = record i_data {
          counters = foldl (λ c rp. clear_counters s.pi rp.first rp.last c) handled after;
        };
        handler =
            foldl (λ h rp. sorter.clear_cell_aborted rp.first rp.last h)
              (foldl (λ h rp. sorter.clear_cell rp.first rp.last h) s.handler before) after;
      }

  -- The loop over the refinees: `before` have been handled.
  unfoldable pub handle_counted :
      ℕ → List RefineeCell → List RefineeCell → RunState H V → Option (Bool × RunState H V)
  unfolding handle_refinee for_up
  handle_counted refiner_begin before [] r =
      some (true, record r { state = clear_cell_data before [] r.state })
  handle_counted refiner_begin before (rp ∷ rest) r = do
    handled ← handle_refinee g sorter visitor t rp.first rp.last refiner_begin false r
    let more = handle_counted refiner_begin (before ++ rp ∷ []) rest handled.1 in
        if handled.0
        then more
        else some (
          false,
          record (handled.1) { state = clear_cell_data (before ++ rp ∷ []) rest handled.1.state },
        )

  unfoldable pub refine_with_cell : ℕ → ℕ → RunState H V → Option (Bool × RunState H V)
  unfolding handle_counted count_neighbours_from_cell redo_neighbours_from_cell analyse_refinees
      sort_refinees
  refine_with_cell refiner_begin refiner_end r =
      let cleared : RefineState H = record (r.state) {
        i_data = record (r.state.i_data) { refinee_cells = [] };
      } in
      let counted = count_neighbours_from_cell g sorter refiner_begin refiner_end cleared in
      let sorted = record (counted.i_data) {
        refinee_cells = sort_refinees counted.i_data.refinee_cells;
      } in
      let analysis = analyse_refinees t sorted in
      let analysed = record counted { i_data = analysis.i_data } in
      let redone = redo_neighbours_from_cell g sorter refiner_begin refiner_end analysed in
      let ready =
        if analysis.redo_neighbours && ltb analysis.total_hit_count analysis.zeroes_to_skip
        then redone
        else analysed in
      handle_counted refiner_begin [] sorted.refinee_cells (record r { state = ready })
      >>= finish_refiner g sorter visitor t refiner_begin refiner_end

  -- `parallel_edges` and `loops` are `State::ParallelEdges` and `State::Loops`.
  module _ (parallel_edges loops : Bool) where
    unfoldable pub refine_with : ℕ → RunState H V → Option (Bool × RunState H V)
    unfolding refine_with_cell refine_with_singleton_cell
    refine_with refiner_begin r =
        let refiner_end = get_cell_end r.state.pi refiner_begin in
        let taken : RunState H V = record r {
          state = record (r.state) { i_data = set_is_refiner refiner_begin false r.state.i_data };
        } in
        if refiner_begin + 1 == refiner_end && not parallel_edges && not loops
        then refine_with_singleton_cell g sorter visitor t refiner_begin refiner_end taken
        else refine_with_cell refiner_begin refiner_end taken

    -- `clear_remaining_refiners(i_refiner)`; the list is `refiner_cells` from index 0.
    unfoldable pub clear_remaining : ℕ → List ℕ → InstanceData → InstanceData
    clear_remaining i_refiner [] d = d
    clear_remaining zero (c ∷ cells) d = foldl (λ e x. set_is_refiner x false e) d cells
    clear_remaining (suc i_refiner) (c ∷ cells) d = clear_remaining i_refiner cells d

    abbrev pub stop_at : ℕ → RunState H V → RunState H V
    stop_at i_refiner r = record r {
      state = record (r.state) {
        i_data = clear_remaining i_refiner r.state.i_data.refiner_cells r.state.i_data;
      };
    }

    -- What follows the use of one refiner: the abort, the end at a discrete partition, or the next round.
    abbrev pub after_refiner :
        (RunState H V → Option (RefinementResult × RunState H V))
        → ℕ
        → Bool × RunState H V
        → Option (RefinementResult × RunState H V)
    after_refiner next i_refiner (false, r) = some (RefinementResult.abort, stop_at i_refiner r)
    after_refiner next i_refiner (true, r) =
        let more = next r in
        if r.state.pi.num_cells == r.state.pi.n then some (r.result, stop_at i_refiner r) else more

    abbrev pub use_refiner :
        (RunState H V → Option (RefinementResult × RunState H V))
        → ℕ
        → RunState H V
        → Option ℕ
        → Option (RefinementResult × RunState H V)
    use_refiner next i_refiner r none = some (r.result, r)
    use_refiner next i_refiner r (some refiner_begin) =
        refine_with refiner_begin r >>= after_refiner next i_refiner

    -- The loop over the queue from index `i_refiner`, which grows meanwhile; `none` is a lack of fuel.
    unfoldable pub refine_loop : ℕ → ℕ → RunState H V → Option (RefinementResult × RunState H V)
    unfolding refine_with clear_remaining get_elem?
    refine_loop zero i_refiner r = none
    refine_loop (suc fuel) i_refiner r =
        use_refiner (refine_loop fuel (i_refiner + 1)) i_refiner r
          (get_elem? r.state.i_data.refiner_cells i_refiner)

    -- `parent` is the individualised position of the parent, or `none` at the root.
    unfoldable pub refine : ℕ → Option ℕ → RunState H V → Option (RefinementResult × RunState H V)
    unfolding refine_loop add_initial_refiner_cells
    refine fuel parent r = do
      i_data ← add_initial_refiner_cells r.state.pi parent r.state.i_data
      refine_loop fuel 0 (record r {
        state = record (r.state) { i_data = i_data };
        result = RefinementResult.unchanged;
      })

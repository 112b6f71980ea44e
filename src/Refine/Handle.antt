-- ===== src/Refine/Handle.antt =====
-- WL_1.hpp: the rest of handle_refinee, and refine_with_singleton_cell.
use mathlib.Core.List.{foldl}
use graph_canon.Base.{
  ℕ, List, [], ◌∷◌, ◌++◌, Bool, true, false, Option, some, ltb, if◌then◌else◌, ◌>>=◌,
}
use graph_canon.Base.Int.{IntType}
use graph_canon.EdgeHandler.{EdgeHandler}
use graph_canon.Partition.{Partition}
use graph_canon.Partition.Splitter.{split_at}
use graph_canon.PermutedGraph.{Graph}
use graph_canon.Refine.{InstanceData, RefineState, RefineeCell}
use graph_canon.Refine.Count.{count_neighbours_from_singleton, set_cell_data}
use graph_canon.Refine.Queue.{add_refiner_cells}
use graph_canon.Refine.Refinee.{RefinementResult, Visitor, RunState, get_cell_data, find_splits}
use graph_canon.Refine.Reset.{reset_cell_beginnings}

abbrev pub refine_new_cell_type : ℕ
refine_new_cell_type = 50

abbrev pub clear_hit_count : InstanceData → RefineeCell → InstanceData
clear_hit_count d rp = set_cell_data rp.first (record (d.cell_data rp.first) { hit_count = 0 }) d

-- `std::sort` of the refinees by their first index.
abbrev pub insert_refinee : RefineeCell → List RefineeCell → List RefineeCell
insert_refinee a [] = a ∷ []
insert_refinee a (b ∷ rest) =
    let later = insert_refinee a rest in if ltb b.first a.first then b ∷ later else a ∷ b ∷ rest

unfoldable pub sort_refinees : List RefineeCell → List RefineeCell
sort_refinees [] = []
sort_refinees (a ∷ rest) = insert_refinee a (sort_refinees rest)

module _ {V : Type 0} (visitor : Visitor V) where
  -- The loop that reports the new cells.
  unfoldable pub report_new_cells : List ℕ → Partition → V → Bool × V
  report_new_cells [] pi v = (true, v)
  report_new_cells (new_cell_begin ∷ rest) pi v =
      let told = visitor.refine_new_cell pi new_cell_begin refine_new_cell_type v in
      let more = report_new_cells rest pi told.1 in
      if told.0 then more else (false, visitor.refine_abort pi told.1)

module _ {E H V : Type 0} (g : Graph E) (sorter : EdgeHandler E H) (visitor : Visitor V)
    (t : IntType) where
  abbrev pub queue_parts : ℕ → ℕ → ℕ → RefineState H → Bool × V → Option (Bool × RunState H V)
  queue_parts cell cell_end refiner_begin s (false, v) =
      some (false, record { state = s; visitor = v; result = RefinementResult.changed })
  queue_parts cell cell_end refiner_begin s (true, v) = do
    i_data ← add_refiner_cells t s.pi cell s.i_data
    some (
      true,
      record {
        state = record s { i_data = i_data };
        visitor = visitor.refine_cell_split_end s.pi refiner_begin cell cell_end v;
        result = RefinementResult.changed;
      },
    )

  -- What follows the search for the split positions, which are the list.
  abbrev pub split_refinee :
      ℕ → ℕ → ℕ → List ℕ → RefineState H → RunState H V → Option (Bool × RunState H V)
  split_refinee cell cell_end refiner_begin [] s r =
      let told =
        visitor.refine_quotient_edge s.pi refiner_begin cell (get_cell_data s cell).hit_count
          r.visitor in
      some (told.0, record r { state = s; visitor = told.1 })
  split_refinee cell cell_end refiner_begin (new ∷ more) s r =
      let begun = visitor.refine_cell_split_begin s.pi refiner_begin cell cell_end r.visitor in
      let pi = split_at cell (new ∷ more) s.pi in
      queue_parts cell cell_end refiner_begin (record s { pi = pi })
        (report_new_cells visitor (new ∷ more) pi begun)

  unfoldable pub handle_refinee : ℕ → ℕ → ℕ → Bool → RunState H V → Option (Bool × RunState H V)
  unfolding find_splits add_refiner_cells split_at report_new_cells
  handle_refinee cell cell_end refiner_begin is_refiner_singleton r = do
    s ← find_splits sorter is_refiner_singleton cell cell_end r.state
    split_refinee cell cell_end refiner_begin s.i_data.refined_beginnings s r

  -- `clear_refinee_data`, for the refinees before and from `refinee_mid`.
  abbrev pub clear_singleton_data :
      List RefineeCell → List RefineeCell → RefineState H → RefineState H
  clear_singleton_data before after s = record s {
    i_data = foldl clear_hit_count s.i_data s.i_data.refinee_cells;
    handler =
        foldl (λ h rp. sorter.clear_cell_singleton_refiner_aborted rp.first rp.last h)
          (foldl (λ h rp. sorter.clear_cell_singleton_refiner rp.first rp.last h) s.handler before)
          after;
  }

  -- The loop over the refinees: `before` have been handled.
  unfoldable pub handle_refinees :
      ℕ → List RefineeCell → List RefineeCell → RunState H V → Option (Bool × RunState H V)
  unfolding handle_refinee
  handle_refinees refiner_begin before [] r =
      some (true, record r { state = clear_singleton_data before [] r.state })
  handle_refinees refiner_begin before (rp ∷ rest) r = do
    handled ← handle_refinee rp.first rp.last refiner_begin true r
    let more = handle_refinees refiner_begin (before ++ rp ∷ []) rest handled.1 in
        if handled.0
        then more
        else some (
          false,
          record (handled.1) {
            state = clear_singleton_data (before ++ rp ∷ []) rest handled.1.state;
          },
        )

  abbrev pub reset_cells_of : Bool → RunState H V → Option (Bool × RunState H V)
  reset_cells_of false r = some (false, r)
  reset_cells_of true r = do
    pi ← reset_cell_beginnings r.state.i_data.refinee_cells r.state.pi
    some (true, record r { state = record (r.state) { pi = pi } })

  abbrev pub finish_refiner : ℕ → ℕ → Bool × RunState H V → Option (Bool × RunState H V)
  finish_refiner refiner_begin refiner_end (false, r) = some (false, r)
  finish_refiner refiner_begin refiner_end (true, r) =
      let told = visitor.refine_refiner_done r.state.pi refiner_begin refiner_end r.visitor in
      reset_cells_of told.0 (record r { visitor = told.1 })

  unfoldable pub refine_with_singleton_cell : ℕ → ℕ → RunState H V → Option (Bool × RunState H V)
  unfolding handle_refinees count_neighbours_from_singleton reset_cell_beginnings sort_refinees
  refine_with_singleton_cell refiner_begin refiner_end r =
      let cleared : RefineState H = record (r.state) {
        i_data = record (r.state.i_data) { refinee_cells = [] };
      } in
      let counted = count_neighbours_from_singleton g sorter refiner_begin cleared in
      let sorted = record counted {
        i_data = record (counted.i_data) {
          refinee_cells = sort_refinees counted.i_data.refinee_cells;
        };
      } in
      handle_refinees refiner_begin [] sorted.i_data.refinee_cells (record r { state = sorted })
      >>= finish_refiner refiner_begin refiner_end

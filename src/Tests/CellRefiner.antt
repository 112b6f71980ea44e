-- ===== src/Tests/CellRefiner.antt =====
-- WL_1.hpp: runs of `refine` and of the analysis of the refinees.
use graph_canon.Base.{
  ℕ, ◌≡◌, refl, List, [], ◌∷◌, true, false, some, none, Option, ◌==◌, if◌then◌else◌,
}
use graph_canon.Partition.{unit_partition}
use graph_canon.Refine.{InstanceData}
use graph_canon.Refine.CellRefiner.{refine, analyse_refinees}
use graph_canon.Refine.Refinee.{RunState, RefinementResult}
use graph_canon.SearchTree.{child_partition}
use graph_canon.Tests.Refinement.{no_data, data_at, star, counting, following, unsigned_32, start}

-- The refinement of the child: the partition of the parts of the star, and no cell is left in the queue.
abbrev summary : Option (RefinementResult × RunState ℕ ℕ) → List ℕ
summary none = []
summary (some (result, r)) =
    r.state.pi.num_cells
    ∷ r.state.pi.next_cell_begin 0
    ∷ r.state.pi.next_cell_begin 1
    ∷ r.state.pi.next_cell_begin 3
    ∷ (if (r.state.i_data.cell_data 0).is_refiner then 1 else 0)
    ∷ r.state.i_data.refiner_cells

refine_run :
    summary (refine star counting following unsigned_32 false false 10 (some 3) start)
    ≡ 3 ∷ 1 ∷ 3 ∷ 4 ∷ 0 ∷ 3 ∷ 0 ∷ []
unfolding unit_partition child_partition refine
refine_run = refl

-- Four refinees: of cell 0 both vertices are hit once, of cell 2 one vertex, of cell 5 one vertex twice,
-- and of cell 9 one vertex once and one twice.
abbrev four_refinees : InstanceData
four_refinees = record (data_at []) {
  refinee_cells =
      record { first = 0; last = 2 }
      ∷ record { first = 2; last = 5 }
      ∷ record { first = 5; last = 9 }
      ∷ record { first = 9; last = 12 }
      ∷ [];
  cell_data = λ c.
      if c == 0
      then record no_data { hit_count = 2; max = 1; max_count = 2; non_zero_count = 2 }
      else if c == 2
      then record no_data { hit_count = 1; max = 1; max_count = 1; non_zero_count = 1 }
      else if c == 5
      then record no_data { hit_count = 2; max = 2; max_count = 1; non_zero_count = 1 }
      else record no_data { hit_count = 3; max = 2; max_count = 1; non_zero_count = 2 };
}

analyse_refinees_run :
    ((analyse_refinees unsigned_32 four_refinees).total_hit_count ≡ 8)
    × ((analyse_refinees unsigned_32 four_refinees).zeroes_to_skip ≡ 6)
    × ((analyse_refinees unsigned_32 four_refinees).redo_neighbours ≡ true)
unfolding analyse_refinees
analyse_refinees_run = (refl, refl, refl)

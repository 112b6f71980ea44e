-- ===== src/Refine/Analysis.antt =====
-- WL_1.hpp: the analysis of the refinees of a cell.
use graph_canon.Base.{ℕ, ◌+◌, ◌-◌, ◌≡◌, ◌==◌, if◌then◌else◌, ◌↔◌, List, [], ◌∷◌, false, All}
use graph_canon.Base.Int.{IntType}
use graph_canon.Refine.{InstanceData, CellData, RefineeCell}
use graph_canon.Refine.CellRefiner.{Analysis, analyse, is_partitioned}
use graph_canon.Refine.RefineeCells.{IsRefinee}
use graph_canon.Refine.Classification.{IsPartitioning, IsClassified}

-- The sum of the counts of hits over the refinees.
unfoldable pub sum_hits : (ℕ → CellData) → List RefineeCell → ℕ
sum_hits cell_data [] = 0
sum_hits cell_data (r ∷ rs) = (cell_data r.first).hit_count + sum_hits cell_data rs

-- The entries that are zero in the refinees that are not hit alike, as far as they are to be skipped.
unfoldable pub sum_zeroes : (ℕ → CellData) → List RefineeCell → ℕ
sum_zeroes cell_data [] = 0
sum_zeroes cell_data (r ∷ rs) =
    let rest = sum_zeroes cell_data rs in
    if (cell_data r.first).max_count == r.last - r.first
    then rest
    else (r.last - r.first - (cell_data r.first).non_zero_count) + rest

-- Each refinee of `rs` has been analysed on its own from the data of `a`.
record IsFolded (t : IntType) (a : Analysis) (rs : List RefineeCell) (b : Analysis) : Type 0 where
  refinees : b.i_data.refinee_cells ≡ a.i_data.refinee_cells
  counters : (v : ℕ) → b.i_data.counters v ≡ a.i_data.counters v
  others : (c : ℕ) → ¬ IsRefinee c rs → b.i_data.cell_data c ≡ a.i_data.cell_data c
  analysed :
      All
        (λ r.
          b.i_data.cell_data r.first ≡ analyse t (r.last - r.first) (a.i_data.cell_data r.first))
        rs
  total : b.total_hit_count ≡ a.total_hit_count + sum_hits a.i_data.cell_data rs
  zeroes : b.zeroes_to_skip ≡ a.zeroes_to_skip + sum_zeroes a.i_data.cell_data rs
  redo : (b.redo_neighbours ≡ false) ↔ (
      (a.redo_neighbours ≡ false)
      × All (λ r. is_partitioned (b.i_data.cell_data r.first).type ≡ false) rs)

-- What the analysis of the data `d` comes to: each refinee is classified by its own data and size, the
-- other cells are as before, and the totals and the sign for a redo follow from the data before.
pub record IsAnalysed (d : InstanceData) (b : Analysis) : Type 0 where
  pub refinees : b.i_data.refinee_cells ≡ d.refinee_cells
  pub counters : (v : ℕ) → b.i_data.counters v ≡ d.counters v
  pub others : (c : ℕ) → ¬ IsRefinee c d.refinee_cells → b.i_data.cell_data c ≡ d.cell_data c
  pub classified :
      All
        (λ r. IsClassified (r.last - r.first) (d.cell_data r.first) (b.i_data.cell_data r.first))
        d.refinee_cells
  pub total : b.total_hit_count ≡ sum_hits d.cell_data d.refinee_cells
  pub zeroes : b.zeroes_to_skip ≡ sum_zeroes d.cell_data d.refinee_cells
  pub redo :
      (b.redo_neighbours ≡ false)
      ↔ All (λ r. ¬ IsPartitioning (r.last - r.first) (d.cell_data r.first)) d.refinee_cells

-- ===== src/TargetCell/Discrete.antt =====
-- A partition is discrete when its cells are single vertices. The code tests this by `get_num_cells()`.
use graph_canon.Base.{
  ℕ, zero, suc, ◌+◌, ◌<◌, ◌≡◌, ◌≢◌, ◌↔◌, arith, not, ◌==◌, count_below-full, count_below-all, ◌∙◌,
  sym, subst,
}
use graph_canon.Partition.{Partition}
use graph_canon.Partition.Cells.{IsCells}

abbrev pub IsDiscrete : Partition → Type 0
IsDiscrete pi = (i : ℕ) → i < pi.n → pi.next_cell_begin i ≢ 0 → pi.next_cell_begin i ≡ i + 1

begins_all :
    (pi : Partition) → IsCells pi → IsDiscrete pi → (i : ℕ) → i < pi.n → pi.next_cell_begin i ≢ 0
begins_all pi h d zero l = h.first l
begins_all pi h d (suc i) l =
    let ne = begins_all pi h d i (omega arith) in
    let e : pi.next_cell_begin i ≡ suc i = omega (arith, d i (omega arith) ne) in
    subst (λ k. pi.next_cell_begin k ≢ 0) e (h.next i (omega arith) ne (omega arith))

-- The count of cells is `n` exactly when every cell is a single vertex.
pub IsDiscrete-iff : (pi : Partition) → IsCells pi → IsDiscrete pi ↔ (pi.num_cells ≡ pi.n)
IsDiscrete-iff pi h = (
  λ d.
      h.counted
      ∙ count_below-all pi.n (λ i. not (pi.next_cell_begin i == 0))
          (λ i l. ground (arith, begins_all pi h d i l)),
  λ e i l ne.
      let full =
        count_below-full pi.n (λ j. not (pi.next_cell_begin j == 0)) (i + 1) (sym h.counted ∙ e) in
      ground (arith, h.after i, h.inside i, h.gap i (i + 1), full),
)

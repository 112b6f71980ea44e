-- ===== src/Refine/Equitable.antt =====
-- WL_1.hpp: the partition that the loop over the refinees leaves, cell by cell.
use graph_canon.Base.{
  ℕ, ◌+◌, ◌-◌, ◌≤◌, ◌<◌, ◌≡◌, ◌≢◌, ◌⊎◌, inl, inr, sym, ap, ◌∙◌, arith, List, [], ◌∷◌, eq-cases, All,
}
use graph_canon.Partition.{Partition}
use graph_canon.Partition.Cells.{IsPartition}
use graph_canon.Partition.Membership.{IsMembershipOn}
use graph_canon.Partition.Position.{IsWithin, index-IsWithin}
use graph_canon.Partition.Walk.{next-IsPosition}
use graph_canon.Refine.{RefineState, RefineeCell}
use graph_canon.Refine.RefineeCells.{IsRefinee, IsWholeCell}
use graph_canon.Refine.Reset.{IsOutside, IsOldCell}
use graph_canon.Refine.Separation.{IsSeparating}

outside-refinee :
    (base : Partition) (rs : List RefineeCell) (c home : ℕ)
    → All (IsWholeCell base) rs
    → IsOutside rs c
    → IsRefinee home rs
    → (c ≤ home) ⊎ (base.next_cell_begin home ≤ c)
outside-refinee base [] c home whole out i = absurd i
outside-refinee base (r ∷ rs) c home whole out (inl e) = elim (out.0) [
  | inl l ↦ inl (omega (arith, e))
  | inr u ↦ inr (omega (arith, ap (λ x. base.next_cell_begin x) e, whole.0.2))
]
outside-refinee base (r ∷ rs) c home whole out (inr i) =
    outside-refinee base rs c home whole.1 out.1 i

module _ {H : Type 0} (base : Partition) (hit : ℕ → ℕ) (rs : List RefineeCell) (w : RefineState H)
    (valid : IsPartition base) (sep : IsSeparating base hit rs [] w) where
  -- A new cell does not go beyond the old cell in which it begins.
  pub new_cell-le :
      (c home : ℕ)
      → c < base.n
      → w.pi.next_cell_begin c ≢ 0
      → IsWithin base home c
      → w.pi.next_cell_begin c ≤ base.next_cell_begin home
  new_cell-le c home l ne within =
      let end = base.next_cell_begin home in
      ground (
        arith,
        next-IsPosition base home valid.cells within.below within.begins,
        sep.old end,
        sep.cells.gap c end,
        sep.cells.inside c,
        sep.size,
        within.upper,
      )

  pub refinees-AreOld :
      (qs : List RefineeCell) → All (IsWholeCell base) qs → All (IsOldCell w.pi) qs
  refinees-AreOld [] whole = tt
  refinees-AreOld (q ∷ qs) ((below, begins, last), whole) = (
    (
      omega (arith, sep.size),
      sep.old q.first begins,
      omega (arith, last, valid.cells.after q.first below begins),
      rw last (
          ground (
            arith,
            next-IsPosition base q.first valid.cells below begins,
            sep.size,
            sep.old (base.next_cell_begin q.first),
          )),
    ),
    refinees-AreOld qs whole,
  )

  pub separated-IsMembershipOn :
      All (IsWholeCell base) rs
      → ((c : ℕ) → hit c ≢ 0 → IsRefinee c rs)
      → IsMembershipOn (IsOutside rs) w.pi
  separated-IsMembershipOn whole listed c i out l ne lo hi =
      let (home, within) = index-IsWithin base c valid.cells (omega (arith, sep.size)) in
      let le = new_cell-le c home (omega (arith, sep.size)) ne within in
      let same : c ≡ home = elim (eq-cases (hit home) 0) [
        | inl zero ↦ ground (
          arith,
          sep.untouched home c within.below within.begins (inr zero) within.lower within.upper,
          valid.cells.gap home c,
          within.below,
          within.begins,
          within.lower,
          within.upper,
        )
        | inr some_hit ↦ ground (
          arith,
          outside-refinee base rs c home whole out (listed home some_hit),
          within.lower,
          within.upper,
        )
      ] in
      ap (λ x. w.pi.cell_from_v_idx x) (sep.element i)
      ∙ sep.cell_of (base.elements i)
      ∙ valid.membership home i within.below within.begins (omega (arith, same)) (omega arith)
      ∙ sym same

  -- A new cell has no index before and after the first of the last `hit` vertices.
  pub separated-same_side :
      (c i j home : ℕ)
      → c < base.n
      → w.pi.next_cell_begin c ≢ 0
      → c ≤ i
      → i < w.pi.next_cell_begin c
      → c ≤ j
      → j < w.pi.next_cell_begin c
      → IsWithin base home c
      → home + hit home ≤ base.next_cell_begin home
      → base.next_cell_begin home ≤ i + hit home
      → base.next_cell_begin home ≤ j + hit home
  separated-same_side c i j home l ne li ui lj uj within fits h =
      let le = new_cell-le c home l ne within in
      let mid = base.next_cell_begin home - hit home in
      elim (eq-cases (hit home) 0) [
        | inl zero ↦ absurd (omega arith)
        | inr some_hit ↦ ground (
          arith,
          sep.done home within.below within.begins some_hit (λ i. i),
          sep.cells.gap c mid,
          sep.size,
          within.lower,
        )
      ]

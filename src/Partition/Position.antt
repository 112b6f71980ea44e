-- ===== src/Partition/Position.antt =====
-- partition.hpp: every index stands in a cell, and `cell_from_v_idx` finds it.
use graph_canon.Base.{ℕ, zero, suc, ◌≤◌, ◌<◌, ◌≡◌, ◌≢◌, inl, inr, arith, lt-cases, ap, ◌∙◌, sym}
use graph_canon.Partition.{Partition}
use graph_canon.Partition.Cells.{IsCells, IsPartition}

-- The cell `c` contains the index `i`.
pub record IsWithin (pi : Partition) (c i : ℕ) : Type 0 where
  pub below : c < pi.n
  pub begins : pi.next_cell_begin c ≢ 0
  pub lower : c ≤ i
  pub upper : i < pi.next_cell_begin c

pub index-IsWithin : (pi : Partition) (i : ℕ) → IsCells pi → i < pi.n → (c : ℕ) × IsWithin pi c i
index-IsWithin pi zero h l = (
  0,
  record { below = l; begins = h.first l; lower = omega arith; upper = h.after 0 l (h.first l) },
)
index-IsWithin pi (suc i) h l =
    let (c, w) = index-IsWithin pi i h (omega arith) in
    elim (lt-cases (suc i) (pi.next_cell_begin c)) [
      | inl stays ↦ (
        c,
        record {
          below = w.below;
          begins = w.begins;
          lower = omega (arith, w.lower);
          upper = stays;
        },
      )
      | inr over ↦
          let at : pi.next_cell_begin c ≡ suc i = omega (arith, w.upper) in
          let nz : pi.next_cell_begin (suc i) ≢ 0 = ground (arith, h.next c w.below w.begins, at) in
          (
            suc i,
            record { below = l; begins = nz; lower = omega arith; upper = h.after (suc i) l nz },
          )
    ]

-- `cell_from_v_idx` gives the cell that contains the vertex.
pub vertex-IsWithin :
    (pi : Partition) (v : ℕ)
    → IsPartition pi
    → v < pi.n
    → IsWithin pi (pi.cell_from_v_idx v) (pi.inverse v)
vertex-IsWithin pi v h l =
    let i = pi.inverse v in
    let (c, w) = index-IsWithin pi i h.cells (h.inverse.inverse_lt v l) in
    let e : pi.cell_from_v_idx v ≡ c =
      ap (λ x. pi.cell_from_v_idx x) (sym (h.inverse.element-inverse v l))
      ∙ h.membership c i w.below w.begins w.lower w.upper in
    rw e w

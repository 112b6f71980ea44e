-- ===== src/Refine/Rearranged.antt =====
-- WL_1.hpp: moving vertices within their cells.
use graph_canon.Base.{ℕ, ◌≡◌, inl, inr, refl, arith, true, false, eq-cases, if◌then◌else◌, ◌==◌}
use graph_canon.Partition.{Partition, swap_elements}
use graph_canon.Partition.Cells.{IsPartition}
use graph_canon.Partition.Inverse.{swap_elements-IsInverse, swap_elements-IsPartition}
use graph_canon.Partition.Position.{IsWithin}
use graph_canon.Refine.Count.{move_element}

-- The cells of `t` are those of `pi`, with the same vertices in each.
pub record IsRearranged (pi t : Partition) : Type 0 where
  pub valid : IsPartition t
  pub size : t.n ≡ pi.n
  pub count : t.num_cells ≡ pi.num_cells
  pub next : (i : ℕ) → t.next_cell_begin i ≡ pi.next_cell_begin i
  pub cell_of : (v : ℕ) → t.cell_from_v_idx v ≡ pi.cell_from_v_idx v

-- The callback's conditional swap is a swap, also for equal positions.
pub move_element-IsRearranged :
    (a b cell : ℕ) (pi : Partition)
    → IsPartition pi
    → IsWithin pi cell a
    → IsWithin pi cell b
    → IsRearranged pi (move_element a b pi)
      × ((i : ℕ)
          → (move_element a b pi).elements i
            ≡ (if i == a then pi.elements b else if i == b then pi.elements a else pi.elements i))
unfolding swap_elements
move_element-IsRearranged a b cell pi h wa wb =
    let valid =
      swap_elements-IsPartition a b cell pi h wa.below wa.begins wa.lower wa.upper wb.lower
        wb.upper in
    let inside = h.cells.inside cell wa.below wa.begins in
    let values =
      (swap_elements-IsInverse a b pi (omega (arith, inside, wa.upper))
        (omega (arith, inside, wb.upper)) h.inverse).1 in
    elim (eq-cases a b) [
      | inl e ↦
          let test : (a == b) ≡ true = ground arith in
          rw test (
            record { valid = h; size = refl; count = refl; next = λ i. refl; cell_of = λ v. refl },
            λ i. ground arith,
          )
      | inr ne ↦
          let test : (a == b) ≡ false = ground arith in
          rw test (
            record {
              valid = valid;
              size = refl;
              count = refl;
              next = λ i. refl;
              cell_of = λ v. refl;
            },
            values,
          )
    ]

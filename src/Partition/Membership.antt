-- ===== src/Partition/Membership.antt =====
-- partition.hpp: repairing `cell_from_v_idx` after a split, one cell at a time.
use graph_canon.Base.{
  ℕ, ◌≤◌, ◌<◌, ◌≡◌, ◌≢◌, ◌⊎◌, inl, inr, arith, List, eq-cases, ap, ◌∙◌, sym, count_below-congr, not,
  ◌==◌,
}
use graph_canon.Partition.{Partition, set_cell_from_v_idx}
use graph_canon.Partition.Cells.{IsCells, IsInverse, IsPartition, same_cell}
use graph_canon.Partition.Inverse.{set_cell_from_v_idx-IsCellSet}
use graph_canon.Partition.Split.{IsSplit}

-- `cell_from_v_idx` is right for the cells that satisfy `P`.
abbrev pub IsMembershipOn : (ℕ → Type 0) → Partition → Type 0
IsMembershipOn P pi =
    (cell i : ℕ)
    → P cell
    → cell < pi.n
    → pi.next_cell_begin cell ≢ 0
    → cell ≤ i
    → i < pi.next_cell_begin cell
    → pi.cell_from_v_idx (pi.elements i) ≡ cell

-- The partition but for `cell_from_v_idx` is that of another.
pub record IsSameCells (pi t : Partition) : Type 0 where
  pub size : t.n ≡ pi.n
  pub count : t.num_cells ≡ pi.num_cells
  pub element : (i : ℕ) → t.elements i ≡ pi.elements i
  pub inverse : (v : ℕ) → t.inverse v ≡ pi.inverse v
  pub next : (i : ℕ) → t.next_cell_begin i ≡ pi.next_cell_begin i

pub set_cell-IsSameCells :
    (k : ℕ) (pi : Partition) → k ≤ pi.next_cell_begin k → IsSameCells pi (set_cell_from_v_idx k pi)
set_cell-IsSameCells k pi le =
    let s = set_cell_from_v_idx-IsCellSet k pi le in
    record {
      size = s.size;
      count = s.count;
      element = s.element;
      inverse = s.inverse;
      next = s.next;
    }

-- The same elements with the same inverse.
pub IsSameParts-IsInverse :
    (pi t : Partition)
    → t.n ≡ pi.n
    → ((i : ℕ) → t.elements i ≡ pi.elements i)
    → ((v : ℕ) → t.inverse v ≡ pi.inverse v)
    → IsInverse pi
    → IsInverse t
IsSameParts-IsInverse pi t size element inverse h = record {
  element_lt = λ i l. ground (arith, size, element i, h.element_lt i);
  inverse_lt = λ v l. ground (arith, size, inverse v, h.inverse_lt v);
  inverse-element =
      λ i l. ground (arith, size, element i, inverse (pi.elements i), h.inverse-element i);
  element-inverse =
      λ v l. ground (arith, size, inverse v, element (pi.inverse v), h.element-inverse v);
}

pub IsSameCells-IsInverse : (pi t : Partition) → IsSameCells pi t → IsInverse pi → IsInverse t
IsSameCells-IsInverse pi t s = IsSameParts-IsInverse pi t s.size s.element s.inverse

pub IsSameCells-IsCells : (pi t : Partition) → IsSameCells pi t → IsCells pi → IsCells t
IsSameCells-IsCells pi t s h = record {
  first = ground (arith, s.size, s.next 0, h.first);
  after = λ i l ne. ground (arith, s.size, s.next i, h.after i);
  inside = λ i l ne. ground (arith, s.size, s.next i, h.inside i);
  next = λ i l ne m. ground (arith, s.size, s.next i, s.next (pi.next_cell_begin i), h.next i);
  gap = λ i j l ne a b. ground (arith, s.size, s.next i, s.next j, h.gap i j);
  counted =
      s.count
      ∙ h.counted
      ∙ sym (
          rw s.size (
            count_below-congr pi.n (λ i. not (t.next_cell_begin i == 0))
              (λ i. not (pi.next_cell_begin i == 0)) (λ i l. ap (λ x. not (x == 0)) (s.next i))));
}

pub set_cell-IsMembershipOn :
    (P : ℕ → Type 0) (k : ℕ) (pi : Partition)
    → IsCells pi
    → IsInverse pi
    → k < pi.n
    → pi.next_cell_begin k ≢ 0
    → IsMembershipOn P pi
    → IsMembershipOn (λ c. P c ⊎ (c ≡ k)) (set_cell_from_v_idx k pi)
set_cell-IsMembershipOn P k pi h v hk nk m cell i p l ne lo hi =
    let s = set_cell_from_v_idx-IsCellSet k pi (omega (arith, h.after k hk nk)) in
    elim (eq-cases cell k) [
      | inl e ↦ ground (arith, s.element i, s.done i, s.next cell)
      | inr other ↦
          let old : P cell = elim p [ inl a ↦ a | inr b ↦ absurd (other b) ] in
          let here = s.size in
          let size = s.next cell in
          let apart : (j : ℕ) → k ≤ j → j < pi.next_cell_begin k → pi.elements j ≢ pi.elements i =
            λ j a b e. other (
              same_cell pi cell k i h (omega arith) (omega arith) hk nk lo (omega arith)
                (ground
                  (arith, h.inside cell, h.inside k, v.inverse-element i, v.inverse-element j))
                (ground
                  (arith, h.inside cell, h.inside k, v.inverse-element i, v.inverse-element j))) in
          ap (λ x. (set_cell_from_v_idx k pi).cell_from_v_idx x) (s.element i)
          ∙ s.kept (pi.elements i) apart
          ∙ m cell i old (omega arith) (omega arith) lo (omega arith)
    ]

-- After a split `cell_from_v_idx` is right for the first part and the other cells.
pub split-IsMembershipOn :
    (cell : ℕ) (xs : List ℕ) (pi t : Partition)
    → IsPartition pi
    → cell < pi.n
    → pi.next_cell_begin cell ≢ 0
    → IsSplit cell xs pi t
    → IsCells t
    → IsMembershipOn (λ c. (c ≤ cell) ⊎ (pi.next_cell_begin cell ≤ c)) t
split-IsMembershipOn cell xs pi t h hc nc s ht c i p l ne lo hi =
    let end = pi.next_cell_begin cell in
    let old = ap (λ x. t.cell_from_v_idx x) (s.element i) ∙ s.cell_of (pi.elements i) in
    elim (eq-cases c cell) [
      | inl e ↦
          let within : t.next_cell_begin cell ≤ end = ground (
            arith,
            s.size,
            h.cells.inside cell,
            h.cells.next cell,
            ht.inside cell,
            s.outside end,
            ht.gap cell end,
            h.cells.after cell,
          ) in
          old
          ∙ h.membership cell i hc nc (omega arith)
              (omega (arith, within, ap (λ x. t.next_cell_begin x) e))
          ∙ sym e
      | inr other ↦
          let away : (c < cell) ⊎ (end ≤ c) = elim p [
            | inl a ↦ inl (omega arith)
            | inr b ↦ inr b
          ] in
          let same = s.outside c away in
          old ∙ h.membership c i (omega (arith, s.size)) (omega arith) lo (omega arith)
    ]

-- ===== src/Partition/Constructors.antt =====
-- partition.hpp: what the two constructors build.
use graph_canon.Base.{
  ℕ, ◌<◌, ◌≡◌, ◌≢◌, refl, arith, not, ◌==◌, false, count_below-congr, count_below-none,
  count_below-insert, eq-cases, inl, inr,
}
use graph_canon.Base.Loops.{for_up_inv}
use graph_canon.Partition.{
  Partition, Storage, fresh, place_all, mark_unit, unit_partition, copy_partition,
  put_element_on_index,
}
use graph_canon.Partition.Cells.{IsPartition, cell_count}

-- What the loop over `put_element_on_index(i, i)` has done before round `k`.
record IsPlaced (k n : ℕ) (pi : Partition) : Type 0 where
  size : pi.n ≡ n
  cells : pi.num_cells ≡ 1
  element : (i : ℕ) → i < k → pi.elements i ≡ i
  position : (i : ℕ) → i < k → pi.inverse i ≡ i

place_all-IsPlaced :
    (start : Partition) → start.num_cells ≡ 1 → IsPlaced start.n start.n (place_all start)
unfolding place_all put_element_on_index
place_all-IsPlaced start one =
    for_up_inv (λ k pi. IsPlaced k start.n pi) (λ i pi. put_element_on_index i i pi) start.n 0
      start.n start (omega arith)
      (λ i pi a b h. record {
        size = h.size;
        cells = h.cells;
        element = λ j l. ground (arith, h.element j);
        position = λ j l. ground (arith, h.position j);
      })
      (record {
        size = refl;
        cells = one;
        element = λ i l. absurd (omega arith);
        position = λ i l. absurd (omega arith);
      })

-- Where only index 0 begins a cell there is one cell, and none in an empty partition.
counted-unit :
    (pi : Partition)
    → (pi.n ≡ 0 → pi.num_cells ≡ 0)
    → (0 < pi.n → (pi.num_cells ≡ 1) × (pi.next_cell_begin 0 ≢ 0))
    → ((i : ℕ) → i < pi.n → i ≢ 0 → pi.next_cell_begin i ≡ 0)
    → pi.num_cells ≡ cell_count pi
counted-unit pi empty some rest = elim (eq-cases pi.n 0) [
  | inl e ↦ omega (
    arith,
    empty e,
    count_below-none pi.n (λ i. not (pi.next_cell_begin i == 0)) (λ i l. absurd (omega arith)),
  )
  | inr ne ↦
      let one = some (omega arith) in
      omega (
        arith,
        one.0,
        count_below-none pi.n (λ i. false) (λ i l. refl),
        count_below-insert pi.n 0 (λ i. false) (λ i. not (pi.next_cell_begin i == 0)) (omega arith)
            refl (ground (arith, one.1)) (λ i l m. ground (arith, rest i)),
      )
]

mark_unit-IsPartition : (pi : Partition) → IsPlaced pi.n pi.n pi → IsPartition (mark_unit pi)
unfolding mark_unit
mark_unit-IsPartition pi h = record {
  cells = record {
    first = ground arith;
    after = λ i l m. ground arith;
    inside = λ i l m. ground arith;
    next = λ i l m k. ground arith;
    gap = λ i j l m a b. ground arith;
    counted =
        counted-unit (mark_unit pi) (ground arith) (ground (arith, h.cells))
          (λ i l m. ground arith);
  };
  inverse = record {
    element_lt = λ i l. ground (arith, h.element i);
    inverse_lt = λ i l. ground (arith, h.position i);
    inverse-element = λ i l. ground (arith, h.element i, h.position i);
    element-inverse = λ i l. ground (arith, h.element i, h.position i);
  };
  membership = λ cell i l m a b. ground (arith, h.element i);
}

pub unit_partition-IsPartition : (n : ℕ) (raw : Storage) → IsPartition (unit_partition n raw)
unfolding unit_partition
unit_partition-IsPartition n raw =
    let placed = place_all-IsPlaced (fresh n raw) refl in
    mark_unit-IsPartition (place_all (fresh n raw)) (record {
      size = refl;
      cells = placed.cells;
      element = λ i l. placed.element i (omega (arith, placed.size));
      position = λ i l. placed.position i (omega (arith, placed.size));
    })

-- A copy of a valid partition is valid, and the same on the vertices and indices below `n`.
pub copy_partition-IsPartition :
    (other : Partition) (raw : Storage)
    → IsPartition other
    → IsPartition (copy_partition other raw)
      × ((i : ℕ)
          → i < other.n
          → ((copy_partition other raw).elements i ≡ other.elements i)
            × ((copy_partition other raw).next_cell_begin i ≡ other.next_cell_begin i))
unfolding copy_partition
copy_partition-IsPartition other raw h = (
  record {
    cells = record {
      first = ground (arith, h.cells.first);
      after = λ i l m. ground (arith, h.cells.after i);
      inside = λ i l m. ground (arith, h.cells.inside i);
      next = λ i l m k. ground (arith, h.cells.next i);
      gap = λ i j l m a b. ground (arith, h.cells.gap i j, h.cells.inside i);
      counted = ground (
        arith,
        h.cells.counted,
        count_below-congr other.n (λ i. not (other.next_cell_begin i == 0))
            (λ i. not ((copy_partition other raw).next_cell_begin i == 0)) (λ i l. ground arith),
      );
    };
    inverse = record {
      element_lt = λ i l. ground (arith, h.inverse.element_lt i);
      inverse_lt = λ i l. ground (arith, h.inverse.inverse_lt i);
      inverse-element = λ i l. ground (arith, h.inverse.element_lt i, h.inverse.inverse-element i);
      element-inverse = λ i l. ground (arith, h.inverse.inverse_lt i, h.inverse.element-inverse i);
    };
    membership = λ cell i l m a b.
        ground (arith, h.membership cell i, h.cells.inside cell, h.inverse.element_lt i);
  },
  λ i l. ground arith,
)

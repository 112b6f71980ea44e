-- ===== src/SearchTree/Individualization.antt =====
-- tree_node.hpp: the partition of a child is valid, and has exactly one more cell, which holds the
-- individualised vertex.
use graph_canon.Base.{
  ℕ, ◌+◌, ◌-◌, ◌≤◌, ◌<◌, ◌≡◌, ◌≢◌, ◌⊎◌, inl, inr, ◌↔◌, arith, [], ◌∷◌, refl, ◌∙◌,
}
use graph_canon.Partition.{Partition, Storage, copy_partition, swap_elements, set_cell_from_v_idx}
use graph_canon.Partition.Cells.{IsPartition, IsInverse}
use graph_canon.Partition.Constructors.{copy_partition-IsPartition}
use graph_canon.Partition.Inverse.{swap_elements-IsInverse, swap_elements-IsPartition}
use graph_canon.Partition.Split.{split_at-IsCells, split_at-IsSplit, AreSplits}
use graph_canon.Partition.Membership.{
  set_cell-IsMembershipOn, set_cell-IsSameCells, IsSameCells-IsCells, IsSameCells-IsInverse,
  IsSameParts-IsInverse, split-IsMembershipOn,
}
use graph_canon.Partition.Splitter.{split_at}
use graph_canon.SearchTree.{child_partition}

-- A split at one position, and the cell of its second part recorded, keep a partition valid.
pub record IsSplitOff (cell x : ℕ) (pi t : Partition) : Type 0 where
  pub partition : IsPartition t
  pub size : t.n ≡ pi.n
  pub count : t.num_cells ≡ pi.num_cells + 1
  pub element : (i : ℕ) → t.elements i ≡ pi.elements i
  pub begins : (j : ℕ) → (t.next_cell_begin j ≢ 0) ↔ ((pi.next_cell_begin j ≢ 0) ⊎ (j ≡ x))

split_at-IsSplitOff :
    (cell x : ℕ) (pi : Partition)
    → IsPartition pi
    → cell < pi.n
    → pi.next_cell_begin cell ≢ 0
    → cell < x
    → x + 1 ≡ pi.next_cell_begin cell
    → IsSplitOff cell x pi (set_cell_from_v_idx x (split_at cell (x ∷ []) pi))
split_at-IsSplitOff cell x pi h l ne lt last =
    let p = split_at cell (x ∷ []) pi in
    let splits : AreSplits cell (pi.next_cell_begin cell) (x ∷ []) = (lt, omega arith, tt) in
    let s = split_at-IsSplit cell (x ∷ []) pi (omega arith) splits in
    let c = split_at-IsCells cell (x ∷ []) pi h.cells l ne splits in
    let v : IsInverse p = IsSameParts-IsInverse pi p s.size s.element s.inverse h.inverse in
    let here : p.next_cell_begin x ≢ 0 = (s.begins x).1 (inr (inl refl)) in
    let small : x < p.n = ground (arith, s.size, h.cells.inside cell) in
    let le : x ≤ p.next_cell_begin x = omega (arith, c.after x small here) in
    let same = set_cell-IsSameCells x p le in
    let m =
      set_cell-IsMembershipOn (λ d. (d ≤ cell) ⊎ (pi.next_cell_begin cell ≤ d)) x p c v small here
        (split-IsMembershipOn cell (x ∷ []) pi p h l ne s c) in
    record {
      partition = record {
        cells = IsSameCells-IsCells p (set_cell_from_v_idx x p) same c;
        inverse = IsSameCells-IsInverse p (set_cell_from_v_idx x p) same v;
        membership = λ d i ld nd a b.
            let all : ((d ≤ cell) ⊎ (pi.next_cell_begin cell ≤ d)) ⊎ (d ≡ x) =
              ground (arith, same.size, same.next d, s.begins d, h.cells.gap cell d) in
            m d i all ld nd a b;
      };
      size = same.size ∙ s.size;
      count = omega (arith, same.count, s.count);
      element = λ i. same.element i ∙ s.element i;
      begins = λ j. ground (arith, same.next j, s.begins j);
    }

-- `t` is the partition of a child of a node with partition `pi` and target cell `cell`, for the vertex
-- at index `idx`.
pub record IsChildPartition (cell idx : ℕ) (pi t : Partition) : Type 0 where
  pub partition : IsPartition t
  pub size : t.n ≡ pi.n
  pub count : t.num_cells ≡ pi.num_cells + 1
  pub individualized : t.elements (pi.next_cell_begin cell - 1) ≡ pi.elements idx
  pub moved : t.elements idx ≡ pi.elements (pi.next_cell_begin cell - 1)
  pub kept :
      (i : ℕ) → i < pi.n → i ≢ idx → i ≢ pi.next_cell_begin cell - 1 → t.elements i ≡ pi.elements i
  pub begins :
      (j : ℕ)
      → j < pi.n
      → (t.next_cell_begin j ≢ 0) ↔ ((pi.next_cell_begin j ≢ 0) ⊎ (j ≡ pi.next_cell_begin cell - 1))

-- For a valid partition and a vertex of a cell of more than one vertex the partition of the child is
-- valid. It has one more cell, which begins at the last index of the target cell and holds the
-- individualised vertex; the vertex that stood there takes its place and all others stay.
pub child_partition-IsChildPartition :
    (raw : Storage) (pi : Partition) (cell idx : ℕ)
    → IsPartition pi
    → cell < pi.n
    → pi.next_cell_begin cell ≢ 0
    → cell + 1 < pi.next_cell_begin cell
    → cell ≤ idx
    → idx < pi.next_cell_begin cell
    → IsChildPartition cell idx pi (child_partition raw pi cell idx)
unfolding child_partition
child_partition-IsChildPartition raw pi cell idx h l ne two lo hi =
    let x = pi.next_cell_begin cell - 1 in
    let copied = copy_partition pi raw in
    let swapped = swap_elements x idx copied in
    let (valid, same) = copy_partition-IsPartition pi raw h in
    let end : copied.next_cell_begin cell ≡ pi.next_cell_begin cell = (same cell l).1 in
    let inside = h.cells.inside cell l ne in
    let nc : copied.next_cell_begin cell ≢ 0 = omega (arith, end) in
    let swapped_valid : IsPartition swapped =
      swap_elements-IsPartition x idx cell copied valid l nc (omega arith) (omega (arith, end)) lo
        (omega (arith, end)) in
    let values =
      (swap_elements-IsInverse x idx copied (omega arith) (omega arith) valid.inverse).1 in
    let off =
      split_at-IsSplitOff cell x swapped swapped_valid l nc (omega arith) (omega (arith, end)) in
    record {
      partition = off.partition;
      size = off.size;
      count = off.count;
      individualized = ground (arith, off.element x, values x, same idx, same x);
      moved = ground (arith, off.element idx, values idx, same x, same idx);
      kept = λ i a b c. ground (arith, off.element i, values i, same i);
      begins = λ j a. ground (arith, off.begins j, same j);
    }

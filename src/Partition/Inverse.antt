-- ===== src/Partition/Inverse.antt =====
-- partition.hpp: the operations that keep or restore `inverse` and `cell_from_v_idx`.
use graph_canon.Base.{ℕ, ◌-◌, ◌≤◌, ◌<◌, ◌≡◌, ◌≢◌, refl, arith, ◌==◌, if◌then◌else◌, update}
use graph_canon.Base.Loops.{for_up_inv}
use graph_canon.Partition.{Partition, swap_elements, reset_inverse, set_cell_from_v_idx}
use graph_canon.Partition.Cells.{IsInverse, IsPartition, IsCells-with, same_cell}

-- Swapping the elements of two valid indices exchanges exactly these two, and keeps `inverse` right.
pub swap_elements-IsInverse :
    (a b : ℕ) (pi : Partition)
    → a < pi.n
    → b < pi.n
    → IsInverse pi
    → IsInverse (swap_elements a b pi)
      × ((i : ℕ)
          → (swap_elements a b pi).elements i
            ≡ (if i == a then pi.elements b else if i == b then pi.elements a else pi.elements i))
unfolding swap_elements
swap_elements-IsInverse a b pi ha hb h = (
  record {
    element_lt = λ i l. ground (arith, h.element_lt i, h.element_lt a, h.element_lt b);
    inverse_lt = λ v l. ground (arith, h.inverse_lt v);
    inverse-element =
        λ i l. ground (arith, h.inverse-element i, h.inverse-element a, h.inverse-element b);
    element-inverse =
        λ v l. ground (arith, h.element-inverse v, h.inverse-element a, h.inverse-element b);
  },
  λ i. ground arith,
)

-- Within one cell a swap also keeps the cells and the cell of every vertex.
pub swap_elements-IsPartition :
    (a b cell : ℕ) (pi : Partition)
    → IsPartition pi
    → cell < pi.n
    → pi.next_cell_begin cell ≢ 0
    → cell ≤ a
    → a < pi.next_cell_begin cell
    → cell ≤ b
    → b < pi.next_cell_begin cell
    → IsPartition (swap_elements a b pi)
unfolding swap_elements
swap_elements-IsPartition a b cell pi h hc ne la ua lb ub =
    let size = h.cells.inside cell hc ne in
    record {
      cells = IsCells-with pi _ _ _ h.cells;
      inverse = (swap_elements-IsInverse a b pi (omega arith) (omega arith) h.inverse).0;
      membership = λ c i l m x y. ground (
        arith,
        h.membership c i,
        h.membership cell a,
        h.membership cell b,
        same_cell pi c cell i h.cells l m,
      );
    }

-- What `reset_inverse(begin, end)` has done before round `k`, or at the end for `k` = `end`.
pub record IsReset (begin end k : ℕ) (pi t : Partition) : Type 0 where
  pub size : t.n ≡ pi.n
  pub count : t.num_cells ≡ pi.num_cells
  pub element : (i : ℕ) → t.elements i ≡ pi.elements i
  pub next : (i : ℕ) → t.next_cell_begin i ≡ pi.next_cell_begin i
  pub cell : (v : ℕ) → t.cell_from_v_idx v ≡ pi.cell_from_v_idx v
  pub done : (i : ℕ) → begin ≤ i → i < k → t.inverse (pi.elements i) ≡ i
  pub kept :
      (v : ℕ) → ((i : ℕ) → begin ≤ i → i < end → pi.elements i ≢ v) → t.inverse v ≡ pi.inverse v

abbrev pub AreDistinct : ℕ → ℕ → Partition → Type 0
AreDistinct begin end pi =
    (i j : ℕ) → begin ≤ i → i < end → begin ≤ j → j < end → pi.elements i ≡ pi.elements j → i ≡ j

-- After `reset_inverse(begin, end)` the entry of every element in the range is its index, where the
-- elements of the range are distinct; the entries of other elements and all else are unchanged.
pub reset_inverse-IsReset :
    (begin end : ℕ) (pi : Partition)
    → begin ≤ end
    → AreDistinct begin end pi
    → IsReset begin end end pi (reset_inverse begin end pi)
unfolding reset_inverse
reset_inverse-IsReset begin end pi le distinct =
    for_up_inv (λ k t. IsReset begin end k pi t)
      (λ i t. record t { inverse = update t.inverse (t.elements i) i }) end begin (end - begin) pi
      (omega arith)
      (λ k t a b h. record {
        size = h.size;
        count = h.count;
        element = h.element;
        next = h.next;
        cell = h.cell;
        done = λ i l u. ground (arith, h.element k, h.done i, distinct i k);
        kept = λ v out. ground (arith, h.element k, out k, h.kept v out);
      })
      (record {
        size = refl;
        count = refl;
        element = λ i. refl;
        next = λ i. refl;
        cell = λ v. refl;
        done = λ i l u. absurd (omega arith);
        kept = λ v out. refl;
      })

-- What `set_cell_from_v_idx(cell)` has done before round `k`.
pub record IsCellSet (cell end k : ℕ) (pi t : Partition) : Type 0 where
  pub size : t.n ≡ pi.n
  pub count : t.num_cells ≡ pi.num_cells
  pub element : (i : ℕ) → t.elements i ≡ pi.elements i
  pub inverse : (v : ℕ) → t.inverse v ≡ pi.inverse v
  pub next : (i : ℕ) → t.next_cell_begin i ≡ pi.next_cell_begin i
  pub done : (i : ℕ) → cell ≤ i → i < k → t.cell_from_v_idx (pi.elements i) ≡ cell
  pub kept :
      (v : ℕ)
      → ((i : ℕ) → cell ≤ i → i < end → pi.elements i ≢ v)
      → t.cell_from_v_idx v ≡ pi.cell_from_v_idx v

-- After `set_cell_from_v_idx(cell)` the elements of that cell have it as their cell; the entries of
-- other elements and all else are unchanged.
pub set_cell_from_v_idx-IsCellSet :
    (cell : ℕ) (pi : Partition)
    → cell ≤ pi.next_cell_begin cell
    → IsCellSet cell
        (pi.next_cell_begin cell)
        (pi.next_cell_begin cell)
        pi
        (set_cell_from_v_idx cell pi)
unfolding set_cell_from_v_idx
set_cell_from_v_idx-IsCellSet cell pi le =
    let end = pi.next_cell_begin cell in
    for_up_inv (λ k t. IsCellSet cell end k pi t)
      (λ i t. record t { cell_from_v_idx = update t.cell_from_v_idx (t.elements i) cell }) end cell
      (end - cell) pi (omega arith)
      (λ k t a b h. record {
        size = h.size;
        count = h.count;
        element = h.element;
        inverse = h.inverse;
        next = h.next;
        done = λ i l u. ground (arith, h.element k, h.done i);
        kept = λ v out. ground (arith, h.element k, out k, h.kept v out);
      })
      (record {
        size = refl;
        count = refl;
        element = λ i. refl;
        inverse = λ v. refl;
        next = λ i. refl;
        done = λ i l u. absurd (omega arith);
        kept = λ v out. refl;
      })

pub reset_inverse-elements :
    (begin end : ℕ) (pi : Partition)
    → begin ≤ end
    → (i : ℕ) → (reset_inverse begin end pi).elements i ≡ pi.elements i
unfolding reset_inverse
reset_inverse-elements begin end pi le =
    for_up_inv (λ k t. (i : ℕ) → t.elements i ≡ pi.elements i)
      (λ i t. record t { inverse = update t.inverse (t.elements i) i }) end begin (end - begin) pi
      (omega arith) (λ k t a b h. h) (λ i. refl)

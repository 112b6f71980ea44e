-- ===== src/Partition/Cells.antt =====
-- What it means that the four arrays of partition.hpp describe an ordered partition.
use graph_canon.Base.{ℕ, ◌≤◌, ◌<◌, ◌≡◌, ◌≢◌, ◌==◌, not, count_below, arith, Array}
use graph_canon.Partition.{Partition}

-- An entry of `next_cell_begin` that is not 0 is the end of the cell that begins at its index.
abbrev pub IsCellBegin : Partition → ℕ → Type 0
IsCellBegin pi i = (i < pi.n) × (pi.next_cell_begin i ≢ 0)

abbrev pub cell_count : Partition → ℕ
cell_count pi = count_below pi.n (λ i. not (pi.next_cell_begin i == 0))

pub record IsCells (pi : Partition) : Type 0 where
  pub first : 0 < pi.n → pi.next_cell_begin 0 ≢ 0
  pub after : (i : ℕ) → i < pi.n → pi.next_cell_begin i ≢ 0 → i < pi.next_cell_begin i
  pub inside : (i : ℕ) → i < pi.n → pi.next_cell_begin i ≢ 0 → pi.next_cell_begin i ≤ pi.n
  pub next :
      (i : ℕ)
      → i < pi.n
      → pi.next_cell_begin i ≢ 0
      → pi.next_cell_begin i < pi.n
      → pi.next_cell_begin (pi.next_cell_begin i) ≢ 0
  pub gap :
      (i j : ℕ)
      → i < pi.n
      → pi.next_cell_begin i ≢ 0
      → i < j
      → j < pi.next_cell_begin i
      → pi.next_cell_begin j ≡ 0
  pub counted : pi.num_cells ≡ cell_count pi

-- `elements` and `inverse` are permutations of the numbers below `n`, each the inverse of the other.
pub record IsInverse (pi : Partition) : Type 0 where
  pub element_lt : (i : ℕ) → i < pi.n → pi.elements i < pi.n
  pub inverse_lt : (v : ℕ) → v < pi.n → pi.inverse v < pi.n
  pub inverse-element : (i : ℕ) → i < pi.n → pi.inverse (pi.elements i) ≡ i
  pub element-inverse : (v : ℕ) → v < pi.n → pi.elements (pi.inverse v) ≡ v

-- `cell_from_v_idx` gives each vertex the begin of the cell that it stands in.
abbrev pub IsMembership : Partition → Type 0
IsMembership pi =
    (cell i : ℕ)
    → cell < pi.n
    → pi.next_cell_begin cell ≢ 0
    → cell ≤ i
    → i < pi.next_cell_begin cell
    → pi.cell_from_v_idx (pi.elements i) ≡ cell

pub record IsPartition (pi : Partition) : Type 0 where
  pub cells : IsCells pi
  pub inverse : IsInverse pi
  pub membership : IsMembership pi

-- `IsCells` is about `n`, `next_cell_begin` and `num_cells` only.
pub IsCells-with :
    (pi : Partition) (e v c : Array)
    → IsCells pi
    → IsCells (record pi { elements = e; inverse = v; cell_from_v_idx = c })
IsCells-with pi e v c h = record {
  first = h.first;
  after = h.after;
  inside = h.inside;
  next = h.next;
  gap = h.gap;
  counted = h.counted;
}

-- An index stands in one cell only.
pub same_cell :
    (pi : Partition) (c d i : ℕ)
    → IsCells pi
    → c < pi.n
    → pi.next_cell_begin c ≢ 0
    → d < pi.n
    → pi.next_cell_begin d ≢ 0
    → c ≤ i
    → i < pi.next_cell_begin c
    → d ≤ i
    → i < pi.next_cell_begin d
    → c ≡ d
same_cell pi c d i h hc nc hd nd lc uc ld ud = ground (arith, h.gap c d, h.gap d c)

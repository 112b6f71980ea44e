-- ===== src/Partition/Split.antt =====
-- partition.hpp: splitting a cell keeps the partition valid and adds exactly the given begins.
use mathlib.Core.List.{foldl}
use graph_canon.Base.{
  ℕ, ◌+◌, ◌≤◌, ◌<◌, ◌≡◌, ◌≢◌, ◌⊎◌, ◌↔◌, refl, arith, List, [], ◌∷◌, not, ◌==◌, length,
  count_below-insert, count_below-congr, update, IsIn,
}
use graph_canon.Partition.{Partition}
use graph_canon.Partition.Cells.{IsCells}
use graph_canon.Partition.Splitter.{CellSplitter, split_cell, add_split, finish, split_at}

-- The positions at which the source allows `add_split`: ascending, inside the cell.
abbrev pub AreSplits : ℕ → ℕ → List ℕ → Type 0
AreSplits lo hi [] = Unit {0}
AreSplits lo hi (x ∷ xs) = (lo < x) × (x < hi) × AreSplits x hi xs

-- A splitter whose destructor would leave a valid partition if it ran now.
record IsSplitting (s : CellSplitter) : Type 0 where
  cells : IsCells (finish s)
  begin_lt : s.cell_begin < s.cell_end
  end_le : s.cell_end ≤ s.pi.n

split_cell-IsSplitting :
    (pi : Partition) (cell : ℕ)
    → IsCells pi
    → cell < pi.n
    → pi.next_cell_begin cell ≢ 0
    → IsSplitting (split_cell cell pi)
unfolding split_cell finish
split_cell-IsSplitting pi cell h l ne = record {
  cells = record {
    first = ground (arith, h.first);
    after = λ i a b. ground (arith, h.after i);
    inside = λ i a b. ground (arith, h.inside i);
    next = λ i a b c. ground (arith, h.next i);
    gap = λ i j a b c d. ground (arith, h.gap i j);
    counted = ground (
      arith,
      h.counted,
      count_below-congr pi.n (λ i. not (pi.next_cell_begin i == 0))
          (λ i. not (update pi.next_cell_begin cell (pi.next_cell_begin cell) i == 0))
          (λ i a. ground arith),
    );
  };
  begin_lt = h.after cell l ne;
  end_le = h.inside cell l ne;
}

-- One split inside the current part.
add_split-IsSplitting :
    (s : CellSplitter) (x : ℕ)
    → IsSplitting s
    → s.cell_begin < x
    → x < s.cell_end
    → IsSplitting (add_split s x)
unfolding add_split finish
add_split-IsSplitting s x h lo hi =
    let c = h.cells in
    let e = h.end_le in
    record {
      cells = record {
        first = ground (arith, c.first);
        after = λ i a b. ground (arith, c.after i);
        inside = λ i a b. ground (arith, c.inside i);
        next = λ i a b d. ground (arith, c.next i, c.next s.cell_begin);
        gap = λ i j a b d f. ground (
          arith,
          c.gap i j,
          c.gap i x,
          c.gap i s.cell_begin,
          c.gap s.cell_begin j,
          c.gap s.cell_begin i,
        );
        counted =
            let split = update (update s.pi.next_cell_begin s.cell_begin x) x s.cell_end in
            let whole = update s.pi.next_cell_begin s.cell_begin s.cell_end in
            ground (
              arith,
              c.counted,
              c.gap s.cell_begin x,
              count_below-insert s.pi.n x (λ i. not (whole i == 0)) (λ i. not (split i == 0))
                  (omega arith) (ground (arith, c.gap s.cell_begin x)) (ground arith)
                  (λ i a ne. ground arith),
            );
      };
      begin_lt = hi;
      end_le = e;
    }

add_splits-IsSplitting :
    (s : CellSplitter) (xs : List ℕ)
    → IsSplitting s
    → AreSplits s.cell_begin s.cell_end xs
    → IsSplitting (foldl add_split s xs)
add_splits-IsSplitting s [] h a = h
add_splits-IsSplitting s (x ∷ xs) h a =
    add_splits-IsSplitting (add_split s x) xs (add_split-IsSplitting s x h a.0 a.1)
      (unfold add_split in a.2)

-- Splitting a cell at ascending positions inside it leaves a valid description of the cells.
pub split_at-IsCells :
    (cell : ℕ) (xs : List ℕ) (pi : Partition)
    → IsCells pi
    → cell < pi.n
    → pi.next_cell_begin cell ≢ 0
    → AreSplits cell (pi.next_cell_begin cell) xs
    → IsCells (split_at cell xs pi)
unfolding split_at
split_at-IsCells cell xs pi h l ne a =
    (add_splits-IsSplitting (split_cell cell pi) xs (split_cell-IsSplitting pi cell h l ne) a).cells

-- What a run of `add_split` changes: the begins, their number, and nothing else.
record IsSplitBy (xs : List ℕ) (s t : CellSplitter) : Type 0 where
  size : t.pi.n ≡ s.pi.n
  count : t.pi.num_cells ≡ s.pi.num_cells + length xs
  element : (i : ℕ) → t.pi.elements i ≡ s.pi.elements i
  inverse : (v : ℕ) → t.pi.inverse v ≡ s.pi.inverse v
  cell_of : (v : ℕ) → t.pi.cell_from_v_idx v ≡ s.pi.cell_from_v_idx v
  end : t.cell_end ≡ s.cell_end
  begins :
      (j : ℕ)
      → ((finish t).next_cell_begin j ≢ 0) ↔ (((finish s).next_cell_begin j ≢ 0) ⊎ IsIn j xs)
  outside :
      (j : ℕ)
      → (j < s.cell_begin) ⊎ (s.cell_end ≤ j)
      → (finish t).next_cell_begin j ≡ (finish s).next_cell_begin j

add_splits-IsSplitBy :
    (s : CellSplitter) (xs : List ℕ)
    → s.cell_begin < s.cell_end
    → AreSplits s.cell_begin s.cell_end xs
    → IsSplitBy xs s (foldl add_split s xs)
unfolding add_split finish
add_splits-IsSplitBy s [] lt a = record {
  size = refl;
  count = omega arith;
  element = λ i. refl;
  inverse = λ v. refl;
  cell_of = λ v. refl;
  end = refl;
  begins = λ j. ground arith;
  outside = λ j o. refl;
}
add_splits-IsSplitBy s (x ∷ xs) lt a =
    let h = add_splits-IsSplitBy (add_split s x) xs a.1 a.2 in
    record {
      size = h.size;
      count = omega (arith, h.count);
      element = h.element;
      inverse = h.inverse;
      cell_of = h.cell_of;
      end = h.end;
      begins = λ j. ground (arith, h.begins j);
      outside = λ j o. ground (arith, h.outside j);
    }

-- `t` is `pi` with the cell `cell` split at `xs`.
pub record IsSplit (cell : ℕ) (xs : List ℕ) (pi t : Partition) : Type 0 where
  pub size : t.n ≡ pi.n
  pub count : t.num_cells ≡ pi.num_cells + length xs
  pub element : (i : ℕ) → t.elements i ≡ pi.elements i
  pub inverse : (v : ℕ) → t.inverse v ≡ pi.inverse v
  pub cell_of : (v : ℕ) → t.cell_from_v_idx v ≡ pi.cell_from_v_idx v
  pub begins : (j : ℕ) → (t.next_cell_begin j ≢ 0) ↔ ((pi.next_cell_begin j ≢ 0) ⊎ IsIn j xs)
  pub outside :
      (j : ℕ)
      → (j < cell) ⊎ (pi.next_cell_begin cell ≤ j)
      → t.next_cell_begin j ≡ pi.next_cell_begin j

-- Splitting adds exactly the given positions to the begins of cells and their number to the count;
-- the entries of the other cells, the elements and all else are unchanged.
pub split_at-IsSplit :
    (cell : ℕ) (xs : List ℕ) (pi : Partition)
    → cell < pi.next_cell_begin cell
    → AreSplits cell (pi.next_cell_begin cell) xs
    → IsSplit cell xs pi (split_at cell xs pi)
unfolding split_at
split_at-IsSplit cell xs pi lt a =
    let h = add_splits-IsSplitBy (split_cell cell pi) xs lt a in
    record {
      size = h.size;
      count = h.count;
      element = h.element;
      inverse = h.inverse;
      cell_of = h.cell_of;
      begins = λ j. ground (arith, h.begins j);
      outside = λ j o. ground (arith, h.outside j o);
    }

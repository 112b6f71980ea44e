-- ===== src/Partition/Splitter.antt =====
-- include/graph_canon/detail/partition.hpp: cell_splitter, the object that splits one cell. Its
-- destructor, which writes the end of the last part, is `finish`.
use mathlib.Core.List.{foldl}
use graph_canon.Base.{ℕ, ◌+◌, List, update}
use graph_canon.Partition.{Partition, get_cell_end}

-- `pi` is a reference in the source: the partition while it is being split.
pub record CellSplitter : Type 0 where
  pub pi : Partition
  pub cell_begin : ℕ
  pub cell_end : ℕ

unfoldable pub split_cell : ℕ → Partition → CellSplitter
split_cell cell_begin pi = record {
  pi = pi;
  cell_begin = cell_begin;
  cell_end = get_cell_end pi cell_begin;
}

unfoldable pub add_split : CellSplitter → ℕ → CellSplitter
add_split s new_cell = record s {
  pi = record (s.pi) {
    next_cell_begin = update s.pi.next_cell_begin s.cell_begin new_cell;
    num_cells = s.pi.num_cells + 1;
  };
  cell_begin = new_cell;
}

unfoldable pub finish : CellSplitter → Partition
finish s = record (s.pi) { next_cell_begin = update s.pi.next_cell_begin s.cell_begin s.cell_end }

-- The way every client uses it: a scope that adds the splits in order.
unfoldable pub split_at : ℕ → List ℕ → Partition → Partition
unfolding split_cell add_split finish
split_at cell_begin new_cells pi = finish (foldl add_split (split_cell cell_begin pi) new_cells)

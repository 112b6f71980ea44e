-- ===== src/Partition.antt =====
-- include/graph_canon/detail/partition.hpp: the ordered partition. Each of the four arrays of
-- `std::unique_ptr<SizeType[]>` is a function from indices; an index and a vertex are below `n`.
pub mod Splitter
pub mod Cells
pub mod Constructors
pub mod Inverse
pub mod Walk
pub mod Split
pub mod Membership
pub mod Position
use graph_canon.Base.{
  ℕ, zero, suc, ◌+◌, ◌-◌, ◌<◌, ◌≡◌, Bool, true, false, ◌&&◌, not, Array, update, fill, copy, ltb,
  ◌==◌, if◌then◌else◌,
}
use graph_canon.Base.Loops.{for_up}

pub record Partition : Type 0 where
  pub n : ℕ
  pub elements : Array
  pub inverse : Array
  pub next_cell_begin : Array
  pub cell_from_v_idx : Array
  pub num_cells : ℕ

unfoldable pub put_element_on_index : ℕ → ℕ → Partition → Partition
put_element_on_index value element_idx pi = record pi {
  elements = update pi.elements element_idx value;
  inverse = update pi.inverse value element_idx;
}

-- What `new SizeType[n]` returns for each of the four arrays: its content is indeterminate.
pub record Storage : Type 0 where
  pub elements : Array
  pub inverse : Array
  pub next_cell_begin : Array
  pub cell_from_v_idx : Array

-- The constructor of the unit partition: its members, its loop, and what follows the loop.
abbrev pub fresh : ℕ → Storage → Partition
fresh n raw = record {
  n = n;
  elements = raw.elements;
  inverse = raw.inverse;
  next_cell_begin = raw.next_cell_begin;
  cell_from_v_idx = raw.cell_from_v_idx;
  num_cells = 1;
}

unfoldable pub place_all : Partition → Partition
place_all pi = for_up (λ i t. put_element_on_index i i t) 0 pi.n pi

unfoldable pub mark_unit : Partition → Partition
mark_unit pi =
    let filled : Partition = record pi {
      next_cell_begin = fill pi.n 0 pi.next_cell_begin;
      cell_from_v_idx = fill pi.n 0 pi.cell_from_v_idx;
    } in
    if not (pi.n == 0)
    then record filled { next_cell_begin = update filled.next_cell_begin 0 pi.n }
    else record filled { num_cells = 0 }

unfoldable pub unit_partition : ℕ → Storage → Partition
unfolding place_all mark_unit put_element_on_index for_up
unit_partition n raw = mark_unit (place_all (fresh n raw))

-- The copy constructor.
unfoldable pub copy_partition : Partition → Storage → Partition
copy_partition other raw = record {
  n = other.n;
  elements = copy other.n other.elements raw.elements;
  inverse = copy other.n other.inverse raw.inverse;
  next_cell_begin = copy other.n other.next_cell_begin raw.next_cell_begin;
  cell_from_v_idx = copy other.n other.cell_from_v_idx raw.cell_from_v_idx;
  num_cells = other.num_cells;
}

abbrev pub get : Partition → ℕ → ℕ
get pi i = pi.elements i

abbrev pub get_inverse : Partition → ℕ → ℕ
get_inverse pi i = pi.inverse i

-- `reset_inverse(begin, end)`, for begin <= end
unfoldable pub reset_inverse : ℕ → ℕ → Partition → Partition
reset_inverse begin end =
    for_up (λ i pi. record pi { inverse = update pi.inverse (pi.elements i) i }) begin (end - begin)

abbrev pub get_cell_from_v_idx : Partition → ℕ → ℕ
get_cell_from_v_idx pi idx = pi.cell_from_v_idx idx

abbrev pub get_cell_end : Partition → ℕ → ℕ
get_cell_end pi cell_begin = pi.next_cell_begin cell_begin

abbrev pub get_cell_size : Partition → ℕ → ℕ
get_cell_size pi cell_begin = get_cell_end pi cell_begin - cell_begin

abbrev pub get_num_cells : Partition → ℕ
get_num_cells pi = pi.num_cells

unfoldable pub set_cell_from_v_idx : ℕ → Partition → Partition
set_cell_from_v_idx cell pi =
    for_up (λ i t. record t { cell_from_v_idx = update t.cell_from_v_idx (t.elements i) cell }) cell
      (get_cell_end pi cell - cell) pi

unfoldable pub swap_elements : ℕ → ℕ → Partition → Partition
swap_elements a b pi =
    let a_elem = pi.elements a in
    let b_elem = pi.elements b in
    record pi {
      elements = update (update pi.elements a b_elem) b a_elem;
      inverse = update (update pi.inverse a_elem b) b_elem a;
    }

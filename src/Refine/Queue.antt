-- ===== src/Refine/Queue.antt =====
-- WL_1.hpp: the queue of refiner cells, add_initial_refiner_cells and add_refiner_cells.
use mathlib.Core.List.{foldl}
use graph_canon.Base.{
  ℕ, zero, suc, ◌+◌, ◌-◌, ◌^◌, List, [], ◌∷◌, ◌++◌, Bool, true, not, ◌&&◌, ◌==◌, ltb, leb,
  if◌then◌else◌, Option, none, some, length, ◌>>=◌, get_elem?,
}
use graph_canon.Base.Int.{ℤ, pos, negsuc, IntType}
use graph_canon.Partition.{Partition, get_cell_size}
use graph_canon.Partition.Walk.{for_cells}
use graph_canon.Refine.{InstanceData, set_is_refiner, push_refiner}

-- `parent` is the individualised position of the parent, or `none` at the root. `none` of the result
-- is a lack of fuel in the loop over the cells.
abbrev pub mark_refiners : InstanceData → InstanceData
mark_refiners d = foldl (λ e c. set_is_refiner c true e) d d.refiner_cells

abbrev pub push_back : ℕ → InstanceData → InstanceData
push_back c d = record d { refiner_cells = d.refiner_cells ++ (c ∷ []) }

abbrev pub mark_found : Option InstanceData → Option InstanceData
mark_found none = none
mark_found (some d) = some (mark_refiners d)

unfoldable pub add_initial_refiner_cells : Partition → Option ℕ → InstanceData → Option InstanceData
unfolding for_cells
add_initial_refiner_cells pi none d =
    mark_found (for_cells (pi.n + 1) pi push_back 0 (record d { refiner_cells = [] }))
add_initial_refiner_cells pi (some position) d =
    some (mark_refiners (record d { refiner_cells = position ∷ [] }))

-- `SizeType max_cell_index = -1`
abbrev pub minus_one : IntType → ℤ
minus_one t = if t.is_signed then negsuc 0 else pos (2 ^ t.bits - 1)

-- `max_cell_index == -1`: a type narrower than `int` is promoted to it, and otherwise `-1` is converted
-- to the type.
abbrev pub equals_minus_one : IntType → ℤ → Bool
equals_minus_one t (pos m) = not t.is_signed && leb 32 t.bits && (m == 2 ^ t.bits - 1)
equals_minus_one t (negsuc m) = m == 0

-- The loop that looks for a part larger than the first one, from index `i`: the index of the largest
-- part and its size.
unfoldable pub find_max_cell : Partition → ℕ → List ℕ → ℤ → ℕ → ℤ × ℕ
find_max_cell pi i [] max_cell_index max_cell_size = (max_cell_index, max_cell_size)
find_max_cell pi i (begin ∷ rest) max_cell_index max_cell_size =
    let size = get_cell_size pi begin in
    let larger = find_max_cell pi (i + 1) rest (pos i) size in
    let same = find_max_cell pi (i + 1) rest max_cell_index max_cell_size in
    if ltb max_cell_size size then larger else same

-- Queueing `refined_beginnings[i]` for `rounds` indices from `i`.
unfoldable pub push_range : List ℕ → ℕ → ℕ → InstanceData → Option InstanceData
unfolding get_elem?
push_range parts i zero d = some d
push_range parts i (suc rounds) d = do
  new_refiner ← get_elem? parts i
  push_range parts (i + 1) rounds (push_refiner d new_refiner)

-- All parts are queued but the one with index `max_cell_index`. The index is not negative here, since
-- the only negative value it takes is -1.
unfoldable pub push_all_but : ℕ → List ℕ → ℤ → InstanceData → Option InstanceData
unfolding push_range
push_all_but refinee_begin parts (negsuc m) d = none
push_all_but refinee_begin parts (pos m) d = do
  before ← push_range parts 0 m (push_refiner d refinee_begin)
  push_range parts (m + 1) (length parts - (m + 1)) before

unfoldable pub add_refiner_cells : IntType → Partition → ℕ → InstanceData → Option InstanceData
unfolding find_max_cell push_all_but
add_refiner_cells t pi refinee_begin d =
    let parts = d.refined_beginnings in
    let max_cell = find_max_cell pi 0 parts (minus_one t) (get_cell_size pi refinee_begin) in
    if (d.cell_data refinee_begin).is_refiner
    then some (foldl push_refiner d parts)
    else if equals_minus_one t max_cell.0
    then some (foldl push_refiner d parts)
    else push_all_but refinee_begin parts max_cell.0 d

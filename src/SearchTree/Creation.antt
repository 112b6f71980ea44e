-- ===== src/SearchTree/Creation.antt =====
-- include/graph_canon/detail/tree_node.hpp: the constructor of a node and create_child, with
-- make_equitable of canonicalization.hpp, on the store of nodes.
pub mod Children
pub mod Created
use graph_canon.Base.{
  ℕ, zero, suc, ◌+◌, ◌-◌, Option, none, some, ◌>>=◌, Bool, true, false, not, ◌&&◌, update, ◌==◌,
  if◌then◌else◌,
}
use graph_canon.Partition.{Partition, Storage, get_cell_size, get_num_cells}
use graph_canon.Refine.Refinee.{RefinementResult}
use graph_canon.SearchTree.{child_partition}
use graph_canon.SearchTree.Nodes.{TreeNode, TreeState, set_node}

-- The members of the visitor that the creation of a node calls.
pub record NodeVisitor (V : Type 0) : Type 0 where
  pub tree_create_node_begin : ℕ → TreeState V → Bool × TreeState V
  pub refine : ℕ → TreeState V → RefinementResult × TreeState V
  pub refine_abort : ℕ → TreeState V → TreeState V
  pub select_target_cell : ℕ → TreeState V → ℕ × TreeState V
  pub tree_create_node_end : ℕ → TreeState V → Bool × TreeState V
  pub tree_create_child : ℕ → ℕ → TreeState V → TreeState V

-- The members that the constructor initializes.
abbrev pub new_node : ℕ → Option ℕ → ℕ → Partition → TreeNode
new_node n parent level pi = record {
  parent = parent;
  level = level;
  pi = pi;
  children_size = 0;
  children = λ i. none;
  child_pruned = λ i. false;
  child_refiner_cell = n;
  is_pruned = false;
}

abbrev pub set_is_pruned : {V : Type 0} → ℕ → Bool → TreeState V → TreeState V
set_is_pruned self b s = set_node self (record (s.nodes self) { is_pruned = b }) s

-- `child_refiner_cell = cell`, and the two vectors resized.
abbrev pub set_children : {V : Type 0} → ℕ → ℕ → TreeState V → TreeState V
set_children self cell s =
    set_node self
      (record (s.nodes self) {
        child_refiner_cell = cell;
        children_size = get_cell_size (s.nodes self).pi cell;
        children = λ i. none;
        child_pruned = λ i. false;
      })
      s

abbrev pub is_again : RefinementResult → Bool
is_again RefinementResult.again = true
is_again _ = false

abbrev pub is_abort : RefinementResult → Bool
is_abort RefinementResult.abort = true
is_abort _ = false

-- What `create_child` does with the new node: the returned pointer, and the state.
abbrev pub attach_child : {V : Type 0} → ℕ → ℕ → ℕ → TreeState V → Option ℕ × TreeState V
attach_child parent child_idx child s =
    let node = s.nodes parent in
    if (s.nodes child).is_pruned
    then (
      none,
      set_node parent (record node { child_pruned = update node.child_pruned child_idx true }) s,
    )
    else (
      some child,
      set_node parent (record node { children = update node.children child_idx (some child) }) s,
    )

module _ {V : Type 0} (visitor : NodeVisitor V) where
  -- `make_equitable`; `none` is the lack of fuel for its loop.
  unfoldable pub make_equitable : ℕ → ℕ → TreeState V → Option (Bool × TreeState V)
  make_equitable zero self s = none
  make_equitable (suc fuel) self s =
      let (result, t) = visitor.refine self s in
      let rest = make_equitable fuel self t in
      if is_again result then rest else some (not (is_abort result), t)

  -- The target cell of a candidate that is no leaf.
  abbrev pub select_children : ℕ → ℕ → Bool → TreeState V → TreeState V
  select_children n self is_candidate s =
      let (cell, t) = visitor.select_target_cell self s in
      if is_candidate && not (get_num_cells (s.nodes self).pi == n)
      then set_children self cell t
      else s

  -- The refinement of a candidate, or `refine_abort`.
  abbrev pub refine_candidate : ℕ → ℕ → ℕ → Bool → TreeState V → Option (Bool × TreeState V)
  refine_candidate n fuel self false s = some (false, visitor.refine_abort self s)
  refine_candidate n fuel self true s = make_equitable fuel self s >>= λ (is_candidate, t).
      some (is_candidate, select_children n self is_candidate t)

  -- What follows: `is_pruned` is set, and `tree_create_node_end` may still refuse the node.
  abbrev pub end_creation : ℕ → Bool → TreeState V → TreeState V
  end_creation self is_candidate s =
      let (go_on, t) =
        visitor.tree_create_node_end self (set_is_pruned self (not is_candidate) s) in
      if go_on then t else visitor.refine_abort self (set_is_pruned self true t)

  -- The constructor, for a node with the number `self`.
  unfoldable pub construct :
      ℕ → ℕ → ℕ → Option ℕ → ℕ → Partition → TreeState V → Option (TreeState V)
  unfolding make_equitable
  construct n fuel self parent level pi s =
      let (is_candidate, t) =
        visitor.tree_create_node_begin self (set_node self (new_node n parent level pi) s) in
      refine_candidate n fuel self is_candidate t >>= λ (is_candidate', u).
      some (end_creation self is_candidate' u)

  -- `create_child(element_idx_to_individualise, state)` of node `self`, where `child` is the number of
  -- the new node.
  unfoldable pub create_child :
      ℕ → ℕ → Storage → ℕ → ℕ → ℕ → TreeState V → Option (Option ℕ × TreeState V)
  unfolding construct child_partition
  create_child n fuel raw child self element_idx s =
      let t = visitor.tree_create_child self element_idx s in
      let node = t.nodes self in
      let child_idx = element_idx - node.child_refiner_cell in
      let pi_child = child_partition raw node.pi node.child_refiner_cell element_idx in
      construct n fuel child (some self) (node.level + 1) pi_child t >>= λ u.
      some (attach_child self child_idx child u)

-- ===== src/SearchTree/Nodes.antt =====
-- include/graph_canon/detail/tree_node.hpp: the nodes of the search tree in a store, and prune_subtree.
-- A node is a number, a null pointer `none`; reference counts are not modelled, so a node stays in the
-- store.
pub mod Below
pub mod Pruning
use graph_canon.Base.{
  ℕ, zero, suc, ◌+◌, Option, none, some, Bool, true, false, update, fill, ◌==◌, if◌then◌else◌,
}
use graph_canon.Base.Loops.{for_up}
use graph_canon.Partition.{Partition}

-- `children` and `child_pruned` are vectors of size `children_size`.
pub record TreeNode : Type 0 where
  pub parent : Option ℕ
  pub level : ℕ
  pub pi : Partition
  pub children_size : ℕ
  pub children : ℕ → Option ℕ
  pub child_pruned : ℕ → Bool
  pub child_refiner_cell : ℕ
  pub is_pruned : Bool

-- What the nodes use of the canonicalisation state: all nodes, the best leaf, and the data of the
-- visitors.
pub record TreeState (V : Type 0) : Type 0 where
  pub nodes : ℕ → TreeNode
  pub canon_leaf : Option ℕ
  pub vis : V

abbrev pub set_node : {V : Type 0} → ℕ → TreeNode → TreeState V → TreeState V
set_node a node s = record s { nodes = update (s.nodes) a node }

-- `std::fill(child_pruned.begin(), child_pruned.end(), true)`
abbrev pub block_children : {V : Type 0} → ℕ → TreeState V → TreeState V
block_children self s =
    let node = s.nodes self in
    set_node self
      (record node { child_pruned = fill (node.children_size) true (node.child_pruned) }) s

-- `is_pruned = true`
abbrev pub mark_pruned : {V : Type 0} → ℕ → TreeState V → TreeState V
mark_pruned self s = set_node self (record (s.nodes self) { is_pruned = true }) s

-- `if(child) child->prune_subtree(state)`
abbrev pub prune_child :
    {V : Type 0} → (ℕ → TreeState V → TreeState V) → Option ℕ → TreeState V → TreeState V
prune_child prune none s = s
prune_child prune (some child) s = prune child s

module _ {V : Type 0} (tree_prune_node : ℕ → TreeState V → TreeState V) where
  -- `prune_subtree(state)`. The fuel bounds the depth of the subtree.
  unfoldable pub prune_subtree : ℕ → ℕ → TreeState V → TreeState V
  unfolding for_up
  prune_subtree zero self s = s
  prune_subtree (suc fuel) self s =
      let t = tree_prune_node self s in
      let below =
        for_up (λ i w. prune_child (prune_subtree fuel) ((w.nodes self).children i) w) 0
          ((t.nodes self).children_size) (block_children self t) in
      if (s.nodes self).is_pruned then s else mark_pruned self below

-- Whether `self` is on the path from a node to the root; `rounds` bounds the length of the path.
unfoldable pub is_on_path : {V : Type 0} → TreeState V → ℕ → ℕ → Option ℕ → Bool
is_on_path s self rounds none = false
is_on_path s self zero (some a) = false
is_on_path s self (suc rounds) (some a) =
    let rest = is_on_path s self rounds ((s.nodes a).parent) in if a == self then true else rest

-- `prune_subtree(state, true)`; `canon_prune` is the call of the visitor.
unfoldable pub prune_subtree_and_leaf :
    {V : Type 0}
    → (ℕ → TreeState V → TreeState V)
    → (TreeState V → TreeState V)
    → ℕ
    → ℕ
    → ℕ
    → TreeState V
    → TreeState V
unfolding is_on_path prune_subtree
prune_subtree_and_leaf tree_prune_node canon_prune depth fuel self s =
    let leaf_pruned = record (canon_prune s) { canon_leaf = none } in
    let t = if is_on_path s self depth (s.canon_leaf) then leaf_pruned else s in
    if (s.nodes self).is_pruned then s else prune_subtree tree_prune_node fuel self t

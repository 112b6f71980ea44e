-- ===== src/Tests/Trees.antt =====
-- detail/tree_node.hpp and automorphism_leaf of aut/pruner_base.hpp on a small tree.
use graph_canon.Base.{
  ℕ, ◌+◌, ◌<◌, ◌≤◌, ◌≡◌, ◌⊎◌, inl, refl, arith, ◌==◌, ltb, if◌then◌else◌, some, none, Bool, true,
  false,
}
use graph_canon.Partition.{Partition, unit_partition}
use graph_canon.SearchTree.Ancestors.{IsTree, IsAncestor, self, above}
use graph_canon.SearchTree.Nodes.{TreeNode, TreeState, prune_subtree, prune_subtree_and_leaf}
use graph_canon.SearchTree.Nodes.Below.{IsPrunable}
use graph_canon.SearchTree.Nodes.Pruning.{IsSubtreePruned, prune_subtree-IsSubtreePruned}
use graph_canon.AutPruner.LeafPruning.{
  ancestry, automorphism_leaf, IsLinked, IsLeafPruned, automorphism_leaf-IsLeafPruned,
}

abbrev unit : Partition
unit = unit_partition 4 (record {
  elements = λ i. 9;
  inverse = λ i. 9;
  next_cell_begin = λ i. 9;
  cell_from_v_idx = λ i. 9;
})

-- The root 0 with the children 1 and 2, and the children 3 and 4 of node 1.
abbrev small_nodes : ℕ → TreeNode
small_nodes a = record {
  parent = if a == 0 then none else if a == 1 then some 0 else if a == 2 then some 0 else some 1;
  level = if a == 0 then 0 else if a == 1 then 1 else if a == 2 then 1 else 2;
  pi = unit;
  children_size = if ltb a 2 then 2 else 0;
  children = λ i. if a == 0 then some (i + 1) else if a == 1 then some (i + 3) else none;
  child_pruned = λ i. false;
  child_refiner_cell = 0;
  is_pruned = false;
}

abbrev height_of : ℕ → ℕ
height_of a = if a == 0 then 2 else if a == 1 then 1 else 0

abbrev small_state : TreeState (Unit {0})
small_state = record { nodes = small_nodes; canon_leaf = some 2; vis = tt }

abbrev keep : {A : Type 0} → ℕ → A → A
keep a s = s

abbrev keep_state : {A : Type 0} → A → A
keep_state s = s

abbrev pruned_nodes : TreeState (Unit {0}) → Bool × Bool × Bool × Bool × Bool
pruned_nodes s = (
  (s.nodes 0).is_pruned,
  (s.nodes 1).is_pruned,
  (s.nodes 2).is_pruned,
  (s.nodes 3).is_pruned,
  (s.nodes 4).is_pruned,
)

pruning_run :
    (pruned_nodes (prune_subtree keep 3 1 small_state) ≡ (false, true, false, true, true))
    × ((prune_subtree_and_leaf keep keep_state 3 3 2 small_state).canon_leaf ≡ none)
    × ((prune_subtree_and_leaf keep keep_state 3 3 1 small_state).canon_leaf ≡ some 2)
unfolding prune_subtree prune_subtree_and_leaf
pruning_run = (refl, refl, refl)

small-IsPrunable : IsPrunable height_of small_nodes
small-IsPrunable = record {
  lower = λ a i c l e. ground arith;
  closed = λ a i c l e d. absurd (ground arith);
  blocked = λ a i l d. absurd (ground arith);
}

prune_subtree-IsSubtreePruned_example :
    IsSubtreePruned height_of 1 small_nodes ((prune_subtree keep 3 1 small_state).nodes)
prune_subtree-IsSubtreePruned_example =
    prune_subtree-IsSubtreePruned keep height_of (λ a s. refl) 3 1 small_state small-IsPrunable
      (omega arith)

small-IsTree : IsTree (ancestry 5 small_nodes)
small-IsTree = record {
  parent_in = λ a p l e. ground arith;
  parent_level = λ a p l e. ground arith;
  root_level = λ a l e. ground arith;
  one_root = λ a b l m e f. ground arith;
}

small-IsLinked : IsLinked 5 small_nodes
small-IsLinked = record {
  up = λ p i c l e. ground arith;
  down = λ c p l e. (if c == 1 then 0 else if c == 3 then 0 else 1, ground arith, ground arith);
}

above-le : (p a : ℕ) → a < 5 → IsAncestor (ancestry 5 small_nodes) p a → (p ≡ a) ⊎ (p ≤ 1)
above-le p a l (self _) = inl refl
above-le p a l (above _ q _ e o) = ground (arith, above-le p q (small-IsTree.parent_in a q l e) o)

automorphism_leaf-IsLeafPruned_example :
    IsLeafPruned 2 4 small_nodes (automorphism_leaf keep_state keep 5 3 4 small_state)
automorphism_leaf-IsLeafPruned_example =
    automorphism_leaf-IsLeafPruned keep height_of 5 3 2 4 (λ a s. refl) (λ a. ground arith)
      (omega arith) (omega arith) keep_state small_state (λ s. refl) (λ s. refl) small-IsTree
      small-IsLinked small-IsPrunable refl (λ o. ground (arith, above-le 4 2 (omega arith) o))
      (λ o. ground (arith, above-le 2 4 (omega arith) o)) refl

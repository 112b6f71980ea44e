-- ===== src/AutPruner/LeafPruning.antt =====
-- include/graph_canon/aut/pruner_base.hpp: automorphism_leaf with the pruning that it asks for.
use graph_canon.Base.{
  ℕ, ◌<◌, ◌≡◌, inl, inr, true, false, Option, some, ◌>>=◌, arith, refl, sym, subst, ◌∙◌, Bool-cases,
}
use graph_canon.SearchTree.{Ancestry}
use graph_canon.SearchTree.Ancestors.{IsTree, IsAncestor, self, above}
use graph_canon.SearchTree.Nodes.{TreeState, prune_subtree}
use graph_canon.SearchTree.Nodes.Below.{Nodes, IsBelow, top, child, IsPrunable}
use graph_canon.SearchTree.Nodes.Pruning.{prune_subtree-IsSubtreePruned}
use graph_canon.AutPruner.Leaf.{pruned_node, IsPrunedNode, pruned_node-IsPrunedNode}

-- The links from the nodes below `size` to their parents.
abbrev pub ancestry : ℕ → Nodes → Ancestry
ancestry size s = record { size = size; parent = λ a. (s a).parent; level = λ a. (s a).level }

-- `automorphism_leaf(state, t, aut)` for the node `leaf`; `none` is a null pointer. The call
-- `derived.add_automorphism` stores the automorphism.
unfoldable pub automorphism_leaf :
    {V : Type 0}
    → (TreeState V → TreeState V)
    → (ℕ → TreeState V → TreeState V)
    → ℕ
    → ℕ
    → ℕ
    → TreeState V
    → Option (TreeState V)
unfolding pruned_node prune_subtree
automorphism_leaf add_automorphism tree_prune_node size fuel leaf s =
    let t = add_automorphism s in
    t.canon_leaf >>= λ canon_leaf. pruned_node (ancestry size (t.nodes)) canon_leaf leaf >>= λ node.
    some (prune_subtree tree_prune_node fuel node t)

-- The links to the children are those to the parents, the other way round.
pub record IsLinked (size : ℕ) (s : Nodes) : Type 0 where
  pub up : (p i c : ℕ) → i < (s p).children_size → (s p).children i ≡ some c → (s c).parent ≡ some p
  pub down :
      (c p : ℕ)
      → c < size
      → (s c).parent ≡ some p
      → (i : ℕ) × (i < (s p).children_size) × ((s p).children i ≡ some c)

below-IsAncestor :
    (size : ℕ) (s : Nodes) (a b : ℕ)
    → IsLinked size s
    → IsBelow s a b
    → IsAncestor (ancestry size s) a b
below-IsAncestor size s a b h (top _) = self a
below-IsAncestor size s a b h (child _ p i _ o l e) =
    above a p b (h.up p i b l e) (below-IsAncestor size s a p h o)

ancestor-IsBelow :
    (size : ℕ) (s : Nodes) (a b : ℕ)
    → IsLinked size s
    → IsTree (ancestry size s)
    → b < size
    → IsAncestor (ancestry size s) a b
    → IsBelow s a b
ancestor-IsBelow size s a b h t l (self _) = top a
ancestor-IsBelow size s a b h t l (above _ p _ e o) =
    let (i, li, c) = h.down b p l e in
    child a p i b (ancestor-IsBelow size s a p h t (t.parent_in b p l e) o) li c

-- What reporting an automorphism to a leaf leaves of the nodes `s`: the subtree of `node` is pruned,
-- where `common` is the lowest common ancestor of the two leaves and `node` its child towards the new
-- leaf.
pub record IsLeafPruned {V : Type 0} (canon_leaf leaf : ℕ) (s : Nodes) (o : Option (TreeState V))
    : Type 0 where
  pub after : TreeState V
  pub result : o ≡ some after
  pub new_pruned : (after.nodes leaf).is_pruned ≡ true
  pub canon_kept : (after.nodes canon_leaf).is_pruned ≡ false
  pub node : ℕ
  pub above_new : IsBelow s node leaf
  pub not_above_canon : ¬ IsBelow s node canon_leaf
  pub common : ℕ
  pub parent : (s node).parent ≡ some common
  pub above_canon : IsBelow s common canon_leaf
  pub whole : (a : ℕ) → IsBelow s node a → (after.nodes a).is_pruned ≡ true
  pub only :
      (a : ℕ) → (s a).is_pruned ≡ false → ¬ IsBelow s node a → (after.nodes a).is_pruned ≡ false

module _ {V : Type 0} (tree_prune_node : ℕ → TreeState V → TreeState V) (height : ℕ → ℕ)
    (size fuel canon_leaf leaf : ℕ)
    (prune_keeps : (a : ℕ) (t : TreeState V) → (tree_prune_node a t).nodes ≡ t.nodes)
    (deep : (a : ℕ) → height a < fuel) (lc : canon_leaf < size) (ll : leaf < size) where
  prune_found-IsLeafPruned :
      (t : TreeState V) (o : Option ℕ)
      → IsTree (ancestry size (t.nodes))
      → IsLinked size (t.nodes)
      → IsPrunable height (t.nodes)
      → (t.nodes canon_leaf).is_pruned ≡ false
      → IsPrunedNode (ancestry size (t.nodes)) canon_leaf leaf o
      → IsLeafPruned canon_leaf leaf
          (t.nodes)
          (o >>= λ node. some (prune_subtree tree_prune_node fuel node t))
  prune_found-IsLeafPruned t o tree links h alive f =
      let p =
        prune_subtree-IsSubtreePruned tree_prune_node height prune_keeps fuel f.node t h
          (deep f.node) in
      let after = prune_subtree tree_prune_node fuel f.node t in
      let below = ancestor-IsBelow size (t.nodes) f.node leaf links tree ll f.of_leaf in
      let rest : (a : ℕ)
          → (t.nodes a).is_pruned ≡ false
          → ¬ IsBelow (t.nodes) f.node a
          → (after.nodes a).is_pruned ≡ false =
        λ a e out. elim (Bool-cases ((after.nodes a).is_pruned)) [
          | inr off ↦ off
          | inl on ↦ elim (p.more.only a on) [
            | inl before ↦ absurd (ground arith)
            | inr b ↦ absurd (out b)
          ]
        ] in
      subst
        (λ x.
          IsLeafPruned canon_leaf leaf (t.nodes)
            (x >>= λ node. some (prune_subtree tree_prune_node fuel node t)))
        (sym f.result)
        (record {
          after = after;
          result = refl;
          new_pruned = p.all leaf below;
          canon_kept =
              rest canon_leaf alive
                (λ b. f.not_of_canon (below-IsAncestor size (t.nodes) f.node canon_leaf links b));
          node = f.node;
          above_new = below;
          not_above_canon =
              λ b. f.not_of_canon (below-IsAncestor size (t.nodes) f.node canon_leaf links b);
          common = f.common;
          parent = f.parent;
          above_canon =
              ancestor-IsBelow size (t.nodes) f.common canon_leaf links tree lc f.common_of_canon;
          whole = p.all;
          only = rest;
        })

  -- If the visitors keep the nodes, the links between the nodes agree and pruned nodes have pruned
  -- children, then for the best leaf and a new leaf, neither above the other, `automorphism_leaf`
  -- returns. It prunes exactly the subtree of the child, towards the new leaf, of the lowest common
  -- ancestor of the two leaves: the child is above the new leaf or is it, is not above the best leaf, and
  -- its parent is. The new leaf is pruned and the best leaf is not.
  pub automorphism_leaf-IsLeafPruned :
      (add_automorphism : TreeState V → TreeState V) (s : TreeState V)
      → ((t : TreeState V) → (add_automorphism t).nodes ≡ t.nodes)
      → ((t : TreeState V) → (add_automorphism t).canon_leaf ≡ t.canon_leaf)
      → IsTree (ancestry size (s.nodes))
      → IsLinked size (s.nodes)
      → IsPrunable height (s.nodes)
      → s.canon_leaf ≡ some canon_leaf
      → ¬ IsAncestor (ancestry size (s.nodes)) leaf canon_leaf
      → ¬ IsAncestor (ancestry size (s.nodes)) canon_leaf leaf
      → (s.nodes canon_leaf).is_pruned ≡ false
      → IsLeafPruned canon_leaf leaf
          (s.nodes)
          (automorphism_leaf add_automorphism tree_prune_node size fuel leaf s)
  unfolding automorphism_leaf
  automorphism_leaf-IsLeafPruned add_automorphism s keeps keeps_leaf tree links h best off off'
        alive =
      let t = add_automorphism s in
      let same : s.nodes ≡ t.nodes = sym (keeps s) in
      let found : Nodes → Option ℕ = λ N. pruned_node (ancestry size N) canon_leaf leaf in
      let f : IsPrunedNode (ancestry size (t.nodes)) canon_leaf leaf (found (t.nodes)) =
        subst (λ N. IsPrunedNode (ancestry size N) canon_leaf leaf (found N)) same
          (pruned_node-IsPrunedNode (ancestry size (s.nodes)) canon_leaf leaf tree lc ll off
            off') in
      let pruned =
        prune_found-IsLeafPruned t (found (t.nodes))
          (subst (λ N. IsTree (ancestry size N)) same tree) (subst (IsLinked size) same links)
          (subst (IsPrunable height) same h)
          (subst (λ N. (N canon_leaf).is_pruned ≡ false) same alive) f in
      let step : Option ℕ → Option (TreeState V) = λ o. o >>= λ best_leaf.
      pruned_node (ancestry size (t.nodes)) best_leaf leaf >>= λ node.
      some (prune_subtree tree_prune_node fuel node t) in
      subst (λ N. IsLeafPruned canon_leaf leaf N (step t.canon_leaf)) (sym same)
        (subst (λ o. IsLeafPruned canon_leaf leaf (t.nodes) (step o)) (sym (keeps_leaf s ∙ best))
          pruned)

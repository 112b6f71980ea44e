-- ===== src/SearchTree/Nodes/Pruning.antt =====
-- tree_node.hpp: prune_subtree prunes exactly the nodes of the subtree.
use graph_canon.Base.{
  ℕ, zero, suc, ◌+◌, ◌<◌, ◌≡◌, inl, inr, some, true, update, fill, arith, sym, ap, ◌∙◌, eq-cases,
  Bool-cases, Option-cases, subst,
}
use graph_canon.Base.Loops.{for_up, for_up_inv}
use graph_canon.SearchTree.Nodes.{
  TreeState, prune_subtree, prune_child, block_children, mark_pruned,
}
use graph_canon.SearchTree.Nodes.Below.{
  Nodes, IsBelow, top, child, IsPrunable, IsMore, IsMore-refl, IsMore-trans, IsBelow-before,
  IsBelow-trans,
}

-- What one call leaves.
record IsPruned (height : ℕ → ℕ) (self : ℕ) (s t : Nodes) : Type 0 where
  pub more : IsMore s (IsBelow s self) t
  pub prunable : IsPrunable height t
  pub done : (t self).is_pruned ≡ true

-- Exactly the subtree is pruned.
pub record IsSubtreePruned (height : ℕ → ℕ) (self : ℕ) (s t : Nodes) : Type 0 where
  pub more : IsMore s (IsBelow s self) t
  pub prunable : IsPrunable height t
  pub all : (a : ℕ) → IsBelow s self a → (t a).is_pruned ≡ true

-- The nodes after `block_children`.
abbrev block_all : ℕ → Nodes → Nodes
block_all self s =
    update s self (record (s self) {
      child_pruned = fill ((s self).children_size) true ((s self).child_pruned);
    })

block_children-IsMore :
    (height : ℕ → ℕ) (self : ℕ) (s : Nodes)
    → IsPrunable height s
    → IsMore s (IsBelow s self) (block_all self s) × IsPrunable height (block_all self s)
block_children-IsMore height self s h = (
  record {
    size = λ a. ground arith;
    links = λ a i. ground arith;
    held = λ a i e. ground arith;
    kept = λ a e. ground arith;
    only = λ a e. inl (ground arith);
  },
  record {
    lower = λ a i c l e. ground (arith, h.lower a i c);
    closed = λ a i c l e d. ground (arith, h.closed a i c);
    blocked = λ a i l d. ground (arith, h.blocked a i);
  },
)

module _ {V : Type 0} (tree_prune_node : ℕ → TreeState V → TreeState V) (height : ℕ → ℕ)
    (keeps : (a : ℕ) (s : TreeState V) → (tree_prune_node a s).nodes ≡ s.nodes) where
  -- What the loop has done before child `i`.
  record IsLooped (self i : ℕ) (s : Nodes) (w : TreeState V) : Type 0 where
    pub more : IsMore s (IsBelow s self) (w.nodes)
    pub prunable : IsPrunable height (w.nodes)
    pub done : (j c : ℕ) → j < i → (s self).children j ≡ some c → ((w.nodes) c).is_pruned ≡ true
    pub blocked : (j : ℕ) → j < (s self).children_size → ((w.nodes) self).child_pruned j ≡ true

  prune_child-IsLooped :
      (prune : ℕ → TreeState V → TreeState V) (self i : ℕ) (s : Nodes) (w : TreeState V)
      → ((c : ℕ) (u : TreeState V)
          → IsPrunable height (u.nodes)
          → height c < height self
          → IsPruned height c (u.nodes) ((prune c u).nodes))
      → i < (s self).children_size
      → IsLooped self i s w
      → IsLooped self (i + 1) s (prune_child prune ((w.nodes self).children i) w)
  prune_child-IsLooped prune self i s w below l h =
      elim (Option-cases (((w.nodes) self).children i)) [
        | inl none_there ↦
            subst (λ o. IsLooped self (i + 1) s (prune_child prune o w)) (sym none_there)
              (record {
                more = h.more;
                prunable = h.prunable;
                done = λ j c m e. ground (arith, h.done j c, h.more.links self i, eq-cases j i);
                blocked = h.blocked;
              })
        | inr (c, there) ↦
            let l' = h.more.size self in
            let p = below c w h.prunable (h.prunable.lower self i c (omega (arith, l, l')) there) in
            let first : (s self).children i ≡ some c = sym (h.more.links self i) ∙ there in
            subst (λ o. IsLooped self (i + 1) s (prune_child prune o w)) (sym there)
              (record {
                more =
                    IsMore-trans s (w.nodes) ((prune c w).nodes) (IsBelow s self)
                      (IsBelow (w.nodes) c)
                      (λ a b.
                        IsBelow-trans s self c a (child self self i c (top self) l first)
                          (IsBelow-before s (w.nodes) (IsBelow s self) c a h.more b))
                      h.more p.more;
                prunable = p.prunable;
                done = λ j d m e. elim (eq-cases j i) [
                  | inl same ↦
                      let it : c ≡ d = ground (arith, ap (s self).children same) in
                      subst (λ z. (((prune c w).nodes) z).is_pruned ≡ true) it p.done
                  | inr ne ↦ p.more.kept d (h.done j d (omega arith) e)
                ];
                blocked = λ j m. p.more.held self j (h.blocked j m);
              })
      ]

  -- The node itself is marked at the end.
  mark-IsPruned :
      (self : ℕ) (s : Nodes) (w : TreeState V)
      → IsLooped self ((s self).children_size) s w
      → IsPruned height self s ((mark_pruned self w).nodes)
  mark-IsPruned self s w h = record {
    more = record {
      size = λ a. ground (arith, h.more.size a);
      links = λ a i. ground (arith, h.more.links a i);
      held = λ a i e. ground (arith, h.more.held a i);
      kept = λ a e. ground (arith, h.more.kept a);
      only = λ a e. elim (eq-cases a self) [
        | inl same ↦ inr (subst (λ z. IsBelow s self z) (sym same) (top self))
        | inr ne ↦ h.more.only a (ground arith)
      ];
    };
    prunable = record {
      lower = λ a i c l e. ground (arith, h.prunable.lower a i c);
      closed = λ a i c l e d. ground (
        arith,
        h.prunable.closed a i c,
        h.done i c,
        h.more.links self i,
        h.more.size self,
        eq-cases a self,
      );
      blocked = λ a i l d.
          ground (arith, h.prunable.blocked a i, h.blocked i, h.more.size self, eq-cases a self);
    };
    done = ground arith;
  }

  -- The body of the call.
  body-IsPruned :
      (prune : ℕ → TreeState V → TreeState V) (self : ℕ) (t : TreeState V)
      → ((c : ℕ) (u : TreeState V)
          → IsPrunable height (u.nodes)
          → height c < height self
          → IsPruned height c (u.nodes) ((prune c u).nodes))
      → IsPrunable height (t.nodes)
      → IsPruned height self (t.nodes) (
          (mark_pruned self (
            for_up
              (λ i w. prune_child prune ((w.nodes self).children i) w)
              0
              ((t.nodes self).children_size)
              (block_children self t))).nodes)
  body-IsPruned prune self t below h =
      let (m, h') = block_children-IsMore height self (t.nodes) h in
      let size = (t.nodes self).children_size in
      mark-IsPruned self (t.nodes) _ (
        for_up_inv (λ i w. IsLooped self i (t.nodes) w)
          (λ i w. prune_child prune ((w.nodes self).children i) w) size 0 size
          (block_children self t) (omega arith)
          (λ i w lo hi looped. prune_child-IsLooped prune self i (t.nodes) w below hi looped)
          (record {
            more = m;
            prunable = h';
            done = λ j c l e. absurd (omega arith);
            blocked = λ j l. ground arith;
          }))

  prune_subtree-IsPruned :
      (fuel self : ℕ) (s : TreeState V)
      → IsPrunable height (s.nodes)
      → height self < fuel
      → IsPruned height self (s.nodes) ((prune_subtree tree_prune_node fuel self s).nodes)
  unfolding prune_subtree
  prune_subtree-IsPruned zero self s h l = absurd (omega arith)
  prune_subtree-IsPruned (suc fuel) self s h l = elim (Bool-cases ((s.nodes self).is_pruned)) [
    | inl pruned ↦ rw pruned (record {
      more = IsMore-refl (s.nodes) (IsBelow (s.nodes) self);
      prunable = h;
      done = pruned;
    })
    | inr alive ↦ rw alive (
        subst
          (λ N. IsPruned height self N (
            (mark_pruned self (
              for_up
                (λ i w.
                  prune_child (prune_subtree tree_prune_node fuel) ((w.nodes self).children i) w)
                0 (((tree_prune_node self s).nodes self).children_size)
                (block_children self (tree_prune_node self s)))).nodes))
          (keeps self s)
          (body-IsPruned (prune_subtree tree_prune_node fuel) self (tree_prune_node self s)
            (λ c u p lt. prune_subtree-IsPruned fuel c u p (omega arith))
            (subst (IsPrunable height) (sym (keeps self s)) h)))
  ]

  all_below :
      (s t : Nodes) (self a : ℕ)
      → IsPruned height self s t
      → IsBelow s self a
      → (t a).is_pruned ≡ true
  all_below s t self a h (top _) = h.done
  all_below s t self a h (child _ p i _ b l e) =
      h.prunable.closed p i a (omega (arith, l, h.more.size p)) (h.more.links p i ∙ e)
        (all_below s t self p h b)

  -- If the visitors keep the nodes, then in a tree whose depth the fuel exceeds and in which pruned
  -- nodes have pruned children, `prune_subtree` prunes the node and all nodes below it, and no other
  -- node. A pruned node has all its places for children blocked, and the links are as before.
  pub prune_subtree-IsSubtreePruned :
      (fuel self : ℕ) (s : TreeState V)
      → IsPrunable height (s.nodes)
      → height self < fuel
      → IsSubtreePruned height self (s.nodes) ((prune_subtree tree_prune_node fuel self s).nodes)
  prune_subtree-IsSubtreePruned fuel self s h l =
      let p = prune_subtree-IsPruned fuel self s h l in
      record { more = p.more; prunable = p.prunable; all = λ a b. all_below (s.nodes) _ self a p b }

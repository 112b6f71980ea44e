-- ===== src/SearchTree/Creation/Created.antt =====
-- tree_node.hpp: the new node after its construction, and create_child.
use graph_canon.Base.{
  ℕ, ◌+◌, ◌-◌, ◌≡◌, ◌≢◌, ◌⊎◌, inl, inr, Option, none, some, ◌>>=◌, Bool, true, false, not, update,
  arith, refl, sym, subst, Bool-cases,
}
use graph_canon.Base.Loops.{update_ne}
use graph_canon.Partition.{Partition, Storage}
use graph_canon.SearchTree.{child_partition}
use graph_canon.SearchTree.Nodes.{TreeState, set_node}
use graph_canon.SearchTree.Nodes.Below.{Nodes}
use graph_canon.SearchTree.Creation.{
  NodeVisitor, new_node, set_is_pruned, end_creation, construct, attach_child, create_child,
}
use graph_canon.SearchTree.Creation.Children.{
  KeepsNodes, IsNew, HasPlaces, refine_candidate-IsPlaced,
}

-- The constructor returns, and the node is pruned or has its places for children.
record IsConstructed {V : Type 0} (n self : ℕ) (parent : Option ℕ) (level : ℕ) (s : Nodes)
    (o : Option (TreeState V)) : Type 0 where
  pub after : TreeState V
  pub result : o ≡ some after
  pub new : IsNew self parent level s (after.nodes)
  pub places : ((after.nodes self).is_pruned ≡ true) ⊎ HasPlaces n (after.nodes self)

-- The two ways in which `create_child` answers: the new node is pruned and its place is blocked, or
-- the place holds the node, which has its own places for children unless it is a leaf.
abbrev pub IsAnswer : ℕ → ℕ → ℕ → ℕ → Nodes → Option ℕ → Type 0
IsAnswer n self child_idx child t answer =
    ((answer ≡ none) × ((t child).is_pruned ≡ true) × ((t self).child_pruned child_idx ≡ true))
    ⊎ ((answer ≡ some child)
        × ((t child).is_pruned ≡ false)
        × ((t self).children child_idx ≡ some child)
        × HasPlaces n (t child))

-- What `create_child` leaves of the nodes `s`.
pub record IsChildCreated {V : Type 0} (n self child_idx child : ℕ) (s : Nodes)
    (o : Option (Option ℕ × TreeState V)) : Type 0 where
  pub answer : Option ℕ
  pub after : TreeState V
  pub result : o ≡ some (answer, after)
  pub answered : IsAnswer n self child_idx child (after.nodes) answer
  pub parent : (after.nodes child).parent ≡ some self
  pub level : (after.nodes child).level ≡ (s self).level + 1
  pub no_children : (i : ℕ) → (after.nodes child).children i ≡ none
  pub others : (a : ℕ) → a ≢ self → a ≢ child → after.nodes a ≡ s a
  pub siblings :
      (i : ℕ)
      → i ≢ child_idx
      → ((after.nodes self).children i ≡ (s self).children i)
        × ((after.nodes self).child_pruned i ≡ (s self).child_pruned i)

module _ {V : Type 0} (visitor : NodeVisitor V) (steps : TreeState V → ℕ) (bound : ℕ)
    (keeps : KeepsNodes visitor steps bound) (n : ℕ) where
  set_is_pruned-IsNew :
      (self : ℕ) (parent : Option ℕ) (level : ℕ) (s : Nodes) (b : Bool) (t : TreeState V)
      → IsNew self parent level s (t.nodes)
      → IsNew self parent level s ((set_is_pruned self b t).nodes)
  set_is_pruned-IsNew self parent level s b t w = record {
    others = λ a ne. ground (arith, w.others a);
    parent_set = ground (arith, w.parent_set);
    level_set = ground (arith, w.level_set);
    no_children = λ i. ground (arith, w.no_children i);
    no_pruned = λ i. ground (arith, w.no_pruned i);
  }

  end_creation-IsConstructed :
      (self : ℕ) (parent : Option ℕ) (level : ℕ) (s : Nodes) (b : Bool) (t : TreeState V)
      → IsNew self parent level s (t.nodes)
      → (b ≡ false) ⊎ HasPlaces n (t.nodes self)
      → IsConstructed n self parent level s (some (end_creation visitor self b t))
  end_creation-IsConstructed self parent level s b t w places =
      let marked = set_is_pruned self (not b) t in
      let ended = visitor.tree_create_node_end self marked in
      let same = keeps.ends self marked in
      let w' : IsNew self parent level s (ended.1.nodes) =
        subst (IsNew self parent level s) (sym same)
          (set_is_pruned-IsNew self parent level s (not b) t w) in
      let refused = set_is_pruned self true ended.1 in
      elim (Bool-cases (ended.0)) [
        | inl go_on ↦ rw go_on (record {
          after = ended.1;
          result = refl;
          new = w';
          places =
              subst (λ N. ((N self).is_pruned ≡ true) ⊎ HasPlaces n (N self)) (sym same)
                (elim places [
                  | inl no_candidate ↦ inl (ground arith)
                  | inr p ↦ inr (ground arith)
                ]);
        })
        | inr stop ↦
            let same' = keeps.aborts self refused in
            rw stop (record {
              after = visitor.refine_abort self refused;
              result = refl;
              new =
                  subst (IsNew self parent level s) (sym same')
                    (set_is_pruned-IsNew self parent level s true ended.1 w');
              places = inl (subst (λ N. (N self).is_pruned ≡ true) (sym same') (ground arith));
            })
      ]

  construct-IsConstructed :
      (self : ℕ) (parent : Option ℕ) (level : ℕ) (pi : Partition) (s : TreeState V)
      → IsConstructed n self parent level
          (s.nodes)
          (construct visitor n bound self parent level pi s)
  unfolding construct
  construct-IsConstructed self parent level pi s =
      let started = set_node self (new_node n parent level pi) s in
      let begun = visitor.tree_create_node_begin self started in
      let same = keeps.begins self started in
      let w : IsNew self parent level (s.nodes) (begun.1.nodes) =
        subst (IsNew self parent level (s.nodes)) (sym same) (record {
          others = λ a ne. ground arith;
          parent_set = ground arith;
          level_set = ground arith;
          no_children = λ i. ground arith;
          no_pruned = λ i. ground arith;
        }) in
      let empty : (begun.1.nodes self).children_size ≡ 0 =
        subst (λ N. (N self).children_size ≡ 0) (sym same) (ground arith) in
      let p =
        refine_candidate-IsPlaced visitor steps bound keeps n self parent level (s.nodes) begun.0
          begun.1 w empty in
      rw p.result (
        end_creation-IsConstructed self parent level (s.nodes) p.is_candidate p.after p.new
          p.places)

  attach_child-IsChildCreated :
      (self child_idx child : ℕ) (s : Nodes) (u : TreeState V)
      → child ≢ self
      → IsNew child (some self) ((s self).level + 1) s (u.nodes)
      → ((u.nodes child).is_pruned ≡ true) ⊎ HasPlaces n (u.nodes child)
      → IsChildCreated n self child_idx child s (some (attach_child self child_idx child u))
  attach_child-IsChildCreated self child_idx child s u ne w places =
      let node = u.nodes self in
      let kept : u.nodes self ≡ s self = w.others self (λ e. ne (sym e)) in
      let blocked : TreeState V =
        set_node self (record node { child_pruned = update node.child_pruned child_idx true }) u in
      let linked : TreeState V =
        set_node self (record node { children = update node.children child_idx (some child) }) u in
      elim (Bool-cases ((u.nodes child).is_pruned)) [
        | inl pruned ↦ rw pruned (record {
          answer = none;
          after = blocked;
          result = refl;
          answered = inl (refl, ground (arith, pruned), ground arith);
          parent = ground (arith, w.parent_set);
          level = ground (arith, w.level_set);
          no_children = λ i. ground (arith, w.no_children i);
          others = λ a d e. ground (arith, w.others a);
          siblings = λ i d. ground (arith, kept);
        })
        | inr alive ↦
            let here : linked.nodes child ≡ u.nodes child =
              update_ne u.nodes self child _ (λ e. ne (sym e)) in
            let own : HasPlaces n (u.nodes child) = elim places [
              | inl p ↦ absurd (ground arith)
              | inr q ↦ q
            ] in
            rw alive (record {
              answer = some child;
              after = linked;
              result = refl;
              answered =
                  inr
                    (refl, ground (arith, alive), ground arith, subst (HasPlaces n) (sym here) own);
              parent = ground (arith, w.parent_set);
              level = ground (arith, w.level_set);
              no_children = λ i. ground (arith, w.no_children i);
              others = λ a d e. ground (arith, w.others a);
              siblings = λ i d. ground (arith, kept);
            })
      ]

  -- If the visitors change no node but for `refine`, which changes the partition of its node and asks
  -- for another call only so often, then `create_child` returns for a number that is not the node's
  -- own. Either the new node is pruned, its place is blocked and the answer is a null pointer, or its
  -- place and the answer are the new node, which then is a leaf or has a place for each vertex of its
  -- target cell. Its parent and its level are set, and the other nodes and places stay as they are.
  pub create_child-IsChildCreated :
      (raw : Storage) (child self element_idx : ℕ) (s : TreeState V)
      → child ≢ self
      → IsChildCreated n self
          (element_idx - (s.nodes self).child_refiner_cell)
          child
          (s.nodes)
          (create_child visitor n bound raw child self element_idx s)
  unfolding create_child
  create_child-IsChildCreated raw child self element_idx s ne =
      let t = visitor.tree_create_child self element_idx s in
      let made : TreeState V → Nodes → Option (Option ℕ × TreeState V) = λ u N.
        construct visitor n bound child (some self) ((N self).level + 1)
          (child_partition raw (N self).pi (N self).child_refiner_cell element_idx) u
        >>= λ v. some (attach_child self (element_idx - (N self).child_refiner_cell) child v) in
      let c =
        construct-IsConstructed child (some self) ((t.nodes self).level + 1)
          (child_partition raw (t.nodes self).pi (t.nodes self).child_refiner_cell element_idx) t in
      let idx = element_idx - (t.nodes self).child_refiner_cell in
      subst
        (λ N.
          IsChildCreated n self (element_idx - (N self).child_refiner_cell) child N
            (made t t.nodes))
        (keeps.creates self element_idx s)
        (subst
          (λ o.
            IsChildCreated n self idx child (t.nodes)
              (o >>= λ v. some (attach_child self idx child v)))
          (sym c.result)
          (attach_child-IsChildCreated self idx child (t.nodes) c.after ne c.new c.places))

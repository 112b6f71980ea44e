-- ===== src/SearchTree/Creation/Children.antt =====
-- tree_node.hpp: what the creation of a child does to the store of nodes.
use graph_canon.Base.{
  ℕ, zero, suc, ◌<◌, ◌≡◌, ◌≢◌, ◌⊎◌, inl, inr, Option, none, some, Bool, true, false, not, update,
  ◌==◌, arith, refl, sym, subst, eq-cases, Bool-cases,
}
use graph_canon.Partition.{Partition, get_cell_size, get_num_cells}
use graph_canon.SearchTree.Nodes.{TreeNode, TreeState}
use graph_canon.SearchTree.Nodes.Below.{Nodes}
use graph_canon.SearchTree.Creation.{
  NodeVisitor, set_children, is_again, is_abort, make_equitable, refine_candidate,
}

-- Node `self` has another partition, and all else is as before.
pub record IsRefined (self : ℕ) (s t : Nodes) : Type 0 where
  pub pi : Partition
  pub same : t ≡ update s self (record (s self) { pi = pi })

-- The visitors change no node, but for `refine`, which changes the partition of its node and answers
-- that it is to be called again at most `bound` times.
pub record KeepsNodes {V : Type 0} (visitor : NodeVisitor V) (steps : TreeState V → ℕ) (bound : ℕ)
    : Type 0 where
  pub begins : (a : ℕ) (s : TreeState V) → (visitor.tree_create_node_begin a s).1.nodes ≡ s.nodes
  pub refines : (a : ℕ) (s : TreeState V) → IsRefined a (s.nodes) ((visitor.refine a s).1.nodes)
  pub aborts : (a : ℕ) (s : TreeState V) → (visitor.refine_abort a s).nodes ≡ s.nodes
  pub selects : (a : ℕ) (s : TreeState V) → (visitor.select_target_cell a s).1.nodes ≡ s.nodes
  pub ends : (a : ℕ) (s : TreeState V) → (visitor.tree_create_node_end a s).1.nodes ≡ s.nodes
  pub creates : (a i : ℕ) (s : TreeState V) → (visitor.tree_create_child a i s).nodes ≡ s.nodes
  pub few : (s : TreeState V) → steps s < bound
  pub fewer :
      (a : ℕ) (s : TreeState V)
      → is_again (visitor.refine a s).0 ≡ true
      → steps (visitor.refine a s).1 < steps s

-- The node `self` under construction: no other node is changed, and its children are places that
-- nothing is known of.
pub record IsNew (self : ℕ) (parent : Option ℕ) (level : ℕ) (s t : Nodes) : Type 0 where
  pub others : (a : ℕ) → a ≢ self → t a ≡ s a
  pub parent_set : (t self).parent ≡ parent
  pub level_set : (t self).level ≡ level
  pub no_children : (i : ℕ) → (t self).children i ≡ none
  pub no_pruned : (i : ℕ) → (t self).child_pruned i ≡ false

-- It has no children, or as many as the vertices of its target cell.
abbrev pub HasPlaces : ℕ → TreeNode → Type 0
HasPlaces n node =
    ((get_num_cells node.pi ≡ n) × (node.children_size ≡ 0))
    ⊎ (node.children_size ≡ get_cell_size node.pi node.child_refiner_cell)

module _ {V : Type 0} (visitor : NodeVisitor V) (steps : TreeState V → ℕ) (bound : ℕ)
    (keeps : KeepsNodes visitor steps bound) (n self : ℕ) (parent : Option ℕ) (level : ℕ)
    (s : Nodes) where
  record IsEquitable (o : Option (Bool × TreeState V)) : Type 0 where
    pub is_candidate : Bool
    pub after : TreeState V
    pub result : o ≡ some (is_candidate, after)
    pub new : IsNew self parent level s (after.nodes)
    pub size : (after.nodes self).children_size ≡ 0

  refined-IsNew :
      (t : TreeState V)
      → IsNew self parent level s (t.nodes)
      → (t.nodes self).children_size ≡ 0
      → (let u = (visitor.refine self t).1 in
          IsNew self parent level s (u.nodes) × ((u.nodes self).children_size ≡ 0))
  refined-IsNew t w e =
      let r = keeps.refines self t in
      subst (λ N. IsNew self parent level s N × ((N self).children_size ≡ 0)) (sym r.same)
        (
          record {
            others = λ a ne. ground (arith, w.others a);
            parent_set = ground (arith, w.parent_set);
            level_set = ground (arith, w.level_set);
            no_children = λ i. ground (arith, w.no_children i);
            no_pruned = λ i. ground (arith, w.no_pruned i);
          },
          ground arith,
        )

  make_equitable-IsEquitable :
      (fuel : ℕ) (t : TreeState V)
      → IsNew self parent level s (t.nodes)
      → (t.nodes self).children_size ≡ 0
      → steps t < fuel
      → IsEquitable (make_equitable visitor fuel self t)
  unfolding make_equitable
  make_equitable-IsEquitable zero t w e l = absurd (omega arith)
  make_equitable-IsEquitable (suc fuel) t w e l =
      let r = visitor.refine self t in
      let (w', e') = refined-IsNew t w e in
      elim (Bool-cases (is_again r.0)) [
        | inl again ↦
            rw again
              (make_equitable-IsEquitable fuel r.1 w' e' (omega (arith, keeps.fewer self t again)))
        | inr done ↦ rw done (record {
          is_candidate = not (is_abort r.0);
          after = r.1;
          result = refl;
          new = w';
          size = e';
        })
      ]

  -- A candidate has its places for children.
  pub record IsPlaced (o : Option (Bool × TreeState V)) : Type 0 where
    pub is_candidate : Bool
    pub after : TreeState V
    pub result : o ≡ some (is_candidate, after)
    pub new : IsNew self parent level s (after.nodes)
    pub places : (is_candidate ≡ false) ⊎ HasPlaces n (after.nodes self)

  select_children-IsNew :
      (t : TreeState V) (cell : ℕ)
      → IsNew self parent level s (t.nodes)
      → IsNew self parent level s ((set_children self cell t).nodes)
        × HasPlaces n ((set_children self cell t).nodes self)
  select_children-IsNew t cell w = (
    record {
      others = λ a ne. ground (arith, w.others a);
      parent_set = ground (arith, w.parent_set);
      level_set = ground (arith, w.level_set);
      no_children = λ i. ground arith;
      no_pruned = λ i. ground arith;
    },
    ground arith,
  )

  pub refine_candidate-IsPlaced :
      (b : Bool) (t : TreeState V)
      → IsNew self parent level s (t.nodes)
      → (t.nodes self).children_size ≡ 0
      → IsPlaced (refine_candidate visitor n bound self b t)
  refine_candidate-IsPlaced false t w e = record {
    is_candidate = false;
    after = visitor.refine_abort self t;
    result = refl;
    new = subst (IsNew self parent level s) (sym (keeps.aborts self t)) w;
    places = inl refl;
  }
  refine_candidate-IsPlaced true t w e =
      let q = make_equitable-IsEquitable bound t w e (keeps.few t) in
      let (cell, u) = visitor.select_target_cell self q.after in
      let w' : IsNew self parent level s (u.nodes) =
        subst (IsNew self parent level s) (sym (keeps.selects self q.after)) q.new in
      let (chosen, places) = select_children-IsNew u cell w' in
      rw q.result (elim (Bool-cases (q.is_candidate)) [
        | inr no_candidate ↦ rw no_candidate (record {
          is_candidate = false;
          after = q.after;
          result = refl;
          new = q.new;
          places = inl refl;
        })
        | inl candidate ↦ elim (eq-cases (get_num_cells (q.after.nodes self).pi) n) [
          | inl leaf ↦
              let test : (get_num_cells (q.after.nodes self).pi == n) ≡ true = ground arith in
              rw (candidate, test)
                (record {
                  is_candidate = true;
                  after = q.after;
                  result = refl;
                  new = q.new;
                  places = inr (inl (leaf, q.size));
                })
          | inr inner ↦
              let test : (get_num_cells (q.after.nodes self).pi == n) ≡ false = ground arith in
              rw (candidate, test)
                (record {
                  is_candidate = true;
                  after = set_children self cell u;
                  result = refl;
                  new = chosen;
                  places = inr places;
                })
        ]
      ])

-- ===== src/AutPruner.antt =====
-- include/graph_canon/aut/pruner_base.hpp: how the pruner joins the children of a node that the new
-- automorphisms map to each other, and prunes all but one of them. A child is its local index.
pub mod Leaf
pub mod LeafPruning
pub mod Forest
pub mod Orbits
pub mod Update
pub mod Node
use graph_canon.Base.{
  ℕ, zero, suc, ◌+◌, ◌-◌, Bool, true, false, Option, none, some, ◌>>=◌, List, [], ◌∷◌, Array,
  update, ltb, ◌==◌, if◌then◌else◌,
}
use graph_canon.Base.Loops.{for_up}
use graph_canon.Partition.{Partition}

-- The members of `tree_data` and of the node that the joining of children reads and writes. A vector
-- `parent` that is still empty has size 0. A call `child->prune_subtree(state)` is recorded by the
-- index of the child, the last one first.
pub record ChildSets : Type 0 where
  pub parent_size : ℕ
  pub parent : Array
  pub num_roots : ℕ
  pub child_pruned : ℕ → Bool
  pub pruned_subtrees : List ℕ

-- `parent.resize(num_children)` and the loop that makes each child a set of its own. The loop writes
-- every entry, so the zeros that `resize` writes are not seen.
unfoldable pub make_sets : ℕ → ChildSets → ChildSets
unfolding for_up
make_sets num_children s = record s {
  parent_size = num_children;
  parent = for_up (λ i a. update a i i) 0 num_children (λ i. 0);
  num_roots = num_children - 1;
}

-- `find_root(self)`, and `parent` after it; `none` is the lack of fuel.
unfoldable pub find_root : ℕ → ℕ → Array → Option (ℕ × Array)
find_root zero self parent = none
find_root (suc fuel) self parent =
    let p = parent self in
    let pp = parent p in
    let rest = find_root fuel p (update parent self pp) in
    if p == self then some (self, parent) else if pp == p then some (p, parent) else rest

-- `i == canon_child_local_idx`, where `none` is the -1 that is no index.
abbrev pub is_canon_child : Option ℕ → ℕ → Bool
is_canon_child none i = false
is_canon_child (some c) i = i == c

-- The set that stays a root, and the one that is joined to it: `new_root` and `other`.
unfoldable pub choose_root : Option ℕ → (ℕ → Bool) → ℕ → ℕ → ℕ × ℕ
choose_root canon child_pruned root root_image =
    if is_canon_child canon root
    then (root, root_image)
    else if is_canon_child canon root_image
    then (root_image, root)
    else if child_pruned root
    then (root_image, root)
    else if ltb root_image root
    then (root_image, root)
    else (root, root_image)

-- What follows the choice: `other` is pruned. `children i` tells whether `children[i]` is a node.
unfoldable pub join_sets : (ℕ → Bool) → ℕ × ℕ → ChildSets → ChildSets
join_sets children (new_root, other) s = record s {
  parent = update s.parent other new_root;
  num_roots = s.num_roots - 1;
  child_pruned = update s.child_pruned other true;
  pruned_subtrees = if children other then other ∷ s.pruned_subtrees else s.pruned_subtrees;
}

-- `per_point`, from the two local indices on.
unfoldable pub per_point : Option ℕ → (ℕ → Bool) → ℕ → ℕ → ChildSets → Option ChildSets
unfolding find_root choose_root join_sets
per_point canon children idx_local image_idx_local s =
    find_root s.parent_size idx_local s.parent >>= λ (root, parent).
    find_root s.parent_size image_idx_local parent >>= λ (root_image, parent').
    let t = record s { parent = parent' } in
    if root == root_image
    then some t
    else some (join_sets children (choose_root canon s.child_pruned root root_image) t)

-- The local index of the image of a child under an automorphism.
abbrev pub local_image : Partition → ℕ → (ℕ → ℕ) → ℕ → ℕ
local_image pi cell_begin aut i = pi.inverse (aut (pi.elements (i + cell_begin))) - cell_begin

-- The loop over the children, from `idx_local` with `rounds` of them left.
unfoldable pub visit_points :
    Partition → ℕ → Option ℕ → (ℕ → Bool) → (ℕ → ℕ) → ℕ → ℕ → ChildSets → Option ChildSets
unfolding per_point
visit_points pi cell_begin canon children aut zero idx_local s = some s
visit_points pi cell_begin canon children aut (suc rounds) idx_local s =
    let next = visit_points pi cell_begin canon children aut rounds (idx_local + 1) in
    let v_idx = pi.elements (idx_local + cell_begin) in
    let point =
      per_point canon children idx_local (local_image pi cell_begin aut idx_local) s >>= λ t.
      if t.num_roots == 0 then some t else next t in
    if v_idx == aut v_idx then next s else point

-- The loop over the new automorphisms.
unfoldable pub visit_automorphisms :
    Partition → ℕ → Option ℕ → (ℕ → Bool) → List (ℕ → ℕ) → ℕ → ChildSets → Option ChildSets
unfolding visit_points
visit_automorphisms pi cell_begin canon children [] num_children s = some s
visit_automorphisms pi cell_begin canon children (aut ∷ auts) num_children s =
    visit_points pi cell_begin canon children aut num_children 0 s >>= λ t.
    let rest = visit_automorphisms pi cell_begin canon children auts num_children t in
    if t.num_roots == 0 then some t else rest

-- One node of the path with its new automorphisms: the sets are made at its first update, and a node
-- whose children are one set already is left alone.
unfoldable pub update_node :
    Partition → ℕ → Option ℕ → (ℕ → Bool) → List (ℕ → ℕ) → ℕ → ChildSets → Option ChildSets
unfolding make_sets visit_automorphisms
update_node pi cell_begin canon children [] num_children s = some s
update_node pi cell_begin canon children (aut ∷ auts) num_children s =
    let visit = visit_automorphisms pi cell_begin canon children (aut ∷ auts) num_children in
    if s.parent_size == 0
    then visit (make_sets num_children s)
    else if s.num_roots == 0
    then some s
    else visit s

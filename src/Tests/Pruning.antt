-- ===== src/Tests/Pruning.antt =====
-- aut/pruner_base.hpp at small inputs.
use graph_canon.Base.{
  ℕ, ◌≡◌, ◌⊎◌, inl, inr, refl, arith, [], ◌∷◌, ◌==◌, if◌then◌else◌, some, none, Option, Bool, true,
  false, ◌>>=◌, subst,
}
use graph_canon.Partition.{Partition, Storage, unit_partition}
use graph_canon.Partition.Constructors.{unit_partition-IsPartition}
use graph_canon.SearchTree.{Ancestry}
use graph_canon.SearchTree.Ancestors.{IsTree}
use graph_canon.AutPruner.{ChildSets, update_node}
use graph_canon.AutPruner.Leaf.{pruned_node}
use graph_canon.AutPruner.Update.{MapsCell}
use graph_canon.AutPruner.Node.{IsOrbitSets, IsMapped, update_node-IsOrbitSets, update_node-extends}

-- The four children of a node with the unit partition, none of them visited or pruned.
abbrev storage : Storage
storage = record {
  elements = λ i. 9;
  inverse = λ i. 9;
  next_cell_begin = λ i. 9;
  cell_from_v_idx = λ i. 9;
}

abbrev unit : Partition
unit = unit_partition 4 storage

abbrev no_sets : ChildSets
no_sets = record {
  parent_size = 0;
  parent = λ i. 9;
  num_roots = 0;
  child_pruned = λ i. false;
  pruned_subtrees = [];
}

abbrev swap_first : ℕ → ℕ
swap_first v = if v == 0 then 1 else if v == 1 then 0 else v

abbrev swap_last : ℕ → ℕ
swap_last v = if v == 2 then 3 else if v == 3 then 2 else v

-- Child 1 is on the path to the canonical leaf, so child 0 is pruned.
abbrev after_first : Option ChildSets
after_first = update_node unit 0 (some 1) (λ i. i == 0) (swap_first ∷ []) 4 no_sets

abbrev pruned_children : Option ChildSets → Option (Bool × Bool × Bool × Bool)
pruned_children o =
    o >>= λ s. some (s.child_pruned 0, s.child_pruned 1, s.child_pruned 2, s.child_pruned 3)

update_node_run :
    (pruned_children after_first ≡ some (true, false, false, false))
    × ((after_first >>= λ s. some s.pruned_subtrees) ≡ some (0 ∷ []))
    × ((after_first >>= λ s. some s.num_roots) ≡ some 2)
    × (pruned_children (after_first >>= update_node unit 0 none (λ i. true) (swap_last ∷ []) 4)
        ≡ some (true, false, false, true))
unfolding update_node unit_partition
update_node_run = (refl, refl, refl, refl)

swap_first-MapsCell : MapsCell unit 0 4 swap_first
unfolding unit_partition
swap_first-MapsCell = record { image_in = λ i l. ground arith }

swap_last-MapsCell : MapsCell unit 0 4 swap_last
unfolding unit_partition
swap_last-MapsCell = record { image_in = λ i l. ground arith }

update_node-IsOrbitSets_example :
    IsOrbitSets
      (IsMapped unit 0 4 (swap_first ∷ []))
      (some 1)
      (λ i. false)
      4
      (update_node unit 0 (some 1) (λ i. i == 0) (swap_first ∷ []) 4 no_sets)
unfolding unit_partition
update_node-IsOrbitSets_example =
    update_node-IsOrbitSets (some 1) 4 unit 0 (λ i. i == 0) swap_first [] no_sets
      (unit_partition-IsPartition 4 storage).inverse (omega arith) (omega arith)
      (swap_first-MapsCell, tt) refl (λ c e. refl)

first_sets : IsOrbitSets (IsMapped unit 0 4 (swap_first ∷ [])) (some 1) (λ i. false) 4 after_first
unfolding unit_partition
first_sets =
    update_node-IsOrbitSets (some 1) 4 unit 0 (λ i. i == 0) swap_first [] no_sets
      (unit_partition-IsPartition 4 storage).inverse (omega arith) (omega arith)
      (swap_first-MapsCell, tt) refl (λ c e. refl)

update_node-extends_example :
    IsOrbitSets
      (λ a b. IsMapped unit 0 4 (swap_first ∷ []) a b ⊎ IsMapped unit 0 4 (swap_last ∷ []) a b)
      none
      first_sets.sets.child_pruned
      4
      (update_node unit 0 none (λ i. true) (swap_last ∷ []) 4 first_sets.sets)
unfolding unit_partition
update_node-extends_example =
    update_node-extends (IsMapped unit 0 4 (swap_first ∷ [])) (some 1) none (λ i. false) 4 unit 0
      (λ i. true) (swap_last ∷ []) first_sets.sets (unit_partition-IsPartition 4 storage).inverse
      (omega arith) (omega arith) (swap_last-MapsCell, tt)
      (λ a b r. elim r.1 [
        | inl e ↦ (r.0, ground (arith, swap_first-MapsCell.image_in a r.0))
        | inr no_image ↦ absurd no_image
      ])
      (subst (λ o. IsOrbitSets (IsMapped unit 0 4 (swap_first ∷ [])) (some 1) (λ i. false) 4 o)
        first_sets.result first_sets)
      (λ c e. absurd (ground arith))

-- The root 0 with the children 1 and 2, and the children 3 and 4 of node 1.
abbrev small_tree : Ancestry
small_tree = record {
  size = 5;
  parent =
      λ a. if a == 0 then none else if a == 1 then some 0 else if a == 2 then some 0 else some 1;
  level = λ a. if a == 0 then 0 else if a == 1 then 1 else if a == 2 then 1 else 2;
}

small_tree-IsTree : IsTree small_tree
small_tree-IsTree = record {
  parent_in = λ a p l e. ground arith;
  parent_level = λ a p l e. ground arith;
  root_level = λ a l e. ground arith;
  one_root = λ a b l m e f. ground arith;
}

-- A leaf beside the canonical one is pruned itself, and a leaf further away with the subtree above it.
pruned_node_run :
    (pruned_node small_tree 3 4 ≡ some 4)
    × (pruned_node small_tree 2 4 ≡ some 1)
    × (pruned_node small_tree 4 2 ≡ some 2)
unfolding pruned_node
pruned_node_run = (refl, refl, refl)

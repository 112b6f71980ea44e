-- ===== src/Tests/Creation.antt =====
-- The creation of a node of detail/tree_node.hpp at a small input.
use graph_canon.Base.{ℕ, ◌≡◌, refl, arith, [], ◌∷◌, some, none, Option, Bool, true, false, ◌>>=◌}
use graph_canon.Partition.{Partition, Storage, unit_partition}
use graph_canon.Partition.Splitter.{split_at}
use graph_canon.Refine.Refinee.{RefinementResult}
use graph_canon.SearchTree.Nodes.{TreeState, set_node}
use graph_canon.SearchTree.Creation.{NodeVisitor, new_node, create_child}
use graph_canon.SearchTree.Creation.Children.{KeepsNodes}
use graph_canon.SearchTree.Creation.Created.{IsChildCreated, create_child-IsChildCreated}

abbrev storage : Storage
storage = record {
  elements = λ i. 9;
  inverse = λ i. 9;
  next_cell_begin = λ i. 9;
  cell_from_v_idx = λ i. 9;
}

-- The visitors refine every node to two cells of two vertices, and let `tree_create_node_end` decide
-- whether the node is kept.
abbrev halves : Partition
halves = split_at 0 (2 ∷ []) (unit_partition 4 storage)

abbrev two_cells : Bool → NodeVisitor (Unit {0})
two_cells kept = record {
  tree_create_node_begin = λ a s. (true, s);
  refine = λ a s. (RefinementResult.changed, set_node a (record (s.nodes a) { pi = halves }) s);
  refine_abort = λ a s. s;
  select_target_cell = λ a s. (2, s);
  tree_create_node_end = λ a s. (kept, s);
  tree_create_child = λ a i s. s;
}

two_cells-KeepsNodes : (kept : Bool) → KeepsNodes (two_cells kept) (λ s. 0) 1
two_cells-KeepsNodes kept = record {
  begins = λ a s. refl;
  refines = λ a s. record { pi = halves; same = refl };
  aborts = λ a s. refl;
  selects = λ a s. refl;
  ends = λ a s. refl;
  creates = λ a i s. refl;
  few = λ s. omega arith;
  fewer = λ a s e. absurd (ground arith);
}

-- The root alone, with a place for each of its four vertices.
abbrev root_state : TreeState (Unit {0})
root_state = record {
  nodes = λ a. record (new_node 4 none 0 (unit_partition 4 storage)) {
    children_size = 4;
    child_refiner_cell = 0;
  };
  canon_leaf = none;
  vis = tt;
}

abbrev answer_of : Option (Option ℕ × TreeState (Unit {0})) → Option (Option ℕ)
answer_of o = o >>= λ (answer, s). some answer

abbrev blocked_of : Option (Option ℕ × TreeState (Unit {0})) → Option Bool
blocked_of o = o >>= λ (answer, s). some ((s.nodes 0).child_pruned 3)

create_child_run :
    (answer_of (create_child (two_cells true) 4 1 storage 1 0 3 root_state) ≡ some (some 1))
    × (answer_of (create_child (two_cells false) 4 1 storage 1 0 3 root_state) ≡ some none)
    × (blocked_of (create_child (two_cells true) 4 1 storage 1 0 3 root_state) ≡ some false)
    × (blocked_of (create_child (two_cells false) 4 1 storage 1 0 3 root_state) ≡ some true)
unfolding create_child unit_partition split_at
create_child_run = (refl, refl, refl, refl)

create_child-IsChildCreated_example :
    IsChildCreated 4 0 3 1 root_state.nodes
      (create_child (two_cells true) 4 1 storage 1 0 3 root_state)
create_child-IsChildCreated_example =
    create_child-IsChildCreated (two_cells true) (λ s. 0) 1 (two_cells-KeepsNodes true) 4 storage 1
      0 3 root_state (ground arith)

-- ===== src/Tests/Traversals.antt =====
-- tree_traversal at a small tree.
use graph_canon.Base.{
  ℕ, ◌+◌, ◌≡◌, refl, arith, List, [], ◌∷◌, ◌==◌, ltb, ◌&&◌, if◌then◌else◌, some, none, false,
}
use graph_canon.Traversal.{Operations}
use graph_canon.Traversal.Dfs.{traverse}
use graph_canon.Traversal.Dfs.Recursion.{IsFinite, IsTraversed, traverse-IsTraversed}

-- Node 1 has the children 2 and 3, node 2 the children 4 and 5, node 3 the children 6 and 7, of which
-- 6 is pruned. The state is the list of the reported leaves, the last one first.
abbrev small : Operations (List ℕ)
small = record {
  tree_before_descend = λ a s. s;
  get_is_pruned = λ a s. false;
  children_size = λ a s. if ltb a 4 then 2 else 0;
  child_pruned = λ a i s. (a == 3) && (i == 0);
  create_child = λ a i s. (s, if ltb 0 a && ltb a 4 then some (a + a + i) else none);
  report_leaf = λ a s. a ∷ s;
}

abbrev height_of : ℕ → ℕ
height_of a = if a == 0 then 4 else if a == 1 then 3 else if ltb a 4 then 2 else 0

traverse_run : traverse small 20 1 [] ≡ some (7 ∷ 5 ∷ 4 ∷ [])
unfolding traverse
traverse_run = refl

small-IsFinite : IsFinite small height_of 2
small-IsFinite = record { few = λ p s. ground arith; lower = λ p i c s e. ground arith }

traverse-IsTraversed_example : IsTraversed small height_of 2 1 []
traverse-IsTraversed_example = traverse-IsTraversed small height_of 2 1 [] small-IsFinite

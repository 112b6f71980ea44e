-- ===== src/Tests/Graphs.antt =====
-- ordered_graph.hpp and compare.hpp at small graphs.
use graph_canon.Base.{
  ℕ, ◌≡◌, refl, arith, List, [], ◌∷◌, ◌==◌, ltb, if◌then◌else◌, some, Bool, true, false,
}
use graph_canon.PermutedGraph.{Graph}
use graph_canon.OrderedGraph.{OrderedGraph, make_ordered_graph}
use graph_canon.OrderedGraph.Compare.{
  ordered_graph_less, ordered_graph_equal, graph_difference, at_out_edge, at_out_degree,
}
use graph_canon.OrderedGraph.Order.{IsTotalOrder, ordered_graph_less-IsTotalOrder}
use graph_canon.OrderedGraph.Difference.{IsDifference, graph_difference-IsDifference}

-- A graph of two vertices: edge `e` leads to vertex `e`, and both kinds of labels are equal.
abbrev graph : List ℕ → List ℕ → Graph ℕ
graph first second = record {
  n = 2;
  out_edges = λ v. if v == 0 then first else second;
  target = λ e. e;
}

-- The index map exchanges the vertices.
abbrev exchange : ℕ → ℕ
exchange v = if v == 0 then 1 else if v == 1 then 0 else v

abbrev keep_order : (ℕ → ℕ → Bool) → List ℕ → List ℕ
keep_order less es = es

abbrev none_less : ℕ → ℕ → Bool
none_less a b = false

abbrev all_equal : ℕ → ℕ → Bool
all_equal a b = true

abbrev view : List ℕ → List ℕ → OrderedGraph ℕ
view first second =
    make_ordered_graph keep_order (λ i. record { v = 9; out_edges = [] }) (graph first second)
      exchange none_less

abbrev single : OrderedGraph ℕ
single = view (1 ∷ []) []

abbrev looped : OrderedGraph ℕ
looped = view (0 ∷ []) []

comparison_run :
    (ordered_graph_less single looped none_less none_less all_equal all_equal ≡ true)
    × (ordered_graph_less looped single none_less none_less all_equal all_equal ≡ false)
    × (graph_difference single looped all_equal all_equal ≡ some (at_out_edge 1 0))
    × (ordered_graph_equal single single all_equal all_equal ≡ true)
    × (graph_difference single (view [] []) all_equal all_equal ≡ some (at_out_degree 0 0))
unfolding make_ordered_graph ordered_graph_less graph_difference ordered_graph_equal
comparison_run = (refl, refl, refl, refl, refl)

unlabelled : IsTotalOrder none_less all_equal
unlabelled = record {
  reflexive = λ x. refl;
  symmetric = λ x y. refl;
  trichotomy = λ x y. refl;
  transitive = λ x y z a b. a;
  congruent = λ x y z a. refl;
}

labels : IsTotalOrder ltb ◌==◌
labels = record {
  reflexive = λ x. ground arith;
  symmetric = λ x y. ground arith;
  trichotomy = λ x y. ground arith;
  transitive = λ x y z a b. ground arith;
  congruent = λ x y z a. ground arith;
}

ordered_graph_less-IsTotalOrder_example :
    IsTotalOrder
      (λ (g h : OrderedGraph ℕ). ordered_graph_less g h ltb none_less ◌==◌ all_equal)
      (λ g h. ordered_graph_equal g h ◌==◌ all_equal)
ordered_graph_less-IsTotalOrder_example =
    ordered_graph_less-IsTotalOrder ltb ◌==◌ none_less all_equal labels unlabelled

graph_difference-IsDifference_example :
    IsDifference single looped all_equal all_equal (at_out_edge 1 0)
unfolding make_ordered_graph graph_difference
graph_difference-IsDifference_example =
    graph_difference-IsDifference single looped all_equal all_equal (at_out_edge 1 0) refl

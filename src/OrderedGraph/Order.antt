-- ===== src/OrderedGraph/Order.antt =====
-- compare.hpp: the comparisons of ordered graphs are a strict total order.
use graph_canon.Base.{ℕ, ◌≡◌, Bool, true, not, ◌&&◌, arith}
use graph_canon.OrderedGraph.{OrderedGraph}
use graph_canon.OrderedGraph.Compare.{ordered_graph_less, ordered_graph_equal}
use graph_canon.OrderedGraph.Lexicographic.{IsOrder, compare_by}
use graph_canon.OrderedGraph.Contents.{
  compare_graphs, compare_graphs-IsOrder, ordered_graph_less-compare, ordered_graph_equal-compare,
}

-- A strict total order up to a test for being equal, both as Boolean tests.
pub record IsTotalOrder {A : Type 0} (less equal : A → A → Bool) : Type 0 where
  pub reflexive : (x : A) → equal x x ≡ true
  pub symmetric : (x y : A) → equal y x ≡ equal x y
  pub trichotomy : (x y : A) → less y x ≡ (not (equal x y) && not (less x y))
  pub transitive : (x y z : A) → less x y ≡ true → less y z ≡ true → less x z ≡ true
  pub congruent : (x y z : A) → equal x y ≡ true → less x z ≡ less y z

compare_by-IsOrder :
    {A : Type 0} (less equal : A → A → Bool)
    → IsTotalOrder less equal
    → IsOrder (compare_by equal less)
compare_by-IsOrder less equal h = record {
  flip = λ x y. ground (arith, h.symmetric x y, h.trichotomy x y);
  trans = λ x y z a b. ground (
    arith,
    h.transitive x y z,
    h.symmetric x y,
    h.symmetric x z,
    h.symmetric y z,
    h.trichotomy x z,
    h.trichotomy z x,
    h.trichotomy y x,
    h.congruent x z y,
    h.trichotomy y z,
    h.trichotomy x y,
  );
  left = λ x y z a. ground (
    arith,
    h.congruent x y z,
    h.congruent z x y,
    h.congruent z y x,
    h.symmetric x z,
    h.symmetric y z,
    h.symmetric x y,
    h.trichotomy x y,
    h.trichotomy y x,
    h.trichotomy x z,
    h.trichotomy y z,
    h.trichotomy z x,
    h.trichotomy z y,
  );
}

-- If the tests on vertices and those on edges are each a strict total order up to their test for being
-- equal, then `ordered_graph_less` and `ordered_graph_equal` are one on graphs.
pub ordered_graph_less-IsTotalOrder :
    {E : Type 0} (vertex_less vertex_equal : ℕ → ℕ → Bool) (edge_less edge_equal : E → E → Bool)
    → IsTotalOrder vertex_less vertex_equal
    → IsTotalOrder edge_less edge_equal
    → IsTotalOrder
        (λ (g h : OrderedGraph E).
          ordered_graph_less g h vertex_less edge_less vertex_equal edge_equal)
        (λ g h. ordered_graph_equal g h vertex_equal edge_equal)
ordered_graph_less-IsTotalOrder vertex_less vertex_equal edge_less edge_equal v e =
    let c = compare_graphs vertex_less edge_less vertex_equal edge_equal in
    let order =
      compare_graphs-IsOrder vertex_less edge_less vertex_equal edge_equal
        (compare_by-IsOrder vertex_less vertex_equal v)
        (compare_by-IsOrder edge_less edge_equal e) in
    let less = ordered_graph_less-compare vertex_less edge_less vertex_equal edge_equal in
    let equal = ordered_graph_equal-compare vertex_less edge_less vertex_equal edge_equal in
    record {
      reflexive = λ x. ground (arith, equal x x, order.flip x x);
      symmetric = λ x y. ground (arith, equal x y, equal y x, order.flip x y);
      trichotomy = λ x y. ground (arith, equal x y, less x y, less y x, order.flip x y);
      transitive = λ x y z a b. ground (arith, less x y, less y z, less x z, order.trans x y z);
      congruent = λ x y z a. ground (arith, equal x y, less x z, less y z, order.left x y z);
    }

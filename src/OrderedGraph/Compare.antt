-- ===== src/OrderedGraph/Compare.antt =====
-- include/graph_canon/compare.hpp: the comparison of two ordered graphs. An iterator is the list of
-- what is left of its range; an early `return` is a `some`.
use graph_canon.Base.{
  ℕ, zero, suc, ◌+◌, List, [], ◌∷◌, Option, none, some, Bool, true, false, not, ◌==◌, ltb,
  if◌then◌else◌,
}
use graph_canon.OrderedGraph.{OrderedGraph, num_vertices, vertex_at, out_edges, out_degree, target}

-- The member function of the visitor that `ordered_graph_equal` calls, and its arguments.
pub data Difference (E : Type 0) : Type 0 where
  at_num_vertices : Difference E
  at_vertex_compare : ℕ → ℕ → Difference E
  at_out_degree : ℕ → ℕ → Difference E
  at_out_edge : E → E → Difference E
  at_edge_compare : E → E → Difference E

-- The value of the first part that returns, or of the rest.
abbrev pub or_else {ℓ} : {A : Type ℓ} → Option A → Option A → Option A
or_else none rest = rest
or_else (some a) rest = some a

module _ {E : Type 0} (left right : OrderedGraph E) (vertex_equal : ℕ → ℕ → Bool)
    (edge_equal : E → E → Bool) where
  -- The inner loop of `ordered_graph_equal`. The degrees are equal, so both ranges end together.
  unfoldable pub differ_edges : List E → List E → Option (Difference E)
  differ_edges [] fs = none
  differ_edges (e ∷ es) [] = none
  differ_edges (e ∷ es) (f ∷ fs) =
      let v_idx_left = left.idx (target left e) in
      let v_idx_right = right.idx (target right f) in
      let rest = differ_edges es fs in
      if not (v_idx_left == v_idx_right)
      then some (at_out_edge e f)
      else if not (edge_equal e f)
      then some (at_edge_compare e f)
      else rest

  -- The body of the outer loop, for the vertices that the iterators give.
  unfoldable pub differ_vertex : ℕ → ℕ → Option (Difference E)
  unfolding differ_edges
  differ_vertex u v =
      if not (vertex_equal u v)
      then some (at_vertex_compare u v)
      else if not (out_degree left u == out_degree right v)
      then some (at_out_degree u v)
      else differ_edges (out_edges left u) (out_edges right v)

  -- The outer loop, from index `i` with `rounds` vertices left.
  unfoldable pub differ_vertices : ℕ → ℕ → Option (Difference E)
  unfolding differ_vertex
  differ_vertices i zero = none
  differ_vertices i (suc rounds) =
      or_else (differ_vertex (vertex_at left i) (vertex_at right i))
        (differ_vertices (i + 1) rounds)

  -- What the visitor of `ordered_graph_equal` is told.
  unfoldable pub graph_difference : Option (Difference E)
  unfolding differ_vertices
  graph_difference =
      if not (num_vertices left == num_vertices right)
      then some at_num_vertices
      else differ_vertices 0 (num_vertices left)

  -- What `ordered_graph_equal` returns.
  unfoldable pub ordered_graph_equal : Bool
  unfolding graph_difference
  ordered_graph_equal = elim graph_difference [ none ↦ true | some d ↦ false ]

module _ {E : Type 0} (left right : OrderedGraph E) (vertex_less : ℕ → ℕ → Bool)
    (edge_less : E → E → Bool) (vertex_equal : ℕ → ℕ → Bool) (edge_equal : E → E → Bool) where
  -- The inner loop of `ordered_graph_less`.
  unfoldable pub less_edges : List E → List E → Option Bool
  less_edges [] fs = none
  less_edges (e ∷ es) [] = none
  less_edges (e ∷ es) (f ∷ fs) =
      let v_idx_left = left.idx (target left e) in
      let v_idx_right = right.idx (target right f) in
      let rest = less_edges es fs in
      if not (v_idx_left == v_idx_right)
      then some (ltb v_idx_left v_idx_right)
      else if not (edge_equal e f)
      then some (edge_less e f)
      else rest

  unfoldable pub less_vertex : ℕ → ℕ → Option Bool
  unfolding less_edges
  less_vertex u v =
      if not (vertex_equal u v)
      then some (vertex_less u v)
      else if not (out_degree left u == out_degree right v)
      then some (ltb (out_degree left u) (out_degree right v))
      else less_edges (out_edges left u) (out_edges right v)

  unfoldable pub less_vertices : ℕ → ℕ → Option Bool
  unfolding less_vertex
  less_vertices i zero = none
  less_vertices i (suc rounds) =
      or_else (less_vertex (vertex_at left i) (vertex_at right i)) (less_vertices (i + 1) rounds)

  unfoldable pub ordered_graph_less : Bool
  unfolding less_vertices
  ordered_graph_less =
      if not (num_vertices left == num_vertices right)
      then ltb (num_vertices left) (num_vertices right)
      else elim (less_vertices 0 (num_vertices left)) [ none ↦ false | some b ↦ b ]

-- ===== src/OrderedGraph/Contents.antt =====
-- compare.hpp: the two comparisons of ordered graphs are one lexicographic comparison of what the
-- graphs hold.
use graph_canon.Base.{
  ℕ, zero, suc, ◌+◌, ◌≡◌, List, [], ◌∷◌, Option, none, some, Bool, true, false, length, arith, refl,
  eq-cases, inl, inr, ap,
}
use graph_canon.OrderedGraph.{OrderedGraph, num_vertices, vertex_at, out_edges, target}
use graph_canon.OrderedGraph.Compare.{
  or_else, less_edges, less_vertex, less_vertices, ordered_graph_less, differ_edges, differ_vertex,
  differ_vertices, graph_difference, ordered_graph_equal,
}
use graph_canon.OrderedGraph.Lexicographic.{
  IsOrder, compare_ℕ, compare_by, compare_lists, compare_sized, compare_ℕ-IsOrder, or_else-IsOrder,
  via-IsOrder, compare_sized-IsOrder,
}

abbrev pub is_none {ℓ} : {A : Type ℓ} → Option A → Bool
is_none none = true
is_none (some a) = false

module _ {E : Type 0} where
  -- What the comparisons see of an edge, of a vertex and of a graph.
  abbrev pub edge_entry : OrderedGraph E → E → ℕ × E
  edge_entry g e = (g.idx (target g e), e)

  abbrev pub edge_entries : OrderedGraph E → List E → List (ℕ × E)
  edge_entries g [] = []
  edge_entries g (e ∷ es) = edge_entry g e ∷ edge_entries g es

  abbrev pub vertex_entry : OrderedGraph E → ℕ → ℕ × List (ℕ × E)
  vertex_entry g u = (u, edge_entries g (out_edges g u))

  abbrev pub vertex_entries : OrderedGraph E → ℕ → ℕ → List (ℕ × List (ℕ × E))
  vertex_entries g i zero = []
  vertex_entries g i (suc rounds) = vertex_entry g (vertex_at g i) ∷ vertex_entries g (i + 1) rounds

  abbrev pub contents : OrderedGraph E → List (ℕ × List (ℕ × E))
  contents g = vertex_entries g 0 (num_vertices g)

  length-edge_entries : (g : OrderedGraph E) (es : List E) → length (edge_entries g es) ≡ length es
  length-edge_entries g [] = refl
  length-edge_entries g (e ∷ es) = ap suc (length-edge_entries g es)

  length-vertex_entries :
      (g : OrderedGraph E) (i rounds : ℕ) → length (vertex_entries g i rounds) ≡ rounds
  length-vertex_entries g i zero = refl
  length-vertex_entries g i (suc rounds) = ap suc (length-vertex_entries g (i + 1) rounds)

  module _ (vertex_less : ℕ → ℕ → Bool) (edge_less : E → E → Bool) (vertex_equal : ℕ → ℕ → Bool)
      (edge_equal : E → E → Bool) where
    -- By the index of the target, then by the label.
    pub compare_edge_entries : ℕ × E → ℕ × E → Option Bool
    compare_edge_entries x y = or_else (compare_ℕ x.0 y.0) (compare_by edge_equal edge_less x.1 y.1)

    -- By the label, then by the number of out-edges, then by the out-edges.
    pub compare_vertex_entries : ℕ × List (ℕ × E) → ℕ × List (ℕ × E) → Option Bool
    compare_vertex_entries x y =
        or_else (compare_by vertex_equal vertex_less x.0 y.0)
          (compare_sized compare_edge_entries x.1 y.1)

    -- By the number of vertices, then by the vertices in their order.
    pub compare_graphs : OrderedGraph E → OrderedGraph E → Option Bool
    compare_graphs g h = compare_sized compare_vertex_entries (contents g) (contents h)

    pub compare_graphs-IsOrder :
        IsOrder (compare_by vertex_equal vertex_less)
        → IsOrder (compare_by edge_equal edge_less)
        → IsOrder compare_graphs
    unfolding compare_graphs compare_vertex_entries compare_edge_entries
    compare_graphs-IsOrder v e =
        let edges =
          or_else-IsOrder (λ (x y : ℕ × E). compare_ℕ x.0 y.0)
            (λ x y. compare_by edge_equal edge_less x.1 y.1)
            (via-IsOrder (λ x. x.0) compare_ℕ compare_ℕ-IsOrder)
            (via-IsOrder (λ x. x.1) (compare_by edge_equal edge_less) e) in
        let vertices =
          or_else-IsOrder (λ (x y : ℕ × List (ℕ × E)). compare_by vertex_equal vertex_less x.0 y.0)
            (λ x y. compare_sized compare_edge_entries x.1 y.1)
            (via-IsOrder (λ x. x.0) (compare_by vertex_equal vertex_less) v)
            (via-IsOrder (λ x. x.1) (compare_sized compare_edge_entries)
              (compare_sized-IsOrder compare_edge_entries edges)) in
        via-IsOrder contents (compare_sized compare_vertex_entries)
          (compare_sized-IsOrder compare_vertex_entries vertices)

    module _ (g h : OrderedGraph E) where
      less_edges-compare :
          (es fs : List E)
          → length es ≡ length fs
          → less_edges g h vertex_less edge_less vertex_equal edge_equal es fs
            ≡ compare_lists compare_edge_entries (edge_entries g es) (edge_entries h fs)
      unfolding less_edges compare_edge_entries compare_lists
      less_edges-compare [] [] e = refl
      less_edges-compare [] (f ∷ fs) e = absurd (omega (arith, e))
      less_edges-compare (x ∷ es) [] e = absurd (omega (arith, e))
      less_edges-compare (x ∷ es) (f ∷ fs) e =
          ground (arith, less_edges-compare es fs (omega (arith, e)))

      less_vertex-compare :
          (u v : ℕ)
          → less_vertex g h vertex_less edge_less vertex_equal edge_equal u v
            ≡ compare_vertex_entries (vertex_entry g u) (vertex_entry h v)
      unfolding less_vertex compare_vertex_entries compare_sized
      less_vertex-compare u v = ground (
        arith,
        less_edges-compare (out_edges g u) (out_edges h v),
        length-edge_entries g (out_edges g u),
        length-edge_entries h (out_edges h v),
      )

      less_vertices-compare :
          (i rounds : ℕ)
          → less_vertices g h vertex_less edge_less vertex_equal edge_equal i rounds
            ≡ compare_lists compare_vertex_entries
                (vertex_entries g i rounds)
                (vertex_entries h i rounds)
      unfolding less_vertices compare_lists
      less_vertices-compare i zero = refl
      less_vertices-compare i (suc rounds) =
          rw
            (
              less_vertex-compare (vertex_at g i) (vertex_at h i),
              less_vertices-compare (i + 1) rounds,
            )
            refl

      -- `ordered_graph_less` is the lexicographic comparison of the contents.
      pub ordered_graph_less-compare :
          ordered_graph_less g h vertex_less edge_less vertex_equal edge_equal
          ≡ elim (compare_graphs g h) [ none ↦ false | some b ↦ b ]
      unfolding ordered_graph_less compare_graphs compare_sized
      ordered_graph_less-compare =
          let lg = length-vertex_entries g 0 (num_vertices g) in
          let lh = length-vertex_entries h 0 (num_vertices h) in
          rw (lg, lh)
            (elim (eq-cases (num_vertices g) (num_vertices h)) [
              | inr ne ↦ ground arith
              | inl e ↦ rw (← e) (ground (arith, less_vertices-compare 0 (num_vertices g)))
            ])

      differ_edges-compare :
          (es fs : List E)
          → length es ≡ length fs
          → is_none (differ_edges g h vertex_equal edge_equal es fs)
            ≡ is_none (compare_lists compare_edge_entries (edge_entries g es) (edge_entries h fs))
      unfolding differ_edges compare_edge_entries compare_lists
      differ_edges-compare [] [] e = refl
      differ_edges-compare [] (f ∷ fs) e = absurd (omega (arith, e))
      differ_edges-compare (x ∷ es) [] e = absurd (omega (arith, e))
      differ_edges-compare (x ∷ es) (f ∷ fs) e =
          ground (arith, differ_edges-compare es fs (omega (arith, e)))

      differ_vertex-compare :
          (u v : ℕ)
          → is_none (differ_vertex g h vertex_equal edge_equal u v)
            ≡ is_none (compare_vertex_entries (vertex_entry g u) (vertex_entry h v))
      unfolding differ_vertex compare_vertex_entries compare_sized
      differ_vertex-compare u v = ground (
        arith,
        differ_edges-compare (out_edges g u) (out_edges h v),
        length-edge_entries g (out_edges g u),
        length-edge_entries h (out_edges h v),
      )

      differ_vertices-compare :
          (i rounds : ℕ)
          → is_none (differ_vertices g h vertex_equal edge_equal i rounds)
            ≡ is_none (
                compare_lists compare_vertex_entries
                  (vertex_entries g i rounds)
                  (vertex_entries h i rounds))
      unfolding differ_vertices compare_lists
      differ_vertices-compare i zero = refl
      differ_vertices-compare i (suc rounds) = ground (
        arith,
        differ_vertex-compare (vertex_at g i) (vertex_at h i),
        differ_vertices-compare (i + 1) rounds,
      )

      -- `ordered_graph_equal` is true exactly if the comparison of the contents finds no difference.
      pub ordered_graph_equal-compare :
          ordered_graph_equal g h vertex_equal edge_equal ≡ is_none (compare_graphs g h)
      unfolding ordered_graph_equal graph_difference compare_graphs compare_sized
      ordered_graph_equal-compare =
          let lg = length-vertex_entries g 0 (num_vertices g) in
          let lh = length-vertex_entries h 0 (num_vertices h) in
          rw (lg, lh)
            (elim (eq-cases (num_vertices g) (num_vertices h)) [
              | inr ne ↦ ground arith
              | inl e ↦ rw (← e) (ground (arith, differ_vertices-compare 0 (num_vertices g)))
            ])

-- ===== src/OrderedGraph/Difference.antt =====
-- compare.hpp: what `ordered_graph_equal` tells its visitor is a difference of the two graphs.
use graph_canon.Base.{
  ℕ, zero, suc, ◌+◌, ◌<◌, ◌≡◌, ◌≢◌, ◌⊎◌, inl, inr, List, [], ◌∷◌, some, Bool, false, arith, refl,
  subst, eq-cases, Bool-cases, Option-cases,
}
use graph_canon.OrderedGraph.{OrderedGraph, num_vertices, vertex_at, out_edges, out_degree, target}
use graph_canon.OrderedGraph.Compare.{
  Difference, at_num_vertices, at_vertex_compare, at_out_degree, at_out_edge, at_edge_compare,
  differ_edges, differ_vertex, differ_vertices, graph_difference,
}

module _ {E : Type 0} (g h : OrderedGraph E) (vertex_equal : ℕ → ℕ → Bool)
    (edge_equal : E → E → Bool) where
  -- The vertices stand at the same index.
  abbrev pub ArePaired : ℕ → ℕ → Type 0
  ArePaired u v = (i : ℕ) × (i < num_vertices g) × (u ≡ vertex_at g i) × (v ≡ vertex_at h i)

  -- The edges stand at the same position.
  abbrev pub AreTogether : E → E → List E → List E → Type 0
  AreTogether e f [] fs = ⊥
  AreTogether e f (x ∷ es) [] = ⊥
  AreTogether e f (x ∷ es) (y ∷ fs) = ((e ≡ x) × (f ≡ y)) ⊎ AreTogether e f es fs

  -- The edges stand at the same position of the lists of vertices with the same index.
  abbrev pub AreAligned : E → E → Type 0
  AreAligned e f =
      (u : ℕ) × (v : ℕ) × (ArePaired u v × (AreTogether e f (out_edges g u) (out_edges h v)))

  -- What each call of the visitor says.
  abbrev pub IsDifference : Difference E → Type 0
  IsDifference at_num_vertices = num_vertices g ≢ num_vertices h
  IsDifference (at_vertex_compare u v) = ArePaired u v × (vertex_equal u v ≡ false)
  IsDifference (at_out_degree u v) = ArePaired u v × (out_degree g u ≢ out_degree h v)
  IsDifference (at_out_edge e f) = AreAligned e f × (g.idx (target g e) ≢ h.idx (target h f))
  IsDifference (at_edge_compare e f) =
      AreAligned e f × (g.idx (target g e) ≡ h.idx (target h f)) × (edge_equal e f ≡ false)

  -- The same of the edges of two lists.
  abbrev IsEdgeDifference : List E → List E → Difference E → Type 0
  IsEdgeDifference es fs at_num_vertices = ⊥
  IsEdgeDifference es fs (at_vertex_compare u v) = ⊥
  IsEdgeDifference es fs (at_out_degree u v) = ⊥
  IsEdgeDifference es fs (at_out_edge e f) =
      AreTogether e f es fs × (g.idx (target g e) ≢ h.idx (target h f))
  IsEdgeDifference es fs (at_edge_compare e f) =
      AreTogether e f es fs × (g.idx (target g e) ≡ h.idx (target h f)) × (edge_equal e f ≡ false)

  later_edge :
      (x y : E) (es fs : List E) (d : Difference E)
      → IsEdgeDifference es fs d
      → IsEdgeDifference (x ∷ es) (y ∷ fs) d
  later_edge x y es fs at_num_vertices i = i
  later_edge x y es fs (at_vertex_compare u v) i = i
  later_edge x y es fs (at_out_degree u v) i = i
  later_edge x y es fs (at_out_edge e f) i = (inr i.0, i.1)
  later_edge x y es fs (at_edge_compare e f) i = (inr i.0, i.1, i.2)

  differ_edges-IsEdgeDifference :
      (es fs : List E) (d : Difference E)
      → differ_edges g h vertex_equal edge_equal es fs ≡ some d
      → IsEdgeDifference es fs d
  unfolding differ_edges
  differ_edges-IsEdgeDifference [] fs d e = absurd (ground arith)
  differ_edges-IsEdgeDifference (x ∷ es) [] d e = absurd (ground arith)
  differ_edges-IsEdgeDifference (x ∷ es) (f ∷ fs) d e =
      let P = IsEdgeDifference (x ∷ es) (f ∷ fs) in
      elim (eq-cases (g.idx (target g x)) (h.idx (target h f))) [
        | inr ne ↦
            let found : at_out_edge x f ≡ d = ground arith in subst P found (inl (refl, refl), ne)
        | inl eq ↦ elim (Bool-cases (edge_equal x f)) [
          | inr differ ↦
              let found : at_edge_compare x f ≡ d = ground arith in
              subst P found (inl (refl, refl), eq, differ)
          | inl agree ↦
              let rest : differ_edges g h vertex_equal edge_equal es fs ≡ some d = ground arith in
              later_edge x f es fs d (differ_edges-IsEdgeDifference es fs d rest)
        ]
      ]

  edges-IsDifference :
      (u v : ℕ) (d : Difference E)
      → ArePaired u v
      → IsEdgeDifference (out_edges g u) (out_edges h v) d
      → IsDifference d
  edges-IsDifference u v at_num_vertices p i = absurd i
  edges-IsDifference u v (at_vertex_compare x y) p i = absurd i
  edges-IsDifference u v (at_out_degree x y) p i = absurd i
  edges-IsDifference u v (at_out_edge e f) p i = ((u, v, (p, i.0)), i.1)
  edges-IsDifference u v (at_edge_compare e f) p i = ((u, v, (p, i.0)), i.1, i.2)

  differ_vertex-IsDifference :
      (u v : ℕ) (d : Difference E)
      → ArePaired u v
      → differ_vertex g h vertex_equal edge_equal u v ≡ some d
      → IsDifference d
  unfolding differ_vertex
  differ_vertex-IsDifference u v d p e = elim (Bool-cases (vertex_equal u v)) [
    | inr differ ↦
        let found : at_vertex_compare u v ≡ d = ground arith in subst IsDifference found (p, differ)
    | inl agree ↦ elim (eq-cases (out_degree g u) (out_degree h v)) [
      | inr ne ↦
          let found : at_out_degree u v ≡ d = ground arith in subst IsDifference found (p, ne)
      | inl eq ↦
          let rest : differ_edges g h vertex_equal edge_equal (out_edges g u) (out_edges h v)
              ≡ some d =
            ground arith in
          edges-IsDifference u v d p (differ_edges-IsEdgeDifference _ _ d rest)
    ]
  ]

  differ_vertices-IsDifference :
      (i rounds : ℕ) (d : Difference E)
      → i + rounds ≡ num_vertices g
      → differ_vertices g h vertex_equal edge_equal i rounds ≡ some d
      → IsDifference d
  unfolding differ_vertices
  differ_vertices-IsDifference i zero d e r = absurd (ground arith)
  differ_vertices-IsDifference i (suc rounds) d e r =
      let here = differ_vertex g h vertex_equal edge_equal (vertex_at g i) (vertex_at h i) in
      elim (Option-cases here) [
        | inl same ↦
            let rest : differ_vertices g h vertex_equal edge_equal (i + 1) rounds ≡ some d =
              ground arith in
            differ_vertices-IsDifference (i + 1) rounds d (omega (arith, e)) rest
        | inr (d', found) ↦
            let last : d' ≡ d = ground arith in
            subst IsDifference last (
              differ_vertex-IsDifference (vertex_at g i) (vertex_at h i) d'
                (i, omega (arith, e), refl, refl) found)
      ]

  -- A call of the visitor names vertices at one index, or edges at one position of the lists of such
  -- vertices, that do differ in the way the name of the call says.
  pub graph_difference-IsDifference :
      (d : Difference E) → graph_difference g h vertex_equal edge_equal ≡ some d → IsDifference d
  unfolding graph_difference
  graph_difference-IsDifference d e = elim (eq-cases (num_vertices g) (num_vertices h)) [
    | inr ne ↦ let found : at_num_vertices ≡ d = ground arith in subst IsDifference found ne
    | inl eq ↦
        let rest : differ_vertices g h vertex_equal edge_equal 0 (num_vertices g) ≡ some d =
          ground arith in
        differ_vertices-IsDifference 0 (num_vertices g) d (omega arith) rest
  ]

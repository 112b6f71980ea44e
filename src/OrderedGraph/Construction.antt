-- ===== src/OrderedGraph/Construction.antt =====
-- ordered_graph.hpp: what the constructor puts into the view.
use graph_canon.Base.{ℕ, ◌<◌, ◌≡◌, List, Bool, refl, ap, ◌∙◌, sym}
use graph_canon.Base.Loops.{for_up-update}
use graph_canon.PermutedGraph.{Graph}
use graph_canon.OrderedGraph.{
  OrderedGraph, OrderedAdj, make_ordered_graph, out_edge_less, vertex_at, out_edges, num_vertices,
}

-- The index map numbers the vertices: `vertex_of` is its inverse.
pub record IsIndexMap {E : Type 0} (g : Graph E) (idx vertex_of : ℕ → ℕ) : Type 0 where
  pub idx_lt : (v : ℕ) → v < g.n → idx v < g.n
  pub vertex_lt : (i : ℕ) → i < g.n → vertex_of i < g.n
  pub vertex-idx : (v : ℕ) → v < g.n → vertex_of (idx v) ≡ v
  pub idx-vertex : (i : ℕ) → i < g.n → idx (vertex_of i) ≡ i

-- The view iterates over the vertices in the order of their indices and over the out-edges of each in
-- the order that `sort` gives.
pub record IsOrderedView {E : Type 0} (g : Graph E) (idx vertex_of : ℕ → ℕ)
    (sorted : List E → List E) (view : OrderedGraph E) : Type 0 where
  pub size : num_vertices view ≡ g.n
  pub vertex : (i : ℕ) → i < g.n → vertex_at view i ≡ vertex_of i
  pub edges : (v : ℕ) → v < g.n → out_edges view v ≡ sorted (g.out_edges v)

-- Whatever `resize` left in the vector, for an index map that numbers the vertices.
pub make_ordered_graph-IsOrderedView :
    {E : Type 0} (sort : (E → E → Bool) → List E → List E) (raw : ℕ → OrderedAdj E) (g : Graph E)
    (idx vertex_of : ℕ → ℕ) (edge_less : E → E → Bool)
    → IsIndexMap g idx vertex_of
    → IsOrderedView g idx vertex_of
        (sort (out_edge_less g idx edge_less))
        (make_ordered_graph sort raw g idx edge_less)
unfolding make_ordered_graph
make_ordered_graph-IsOrderedView {E} sort raw g idx vertex_of edge_less h =
    let value : ℕ → OrderedAdj E =
      λ v. record { v = v; out_edges = sort (out_edge_less g idx edge_less) (g.out_edges v) } in
    let written =
      for_up-update idx value g.n raw
        (λ i j l m e. sym (h.vertex-idx i l) ∙ ap vertex_of e ∙ h.vertex-idx j m) in
    record {
      size = refl;
      vertex = λ i l.
          ap (λ k. ((make_ordered_graph sort raw g idx edge_less).adj k).v) (sym (h.idx-vertex i l))
          ∙ ap (λ a. a.v) (written (vertex_of i) (h.vertex_lt i l));
      edges = λ v l. ap (λ a. a.out_edges) (written v l);
    }

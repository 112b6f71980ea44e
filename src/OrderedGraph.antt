-- ===== src/OrderedGraph.antt =====
-- include/graph_canon/ordered_graph.hpp: the view of a graph whose vertices and out-edges are ordered
-- by an index map. Vertex descriptors are numbers below the number of vertices, as the Boost graph
-- gives them, and need not be the indices that the map gives.
pub mod Construction
pub mod Compare
pub mod Lexicographic
pub mod Contents
pub mod Order
pub mod Difference
use graph_canon.Base.{ℕ, ◌≡◌, List, length, Bool, not, ◌==◌, ltb, if◌then◌else◌, update}
use graph_canon.Base.Loops.{for_up}
use graph_canon.PermutedGraph.{Graph}

-- `ordered_adj_incidence`.
pub record OrderedAdj (E : Type 0) : Type 0 where
  pub v : ℕ
  pub out_edges : List E

-- `adj` is the vector `data` of the adjacencies, of size `size`.
pub record OrderedGraph (E : Type 0) : Type 0 where
  pub g : Graph E
  pub idx : ℕ → ℕ
  pub size : ℕ
  pub adj : ℕ → OrderedAdj E

module _ {E : Type 0} where
  -- `out_edge_less::operator()`.
  abbrev pub out_edge_less : Graph E → (ℕ → ℕ) → (E → E → Bool) → E → E → Bool
  out_edge_less g idx edge_less lhs rhs =
      let idx_lhs = idx (g.target lhs) in
      let idx_rhs = idx (g.target rhs) in
      if not (idx_lhs == idx_rhs) then ltb idx_lhs idx_rhs else edge_less lhs rhs

  -- The constructor; `sort` is `std::sort`, and `raw` is what `resize` puts into `data`.
  unfoldable pub make_ordered_graph :
      ((E → E → Bool) → List E → List E)
      → (ℕ → OrderedAdj E)
      → Graph E
      → (ℕ → ℕ)
      → (E → E → Bool)
      → OrderedGraph E
  unfolding for_up
  make_ordered_graph sort raw g idx edge_less = record {
    g = g;
    idx = idx;
    size = g.n;
    adj =
        for_up
          (λ v adj.
            update adj (idx v)
              (record { v = v; out_edges = sort (out_edge_less g idx edge_less) (g.out_edges v) }))
          0 g.n raw;
  }

  abbrev pub num_vertices : OrderedGraph E → ℕ
  num_vertices g = g.size

  -- The vertex that iterator `vertices(g).first + i` gives.
  abbrev pub vertex_at : OrderedGraph E → ℕ → ℕ
  vertex_at g i = (g.adj i).v

  abbrev pub out_edges : OrderedGraph E → ℕ → List E
  out_edges g v = (g.adj (g.idx v)).out_edges

  abbrev pub out_degree : OrderedGraph E → ℕ → ℕ
  out_degree g v = length (g.adj (g.idx v)).out_edges

  abbrev pub target : OrderedGraph E → E → ℕ
  target g e = g.g.target e

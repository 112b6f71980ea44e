-- ===== src/PermutedGraph.antt =====
-- include/graph_canon/detail/permuted_graph_view.hpp: the graph with its vertices renamed by the
-- partition of a leaf, and the order on such views. The vertex descriptors of the Boost graph are
-- identified with their indices (`idx` and `vertex(i, g)` are inverse to each other).
pub mod Describes
pub mod Alignment
pub mod Automorphism
pub mod Order
use graph_canon.Base.{
  ℕ, zero, suc, ◌+◌, ◌≡◌, Array, update, List, [], ◌∷◌, length, Bool, Option, none, some, not, ◌==◌,
  ltb, if◌then◌else◌,
}
use graph_canon.Base.Int.{ℤ, pos, IntType, difference, is_negative, is_zero}
use graph_canon.Base.Loops.{for_up}
use graph_canon.Partition.{Partition}

-- What the library asks of the Boost graph, for edge descriptors in `E`.
pub record Graph (E : Type 0) : Type 0 where
  pub n : ℕ
  pub out_edges : ℕ → List E
  pub target : E → ℕ

pub record Adj (E : Type 0) : Type 0 where
  pub v : ℕ
  pub out_degree : ℕ
  pub out_edges : List E

-- `leaf` is the partition of `leaf_node`.
pub record View (E : Type 0) : Type 0 where
  pub leaf : Partition
  pub n : ℕ
  pub repr : ℕ → Adj E
  pub extra_repr : Option (ℕ → Adj E)

-- `edge_compare` is the edge handler's `compare`, and `sort` is `std::sort`.
module _ {E : Type 0} (g : Graph E) (edge_compare : E → E → ℤ)
    (sort : (E → E → Bool) → List E → List E) where
  abbrev pub edge_less : Partition → E → E → Bool
  edge_less pi lhs rhs =
      let a = pi.inverse (g.target lhs) in
      let b = pi.inverse (g.target rhs) in
      if not (a == b) then ltb a b else is_negative (edge_compare lhs rhs)

  -- The constructor; `raw` is what `new Adj[n]` returns.
  unfoldable pub make_view : Partition → (ℕ → Adj E) → View E
  make_view pi raw = record {
    leaf = pi;
    n = g.n;
    extra_repr = none;
    repr =
        for_up
          (λ v repr. update repr (pi.inverse v) (record {
            v = v;
            out_degree = length (g.out_edges v);
            out_edges = sort (edge_less pi) (g.out_edges v);
          }))
          0 g.n raw;
  }

  -- `repermute`; `raw` is what `new Adj[n]` returns if there is no second array yet.
  unfoldable pub repermute : Partition → (ℕ → Adj E) → View E → View E
  repermute pi_new raw view = record {
    leaf = pi_new;
    n = view.n;
    extra_repr = some view.repr;
    repr =
        for_up
          (λ v_id_old repr.
            let adj = view.repr v_id_old in
            update repr (pi_new.inverse (view.leaf.elements v_id_old))
              (record adj { out_edges = sort (edge_less pi_new) adj.out_edges }))
          0 view.n (elim view.extra_repr [ none ↦ raw | some extra ↦ extra ]);
  }

  -- The loop over the edges of one vertex: `some d` is an early `return d`.
  unfoldable pub compare_edges : IntType → Partition → Partition → List E → List E → Option ℤ
  compare_edges t pi1 pi2 [] edges2 = none
  compare_edges t pi1 pi2 (e1 ∷ edges1) [] = none
  compare_edges t pi1 pi2 (e1 ∷ edges1) (e2 ∷ edges2) =
      let v1 = pi1.inverse (g.target e1) in
      let v2 = pi2.inverse (g.target e2) in
      let e_diff = edge_compare e1 e2 in
      let rest = compare_edges t pi1 pi2 edges1 edges2 in
      if not (v1 == v2)
      then some (difference t v1 v2)
      else if not (is_zero e_diff)
      then some e_diff
      else rest

  -- The loop over the vertices from `v_idx`, with `rounds` of them left.
  unfoldable pub compare_from : IntType → View E → View E → ℕ → ℕ → ℤ
  compare_from t g1 g2 v_idx zero = pos 0
  compare_from t g1 g2 v_idx (suc rounds) =
      let adj1 = g1.repr v_idx in
      let adj2 = g2.repr v_idx in
      let rest = compare_from t g1 g2 (v_idx + 1) rounds in
      let by_edges : ℤ = elim (compare_edges t g1.leaf g2.leaf adj1.out_edges adj2.out_edges) [
        | some d ↦ d
        | none ↦ rest
      ] in
      if not (adj1.out_degree == adj2.out_degree)
      then difference t adj1.out_degree adj2.out_degree
      else by_edges

  unfoldable pub compare_views : IntType → View E → View E → ℤ
  unfolding compare_from compare_edges
  compare_views t g1 g2 = compare_from t g1 g2 0 g1.n

-- ===== src/PermutedGraph/Describes.antt =====
-- permuted_graph_view.hpp: both ways to build a view give the graph under the leaf's partition.
use mathlib.Core.List.{Perm}
use mathlib.Core.List.Perm
use graph_canon.Base.{none, some, ℕ, ◌<◌, ◌≡◌, refl, sym, arith, List, length, Bool, ap, ◌∙◌, subst}
use graph_canon.Base.Int.{ℤ}
use graph_canon.Base.Loops.{for_up-update}
use graph_canon.Partition.{Partition}
use graph_canon.Partition.Cells.{IsInverse}
use graph_canon.PermutedGraph.{Graph, Adj, View, edge_less, make_view, repermute}

-- `std::sort` rearranges the range.
abbrev pub IsSort : {E : Type 0} → ((E → E → Bool) → List E → List E) → Type 0
IsSort {E} sort = (less : E → E → Bool) (es : List E) → Perm (sort less es) es

-- The entry at the new index of each vertex holds the vertex, its degree and its edges.
pub record IsViewOf {E : Type 0} (g : Graph E) (view : View E) : Type 0 where
  pub size : view.n ≡ g.n
  pub vertex : (v : ℕ) → v < g.n → (view.repr (view.leaf.inverse v)).v ≡ v
  pub degree :
      (v : ℕ) → v < g.n → (view.repr (view.leaf.inverse v)).out_degree ≡ length (g.out_edges v)
  pub edges : (v : ℕ) → v < g.n → Perm (view.repr (view.leaf.inverse v)).out_edges (g.out_edges v)

inverse-distinct :
    (pi : Partition) (n : ℕ)
    → pi.n ≡ n
    → IsInverse pi
    → (i j : ℕ) → i < n
    → j < n
    → pi.inverse i ≡ pi.inverse j
    → i ≡ j
inverse-distinct pi n size h i j a b e = ground (arith, h.element-inverse i, h.element-inverse j)

module _ {E : Type 0} (g : Graph E) (edge_compare : E → E → ℤ)
    (sort : (E → E → Bool) → List E → List E) (sorts : IsSort sort) where
  -- The constructor: every vertex stands at its index in the leaf's partition, with its own edges.
  pub make_view-IsViewOf :
      (pi : Partition) (raw : ℕ → Adj E)
      → pi.n ≡ g.n
      → IsInverse pi
      → IsViewOf g (make_view g edge_compare sort pi raw)
  unfolding make_view
  make_view-IsViewOf pi raw size h =
      let adj : ℕ → Adj E = λ v. record {
        v = v;
        out_degree = length (g.out_edges v);
        out_edges = sort (edge_less g edge_compare sort pi) (g.out_edges v);
      } in
      let at = for_up-update pi.inverse adj g.n raw (inverse-distinct pi g.n size h) in
      record {
        size = refl;
        vertex = λ v l. ap (λ r. r.v) (at v l);
        degree = λ v l. ap (λ r. r.out_degree) (at v l);
        edges = λ v l.
            subst (λ r. Perm r.out_edges (g.out_edges v)) (sym (at v l))
              (sorts (edge_less g edge_compare sort pi) (g.out_edges v));
      }

  repermute-repr :
      (pi_new : Partition) (raw : ℕ → Adj E) (view : View E)
      → view.leaf.n ≡ g.n
      → pi_new.n ≡ g.n
      → view.n ≡ g.n
      → IsInverse view.leaf
      → IsInverse pi_new
      → (v : ℕ) → v < g.n
      → (repermute g edge_compare sort pi_new raw view).repr (pi_new.inverse v) ≡ (
          let adj = view.repr (view.leaf.inverse v) in
          record adj { out_edges = sort (edge_less g edge_compare sort pi_new) adj.out_edges })
  unfolding repermute
  repermute-repr pi_new raw view size size_new n h h_new v l =
      let pi = view.leaf in
      let moved : ℕ → Adj E = λ j. record (view.repr j) {
        out_edges = sort (edge_less g edge_compare sort pi_new) (view.repr j).out_edges;
      } in
      let at =
        for_up-update (λ j. pi_new.inverse (pi.elements j)) moved view.n
          (elim view.extra_repr [ none ↦ raw | some extra ↦ extra ])
          (λ i j a b e. ground (
            arith,
            h.inverse-element i,
            h.inverse-element j,
            h.element_lt i,
            h.element_lt j,
            h_new.element-inverse (pi.elements i),
            h_new.element-inverse (pi.elements j),
          )) in
      subst
        (λ u.
          (repermute g edge_compare sort pi_new raw view).repr (pi_new.inverse u)
          ≡ moved (pi.inverse v))
        (h.element-inverse v (omega arith)) (at (pi.inverse v) (omega (arith, h.inverse_lt v)))

  -- `repermute` turns a view of one leaf into a view of another, whatever its second array held.
  pub repermute-IsViewOf :
      (pi_new : Partition) (raw : ℕ → Adj E) (view : View E)
      → view.leaf.n ≡ g.n
      → pi_new.n ≡ g.n
      → IsInverse view.leaf
      → IsInverse pi_new
      → IsViewOf g view
      → IsViewOf g (repermute g edge_compare sort pi_new raw view)
        × ((repermute g edge_compare sort pi_new raw view).leaf ≡ pi_new)
  unfolding repermute
  repermute-IsViewOf pi_new raw view size size_new h h_new w =
      let at = repermute-repr pi_new raw view size size_new w.size h h_new in
      (
        record {
          size = w.size;
          vertex = λ v l. ap (λ r. r.v) (at v l) ∙ w.vertex v l;
          degree = λ v l. ap (λ r. r.out_degree) (at v l) ∙ w.degree v l;
          edges = λ v l.
              subst (λ r. Perm r.out_edges (g.out_edges v)) (sym (at v l))
                (Perm.trans (sorts (edge_less g edge_compare sort pi_new) _) (w.edges v l));
        },
        refl,
      )

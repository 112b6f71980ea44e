-- ===== src/PermutedGraph/Automorphism.antt =====
-- include/graph_canon/detail/explicit_automorphism.hpp, and what it means that the comparison of two
-- leaves in permuted_graph_view.hpp gives 0.
use mathlib.Core.List.{Perm, Mem, Memᴰ, mem-cons_of_mem}
use mathlib.Core.List.Perm
use graph_canon.Base.{
  ℕ, ◌^◌, ◌≤◌, ◌<◌, ◌≡◌, refl, sym, arith, List, [], ◌∷◌, length, length-perm, ap, ◌∙◌, subst, Bool,
}
use graph_canon.Base.Int.{ℤ, pos, IntType}
use graph_canon.Partition.{Partition}
use graph_canon.Partition.Cells.{IsInverse}
use graph_canon.PermutedGraph.{Graph, View, compare_views}
use graph_canon.PermutedGraph.Describes.{IsViewOf}
use graph_canon.PermutedGraph.Alignment.{AreAligned, FitsAt, compare_edges_lem, compare_from_lem}

-- `explicit_automorphism::get_`: `pi_old` is the partition of the canonical leaf, `pi_new` of the other.
unfoldable pub explicit_automorphism : Partition → Partition → ℕ → ℕ
explicit_automorphism pi_old pi_new i = pi_new.elements (pi_old.inverse i)

-- Every edge leads to a vertex of the graph.
abbrev pub IsGraph : {E : Type 0} → Graph E → Type 0
IsGraph {E} g = (v : ℕ) (e : E) → v < g.n → Mem e (g.out_edges v) → g.target e < g.n

module _ {E : Type 0} (g : Graph E) (edge_compare : E → E → ℤ) where
  -- Two lists of edges correspond under a map of the vertices, and the edge handler sees no difference.
  abbrev pub Corresponds : (ℕ → ℕ) → List E → List E → Type 0
  Corresponds f [] [] = Unit {0}
  Corresponds f [] (e2 ∷ es2) = ⊥
  Corresponds f (e1 ∷ es1) [] = ⊥
  Corresponds f (e1 ∷ es1) (e2 ∷ es2) =
      (g.target e1 ≡ f (g.target e2)) × (edge_compare e1 e2 ≡ pos 0) × Corresponds f es1 es2

  -- `f` permutes the vertices, and for each vertex the edges of its image are those of the vertex.
  pub record IsAutomorphism (f : ℕ → ℕ) : Type 0 where
    pub image_lt : (u : ℕ) → u < g.n → f u < g.n
    pub injective : (u v : ℕ) → u < g.n → v < g.n → f u ≡ f v → u ≡ v
    pub edges :
        (u : ℕ)
        → u < g.n
        → (es1 es2 : List E) × Perm es1 (g.out_edges (f u))
          × Perm es2 (g.out_edges u)
          × Corresponds f es1 es2

-- A view of the leaf `view.leaf` of a graph whose counts the integer type can hold.
pub record IsLeafView {E : Type 0} (g : Graph E) (t : IntType) (view : View E) : Type 0 where
  pub represents : IsViewOf g view
  pub order : view.leaf.n ≡ g.n
  pub inverse : IsInverse view.leaf

module _ {E : Type 0} (g : Graph E) (edge_compare : E → E → ℤ)
    (sort : (E → E → Bool) → List E → List E) (t : IntType) where
  target-lt :
      (view : View E) (i : ℕ) (e : E)
      → IsGraph g
      → IsLeafView g t view
      → i < g.n
      → Mem e (view.repr i).out_edges
      → g.target e < g.n
  target-lt view i e graph h l m =
      let v = view.leaf.elements i in
      let v_lt : v < g.n =
        omega (arith, h.inverse.element_lt i (omega (arith, h.order)), h.order) in
      let at : view.leaf.inverse v ≡ i = h.inverse.inverse-element i (omega (arith, h.order)) in
      let m' = subst (λ k. Mem e (view.repr k).out_edges) (sym at) m in
      graph v e v_lt ((Perm.mem_iff (h.represents.edges v v_lt)).0 m')

  view-FitsAt :
      (view : View E) (i : ℕ)
      → IsGraph g
      → IsLeafView g t view
      → g.n ≤ 2 ^ t.bits
      → ((v : ℕ) → v < g.n → length (g.out_edges v) < 2 ^ t.bits)
      → i < g.n
      → FitsAt g edge_compare sort t view i
  view-FitsAt view i graph h fits degrees l =
      let v = view.leaf.elements i in
      let v_lt : v < g.n =
        omega (arith, h.inverse.element_lt i (omega (arith, h.order)), h.order) in
      let at : view.leaf.inverse v ≡ i = h.inverse.inverse-element i (omega (arith, h.order)) in
      (
        subst (λ k. (view.repr k).out_degree < 2 ^ t.bits) at
            (omega (arith, h.represents.degree v v_lt, degrees v v_lt)),
        λ e m. omega (
          arith,
          h.inverse.inverse_lt (g.target e)
              (omega (arith, h.order, target-lt view i e graph h l m)),
          h.order,
        ),
      )

  AreAligned-Corresponds :
      (pi1 pi2 : Partition) (es1 es2 : List E)
      → pi1.n ≡ g.n
      → IsInverse pi1
      → ((e : E) → Mem e es1 → g.target e < g.n)
      → AreAligned g edge_compare pi1 pi2 es1 es2
      → Corresponds g edge_compare (explicit_automorphism pi2 pi1) es1 es2
  unfolding explicit_automorphism
  AreAligned-Corresponds pi1 pi2 [] [] n h inside a = tt
  AreAligned-Corresponds pi1 pi2 [] (e2 ∷ es2) n h inside a = absurd a
  AreAligned-Corresponds pi1 pi2 (e1 ∷ es1) [] n h inside a = absurd a
  AreAligned-Corresponds pi1 pi2 (e1 ∷ es1) (e2 ∷ es2) n h inside a = (
    sym (h.element-inverse (g.target e1) (omega (arith, n, inside e1 ∣ Memᴰ.head refl ∣₁)))
        ∙ ap pi1.elements a.0,
    a.1,
    AreAligned-Corresponds pi1 pi2 es1 es2 n h (λ e m. inside e (mem-cons_of_mem e1 m)) a.2,
  )

  -- For a graph whose counts the integer type can hold, if the comparison of the views of two leaves gives
  -- 0, the permutation that is reported for them is
  -- an automorphism of the graph: it permutes the vertices, and the edges of the image of a vertex
  -- correspond to those of the vertex, in some order, with no difference for the edge handler.
  pub compare_views-IsAutomorphism :
      (view canon : View E)
      → IsGraph g
      → IsLeafView g t view
      → IsLeafView g t canon
      → g.n ≤ 2 ^ t.bits
      → ((v : ℕ) → v < g.n → length (g.out_edges v) < 2 ^ t.bits)
      → compare_views g edge_compare sort t view canon ≡ pos 0
      → IsAutomorphism g edge_compare (explicit_automorphism canon.leaf view.leaf)
  unfolding explicit_automorphism compare_views
  compare_views-IsAutomorphism view canon graph h hc fits degrees e = record {
    image_lt = λ u l. omega (
      arith,
      h.order,
      hc.order,
      h.inverse.element_lt (canon.leaf.inverse u)
          (omega (arith, h.order, hc.order, hc.inverse.inverse_lt u (omega (arith, hc.order)))),
    );
    injective = λ u v a b p. ground (
      arith,
      h.order,
      hc.order,
      hc.inverse.inverse_lt u,
      hc.inverse.inverse_lt v,
      hc.inverse.element-inverse u,
      hc.inverse.element-inverse v,
      h.inverse.inverse-element (canon.leaf.inverse u),
      h.inverse.inverse-element (canon.leaf.inverse v),
    );
    edges = λ u l.
        let i = canon.leaf.inverse u in
        let w = view.leaf.elements i in
        let i_lt : i < g.n =
          omega (arith, hc.order, hc.inverse.inverse_lt u (omega (arith, hc.order))) in
        let w_lt : w < g.n =
          omega (arith, h.order, h.inverse.element_lt i (omega (arith, h.order))) in
        let at : view.leaf.inverse w ≡ i = h.inverse.inverse-element i (omega (arith, h.order)) in
        let perm1 =
          subst (λ k. Perm (view.repr k).out_edges (g.out_edges w)) at
            (h.represents.edges w w_lt) in
        let perm2 = hc.represents.edges u l in
        let degree1 =
          subst (λ k. (view.repr k).out_degree ≡ length (g.out_edges w)) at
            (h.represents.degree w w_lt) in
        let (degrees_eq, run) =
          compare_from_lem g edge_compare sort t view canon 0 view.n
            (λ j x y.
              let y' : j < g.n = omega (arith, h.represents.size) in
              (
                view-FitsAt view j graph h fits degrees y',
                view-FitsAt canon j graph hc fits degrees y',
              ))
            e i (omega arith) (omega (arith, h.represents.size)) in
        (
          (view.repr i).out_edges,
          (canon.repr i).out_edges,
          perm1,
          perm2,
          AreAligned-Corresponds view.leaf canon.leaf _ _ h.order h.inverse
              (λ x m. target-lt view i x graph h i_lt m)
              (compare_edges_lem g edge_compare sort t view.leaf canon.leaf _ _
                (omega (
                  arith,
                  length-perm perm1,
                  length-perm perm2,
                  degree1,
                  hc.represents.degree u l,
                  degrees_eq,
                ))
                run),
        );
  }

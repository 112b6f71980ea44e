-- ===== src/Canonicalization/Leaves.antt =====
-- canonicalization.hpp: report_leaf keeps valid views and reports automorphisms only.
use graph_canon.Base.{
  ℕ, ◌^◌, ◌≤◌, ◌<◌, ◌≡◌, refl, sym, ap, ◌∙◌, subst, arith, List, [], ◌∷◌, length, Bool, Option,
  none, some, Bool-cases, Option-cases, inl, inr, ◌==◌,
}
use graph_canon.Base.Int.{ℤ, pos, IntType, is_negative, is_zero, is_zero_lem}
use graph_canon.Partition.{Partition}
use graph_canon.Partition.Cells.{IsInverse}
use graph_canon.PermutedGraph.{Graph, Adj, make_view, compare_views}
use graph_canon.PermutedGraph.Describes.{IsSort, IsViewOf, make_view-IsViewOf, repermute-IsViewOf}
use graph_canon.PermutedGraph.Automorphism.{
  IsGraph, IsAutomorphism, IsLeafView, explicit_automorphism, compare_views-IsAutomorphism,
}
use graph_canon.Canonicalization.{
  Leaf, LeafView, LeafState, Event, tree_leaf, canon_new_best, automorphism_leaf, canon_worse,
  canon_prune, new_view, repermute_view, canon_view, extra_view, judge, report_leaf,
}

abbrev pub OptionAll {ℓ κ} : {A : Type ℓ} → (A → Type κ) → Option A → Type κ
OptionAll P none = Unit
OptionAll P (some a) = P a

-- A node that is alive: `nodes` gives the partition at each address, which no longer changes.
pub record IsLeaf {E : Type 0} (g : Graph E) (nodes : ℕ → Partition) (node : Leaf) : Type 0 where
  pub lives : node.pi ≡ nodes node.address
  pub order : node.pi.n ≡ g.n
  pub inverse : IsInverse node.pi

-- A view of a living leaf.
pub record IsValidView {E : Type 0} (g : Graph E) (nodes : ℕ → Partition) (v : LeafView E)
    : Type 0 where
  pub leaf : IsLeaf g nodes v.node
  pub same : v.view.leaf ≡ v.node.pi
  pub represents : IsViewOf g v.view

pub record IsLeafState {E : Type 0} (g : Graph E) (nodes : ℕ → Partition) (st : LeafState E)
    : Type 0 where
  pub best : OptionAll (IsLeaf g nodes) st.canon_leaf
  pub canon : OptionAll (IsValidView g nodes) st.canon_permuted_graph
  pub extra : OptionAll (IsValidView g nodes) st.extra_permuted_graph

-- The permutations that a run of events reports are automorphisms.
abbrev pub AreAutomorphisms : {E : Type 0} → Graph E → (E → E → ℤ) → List Event → Type 0
AreAutomorphisms g c [] = Unit {0}
AreAutomorphisms g c (automorphism_leaf node f ∷ events) =
    IsAutomorphism g c f × AreAutomorphisms g c events
AreAutomorphisms g c (tree_leaf node ∷ events) = AreAutomorphisms g c events
AreAutomorphisms g c (canon_new_best previous ∷ events) = AreAutomorphisms g c events
AreAutomorphisms g c (canon_worse node ∷ events) = AreAutomorphisms g c events
AreAutomorphisms g c (canon_prune ∷ events) = AreAutomorphisms g c events

view-IsLeafView :
    {E : Type 0} (g : Graph E) (t : IntType) (nodes : ℕ → Partition) (v : LeafView E)
    → IsValidView g nodes v
    → IsLeafView g t v.view
view-IsLeafView g t nodes v h = record {
  represents = h.represents;
  order = ap (λ (p : Partition). p.n) h.same ∙ h.leaf.order;
  inverse = subst IsInverse (sym h.same) h.leaf.inverse;
}

module _ {E : Type 0} (g : Graph E) (edge_compare : E → E → ℤ)
    (sort : (E → E → Bool) → List E → List E) (t : IntType) (raw : ℕ → Adj E)
    (nodes : ℕ → Partition) (sorts : IsSort sort) where
  new_view-IsValidView :
      (node : Leaf)
      → IsLeaf g nodes node
      → IsValidView g nodes (new_view g edge_compare sort t raw node)
  new_view-IsValidView node h = record {
    leaf = h;
    same = unfold make_view in refl;
    represents = make_view-IsViewOf g edge_compare sort sorts node.pi raw h.order h.inverse;
  }

  repermute_view-IsValidView :
      (v : LeafView E) (node : Leaf)
      → IsValidView g nodes v
      → IsLeaf g nodes node
      → IsValidView g nodes (repermute_view g edge_compare sort t raw v node)
  repermute_view-IsValidView v node hv h =
      let leaf = view-IsLeafView g t nodes v hv in
      let (is_view, same) =
        repermute-IsViewOf g edge_compare sort sorts node.pi raw v.view leaf.order h.order
          leaf.inverse h.inverse hv.represents in
      record { leaf = h; same = same; represents = is_view }

  -- The view that is used for the best leaf is valid, and is a view of the best leaf.
  canon_view-IsValidView :
      (o : Option (LeafView E)) (best : Leaf)
      → OptionAll (IsValidView g nodes) o
      → IsLeaf g nodes best
      → IsValidView g nodes (canon_view g edge_compare sort t raw o best)
        × ((canon_view g edge_compare sort t raw o best).view.leaf ≡ best.pi)
  unfolding canon_view
  canon_view-IsValidView none best hc h = let v = new_view-IsValidView best h in (v, v.same)
  canon_view-IsValidView (some v) best hc h = elim (Bool-cases (v.node.address == best.address)) [
    | inl e ↦ rw e (hc, hc.same ∙ hc.leaf.lives ∙ ap nodes (ground arith) ∙ sym h.lives)
    | inr ne ↦ rw ne (let w = repermute_view-IsValidView v best hc h in (w, w.same))
  ]

  extra_view-IsValidView :
      (o extra : Option (LeafView E)) (node : Leaf)
      → OptionAll (IsValidView g nodes) extra
      → IsLeaf g nodes node
      → IsValidView g nodes (extra_view g edge_compare sort t raw o extra node)
        × ((extra_view g edge_compare sort t raw o extra node).view.leaf ≡ node.pi)
  unfolding extra_view
  extra_view-IsValidView none extra node he h =
      let w =
        repermute_view-IsValidView (new_view g edge_compare sort t raw node) node
          (new_view-IsValidView node h) h in
      (w, w.same)
  extra_view-IsValidView (some v) none node he h =
      let w = new_view-IsValidView node h in (w, w.same)
  extra_view-IsValidView (some v) (some extra) node he h =
      let w = repermute_view-IsValidView extra node he h in (w, w.same)

  module _ (graph : IsGraph g) (fits : g.n ≤ 2 ^ t.bits)
      (degrees : (v : ℕ) → v < g.n → length (g.out_edges v) < 2 ^ t.bits) where
    equal-IsAutomorphism :
        (best node : Leaf) (canon extra : LeafView E)
        → IsValidView g nodes canon
        → IsValidView g nodes extra
        → canon.view.leaf ≡ best.pi
        → extra.view.leaf ≡ node.pi
        → compare_views g edge_compare sort t extra.view canon.view ≡ pos 0
        → IsAutomorphism g edge_compare (explicit_automorphism best.pi node.pi)
    equal-IsAutomorphism best node canon extra hc he pc pe e =
        let aut =
          compare_views-IsAutomorphism g edge_compare sort t extra.view canon.view graph
            (view-IsLeafView g t nodes extra he) (view-IsLeafView g t nodes canon hc) fits degrees
            e in
        subst (λ p. IsAutomorphism g edge_compare (explicit_automorphism p node.pi)) pc
          (subst (λ p. IsAutomorphism g edge_compare (explicit_automorphism canon.view.leaf p)) pe
            aut)

    judge-IsLeafState :
        (best node : Leaf) (canon extra : LeafView E)
        → IsLeaf g nodes best
        → IsLeaf g nodes node
        → IsValidView g nodes canon
        → IsValidView g nodes extra
        → canon.view.leaf ≡ best.pi
        → extra.view.leaf ≡ node.pi
        → IsLeafState g nodes (judge g edge_compare sort t raw best node canon extra).0
          × AreAutomorphisms g edge_compare
              (judge g edge_compare sort t raw best node canon extra).1
    unfolding judge
    judge-IsLeafState best node canon extra hb hn hc he pc pe =
        let cmp = compare_views g edge_compare sort t extra.view canon.view in
        elim (Bool-cases (is_negative cmp)) [
          | inl better ↦ rw better (record { best = hn; canon = he; extra = hc }, tt)
          | inr other ↦ elim (Bool-cases (is_zero cmp)) [
            | inl same ↦
                rw (other, same)
                  (
                    record { best = hb; canon = hc; extra = he },
                    (
                      equal-IsAutomorphism best node canon extra hc he pc pe (is_zero_lem cmp same),
                      tt,
                    ),
                  )
            | inr worse ↦ rw (other, worse) (record { best = hb; canon = hc; extra = he }, tt)
          ]
        ]

    -- Reporting a leaf keeps the state valid, whatever happened before, and every permutation that is
    -- reported with it is an automorphism of the graph.
    pub report_leaf-IsLeafState :
        (st : LeafState E) (node : Leaf)
        → IsLeafState g nodes st
        → IsLeaf g nodes node
        → IsLeafState g nodes (report_leaf g edge_compare sort t raw st node).0
          × AreAutomorphisms g edge_compare (report_leaf g edge_compare sort t raw st node).1
    unfolding report_leaf
    report_leaf-IsLeafState st node h hn = elim (Option-cases st.canon_leaf) [
      | inl e ↦ rw (e, report_leaf) (record { best = hn; canon = h.canon; extra = h.extra }, tt)
      | inr (best, e) ↦
          let hb = subst (OptionAll (IsLeaf g nodes)) e h.best in
          let (hc, pc) = canon_view-IsValidView st.canon_permuted_graph best h.canon hb in
          let (he, pe) =
            extra_view-IsValidView st.canon_permuted_graph st.extra_permuted_graph node h.extra
              hn in
          rw (e, report_leaf)
            (judge-IsLeafState best node
              (canon_view g edge_compare sort t raw st.canon_permuted_graph best)
              (extra_view g edge_compare sort t raw st.canon_permuted_graph st.extra_permuted_graph
                node)
              hb hn hc he pc pe)
    ]

-- ===== src/PermutedGraph/Order.antt =====
-- permuted_graph_view.hpp: the sign of `compare`, by the integer type that `SizeType` is.
use graph_canon.Base.{
  ℕ, zero, suc, ◌+◌, ◌^◌, ◌≤◌, ◌<◌, ◌≡◌, refl, arith, List, [], ◌∷◌, Option, none, some, Bool,
  false, Option-cases, inl, inr,
}
use graph_canon.Base.Int.{
  ℤ, IntType, difference, difference-unsigned, difference-exact, IsExact, is_negative, is_positive,
}
use graph_canon.EdgeHandler.{all_equal_compare}
use graph_canon.Partition.{Partition}
use graph_canon.PermutedGraph.{Graph, View, compare_edges, compare_from, compare_views}

module _ {E : Type 0} (g : Graph E) (sort : (E → E → Bool) → List E → List E) (t : IntType)
    (unsigned : t.is_signed ≡ false) (wide : 32 ≤ t.bits) (short : 2 ^ t.bits ≤ 2 ^ 63) where
  edges_not_negative :
      (pi1 pi2 : Partition) (es1 es2 : List E) (d : ℤ)
      → compare_edges g all_equal_compare sort t pi1 pi2 es1 es2 ≡ some d
      → is_negative d ≡ false
  unfolding compare_edges all_equal_compare
  edges_not_negative pi1 pi2 [] es2 d e = cc
  edges_not_negative pi1 pi2 (e1 ∷ es1) [] d e = cc
  edges_not_negative pi1 pi2 (e1 ∷ es1) (e2 ∷ es2) d e = ground (
    arith,
    edges_not_negative pi1 pi2 es1 es2 d,
    difference-unsigned t (pi1.inverse (g.target e1)) (pi2.inverse (g.target e2)) unsigned wide
        short,
  )

  from_not_negative :
      (g1 g2 : View E) (i rounds : ℕ)
      → is_negative (compare_from g all_equal_compare sort t g1 g2 i rounds) ≡ false
  unfolding compare_from
  from_not_negative g1 g2 i zero = refl
  from_not_negative g1 g2 i (suc rounds) =
      let a1 = g1.repr i in
      let a2 = g2.repr i in
      let run =
        compare_edges g all_equal_compare sort t g1.leaf g2.leaf a1.out_edges a2.out_edges in
      let degrees = difference-unsigned t a1.out_degree a2.out_degree unsigned wide short in
      elim (Option-cases run) [
        | inl p ↦ ground (arith, p, degrees, from_not_negative g1 g2 (i + 1) rounds)
        | inr (d, p) ↦
            ground
              (arith, p, degrees, edges_not_negative g1.leaf g2.leaf a1.out_edges a2.out_edges d p)
      ]

-- With an unsigned `SizeType` of 32 to 63 bits and the edge handler for edges without labels, the
-- comparison of two leaves is never negative, so no leaf is ever found better than another.
pub compare_views-not_negative :
    {E : Type 0} (g : Graph E) (sort : (E → E → Bool) → List E → List E) (t : IntType)
    (g1 g2 : View E)
    → t.is_signed ≡ false
    → 32 ≤ t.bits
    → 2 ^ t.bits ≤ 2 ^ 63
    → is_negative (compare_views g all_equal_compare sort t g1 g2) ≡ false
unfolding compare_views
compare_views-not_negative g sort t g1 g2 unsigned wide short =
    from_not_negative g sort t unsigned wide short g1 g2 0 g1.n

abbrev pub AreOpposite : ℤ → ℤ → Type 0
AreOpposite x y = (is_negative x ≡ is_positive y) × (is_positive x ≡ is_negative y)

abbrev OppositeRuns : Option ℤ → Option ℤ → Type 0
OppositeRuns none none = Unit {0}
OppositeRuns none (some y) = ⊥
OppositeRuns (some x) none = ⊥
OppositeRuns (some x) (some y) = AreOpposite x y

difference-opposite :
    (t : IntType) (a b : ℕ)
    → IsExact t
    → a < 2 ^ 63
    → b < 2 ^ 63
    → AreOpposite (difference t a b) (difference t b a)
difference-opposite t a b x ha hb =
    rw (difference-exact t a b x ha hb, difference-exact t b a x hb ha) (ground arith)

module _ {E : Type 0} (g : Graph E) (edge_compare : E → E → ℤ)
    (sort : (E → E → Bool) → List E → List E) (t : IntType) (exact : IsExact t)
    (opposite : (a b : E) → AreOpposite (edge_compare a b) (edge_compare b a)) where
  edges_opposite :
      (pi1 pi2 : Partition) (es1 es2 : List E)
      → ((e : E) → pi1.inverse (g.target e) < 2 ^ 63)
      → ((e : E) → pi2.inverse (g.target e) < 2 ^ 63)
      → OppositeRuns
          (compare_edges g edge_compare sort t pi1 pi2 es1 es2)
          (compare_edges g edge_compare sort t pi2 pi1 es2 es1)
  unfolding compare_edges
  edges_opposite pi1 pi2 [] [] b1 b2 = tt
  edges_opposite pi1 pi2 [] (e2 ∷ es2) b1 b2 = tt
  edges_opposite pi1 pi2 (e1 ∷ es1) [] b1 b2 = tt
  edges_opposite pi1 pi2 (e1 ∷ es1) (e2 ∷ es2) b1 b2 = ground (
    arith,
    edges_opposite pi1 pi2 es1 es2 b1 b2,
    opposite e1 e2,
    difference-opposite t (pi1.inverse (g.target e1)) (pi2.inverse (g.target e2)) exact (b1 e1)
        (b2 e2),
  )

  from_opposite :
      (g1 g2 : View E) (i rounds : ℕ)
      → ((e : E) → g1.leaf.inverse (g.target e) < 2 ^ 63)
      → ((e : E) → g2.leaf.inverse (g.target e) < 2 ^ 63)
      → ((j : ℕ)
          → i ≤ j
          → j < i + rounds
          → ((g1.repr j).out_degree < 2 ^ 63) × ((g2.repr j).out_degree < 2 ^ 63))
      → AreOpposite
          (compare_from g edge_compare sort t g1 g2 i rounds)
          (compare_from g edge_compare sort t g2 g1 i rounds)
  unfolding compare_from
  from_opposite g1 g2 i zero b1 b2 d = (refl, refl)
  from_opposite g1 g2 i (suc rounds) b1 b2 d =
      let a1 = g1.repr i in
      let a2 = g2.repr i in
      let (d1, d2) = d i (omega arith) (omega arith) in
      let rest =
        from_opposite g1 g2 (i + 1) rounds b1 b2 (λ j l u. d j (omega arith) (omega arith)) in
      let edges = edges_opposite g1.leaf g2.leaf a1.out_edges a2.out_edges b1 b2 in
      let degrees = difference-opposite t a1.out_degree a2.out_degree exact d1 d2 in
      ground (arith, rest, edges, degrees)

  -- Comparing two leaves the other way round gives the opposite sign, where the integer type keeps the
  -- sign of a difference, the edge handler gives opposite signs, and counts and indices are below 2^63.
  pub compare_views-opposite :
      (g1 g2 : View E)
      → g1.n ≡ g2.n
      → ((e : E) → g1.leaf.inverse (g.target e) < 2 ^ 63)
      → ((e : E) → g2.leaf.inverse (g.target e) < 2 ^ 63)
      → ((j : ℕ) → j < g1.n → ((g1.repr j).out_degree < 2 ^ 63) × ((g2.repr j).out_degree < 2 ^ 63))
      → AreOpposite
          (compare_views g edge_compare sort t g1 g2)
          (compare_views g edge_compare sort t g2 g1)
  unfolding compare_views
  compare_views-opposite g1 g2 n b1 b2 d =
      rw (← n) (from_opposite g1 g2 0 g1.n b1 b2 (λ j l u. d j (omega arith)))

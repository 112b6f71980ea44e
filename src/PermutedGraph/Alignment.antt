-- ===== src/PermutedGraph/Alignment.antt =====
-- permuted_graph_view.hpp: the comparison of two views gives 0 only if their edges are aligned.
use mathlib.Core.List.{Mem, Memᴰ, mem-cons_of_mem}
use graph_canon.Base.{
  ℕ, zero, suc, ◌+◌, ◌^◌, ◌≤◌, ◌<◌, ◌≡◌, ◌≢◌, inl, inr, refl, arith, List, [], ◌∷◌, length, none,
  some, eq-cases, Option-cases, Bool, true,
}
use graph_canon.Base.Int.{ℤ, pos, IntType, difference, difference-eq-zero, is_zero, is_zero_lem}
use graph_canon.Partition.{Partition}
use graph_canon.PermutedGraph.{Graph, View, compare_edges, compare_from}

module _ {E : Type 0} (g : Graph E) (edge_compare : E → E → ℤ) where
  -- The edges of two vertices at one index, aligned by their position in two partitions.
  abbrev pub AreAligned : Partition → Partition → List E → List E → Type 0
  AreAligned pi1 pi2 [] [] = Unit {0}
  AreAligned pi1 pi2 [] (e2 ∷ es2) = ⊥
  AreAligned pi1 pi2 (e1 ∷ es1) [] = ⊥
  AreAligned pi1 pi2 (e1 ∷ es1) (e2 ∷ es2) =
      (pi1.inverse (g.target e1) ≡ pi2.inverse (g.target e2))
      × (edge_compare e1 e2 ≡ pos 0)
      × AreAligned pi1 pi2 es1 es2

-- The parameters of one comparison: a graph whose counts fit the integer type.
module _ {E : Type 0} (g : Graph E) (edge_compare : E → E → ℤ)
    (sort : (E → E → Bool) → List E → List E) (t : IntType) where
  -- Every edge of the list leads to a vertex whose index in `pi` the integer type can hold.
  abbrev pub Fit : Partition → List E → Type 0
  Fit pi es = (e : E) → Mem e es → pi.inverse (g.target e) < 2 ^ t.bits

  Fit-tail : (pi : Partition) (e : E) (es : List E) → Fit pi (e ∷ es) → Fit pi es
  Fit-tail pi e es h x m = h x (mem-cons_of_mem e m)

  same_target :
      (pi1 pi2 : Partition) (e1 e2 : E) (es1 es2 : List E)
      → Fit pi1 (e1 ∷ es1)
      → Fit pi2 (e2 ∷ es2)
      → difference t (pi1.inverse (g.target e1)) (pi2.inverse (g.target e2)) ≡ pos 0
      → pi1.inverse (g.target e1) ≡ pi2.inverse (g.target e2)
  same_target pi1 pi2 e1 e2 es1 es2 b1 b2 =
      difference-eq-zero t (pi1.inverse (g.target e1)) (pi2.inverse (g.target e2))
        (b1 e1 ∣ Memᴰ.head refl ∣₁) (b2 e2 ∣ Memᴰ.head refl ∣₁)

  -- An early return is never 0, so 0 means that the loop ran to its end.
  compare_edges-ne :
      (pi1 pi2 : Partition) (es1 es2 : List E) (d : ℤ)
      → Fit pi1 es1
      → Fit pi2 es2
      → compare_edges g edge_compare sort t pi1 pi2 es1 es2 ≡ some d
      → d ≢ pos 0
  unfolding compare_edges
  compare_edges-ne pi1 pi2 [] es2 d b1 b2 p = cc
  compare_edges-ne pi1 pi2 (e1 ∷ es1) [] d b1 b2 p = cc
  compare_edges-ne pi1 pi2 (e1 ∷ es1) (e2 ∷ es2) d b1 b2 p = ground (
    arith,
    same_target pi1 pi2 e1 e2 es1 es2 b1 b2,
    compare_edges-ne pi1 pi2 es1 es2 d (Fit-tail pi1 e1 es1 b1) (Fit-tail pi2 e2 es2 b2),
  )

  pub compare_edges_lem :
      (pi1 pi2 : Partition) (es1 es2 : List E)
      → length es1 ≡ length es2
      → compare_edges g edge_compare sort t pi1 pi2 es1 es2 ≡ none
      → AreAligned g edge_compare pi1 pi2 es1 es2
  unfolding compare_edges
  compare_edges_lem pi1 pi2 [] [] l h = tt
  compare_edges_lem pi1 pi2 [] (e2 ∷ es2) l h = omega arith
  compare_edges_lem pi1 pi2 (e1 ∷ es1) [] l h = omega arith
  compare_edges_lem pi1 pi2 (e1 ∷ es1) (e2 ∷ es2) l h =
      let zero_diff : is_zero (edge_compare e1 e2) ≡ true = ground arith in
      (
        ground arith,
        is_zero_lem (edge_compare e1 e2) zero_diff,
        compare_edges_lem pi1 pi2 es1 es2 (omega arith) (ground arith),
      )

  -- The entry at an index of a view fits the integer type.
  abbrev pub FitsAt : View E → ℕ → Type 0
  FitsAt view i = ((view.repr i).out_degree < 2 ^ t.bits) × Fit view.leaf (view.repr i).out_edges

  pub compare_from_lem :
      (g1 g2 : View E) (v_idx rounds : ℕ)
      → ((i : ℕ) → v_idx ≤ i → i < v_idx + rounds → FitsAt g1 i × FitsAt g2 i)
      → compare_from g edge_compare sort t g1 g2 v_idx rounds ≡ pos 0
      → (i : ℕ) → v_idx ≤ i
      → i < v_idx + rounds
      → ((g1.repr i).out_degree ≡ (g2.repr i).out_degree)
        × (compare_edges g edge_compare sort t g1.leaf g2.leaf
              (g1.repr i).out_edges
              (g2.repr i).out_edges
            ≡ none)
  unfolding compare_from
  compare_from_lem g1 g2 v_idx zero b e i l u = absurd (omega arith)
  compare_from_lem g1 g2 v_idx (suc rounds) b e i l u =
      let a1 = g1.repr v_idx in
      let a2 = g2.repr v_idx in
      let (f1, f2) = b v_idx (omega arith) (omega arith) in
      let same : a1.out_degree ≡ a2.out_degree =
        ground (arith, e, difference-eq-zero t a1.out_degree a2.out_degree f1.0 f2.0) in
      let run : compare_edges g edge_compare sort t g1.leaf g2.leaf a1.out_edges a2.out_edges
          ≡ none =
        elim (Option-cases
          (compare_edges g edge_compare sort t g1.leaf g2.leaf a1.out_edges a2.out_edges)) [
            | inl p ↦ p
            | inr (d, p) ↦ absurd (
                compare_edges-ne g1.leaf g2.leaf a1.out_edges a2.out_edges d f1.1 f2.1 p
                  (ground arith))
          ] in
      elim (eq-cases i v_idx) [
        | inl p ↦ rw p (same, run)
        | inr ne ↦
            compare_from_lem g1 g2 (v_idx + 1) rounds (λ j x y. b j (omega arith) (omega arith))
              (ground arith) i (omega arith) (omega arith)
      ]

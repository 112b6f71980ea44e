-- ===== src/Refine/Ordering.antt =====
-- WL_1.hpp: sorting the refinees keeps which cells they are.
use graph_canon.Base.{◌↔◌, inl, inr, refl, sym, arith, ℕ, List, [], ◌∷◌, ltb, Bool-cases, All}
use graph_canon.Refine.{RefineeCell}
use graph_canon.Refine.Handle.{sort_refinees, insert_refinee}
use graph_canon.Refine.RefineeCells.{IsRefinee, AreApart}

insert-All :
    (P : RefineeCell → Type 0) (a : RefineeCell) (rs : List RefineeCell)
    → P a
    → All P rs
    → All P (insert_refinee a rs)
insert-All P a [] p ps = (p, tt)
insert-All P a (b ∷ rs) p ps = elim (Bool-cases (ltb b.first a.first)) [
  | inl e ↦ rw e (ps.0, insert-All P a rs p ps.1)
  | inr e ↦ rw e (p, ps)
]

pub sort-All :
    (P : RefineeCell → Type 0) (rs : List RefineeCell) → All P rs → All P (sort_refinees rs)
unfolding sort_refinees
sort-All P [] ps = tt
sort-All P (a ∷ rs) ps = insert-All P a (sort_refinees rs) ps.0 (sort-All P rs ps.1)

insert-IsRefinee :
    (c : ℕ) (a : RefineeCell) (rs : List RefineeCell)
    → IsRefinee c (insert_refinee a rs) ↔ IsRefinee c (a ∷ rs)
insert-IsRefinee c a [] = (λ i. i, λ i. i)
insert-IsRefinee c a (b ∷ rs) = elim (Bool-cases (ltb b.first a.first)) [
  | inl e ↦ rw e (ground (arith, insert-IsRefinee c a rs))
  | inr e ↦ rw e (λ i. i, λ i. i)
]

pub sort-IsRefinee :
    (c : ℕ) (rs : List RefineeCell) → IsRefinee c (sort_refinees rs) ↔ IsRefinee c rs
unfolding sort_refinees
sort-IsRefinee c [] = (λ i. i, λ i. i)
sort-IsRefinee c (a ∷ rs) =
    ground (arith, insert-IsRefinee c a (sort_refinees rs), sort-IsRefinee c rs)

insert-AreApart :
    (a : RefineeCell) (rs : List RefineeCell)
    → ¬ IsRefinee a.first rs
    → AreApart rs
    → AreApart (insert_refinee a rs)
insert-AreApart a [] new apart = (λ i. i, tt)
insert-AreApart a (b ∷ rs) new apart = elim (Bool-cases (ltb b.first a.first)) [
  | inl e ↦ rw e (
    λ i. elim ((insert-IsRefinee b.first a rs).0 i) [
      | inl x ↦ new (inl (sym x))
      | inr y ↦ apart.0 y
    ],
    insert-AreApart a rs (λ i. new (inr i)) apart.1,
  )
  | inr e ↦ rw e (new, apart)
]

pub sort-AreApart : (rs : List RefineeCell) → AreApart rs → AreApart (sort_refinees rs)
unfolding sort_refinees
sort-AreApart [] apart = tt
sort-AreApart (a ∷ rs) apart =
    insert-AreApart a (sort_refinees rs) (λ i. apart.0 ((sort-IsRefinee a.first rs).0 i))
      (sort-AreApart rs apart.1)

-- A property of all refinees, by their first indices.
pub refinees-All :
    (P : ℕ → Type 0) (rs : List RefineeCell)
    → ((c : ℕ) → IsRefinee c rs → P c)
    → All (λ q. P q.first) rs
refinees-All P [] h = tt
refinees-All P (q ∷ rs) h = (h q.first (inl refl), refinees-All P rs (λ c i. h c (inr i)))

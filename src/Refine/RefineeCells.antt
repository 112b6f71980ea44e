-- ===== src/Refine/RefineeCells.antt =====
-- WL_1.hpp: the list of refinees.
use graph_canon.Base.{ℕ, ◌<◌, ◌≡◌, ◌≢◌, ◌⊎◌, ◌↔◌, inl, inr, arith, List, [], ◌∷◌, ◌++◌}
use graph_canon.Partition.{Partition}
use graph_canon.Refine.{RefineeCell}

abbrev pub IsRefinee : ℕ → List RefineeCell → Type 0
IsRefinee c [] = ⊥
IsRefinee c (r ∷ rs) = (c ≡ r.first) ⊎ IsRefinee c rs

pub IsRefinee-append :
    (c : ℕ) (rs qs : List RefineeCell) → IsRefinee c (rs ++ qs) ↔ (IsRefinee c rs ⊎ IsRefinee c qs)
IsRefinee-append c [] qs = (λ i. inr i, λ s. elim s [ inl e ↦ absurd e | inr i ↦ i ])
IsRefinee-append c (r ∷ rs) qs = ground (arith, IsRefinee-append c rs qs)

abbrev pub AreApart : List RefineeCell → Type 0
AreApart [] = Unit {0}
AreApart (r ∷ rs) = (¬ IsRefinee r.first rs) × AreApart rs

pub AreApart-append :
    (rs : List RefineeCell) (r : RefineeCell)
    → ¬ IsRefinee r.first rs
    → AreApart rs
    → AreApart (rs ++ r ∷ [])
AreApart-append [] r new apart = (λ i. i, tt)
AreApart-append (q ∷ rs) r new apart = (
  λ i. ground (arith, (IsRefinee-append q.first rs (r ∷ [])).0 i, apart.0, new),
  AreApart-append rs r (λ i. new (inr i)) apart.1,
)

-- A refinee is a cell, with its end.
abbrev pub IsWholeCell : Partition → RefineeCell → Type 0
IsWholeCell pi r =
    (r.first < pi.n) × (pi.next_cell_begin r.first ≢ 0) × (r.last ≡ pi.next_cell_begin r.first)

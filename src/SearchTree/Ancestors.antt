-- ===== src/SearchTree/Ancestors.antt =====
-- tree_node.hpp: the nodes of a search tree and their ancestors.
use graph_canon.Base.{ℕ, suc, ◌≤◌, ◌<◌, ◌≡◌, none, some, arith, refl, subst}
use graph_canon.SearchTree.{Ancestry}

-- Every node but one root has a parent, whose level is one less.
pub record IsTree (t : Ancestry) : Type 0 where
  pub parent_in : (a p : ℕ) → a < t.size → t.parent a ≡ some p → p < t.size
  pub parent_level : (a p : ℕ) → a < t.size → t.parent a ≡ some p → t.level a ≡ suc (t.level p)
  pub root_level : (a : ℕ) → a < t.size → t.parent a ≡ none → t.level a ≡ 0
  pub one_root : (a b : ℕ) → a < t.size → b < t.size → t.level a ≡ 0 → t.level b ≡ 0 → a ≡ b

-- Node `p` is node `a` or is above it.
pub data IsAncestor (t : Ancestry) : ℕ → ℕ → Type 0 where
  self : (a : ℕ) → IsAncestor t a a
  above : (p q a : ℕ) → t.parent a ≡ some q → IsAncestor t p q → IsAncestor t p a

pub IsAncestor-level :
    (t : Ancestry) (p a : ℕ) → IsTree t → a < t.size → IsAncestor t p a → t.level p ≤ t.level a
IsAncestor-level t p a h l (self _) = omega arith
IsAncestor-level t p a h l (above _ q _ e o) =
    omega (arith, h.parent_level a q l e, IsAncestor-level t p q h (h.parent_in a q l e) o)

-- A node has one ancestor on each level.
pub IsAncestor-unique :
    (t : Ancestry) (p r a : ℕ)
    → IsTree t
    → a < t.size
    → IsAncestor t p a
    → IsAncestor t r a
    → t.level p ≡ t.level r
    → p ≡ r
IsAncestor-unique t p r a h l (self _) (self _) e = refl
IsAncestor-unique t p r a h l (self _) (above _ q _ e' o) e =
    let lower = h.parent_level a q l e' in
    absurd (omega (arith, lower, IsAncestor-level t r q h (h.parent_in a q l e') o))
IsAncestor-unique t p r a h l (above _ q _ e' o) (self _) e =
    let lower = h.parent_level a q l e' in
    absurd (omega (arith, lower, IsAncestor-level t p q h (h.parent_in a q l e') o))
IsAncestor-unique t p r a h l (above _ q _ e' o) (above _ q' _ e'' o') e =
    let same : q' ≡ q = cc in
    IsAncestor-unique t p r q h (h.parent_in a q l e') o (subst (λ z. IsAncestor t r z) same o') e

pub IsAncestor-trans :
    (t : Ancestry) (p q a : ℕ) → IsAncestor t p q → IsAncestor t q a → IsAncestor t p a
IsAncestor-trans t p q a o (self _) = o
IsAncestor-trans t p q a o (above _ r _ e o') = above p r a e (IsAncestor-trans t p q r o o')

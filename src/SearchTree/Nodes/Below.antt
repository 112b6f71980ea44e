-- ===== src/SearchTree/Nodes/Below.antt =====
-- tree_node.hpp: the nodes below a node, and what pruning may change.
use graph_canon.Base.{ℕ, ◌<◌, ◌≡◌, ◌⊎◌, inl, inr, some, true, arith, refl, sym, ◌∙◌}
use graph_canon.SearchTree.Nodes.{TreeNode}

abbrev pub Nodes : Type 0
Nodes = ℕ → TreeNode

-- Node `a` is `self` or is below it.
pub data IsBelow (s : Nodes) : ℕ → ℕ → Type 0 where
  top : (a : ℕ) → IsBelow s a a
  child :
      (self p i a : ℕ)
      → IsBelow s self p
      → i < (s p).children_size
      → (s p).children i ≡ some a
      → IsBelow s self a

-- The children of a pruned node are pruned and cannot be made any more; heights fall to the children.
pub record IsPrunable (height : ℕ → ℕ) (s : Nodes) : Type 0 where
  pub lower :
      (a i c : ℕ) → i < (s a).children_size → (s a).children i ≡ some c → height c < height a
  pub closed :
      (a i c : ℕ)
      → i < (s a).children_size
      → (s a).children i ≡ some c
      → (s a).is_pruned ≡ true
      → (s c).is_pruned ≡ true
  pub blocked :
      (a i : ℕ) → i < (s a).children_size → (s a).is_pruned ≡ true → (s a).child_pruned i ≡ true

-- What pruning leaves: the links between the nodes as they were, pruned nodes pruned, and no node
-- pruned that does not satisfy `Mine`.
pub record IsMore (s : Nodes) (Mine : ℕ → Type 0) (t : Nodes) : Type 0 where
  pub size : (a : ℕ) → (t a).children_size ≡ (s a).children_size
  pub links : (a i : ℕ) → (t a).children i ≡ (s a).children i
  pub held : (a i : ℕ) → (s a).child_pruned i ≡ true → (t a).child_pruned i ≡ true
  pub kept : (a : ℕ) → (s a).is_pruned ≡ true → (t a).is_pruned ≡ true
  pub only : (a : ℕ) → (t a).is_pruned ≡ true → ((s a).is_pruned ≡ true) ⊎ Mine a

pub IsMore-refl : (s : Nodes) (Mine : ℕ → Type 0) → IsMore s Mine s
IsMore-refl s Mine = record {
  size = λ a. refl;
  links = λ a i. refl;
  held = λ a i e. e;
  kept = λ a e. e;
  only = λ a e. inl e;
}

pub IsMore-trans :
    (s t u : Nodes) (Mine Yours : ℕ → Type 0)
    → ((a : ℕ) → Yours a → Mine a)
    → IsMore s Mine t
    → IsMore t Yours u
    → IsMore s Mine u
IsMore-trans s t u Mine Yours into m n = record {
  size = λ a. n.size a ∙ m.size a;
  links = λ a i. n.links a i ∙ m.links a i;
  held = λ a i e. n.held a i (m.held a i e);
  kept = λ a e. n.kept a (m.kept a e);
  only = λ a e. elim (n.only a e) [ inl e' ↦ m.only a e' | inr y ↦ inr (into a y) ];
}

-- The same nodes are below a node before and after.
pub IsBelow-before :
    (s t : Nodes) (Mine : ℕ → Type 0) (self a : ℕ)
    → IsMore s Mine t
    → IsBelow t self a
    → IsBelow s self a
IsBelow-before s t Mine self a m (top _) = top a
IsBelow-before s t Mine self a m (child _ p i _ b l e) =
    child self p i a (IsBelow-before s t Mine self p m b) (omega (arith, l, m.size p))
      (sym (m.links p i) ∙ e)

pub IsBelow-trans : (s : Nodes) (a b c : ℕ) → IsBelow s a b → IsBelow s b c → IsBelow s a c
IsBelow-trans s a b c o (top _) = o
IsBelow-trans s a b c o (child _ p i _ b' l e) = child a p i c (IsBelow-trans s a b p o b') l e

-- ===== src/AutPruner/Leaf.antt =====
-- include/graph_canon/aut/pruner_base.hpp: automorphism_leaf. An automorphism from the canonical leaf
-- to a new leaf makes one subtree above the new leaf needless.
use graph_canon.Base.{
  ℕ, zero, suc, ◌+◌, ◌≤◌, ◌<◌, ◌≡◌, ◌≢◌, ◌⊎◌, inl, inr, Bool, true, false, Option, none, some,
  ◌>>=◌, ltb, ◌==◌, if◌then◌else◌, arith, refl, sym, subst, ap, ◌∙◌, Option-cases, lt-cases,
  eq-cases,
}
use graph_canon.SearchTree.{Ancestry}
use graph_canon.SearchTree.Ancestors.{
  IsTree, IsAncestor, self, above, IsAncestor-unique, IsAncestor-trans,
}

-- `while(a->level > level) a = a->get_parent();`; `none` is a null pointer or the lack of fuel.
climb : Ancestry → ℕ → ℕ → ℕ → Option ℕ
climb t level zero a = none
climb t level (suc fuel) a =
    let rest = t.parent a >>= λ p. climb t level fuel p in
    if ltb level (t.level a) then rest else some a

-- `==` of two pointers.
abbrev pub is_same_node : Option ℕ → Option ℕ → Bool
is_same_node none none = true
is_same_node none (some b) = false
is_same_node (some a) none = false
is_same_node (some a) (some b) = a == b

-- The last loop, which returns `tAut`.
climb_both : Ancestry → ℕ → ℕ → ℕ → Option ℕ
climb_both t zero canon aut = none
climb_both t (suc fuel) canon aut =
    let rest =
      t.parent canon >>= λ canon'. t.parent aut >>= λ aut'. climb_both t fuel canon' aut' in
    if is_same_node (t.parent canon) (t.parent aut) then some aut else rest

-- The node whose subtree `automorphism_leaf` prunes, for the canonical leaf and the new leaf.
unfoldable pub pruned_node : Ancestry → ℕ → ℕ → Option ℕ
unfolding climb climb_both
pruned_node t canon_leaf leaf =
    climb t (t.level leaf) (t.level canon_leaf + 1) canon_leaf >>= λ canon.
    climb t (t.level canon) (t.level leaf + 1) leaf >>= λ aut.
    climb_both t (t.level aut + 1) canon aut

-- The ancestor of `a` on a level, or `a` if that is not below the level.
record IsClimbed (t : Ancestry) (level a : ℕ) (o : Option ℕ) : Type 0 where
  pub node : ℕ
  pub result : o ≡ some node
  pub inside : node < t.size
  pub ancestor : IsAncestor t node a
  pub low : t.level node ≤ level
  pub reached : (t.level node ≡ level) ⊎ (node ≡ a)

climb-IsClimbed :
    (t : Ancestry) (level fuel a : ℕ)
    → IsTree t
    → a < t.size
    → t.level a < fuel
    → IsClimbed t level a (climb t level fuel a)
unfolding climb
climb-IsClimbed t level zero a h l m = absurd (omega arith)
climb-IsClimbed t level (suc fuel) a h l m = elim (lt-cases level (t.level a)) [
  | inr le ↦
      let test : ltb level (t.level a) ≡ false = ground arith in
      rw test (record {
        node = a;
        result = refl;
        inside = l;
        ancestor = self a;
        low = le;
        reached = inr refl;
      })
  | inl lt ↦
      let test : ltb level (t.level a) ≡ true = ground arith in
      elim (Option-cases (t.parent a)) [
        | inl e ↦ absurd (omega (arith, h.root_level a l e))
        | inr (p, e) ↦
            let up = h.parent_level a p l e in
            let c = climb-IsClimbed t level fuel p h (h.parent_in a p l e) (omega arith) in
            rw (test, e)
              (record {
                node = c.node;
                result = c.result;
                inside = c.inside;
                ancestor = above c.node p a e c.ancestor;
                low = c.low;
                reached = elim c.reached [
                  | inl at ↦ inl at
                  | inr q ↦ inl (omega (arith, up, c.low, ap t.level q))
                ];
              })
      ]
]

-- What stands below the lowest common ancestor of the canonical leaf and a new leaf: the root of the
-- largest subtree that holds the new leaf and not the canonical one.
pub record IsPrunedNode (t : Ancestry) (canon_leaf leaf : ℕ) (o : Option ℕ) : Type 0 where
  pub node : ℕ
  pub result : o ≡ some node
  pub of_leaf : IsAncestor t node leaf
  pub not_of_canon : ¬ IsAncestor t node canon_leaf
  pub common : ℕ
  pub parent : t.parent node ≡ some common
  pub common_of_canon : IsAncestor t common canon_leaf

-- A node that is not the only one of its level has a parent.
has_parent :
    (t : Ancestry) (a b : ℕ)
    → IsTree t
    → a < t.size
    → b < t.size
    → t.level a ≡ t.level b
    → a ≢ b
    → (p : ℕ) × (t.parent a ≡ some p)
has_parent t a b h la lb e ne = elim (Option-cases (t.parent a)) [
  | inr found ↦ found
  | inl root ↦
      let low = h.root_level a la root in
      absurd (ne (h.one_root a b la lb low (omega (arith, e, low))))
]

climb_both-IsPrunedNode :
    (t : Ancestry) (canon_leaf leaf fuel c a : ℕ)
    → IsTree t
    → canon_leaf < t.size
    → c < t.size
    → a < t.size
    → t.level a < fuel
    → t.level c ≡ t.level a
    → c ≢ a
    → IsAncestor t c canon_leaf
    → IsAncestor t a leaf
    → IsPrunedNode t canon_leaf leaf (climb_both t fuel c a)
unfolding climb_both
climb_both-IsPrunedNode t canon_leaf leaf zero c a h lx lc la m e ne o o' = absurd (omega arith)
climb_both-IsPrunedNode t canon_leaf leaf (suc fuel) c a h lx lc la m e ne o o' =
    let (p, ep) = has_parent t c a h lc la e ne in
    let (q, eq) = has_parent t a c h la lc (sym e) (λ d. ne (sym d)) in
    elim (eq-cases p q) [
      | inl same ↦
          let test : (p == q) ≡ true = ground arith in
          rw (ep, eq, test)
            (record {
              node = a;
              result = refl;
              of_leaf = o';
              not_of_canon = λ d. ne (IsAncestor-unique t c a canon_leaf h lx o d e);
              common = q;
              parent = eq;
              common_of_canon =
                  IsAncestor-trans t q c canon_leaf
                    (above q p c ep (subst (λ z. IsAncestor t z p) same (self p))) o;
            })
      | inr differ ↦
          let test : (p == q) ≡ false = ground arith in
          let up = h.parent_level c p lc ep in
          let up' = h.parent_level a q la eq in
          rw (ep, eq, test)
            (climb_both-IsPrunedNode t canon_leaf leaf fuel p q h lx (h.parent_in c p lc ep)
              (h.parent_in a q la eq) (omega arith) (omega arith) differ
              (IsAncestor-trans t p c canon_leaf (above p p c ep (self p)) o)
              (IsAncestor-trans t q a leaf (above q q a eq (self q)) o'))
    ]

-- For two nodes of a tree neither of which is above the other, as are the canonical leaf and a new
-- leaf, the three loops end. The node whose subtree is pruned is above the new leaf or is it, is not
-- above the canonical leaf, and is a child of a common ancestor of both.
pub pruned_node-IsPrunedNode :
    (t : Ancestry) (canon_leaf leaf : ℕ)
    → IsTree t
    → canon_leaf < t.size
    → leaf < t.size
    → ¬ IsAncestor t leaf canon_leaf
    → ¬ IsAncestor t canon_leaf leaf
    → IsPrunedNode t canon_leaf leaf (pruned_node t canon_leaf leaf)
unfolding pruned_node
pruned_node-IsPrunedNode t canon_leaf leaf h lc ll off off' =
    let c =
      climb-IsClimbed t (t.level leaf) (t.level canon_leaf + 1) canon_leaf h lc (omega arith) in
    let a = climb-IsClimbed t (t.level c.node) (t.level leaf + 1) leaf h ll (omega arith) in
    let differ : c.node ≢ a.node = λ e. elim a.reached [
      | inr q ↦ off (subst (λ z. IsAncestor t z canon_leaf) (e ∙ q) c.ancestor)
      | inl at ↦ elim c.reached [
        | inr q ↦ off' (subst (λ z. IsAncestor t z leaf) (sym e ∙ q) a.ancestor)
        | inl at' ↦ off (
            subst (λ z. IsAncestor t z canon_leaf)
              (e
                ∙ IsAncestor-unique t a.node leaf leaf h ll a.ancestor (self leaf)
                    (omega (arith, at, at')))
              c.ancestor)
      ]
    ] in
    let level : t.level c.node ≡ t.level a.node = elim a.reached [
      | inl at ↦ sym at
      | inr q ↦ omega (arith, c.low, a.low, ap t.level q)
    ] in
    rw (c.result, a.result)
      (climb_both-IsPrunedNode t canon_leaf leaf (t.level a.node + 1) c.node a.node h lc c.inside
        a.inside (omega arith) level differ c.ancestor a.ancestor)

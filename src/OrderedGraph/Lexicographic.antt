-- ===== src/OrderedGraph/Lexicographic.antt =====
-- Three-way comparisons, where `none` is equal and `some true` is less, and their lexicographic
-- combinations.
use graph_canon.Base.{
  ℕ, ◌≡◌, List, [], ◌∷◌, Option, none, some, Bool, true, false, not, ◌==◌, ltb, if◌then◌else◌,
  length, arith, refl,
}
use graph_canon.OrderedGraph.Compare.{or_else}

abbrev pub opposite : Option Bool → Option Bool
opposite none = none
opposite (some b) = some (not b)

-- A comparison that is a strict total order up to being equal.
pub record IsOrder {A : Type 0} (c : A → A → Option Bool) : Type 0 where
  pub flip : (x y : A) → c y x ≡ opposite (c x y)
  pub trans : (x y z : A) → c x y ≡ some true → c y z ≡ some true → c x z ≡ some true
  pub left : (x y z : A) → c x y ≡ none → c x z ≡ c y z

abbrev pub compare_ℕ : ℕ → ℕ → Option Bool
compare_ℕ a b = if a == b then none else some (ltb a b)

-- The comparison that two consistent predicates make.
abbrev pub compare_by {ℓ} : {A : Type ℓ} → (A → A → Bool) → (A → A → Bool) → A → A → Option Bool
compare_by equal less x y = if equal x y then none else some (less x y)

pub compare_ℕ-IsOrder : IsOrder compare_ℕ
compare_ℕ-IsOrder = record {
  flip = λ x y. ground arith;
  trans = λ x y z a b. ground arith;
  left = λ x y z a. ground arith;
}

IsOrder-right :
    {A : Type 0} (c : A → A → Option Bool) → IsOrder c → (x y z : A) → c y z ≡ none → c x z ≡ c x y
IsOrder-right c h x y z e = ground (arith, h.flip y z, h.left z y x, h.flip z x, h.flip y x)

pub or_else-IsOrder :
    {A : Type 0} (c d : A → A → Option Bool)
    → IsOrder c
    → IsOrder d
    → IsOrder (λ x y. or_else (c x y) (d x y))
or_else-IsOrder c d h k = record {
  flip = λ x y. ground (arith, h.flip x y, k.flip x y);
  trans = λ x y z a b.
      ground (arith, h.left x y z, IsOrder-right c h x y z, h.trans x y z, k.trans x y z);
  left = λ x y z a. ground (arith, h.left x y z, k.left x y z);
}

-- The comparison of lists by their first difference; a proper prefix is less.
unfoldable pub compare_lists : {A : Type 0} → (A → A → Option Bool) → List A → List A → Option Bool
compare_lists c [] [] = none
compare_lists c [] (y ∷ ys) = some true
compare_lists c (x ∷ xs) [] = some false
compare_lists c (x ∷ xs) (y ∷ ys) = or_else (c x y) (compare_lists c xs ys)

pub compare_lists-IsOrder :
    {A : Type 0} (c : A → A → Option Bool) → IsOrder c → IsOrder (compare_lists c)
unfolding compare_lists
compare_lists-IsOrder {A} c h = record { flip = flips; trans = transitive; left = lefts }
  where
    flips : (xs ys : List A) → compare_lists c ys xs ≡ opposite (compare_lists c xs ys)
    flips [] [] = refl
    flips [] (y ∷ ys) = refl
    flips (x ∷ xs) [] = refl
    flips (x ∷ xs) (y ∷ ys) = ground (arith, h.flip x y, flips xs ys)

    lefts :
        (xs ys zs : List A)
        → compare_lists c xs ys ≡ none
        → compare_lists c xs zs ≡ compare_lists c ys zs
    lefts [] [] zs e = refl
    lefts [] (y ∷ ys) zs e = absurd (ground arith)
    lefts (x ∷ xs) [] zs e = absurd (ground arith)
    lefts (x ∷ xs) (y ∷ ys) [] e = refl
    lefts (x ∷ xs) (y ∷ ys) (z ∷ zs) e = ground (arith, h.left x y z, lefts xs ys zs)

    transitive :
        (xs ys zs : List A)
        → compare_lists c xs ys ≡ some true
        → compare_lists c ys zs ≡ some true
        → compare_lists c xs zs ≡ some true
    transitive [] [] zs a b = absurd (ground arith)
    transitive (x ∷ xs) [] zs a b = absurd (ground arith)
    transitive xs (y ∷ ys) [] a b = absurd (ground arith)
    transitive [] (y ∷ ys) (z ∷ zs) a b = refl
    transitive (x ∷ xs) (y ∷ ys) (z ∷ zs) a b =
        ground (arith, h.left x y z, IsOrder-right c h x y z, h.trans x y z, transitive xs ys zs)

-- Of lists of one length.
unfoldable pub compare_sized : {A : Type 0} → (A → A → Option Bool) → List A → List A → Option Bool
unfolding compare_lists
compare_sized c xs ys = or_else (compare_ℕ (length xs) (length ys)) (compare_lists c xs ys)

pub via-IsOrder :
    {A B : Type 0} (f : A → B) (c : B → B → Option Bool)
    → IsOrder c
    → IsOrder (λ x y. c (f x) (f y))
via-IsOrder f c h = record {
  flip = λ x y. h.flip (f x) (f y);
  trans = λ x y z. h.trans (f x) (f y) (f z);
  left = λ x y z. h.left (f x) (f y) (f z);
}

pub compare_sized-IsOrder :
    {A : Type 0} (c : A → A → Option Bool) → IsOrder c → IsOrder (compare_sized c)
unfolding compare_sized
compare_sized-IsOrder c h =
    or_else-IsOrder _ _ (via-IsOrder length compare_ℕ compare_ℕ-IsOrder) (compare_lists-IsOrder c h)

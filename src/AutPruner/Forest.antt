-- ===== src/AutPruner/Forest.antt =====
-- pruner_base.hpp: the parents form a forest, in which `find_root` ends at the root and joining two
-- sets takes one root away.
use graph_canon.Base.{
  ℕ, zero, suc, ◌+◌, ◌-◌, ◌≤◌, ◌<◌, ◌≡◌, ◌≢◌, inl, inr, Option, some, ap, Array, update, ◌==◌,
  if◌then◌else◌, arith, refl, sym, ◌∙◌, count_below, count_below-insert, count_below-le,
  pos-count_below, count_below-congr, count_below-all, count_below-two, eq-cases,
}
use graph_canon.AutPruner.{find_root}

-- The parents of `n` children with `num_roots + 1` roots: `root` is the root of each child, and
-- `rank` falls on the way to it.
pub record IsForest (n num_roots : ℕ) (parent root rank : Array) : Type 0 where
  pub inside : (x : ℕ) → x < n → parent x < n
  pub root_inside : (x : ℕ) → x < n → root x < n
  pub root_root : (x : ℕ) → x < n → parent (root x) ≡ root x
  pub root_parent : (x : ℕ) → x < n → root (parent x) ≡ root x
  pub own_root : (x : ℕ) → x < n → parent x ≡ x → root x ≡ x
  pub falls : (x : ℕ) → x < n → parent x ≢ x → rank (parent x) < rank x
  pub late : (x : ℕ) → x < n → parent x ≢ x → num_roots < rank x
  pub bottom : (x : ℕ) → x < n → parent x ≡ x → rank x ≡ 0
  pub low : (x : ℕ) → x < n → rank x < n
  pub count : count_below n (λ x. parent x == x) ≡ num_roots + 1

-- A child may be moved up to its grandparent.
shorten-IsForest :
    (n k : ℕ) (parent root rank : Array) (x : ℕ)
    → IsForest n k parent root rank
    → x < n
    → parent x ≢ x
    → parent (parent x) ≢ parent x
    → IsForest n k (update parent x (parent (parent x))) root rank
shorten-IsForest n k parent root rank x f l ne ne' =
    let pp = parent (parent x) in
    let p_in = f.inside x l in
    let fall = f.falls x l ne in
    let fall' = f.falls (parent x) p_in ne' in
    let pp_ne : pp ≢ x = λ e. omega (arith, fall, fall', ap rank e) in
    let roots : (y : ℕ) → y < n → (update parent x pp y == y) ≡ (parent y == y) =
      λ y m. ground (arith, pp_ne) in
    record {
      inside = λ y m. ground (arith, f.inside y, f.inside (parent x));
      root_inside = f.root_inside;
      root_root = λ y m. ground (arith, f.root_root y);
      root_parent = λ y m. ground (arith, f.root_parent y, f.root_parent (parent x));
      own_root = λ y m e. ground (arith, f.own_root y, pp_ne);
      falls = λ y m d. ground (arith, f.falls y);
      late = λ y m d. ground (arith, f.late y);
      bottom = λ y m e. ground (arith, f.bottom y, pp_ne);
      low = f.low;
      count =
          count_below-congr n (λ y. update parent x pp y == y) (λ y. parent y == y) roots ∙ f.count;
    }

-- What `find_root` returns for a child of a forest: its root and a forest with the same sets.
pub record IsFound (n num_roots : ℕ) (parent root rank : Array) (x : ℕ) (o : Option (ℕ × Array))
    : Type 0 where
  pub parent' : Array
  pub result : o ≡ some (root x, parent')
  pub forest : IsForest n num_roots parent' root rank

-- In a forest `find_root` ends, when the fuel is above the rank of the child.
pub find_root-IsFound :
    (n k fuel x : ℕ) (parent root rank : Array)
    → IsForest n k parent root rank
    → x < n
    → rank x < fuel
    → IsFound n k parent root rank x (find_root fuel x parent)
unfolding find_root
find_root-IsFound n k zero x parent root rank f l r = absurd (omega arith)
find_root-IsFound n k (suc fuel) x parent root rank f l r = elim (eq-cases (parent x) x) [
  | inl e ↦ record { parent' = parent; result = ground (arith, f.own_root x); forest = f }
  | inr ne ↦ elim (eq-cases (parent (parent x)) (parent x)) [
    | inl e ↦ record {
      parent' = parent;
      result = ground (arith, f.own_root (parent x), f.root_parent x, f.inside x);
      forest = f;
    }
    | inr ne' ↦
        let pp = parent (parent x) in
        let f' = shorten-IsForest n k parent root rank x f l ne ne' in
        let fall = f.falls x l ne in
        let deeper =
          find_root-IsFound n k fuel (parent x) (update parent x pp) root rank f' (f.inside x l)
            (omega arith) in
        record {
          parent' = deeper.parent';
          result = ground (arith, deeper.result, f.root_parent x);
          forest = deeper.forest;
        }
  ]
]

-- `other` below `new_root`: the root and the rank that a child has then.
abbrev pub joined_root : Array → ℕ → ℕ → Array
joined_root root new_root other x = if root x == other then new_root else root x

abbrev pub joined_rank : Array → ℕ → ℕ → Array
joined_rank rank num_roots other = update rank other num_roots

-- Two roots joined: one root less.
pub record IsJoined (n num_roots : ℕ) (parent root rank : Array) (new_root other : ℕ) : Type 0 where
  pub enough : 1 ≤ num_roots
  pub forest :
      IsForest n
        (num_roots - 1)
        (update parent other new_root)
        (joined_root root new_root other)
        (joined_rank rank num_roots other)

pub update-IsJoined :
    (n k : ℕ) (parent root rank : Array) (new_root other : ℕ)
    → IsForest n k parent root rank
    → new_root < n
    → other < n
    → parent new_root ≡ new_root
    → parent other ≡ other
    → new_root ≢ other
    → IsJoined n k parent root rank new_root other
update-IsJoined n k parent root rank a b f la lb ea eb ne =
    let joined = update parent b a in
    let after = count_below n (λ x. joined x == x) in
    let insert : k + 1 ≡ suc after =
      sym f.count
      ∙ count_below-insert n b (λ x. joined x == x) (λ x. parent x == x) lb (ground arith)
          (ground arith) (λ i l m. ground arith) in
    let some_root = pos-count_below n (λ x. joined x == x) a la (ground arith) in
    let enough : 1 ≤ k = omega arith in
    let own = f.own_root b lb eb in
    let few : k < n = omega (arith, f.count, count_below-le n (λ x. parent x == x)) in
    record {
      enough = enough;
      forest = record {
        inside = λ x l. ground (arith, f.inside x);
        root_inside = λ x l. ground (arith, f.root_inside x);
        root_root = λ x l. ground (arith, f.root_root x);
        root_parent = λ x l. ground (arith, f.root_parent x, f.own_root a, own);
        own_root = λ x l e. ground (arith, f.own_root x, own);
        falls = λ x l m. ground (arith, f.falls x, f.late x, f.bottom a);
        late = λ x l m. ground (arith, f.late x);
        bottom = λ x l e. ground (arith, f.bottom x);
        low = λ x l. ground (arith, f.low x, few);
        count = omega (arith, insert, enough);
      };
    }

-- With one root there is one set.
pub IsForest-one_set :
    (n : ℕ) (parent root rank : Array)
    → IsForest n 0 parent root rank
    → (x y : ℕ) → x < n
    → y < n
    → root x ≡ root y
IsForest-one_set n parent root rank f x y l m = elim (eq-cases (root x) (root y)) [
  | inl e ↦ e
  | inr ne ↦
      let two =
        count_below-two n (λ x. parent x == x) (root x) (root y) (f.root_inside x l)
          (f.root_inside y m) ne (ground (arith, f.root_root x)) (ground (arith, f.root_root y)) in
      absurd (omega (arith, two, f.count))
]

-- Each child a set of its own.
pub own-IsForest :
    (n : ℕ) (parent : Array)
    → 1 ≤ n
    → ((x : ℕ) → x < n → parent x ≡ x)
    → IsForest n (n - 1) parent (λ x. x) (λ x. 0)
own-IsForest n parent pos own = record {
  inside = λ x l. ground (arith, own x);
  root_inside = λ x l. l;
  root_root = own;
  root_parent = own;
  own_root = λ x l e. refl;
  falls = λ x l ne. absurd (ne (own x l));
  late = λ x l ne. absurd (ne (own x l));
  bottom = λ x l e. refl;
  low = λ x l. pos;
  count = omega (arith, count_below-all n (λ x. parent x == x) (λ x l. ground (arith, own x)));
}

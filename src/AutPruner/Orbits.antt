-- ===== src/AutPruner/Orbits.antt =====
-- pruner_base.hpp: the sets that the joining of children makes are the orbits of the automorphisms.
use graph_canon.Base.{
  ℕ, ◌<◌, ◌≡◌, ◌≢◌, ◌⊎◌, inl, inr, Bool, true, false, Option, none, some, Array, ◌==◌, arith, refl,
  sym, ◌∙◌, eq-cases, subst,
}
use graph_canon.AutPruner.{ChildSets, choose_root, join_sets, per_point}
use graph_canon.AutPruner.Forest.{
  IsForest, find_root-IsFound, joined_root, joined_rank, update-IsJoined,
}

-- The equivalence that a relation generates.
pub data Orbit (R : ℕ → ℕ → Type 0) : ℕ → ℕ → Type 0 where
  here : (x : ℕ) → Orbit R x x
  related : (x y : ℕ) → R x y → Orbit R x y
  reversed : (x y : ℕ) → Orbit R x y → Orbit R y x
  composed : (x y z : ℕ) → Orbit R x y → Orbit R y z → Orbit R x z

-- A root function that the relation does not change is constant on each orbit.
pub Orbit-root :
    (R : ℕ → ℕ → Type 0) (root : Array)
    → ((x y : ℕ) → R x y → root x ≡ root y)
    → {x y : ℕ} → Orbit R x y
    → root x ≡ root y
Orbit-root R root h (here x) = refl
Orbit-root R root h (related x y r) = h x y r
Orbit-root R root h (reversed x y o) = sym (Orbit-root R root h o)
Orbit-root R root h (composed x y z o p) = Orbit-root R root h o ∙ Orbit-root R root h p

pub Orbit-map :
    (R S : ℕ → ℕ → Type 0) → ((x y : ℕ) → R x y → S x y) → {x y : ℕ} → Orbit R x y → Orbit S x y
Orbit-map R S h (here x) = here x
Orbit-map R S h (related x y r) = related x y (h x y r)
Orbit-map R S h (reversed x y o) = reversed x y (Orbit-map R S h o)
Orbit-map R S h (composed x y z o p) = composed x y z (Orbit-map R S h o) (Orbit-map R S h p)

-- The sets of the `n` children of a node: they join only children of one orbit of `R`, every child
-- that is not a root is pruned, the child on the path to the canonical leaf is not, and what was not
-- pruned `before` is pruned only below another child.
pub record IsJoining (R : ℕ → ℕ → Type 0) (canon : Option ℕ) (before : ℕ → Bool) (n : ℕ)
    (s : ChildSets) (root rank : Array) : Type 0 where
  pub size : s.parent_size ≡ n
  pub forest : IsForest n s.num_roots s.parent root rank
  pub sound : (x : ℕ) → x < n → Orbit R x (root x)
  pub canon_kept : (c : ℕ) → canon ≡ some c → s.child_pruned c ≡ false
  pub joined_pruned : (x : ℕ) → x < n → s.parent x ≢ x → s.child_pruned x ≡ true
  pub pruned_why : (x : ℕ) → x < n → s.child_pruned x ≡ true → (before x ≡ true) ⊎ (s.parent x ≢ x)

-- The choice is one of the two orders, and never takes the canonical child away.
pub record IsChoice (canon : Option ℕ) (root root_image : ℕ) (c : ℕ × ℕ) : Type 0 where
  pub order : ((c.0 ≡ root) × (c.1 ≡ root_image)) ⊎ ((c.0 ≡ root_image) × (c.1 ≡ root))
  pub kept : canon ≢ some c.1

pub choose_root-IsChoice :
    (canon : Option ℕ) (pruned : ℕ → Bool) (root root_image : ℕ)
    → root ≢ root_image
    → IsChoice canon root root_image (choose_root canon pruned root root_image)
unfolding choose_root
choose_root-IsChoice none pruned root root_image ne = record {
  order = ground arith;
  kept = ground arith;
}
choose_root-IsChoice (some c) pruned root root_image ne = record {
  order = ground arith;
  kept = ground arith;
}

-- The result of a step from the roots `old`: valid sets, which join `x` and
-- `y` and whatever was joined.
pub record IsCoarser (R : ℕ → ℕ → Type 0) (canon : Option ℕ) (before : ℕ → Bool) (n : ℕ)
    (old : Array) (x y : ℕ) (o : Option ChildSets) : Type 0 where
  pub sets : ChildSets
  pub result : o ≡ some sets
  pub root : Array
  pub rank : Array
  pub joining : IsJoining R canon before n sets root rank
  pub coarser : (a b : ℕ) → old a ≡ old b → root a ≡ root b
  pub met : root x ≡ root y

module _ (R : ℕ → ℕ → Type 0) (canon : Option ℕ) (before : ℕ → Bool) (n : ℕ) where
  -- Another forest with the same roots.
  moved-IsJoining :
      (s : ChildSets) (root rank parent' : Array)
      → IsJoining R canon before n s root rank
      → IsForest n s.num_roots parent' root rank
      → IsJoining R canon before n (record s { parent = parent' }) root rank
  moved-IsJoining s root rank parent' j f = record {
    size = j.size;
    forest = f;
    sound = j.sound;
    canon_kept = j.canon_kept;
    joined_pruned = λ x l ne.
        j.joined_pruned x l
          (λ e. ground (arith, f.bottom x, f.falls x, j.forest.bottom x, f.late x));
    pruned_why = λ x l e. ground (arith, j.pruned_why x, f.bottom x, j.forest.late x);
  }

  join_sets-IsJoining :
      (children : ℕ → Bool) (s : ChildSets) (root rank : Array) (a b : ℕ)
      → IsJoining R canon before n s root rank
      → a < n
      → b < n
      → s.parent a ≡ a
      → s.parent b ≡ b
      → a ≢ b
      → canon ≢ some b
      → Orbit R a b
      → IsJoining R canon before n
          (join_sets children (a, b) s)
          (joined_root root a b)
          (joined_rank rank s.num_roots b)
  unfolding join_sets
  join_sets-IsJoining children s root rank a b j la lb ea eb ne kept o = record {
    size = j.size;
    forest = (update-IsJoined n s.num_roots s.parent root rank a b j.forest la lb ea eb ne).forest;
    sound = λ x l. elim (eq-cases (root x) b) [
      | inl e ↦
          let out : Orbit R x b = subst (λ z. Orbit R x z) e (j.sound x l) in
          let test : (root x == b) ≡ true = ground arith in
          rw test (composed x b a out (reversed a b o))
      | inr other ↦ let test : (root x == b) ≡ false = ground arith in rw test (j.sound x l)
    ];
    canon_kept = λ c e. ground (arith, j.canon_kept c e, kept);
    joined_pruned = λ x l m. ground (arith, j.joined_pruned x);
    pruned_why = λ x l e. ground (arith, j.pruned_why x);
  }

  -- Two roots of one orbit, whichever is chosen.
  join_chosen :
      (children : ℕ → Bool) (s : ChildSets) (root rank : Array) (r i : ℕ)
      → IsJoining R canon before n s root rank
      → r < n
      → i < n
      → s.parent r ≡ r
      → s.parent i ≡ i
      → r ≢ i
      → Orbit R r i
      → IsCoarser R canon before n root r i
          (some (join_sets children (choose_root canon s.child_pruned r i) s))
  join_chosen children s root rank r i j lr li er ei ne o =
      let c = choose_root canon s.child_pruned r i in
      let choice = choose_root-IsChoice canon s.child_pruned r i ne in
      let own_r = j.forest.own_root r lr er in
      let own_i = j.forest.own_root i li ei in
      let o' : Orbit R c.0 c.1 = elim choice.order [
        | inl (e, e') ↦ rw (e, e') o
        | inr (e, e') ↦ rw (e, e') (reversed r i o)
      ] in
      record {
        sets = join_sets children c s;
        result = refl;
        root = joined_root root c.0 c.1;
        rank = joined_rank rank s.num_roots c.1;
        joining =
            join_sets-IsJoining children s root rank c.0 c.1 j (ground (arith, choice.order))
              (ground (arith, choice.order)) (ground (arith, choice.order))
              (ground (arith, choice.order)) (ground (arith, choice.order)) choice.kept o';
        coarser = λ x y e. ground arith;
        met = ground (arith, choice.order);
      }

  -- A child and its image are in one set afterwards.
  pub per_point-IsCoarser :
      (children : ℕ → Bool) (s : ChildSets) (root rank : Array) (x y : ℕ)
      → IsJoining R canon before n s root rank
      → x < n
      → y < n
      → R x y
      → IsCoarser R canon before n root x y (per_point canon children x y s)
  unfolding per_point
  per_point-IsCoarser children s root rank x y j lx ly r =
      let size = j.size in
      let found =
        find_root-IsFound n s.num_roots s.parent_size x s.parent root rank j.forest lx
          (ground (arith, j.forest.low x)) in
      let found' =
        find_root-IsFound n s.num_roots s.parent_size y found.parent' root rank found.forest ly
          (ground (arith, j.forest.low y)) in
      let t : ChildSets = record s { parent = found'.parent' } in
      let jt = moved-IsJoining s root rank found'.parent' j found'.forest in
      let f = found'.forest in
      rw found.result (
        rw found'.result (elim (eq-cases (root x) (root y)) [
          | inl e ↦
              let test : (root x == root y) ≡ true = ground arith in
              rw test (record {
                sets = t;
                result = refl;
                root = root;
                rank = rank;
                joining = jt;
                coarser = λ a b e. e;
                met = e;
              })
          | inr ne ↦
              let test : (root x == root y) ≡ false = ground arith in
              let o =
                composed (root x) x (root y) (reversed x (root x) (j.sound x lx))
                  (composed x y (root y) (related x y r) (j.sound y ly)) in
              let chosen =
                join_chosen children t root rank (root x) (root y) jt (f.root_inside x lx)
                  (f.root_inside y ly) (f.root_root x lx) (f.root_root y ly) ne o in
              let idem : (a : ℕ) → a < n → root a ≡ root (root a) =
                λ a l. sym (f.own_root (root a) (f.root_inside a l) (f.root_root a l)) in
              rw test (record {
                sets = chosen.sets;
                result = chosen.result;
                root = chosen.root;
                rank = chosen.rank;
                joining = chosen.joining;
                coarser = chosen.coarser;
                met =
                    chosen.coarser x (root x) (idem x lx)
                    ∙ chosen.met
                    ∙ sym (chosen.coarser y (root y) (idem y ly));
              })
        ]))

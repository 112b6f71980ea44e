-- ===== src/AutPruner/Node.antt =====
-- pruner_base.hpp: what the update of one node with its new automorphisms does to its children.
use graph_canon.Base.{
  ℕ, ◌+◌, ◌≤◌, ◌<◌, ◌≡◌, ◌≢◌, ◌⊎◌, inl, inr, ◌↔◌, Bool, true, false, Option, some, List, [], ◌∷◌,
  Array, ◌==◌, if◌then◌else◌, arith, refl, eq-cases, subst, All,
}
use graph_canon.Base.Loops.{for_up-update}
use graph_canon.Partition.{Partition}
use graph_canon.Partition.Cells.{IsInverse}
use graph_canon.AutPruner.{ChildSets, visit_automorphisms, update_node, make_sets}
use graph_canon.AutPruner.Forest.{IsForest, IsForest-one_set, own-IsForest}
use graph_canon.AutPruner.Orbits.{Orbit, here, reversed, composed, Orbit-root, Orbit-map, IsJoining}
use graph_canon.AutPruner.Update.{IsImage, MapsCell, visit_automorphisms-IsClosed}

-- One of the automorphisms maps child `a` of the `n` children to child `b`.
abbrev pub IsMapped : Partition → ℕ → ℕ → List (ℕ → ℕ) → ℕ → ℕ → Type 0
IsMapped pi cell_begin n auts a b = (a < n) × IsImage pi cell_begin auts a b

IsImage-lt :
    (pi : Partition) (cell_begin n : ℕ) (auts : List (ℕ → ℕ)) (a b : ℕ)
    → All (MapsCell pi cell_begin n) auts
    → a < n
    → IsImage pi cell_begin auts a b
    → b < n
IsImage-lt pi cell_begin n [] a b m l r = absurd r
IsImage-lt pi cell_begin n (aut ∷ auts) a b m l (inl e) =
    let bounds = m.0.image_in a l in omega (arith, e, bounds.0, bounds.1)
IsImage-lt pi cell_begin n (aut ∷ auts) a b m l (inr r) =
    IsImage-lt pi cell_begin n auts a b m.1 l r

-- The sets of the children of a node are the orbits of `R`, and are stored as a forest with
-- `num_roots + 1` roots; the child on the path to the canonical leaf is not pruned, a child that is
-- not the root of its set is, and a root is only if it was pruned `before`.
pub record IsOrbitSets (R : ℕ → ℕ → Type 0) (canon : Option ℕ) (before : ℕ → Bool) (n : ℕ)
    (o : Option ChildSets) : Type 0 where
  pub sets : ChildSets
  pub result : o ≡ some sets
  pub root : Array
  pub rank : Array
  pub joining : IsJoining R canon before n sets root rank
  pub orbits : (a b : ℕ) → a < n → b < n → (root a ≡ root b) ↔ Orbit R a b
  pub closed : (a b : ℕ) → R a b → root a ≡ root b

-- Valid sets that are closed under the relation are its orbits.
closed-IsOrbitSets :
    (R : ℕ → ℕ → Type 0) (canon : Option ℕ) (before : ℕ → Bool) (n : ℕ) (t : ChildSets)
    (o : Option ChildSets) (root rank : Array)
    → o ≡ some t
    → IsJoining R canon before n t root rank
    → ((a b : ℕ) → R a b → root a ≡ root b)
    → IsOrbitSets R canon before n o
closed-IsOrbitSets R canon before n t o root rank e j c = record {
  sets = t;
  result = e;
  root = root;
  rank = rank;
  joining = j;
  orbits = λ a b la lb. (
    λ same.
        composed a (root b) b (subst (λ z. Orbit R a z) same (j.sound a la))
          (reversed b (root b) (j.sound b lb)),
    λ orbit. Orbit-root R root c orbit,
  );
  closed = c;
}

make_sets-IsJoining :
    (R : ℕ → ℕ → Type 0) (canon : Option ℕ) (n : ℕ) (s : ChildSets)
    → 1 ≤ n
    → ((c : ℕ) → canon ≡ some c → s.child_pruned c ≡ false)
    → IsJoining R canon s.child_pruned n (make_sets n s) (λ x. x) (λ x. 0)
unfolding make_sets
make_sets-IsJoining R canon n s pos kept =
    let own = for_up-update (λ i. i) (λ i. i) n (λ i. 0) (λ i j l m e. e) in
    record {
      size = refl;
      forest = own-IsForest n _ pos own;
      sound = λ x l. here x;
      canon_kept = kept;
      joined_pruned = λ x l ne. absurd (ne (own x l));
      pruned_why = λ x l e. inl e;
    }

-- The loops, from valid sets that are whose relation they may enlarge.
visit-IsOrbitSets :
    (S : ℕ → ℕ → Type 0) (canon : Option ℕ) (before : ℕ → Bool) (n : ℕ) (pi : Partition)
    (cell_begin : ℕ) (children : ℕ → Bool) (auts : List (ℕ → ℕ)) (s : ChildSets) (root rank : Array)
    → IsInverse pi
    → cell_begin + n ≤ pi.n
    → All (MapsCell pi cell_begin n) auts
    → IsJoining S canon before n s root rank
    → ((a b : ℕ) → IsMapped pi cell_begin n auts a b → S a b)
    → ((a b : ℕ) → S a b → (a < n) × (b < n) × ((root a ≡ root b) ⊎ IsImage pi cell_begin auts a b))
    → IsOrbitSets S canon before n (visit_automorphisms pi cell_begin canon children auts n s)
visit-IsOrbitSets S canon before n pi cell_begin children auts s root rank v le m j new old =
    let c =
      visit_automorphisms-IsClosed S canon before n pi cell_begin children auts s root rank v le m
        (λ a b l r. new a b (l, r)) j in
    closed-IsOrbitSets S canon before n c.sets _ c.root c.rank c.result c.joining (λ a b r.
      let cases = old a b r in
      elim cases.2 [
        | inl e ↦ c.coarser a b cases.0 cases.1 e
        | inr i ↦ c.closed a b cases.0 cases.1 i
      ])

-- The sets that an update leaves are valid at the start of the next one.
again-IsJoining :
    (R S : ℕ → ℕ → Type 0) (canon canon' : Option ℕ) (before : ℕ → Bool) (n : ℕ) (s : ChildSets)
    (root rank : Array)
    → ((a b : ℕ) → R a b → S a b)
    → IsJoining R canon before n s root rank
    → ((c : ℕ) → canon' ≡ some c → s.child_pruned c ≡ false)
    → IsJoining S canon' s.child_pruned n s root rank
again-IsJoining R S canon canon' before n s root rank into j kept = record {
  size = j.size;
  forest = j.forest;
  sound = λ x l. Orbit-map R S into (j.sound x l);
  canon_kept = kept;
  joined_pruned = j.joined_pruned;
  pruned_why = λ x l e. inl e;
}

-- At the first update of a node whose children are the vertices of a cell of a valid partition, with
-- automorphisms that map the cell to itself, the update ends, and two children are in one set exactly
-- if the automorphisms generate an equivalence that relates them. The child on the path to the
-- canonical leaf stays unpruned; besides the children that were pruned before exactly those are pruned
-- that are not the root of their set.
pub update_node-IsOrbitSets :
    (canon : Option ℕ) (n : ℕ) (pi : Partition) (cell_begin : ℕ) (children : ℕ → Bool) (aut : ℕ → ℕ)
    (auts : List (ℕ → ℕ)) (s : ChildSets)
    → IsInverse pi
    → 1 ≤ n
    → cell_begin + n ≤ pi.n
    → All (MapsCell pi cell_begin n) (aut ∷ auts)
    → s.parent_size ≡ 0
    → ((c : ℕ) → canon ≡ some c → s.child_pruned c ≡ false)
    → IsOrbitSets
        (IsMapped pi cell_begin n (aut ∷ auts))
        canon
        s.child_pruned
        n
        (update_node pi cell_begin canon children (aut ∷ auts) n s)
unfolding update_node
update_node-IsOrbitSets canon n pi cell_begin children aut auts s v pos le m e kept =
    let R = IsMapped pi cell_begin n (aut ∷ auts) in
    let test : (s.parent_size == 0) ≡ true = ground arith in
    rw test (
      visit-IsOrbitSets R canon s.child_pruned n pi cell_begin children (aut ∷ auts) (make_sets n s)
        (λ x. x) (λ x. 0) v le m (make_sets-IsJoining R canon n s pos kept) (λ a b r. r)
        (λ a b r. (r.0, IsImage-lt pi cell_begin n (aut ∷ auts) a b m r.0 r.1, inr r.1)))

update_node-later :
    (pi : Partition) (cell_begin : ℕ) (canon : Option ℕ) (children : ℕ → Bool) (auts : List (ℕ → ℕ))
    (n : ℕ) (s : ChildSets)
    → s.parent_size ≢ 0
    → update_node pi cell_begin canon children auts n s ≡ (
        if s.num_roots == 0
        then some s
        else visit_automorphisms pi cell_begin canon children auts n s)
unfolding update_node visit_automorphisms
update_node-later pi cell_begin canon children [] n s ne = ground arith
update_node-later pi cell_begin canon children (aut ∷ auts) n s ne = ground arith

-- Every later update turns the orbits of the earlier automorphisms into those of the earlier and the
-- new ones, also where the children are one set already and the code does not look at them.
pub update_node-extends :
    (R : ℕ → ℕ → Type 0) (canon canon' : Option ℕ) (before : ℕ → Bool) (n : ℕ) (pi : Partition)
    (cell_begin : ℕ) (children : ℕ → Bool) (auts : List (ℕ → ℕ)) (s : ChildSets)
    → IsInverse pi
    → 1 ≤ n
    → cell_begin + n ≤ pi.n
    → All (MapsCell pi cell_begin n) auts
    → ((a b : ℕ) → R a b → (a < n) × (b < n))
    → IsOrbitSets R canon before n (some s)
    → ((c : ℕ) → canon' ≡ some c → s.child_pruned c ≡ false)
    → IsOrbitSets
        (λ a b. R a b ⊎ IsMapped pi cell_begin n auts a b)
        canon'
        s.child_pruned
        n
        (update_node pi cell_begin canon' children auts n s)
unfolding update_node
update_node-extends R canon canon' before n pi cell_begin children auts s v pos le m inside h kept =
    let S : ℕ → ℕ → Type 0 = λ a b. R a b ⊎ IsMapped pi cell_begin n auts a b in
    let same : h.sets ≡ s = cc in
    let was : IsJoining R canon before n s h.root h.rank =
      subst (λ t. IsJoining R canon before n t h.root h.rank) same h.joining in
    let j = again-IsJoining R S canon canon' before n s h.root h.rank (λ a b r. inl r) was kept in
    let visited =
      visit-IsOrbitSets S canon' s.child_pruned n pi cell_begin children auts s h.root h.rank v le m
        j (λ a b r. inr r)
        (λ a b r. elim r [
          | inl old ↦ let bounds = inside a b old in (bounds.0, bounds.1, inl (h.closed a b old))
          | inr new ↦ (new.0, IsImage-lt pi cell_begin n auts a b m new.0 new.1, inr new.1)
        ]) in
    let later =
      update_node-later pi cell_begin canon' children auts n s (omega (arith, was.size)) in
    elim (eq-cases s.num_roots 0) [
      | inl last ↦
          let test : (s.num_roots == 0) ≡ true = ground arith in
          let f : IsForest n 0 s.parent h.root h.rank =
            subst (λ k. IsForest n k s.parent h.root h.rank) last was.forest in
          let one = IsForest-one_set n s.parent h.root h.rank f in
          rw (later, test)
            (closed-IsOrbitSets S canon' s.child_pruned n s (some s) h.root h.rank refl j (λ a b r.
              elim r [
                | inl old ↦ h.closed a b old
                | inr new ↦ one a b new.0 (IsImage-lt pi cell_begin n auts a b m new.0 new.1)
              ]))
      | inr more ↦ let test : (s.num_roots == 0) ≡ false = ground arith in rw (later, test) visited
    ]

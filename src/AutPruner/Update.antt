-- ===== src/AutPruner/Update.antt =====
-- pruner_base.hpp: the loops over the children and over the new automorphisms, and the update of a
-- node.
use graph_canon.Base.{
  ℕ, zero, suc, ◌+◌, ◌≤◌, ◌<◌, ◌≡◌, ◌⊎◌, inl, inr, Bool, true, false, Option, some, List, [], ◌∷◌,
  Array, ◌==◌, arith, refl, sym, ap, ◌∙◌, eq-cases, subst, All,
}
use graph_canon.Partition.{Partition}
use graph_canon.Partition.Cells.{IsInverse}
use graph_canon.AutPruner.{ChildSets, visit_points, visit_automorphisms, local_image}
use graph_canon.AutPruner.Forest.{IsForest, IsForest-one_set}
use graph_canon.AutPruner.Orbits.{IsJoining, per_point-IsCoarser}

-- The children are the elements of a cell, which the automorphism maps to itself.
pub record MapsCell (pi : Partition) (cell_begin n : ℕ) (aut : ℕ → ℕ) : Type 0 where
  pub image_in :
      (i : ℕ)
      → i < n
      → (cell_begin ≤ pi.inverse (aut (pi.elements (i + cell_begin))))
        × (pi.inverse (aut (pi.elements (i + cell_begin))) < cell_begin + n)

-- Child `b` is the image of child `a` under one of the automorphisms.
abbrev pub IsImage : Partition → ℕ → List (ℕ → ℕ) → ℕ → ℕ → Type 0
IsImage pi cell_begin [] a b = ⊥
IsImage pi cell_begin (aut ∷ auts) a b =
    (b ≡ local_image pi cell_begin aut a) ⊎ IsImage pi cell_begin auts a b

-- Valid sets that join what `old` joins, and children `first` to `last` to their images.
pub record IsClosed (R : ℕ → ℕ → Type 0) (canon : Option ℕ) (before : ℕ → Bool) (n : ℕ)
    (old : Array) (Joined : ℕ → ℕ → Type 0) (o : Option ChildSets) : Type 0 where
  pub sets : ChildSets
  pub result : o ≡ some sets
  pub root : Array
  pub rank : Array
  pub joining : IsJoining R canon before n sets root rank
  pub coarser : (a b : ℕ) → a < n → b < n → old a ≡ old b → root a ≡ root b
  pub closed : (a b : ℕ) → a < n → b < n → Joined a b → root a ≡ root b

module _ (R : ℕ → ℕ → Type 0) (canon : Option ℕ) (before : ℕ → Bool) (n : ℕ) where
  -- `Joined` by `k` after `s`, where one set makes the rest of the loop needless.
  stop :
      (Joined : ℕ → ℕ → Type 0) (old : Array) (s : ChildSets) (root rank : Array)
      → IsJoining R canon before n s root rank
      → s.num_roots ≡ 0
      → IsClosed R canon before n old Joined (some s)
  stop Joined old s root rank j e =
      let f : IsForest n 0 s.parent root rank =
        subst (λ k. IsForest n k s.parent root rank) e j.forest in
      let one = IsForest-one_set n s.parent root rank f in
      record {
        sets = s;
        result = refl;
        root = root;
        rank = rank;
        joining = j;
        coarser = λ a b la lb e. one a b la lb;
        closed = λ a b la lb r. one a b la lb;
      }

  -- What was closed after a first step.
  after :
      (Joined Joined' : ℕ → ℕ → Type 0) (old old' : Array) (o : Option ChildSets)
      → ((a b : ℕ) → a < n → b < n → old a ≡ old b → old' a ≡ old' b)
      → ((a b : ℕ) → a < n → b < n → Joined a b → (old' a ≡ old' b) ⊎ Joined' a b)
      → IsClosed R canon before n old' Joined' o
      → IsClosed R canon before n old Joined o
  after Joined Joined' old old' o h k c = record {
    sets = c.sets;
    result = c.result;
    root = c.root;
    rank = c.rank;
    joining = c.joining;
    coarser = λ a b la lb e. c.coarser a b la lb (h a b la lb e);
    closed = λ a b la lb r. elim (k a b la lb r) [
      | inl e ↦ c.coarser a b la lb e
      | inr r' ↦ c.closed a b la lb r'
    ];
  }

  module _ (pi : Partition) (cell_begin : ℕ) (children : ℕ → Bool) where
    visit_points-IsClosed :
        (aut : ℕ → ℕ) (rounds first : ℕ) (s : ChildSets) (root rank : Array)
        → IsInverse pi
        → cell_begin + n ≤ pi.n
        → MapsCell pi cell_begin n aut
        → ((i : ℕ) → i < n → R i (local_image pi cell_begin aut i))
        → first + rounds ≡ n
        → IsJoining R canon before n s root rank
        → IsClosed R canon before n root
            (λ a b. (first ≤ a) × (b ≡ local_image pi cell_begin aut a))
            (visit_points pi cell_begin canon children aut rounds first s)
    unfolding visit_points
    visit_points-IsClosed aut zero first s root rank v le m r e j = record {
      sets = s;
      result = refl;
      root = root;
      rank = rank;
      joining = j;
      coarser = λ a b la lb e. e;
      closed = λ a b la lb c. absurd (omega (arith, c.0));
    }
    visit_points-IsClosed aut (suc rounds) first s root rank v le m r e j =
        let image = local_image pi cell_begin aut first in
        let v_idx = pi.elements (first + cell_begin) in
        let bounds = m.image_in first (omega arith) in
        let later : (t : ChildSets) (root' rank' : Array)
            → IsJoining R canon before n t root' rank'
            → ((a b : ℕ) → a < n → b < n → root a ≡ root b → root' a ≡ root' b)
            → root' first ≡ root' image
            → IsClosed R canon before n root
                (λ a b. (first ≤ a) × (b ≡ local_image pi cell_begin aut a))
                (visit_points pi cell_begin canon children aut rounds (first + 1) t) =
          λ t root' rank' jt h met.
            after (λ a b. (first ≤ a) × (b ≡ local_image pi cell_begin aut a))
              (λ a b. (first + 1 ≤ a) × (b ≡ local_image pi cell_begin aut a)) root root' _ h
              (λ a b la lb c. elim (eq-cases a first) [
                | inl e' ↦ inl (
                    ap root' e'
                    ∙ met
                    ∙ ap root' (ap (local_image pi cell_begin aut) (sym e') ∙ sym c.1))
                | inr ne ↦ inr (omega (arith, c.0), c.1)
              ])
              (visit_points-IsClosed aut rounds (first + 1) t root' rank' v le m r (omega arith)
                jt) in
        elim (eq-cases v_idx (aut v_idx)) [
          | inl fixed ↦
              let test : (v_idx == aut v_idx) ≡ true = ground arith in
              let back = v.inverse-element (first + cell_begin) (omega arith) in
              let home : first ≡ image = omega (arith, ap pi.inverse (sym fixed), back) in
              rw test (later s root rank j (λ a b la lb e. e) (ap root home))
          | inr moved ↦
              let test : (v_idx == aut v_idx) ≡ false = ground arith in
              let step =
                per_point-IsCoarser R canon before n children s root rank first image j
                  (omega arith) (omega (arith, bounds.0, bounds.1)) (r first (omega arith)) in
              let next =
                later step.sets step.root step.rank step.joining (λ a b la lb e. step.coarser a b e)
                  step.met in
              rw (test, step.result)
                (elim (eq-cases step.sets.num_roots 0) [
                  | inl last ↦
                      let test' : (step.sets.num_roots == 0) ≡ true = ground arith in
                      rw test' (stop _ root step.sets step.root step.rank step.joining last)
                  | inr more ↦
                      let test' : (step.sets.num_roots == 0) ≡ false = ground arith in rw test' next
                ])
        ]

    -- The loop over the automorphisms.
    pub visit_automorphisms-IsClosed :
        (auts : List (ℕ → ℕ)) (s : ChildSets) (root rank : Array)
        → IsInverse pi
        → cell_begin + n ≤ pi.n
        → All (MapsCell pi cell_begin n) auts
        → ((a b : ℕ) → a < n → IsImage pi cell_begin auts a b → R a b)
        → IsJoining R canon before n s root rank
        → IsClosed R canon before n root
            (IsImage pi cell_begin auts)
            (visit_automorphisms pi cell_begin canon children auts n s)
    unfolding visit_automorphisms
    visit_automorphisms-IsClosed [] s root rank v le m r j = record {
      sets = s;
      result = refl;
      root = root;
      rank = rank;
      joining = j;
      coarser = λ a b la lb e. e;
      closed = λ a b la lb c. absurd c;
    }
    visit_automorphisms-IsClosed (aut ∷ auts) s root rank v le m r j =
        let step =
          visit_points-IsClosed aut n 0 s root rank v le m.0 (λ i l. r i _ l (inl refl))
            (omega arith) j in
        let rest =
          after (IsImage pi cell_begin (aut ∷ auts)) (IsImage pi cell_begin auts) root step.root _
            step.coarser
            (λ a b la lb c. elim c [
              | inl e ↦ inl (step.closed a b la lb (omega arith, e))
              | inr c' ↦ inr c'
            ])
            (visit_automorphisms-IsClosed auts step.sets step.root step.rank v le m.1
              (λ a b l c. r a b l (inr c)) step.joining) in
        rw step.result (elim (eq-cases step.sets.num_roots 0) [
          | inl last ↦
              let test : (step.sets.num_roots == 0) ≡ true = ground arith in
              rw test (stop _ root step.sets step.root step.rank step.joining last)
          | inr more ↦ let test : (step.sets.num_roots == 0) ≡ false = ground arith in rw test rest
        ])

-- ===== src/Refine/Separation.antt =====
-- WL_1.hpp: the loop over the refinees of a single vertex splits every one at its first neighbour.
use mathlib.Core.List.{foldl}
use graph_canon.Base.{
  ℕ, ◌+◌, ◌-◌, ◌^◌, ◌≤◌, ◌<◌, ◌≡◌, ◌≢◌, ◌⊎◌, inl, inr, refl, sym, ap, ◌∙◌, subst, arith, List, [],
  ◌∷◌, ◌++◌, true, false, some, ◌==◌, eq-cases, Bool-cases, All, IsIn,
}
use graph_canon.Base.Int.{IntType}
use graph_canon.EdgeHandler.{EdgeHandler}
use graph_canon.Partition.{Partition}
use graph_canon.Partition.Cells.{IsCells, same_cell}
use graph_canon.PermutedGraph.{Graph}
use graph_canon.Refine.{InstanceData, RefineState, RefineeCell}
use graph_canon.Refine.Enqueue.{HoldsMinusOne}
use graph_canon.Refine.Handle.{
  handle_refinees, handle_refinee, clear_hit_count, clear_singleton_data,
}
use graph_canon.Refine.RefineeCells.{IsRefinee, AreApart, IsWholeCell}
use graph_canon.Refine.Refinee.{Visitor, RunState, first_split}
use graph_canon.Refine.Singleton.{IsSilent, IsHandled, IsContinued, handle_refinee-IsHandled}

-- The cells of `base` have been split at the first of their last `hit` vertices, but for the refinees
-- that are left to do.
pub record IsSeparating {H : Type 0} (base : Partition) (hit : ℕ → ℕ) (rs todo : List RefineeCell)
    (s : RefineState H) : Type 0 where
  pub cells : IsCells s.pi
  pub size : s.pi.n ≡ base.n
  pub element : (i : ℕ) → s.pi.elements i ≡ base.elements i
  pub inverse : (v : ℕ) → s.pi.inverse v ≡ base.inverse v
  pub cell_of : (v : ℕ) → s.pi.cell_from_v_idx v ≡ base.cell_from_v_idx v
  pub old : (j : ℕ) → base.next_cell_begin j ≢ 0 → s.pi.next_cell_begin j ≢ 0
  pub done :
      (c : ℕ)
      → c < base.n
      → base.next_cell_begin c ≢ 0
      → hit c ≢ 0
      → ¬ IsRefinee c todo
      → s.pi.next_cell_begin (base.next_cell_begin c - hit c) ≢ 0
  pub untouched :
      (c j : ℕ)
      → c < base.n
      → base.next_cell_begin c ≢ 0
      → IsRefinee c todo ⊎ (hit c ≡ 0)
      → c ≤ j
      → j < base.next_cell_begin c
      → s.pi.next_cell_begin j ≡ base.next_cell_begin j
  pub refinees : s.i_data.refinee_cells ≡ rs
  pub hits : (c : ℕ) → (s.i_data.cell_data c).hit_count ≡ hit c

separate-next :
    {H : Type 0} (base : Partition) (hit : ℕ → ℕ) (rs rest : List RefineeCell) (r : RefineeCell)
    (s u : RefineState H)
    → IsCells base
    → IsWholeCell base r
    → hit r.first ≢ 0
    → r.first + hit r.first ≤ base.next_cell_begin r.first
    → AreApart (r ∷ rest)
    → IsSeparating base hit rs (r ∷ rest) s
    → IsHandled r.first (first_split r.first (base.next_cell_begin r.first - hit r.first)) s u
    → IsSeparating base hit rs rest u
separate-next base hit rs rest r s u h (below, begins, last) some_hit fits apart sep k =
    let cell = r.first in
    let end = base.next_cell_begin cell in
    let mid = end - hit cell in
    let same_end : s.pi.next_cell_begin cell ≡ end =
      sep.untouched cell cell below begins (inl (inl refl)) (omega arith)
        (h.after cell below begins) in
    let begins_mid : u.pi.next_cell_begin mid ≢ 0 = elim (eq-cases mid cell) [
      | inl e ↦ ground (arith, (k.split.begins mid).1, same_end, ap (λ x. s.pi.next_cell_begin x) e)
      | inr ne ↦
          let test : (mid == cell) ≡ false = ground arith in
          let member : IsIn mid (first_split cell mid) = rw test (inl refl) in
          (k.split.begins mid).1 (inr member)
    ] in
    record {
      cells = k.cells;
      size = k.split.size ∙ sep.size;
      element = λ i. k.split.element i ∙ sep.element i;
      inverse = λ v. k.split.inverse v ∙ sep.inverse v;
      cell_of = λ v. k.split.cell_of v ∙ sep.cell_of v;
      old = λ j ne. (k.split.begins j).1 (inl (sep.old j ne));
      done = λ c l ne some away. elim (eq-cases c cell) [
        | inl e ↦ rw e begins_mid
        | inr other ↦
            (k.split.begins (base.next_cell_begin c - hit c)).1
              (inl (sep.done c l ne some (λ i. elim i [ inl x ↦ other x | inr y ↦ away y ])))
      ];
      untouched = λ c j l ne which lo hi.
          let other : c ≢ cell = λ e. elim which [
            | inl i ↦ apart.0 (subst (λ z. IsRefinee z rest) e i)
            | inr z ↦ some_hit (ap hit (sym e) ∙ z)
          ] in
          let away : (j < cell) ⊎ (s.pi.next_cell_begin cell ≤ j) =
            ground (arith, other, same_cell base c cell j h l ne below begins, same_end, lo, hi) in
          k.split.outside j away
          ∙ sep.untouched c j l ne (elim which [ inl i ↦ inl (inr i) | inr z ↦ inr z ]) lo hi;
      refinees = k.refinees ∙ sep.refinees;
      hits = λ c. k.hits c ∙ sep.hits c;
    }

-- After the cleanup no refinee has hits, and other counts are as before.
clear_hit_counts-IsCleared :
    (rs : List RefineeCell) (d : InstanceData)
    → ((foldl clear_hit_count d rs).refinee_cells ≡ d.refinee_cells)
      × ((c : ℕ)
          → (((foldl clear_hit_count d rs).cell_data c).hit_count ≡ 0)
            ⊎ ((((foldl clear_hit_count d rs).cell_data c).hit_count ≡ (d.cell_data c).hit_count)
                × ¬ IsRefinee c rs))
clear_hit_counts-IsCleared [] d = (refl, λ c. inr (refl, λ i. i))
clear_hit_counts-IsCleared (r ∷ rs) d =
    let (same, cleared) = clear_hit_counts-IsCleared rs (clear_hit_count d r) in
    (
      same,
      λ c. elim (cleared c) [
        | inl z ↦ inl z
        | inr (e, away) ↦ elim (eq-cases r.first c) [
          | inl here ↦ let test : (r.first == c) ≡ true = ground arith in inl (e ∙ rw test refl)
          | inr other ↦
              let test : (r.first == c) ≡ false = ground arith in
              inr (e ∙ rw test refl, λ i. elim i [ inl x ↦ other (sym x) | inr y ↦ away y ])
        ]
      ],
    )

-- The loop has ended: all refinees are split, and no count of hits is left.
pub record IsSeparated {H : Type 0} (base : Partition) (hit : ℕ → ℕ) (rs : List RefineeCell)
    (u : RefineState H) : Type 0 where
  pub before : RefineState H
  pub separating : IsSeparating base hit rs [] before
  pub same : u.pi ≡ before.pi
  pub refinees : u.i_data.refinee_cells ≡ rs
  pub cleared :
      ((c : ℕ) → hit c ≢ 0 → IsRefinee c rs) → (c : ℕ) → (u.i_data.cell_data c).hit_count ≡ 0

module _ {E H V : Type 0} (g : Graph E) (sorter : EdgeHandler E H) (visitor : Visitor V)
    (t : IntType) (holds : HoldsMinusOne t) (wide : 1 < 2 ^ t.bits - 1)
    (silent : IsSilent sorter) where
  pub handle_refinees-IsSeparated :
      (base : Partition) (hit : ℕ → ℕ) (rs before todo : List RefineeCell) (refiner_begin : ℕ)
      (r : RunState H V)
      → IsCells base
      → All (IsWholeCell base) todo
      → All (λ q. hit q.first ≢ 0) todo
      → All (λ q. q.first + hit q.first ≤ base.next_cell_begin q.first) todo
      → AreApart todo
      → IsSeparating base hit rs todo r.state
      → IsContinued
          (λ u. IsSeparated base hit rs u.state)
          (handle_refinees g sorter visitor t refiner_begin before todo r)
  unfolding handle_refinees
  handle_refinees-IsSeparated base hit rs before [] refiner_begin r h whole hits fits apart sep =
      let s = r.state in
      let (same, cleared) = clear_hit_counts-IsCleared s.i_data.refinee_cells s.i_data in
      (
        true,
        _,
        refl,
        λ c. record {
          before = s;
          separating = sep;
          same = refl;
          refinees = same ∙ sep.refinees;
          cleared = λ all c. elim (cleared c) [
            | inl z ↦ z
            | inr (e, away) ↦ elim (eq-cases (hit c) 0) [
              | inl zero ↦ e ∙ sep.hits c ∙ zero
              | inr ne ↦ absurd (away (subst (IsRefinee c) (sym sep.refinees) (all c ne)))
            ]
          ];
        },
      )
  handle_refinees-IsSeparated base hit rs before (q ∷ todo) refiner_begin r h whole hits fits apart
        sep =
      let s = r.state in
      let below = whole.0.0 in
      let begins = whole.0.1 in
      let end : s.pi.next_cell_begin q.first ≡ base.next_cell_begin q.first =
        sep.untouched q.first q.first below begins (inl (inl refl)) (omega arith)
          (h.after q.first below begins) in
      let last : q.last ≡ s.pi.next_cell_begin q.first = whole.0.2 ∙ sym end in
      let count = sep.hits q.first in
      let (b, u, eq, after) =
        handle_refinee-IsHandled g sorter visitor t holds wide q.first refiner_begin r silent
          sep.cells (omega (arith, sep.size)) (sep.old q.first begins)
          (ground (arith, count, hits.0)) (omega (arith, count, end, fits.0)) in
      let here : handle_refinee g sorter visitor t q.first q.last refiner_begin true r
          ≡ some (b, u) =
        subst (λ z. handle_refinee g sorter visitor t q.first z refiner_begin true r ≡ some (b, u))
          (sym last) eq in
      elim (Bool-cases b) [
        | inl continues ↦
            let k =
              subst (λ z. IsHandled q.first (first_split q.first z) s u.state)
                (ground (arith, end, count)) (after continues) in
            let next =
              separate-next base hit rs todo q s u.state h whole.0 hits.0 fits.0 apart sep k in
            let (c, w, e, f) =
              handle_refinees-IsSeparated base hit rs (before ++ q ∷ []) todo refiner_begin u h
                whole.1 hits.1 fits.1 apart.1 next in
            (c, w, rw (here, handle_refinee) (rw continues e), f)
        | inr stops ↦
            let cleared : RunState H V = record u {
              state = clear_singleton_data g sorter visitor t (before ++ q ∷ []) todo u.state;
            } in
            (
              false,
              cleared,
              rw (here, handle_refinee) (rw stops refl),
              λ c. absurd (ground (arith, c)),
            )
      ]

-- ===== src/Invariant/Trace.antt =====
-- coordinator.hpp: adding the elements of a node compares them with the trace of its level.
use mathlib.Core.List.{append_assoc, append-nil}
use graph_canon.Base.{
  ℕ, ◌+◌, ◌≤◌, ◌≡◌, ◌≢◌, inl, inr, refl, sym, ap, ◌∙◌, subst, arith, List, [], ◌∷◌, ◌++◌, Bool,
  true, false, some, ltb, if◌then◌else◌, length, length-append, lt-cases,
}
use graph_canon.Invariant.{TreeData, Coordinated, add_invariant_element}
use graph_canon.Invariant.Elements.{add_all, add-improved, add-compared}
use graph_canon.Invariant.Improved.{IsImproved, improve-all}

-- The order on traces: the first difference decides, and a longer trace is better.
pub data Verdict : Type 0 where
  better : Verdict
  same : Verdict
  worse : Verdict

unfoldable pub compare_traces : List ℕ → List ℕ → Verdict
compare_traces [] trace = Verdict.same
compare_traces (x ∷ new) [] = Verdict.better
compare_traces (x ∷ new) (y ∷ trace) =
    let rest = compare_traces new trace in
    if ltb x y then Verdict.better else if ltb y x then Verdict.worse else rest

-- What a node with the elements `new` leaves, from the elements `done` on.
abbrev pub IsOutcome :
    {S : Type 0} → Verdict → ℕ → List ℕ → List ℕ → Coordinated S → Bool × Coordinated S → Type 0
IsOutcome Verdict.better level done new c (b, d) = (b ≡ true) × IsImproved level (done ++ new) c d
IsOutcome Verdict.same level done new c (b, d) =
    (b ≡ true)
    × (d.i_data ≡ c.i_data)
    × (d.t_data ≡ record (c.t_data) { end_index = length (done ++ new) })
IsOutcome Verdict.worse level done new c (b, d) = (b ≡ false) × (d.i_data ≡ c.i_data)

module _ {S : Type 0} (on_better prune : S → S) where
  -- An accepted element that equals that of the trace.
  IsOutcome-shift :
      (v : Verdict) (level y : ℕ) (new done : List ℕ) (c : Coordinated S)
      (result : Bool × Coordinated S)
      → IsOutcome v level
          (done ++ y ∷ [])
          new
          (record c { t_data = record (c.t_data) { end_index = c.t_data.end_index + 1 } })
          result
      → IsOutcome v level done (y ∷ new) c result
  IsOutcome-shift Verdict.better level y new done c (b, d) (t, k) = (
    t,
    record {
      max_level = k.max_level;
      generation = k.generation;
      node = k.node;
      trace = k.trace ∙ append_assoc done (y ∷ []) new;
      earlier = k.earlier;
      later = k.later;
    },
  )
  IsOutcome-shift Verdict.same level y new done c (b, d) (t, i, n) =
      let with_end : ℕ → TreeData = λ k. record (c.t_data) { end_index = k } in
      (t, i, n ∙ ap with_end (ap length (append_assoc done (y ∷ []) new)))
  IsOutcome-shift Verdict.worse level y new done c (b, d) h = h

  -- For a node that is not the root nor the first of its level, with the elements `done` accepted so far,
  -- the calls for more elements compare them with the trace. If the node is better, its trace becomes
  -- that of the level, later levels lose theirs and the generation grows; if it is worse, an element is
  -- refused; and otherwise all are accepted. In the last two cases the traces stay as they are.
  pub add_all-IsOutcome :
      (level : ℕ) (new done rest : List ℕ) (c : Coordinated S)
      → level ≢ 0
      → level ≤ c.i_data.max_level
      → c.t_data.end_index ≡ length done
      → c.i_data.trace level ≡ done ++ rest
      → (result : Bool × Coordinated S) × (add_all on_better prune level new c ≡ some result)
        × IsOutcome (compare_traces new rest) level done new c result
  unfolding add_all compare_traces
  add_all-IsOutcome level [] done rest c ne le at e =
      let with_end : ℕ → TreeData = λ k. record (c.t_data) { end_index = k } in
      ((true, c), refl, (refl, refl, ap with_end (at ∙ ap length (sym (append-nil done)))))
  add_all-IsOutcome level (x ∷ new) done [] c ne le at e =
      let end : c.i_data.trace level ≡ done = e ∙ append-nil done in
      let here = add-improved on_better prune level x c done ne le at (inl end) in
      let (d, f, k) = improve-all on_better prune level x new c done [] ne le at e here in
      ((true, d), f, (refl, k))
  add_all-IsOutcome level (x ∷ new) done (y ∷ rest) c ne le at e = elim (lt-cases x y) [
    | inl less ↦
        let test : ltb x y ≡ true = ground arith in
        let here = add-improved on_better prune level x c done ne le at (inr (y, rest, e, less)) in
        let (d, f, k) = improve-all on_better prune level x new c done (y ∷ rest) ne le at e here in
        ((true, d), f, rw test (refl, k))
    | inr ge ↦
        let test : ltb x y ≡ false = ground arith in
        let here = add-compared on_better prune level x y c done rest ne le at e ge in
        elim (lt-cases y x) [
          | inl more ↦
              let up : ltb y x ≡ true = ground arith in
              (
                (false, c),
                rw (here, add_invariant_element) (rw up refl),
                rw (test, up) (refl, refl),
              )
          | inr le2 ↦
              let up : ltb y x ≡ false = ground arith in
              let equal : x ≡ y = omega arith in
              let next : Coordinated S = record c {
                t_data = record (c.t_data) { end_index = c.t_data.end_index + 1 };
              } in
              let (result, f, k) =
                add_all-IsOutcome level new (done ++ y ∷ []) rest next ne le
                  (omega (arith, at, length-append done (y ∷ [])))
                  (e ∙ sym (append_assoc done (y ∷ []) rest)) in
              (
                result,
                rw (here, add_invariant_element) (rw up f),
                rw (test, up)
                    (subst (λ z. IsOutcome (compare_traces new rest) level done (z ∷ new) c result)
                      (sym equal)
                      (IsOutcome-shift (compare_traces new rest) level y new done c result k)),
              )
        ]
  ]

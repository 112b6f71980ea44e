-- ===== src/Invariant/Elements.antt =====
-- coordinator.hpp: what the call for one element does in each case.
use mathlib.Core.List.{append_assoc, append-nil}
use graph_canon.Base.{
  ℕ, ◌+◌, ◌≤◌, ◌<◌, ◌≡◌, ◌≢◌, ◌⊎◌, inl, inr, refl, sym, ap, ◌∙◌, arith, List, [], ◌∷◌, ◌++◌, Bool,
  true, false, Option, some, ◌==◌, ltb, ◌>>=◌, if◌then◌else◌, length, length-append, get_elem?,
  get_elem?-append, eq-cases,
}
use graph_canon.Base.Loops.{update_self, update_ne}
use graph_canon.Invariant.{push_trace, Coordinated, add_invariant_element, improve}

-- Only the trace of `level` has become longer.
pub record IsExtended {S : Type 0} (level : ℕ) (new : List ℕ) (c d : Coordinated S) : Type 0 where
  pub max_level : d.i_data.max_level ≡ c.i_data.max_level
  pub generation : d.i_data.generation ≡ c.i_data.generation
  pub node : d.t_data ≡ c.t_data
  pub trace : d.i_data.trace level ≡ c.i_data.trace level ++ new
  pub others : (i : ℕ) → i ≢ level → d.i_data.trace i ≡ c.i_data.trace i

module _ {S : Type 0} (on_better prune : S → S) where
  pub add-extended :
      (level x : ℕ) (c : Coordinated S)
      → (level ≡ 0) ⊎ (c.i_data.max_level < level)
      → add_invariant_element on_better prune level x c
        ≡ some (true, record c { i_data = push_trace level x c.i_data })
  unfolding add_invariant_element
  add-extended level x c h = elim (eq-cases level 0) [
    | inl e ↦ let test : (level == 0) ≡ true = ground arith in rw test refl
    | inr ne ↦
        let test : (level == 0) ≡ false = ground arith in
        let deep : ltb c.i_data.max_level level ≡ true = ground (arith, h) in rw (test, deep) refl
  ]

  -- The trace has no element at the position of the node, or a larger one.
  pub add-improved :
      (level x : ℕ) (c : Coordinated S) (done : List ℕ)
      → level ≢ 0
      → level ≤ c.i_data.max_level
      → c.t_data.end_index ≡ length done
      → (c.i_data.trace level ≡ done)
        ⊎ ((y : ℕ) × (rest : List ℕ) × (c.i_data.trace level ≡ done ++ y ∷ rest) × (x < y))
      → add_invariant_element on_better prune level x c
        ≡ some (true, improve on_better prune level x c)
  unfolding add_invariant_element
  add-improved level x c done ne le at (inl e) =
      let test : (level == 0) ≡ false = ground arith in
      let deep : ltb c.i_data.max_level level ≡ false = ground arith in
      let end : (c.t_data.end_index == length (c.i_data.trace level)) ≡ true =
        ground (arith, ap length e) in
      rw (test, deep, end) refl
  add-improved level x c done ne le at (inr (y, rest, e, lt)) =
      let test : (level == 0) ≡ false = ground arith in
      let deep : ltb c.i_data.max_level level ≡ false = ground arith in
      let end : (c.t_data.end_index == length (c.i_data.trace level)) ≡ false =
        ground (arith, ap length e, length-append done (y ∷ rest)) in
      let found : get_elem? (c.i_data.trace level) c.t_data.end_index ≡ some y =
        rw (e, at) (get_elem?-append done y rest) in
      let less : ltb x y ≡ true = ground arith in rw (test, deep, end, found, less) refl

  -- The trace has another element that is not larger at the position of the node.
  pub add-compared :
      (level x y : ℕ) (c : Coordinated S) (done rest : List ℕ)
      → level ≢ 0
      → level ≤ c.i_data.max_level
      → c.t_data.end_index ≡ length done
      → c.i_data.trace level ≡ done ++ y ∷ rest
      → y ≤ x
      → add_invariant_element on_better prune level x c ≡ (
          if ltb y x
          then some (false, c)
          else some (
            true,
            record c { t_data = record (c.t_data) { end_index = c.t_data.end_index + 1 } },
          ))
  unfolding add_invariant_element
  add-compared level x y c done rest ne le at e ge =
      let test : (level == 0) ≡ false = ground arith in
      let deep : ltb c.i_data.max_level level ≡ false = ground arith in
      let end : (c.t_data.end_index == length (c.i_data.trace level)) ≡ false =
        ground (arith, ap length e, length-append done (y ∷ rest)) in
      let found : get_elem? (c.i_data.trace level) c.t_data.end_index ≡ some y =
        rw (e, at) (get_elem?-append done y rest) in
      let less : ltb x y ≡ false = ground arith in rw (test, deep, end, found, less) refl

  -- The visitors add the elements in turn until one is refused.
  unfoldable pub add_all : ℕ → List ℕ → Coordinated S → Option (Bool × Coordinated S)
  unfolding add_invariant_element
  add_all level [] c = some (true, c)
  add_all level (x ∷ new) c = do
    added ← add_invariant_element on_better prune level x c
    let more = add_all level new added.1 in if added.0 then more else some added

  pub add_all-IsExtended :
      (level : ℕ) (new : List ℕ) (c : Coordinated S)
      → (level ≡ 0) ⊎ (c.i_data.max_level < level)
      → (d : Coordinated S) × (add_all level new c ≡ some (true, d)) × IsExtended level new c d
  unfolding add_all
  add_all-IsExtended level [] c h = (
    c,
    refl,
    record {
      max_level = refl;
      generation = refl;
      node = refl;
      trace = sym (append-nil (c.i_data.trace level));
      others = λ i ne. refl;
    },
  )
  add_all-IsExtended level (x ∷ new) c h =
      let pushed : Coordinated S = record c { i_data = push_trace level x c.i_data } in
      let (d, e, k) = add_all-IsExtended level new pushed h in
      let here = add-extended level x c h in
      let mine = update_self c.i_data.trace level (c.i_data.trace level ++ x ∷ []) in
      (
        d,
        rw (here, add_invariant_element) e,
        record {
          max_level = k.max_level;
          generation = k.generation;
          node = k.node;
          trace =
              k.trace ∙ ap (λ l. l ++ new) mine ∙ append_assoc (c.i_data.trace level) (x ∷ []) new;
          others = λ i ne.
              k.others i ne
              ∙ update_ne c.i_data.trace level i (c.i_data.trace level ++ x ∷ []) (λ e. ne (sym e));
        },
      )

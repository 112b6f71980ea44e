-- ===== src/Invariant/Improved.antt =====
-- coordinator.hpp: a better element makes the trace of its level that of the node.
use mathlib.Core.List.{append_assoc}
use graph_canon.Base.{
  ℕ, ◌+◌, ◌-◌, ◌≤◌, ◌<◌, ◌≡◌, ◌≢◌, inl, inr, refl, ap, ◌∙◌, subst, arith, List, [], ◌∷◌, ◌++◌, true,
  some, update, length, eq-cases,
}
use graph_canon.Base.Loops.{for_up, for_up_inv, update_self, update_ne}
use graph_canon.Invariant.{Coordinated, add_invariant_element, better_invariant, resize, improve}
use graph_canon.Invariant.Elements.{add_all, add_all-IsExtended}

-- The trace of the level is that of the node, and later levels have none; the generation has grown.
pub record IsImproved {S : Type 0} (level : ℕ) (new : List ℕ) (c d : Coordinated S) : Type 0 where
  pub max_level : d.i_data.max_level ≡ level - 1
  pub generation : d.i_data.generation ≡ c.i_data.generation + 1
  pub node : d.t_data.generation ≡ c.i_data.generation + 1
  pub trace : d.i_data.trace level ≡ new
  pub earlier : (i : ℕ) → i < level → d.i_data.trace i ≡ c.i_data.trace i
  pub later : (i : ℕ) → level < i → i ≤ c.i_data.max_level → d.i_data.trace i ≡ []

resize-length : (xs ys : List ℕ) → resize (xs ++ ys) (length xs) ≡ xs
unfolding resize
resize-length [] ys = refl
resize-length (x ∷ xs) ys = ap (λ l. x ∷ l) (resize-length xs ys)

module _ {S : Type 0} (on_better prune : S → S) where
  improve-IsImproved :
      (level x : ℕ) (c : Coordinated S) (done rest : List ℕ)
      → level ≢ 0
      → level ≤ c.i_data.max_level
      → c.t_data.end_index ≡ length done
      → c.i_data.trace level ≡ done ++ rest
      → IsImproved level (done ++ x ∷ []) c (improve on_better prune level x c)
  unfolding better_invariant
  improve-IsImproved level x c done rest ne le at e =
      let max = c.i_data.max_level in
      let old = c.i_data.trace in
      let cleared = for_up (λ i trace. update trace i []) (level + 1) (max - level) old in
      let loop : ((i : ℕ) → i < level + 1 → cleared i ≡ old i)
          × ((i : ℕ) → level < i → i < max + 1 → cleared i ≡ []) =
        for_up_inv
          (λ k trace.
            ((i : ℕ) → i < level + 1 → trace i ≡ old i)
            × ((i : ℕ) → level < i → i < k → trace i ≡ []))
          (λ i trace. update trace i []) (max + 1) (level + 1) (max - level) old (omega arith)
          (λ k trace lo hi ih. (
            λ i l. update_ne trace k i [] (omega arith) ∙ ih.0 i l,
            λ i l u. elim (eq-cases k i) [
              | inl here ↦ subst (λ z. update trace k [] z ≡ []) here (update_self trace k [])
              | inr other ↦ update_ne trace k i [] other ∙ ih.1 i l (omega arith)
            ],
          ))
          (λ i l. refl, λ i l u. absurd (omega arith)) in
      let cut : resize (cleared level) c.t_data.end_index ≡ done =
        rw (loop.0 level (omega arith), e, at) (resize-length done rest) in
      let shorter = update cleared level (resize (cleared level) c.t_data.end_index) in
      let away : (i : ℕ)
          → level ≢ i
          → update shorter level (shorter level ++ x ∷ []) i ≡ cleared i =
        λ i other.
          update_ne shorter level i (shorter level ++ x ∷ []) other
          ∙ update_ne cleared level i (resize (cleared level) c.t_data.end_index) other in
      record {
        max_level = refl;
        generation = refl;
        node = refl;
        trace =
            update_self shorter level (shorter level ++ x ∷ [])
            ∙ ap (λ l. l ++ x ∷ [])
                (update_self cleared level (resize (cleared level) c.t_data.end_index) ∙ cut);
        earlier = λ i l. away i (omega arith) ∙ loop.0 i (omega arith);
        later = λ i l u. away i (omega arith) ∙ loop.1 i l (omega arith);
      }

  -- After an improvement the other elements are accepted.
  pub improve-all :
      (level x : ℕ) (new : List ℕ) (c : Coordinated S) (done rest : List ℕ)
      → level ≢ 0
      → level ≤ c.i_data.max_level
      → c.t_data.end_index ≡ length done
      → c.i_data.trace level ≡ done ++ rest
      → add_invariant_element on_better prune level x c
        ≡ some (true, improve on_better prune level x c)
      → (d : Coordinated S) × (add_all on_better prune level (x ∷ new) c ≡ some (true, d))
        × IsImproved level (done ++ x ∷ new) c d
  unfolding add_all
  improve-all level x new c done rest ne le at e here =
      let b = improve on_better prune level x c in
      let k = improve-IsImproved level x c done rest ne le at e in
      let (d, f, g) =
        add_all-IsExtended on_better prune level new b (inr (omega (arith, k.max_level))) in
      (
        d,
        rw (here, add_invariant_element) f,
        record {
          max_level = g.max_level ∙ k.max_level;
          generation = g.generation ∙ k.generation;
          node = ap (λ t. t.generation) g.node ∙ k.node;
          trace = g.trace ∙ ap (λ l. l ++ new) k.trace ∙ append_assoc done (x ∷ []) new;
          earlier = λ i l. g.others i (omega arith) ∙ k.earlier i l;
          later = λ i l u. g.others i (omega arith) ∙ k.later i l u;
        },
      )

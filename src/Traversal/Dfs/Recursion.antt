-- ===== src/Traversal/Dfs/Recursion.antt =====
-- dfs.hpp: the loop with the stack ends, and does what the recursion over the tree does.
use graph_canon.Base.{
  ℕ, zero, suc, ◌+◌, ◌-◌, ◌*◌, ◌≤◌, ◌<◌, ◌≡◌, inl, inr, Option, none, some, ◌>>=◌, List, [], ◌∷◌,
  ltb, ◌==◌, if◌then◌else◌, arith, refl, ◌∙◌, Option-cases, lt-cases, Bool-cases,
}
use native.Mathlib.Nat.{mul-le-mul_right}
use graph_canon.Traversal.{Operations}
use graph_canon.Traversal.Dfs.{Elem, skip_pruned, visit_elem, traverse_loop, traverse}

-- What falls from an element to the ones that the recursion visits for it.
pub measure : (ℕ → ℕ) → ℕ → Elem → ℕ
measure height width e = height e.node * (width + 2) + (width + 1 - e.next_child)

module _ {S : Type 0} (ops : Operations S) where
  -- The first child of the element that is not pruned, if there is one, in the state after
  -- `tree_before_descend`.
  abbrev next_child_of : Elem → S → ℕ
  next_child_of e t =
      skip_pruned ops t e.node e.next_child (ops.children_size e.node t - e.next_child)

  -- The recursion that the stack stands for: the subtree of the next child, and then the rest of the
  -- children; `none` is the lack of fuel.
  pub explore : ℕ → Elem → S → Option S
  explore zero e s = none
  explore (suc fuel) e s =
      let t = ops.tree_before_descend e.node s in
      let next = next_child_of e t in
      let created = ops.create_child e.node next t in
      let subtree : Option S = elim created.1 [
        | none ↦ some created.0
        | some child ↦ explore fuel (record { node = child; next_child = 0 }) created.0
      ] in
      let rest =
        subtree >>= λ u. explore fuel (record { node = e.node; next_child = next + 1 }) u in
      let leaf = some (if next == 0 then ops.report_leaf e.node t else t) in
      if ops.get_is_pruned e.node t
      then some t
      else if ltb next (ops.children_size e.node t)
      then rest
      else leaf

  -- The loop with `e` on top of the stack in state `s` comes, after some rounds, to the stack below it
  -- in state `t`.
  record IsPopped (e : Elem) (s t : S) : Type 0 where
    pub rounds : ℕ
    pub same :
        (fuel total : ℕ) (work_stack : List Elem)
        → total ≡ rounds + fuel
        → traverse_loop ops total (e ∷ work_stack) s ≡ traverse_loop ops fuel work_stack t

  first_round :
      (e : Elem) (s : S) (fuel total : ℕ) (work_stack below : List Elem) (t : S)
      → total ≡ 1 + fuel
      → visit_elem ops e work_stack s ≡ (t, below)
      → traverse_loop ops total (e ∷ work_stack) s ≡ traverse_loop ops fuel below t
  unfolding traverse_loop
  first_round e s fuel total work_stack below t shape h =
      let shape' : total ≡ suc fuel = omega arith in rw (shape', h) refl

  -- The element is done after one round.
  IsPopped-last :
      (e : Elem) (s t : S)
      → ((work_stack : List Elem) → visit_elem ops e work_stack s ≡ (t, work_stack))
      → IsPopped e s t
  IsPopped-last e s t h = record {
    rounds = 1;
    same = λ fuel total work_stack shape.
        first_round e s fuel total work_stack work_stack t shape (h work_stack);
  }

  -- One round leaves the element, for its next child, on the stack.
  IsPopped-next :
      (e next : Elem) (s u t : S)
      → ((work_stack : List Elem) → visit_elem ops e work_stack s ≡ (u, next ∷ work_stack))
      → IsPopped next u t
      → IsPopped e s t
  IsPopped-next e next s u t h n = record {
    rounds = 1 + n.rounds;
    same = λ fuel total work_stack shape.
        first_round e s (n.rounds + fuel) total work_stack (next ∷ work_stack) u (omega arith)
          (h work_stack)
        ∙ n.same fuel (n.rounds + fuel) work_stack refl;
  }

  -- One round puts a child on top of it.
  IsPopped-child :
      (e child next : Elem) (s u v t : S)
      → ((work_stack : List Elem) → visit_elem ops e work_stack s ≡ (u, child ∷ next ∷ work_stack))
      → IsPopped child u v
      → IsPopped next v t
      → IsPopped e s t
  IsPopped-child e child next s u v t h c n = record {
    rounds = 1 + c.rounds + n.rounds;
    same = λ fuel total work_stack shape.
        first_round e s (c.rounds + n.rounds + fuel) total work_stack (child ∷ next ∷ work_stack) u
          (omega arith) (h work_stack)
        ∙ c.same (n.rounds + fuel) (c.rounds + n.rounds + fuel) (next ∷ work_stack) (omega arith)
        ∙ n.same fuel (n.rounds + fuel) work_stack refl;
  }

  -- Whatever the recursion returns, the loop comes to it.
  explore-IsPopped : (fuel : ℕ) (e : Elem) (s t : S) → explore fuel e s ≡ some t → IsPopped e s t
  unfolding explore visit_elem
  explore-IsPopped zero e s t r = absurd (ground arith)
  explore-IsPopped (suc fuel) e s t r =
      let t' = ops.tree_before_descend e.node s in
      let k = next_child_of e t' in
      let next : Elem = record { node = e.node; next_child = k + 1 } in
      let created = ops.create_child e.node k t' in
      elim (Bool-cases (ops.get_is_pruned e.node t')) [
        | inl pruned ↦
            let same : t' ≡ t = ground arith in IsPopped-last e s t (λ work_stack. ground arith)
        | inr alive ↦ elim (lt-cases k (ops.children_size e.node t')) [
          | inr le ↦ IsPopped-last e s t (λ work_stack. ground arith)
          | inl lt ↦ elim (Option-cases created.1) [
            | inl no_child ↦
                let rest : explore fuel next created.0 ≡ some t = ground arith in
                IsPopped-next e next s created.0 t (λ work_stack. ground arith)
                  (explore-IsPopped fuel next created.0 t rest)
            | inr (child, made) ↦
                let top : Elem = record { node = child; next_child = 0 } in
                elim (Option-cases (explore fuel top created.0)) [
                  | inl out ↦ absurd (ground arith)
                  | inr (v, done) ↦
                      let rest : explore fuel next v ≡ some t = ground arith in
                      IsPopped-child e top next s created.0 v t (λ work_stack. ground arith)
                        (explore-IsPopped fuel top created.0 v done)
                        (explore-IsPopped fuel next v t rest)
                ]
          ]
        ]
      ]

  skip_pruned-le : (t : S) (parent i rounds : ℕ) → i ≤ skip_pruned ops t parent i rounds
  unfolding skip_pruned
  skip_pruned-le t parent i zero = omega arith
  skip_pruned-le t parent i (suc rounds) = ground (arith, skip_pruned-le t parent (i + 1) rounds)

  -- The tree is finite: each child has a smaller height than its parent, and no node has more than
  -- `width` children.
  pub record IsFinite (height : ℕ → ℕ) (width : ℕ) : Type 0 where
    pub few : (p : ℕ) (s : S) → ops.children_size p s ≤ width
    pub lower :
        (p i c : ℕ) (s : S) → (ops.create_child p i s).1 ≡ some c → suc (height c) ≤ height p

  explore-ends :
      (height : ℕ → ℕ) (width fuel : ℕ) (e : Elem) (s : S)
      → IsFinite height width
      → measure height width e < fuel
      → (t : S) × (explore fuel e s ≡ some t)
  unfolding explore measure
  explore-ends height width zero e s h l = absurd (omega arith)
  explore-ends height width (suc fuel) e s h l =
      let t = ops.tree_before_descend e.node s in
      let k = next_child_of e t in
      let next : Elem = record { node = e.node; next_child = k + 1 } in
      let created = ops.create_child e.node k t in
      let size = ops.children_size e.node t in
      elim (Bool-cases (ops.get_is_pruned e.node t)) [
        | inl pruned ↦ (t, ground arith)
        | inr alive ↦ elim (lt-cases k size) [
          | inr le ↦ (if k == 0 then ops.report_leaf e.node t else t, ground arith)
          | inl lt ↦
              let few = h.few e.node t in
              let up = skip_pruned-le t e.node e.next_child (size - e.next_child) in
              let smaller : measure height width next < fuel = omega (arith, few, up, l, lt) in
              elim (Option-cases created.1) [
                | inl no_child ↦
                    let (v, done) = explore-ends height width fuel next created.0 h smaller in
                    (v, ground arith)
                | inr (child, made) ↦
                    let top : Elem = record { node = child; next_child = 0 } in
                    let product = mul-le-mul_right (width + 2) (h.lower e.node k child t made) in
                    let below : measure height width top < fuel =
                      omega (arith, product, few, up, l, lt) in
                    let (u, done) = explore-ends height width fuel top created.0 h below in
                    let (v, done') = explore-ends height width fuel next u h smaller in
                    (v, ground arith)
              ]
        ]
      ]

  -- What the traversal of a subtree comes to.
  pub record IsTraversed (height : ℕ → ℕ) (width t_ptr : ℕ) (s : S) : Type 0 where
    pub final : S
    pub rounds : ℕ
    pub ends : (fuel : ℕ) → rounds < fuel → traverse ops fuel t_ptr s ≡ some final
    pub recursive :
        explore
          (suc (measure height width (record { node = t_ptr; next_child = 0 })))
          (record { node = t_ptr; next_child = 0 })
          s
        ≡ some final

  -- On a finite tree the traversal ends, whatever the visitors do to the state and whichever nodes
  -- they prune, and its final state is the one of the recursion that visits the subtree of each child
  -- before the next child.
  pub traverse-IsTraversed :
      (height : ℕ → ℕ) (width t_ptr : ℕ) (s : S)
      → IsFinite height width
      → IsTraversed height width t_ptr s
  unfolding traverse traverse_loop
  traverse-IsTraversed height width t_ptr s h =
      let e : Elem = record { node = t_ptr; next_child = 0 } in
      let (t, done) =
        explore-ends height width (suc (measure height width e)) e s h (omega arith) in
      let p = explore-IsPopped (suc (measure height width e)) e s t done in
      record {
        final = t;
        rounds = p.rounds;
        ends = λ fuel l.
            let shape : fuel ≡ p.rounds + suc (fuel - p.rounds - 1) = omega arith in
            p.same (suc (fuel - p.rounds - 1)) fuel [] shape;
        recursive = done;
      }

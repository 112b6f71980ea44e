-- ===== src/Refine/Enqueue.antt =====
-- WL_1.hpp: what add_refiner_cells queues after a cell was split.
use mathlib.Core.List.{foldl, foldl-append, append_assoc, append-nil}
use graph_canon.Base.{
  get_elem?, get_elem?-append, ℕ, ◌+◌, ◌-◌, ◌^◌, ◌≤◌, ◌<◌, ◌≡◌, ◌⊎◌, ◌↔◌, inl, inr, refl, sym, ap,
  ◌∙◌, arith, List, [], ◌∷◌, ◌++◌, true, false, ltb, some, length, IsIn, All, All-append, lt-cases,
  Bool-cases, eq-cases, length-append,
}
use graph_canon.Base.Int.{ℤ, pos, IntType}
use graph_canon.Partition.{Partition, get_cell_size}
use graph_canon.Refine.{InstanceData, push_refiner}
use graph_canon.Refine.Queue.{
  find_max_cell, push_range, push_all_but, add_refiner_cells, minus_one, equals_minus_one,
}

-- The cells `new` have been queued, in this order, and nothing else has changed.
pub record IsQueued (new : List ℕ) (d e : InstanceData) : Type 0 where
  pub queue : e.refiner_cells ≡ d.refiner_cells ++ new
  pub marked :
      (c : ℕ)
      → ((e.cell_data c).is_refiner ≡ true) ↔ (((d.cell_data c).is_refiner ≡ true) ⊎ IsIn c new)
  pub hits : (c : ℕ) → (e.cell_data c).hit_count ≡ (d.cell_data c).hit_count
  pub beginnings : e.refined_beginnings ≡ d.refined_beginnings
  pub refinees : e.refinee_cells ≡ d.refinee_cells
  pub counters : (v : ℕ) → e.counters v ≡ d.counters v

push_all-IsQueued : (new : List ℕ) (d : InstanceData) → IsQueued new d (foldl push_refiner d new)
push_all-IsQueued [] d = record {
  queue = sym (append-nil d.refiner_cells);
  marked = λ c. ground arith;
  hits = λ c. refl;
  beginnings = refl;
  refinees = refl;
  counters = λ v. refl;
}
push_all-IsQueued (x ∷ xs) d =
    let h = push_all-IsQueued xs (push_refiner d x) in
    record {
      queue = h.queue ∙ append_assoc d.refiner_cells (x ∷ []) xs;
      marked = λ c. ground (arith, h.marked c, eq-cases x c);
      hits = λ c. ground (arith, h.hits c);
      beginnings = h.beginnings;
      refinees = h.refinees;
      counters = h.counters;
    }

-- Queueing the middle of the list.
push_range-append :
    (parts before part after : List ℕ) (i : ℕ) (d : InstanceData)
    → parts ≡ before ++ (part ++ after)
    → i ≡ length before
    → push_range parts i (length part) d ≡ some (foldl push_refiner d part)
unfolding push_range
push_range-append parts before [] after i d e f = refl
push_range-append parts before (x ∷ part) after i d e f =
    let here : get_elem? parts i ≡ some x = rw (e, f) (get_elem?-append before x (part ++ after)) in
    let next =
      push_range-append parts (before ++ x ∷ []) part after (i + 1) (push_refiner d x)
        (e ∙ sym (append_assoc before (x ∷ []) (part ++ after)))
        (omega (arith, f, length-append before (x ∷ []))) in
    rw here next

-- `all` is `rest` with `left` put in at one place.
abbrev pub IsAllBut : ℕ → List ℕ → List ℕ → Type 0
IsAllBut left rest all =
    (before : List ℕ) × (after : List ℕ) × (all ≡ before ++ left ∷ after) × (rest ≡ before ++ after)

-- The result of the search from index `i`: nothing is larger than before, or the index and the size of
-- a part that is larger, with no larger one.
abbrev IsMaxCell : Partition → ℕ → List ℕ → ℤ → ℕ → ℤ × ℕ → Type 0
IsMaxCell pi i parts index size found =
    ((found.0 ≡ index) × (found.1 ≡ size) × All (λ c. get_cell_size pi c ≤ size) parts)
    ⊎ ((before : List ℕ) × (big : ℕ) × (after : List ℕ) × (parts ≡ before ++ big ∷ after)
        × (found.0 ≡ pos (i + length before))
        × (found.1 ≡ get_cell_size pi big)
        × (size < get_cell_size pi big)
        × All (λ c. get_cell_size pi c ≤ get_cell_size pi big) before
        × All (λ c. get_cell_size pi c ≤ get_cell_size pi big) after)

find_max_cell-IsMaxCell :
    (pi : Partition) (i : ℕ) (parts : List ℕ) (index : ℤ) (size : ℕ)
    → IsMaxCell pi i parts index size (find_max_cell pi i parts index size)
unfolding find_max_cell
find_max_cell-IsMaxCell pi i [] index size = inl (refl, refl, tt)
find_max_cell-IsMaxCell pi i (x ∷ parts) index size = elim (lt-cases size (get_cell_size pi x)) [
  | inl larger ↦
      let test : ltb size (get_cell_size pi x) ≡ true = ground arith in
      elim (find_max_cell-IsMaxCell pi (i + 1) parts (pos i) (get_cell_size pi x)) [
        | inl (e, f, a) ↦
            rw test (inr ([], x, parts, refl, e ∙ ap pos (omega arith), f, larger, tt, a))
        | inr (before, big, after, e, f, g, l, a, b) ↦ rw test (
            inr (
              x ∷ before,
              big,
              after,
              ap (λ l. x ∷ l) e,
              f ∙ ap pos (omega arith),
              g,
              omega arith,
              (omega arith, a),
              b,
            ))
      ]
  | inr smaller ↦
      let test : ltb size (get_cell_size pi x) ≡ false = ground arith in
      elim (find_max_cell-IsMaxCell pi (i + 1) parts index size) [
        | inl (e, f, a) ↦ rw test (inl (e, f, (smaller, a)))
        | inr (before, big, after, e, f, g, l, a, b) ↦ rw test (
            inr (
              x ∷ before,
              big,
              after,
              ap (λ l. x ∷ l) e,
              f ∙ ap pos (omega arith),
              g,
              l,
              (omega arith, a),
              b,
            ))
      ]
]

push_all_but-IsAllBut :
    (refinee_begin : ℕ) (parts before : List ℕ) (big : ℕ) (after : List ℕ) (d : InstanceData)
    → parts ≡ before ++ big ∷ after
    → push_all_but refinee_begin parts (pos (length before)) d
      ≡ some (foldl push_refiner d (refinee_begin ∷ (before ++ after)))
unfolding push_all_but
push_all_but-IsAllBut b parts before big after d e =
    let first = push_range-append parts [] before (big ∷ after) 0 (push_refiner d b) e refl in
    let count : length parts - (length before + 1) ≡ length after =
      omega (arith, ap length e, length-append before (big ∷ after)) in
    let second =
      push_range-append parts (before ++ big ∷ []) after [] (length before + 1)
        (foldl push_refiner (push_refiner d b) before)
        (e
          ∙ sym (append_assoc before (big ∷ []) after)
          ∙ ap (λ l. before ++ big ∷ [] ++ l) (sym (append-nil after)))
        (omega (arith, length-append before (big ∷ []))) in
    rw (first, count)
      (second ∙ ap some (sym (foldl-append push_refiner (push_refiner d b) before after)))

-- The types for which `max_cell_index == -1` works: the signed ones and those not narrower than `int`.
abbrev pub HoldsMinusOne : IntType → Type 0
HoldsMinusOne t = (t.is_signed ≡ true) ⊎ (32 ≤ t.bits)

-- What was queued for the split of `refinee_begin` at `parts`: all new parts if that cell was in the
-- queue, or else all of the parts but one of the largest.
abbrev pub IsEnough : Partition → ℕ → List ℕ → InstanceData → List ℕ → Type 0
IsEnough pi refinee_begin parts d new =
    (((d.cell_data refinee_begin).is_refiner ≡ true) × (new ≡ parts))
    ⊎ (((d.cell_data refinee_begin).is_refiner ≡ false)
        × ((left : ℕ) × IsAllBut left new (refinee_begin ∷ parts)
            × All (λ c. get_cell_size pi c ≤ get_cell_size pi left) (refinee_begin ∷ parts)))

pub add_refiner_cells-IsQueued :
    (t : IntType) (pi : Partition) (refinee_begin : ℕ) (d : InstanceData)
    → HoldsMinusOne t
    → length d.refined_beginnings < 2 ^ t.bits - 1
    → (new : List ℕ) × (e : InstanceData) × (add_refiner_cells t pi refinee_begin d ≡ some e)
      × IsQueued new d e
      × IsEnough pi refinee_begin d.refined_beginnings d new
unfolding add_refiner_cells
add_refiner_cells-IsQueued t pi b d holds few =
    let parts = d.refined_beginnings in
    elim (Bool-cases (d.cell_data b).is_refiner) [
      | inl queued ↦ (
        parts,
        foldl push_refiner d parts,
        rw queued refl,
        push_all-IsQueued parts d,
        inl (queued, refl),
      )
      | inr fresh ↦ elim (find_max_cell-IsMaxCell pi 0 parts (minus_one t) (get_cell_size pi b)) [
        | inl (e, f, a) ↦
            let test : equals_minus_one t (minus_one t) ≡ true = ground (arith, holds) in
            (
              parts,
              foldl push_refiner d parts,
              rw (fresh, e, test) refl,
              push_all-IsQueued parts d,
              inr (fresh, (b, ([], parts, refl, refl), (omega arith, a))),
            )
        | inr (before, big, after, e, f, g, l, a, c) ↦
            let new = b ∷ (before ++ after) in
            let test : equals_minus_one t (pos (length before)) ≡ false =
              ground (arith, few, ap length e, length-append before (big ∷ after)) in
            let index : (find_max_cell pi 0 parts (minus_one t) (get_cell_size pi b)).0
                ≡ pos (length before) =
              f ∙ ap pos (omega arith) in
            (
              new,
              foldl push_refiner d new,
              rw (fresh, index, test) (push_all_but-IsAllBut b parts before big after d e),
              push_all-IsQueued new d,
              inr (
                fresh,
                (
                  big,
                  (b ∷ before, after, ap (λ l. b ∷ l) e, refl),
                  (
                    omega arith,
                    rw e (
                        All-append (λ c. get_cell_size pi c ≤ get_cell_size pi big) before
                          (big ∷ after) a (omega arith, c)),
                  ),
                ),
              ),
            )
      ]
    ]

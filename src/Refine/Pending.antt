-- ===== src/Refine/Pending.antt =====
-- WL_1.hpp: the flags `is_refiner` and the queue of refiner cells agree.
use graph_canon.Base.{
  ℕ, ◌-◌, ◌^◌, ◌<◌, ◌≡◌, ◌↔◌, inl, inr, arith, List, [], ◌∷◌, ◌++◌, true, some, length, IsIn,
  IsIn-append, ap, ◌∙◌, refl, subst,
}
use mathlib.Core.List.{append_assoc}
use graph_canon.Base.Int.{IntType}
use graph_canon.Partition.{Partition}
use graph_canon.Refine.{InstanceData}
use graph_canon.Refine.Queue.{add_refiner_cells}
use graph_canon.Refine.Enqueue.{IsAllBut, HoldsMinusOne, add_refiner_cells-IsQueued}

abbrev pub AreDifferent : List ℕ → Type 0
AreDifferent [] = Unit {0}
AreDifferent (x ∷ xs) = (¬ IsIn x xs) × AreDifferent xs

AreDifferent-append :
    (xs ys : List ℕ)
    → AreDifferent (xs ++ ys)
      ↔ (AreDifferent xs × AreDifferent ys × ((c : ℕ) → IsIn c xs → ¬ IsIn c ys))
AreDifferent-append [] ys = (λ h. (tt, h, λ c i j. i), λ h. h.1)
AreDifferent-append (x ∷ xs) ys =
    let ih = AreDifferent-append xs ys in
    let mem = IsIn-append x xs ys in
    (
      λ h.
          let (a, b, c) = ih.0 h.1 in
          (
            (λ i. h.0 (mem.1 (inl i)), a),
            b,
            λ d i j. elim i [
              | inl e ↦ h.0 (mem.1 (inr (subst (λ z. IsIn z ys) e j)))
              | inr k ↦ c d k j
            ],
          ),
      λ h. (
        λ i. elim (mem.0 i) [ inl l ↦ h.0.0 l | inr r ↦ h.2 x (inl refl) r ],
        ih.1 (h.0.1, h.1, λ c i. h.2 c (inr i)),
      ),
    )

-- The cells that wait are those of `pending`, each once, and they are the marked ones.
pub record IsQueue (done pending : List ℕ) (d : InstanceData) : Type 0 where
  pub queue : d.refiner_cells ≡ done ++ pending
  pub marked : (c : ℕ) → ((d.cell_data c).is_refiner ≡ true) ↔ IsIn c pending
  pub once : AreDifferent pending

AllBut-AreDifferent :
    (left : ℕ) (rest all : List ℕ)
    → IsAllBut left rest all
    → AreDifferent all
    → AreDifferent rest × ((c : ℕ) → IsIn c rest → IsIn c all)
AllBut-AreDifferent left rest all (before, after, e, f) h =
    let (a, b, c) = (AreDifferent-append before (left ∷ after)).0 (subst AreDifferent e h) in
    (
      rw f ((AreDifferent-append before after).1 (a, b.1, λ x i j. c x i (inr j))),
      λ x i. rw e (
          (IsIn-append x before (left ∷ after)).1
            (ground (arith, (IsIn-append x before after).0 (subst (IsIn x) f i)))),
    )

-- With an integer type that is signed or has at least 32 bits, and less than 2^bits - 1 parts that are
-- split off, differ from each other and from the split cell and were not waiting, a call of
-- add_refiner_cells returns and keeps the flags and the queue in agreement; the cells that it adds wait
-- behind the others.
pub add_refiner_cells-IsQueue :
    (t : IntType) (pi : Partition) (refinee_begin : ℕ) (d : InstanceData) (done pending : List ℕ)
    → HoldsMinusOne t
    → length d.refined_beginnings < 2 ^ t.bits - 1
    → AreDifferent (refinee_begin ∷ d.refined_beginnings)
    → ((c : ℕ) → IsIn c d.refined_beginnings → ¬ IsIn c pending)
    → IsQueue done pending d
    → (new : List ℕ) × (e : InstanceData) × (add_refiner_cells t pi refinee_begin d ≡ some e)
      × IsQueue done (pending ++ new) e
add_refiner_cells-IsQueue t pi b d done pending holds few distinct apart h =
    let (new, e, eq, q, enough) = add_refiner_cells-IsQueued t pi b d holds few in
    let fresh : AreDifferent new × ((c : ℕ) → IsIn c pending → ¬ IsIn c new) = elim enough [
      | inl (queued, same) ↦ (rw same distinct.1, λ c i j. apart c (subst (IsIn c) same j) i)
      | inr (free, (left, but, largest)) ↦
          let (once, sub) = AllBut-AreDifferent left new (b ∷ d.refined_beginnings) but distinct in
          (
            once,
            λ c i j. elim (sub c j) [
              | inl same ↦ ground (arith, free, (h.marked b).1 (subst (λ z. IsIn z pending) same i))
              | inr part ↦ apart c part i
            ],
          )
    ] in
    (
      new,
      e,
      eq,
      record {
        queue = q.queue ∙ ap (λ l. l ++ new) h.queue ∙ append_assoc done pending new;
        marked = λ c. ground (arith, q.marked c, h.marked c, IsIn-append c pending new);
        once = (AreDifferent-append pending new).1 (h.once, fresh.0, fresh.1);
      },
    )

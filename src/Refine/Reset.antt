-- ===== src/Refine/Reset.antt =====
-- WL_1.hpp: reset_cell_beginnings, which records the new cells of the vertices of the refinees.
use graph_canon.Base.{
  ℕ, zero, suc, ◌+◌, ◌≤◌, ◌<◌, ◌≡◌, ◌≢◌, ◌⊎◌, inl, inr, refl, ◌∙◌, arith, List, [], ◌∷◌, Option,
  none, some, true, false, ◌==◌, if◌then◌else◌, ◌>>=◌, eq-cases, All, All-map,
}
use graph_canon.Partition.{Partition, get_cell_end, set_cell_from_v_idx}
use graph_canon.Partition.Cells.{IsCells, IsInverse, IsPartition}
use graph_canon.Partition.Membership.{
  IsMembershipOn, IsSameCells, IsSameCells-IsCells, IsSameCells-IsInverse, set_cell-IsSameCells,
  set_cell-IsMembershipOn,
}
use graph_canon.Partition.Walk.{IsPosition, next-IsPosition}
use graph_canon.Refine.{RefineeCell}

-- The inner loop, from `current_cell` up to `refinee_end`; `none` is a lack of fuel.
unfoldable pub reset_cells : ℕ → ℕ → ℕ → Partition → Option Partition
unfolding set_cell_from_v_idx
reset_cells zero refinee_end current_cell pi = none
reset_cells (suc fuel) refinee_end current_cell pi =
    let current_cell_end = get_cell_end pi current_cell in
    let rest =
      reset_cells fuel refinee_end current_cell_end (set_cell_from_v_idx current_cell pi) in
    if current_cell == refinee_end then some pi else rest

abbrev pub reset_refinee : RefineeCell → Partition → Option Partition
reset_refinee rp pi =
    let current_cell_end = get_cell_end pi rp.first in
    let split = reset_cells (pi.n + 1) rp.last current_cell_end pi in
    if current_cell_end == rp.last then some pi else split

unfoldable pub reset_cell_beginnings : List RefineeCell → Partition → Option Partition
unfolding reset_cells
reset_cell_beginnings [] pi = some pi
reset_cell_beginnings (rp ∷ refinee_cells) pi =
    reset_refinee rp pi >>= reset_cell_beginnings refinee_cells

IsSameCells-trans : (a b c : Partition) → IsSameCells a b → IsSameCells b c → IsSameCells a c
IsSameCells-trans a b c h k = record {
  size = k.size ∙ h.size;
  count = k.count ∙ h.count;
  element = λ i. k.element i ∙ h.element i;
  inverse = λ v. k.inverse v ∙ h.inverse v;
  next = λ i. k.next i ∙ h.next i;
}

IsSameCells-refl : (a : Partition) → IsSameCells a a
IsSameCells-refl a = record {
  size = refl;
  count = refl;
  element = λ i. refl;
  inverse = λ v. refl;
  next = λ i. refl;
}

-- The cells of `pi` are right as they are in `t`, where `cell_from_v_idx` is right for the cells in `Q`.
abbrev IsRepaired : (ℕ → Type 0) → Partition → Option Partition → Type 0
IsRepaired Q pi result = (t : Partition) × (result ≡ some t) × IsSameCells pi t × IsMembershipOn Q t

IsPosition-same : (pi t : Partition) (c : ℕ) → IsSameCells pi t → IsPosition pi c → IsPosition t c
IsPosition-same pi t c s p = ground (arith, s.size, s.next c, p)

-- A cell that begins before the end of the cell `k` is `k` or begins before `k`.
pass-cell :
    (Q : ℕ → Type 0) (last k : ℕ) (pi t : Partition)
    → IsCells pi
    → k < pi.n
    → pi.next_cell_begin k ≢ 0
    → IsSameCells pi t
    → IsMembershipOn (λ c. ((c < k) ⊎ (last ≤ c) ⊎ (c ≡ k)) × Q c) t
    → IsMembershipOn (λ c. ((c < pi.next_cell_begin k) ⊎ (last ≤ c)) × Q c) t
pass-cell Q last k pi t h below begins s m c i (where_c, q) l ne lo hi =
    let place : (c < k) ⊎ (last ≤ c) ⊎ (c ≡ k) =
      ground (arith, where_c, h.gap k c, s.size, s.next c) in
    m c i (place, q) l ne lo hi

next-le :
    (last k : ℕ) (pi : Partition)
    → IsCells pi
    → IsPosition pi last
    → k < pi.n
    → pi.next_cell_begin k ≢ 0
    → k < last
    → pi.next_cell_begin k ≤ last
next-le last k pi h p below begins lt = ground (arith, p, h.gap k last, h.inside k)

reset_cells-IsRepaired :
    (Q : ℕ → Type 0) (fuel last k : ℕ) (pi : Partition)
    → IsCells pi
    → IsInverse pi
    → IsPosition pi last
    → IsPosition pi k
    → k ≤ last
    → last < k + fuel
    → IsMembershipOn (λ c. ((c < k) ⊎ (last ≤ c)) × Q c) pi
    → IsRepaired Q pi (reset_cells fuel last k pi)
unfolding reset_cells
reset_cells-IsRepaired Q zero last k pi h v pl pk le f m = absurd (omega arith)
reset_cells-IsRepaired Q (suc fuel) last k pi h v pl pk le f m = elim (eq-cases k last) [
  | inl e ↦
      let test : (k == last) ≡ true = ground arith in
      (pi, rw test refl, IsSameCells-refl pi, λ c i q. m c i (ground arith, q))
  | inr ne ↦
      let test : (k == last) ≡ false = ground arith in
      let below : k < pi.n = ground arith in
      let begins : pi.next_cell_begin k ≢ 0 = ground arith in
      let same = set_cell-IsSameCells k pi (omega (arith, h.after k below begins)) in
      let pi' = set_cell_from_v_idx k pi in
      let m' =
        set_cell-IsMembershipOn (λ c. ((c < k) ⊎ (last ≤ c)) × Q c) k pi h v below begins m in
      let (t, e, s, done) =
        reset_cells-IsRepaired Q fuel last (pi.next_cell_begin k) pi'
          (IsSameCells-IsCells pi pi' same h) (IsSameCells-IsInverse pi pi' same v)
          (IsPosition-same pi pi' last same pl)
          (IsPosition-same pi pi' (pi.next_cell_begin k) same (next-IsPosition pi k h below begins))
          (next-le last k pi h pl below begins (omega arith))
          (omega (arith, h.after k below begins))
          (pass-cell Q last k pi pi' h below begins same (λ c i p. m' c i (elim (p.0) [
            | inl a ↦ inl (inl a, p.1)
            | inr (inl b) ↦ inl (inr b, p.1)
            | inr (inr e) ↦ inr e
          ]))) in
      (t, rw test e, IsSameCells-trans pi pi' t same s, done)
]

-- The cells that do not begin strictly inside a refinee.
abbrev pub IsOutside : List RefineeCell → ℕ → Type 0
IsOutside rs c = All (λ r. (c ≤ r.first) ⊎ (r.last ≤ c)) rs

-- What was a cell before it was split.
abbrev pub IsOldCell : Partition → RefineeCell → Type 0
IsOldCell pi r =
    (r.first < pi.n) × (pi.next_cell_begin r.first ≢ 0) × (r.first < r.last) × IsPosition pi r.last

reset_refinee-IsRepaired :
    (Q : ℕ → Type 0) (r : RefineeCell) (pi : Partition)
    → IsCells pi
    → IsInverse pi
    → IsOldCell pi r
    → IsMembershipOn (λ c. ((c ≤ r.first) ⊎ (r.last ≤ c)) × Q c) pi
    → IsRepaired Q pi (reset_refinee r pi)
unfolding reset_cells
reset_refinee-IsRepaired Q r pi h v (below, begins, lt, pos) m =
    let k = r.first in
    let first : IsMembershipOn (λ c. ((c < pi.next_cell_begin k) ⊎ (r.last ≤ c)) × Q c) pi =
      pass-cell Q r.last k pi pi h below begins (IsSameCells-refl pi)
        (λ c i p. m c i (ground (arith, p.0), p.1)) in
    elim (eq-cases (pi.next_cell_begin k) r.last) [
      | inl e ↦
          let test : (pi.next_cell_begin k == r.last) ≡ true = ground arith in
          (pi, rw test refl, IsSameCells-refl pi, λ c i q. first c i (ground arith, q))
      | inr ne ↦
          let test : (pi.next_cell_begin k == r.last) ≡ false = ground arith in
          let result =
            reset_cells-IsRepaired Q (pi.n + 1) r.last (pi.next_cell_begin k) pi h v pos
              (next-IsPosition pi k h below begins) (next-le r.last k pi h pos below begins lt)
              (ground (arith, pos, h.after k below begins)) first in
          rw test result
    ]

IsOldCell-same :
    (pi t : Partition) (r : RefineeCell) → IsSameCells pi t → IsOldCell pi r → IsOldCell t r
IsOldCell-same pi t r s (below, begins, lt, pos) =
    (omega (arith, s.size), ground (arith, s.next r.first), lt, IsPosition-same pi t r.last s pos)

reset_all-IsRepaired :
    (rs : List RefineeCell) (pi : Partition)
    → IsCells pi
    → IsInverse pi
    → All (IsOldCell pi) rs
    → IsMembershipOn (IsOutside rs) pi
    → IsRepaired (λ c. Unit {0}) pi (reset_cell_beginnings rs pi)
unfolding reset_cell_beginnings
reset_all-IsRepaired [] pi h v old m = (pi, refl, IsSameCells-refl pi, m)
reset_all-IsRepaired (r ∷ rs) pi h v old m =
    let (t, e, s, done) = reset_refinee-IsRepaired (IsOutside rs) r pi h v old.0 m in
    let (u, f, z, all) =
      reset_all-IsRepaired rs t (IsSameCells-IsCells pi t s h) (IsSameCells-IsInverse pi t s v)
        (All-map (IsOldCell pi) (IsOldCell t) rs (λ x. IsOldCell-same pi t x s) old.1) done in
    (u, rw (e, reset_cell_beginnings) f, IsSameCells-trans pi t u s z, all)

-- Where `cell_from_v_idx` is right for all cells but those that begin strictly inside a refinee, the
-- call returns and makes the partition valid. It changes nothing else.
pub reset_cell_beginnings-IsPartition :
    (rs : List RefineeCell) (pi : Partition)
    → IsCells pi
    → IsInverse pi
    → All (IsOldCell pi) rs
    → IsMembershipOn (IsOutside rs) pi
    → (t : Partition) × (reset_cell_beginnings rs pi ≡ some t) × IsPartition t × IsSameCells pi t
reset_cell_beginnings-IsPartition rs pi h v old m =
    let (t, e, s, done) = reset_all-IsRepaired rs pi h v old m in
    (
      t,
      e,
      record {
        cells = IsSameCells-IsCells pi t s h;
        inverse = IsSameCells-IsInverse pi t s v;
        membership = λ c i. done c i tt;
      },
      s,
    )

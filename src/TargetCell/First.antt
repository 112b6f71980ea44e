-- ===== src/TargetCell/First.antt =====
-- target_cell/f.hpp: the loop ends and finds the first cell of more than one vertex.
use graph_canon.Base.{
  ℕ, zero, suc, ◌+◌, ◌-◌, ◌≤◌, ◌<◌, ◌≡◌, ◌≢◌, ◌⊎◌, inl, inr, refl, arith, some, ltb, Bool-cases,
  eq-cases, ◌↔◌,
}
use graph_canon.Partition.{Partition}
use graph_canon.Partition.Cells.{IsCells}
use graph_canon.Partition.Walk.{IsPosition, next-IsPosition}
use graph_canon.TargetCell.{first_loop, target_cell_f}
use graph_canon.TargetCell.Discrete.{IsDiscrete-iff}

-- Every cell that begins in `[lo, hi)` is a single vertex.
abbrev pub AreSingle : Partition → ℕ → ℕ → Type 0
AreSingle pi lo hi =
    (d : ℕ) → lo ≤ d → d < hi → d < pi.n → pi.next_cell_begin d ≢ 0 → pi.next_cell_begin d ≡ d + 1

-- What the returned value says about the cells from `lo` on.
abbrev pub IsFirst : Partition → ℕ → ℕ → Type 0
IsFirst pi lo r =
    AreSingle pi lo r
    × ((r ≡ pi.n) ⊎ (r < pi.n) × (pi.next_cell_begin r ≢ 0) × (1 < pi.next_cell_begin r - r))

first_loop_lem :
    (pi : Partition)
    → IsCells pi
    → (fuel c : ℕ) → pi.n < c + fuel
    → IsPosition pi c
    → (r : ℕ) × (first_loop fuel pi c ≡ some r) × IsFirst pi c r
unfolding first_loop
first_loop_lem pi h zero c f p = absurd (omega arith)
first_loop_lem pi h (suc fuel) c f (inl end) =
    (pi.n, ground arith, (λ d a b l. absurd (omega arith), inl refl))
first_loop_lem pi h (suc fuel) c f (inr (l, ne)) =
    elim (Bool-cases (ltb 1 (pi.next_cell_begin c - c))) [
      | inl large ↦ (c, ground arith, (λ d a b. absurd (omega arith), inr (l, ne, ground arith)))
      | inr single ↦
          let far = h.after c l ne in
          let (r, e, so) =
            first_loop_lem pi h fuel (pi.next_cell_begin c) (omega arith)
              (next-IsPosition pi c h l ne) in
          (r, ground (arith, e), (λ d a b k m. ground (arith, so.0 d, eq-cases c d), so.1))
    ]

-- On valid cells the loop returns. It returns the begin of a cell of more than one vertex, every cell
-- before it being a single vertex, or it returns `n` and then every cell is a single vertex.
pub target_cell_f-IsFirst :
    (pi : Partition) → IsCells pi → (r : ℕ) × (target_cell_f pi ≡ some r) × IsFirst pi 0 r
unfolding target_cell_f
target_cell_f-IsFirst pi h =
    first_loop_lem pi h (pi.n + 1) 0 (omega arith) (ground (arith, h.first))

-- The tree node's assertion: unless the partition is discrete, a cell is found.
pub target_cell_f-ne :
    (pi : Partition) (r : ℕ)
    → IsCells pi
    → target_cell_f pi ≡ some r
    → (r ≡ pi.n) ↔ (pi.num_cells ≡ pi.n)
target_cell_f-ne pi r h e =
    let (r', e', so) = target_cell_f-IsFirst pi h in
    let same : r' ≡ r = cc in
    let (to, from) = IsDiscrete-iff pi h in
    (
      λ q. to (λ i l ne. so.0 i (omega arith) (omega arith) l ne),
      λ q. elim (so.1) [
        | inl end ↦ omega arith
        | inr (l, ne, big) ↦ absurd (omega (arith, from q r' l ne))
      ],
    )

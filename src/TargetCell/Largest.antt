-- ===== src/TargetCell/Largest.antt =====
-- target_cell/fl.hpp: the loop ends and finds the first of the largest cells.
use graph_canon.Base.{ℕ, ◌+◌, ◌-◌, ◌≤◌, ◌<◌, ◌≡◌, ◌≢◌, ◌⊎◌, inl, inr, refl, arith, some, eq-cases}
use graph_canon.Partition.{Partition}
use graph_canon.Partition.Cells.{IsCells}
use graph_canon.Partition.Walk.{for_cells_rule}
use graph_canon.TargetCell.{Best, largest_body, target_cell_fl}

-- `best` is the first largest of the cells that begin below `c`, or `n` if all are single.
record IsBest (pi : Partition) (c : ℕ) (best : Best) : Type 0 where
  largest :
      (d : ℕ)
      → d < c
      → d < pi.n
      → pi.next_cell_begin d ≢ 0
      → pi.next_cell_begin d - d ≤ best.max_size
  first :
      (d : ℕ)
      → d < c
      → d < best.result
      → pi.next_cell_begin d ≢ 0
      → pi.next_cell_begin d - d ≡ best.max_size
      → best.result ≡ pi.n
  found :
      (best.result ≡ pi.n) × (best.max_size ≡ 1)
      ⊎ (best.result < pi.n)
        × (best.result < c)
        × (pi.next_cell_begin best.result ≢ 0)
        × (pi.next_cell_begin best.result - best.result ≡ best.max_size)
        × (1 < best.max_size)

largest_body-IsBest :
    (pi : Partition)
    → IsCells pi
    → (c : ℕ) (best : Best) → c < pi.n
    → pi.next_cell_begin c ≢ 0
    → IsBest pi c best
    → IsBest pi (pi.next_cell_begin c) (largest_body pi c best)
unfolding largest_body
largest_body-IsBest pi h c best l ne b = record {
  largest = λ d a k m. ground (arith, b.largest d, h.gap c d, eq-cases c d);
  first = λ d a k m e. ground (arith, b.first d, b.largest d, h.gap c d, eq-cases c d, b.found);
  found = ground (arith, b.found, h.after c);
}

-- What `target_cell_fl` returns on valid cells.
abbrev pub IsFirstLargest : Partition → ℕ → Type 0
IsFirstLargest pi r =
    (r ≡ pi.n) × ((d : ℕ) → d < pi.n → pi.next_cell_begin d ≢ 0 → pi.next_cell_begin d ≡ d + 1)
    ⊎ (r < pi.n)
      × (pi.next_cell_begin r ≢ 0)
      × (1 < pi.next_cell_begin r - r)
      × ((d : ℕ)
          → d < pi.n
          → pi.next_cell_begin d ≢ 0
          → (pi.next_cell_begin d - d ≤ pi.next_cell_begin r - r)
            × (d < r → pi.next_cell_begin d - d < pi.next_cell_begin r - r))

-- On valid cells the loop returns: `n` if every cell is a single vertex, or else the begin of a cell
-- of more than one vertex that is as large as any cell and larger than each cell before it.
pub target_cell_fl-IsFirstLargest :
    (pi : Partition) → IsCells pi → (r : ℕ) × (target_cell_fl pi ≡ some r) × IsFirstLargest pi r
unfolding target_cell_fl
target_cell_fl-IsFirstLargest pi h =
    let (best, e, b) =
      for_cells_rule (IsBest pi) pi (largest_body pi) h (largest_body-IsBest pi h) (pi.n + 1) 0
        (record { max_size = 1; result = pi.n }) (omega arith) (ground (arith, h.first))
        (record {
          largest = λ d a. absurd (omega arith);
          first = λ d a. absurd (omega arith);
          found = inl (refl, refl);
        }) in
    (
      best.result,
      rw (e, target_cell_fl),
      elim (b.found) [
        | inl none_found ↦
            inl (none_found.0, λ d l ne. omega (arith, h.after d l ne, b.largest d l l ne))
        | inr (l, _, ne, size, big) ↦ inr (
          l,
          ne,
          omega arith,
          λ d k m. (
            omega (arith, b.largest d k k m),
            λ lt. ground (arith, b.largest d k k m, b.first d k lt m),
          ),
        )
      ],
    )

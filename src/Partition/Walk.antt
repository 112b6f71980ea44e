-- ===== src/Partition/Walk.antt =====
-- The loop over the cells that every client of partition.hpp writes:
-- `for(cell = 0; cell < n; cell = pi.get_cell_end(cell))`.
use mathlib.Core.List.{foldl}
use graph_canon.Base.{
  ℕ, zero, suc, ◌+◌, ◌-◌, ◌≤◌, ◌<◌, ◌≡◌, ◌≢◌, ◌⊎◌, inl, inr, ap, ◌∙◌, arith, List, [], ◌∷◌, Option,
  none, some, true, false, ltb, ◌==◌, if◌then◌else◌, subst,
}
use graph_canon.Partition.{Partition, get_cell_end}
use graph_canon.Partition.Cells.{IsCells}

-- `none`: the fuel ran out.
unfoldable pub for_cells {ℓ} : {S : Type ℓ} → ℕ → Partition → (ℕ → S → S) → ℕ → S → Option S
for_cells zero pi body cell s = none
for_cells (suc fuel) pi body cell s =
    let rest = for_cells fuel pi body (get_cell_end pi cell) (body cell s) in
    if ltb cell pi.n then rest else some s

-- The indices of `[k, k + m)` at which a cell begins, by a look at every index.
unfoldable pub begins : Partition → ℕ → ℕ → List ℕ
begins pi k zero = []
begins pi k (suc m) =
    if pi.next_cell_begin k == 0 then begins pi (k + 1) m else k ∷ begins pi (k + 1) m

begins-skip :
    (pi : Partition) (d k m j l : ℕ)
    → k + d ≡ j
    → d + m ≡ l
    → ((i : ℕ) → k ≤ i → i < j → pi.next_cell_begin i ≡ 0)
    → begins pi k l ≡ begins pi j m
unfolding begins
begins-skip pi zero k m j l e f h =
    let p : k ≡ j = omega arith in
    let q : l ≡ m = omega arith in ap (λ x. begins pi x l) p ∙ ap (begins pi j) q
begins-skip pi (suc d) k m j zero e f h = absurd (omega arith)
begins-skip pi (suc d) k m j (suc l) e f h = ground (
  arith,
  h k,
  begins-skip pi d (k + 1) m j l (omega arith) (omega arith) (λ i a b. h i (omega arith) b),
)

-- A loop position: a begin of a cell, or `n`.
abbrev pub IsPosition : Partition → ℕ → Type 0
IsPosition pi c = (c ≡ pi.n) ⊎ ((c < pi.n) × (pi.next_cell_begin c ≢ 0))

pub next-IsPosition :
    (pi : Partition) (c : ℕ)
    → IsCells pi
    → c < pi.n
    → pi.next_cell_begin c ≢ 0
    → IsPosition pi (pi.next_cell_begin c)
next-IsPosition pi c h l ne = ground (arith, h.next c, h.inside c)

-- What each round keeps holds at the end, and the loop ends when the fuel exceeds what is left.
pub for_cells_rule {ℓ κ} :
    {S : Type ℓ} (P : ℕ → S → Type κ) (pi : Partition) (body : ℕ → S → S)
    → IsCells pi
    → ((c : ℕ) (s : S)
        → c < pi.n
        → pi.next_cell_begin c ≢ 0
        → P c s
        → P (pi.next_cell_begin c) (body c s))
    → (fuel cell : ℕ) (s : S) → pi.n < cell + fuel
    → IsPosition pi cell
    → P cell s
    → (t : S) × (for_cells fuel pi body cell s ≡ some t) × P pi.n t
unfolding for_cells
for_cells_rule P pi body h keep zero cell s f p hp = absurd (omega arith)
for_cells_rule P pi body h keep (suc fuel) cell s f p hp = elim p [
  | inl end ↦ (s, ground arith, subst (λ k. P k s) end hp)
  | inr (l, ne) ↦
      let c' = pi.next_cell_begin cell in
      let far = h.after cell l ne in
      let (t, e, ht) =
        for_cells_rule P pi body h keep fuel c' (body cell s) (omega arith)
          (next-IsPosition pi cell h l ne) (keep cell s l ne hp) in
      (t, ground (arith, e), ht)
]

-- The loop visits exactly the begins of the cells, in ascending order.
pub for_cells_visits {ℓ} :
    {S : Type ℓ} (pi : Partition) (body : ℕ → S → S)
    → IsCells pi
    → (fuel cell k : ℕ) (s : S) → pi.n < cell + fuel
    → IsPosition pi cell
    → cell + k ≡ pi.n
    → for_cells fuel pi body cell s ≡ some (foldl (λ t c. body c t) s (begins pi cell k))
unfolding for_cells begins
for_cells_visits pi body h zero cell k s f p e = absurd (omega arith)
for_cells_visits pi body h (suc fuel) cell zero s f p e = ground arith
for_cells_visits pi body h (suc fuel) cell (suc k) s f p e = elim p [
  | inl end ↦ absurd (omega arith)
  | inr (l, ne) ↦
      let c' = pi.next_cell_begin cell in
      let far = h.after cell l ne in
      let near = h.inside cell l ne in
      let jump : begins pi (cell + 1) k ≡ begins pi c' (pi.n - c') =
        begins-skip pi (c' - cell - 1) (cell + 1) (pi.n - c') c' k (omega arith) (omega arith)
          (λ i a b. h.gap cell i l ne (omega arith) b) in
      let rest =
        for_cells_visits pi body h fuel c' (pi.n - c') (body cell s) (omega arith)
          (next-IsPosition pi cell h l ne) (omega arith) in
      let more : ltb cell pi.n ≡ true = ground arith in
      let begin : (pi.next_cell_begin cell == 0) ≡ false = ground arith in
      rw (more, begin, jump) rest
]

-- ===== src/TargetCell/JoinedCell.antt =====
-- flm.hpp: the cell that is chosen is one to branch on.
use graph_canon.Base.{
  ℕ, ◌+◌, ◌-◌, ◌<◌, ◌≡◌, ◌≢◌, ◌⊎◌, inl, inr, refl, arith, Bool, true, false, some, not, ◌==◌, ltb,
  Bool-cases, eq-cases, lt-cases, subst, sym,
}
use graph_canon.Partition.{Partition}
use graph_canon.Partition.Cells.{IsCells}
use graph_canon.Partition.Walk.{for_cells_rule}
use graph_canon.PermutedGraph.{Graph}
use graph_canon.TargetCell.Joined.{JoinData, Search, prefer, visit_cell, find_cell, target_cell_flm}

-- Before the cell `c`: no cell that satisfies `pred` has more than one vertex, or one has been found.
abbrev IsFound : Partition → (ℕ → ℕ → Bool) → ℕ → ℕ → ℕ → ℕ → Type 0
IsFound pi pred c result max_size max_joined =
    ((result ≡ pi.n)
      × (max_size ≡ 1)
      × (max_joined ≡ 0)
      × ((d : ℕ)
          → d < c
          → d < pi.n
          → pi.next_cell_begin d ≢ 0
          → (d + 1 ≡ pi.next_cell_begin d) ⊎ (pred d (pi.next_cell_begin d) ≡ false)))
    ⊎ ((result < pi.n) × (pi.next_cell_begin result ≢ 0) × (result + 1 < pi.next_cell_begin result))

prefer_lem :
    (cell_begin cell_end k : ℕ) (s : Search)
    → cell_begin + 1 < cell_end
    → ((prefer cell_begin cell_end k s).result ≡ cell_begin)
      ⊎ ((prefer cell_begin cell_end k s ≡ s) × ((s.max_joined ≢ 0) ⊎ (s.max_size ≢ 1)))
prefer_lem b e k s large = elim (lt-cases s.max_joined k) [
  | inl more ↦ let test : ltb s.max_joined k ≡ true = ground arith in rw test (inl refl)
  | inr le ↦
      let test : ltb s.max_joined k ≡ false = ground arith in
      elim (eq-cases k s.max_joined) [
        | inr ne ↦
            let other : (k == s.max_joined) ≡ false = ground arith in
            rw (test, other) (inr (refl, inl (omega arith)))
        | inl eq ↦
            let same : (k == s.max_joined) ≡ true = ground arith in
            elim (lt-cases s.max_size (e - b)) [
              | inl larger ↦
                  let size : ltb s.max_size (e - b) ≡ true = ground arith in
                  rw (test, same, size) (inl refl)
              | inr smaller ↦
                  let size : ltb s.max_size (e - b) ≡ false = ground arith in
                  rw (test, same, size) (inr (refl, inr (omega arith)))
            ]
      ]
]

module _ {E : Type 0} (g : Graph E) (pi : Partition) (h : IsCells pi) where
  advance :
      (pred : ℕ → ℕ → Bool) (c result max_size max_joined : ℕ)
      → c < pi.n
      → pi.next_cell_begin c ≢ 0
      → (c + 1 ≡ pi.next_cell_begin c) ⊎ (pred c (pi.next_cell_begin c) ≡ false)
      → IsFound pi pred c result max_size max_joined
      → IsFound pi pred (pi.next_cell_begin c) result max_size max_joined
  advance pred c result max_size max_joined l ne passed (inr found) = inr found
  advance pred c result max_size max_joined l ne passed (inl (a, b, e, all)) = inl (
    a,
    b,
    e,
    λ d u v w. elim (lt-cases d c) [
      | inl before ↦ all d before v w
      | inr after ↦
          let here : d ≡ c = ground (arith, h.gap c d) in
          subst (λ z. (z + 1 ≡ pi.next_cell_begin z) ⊎ (pred z (pi.next_cell_begin z) ≡ false))
            (sym here) passed
    ],
  )

  -- The search after a cell that qualifies.
  preferred-IsFound :
      (pred : ℕ → ℕ → Bool) (c k : ℕ) (s : Search)
      → c < pi.n
      → pi.next_cell_begin c ≢ 0
      → c + 1 < pi.next_cell_begin c
      → IsFound pi pred c s.result s.max_size s.max_joined
      → let p = prefer c (pi.next_cell_begin c) k s in
        IsFound pi pred (pi.next_cell_begin c) p.result p.max_size p.max_joined
  preferred-IsFound pred c k s l ne large f = elim (prefer_lem c (pi.next_cell_begin c) k s large) [
    | inl chosen ↦ inr (rw chosen (l, ne, large))
    | inr (same, used) ↦ inr (
        rw same
          (elim f [ inl (a, b, e, all) ↦ absurd (ground (arith, b, e, used)) | inr found ↦ found ]))
  ]

  visit_cell-IsFound :
      (pred : ℕ → ℕ → Bool) (c : ℕ) (s : Search)
      → c < pi.n
      → pi.next_cell_begin c ≢ 0
      → IsFound pi pred c s.result s.max_size s.max_joined
      → IsFound pi pred
          (pi.next_cell_begin c)
          (visit_cell g pi pred c s).result
          (visit_cell g pi pred c s).max_size
          (visit_cell g pi pred c s).max_joined
  visit_cell-IsFound pred c s l ne f = elim (eq-cases (c + 1) (pi.next_cell_begin c)) [
    | inl single ↦
        let test : (c + 1 == pi.next_cell_begin c) ≡ true = ground arith in
        rw test (advance pred c s.result s.max_size s.max_joined l ne (inl single) f)
    | inr large ↦
        let test : (c + 1 == pi.next_cell_begin c) ≡ false = ground arith in
        elim (Bool-cases (pred c (pi.next_cell_begin c))) [
          | inl fits ↦
              rw (test, fits)
                (preferred-IsFound pred c _ s l ne (omega (arith, h.after c l ne, large)) f)
          | inr fails ↦
              rw (test, fails) (advance pred c s.result s.max_size s.max_joined l ne (inr fails) f)
        ]
  ]

  find_cell-IsFound :
      (pred : ℕ → ℕ → Bool) (d : JoinData)
      → (s : Search) × (find_cell g pi pred d ≡ some s)
        × IsFound pi pred pi.n s.result s.max_size s.max_joined
  unfolding find_cell
  find_cell-IsFound pred d =
      for_cells_rule (λ c s. IsFound pi pred c s.result s.max_size s.max_joined) pi
        (visit_cell g pi pred) h (λ c s l ne f. visit_cell-IsFound pred c s l ne f) (pi.n + 1) 0
        (record { join = d; max_size = 1; max_joined = 0; result = pi.n }) (omega arith)
        (ground (arith, h.first)) (inl (refl, refl, refl, λ e u v w. absurd (omega arith)))

  -- On valid cells the selector returns, and gives n if every cell is a single vertex, or else a cell of
  -- more than one vertex.
  pub target_cell_flm-IsTarget :
      (d : JoinData)
      → (s : Search) × (target_cell_flm g pi d ≡ some s)
        × (((s.result ≡ pi.n)
              × ((c : ℕ) → c < pi.n → pi.next_cell_begin c ≢ 0 → c + 1 ≡ pi.next_cell_begin c))
            ⊎ ((s.result < pi.n)
                × (pi.next_cell_begin s.result ≢ 0)
                × (s.result + 1 < pi.next_cell_begin s.result)))
  unfolding target_cell_flm
  target_cell_flm-IsTarget d =
      let two : ℕ → ℕ → Bool = λ cell cell_end. not (cell + 2 == cell_end) in
      let any : ℕ → ℕ → Bool = λ cell cell_end. true in
      let (first, e, f) = find_cell-IsFound two d in
      let (second, e2, f2) = find_cell-IsFound any first.join in
      elim (eq-cases first.result pi.n) [
        | inl none_found ↦
            let test : (first.result == pi.n) ≡ true = ground arith in
            (
              second,
              rw (e, find_cell) (rw test e2),
              elim f2 [
                | inl (a, b, c, all) ↦ inl (a, λ c l ne. ground (arith, all c l l ne))
                | inr found ↦ inr found
              ],
            )
        | inr found_one ↦
            let test : (first.result == pi.n) ≡ false = ground arith in
            (
              first,
              rw (e, find_cell) (rw test refl),
              elim f [ inl (a, b, c, all) ↦ absurd (found_one a) | inr found ↦ inr found ],
            )
      ]

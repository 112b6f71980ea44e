-- ===== src/Refine/Classification.antt =====
-- WL_1.hpp: how the analysis of the refinees classifies one of them.
use graph_canon.Base.{
  ℕ, ◌-◌, ◌*◌, ◌<◌, ◌≤◌, ◌≡◌, ◌≢◌, ◌⊎◌, ◌==◌, ltb, eq-cases, lt-cases, ◌↔◌, inl, inr, refl, arith,
  true, false,
}
use graph_canon.Base.Int.{IntType, FitsProduct, product_lem}
use graph_canon.Refine.{CellData, RefineeCell, RefineeType}
use graph_canon.Refine.CellRefiner.{analyse, is_partitioned}

-- The products of the heuristic do not overflow.
abbrev pub AreProducts : IntType → (ℕ → CellData) → RefineeCell → Type 0
AreProducts t cell_data r =
    FitsProduct t ((cell_data r.first).hit_count * 4) × FitsProduct t (3 * (r.last - r.first))

-- A cell of `size` vertices with the data `d` is partitioned while the edges are looked at again: not all
-- vertices have been hit equally often, and none was hit twice or less than 75 % were hit.
abbrev pub IsPartitioning : ℕ → CellData → Type 0
IsPartitioning size d = (d.max_count ≢ size) × ((d.max ≡ 1) ⊎ (4 * d.hit_count < 3 * size))

-- How a cell of `size` vertices with the data `d` is going to be split, as the data `e` say.
pub record IsClassified (size : ℕ) (d e : CellData) : Type 0 where
  pub equal_hit : d.max_count ≡ size → e.type ≡ RefineeType.equal_hit
  pub unique : d.max_count ≢ size → d.max ≡ 1 → e.type ≡ RefineeType.unique_partitioning
  pub duplicate :
      d.max_count ≢ size
      → d.max ≢ 1
      → 4 * d.hit_count < 3 * size
      → e.type ≡ RefineeType.duplicate_partitioning
  pub sort : d.max_count ≢ size → d.max ≢ 1 → 3 * size ≤ 4 * d.hit_count → e.type ≡ RefineeType.sort
  pub reset : IsPartitioning size d → e.hit_count ≡ 0
  pub kept : ¬ IsPartitioning size d → e.hit_count ≡ d.hit_count
  pub max : e.max ≡ d.max
  pub max_count : e.max_count ≡ d.max_count
  pub non_zero_count : e.non_zero_count ≡ d.non_zero_count
  pub first_non_zero : e.first_non_zero ≡ d.first_non_zero
  pub is_refiner : e.is_refiner ≡ d.is_refiner

-- The analysis of one refinee, and when it asks for a redo.
pub analyse-IsClassified :
    (t : IntType) (size : ℕ) (d : CellData)
    → FitsProduct t (d.hit_count * 4)
    → FitsProduct t (3 * size)
    → IsClassified size d (analyse t size d)
      × ((is_partitioned (analyse t size d).type ≡ false) ↔ (¬ IsPartitioning size d))
unfolding analyse
analyse-IsClassified t size d f g =
    rw (product_lem t d.hit_count 4 f, product_lem t 3 size g)
      (elim (eq-cases d.max_count size) [
        | inl alike ↦
            let test : (d.max_count == size) ≡ true = ground arith in
            rw test (
              record {
                equal_hit = λ e. refl;
                unique = λ ne. absurd (ne alike);
                duplicate = λ ne. absurd (ne alike);
                sort = λ ne. absurd (ne alike);
                reset = λ p. absurd (p.0 alike);
                kept = λ h. refl;
                max = refl;
                max_count = refl;
                non_zero_count = refl;
                first_non_zero = refl;
                is_refiner = refl;
              },
              (λ e p. p.0 alike, λ h. refl),
            )
        | inr differ ↦
            let test : (d.max_count == size) ≡ false = ground arith in
            elim (eq-cases d.max 1) [
              | inl once ↦
                  let test' : (d.max == 1) ≡ true = ground arith in
                  rw (test, test')
                    (
                      record {
                        equal_hit = λ e. absurd (differ e);
                        unique = λ ne e. refl;
                        duplicate = λ ne ne'. absurd (ne' once);
                        sort = λ ne ne'. absurd (ne' once);
                        reset = λ p. refl;
                        kept = λ h. absurd (h (differ, inl once));
                        max = refl;
                        max_count = refl;
                        non_zero_count = refl;
                        first_non_zero = refl;
                        is_refiner = refl;
                      },
                      (λ e. absurd (ground arith), λ h. absurd (h (differ, inl once))),
                    )
              | inr often ↦
                  let test' : (d.max == 1) ≡ false = ground arith in
                  elim (lt-cases (d.hit_count * 4) (3 * size)) [
                    | inl few ↦
                        let test3 : ltb (d.hit_count * 4) (3 * size) ≡ true = ground arith in
                        rw (test, test', test3)
                          (
                            record {
                              equal_hit = λ e. absurd (differ e);
                              unique = λ ne e. absurd (often e);
                              duplicate = λ ne ne' l. refl;
                              sort = λ ne ne' l. absurd (omega arith);
                              reset = λ p. refl;
                              kept = λ h. absurd (h (differ, inr (omega arith)));
                              max = refl;
                              max_count = refl;
                              non_zero_count = refl;
                              first_non_zero = refl;
                              is_refiner = refl;
                            },
                            (
                              λ e. absurd (ground arith),
                              λ h. absurd (h (differ, inr (omega arith))),
                            ),
                          )
                    | inr many ↦
                        let test3 : ltb (d.hit_count * 4) (3 * size) ≡ false = ground arith in
                        rw (test, test', test3)
                          (
                            record {
                              equal_hit = λ e. absurd (differ e);
                              unique = λ ne e. absurd (often e);
                              duplicate = λ ne ne' l. absurd (omega arith);
                              sort = λ ne ne' l. refl;
                              reset =
                                  λ p. absurd (elim p.1 [ inl e ↦ often e | inr l ↦ omega arith ]);
                              kept = λ h. refl;
                              max = refl;
                              max_count = refl;
                              non_zero_count = refl;
                              first_non_zero = refl;
                              is_refiner = refl;
                            },
                            (λ e p. elim p.1 [ inl q ↦ often q | inr l ↦ omega arith ], λ h. refl),
                          )
                  ]
            ]
      ])

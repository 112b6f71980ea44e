-- ===== src/EdgeHandler/AllEqual/Splits.antt =====
-- all_equal.hpp: the split positions are the places where the counter grows.
use graph_canon.Base.{
  ℕ, zero, suc, ◌+◌, ◌-◌, ◌≤◌, ◌<◌, ◌≡◌, ◌⊎◌, ◌↔◌, true, false, Array, ◌==◌, ltb, ◌^◌, arith, refl,
  inl, inr, eq-cases, lt-cases, IsIn, sym, ap, ◌∙◌,
}
use graph_canon.Base.Int.{IntType, equals_int_lem}
use graph_canon.Partition.{Partition, get}
use graph_canon.Partition.Split.{AreSplits}
use graph_canon.SortingUtils.Counting.{starts}
use graph_canon.SortingUtils.Counting.Buckets.{AreEnds, end-le_start, starts-le, end-le, bucket_of}
use graph_canon.EdgeHandler.AllEqual.{push_splits, scan_splits}

-- Position `x` is one after the first of the range, and its element has a larger counter than the one
-- before.
abbrev pub IsGrowth : (ℕ → ℕ) → ℕ → ℕ → ℕ → Type 0
IsGrowth value first last x = (first < x) × (x < last) × (value (x - 1) < value x)

-- The loop that compares neighbours.
pub scan_splits_iff :
    (counters : Array) (pi : Partition) (i rounds x : ℕ)
    → 1 ≤ i
    → IsIn x (scan_splits counters pi i rounds)
      ↔ ((i ≤ x) × (x < i + rounds) × (counters (get pi (x - 1)) < counters (get pi x)))
unfolding scan_splits
scan_splits_iff counters pi i zero x pos = (λ a. absurd a, λ h. absurd (omega (arith, h)))
scan_splits_iff counters pi i (suc rounds) x pos =
    ground (arith, scan_splits_iff counters pi (i + 1) rounds x, eq-cases x i)

-- It appends them in ascending order.
pub scan_splits-AreSplits :
    (counters : Array) (pi : Partition) (lo i rounds hi : ℕ)
    → lo < i
    → i + rounds ≡ hi
    → AreSplits lo hi (scan_splits counters pi i rounds)
unfolding scan_splits
scan_splits-AreSplits counters pi lo i zero hi l e = tt
scan_splits-AreSplits counters pi lo i (suc rounds) hi l e =
    elim (lt-cases (counters (get pi (i - 1))) (counters (get pi i))) [
      | inl lt ↦
          let test : ltb (counters (get pi (i - 1))) (counters (get pi i)) ≡ true = ground arith in
          rw test (
            l,
            omega arith,
            scan_splits-AreSplits counters pi i (i + 1) rounds hi (omega arith) (omega arith),
          )
      | inr ge ↦
          let test : ltb (counters (get pi (i - 1))) (counters (get pi i)) ≡ false = ground arith in
          rw test
            (scan_splits-AreSplits counters pi lo (i + 1) rounds hi (omega arith) (omega arith))
    ]

-- Position `x` is the end of a bucket that is not empty and not the last one.
abbrev IsBucketEnd : ℕ → ℕ → ℕ → Array → ℕ → ℕ → Type 0
IsBucketEnd max first n e i x =
    (j : ℕ) × (i ≤ j) × (j < max) × (e j < n) × (starts e j < e j) × (x ≡ first + e j)

module _ (t : IntType) (max n : ℕ) (c : ℕ → ℕ) (e : Array) (h : AreEnds max n c e)
    (fits : n ≤ 2 ^ 31) where
  push_splits_iff :
      (first rounds i prev x : ℕ)
      → i + rounds ≡ max
      → prev ≡ starts e i
      → IsIn x (push_splits t first n e rounds i prev) ↔ IsBucketEnd max first n e i x
  unfolding push_splits
  push_splits_iff first zero i prev x shape p =
      (λ a. absurd a, λ b. absurd (omega (arith, b.1, b.2)))
  push_splits_iff first (suc rounds) i prev x shape p =
      let rest = push_splits_iff first rounds (i + 1) (e i) x (omega arith) (ground arith) in
      let li : i < max = omega arith in
      let le = starts-le max n c e h i li in
      let high = end-le max n c e h i li in
      let skip : (e i ≡ n) ⊎ (e i ≡ starts e i)
          → IsBucketEnd max first n e i x
          → IsBucketEnd max first n e (i + 1) x =
        λ why b. (
          b.0,
          elim (eq-cases i b.0) [
            | inl same ↦ ground (arith, ap e same, ap (starts e) same)
            | inr ne ↦ omega (arith, b.1, ne)
          ],
          b.2,
          b.3,
          b.4,
          b.5,
        ) in
      let later : IsBucketEnd max first n e (i + 1) x → IsBucketEnd max first n e i x =
        λ b. (b.0, omega (arith, b.1), b.2, b.3, b.4, b.5) in
      elim (eq-cases (e i) n) [
        | inl last ↦
            let test : (e i == n) ≡ true = ground arith in
            rw test (
              λ a. absurd a,
              λ b.
                  let b' = skip (inl last) b in
                  let before = end-le_start max n c e h i b'.0 (omega (arith, b'.1)) b'.2 in
                  let le' = starts-le max n c e h b'.0 b'.2 in
                  absurd (omega (arith, before, b'.3, le', last)),
            )
        | inr more ↦
            let test : (e i == n) ≡ false = ground arith in
            let as_int = equals_int_lem t (e i) prev (omega arith) in
            elim (eq-cases (e i) prev) [
              | inl empty ↦
                  let test' : (e i == prev) ≡ true = ground arith in
                  rw (test, as_int, test')
                    (λ a. later (rest.0 a), λ b. rest.1 (skip (inr (empty ∙ p)) b))
              | inr filled ↦
                  let test' : (e i == prev) ≡ false = ground arith in
                  rw (test, as_int, test')
                    (
                      λ a. elim a [
                        | inl here ↦
                            (i, omega arith, li, omega arith, omega (arith, filled, p, le), here)
                        | inr a' ↦ later (rest.0 a')
                      ],
                      λ b. elim (eq-cases i b.0) [
                        | inl same ↦ inl (b.5 ∙ ap (λ z. first + e z) (sym same))
                        | inr ne ↦ inr (rest.1 (b.0, omega (arith, b.1, ne), b.2, b.3, b.4, b.5))
                      ],
                    )
            ]
      ]

  -- The ends are appended in ascending order, each once.
  pub push_splits-AreSplits :
      (first lo rounds i prev : ℕ)
      → i + rounds ≡ max
      → prev ≡ starts e i
      → lo ≤ first + prev
      → AreSplits lo (first + n) (push_splits t first n e rounds i prev)
  unfolding push_splits
  push_splits-AreSplits first lo zero i prev shape p l = tt
  push_splits-AreSplits first lo (suc rounds) i prev shape p l =
      let li : i < max = omega arith in
      let le = starts-le max n c e h i li in
      let high = end-le max n c e h i li in
      let next : e i ≡ starts e (i + 1) = ground arith in
      elim (eq-cases (e i) n) [
        | inl last ↦ let test : (e i == n) ≡ true = ground arith in rw test tt
        | inr more ↦
            let test : (e i == n) ≡ false = ground arith in
            let as_int = equals_int_lem t (e i) prev (omega arith) in
            elim (eq-cases (e i) prev) [
              | inl empty ↦
                  let test' : (e i == prev) ≡ true = ground arith in
                  rw (test, as_int, test')
                    (push_splits-AreSplits first lo rounds (i + 1) (e i) (omega arith) next
                      (omega arith))
              | inr filled ↦
                  let test' : (e i == prev) ≡ false = ground arith in
                  rw (test, as_int, test')
                    (
                      omega (arith, filled, p, le),
                      omega arith,
                      push_splits-AreSplits first (first + e i) rounds (i + 1) (e i) (omega arith)
                          next (omega arith),
                    )
            ]
      ]

  -- On a range sorted into buckets the ends of the buckets are where the value grows.
  pub push_splits-IsGrowth :
      (value : ℕ → ℕ) (first x : ℕ)
      → ((j i : ℕ) → j < max → starts e j ≤ i → i < e j → value (first + i) ≡ j)
      → IsIn x (push_splits t first n e max 0 0) ↔ IsGrowth value first (first + n) x
  push_splits-IsGrowth value first x v =
      let all = push_splits_iff first max 0 0 x (omega arith) refl in
      (
        λ a.
            let (j, lo, lj, lt, fill, at) = all.0 a in
            let (b, lb, from, to) = bucket_of max n c e h (e j) lt in
            let one = v j (e j - 1) lj (omega arith) (omega arith) in
            let two = v b (e j) lb from to in
            let later : j < b = elim (lt-cases j b) [
              | inl l ↦ l
              | inr ge ↦ elim (eq-cases j b) [
                | inl same ↦ absurd (omega (arith, to, ap e same))
                | inr ne ↦
                    let up = end-le_start max n c e h b j (omega arith) lj in absurd (omega arith)
              ]
            ] in
            let shape : x - 1 ≡ first + (e j - 1) = omega arith in
            (omega arith, omega arith, omega (arith, ap value at, ap value shape, one, two, later)),
        λ (lo, hi, grows).
            let y = x - 1 - first in
            let (b, lb, from, to) = bucket_of max n c e h y (omega arith) in
            let one : value (x - 1) ≡ b = ap value (omega arith) ∙ v b y lb from to in
            let end : x ≡ first + e b = elim (lt-cases (x - first) (e b)) [
              | inr le ↦ omega arith
              | inl lt ↦
                  let two : value x ≡ b =
                    ap value (omega arith) ∙ v b (x - first) lb (omega arith) lt in
                  absurd (omega (arith, one, two, grows))
            ] in
            all.1 (b, omega arith, lb, omega arith, omega arith, end),
      )

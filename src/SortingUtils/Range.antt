-- ===== src/SortingUtils/Range.antt =====
-- sorting_utils.hpp: partition_range ends, and separates the range by the predicate using swaps only.
use graph_canon.Base.{
  ℕ, zero, suc, ◌+◌, ◌-◌, ◌≤◌, ◌<◌, ◌≡◌, ◌⊎◌, inl, inr, refl, arith, some, Bool, ◌==◌,
  if◌then◌else◌, true, false, eq-cases,
}
use graph_canon.SortingUtils.{skip_front, skip_back, partition_loop, partition_range}

-- The documented requirement: `swapper(a, b)` swaps the values that the iterators represent.
abbrev pub IsSwapper {ℓ} : {S : Type ℓ} → (S → ℕ → ℕ) → (ℕ → ℕ → S → S) → Type ℓ
IsSwapper {S} read swapper =
    (a b i : ℕ) (s : S)
    → read (swapper a b s) i ≡ (if i == a then read s b else if i == b then read s a else read s i)

-- `t` comes from `s` by swaps of positions in `[first, last)`.
pub data Swaps {ℓ} {S : Type ℓ} (swapper : ℕ → ℕ → S → S) (first last : ℕ) : S → S → Type ℓ where
  none_left : {s : S} → Swaps swapper first last s s
  swap_one :
      {s t : S} (a b : ℕ)
      → first ≤ a
      → a < last
      → first ≤ b
      → b < last
      → Swaps swapper first last (swapper a b s) t
      → Swaps swapper first last s t

module _ {ℓ} {S : Type ℓ} (read : S → ℕ → ℕ) (pred : ℕ → Bool) (swapper : ℕ → ℕ → S → S) where
  skip_front_lem :
      (s : S) (first rounds : ℕ)
      → (first ≤ skip_front read pred swapper s first rounds)
        × (skip_front read pred swapper s first rounds ≤ first + rounds)
        × ((i : ℕ)
            → first ≤ i
            → i < skip_front read pred swapper s first rounds
            → pred (read s i) ≡ true)
        × ((skip_front read pred swapper s first rounds ≡ first + rounds)
            ⊎ (pred (read s (skip_front read pred swapper s first rounds)) ≡ false))
  unfolding skip_front
  skip_front_lem s first zero =
      (omega arith, omega arith, λ i a b. absurd (omega arith), inl (omega arith))
  skip_front_lem s first (suc rounds) =
      let h = skip_front_lem s (first + 1) rounds in
      (
        ground (arith, h.0),
        ground (arith, h.1),
        λ i a b. ground (arith, h.2 i, eq-cases i first),
        ground (arith, h.3),
      )

  skip_back_lem :
      (s : S) (first rounds : ℕ)
      → (first ≤ skip_back read pred swapper s first rounds)
        × (skip_back read pred swapper s first rounds ≤ first + rounds)
        × ((i : ℕ)
            → skip_back read pred swapper s first rounds < i
            → i ≤ first + rounds
            → pred (read s i) ≡ false)
        × ((skip_back read pred swapper s first rounds ≡ first)
            ⊎ (pred (read s (skip_back read pred swapper s first rounds)) ≡ true))
  unfolding skip_back
  skip_back_lem s first zero = (omega arith, omega arith, λ i a b. absurd (omega arith), inl refl)
  skip_back_lem s first (suc rounds) =
      let h = skip_back_lem s first rounds in
      (
        ground (arith, h.0),
        ground (arith, h.1),
        λ i a b. ground (arith, h.2 i, eq-cases i (first + suc rounds)),
        ground (arith, h.3),
      )

-- The range `[first, last)` of `t` holds first the elements that pass, up to `mid`, then the others.
pub record IsPartitioned {ℓ} {S : Type ℓ} (read : S → ℕ → ℕ) (pred : ℕ → Bool) (first last mid : ℕ)
    (t : S) : Type 0 where
  pub lower : first ≤ mid
  pub upper : mid ≤ last
  pub passing : (i : ℕ) → first ≤ i → i < mid → pred (read t i) ≡ true
  pub failing : (i : ℕ) → mid ≤ i → i < last → pred (read t i) ≡ false

module _ {ℓ} {S : Type ℓ} (read : S → ℕ → ℕ) (pred : ℕ → Bool) (swapper : ℕ → ℕ → S → S)
    (swaps : IsSwapper read swapper) where
  Swaps-outside :
      {first last : ℕ} {s t : S}
      → Swaps swapper first last s t
      → (i : ℕ) → (i < first) ⊎ (last ≤ i)
      → read t i ≡ read s i
  Swaps-outside none_left i o = refl
  Swaps-outside (swap_one {s} a b la ua lb ub rest) i o =
      ground (arith, Swaps-outside rest i o, swaps a b i s)

  Swaps-widen :
      {first last lo hi : ℕ} {s t : S}
      → lo ≤ first
      → last ≤ hi
      → Swaps swapper first last s t
      → Swaps swapper lo hi s t
  Swaps-widen l u none_left = none_left
  Swaps-widen l u (swap_one a b la ua lb ub rest) =
      swap_one a b (omega arith) (omega arith) (omega arith) (omega arith) (Swaps-widen l u rest)

  partition_loop_lem :
      (fuel first last : ℕ) (s : S)
      → first ≤ last
      → last < first + fuel
      → (mid : ℕ) × (t : S) × (partition_loop read pred swapper fuel first last s ≡ some (mid, t))
        × IsPartitioned read pred first last mid t
        × Swaps swapper first last s t
  unfolding partition_loop
  partition_loop_lem zero first last s le f = absurd (omega arith)
  partition_loop_lem (suc fuel) first last s le f =
      let front = skip_front read pred swapper s first (last - first) in
      let back = skip_back read pred swapper s front (last - 1 - front) in
      let hf = skip_front_lem read pred swapper s first (last - first) in
      let hb = skip_back_lem read pred swapper s front (last - 1 - front) in
      elim (eq-cases front last) [
        | inl e ↦ (
          front,
          s,
          ground arith,
          record {
            lower = hf.0;
            upper = omega arith;
            passing = hf.2;
            failing = λ i a b. absurd (omega arith);
          },
          none_left,
        )
        | inr ne ↦ elim (eq-cases front back) [
          | inl e ↦ (
            front,
            s,
            ground arith,
            record {
              lower = hf.0;
              upper = omega arith;
              passing = hf.2;
              failing = λ i a b. ground (arith, hf.3, hb.2 i, eq-cases i front);
            },
            none_left,
          )
          | inr more ↦
              let (mid, t, e, p, w) =
                partition_loop_lem fuel (front + 1) back (swapper front back s) (omega arith)
                  (omega arith) in
              (
                mid,
                t,
                ground (arith, e),
                record {
                  lower = omega (arith, p.lower);
                  upper = omega (arith, p.upper);
                  passing = λ i a b. ground (
                    arith,
                    hf.2 i,
                    hb.3,
                    p.passing i,
                    Swaps-outside w i,
                    swaps front back i s,
                    eq-cases i front,
                  );
                  failing = λ i a b. ground (
                    arith,
                    hb.2 i,
                    hf.3,
                    p.failing i,
                    Swaps-outside w i,
                    swaps front back i s,
                    eq-cases i back,
                  );
                },
                swap_one front back (omega arith) (omega arith) (omega arith) (omega arith)
                    (Swaps-widen (omega arith) (omega arith) w),
              )
        ]
      ]

  -- With a swapper that swaps, the call returns, for a range of any length: it returns a position up to
  -- which the range passes the predicate and from which it fails it. The elements of the range are
  -- rearranged by swaps within it, and no other element changes.
  pub partition_range-partitions :
      (first last : ℕ) (s : S)
      → first ≤ last
      → (mid : ℕ) × (t : S) × (partition_range read pred swapper first last s ≡ some (mid, t))
        × IsPartitioned read pred first last mid t
        × Swaps swapper first last s t
        × ((i : ℕ) → (i < first) ⊎ (last ≤ i) → read t i ≡ read s i)
  unfolding partition_range
  partition_range-partitions first last s le =
      let (mid, t, e, p, w) = partition_loop_lem (last - first + 1) first last s le (omega arith) in
      (mid, t, e, p, w, Swaps-outside w)

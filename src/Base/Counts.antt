-- ===== src/Base/Counts.antt =====
-- How many numbers below a bound pass a test.
use Prim.Native.Nat.{ℕ, zero, suc, ◌+◌, ◌≤◌, ◌<◌}
use mathlib.Core.Path.{◌≡◌, refl}
use mathlib.Core.Logic.{◌≢◌, ◌⊎◌, inl, inr}
use mathlib.Core.Bool.{Bool, true, false}
use native.Mathlib.Omega.{arith}
use graph_canon.Base.Tests.{if◌then◌else◌, ◌==◌, eq-cases, lt-cases}

-- How many numbers below `n` pass the test.
pub count_below : ℕ → (ℕ → Bool) → ℕ
count_below zero p = 0
count_below (suc n) p = (if p n then 1 else 0) + count_below n p

pub count_below-congr :
    (n : ℕ) (p q : ℕ → Bool) → ((i : ℕ) → i < n → p i ≡ q i) → count_below n p ≡ count_below n q
unfolding count_below
count_below-congr zero p q h = refl
count_below-congr (suc n) p q h =
    ground (arith, h n, count_below-congr n p q (λ i l. h i (omega arith)))

pub count_below-none :
    (n : ℕ) (p : ℕ → Bool) → ((i : ℕ) → i < n → p i ≡ false) → count_below n p ≡ 0
unfolding count_below
count_below-none zero p h = refl
count_below-none (suc n) p h = ground (arith, h n, count_below-none n p (λ i l. h i (omega arith)))

-- One more number passes.
pub count_below-insert :
    (n k : ℕ) (p q : ℕ → Bool)
    → k < n
    → p k ≡ false
    → q k ≡ true
    → ((i : ℕ) → i < n → i ≢ k → q i ≡ p i)
    → count_below n q ≡ suc (count_below n p)
unfolding count_below
count_below-insert zero k p q l a b h = absurd (omega arith)
count_below-insert (suc n) k p q l a b h = elim (eq-cases k n) [
  | inl last ↦ ground (arith, count_below-congr n q p (λ i m. h i (omega arith) (omega arith)))
  | inr other ↦
      ground (arith, h n, count_below-insert n k p q (omega arith) a b (λ i m. h i (omega arith)))
]

pub count_below-le : (n : ℕ) (p : ℕ → Bool) → count_below n p ≤ n
unfolding count_below
count_below-le zero p = omega arith
count_below-le (suc n) p = ground (arith, count_below-le n p)

pub count_below-full : (n : ℕ) (p : ℕ → Bool) (i : ℕ) → count_below n p ≡ n → i < n → p i ≡ true
unfolding count_below
count_below-full zero p i e l = absurd (omega arith)
count_below-full (suc n) p i e l =
    ground (arith, count_below-le n p, count_below-full n p i, eq-cases i n)

pub count_below-all : (n : ℕ) (p : ℕ → Bool) → ((i : ℕ) → i < n → p i ≡ true) → count_below n p ≡ n
unfolding count_below
count_below-all zero p h = refl
count_below-all (suc n) p h = ground (arith, h n, count_below-all n p (λ i l. h i (omega arith)))

pub pos-count_below : (n : ℕ) (p : ℕ → Bool) (i : ℕ) → i < n → p i ≡ true → 1 ≤ count_below n p
unfolding count_below
pos-count_below zero p i l e = absurd (omega arith)
pos-count_below (suc n) p i l e = ground (arith, eq-cases i n, pos-count_below n p i)

pub count_below-two :
    (n : ℕ) (p : ℕ → Bool) (i j : ℕ)
    → i < n
    → j < n
    → i ≢ j
    → p i ≡ true
    → p j ≡ true
    → 2 ≤ count_below n p
unfolding count_below
count_below-two zero p i j l m ne a b = absurd (omega arith)
count_below-two (suc n) p i j l m ne a b = ground (
  arith,
  eq-cases i n,
  eq-cases j n,
  pos-count_below n p i,
  pos-count_below n p j,
  count_below-two n p i j,
)

pub count_below-zero : (p : ℕ → Bool) → count_below 0 p ≡ 0
unfolding count_below
count_below-zero p = refl

pub count_below-last :
    (n : ℕ) (p : ℕ → Bool) → p n ≡ true → count_below (suc n) p ≡ count_below n p + 1
unfolding count_below
count_below-last n p e = ground arith

pub count_below-not_last :
    (n : ℕ) (p : ℕ → Bool) → p n ≡ false → count_below (suc n) p ≡ count_below n p
unfolding count_below
count_below-not_last n p e = ground arith

-- One test is replaced.
pub count_below-update :
    (n k : ℕ) (p q : ℕ → Bool)
    → k < n
    → ((i : ℕ) → i < n → i ≢ k → q i ≡ p i)
    → count_below n q + (if p k then 1 else 0) ≡ count_below n p + (if q k then 1 else 0)
unfolding count_below
count_below-update zero k p q l h = absurd (omega arith)
count_below-update (suc n) k p q l h = elim (eq-cases k n) [
  | inl last ↦ ground (arith, count_below-congr n q p (λ i m. h i (omega arith) (omega arith)))
  | inr other ↦
      ground (arith, h n, count_below-update n k p q (omega arith) (λ i m. h i (omega arith)))
]

-- Two positions exchange what they hold.
pub count_below-swap :
    (n h l : ℕ) (p q : ℕ → Bool)
    → h < n
    → l < n
    → q h ≡ p l
    → q l ≡ p h
    → ((i : ℕ) → i < n → i ≢ h → i ≢ l → q i ≡ p i)
    → count_below n q ≡ count_below n p
count_below-swap n h l p q lh ll a b c = elim (eq-cases h l) [
  | inl e ↦ count_below-congr n q p (λ i m. ground (arith, c i))
  | inr ne ↦
      let r : ℕ → Bool = λ i. if i == h then q h else p i in
      let first = count_below-update n h p r lh (λ i m d. ground arith) in
      let second = count_below-update n l r q ll (λ i m d. ground (arith, c i)) in
      ground (arith, first, second)
]

-- All of an interval pass.
pub count_below-interval :
    (n a b : ℕ) (p : ℕ → Bool)
    → b ≤ n
    → ((i : ℕ) → a ≤ i → i < b → p i ≡ true)
    → b ≤ a + count_below n p
unfolding count_below
count_below-interval zero a b p l h = omega arith
count_below-interval (suc n) a b p l h = elim (eq-cases b (suc n)) [
  | inr below ↦ ground (arith, count_below-interval n a b p (omega arith) h)
  | inl full ↦
      ground (arith, h n, count_below-interval n a n p (omega arith) (λ i m u. h i m (omega arith)))
]

-- All of an interval pass, and one outside of it.
pub count_below-beside :
    (n a b k : ℕ) (p : ℕ → Bool)
    → b ≤ n
    → k < n
    → (k < a) ⊎ (b ≤ k)
    → ((i : ℕ) → a ≤ i → i < b → p i ≡ true)
    → p k ≡ true
    → suc b ≤ a + count_below n p
unfolding count_below
count_below-beside zero a b k p l m o h e = absurd (omega arith)
count_below-beside (suc n) a b k p l m o h e = elim (eq-cases k n) [
  | inl last ↦ ground (arith, count_below-interval n a b p)
  | inr other ↦ elim (eq-cases b (suc n)) [
    | inr below ↦ ground (arith, count_below-beside n a b k p)
    | inl full ↦ elim (lt-cases n a) [
      | inl empty ↦ ground (arith, pos-count_below n p k)
      | inr le ↦ ground (
        arith,
        h n,
        count_below-beside n a n k p (omega arith) (omega arith) (ground arith)
            (λ i u v. h i u (omega arith)) e,
      )
    ]
  ]
]

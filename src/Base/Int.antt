-- ===== src/Base/Int.antt =====
-- Signed results, and what C++ makes of the difference of two values of an integer type.
use Prim.Native.Nat.{ℕ, zero, suc, ◌+◌, ◌-◌, ◌*◌, ◌%◌, ◌^◌, ◌≤◌, ◌<◌}
use mathlib.Core.Bool.{Bool, true, false, ◌&&◌, not}
use mathlib.Core.Path.{◌≡◌, refl, ap, ◌∙◌, sym}
use mathlib.Core.Logic.{◌⊎◌, inl, inr, ◌≢◌}
use native.Mathlib.Omega.{arith}
use native.Mathlib.Nat.{mod-eq_of_lt, add-mod_right, mod-lt, pow-suc}
use graph_canon.Base.Tests.{lt-cases, ltb, leb, ◌==◌, if◌then◌else◌}

-- `negsuc n` is -(n + 1).
pub data ℤ : Type 0 where
  pos : ℕ → ℤ
  negsuc : ℕ → ℤ

abbrev pub sub_ℕ : ℕ → ℕ → ℤ
sub_ℕ a b = if leb b a then pos (a - b) else negsuc (b - a - 1)

abbrev pub is_negative : ℤ → Bool
is_negative (pos n) = false
is_negative (negsuc n) = true

abbrev pub is_zero : ℤ → Bool
is_zero (pos n) = n == 0
is_zero (negsuc n) = false

-- The integer types that the parameter `SizeType` may be.
pub record IntType : Type 0 where
  pub bits : ℕ
  pub is_signed : Bool

-- `static_cast<long long>(a - b)` for values `a` and `b` of the type: a type narrower than the 32 bits
-- of `int` is promoted to it, an unsigned one wraps around, and the conversion to 64 bits follows.
pub difference : IntType → ℕ → ℕ → ℤ
difference t a b =
    let wrapped = (a + 2 ^ t.bits - b) % 2 ^ t.bits in
    let converted = if ltb wrapped (2 ^ 63) then pos wrapped else negsuc (2 ^ 64 - wrapped - 1) in
    if not t.is_signed && leb 32 t.bits then converted else sub_ℕ a b

wrapped-ne-zero : (m a b : ℕ) → a < m → b < m → a ≢ b → (a + m - b) % m ≢ 0
wrapped-ne-zero m a b ha hb ne e = elim (lt-cases a b) [
  | inl lt ↦ let small : a + m - b < m = omega arith in omega (arith, sym (mod-eq_of_lt small) ∙ e)
  | inr le ↦
      let shape : a + m - b ≡ (a - b) + m = omega arith in
      let small : a - b < m = omega arith in
      let value = ap (λ x. x % m) shape ∙ add-mod_right (a - b) m ∙ mod-eq_of_lt small in
      omega (arith, sym value ∙ e)
]

-- On values that the type can hold the difference is 0 only of equal values.
pub difference-eq-zero :
    (t : IntType) (a b : ℕ) → a < 2 ^ t.bits → b < 2 ^ t.bits → difference t a b ≡ pos 0 → a ≡ b
unfolding difference
difference-eq-zero t a b ha hb e = ground (arith, wrapped-ne-zero (2 ^ t.bits) a b ha hb)

abbrev pub is_positive : ℤ → Bool
is_positive (pos n) = not (n == 0)
is_positive (negsuc n) = false

pow-two-pos : (n : ℕ) → 0 < 2 ^ n
pow-two-pos zero = omega arith
pow-two-pos (suc n) = omega (arith, pow-suc 2 n, pow-two-pos n)

-- In an unsigned type of 32 to 63 bits the converted difference is never negative.
pub difference-unsigned :
    (t : IntType) (a b : ℕ)
    → t.is_signed ≡ false
    → 32 ≤ t.bits
    → 2 ^ t.bits ≤ 2 ^ 63
    → is_negative (difference t a b) ≡ false
unfolding difference
difference-unsigned t a b u lo hi = ground (arith, mod-lt (a + 2 ^ t.bits - b) (pow-two-pos t.bits))

-- A type in which differences of values below 2^63 keep their sign: signed, or narrower than `int`, or
-- of 64 bits.
abbrev pub IsExact : IntType → Type 0
IsExact t = (t.is_signed ≡ true) ⊎ (t.bits < 32) ⊎ (t.bits ≡ 64)

pub difference-exact :
    (t : IntType) (a b : ℕ) → IsExact t → a < 2 ^ 63 → b < 2 ^ 63 → difference t a b ≡ sub_ℕ a b
unfolding difference
difference-exact t a b (inl signed) ha hb = ground arith
difference-exact t a b (inr (inl narrow)) ha hb = ground arith
difference-exact t a b (inr (inr e)) ha hb = rw e (ground arith)

pub is_zero_lem : (z : ℤ) → is_zero z ≡ true → z ≡ pos 0
is_zero_lem z e = ground arith

-- `a == prev` for a value `a` of the type and an `int prev` to which the value `x` of the type was
-- assigned: `prev` has the low 32 bits of `x`, and a negative one becomes, for an unsigned type, the
-- value with the same remainder.
unfoldable pub equals_int : IntType → ℕ → ℕ → Bool
equals_int t a x =
    let low = x % 2 ^ 32 in
    if ltb low (2 ^ 31)
    then a == low
    else if t.is_signed
    then false
    else a == low + 2 ^ t.bits - 2 ^ 32

-- An `int` keeps a value below 2^31.
pub equals_int_lem : (t : IntType) (a x : ℕ) → x < 2 ^ 31 → equals_int t a x ≡ (a == x)
unfolding equals_int
equals_int_lem t a x l =
    let same : x % 2 ^ 32 ≡ x = omega arith in
    let test : ltb x (2 ^ 31) ≡ true = ground arith in rw (same, test) refl

-- `a * b` in the type: a narrower type than `int` is promoted, where the product of a count with 3 or 4
-- fits, and the others wrap around (where a signed one would overflow, which is undefined).
unfoldable pub product : IntType → ℕ → ℕ → ℕ
product t a b = if leb 32 t.bits then a * b % 2 ^ t.bits else a * b

-- The type, or `int` for a narrower one, has the value `x`.
abbrev pub FitsProduct : IntType → ℕ → Type 0
FitsProduct t x =
    (t.bits < 32)
    ⊎ ((t.is_signed ≡ true) × (2 * x < 2 ^ t.bits))
    ⊎ ((t.is_signed ≡ false) × (x < 2 ^ t.bits))

pub product_lem : (t : IntType) (a b : ℕ) → FitsProduct t (a * b) → product t a b ≡ a * b
unfolding product
product_lem t a b h = elim (lt-cases t.bits 32) [
  | inl lt ↦ let test : leb 32 t.bits ≡ false = ground arith in rw test refl
  | inr ge ↦
      let test : leb 32 t.bits ≡ true = ground arith in
      let small : a * b < 2 ^ t.bits = elim h [
        | inl l ↦ absurd (omega arith)
        | inr (inl (e, l)) ↦ omega (arith, l)
        | inr (inr (e, l)) ↦ l
      ] in
      rw test (mod-eq_of_lt small)
]

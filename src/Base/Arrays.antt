-- ===== src/Base/Arrays.antt =====
-- Arrays behind a raw pointer (`new SizeType[n]`): the pointer carries no size, so an array is the
-- function from an index to what is stored there.
use Prim.Native.Nat.{ℕ}
use graph_canon.Base.Tests.{ltb, ◌==◌, if◌then◌else◌}

abbrev pub Array : Type 0
Array = ℕ → ℕ

-- `a[i] = v`
abbrev pub update {ℓ} : {A : Type ℓ} → (ℕ → A) → ℕ → A → ℕ → A
update a i v j = if i == j then v else a j

-- `std::fill(a, a + n, v)`
abbrev pub fill {ℓ} : {A : Type ℓ} → ℕ → A → (ℕ → A) → ℕ → A
fill n v a i = if ltb i n then v else a i

-- `std::copy(a, a + n, b)`: what `b` holds afterwards
abbrev pub copy {ℓ} : {A : Type ℓ} → ℕ → (ℕ → A) → (ℕ → A) → ℕ → A
copy n a b i = if ltb i n then a i else b i

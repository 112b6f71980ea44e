-- ===== src/Base/Loops.antt =====
-- Counted loops with one invariant rule.
use Prim.Native.Nat.{ℕ, zero, suc, ◌+◌, ◌≤◌, ◌<◌}
use mathlib.Core.Path.{◌≡◌, ap, ◌∙◌, sym}
use mathlib.Core.Logic.{◌≢◌, inl, inr}
use native.Mathlib.Omega.{arith}
use graph_canon.Base.Arrays.{update}
use graph_canon.Base.Tests.{eq-cases}

-- `for(i = first; i != first + rounds; ++i) s = body(i, s)`
unfoldable pub for_up {ℓ} : {S : Type ℓ} → (ℕ → S → S) → ℕ → ℕ → S → S
for_up body first zero s = s
for_up body first (suc rounds) s = for_up body (first + 1) rounds (body first s)

-- What every round keeps, from index `i` to the next, holds at the end.
pub for_up_inv {ℓ κ} :
    {S : Type ℓ} (P : ℕ → S → Type κ) (body : ℕ → S → S) (last first rounds : ℕ) (s : S)
    → first + rounds ≡ last
    → ((i : ℕ) (t : S) → first ≤ i → i < last → P i t → P (i + 1) (body i t))
    → P first s
    → P last (for_up body first rounds s)
unfolding for_up
for_up_inv P body last first zero s e keep h = let end : first ≡ last = omega arith in rw (← end) h
for_up_inv P body last first (suc rounds) s e keep h =
    for_up_inv P body last (first + 1) rounds (body first s) (omega arith)
      (λ i t a b. keep i t (omega arith) b) (keep first s (omega arith) (omega arith) h)

pub update_self {ℓ} : {A : Type ℓ} (a : ℕ → A) (i : ℕ) (v : A) → update a i v i ≡ v
update_self a i v = ground arith

pub update_ne {ℓ} : {A : Type ℓ} (a : ℕ → A) (i j : ℕ) (v : A) → i ≢ j → update a i v j ≡ a j
update_ne a i j v h = ground arith

-- A loop that writes `value(i)` at `key(i)` in round `i`, for distinct keys.
pub for_up-update {ℓ} :
    {A : Type ℓ} (key : ℕ → ℕ) (value : ℕ → A) (n : ℕ) (raw : ℕ → A)
    → ((i j : ℕ) → i < n → j < n → key i ≡ key j → i ≡ j)
    → (i : ℕ) → i < n
    → for_up (λ k a. update a (key k) (value k)) 0 n raw (key i) ≡ value i
for_up-update key value n raw distinct =
    for_up_inv (λ k a. (i : ℕ) → i < k → a (key i) ≡ value i) (λ k a. update a (key k) (value k)) n
      0 n raw (omega arith)
      (λ k a l u ih i m. elim (eq-cases i k) [
        | inl e ↦
            ap (λ x. update a (key k) (value k) (key x)) e
            ∙ update_self a (key k) (value k)
            ∙ ap value (sym e)
        | inr ne ↦
            update_ne a (key k) (key i) (value k) (λ e. ne (sym (distinct k i u (omega arith) e)))
            ∙ ih i (omega arith)
      ])
      (λ i l. absurd (omega arith))

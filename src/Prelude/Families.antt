-- ===== src/Prelude/Families.antt =====
-- A family of values, one for each thread: the update at one index, and the sum over the first `n`.
use Prim.Native.Nat.{ℕ, zero, suc, ◌+◌, ◌*◌, ◌≤◌, ◌<◌}
use mathlib.Core.Path.{◌≡◌, refl}
use mathlib.Core.Logic.{ite}
use native.Mathlib.Decide.{dec_lt, ℕ_discrete}
use native.Mathlib.Omega.{arith}

module _ {ℓ} {A : Type ℓ} where
  abbrev pub update : (ℕ → A) → ℕ → A → ℕ → A
  update f i a j = ite (ℕ_discrete i j) a (f j)

  pub total : (A → ℕ) → ℕ → (ℕ → A) → ℕ
  total w zero f = 0
  total w (suc n) f = total w n f + w (f n)

  total-update_above :
      (w : A → ℕ) (n : ℕ) (f : ℕ → A) (i : ℕ) (a : A)
      → n ≤ i
      → total w n (update f i a) ≡ total w n f
  unfolding total
  total-update_above w zero f i a h = refl
  total-update_above w (suc n) f i a h = ground (arith, total-update_above w n f i a)

  pub total-update :
      (w : A → ℕ) (n : ℕ) (f : ℕ → A) (i : ℕ) (a : A)
      → i < n
      → total w n (update f i a) + w (f i) ≡ total w n f + w a
  unfolding total
  total-update w zero f i a h = absurd (omega arith)
  total-update w (suc n) f i a h = elim (dec_lt i n) [
    | yes below ↦ ground (arith, total-update w n f i a below)
    | no last ↦ ground (arith, total-update_above w n f i a)
  ]

  pub total-constant : (w : A → ℕ) (n : ℕ) (a : A) → total w n (λ _. a) ≡ n * w a
  unfolding total
  total-constant w zero a = omega arith
  total-constant w (suc n) a = omega (arith, total-constant w n a)

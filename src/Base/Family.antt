-- ===== src/Base/Family.antt =====
-- A family of processes by number: the change of one of them, and sums over the first n.
use Prim.Native.Nat.{ℕ, zero, suc, ◌+◌, ◌<◌, ◌≤◌}
use mathlib.Core.Path.{◌≡◌, refl}
use native.Mathlib.Omega.{arith}
use native.Mathlib.Decide.{dec_lt}
use seminars.Base.Tests.{◌==◌, if◌then◌else◌}

abbrev pub update {ℓ} : {A : Type ℓ} → (ℕ → A) → ℕ → A → ℕ → A
update f i a j = if j == i then a else f j

module _ {ℓ} {A : Type ℓ} (weight : A → ℕ) where
  pub sum_of : ℕ → (ℕ → A) → ℕ
  sum_of zero f = 0
  sum_of (suc n) f = weight (f n) + sum_of n f

  sum_of-update_beyond :
      (n i : ℕ) (f : ℕ → A) (a : A) → n ≤ i → sum_of n (update f i a) ≡ sum_of n f
  unfolding sum_of
  sum_of-update_beyond zero i f a h = refl
  sum_of-update_beyond (suc n) i f a h = ground (arith, sum_of-update_beyond n i f a (omega arith))

  pub sum_of-update :
      (n i : ℕ) (f : ℕ → A) (a : A)
      → i < n
      → sum_of n (update f i a) + weight (f i) ≡ sum_of n f + weight a
  unfolding sum_of
  sum_of-update zero i f a h = absurd (omega arith)
  sum_of-update (suc n) i f a h = elim (dec_lt i n) [
    | yes inside ↦ ground (arith, sum_of-update n i f a inside)
    | no last ↦ ground (arith, sum_of-update_beyond n i f a (omega arith))
  ]

  -- Each member counts for itself.
  pub weight-le-sum_of : (n i : ℕ) (f : ℕ → A) → i < n → weight (f i) ≤ sum_of n f
  unfolding sum_of
  weight-le-sum_of zero i f h = absurd (omega arith)
  weight-le-sum_of (suc n) i f h = elim (dec_lt i n) [
    | yes inside ↦ omega (arith, weight-le-sum_of n i f inside)
    | no last ↦ ground arith
  ]

  pub two-le-sum_of :
      (n i j : ℕ) (f : ℕ → A) → i < j → j < n → weight (f i) + weight (f j) ≤ sum_of n f
  unfolding sum_of
  two-le-sum_of zero i j f h k = absurd (omega arith)
  two-le-sum_of (suc n) i j f h k = elim (dec_lt j n) [
    | yes inside ↦ omega (arith, two-le-sum_of n i j f h inside)
    | no last ↦ ground (arith, weight-le-sum_of n i f (omega arith))
  ]

  pub sum_of-zero : (n : ℕ) (f : ℕ → A) → ((i : ℕ) → weight (f i) ≡ 0) → sum_of n f ≡ 0
  unfolding sum_of
  sum_of-zero zero f h = refl
  sum_of-zero (suc n) f h = omega (arith, h n, sum_of-zero n f h)

module _ {ℓ} {A : Type ℓ} where
  pub sum_of-le :
      (v w : A → ℕ) (n : ℕ) (f : ℕ → A) → ((a : A) → v a ≤ w a) → sum_of v n f ≤ sum_of w n f
  unfolding sum_of
  sum_of-le v w zero f h = omega arith
  sum_of-le v w (suc n) f h = omega (arith, h (f n), sum_of-le v w n f h)

  pub sum_of-le_size : (w : A → ℕ) (n : ℕ) (f : ℕ → A) → ((a : A) → w a ≤ 1) → sum_of w n f ≤ n
  unfolding sum_of
  sum_of-le_size w zero f h = omega arith
  sum_of-le_size w (suc n) f h = omega (arith, h (f n), sum_of-le_size w n f h)

  pub sum_of-lt :
      (v w : A → ℕ) (n i : ℕ) (f : ℕ → A)
      → i < n
      → v (f i) < w (f i)
      → ((a : A) → v a ≤ w a)
      → sum_of v n f < sum_of w n f
  unfolding sum_of
  sum_of-lt v w zero i f lt less h = absurd (omega arith)
  sum_of-lt v w (suc n) i f lt less h = elim (dec_lt i n) [
    | yes inside ↦ omega (arith, h (f n), sum_of-lt v w n i f inside less h)
    | no last ↦ ground (arith, sum_of-le v w n f h)
  ]

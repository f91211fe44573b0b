-- ===== src/Common/Threads.antt =====
-- Families `ℕ → A` indexed by goroutine: a write at one index, and sums over the first `n` of them.
use Prim.Native.Nat.{ℕ, zero, suc, ◌+◌, ◌-◌, ◌≤◌, ◌<◌}
use mathlib.Core.Path.{◌≡◌, refl}
use mathlib.Core.Logic.{◌≢◌}
use mathlib.Core.List.{List, [], ◌∷◌, ◌++◌}
use native.Mathlib.Decide.{dec_lt, ℕ_discrete}
use native.Mathlib.Omega.{arith}
use rpc_pigeon.Common.Tests.{◌==◌, if◌then◌else◌}

abbrev pub set {ℓ} : {A : Type ℓ} → (ℕ → A) → ℕ → A → ℕ → A
set f i a j = if j == i then a else f j

pub set-same {ℓ} : {A : Type ℓ} (f : ℕ → A) (i : ℕ) (a : A) → set f i a i ≡ a
set-same f i a = ground arith

pub set-other {ℓ} : {A : Type ℓ} (f : ℕ → A) (i : ℕ) (a : A) (j : ℕ) → i ≢ j → set f i a j ≡ f j
set-other f i a j ne = ground arith

module _ {ℓ} {A : Type ℓ} (w : A → ℕ) where
  abbrev pub sum : ℕ → (ℕ → A) → ℕ
  sum zero f = 0
  sum (suc n) f = w (f n) + sum n f

  sum-set-above : (n : ℕ) (f : ℕ → A) (i : ℕ) (a : A) → n ≤ i → sum n (set f i a) ≡ sum n f
  sum-set-above zero f i a h = refl
  sum-set-above (suc n) f i a h = ground (arith, sum-set-above n f i a)

  -- A write at one index changes the sum by the difference there.
  sum-set :
      (n : ℕ) (f : ℕ → A) (i : ℕ) (a : A) → i < n → sum n (set f i a) + w (f i) ≡ sum n f + w a
  sum-set zero f i a h = absurd (omega arith)
  sum-set (suc n) f i a h = elim (dec_lt i n) [
    | yes lt ↦ ground (arith, sum-set n f i a lt)
    | no ge ↦ ground (arith, sum-set-above n f i a)
  ]

  -- A summand is at most the sum.
  pub sum-one : (n : ℕ) (f : ℕ → A) (i : ℕ) → i < n → w (f i) ≤ sum n f
  sum-one zero f i h = absurd (omega arith)
  sum-one (suc n) f i h = elim (ℕ_discrete i n) [
    | yes e ↦ ground arith
    | no ne ↦ omega (arith, sum-one n f i (omega arith))
  ]

  -- Two summands at different indices are at most the sum together.
  pub sum-two : (n : ℕ) (f : ℕ → A) (i j : ℕ) → i < n → j < n → i ≢ j → w (f i) + w (f j) ≤ sum n f
  sum-two zero f i j hi hj ne = absurd (omega arith)
  sum-two (suc n) f i j hi hj ne = elim (ℕ_discrete i n) [
    | yes e ↦ ground (arith, sum-one n f j (omega arith))
    | no above ↦ elim (ℕ_discrete j n) [
      | yes e ↦ ground (arith, sum-one n f i (omega arith))
      | no below ↦ omega (arith, sum-two n f i j (omega arith) (omega arith) ne)
    ]
  ]

  -- The sum without the summand at one index.
  abbrev pub rest : ℕ → (ℕ → A) → ℕ → ℕ
  rest n f i = sum n f - w (f i)

  pub rest-sum : (n : ℕ) (f : ℕ → A) (i : ℕ) → i < n → sum n f ≡ rest n f i + w (f i)
  rest-sum n f i h = omega (arith, sum-one n f i h)

  pub rest-set : (n : ℕ) (f : ℕ → A) (i : ℕ) (a : A) → i < n → sum n (set f i a) ≡ rest n f i + w a
  rest-set n f i a h = omega (arith, sum-one n f i h, sum-set n f i a h)

  -- A sum that is not 0 has a summand that is not.
  pub sum-some : (n : ℕ) (f : ℕ → A) → 0 < sum n f → (i : ℕ) × (i < n) × (0 < w (f i))
  sum-some zero f h = absurd (omega arith)
  sum-some (suc n) f h = elim (dec_lt 0 (w (f n))) [
    | yes here ↦ (n, omega arith, here)
    | no empty ↦ let (i, lt, there) = sum-some n f (omega arith) in (i, omega arith, there)
  ]

  pub sum-zero : (n : ℕ) (f : ℕ → A) → ((i : ℕ) → w (f i) ≡ 0) → sum n f ≡ 0
  sum-zero zero f h = refl
  sum-zero (suc n) f h = omega (arith, h n, sum-zero n f h)

-- How often a number stands in a list.
abbrev pub count : ℕ → List ℕ → ℕ
count c [] = 0
count c (d ∷ ds) = (if d == c then 1 else 0) + count c ds

pub count-append : (c : ℕ) (xs ys : List ℕ) → count c (xs ++ ys) ≡ count c xs + count c ys
count-append c [] ys = omega arith
count-append c (x ∷ xs) ys = ground (arith, count-append c xs ys)

-- ===== src/Common/Run.antt =====
-- Code that runs over a state and may return, block for ever or panic. What was written before
-- stays written, so each outcome carries the state.

use mathlib.Core.Path.{◌≡◌, refl}
use native.Mathlib.Omega.{arith}

pub data Run (S A : Type 0) : Type 0 where
  ret : A → S → Run S A
  blocked : S → Run S A
  panic : S → Run S A

module _ {S A B : Type 0} where
  abbrev pub and_then : Run S A → (A → S → Run S B) → Run S B
  and_then (ret a s) k = k a s
  and_then (blocked s) k = blocked s
  and_then (panic s) k = panic s

  infixl 5 ◌>>=◌ ◌>>◌
  abbrev pub ◌>>=◌ : (S → Run S A) → (A → S → Run S B) → S → Run S B
  ◌>>=◌ m k = λ s. and_then (m s) k

  abbrev pub ◌>>◌ : (S → Run S A) → (S → Run S B) → S → Run S B
  m >> n = m >>= λ _. n

-- Two accounts of one run that returns.
pub ret-eq-ret :
    {S A : Type 0} {m : Run S A} {a b : A} {s t : S} → m ≡ ret a s → m ≡ ret b t → (b ≡ a) × (t ≡ s)
ret-eq-ret p q = ground arith

-- Inversion of a bind that returns.
pub and_then-eq-ret :
    {S A B : Type 0} (m : Run S A) (k : A → S → Run S B) {b : B} {t : S}
    → and_then m k ≡ ret b t
    → (a : A) × (s : S) × (m ≡ ret a s) × (k a s ≡ ret b t)
and_then-eq-ret (ret a s) k e = (a, s, refl, e)
and_then-eq-ret (blocked s) k e = absurd (cc)
and_then-eq-ret (panic s) k e = absurd (cc)

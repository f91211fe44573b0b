-- ===== src/Common/Split.antt =====
-- What `strings.Split` gives for parts without the separator.
use Prim.Native.Nat.{ℕ}
use mathlib.Core.Path.{◌≡◌, refl}
use mathlib.Core.Logic.{inl, inr}
use mathlib.Core.Bool.{true, false}
use mathlib.Core.List.{List, [], ◌∷◌, ◌++◌}
use native.Mathlib.Omega.{arith}
use rpc_pigeon.Common.Tests.{◌==◌, Bool-cases}
use rpc_pigeon.Common.Lists.{All}
use rpc_pigeon.Common.Text.{Text, split}

-- A byte does not stand in the text.
abbrev pub Without : ℕ → Text → Type 0
Without sep = All (λ c. (c == sep) ≡ false)

pub split-Without : (sep : ℕ) (s : Text) → Without sep s → split s sep ≡ s ∷ []
unfolding split
split-Without sep [] h = refl
split-Without sep (c ∷ s) h = rw (split-Without sep s h.1, h.0) refl

split_cons : (s : Text) (sep : ℕ) → (p : Text) × (ps : List Text) × (split s sep ≡ p ∷ ps)
unfolding split
split_cons [] sep = ([], [], refl)
split_cons (c ∷ s) sep =
    let (p, ps, e) = split_cons s sep in
    elim (Bool-cases (c == sep)) [
      | inl at ↦ ([], p ∷ ps, rw (e, at) refl)
      | inr other ↦ (c ∷ p, ps, rw (e, other) refl)
    ]

pub split-append :
    (sep : ℕ) (s rest : Text) → Without sep s → split (s ++ sep ∷ rest) sep ≡ s ∷ split rest sep
unfolding split
split-append sep [] rest h =
    let (p, ps, e) = split_cons rest sep in
    let same : (sep == sep) ≡ true = ground arith in rw (e, same) refl
split-append sep (c ∷ s) rest h = rw (split-append sep s rest h.1, h.0) refl

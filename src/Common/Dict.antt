-- ===== src/Common/Dict.antt =====
-- A Go map with string keys, as its entries in the order in which the next `range` visits them.
-- Go leaves that order open: a statement about every list of entries is one about every order.
use mathlib.Core.Logic.{◌⊎◌, inl, inr}
use mathlib.Core.Path.{◌≡◌, refl, ◌∙◌}
use mathlib.Core.List.{List, [], ◌∷◌}
use mathlib.Core.Option.{Option, none, some}
use native.Mathlib.Omega.{arith}
use rpc_pigeon.Common.Tests.{if◌then◌else◌, if_cases}
use rpc_pigeon.Common.Text.{Text, eq_text, eq_text_iff}

abbrev pub Dict {ℓ} : Type ℓ → Type ℓ
Dict V = List (Text × V)

module _ {ℓ} {V : Type ℓ} where
  -- `m[k]`
  unfoldable pub get : Dict V → Text → Option V
  get [] k = none
  get ((j, v) ∷ m) k = if eq_text j k then some v else get m k

  -- `m[k] = v`
  unfoldable pub put : Dict V → Text → V → Dict V
  put [] k v = (k, v) ∷ []
  put ((j, w) ∷ m) k v = if eq_text j k then (j, v) ∷ m else (j, w) ∷ put m k v

  -- `delete(m, k)`
  unfoldable pub remove : Dict V → Text → Dict V
  remove [] k = []
  remove ((j, v) ∷ m) k = let rest = remove m k in if eq_text j k then rest else (j, v) ∷ rest

  pub get-put :
      (m : Dict V) (k j : Text) (v : V)
      → get (put m k v) j ≡ (if eq_text k j then some v else get m j)
  unfolding get put
  get-put [] k j v = refl
  get-put ((i, w) ∷ m) k j v =
      ground (arith, eq_text_iff i k, eq_text_iff i j, eq_text_iff k j, get-put m k j v)

  pub get-remove :
      (m : Dict V) (k j : Text) → get (remove m k) j ≡ (if eq_text k j then none else get m j)
  unfolding get remove
  get-remove [] k j = ground arith
  get-remove ((i, w) ∷ m) k j =
      ground (arith, eq_text_iff i k, eq_text_iff i j, eq_text_iff k j, get-remove m k j)

module _ {V : Type 0} where
  -- The entry `(k, v)` is among the entries.
  abbrev pub Has : Text → V → Dict V → Type 0
  Has k v [] = ⊥
  Has k v ((j, w) ∷ m) = ((j ≡ k) × (w ≡ v)) ⊎ Has k v m

  -- The keys are distinct, as they are in a map.
  abbrev pub Distinct : Dict V → Type 0
  Distinct [] = Unit
  Distinct ((k, v) ∷ m) = (get m k ≡ none) × Distinct m

  -- A map's entries are what it looks up.
  pub get_of_Has : (m : Dict V) (k : Text) (v : V) → Distinct m → Has k v m → get m k ≡ some v
  unfolding get
  get_of_Has [] k v d h = absurd h
  get_of_Has ((j, w) ∷ m) k v d (inl (e, e')) = ground (arith, eq_text_iff j k)
  get_of_Has ((j, w) ∷ m) k v d (inr h) = ground (arith, eq_text_iff j k, get_of_Has m k v d.1 h)

  pub Distinct-put : (m : Dict V) (k : Text) (v : V) → Distinct m → Distinct (put m k v)
  unfolding put get
  Distinct-put [] k v d = (refl, tt)
  Distinct-put ((j, w) ∷ m) k v (fresh, d) =
      if_cases Distinct (eq_text j k) ((j, v) ∷ m) ((j, w) ∷ put m k v) (λ e. (fresh, d))
        (λ e. (
          get-put m k j v ∙ ground (arith, eq_text_iff j k, eq_text_iff k j),
          Distinct-put m k v d,
        ))

-- ===== src/Common/Options.antt =====
-- An option, or else another one.
use mathlib.Core.Path.{◌≡◌, refl}
use mathlib.Core.Bool.{Bool, true, false}
use mathlib.Core.Option.{Option, none, some}
use rpc_pigeon.Common.Tests.{if◌then◌else◌, is_some}

module _ {ℓ} {A : Type ℓ} where
  -- `a`, or else `b`.
  abbrev pub or_else : Option A → Option A → Option A
  or_else (some t) b = some t
  or_else none b = b

  pub or_else-kept :
      (o : Option A) (b : Bool) (new : A)
      → (b ≡ true → is_some o ≡ true)
      → o ≡ or_else o (if b then some new else none)
  or_else-kept (some t) b new f = refl
  or_else-kept none true new f = absurd (let e = f refl in cc)
  or_else-kept none false new f = refl

  pub or_else-fresh :
      (o : Option A) (b : Bool) (new : A)
      → (b ≡ true → o ≡ none)
      → (if b then some new else o) ≡ or_else o (if b then some new else none)
  or_else-fresh (some t) true new f = absurd (let e = f refl in cc)
  or_else-fresh (some t) false new f = refl
  or_else-fresh none true new f = refl
  or_else-fresh none false new f = refl

  pub or_else_assoc : (a b c : Option A) → or_else (or_else a b) c ≡ or_else a (or_else b c)
  or_else_assoc none b c = refl
  or_else_assoc (some t) b c = refl

  pub or_else-if :
      (b : Bool) (t : A) (o : Option A)
      → or_else (if b then some t else none) o ≡ (if b then some t else o)
  or_else-if true t o = refl
  or_else-if false t o = refl

  pub or_else-none : (o : Option A) → o ≡ or_else o none
  or_else-none none = refl
  or_else-none (some t) = refl

  pub or_else-some : (a b : Option A) → is_some b ≡ true → is_some (or_else a b) ≡ true
  or_else-some none b e = e
  or_else-some (some t) b e = refl

  pub if_first :
      (b : Bool) (t : A) (x y z : Option A)
      → x ≡ or_else y z
      → (if b then some t else x) ≡ or_else (if b then some t else y) z
  if_first true t x y z e = refl
  if_first false t x y z e = e

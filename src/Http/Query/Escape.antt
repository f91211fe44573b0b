-- ===== src/Http/Query/Escape.antt =====
-- An escaped text is read back.
use rpc_pigeon.Common.{
  ℕ, ◌+◌, ◌-◌, ◌*◌, ◌/◌, ◌%◌, ◌<◌, ◌≡◌, refl, ap, ◌∙◌, [], ◌∷◌, true, false, ◌&&◌, leb, ◌==◌,
  if◌then◌else◌, if_cases, ==_iff, Option, none, some, Bytes, arith,
}
use rpc_pigeon.Common.Text.{Text, is_digit}
use rpc_pigeon.Http.Query.{is_kept, hex, escaped, query_escape}

-- How `url.QueryUnescape` reads: `none` for an escape that is none.
unfoldable pub hex_value : ℕ → Option ℕ
hex_value c =
    if is_digit c
    then some (c - b'0')
    else if leb b'A' c && leb c b'F'
    then some (c - b'A' + 10)
    else none

abbrev pub then_byte : ℕ → Option Text → Option Text
then_byte c none = none
then_byte c (some s) = some (c ∷ s)

abbrev pub with_digit : Option ℕ → (ℕ → Option Text) → Option Text
with_digit none k = none
with_digit (some x) k = k x

-- Where in an escape the reading is.
pub data At : Type 0 where
  plain : At
  percent : At
  digit : ℕ → At

unfoldable pub unescape : At → Text → Option Text
unescape plain [] = some []
unescape percent [] = none
unescape (digit x) [] = none
unescape plain (c ∷ s) =
    let escape = unescape percent s in
    let rest = unescape plain s in
    if c == b'%' then escape else then_byte (if c == b'+' then b' ' else c) rest
unescape percent (c ∷ s) = with_digit (hex_value c) (λ x. unescape (digit x) s)
unescape (digit x) (c ∷ s) =
    with_digit (hex_value c) (λ y. then_byte (x * 16 + y) (unescape plain s))

hex_value-hex : (n : ℕ) → n < 16 → hex_value (hex n) ≡ some n
unfolding hex_value
hex_value-hex n h = ground arith

kept_not_special : (c : ℕ) → is_kept c ≡ true → (c == b'%' ≡ false) × (c == b'+' ≡ false)
kept_not_special c h = ground arith

unescape-percent :
    (c x d y : ℕ) (rest t : Text)
    → hex_value c ≡ some x
    → hex_value d ≡ some y
    → unescape plain rest ≡ some t
    → unescape plain (b'%' ∷ c ∷ d ∷ rest) ≡ some ((x * 16 + y) ∷ t)
unfolding unescape
unescape-percent c x d y rest t e f g =
    ap (λ o. with_digit o (λ n. unescape (digit n) (d ∷ rest))) e
    ∙ ap (λ o. with_digit o (λ n. then_byte (x * 16 + n) (unescape plain rest))) f
    ∙ ap (then_byte (x * 16 + y)) g

unescape-escaped :
    (c : ℕ) (rest t : Text)
    → c < 256
    → unescape plain rest ≡ some t
    → unescape plain (escaped c rest) ≡ some (c ∷ t)
unfolding unescape
unescape-escaped c rest t byte e =
    if_cases (λ s. unescape plain s ≡ some (c ∷ t)) (is_kept c) _ _
      (λ kept. let (a, b) = kept_not_special c kept in rw (a, b, e) refl)
      (λ special.
        if_cases (λ s. unescape plain s ≡ some (c ∷ t)) (c == b' ') _ _
          (λ space. let c_space : c ≡ b' ' = (==_iff c b' ').0 space in rw (e, c_space) refl)
          (λ other.
            unescape-percent (hex (c / 16)) (c / 16) (hex (c % 16)) (c % 16) rest t
              (hex_value-hex (c / 16) (omega arith)) (hex_value-hex (c % 16) (omega arith)) e
            ∙ ap (λ n. some (n ∷ t)) (omega arith)))

pub unescape-query_escape : (s : Text) → Bytes s → unescape plain (query_escape s) ≡ some s
unfolding query_escape
unescape-query_escape [] h = unfold unescape in refl
unescape-query_escape (c ∷ s) h =
    unescape-escaped c (query_escape s) s h.0 (unescape-query_escape s h.1)

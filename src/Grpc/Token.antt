-- ===== src/Grpc/Token.antt =====
-- `strEncode` and `strDecode` of pkg/plugins/pool/grpc/grpc.go: Go's `base64.StdEncoding`, as its
-- documentation and its `decodeQuantum` define it. The decoder skips line ends, and on corrupt input
-- it returns the bytes of the groups before the corrupt one beside the error.
pub mod RoundTrip
use rpc_pigeon.Common.{
  ℕ, ◌+◌, ◌-◌, ◌*◌, ◌/◌, ◌%◌, List, [], ◌∷◌, ◌++◌, Bool, true, false, ◌&&◌, ◌||◌, Option, none,
  some, ltb, leb, ◌==◌, if◌then◌else◌,
}
use rpc_pigeon.Common.Text.{Text}

-- The 64 characters of the alphabet.
unfoldable pub to_char : ℕ → ℕ
to_char n =
    if ltb n 26
    then n + b'A'
    else if ltb n 52
    then n - 26 + b'a'
    else if ltb n 62
    then n - 52 + b'0'
    else if n == 62
    then b'+'
    else b'/'

unfoldable pub of_char : ℕ → Option ℕ
of_char c =
    if leb b'A' c && leb c b'Z'
    then some (c - b'A')
    else if leb b'a' c && leb c b'z'
    then some (c - b'a' + 26)
    else if leb b'0' c && leb c b'9'
    then some (c - b'0' + 52)
    else if c == b'+'
    then some 62
    else if c == b'/'
    then some 63
    else none

abbrev pub pad : ℕ
pad = b'='

-- `strEncode`
unfoldable pub str_encode : Text → Text
unfolding to_char
str_encode [] = []
str_encode (a ∷ []) = to_char (a / 4) ∷ to_char ((a % 4) * 16) ∷ pad ∷ pad ∷ []
str_encode (a ∷ b ∷ []) =
    to_char (a / 4) ∷ to_char ((a % 4) * 16 + b / 16) ∷ to_char ((b % 16) * 4) ∷ pad ∷ []
str_encode (a ∷ b ∷ c ∷ rest) =
    to_char (a / 4)
    ∷ to_char ((a % 4) * 16 + b / 16)
    ∷ to_char ((b % 16) * 4 + c / 64)
    ∷ to_char (c % 64)
    ∷ str_encode rest

-- The bytes decoded, and whether the input was correct.
abbrev pub Decoded : Type 0
Decoded = Text × Bool

abbrev pub corrupt : Decoded
corrupt = ([], false)

abbrev pub is_nil : Text → Bool
is_nil [] = true
is_nil (c ∷ s) = false

abbrev pub is_line_end : ℕ → Bool
is_line_end c = c == 10 || c == 13

unfoldable pub skip_line_ends : Text → Text
skip_line_ends [] = []
skip_line_ends (c ∷ s) = let rest = skip_line_ends s in if is_line_end c then rest else c ∷ rest

-- A group whose last character is no digit: one byte or two, then nothing may follow.
abbrev pub padded : (x y : ℕ) → Option ℕ → (c d : ℕ) → Text → Decoded
padded x y none c d rest =
    if c == pad && d == pad then ((x * 4 + y / 16) ∷ [], is_nil rest) else corrupt
padded x y (some z) c d rest =
    if d == pad then ((x * 4 + y / 16) ∷ ((y % 16) * 16 + z / 4) ∷ [], is_nil rest) else corrupt

-- A group of four characters, with what is decoded of the text behind it.
abbrev pub group : Option ℕ → Option ℕ → Option ℕ → Option ℕ → (c d : ℕ) → Text → Decoded → Decoded
group none y z w c d rest after = corrupt
group (some x) none z w c d rest after = corrupt
group (some x) (some y) none w c d rest after = padded x y none c d rest
group (some x) (some y) (some z) none c d rest after = padded x y (some z) c d rest
group (some x) (some y) (some z) (some w) c d rest after =
    ((x * 4 + y / 16) ∷ ((y % 16) * 16 + z / 4) ∷ ((z % 4) * 64 + w) ∷ after.0, after.1)

unfoldable pub decode_groups : Text → Decoded
unfolding of_char
decode_groups [] = ([], true)
decode_groups (a ∷ []) = corrupt
decode_groups (a ∷ b ∷ []) = corrupt
decode_groups (a ∷ b ∷ c ∷ []) = corrupt
decode_groups (a ∷ b ∷ c ∷ d ∷ rest) =
    group (of_char a) (of_char b) (of_char c) (of_char d) c d rest (decode_groups rest)

-- `strDecode`
unfoldable pub str_decode : Text → Decoded
unfolding skip_line_ends decode_groups
str_decode s = decode_groups (skip_line_ends s)

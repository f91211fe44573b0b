-- ===== src/Grpc/Token/RoundTrip.antt =====
-- What is encoded is decoded again.
use rpc_pigeon.Common.{
  ℕ, ◌+◌, ◌*◌, ◌/◌, ◌%◌, ◌<◌, ◌≡◌, refl, ◌∙◌, [], ◌∷◌, true, false, some, arith, Bytes,
}
use rpc_pigeon.Common.Text.{Text}
use rpc_pigeon.Grpc.Token.{
  to_char, of_char, pad, str_encode, str_decode, is_line_end, skip_line_ends, decode_groups,
}

of_char-to_char : (n : ℕ) → n < 64 → of_char (to_char n) ≡ some n
unfolding of_char to_char
of_char-to_char n h = ground arith

line_end-to_char : (n : ℕ) → n < 64 → is_line_end (to_char n) ≡ false
unfolding to_char
line_end-to_char n h = ground arith

-- The characters of the encoding that carry digits are no line ends.
skip_digit :
    (n : ℕ) (s t : Text)
    → n < 64
    → skip_line_ends s ≡ t
    → skip_line_ends (to_char n ∷ s) ≡ to_char n ∷ t
unfolding skip_line_ends
skip_digit n s t h e = rw (line_end-to_char n h, e)

skip_pad : skip_line_ends (pad ∷ []) ≡ pad ∷ []
unfolding skip_line_ends
skip_pad = refl

skip_pads : skip_line_ends (pad ∷ pad ∷ []) ≡ pad ∷ pad ∷ []
unfolding skip_line_ends
skip_pads = refl

skip-str_encode : (s : Text) → Bytes s → skip_line_ends (str_encode s) ≡ str_encode s
unfolding str_encode
skip-str_encode [] h = unfold skip_line_ends in refl
skip-str_encode (a ∷ []) h =
    skip_digit (a / 4) _ _ (omega arith) (skip_digit ((a % 4) * 16) _ _ (omega arith) skip_pads)
skip-str_encode (a ∷ b ∷ []) h = skip_digit (a / 4) _ _ (omega arith) (
    skip_digit ((a % 4) * 16 + b / 16) _ _ (omega arith)
      (skip_digit ((b % 16) * 4) _ _ (omega arith) skip_pad))
skip-str_encode (a ∷ b ∷ c ∷ rest) h = skip_digit (a / 4) _ _ (omega arith) (
    skip_digit ((a % 4) * 16 + b / 16) _ _ (omega arith) (
      skip_digit ((b % 16) * 4 + c / 64) _ _ (omega arith)
        (skip_digit (c % 64) _ _ (omega arith) (skip-str_encode rest h.1.1.1))))

-- Groups are decoded by their digits.
decode_one :
    (x y : ℕ)
    → x < 64
    → y < 64
    → decode_groups (to_char x ∷ to_char y ∷ pad ∷ pad ∷ []) ≡ ((x * 4 + y / 16) ∷ [], true)
unfolding decode_groups
decode_one x y hx hy = rw (of_char-to_char x hx, of_char-to_char y hy)

decode_two :
    (x y z : ℕ)
    → x < 64
    → y < 64
    → z < 64
    → decode_groups (to_char x ∷ to_char y ∷ to_char z ∷ pad ∷ [])
      ≡ ((x * 4 + y / 16) ∷ ((y % 16) * 16 + z / 4) ∷ [], true)
unfolding decode_groups
decode_two x y z hx hy hz = rw (of_char-to_char x hx, of_char-to_char y hy, of_char-to_char z hz)

decode_three :
    (x y z w : ℕ) (rest bytes : Text)
    → x < 64
    → y < 64
    → z < 64
    → w < 64
    → decode_groups rest ≡ (bytes, true)
    → decode_groups (to_char x ∷ to_char y ∷ to_char z ∷ to_char w ∷ rest)
      ≡ ((x * 4 + y / 16) ∷ ((y % 16) * 16 + z / 4) ∷ ((z % 4) * 64 + w) ∷ bytes, true)
unfolding decode_groups
decode_three x y z w rest bytes hx hy hz hw e =
    rw (of_char-to_char x hx, of_char-to_char y hy, of_char-to_char z hz, of_char-to_char w hw, e)

decode_groups-str_encode : (s : Text) → Bytes s → decode_groups (str_encode s) ≡ (s, true)
unfolding str_encode
decode_groups-str_encode [] h = unfold decode_groups in refl
decode_groups-str_encode (a ∷ []) h =
    decode_one (a / 4) ((a % 4) * 16) (omega arith) (omega arith) ∙ ground arith
decode_groups-str_encode (a ∷ b ∷ []) h =
    decode_two (a / 4) ((a % 4) * 16 + b / 16) ((b % 16) * 4) (omega arith) (omega arith)
      (omega arith)
    ∙ ground arith
decode_groups-str_encode (a ∷ b ∷ c ∷ rest) h =
    decode_three (a / 4) ((a % 4) * 16 + b / 16) ((b % 16) * 4 + c / 64) (c % 64) (str_encode rest)
      rest (omega arith) (omega arith) (omega arith) (omega arith)
      (decode_groups-str_encode rest h.1.1.1)
    ∙ ground arith

-- Every byte string is decoded again from its encoding, with no error.
pub str_decode-str_encode : (s : Text) → Bytes s → str_decode (str_encode s) ≡ (s, true)
unfolding str_decode
str_decode-str_encode s h = rw (skip-str_encode s h) (decode_groups-str_encode s h)

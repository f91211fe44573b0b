-- ===== src/Config.antt =====
-- How every part reads its configuration: an environment variable first, and viper's value of the
-- same key where the variable is empty. viper and the environment are arguments.
use rpc_pigeon.Common.{
  ℕ, ◌+◌, ◌-◌, ◌*◌, ◌^◌, ℤ, pos, negsuc, [], ◌∷◌, Bool, true, false, ◌||◌, ltb, ◌==◌, if◌then◌else◌,
}
use rpc_pigeon.Common.Text.{Text, codes, eq_text, is_digit}

-- `os.Getenv`, and the readings of viper.
pub record Env : Type 0 where
  pub getenv : Text → Text
  pub get_string : Text → Text
  pub get_int : Text → ℤ
  pub get_bool : Text → Bool

-- The digits of a number below 2 ^ 64, as `strconv.ParseUint` reads them.
pub data Digits : Type 0 where
  exact : ℕ → Digits
  no_digit : Digits
  too_big : Digits

unfoldable pub scan_digits : Text → ℕ → Digits
scan_digits [] n = exact n
scan_digits (c ∷ s) n =
    let m = n * 10 + (c - b'0') in
    let rest = scan_digits s m in
    if is_digit c then (if ltb m (2 ^ 64) then rest else too_big) else no_digit

-- The largest and the smallest `int64` where the number is out of range.
abbrev pub clamped : (negative : Bool) → Digits → ℤ
clamped negative no_digit = pos 0
clamped true too_big = negsuc (2 ^ 63 - 1)
clamped false too_big = pos (2 ^ 63 - 1)
clamped true (exact n) =
    if n == 0 then pos 0 else if ltb (2 ^ 63) n then negsuc (2 ^ 63 - 1) else negsuc (n - 1)
clamped false (exact n) = if ltb n (2 ^ 63) then pos n else pos (2 ^ 63 - 1)

abbrev pub unsigned : (negative : Bool) → Text → ℤ
unsigned negative [] = pos 0
unsigned negative (c ∷ s) = clamped negative (scan_digits (c ∷ s) 0)

-- The value of `strconv.Atoi(s)` and `strconv.ParseInt(s, 10, 64)`, whose error the code drops.
unfoldable pub parse_int : Text → ℤ
unfolding scan_digits
parse_int [] = pos 0
parse_int (c ∷ s) =
    if c == b'-'
    then unsigned true s
    else if c == b'+'
    then unsigned false s
    else unsigned false (c ∷ s)

-- The value of `strconv.ParseBool(s)`, whose error the code drops.
abbrev pub parse_bool : Text → Bool
parse_bool s =
    eq_text s (codes "1")
    || eq_text s (codes "t")
    || eq_text s (codes "T")
    || eq_text s (codes "TRUE")
    || eq_text s (codes "true")
    || eq_text s (codes "True")

abbrev pub is_unset : Env → Text → Bool
is_unset env key = eq_text (env.getenv key) []

abbrev pub env_string : Env → Text → Text
env_string env key = if is_unset env key then env.get_string key else env.getenv key

unfoldable pub env_int : Env → Text → ℤ
unfolding parse_int
env_int env key = if is_unset env key then env.get_int key else parse_int (env.getenv key)

abbrev pub env_bool : Env → Text → Bool
env_bool env key = if is_unset env key then env.get_bool key else parse_bool (env.getenv key)

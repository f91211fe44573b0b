-- ===== src/Log.antt =====
-- pkg/core/log/logger.go: the logger by the configuration. The package rotatelogs is an argument:
-- whether it accepts a pattern of file names. zap's levels are in their documented order.
pub mod Levels
use rpc_pigeon.Common.{
  ℕ, zero, suc, ◌+◌, ◌-◌, ◌%◌, ℤ, pos, pos_part, neg_part, ◌*ℤ◌, int64, List, [], ◌∷◌, ◌++◌, Bool,
  true, false, Option, none, some, leb, ◌==◌, if◌then◌else◌, length,
}
use rpc_pigeon.Common.Text.{Text, codes, eq_text, has_prefix}
use rpc_pigeon.Config.{Env, env_string, env_int}

abbrev pub day_rotation : ℕ
day_rotation = 1140

pub data Level : Type 0 where
  debug_level : Level
  info_level : Level
  warn_level : Level
  error_level : Level
  dpanic_level : Level
  panic_level : Level
  fatal_level : Level

abbrev pub rank : Level → ℕ
rank debug_level = 0
rank info_level = 1
rank warn_level = 2
rank error_level = 3
rank dpanic_level = 4
rank panic_level = 5
rank fatal_level = 6

-- `strings.Replace(s, sub, "", -1)` for a `sub` that is not empty; `skip` bytes belong to a match.
unfoldable pub remove_all : (sub : Text) (skip : ℕ) → Text → Text
unfolding has_prefix
remove_all sub skip [] = []
remove_all sub (suc skip) (c ∷ s) = remove_all sub skip s
remove_all sub zero (c ∷ s) =
    let without = remove_all sub (length sub - 1) s in
    let kept = remove_all sub zero s in if has_prefix (c ∷ s) sub then without else c ∷ kept

pub record Writer : Type 0 where
  pub pattern : Text
  pub max_age : ℤ
  pub rotation_time : ℤ

-- `time.Minute*n`
abbrev pub minutes : ℤ → ℤ
minutes n = int64 (n *ℤ pos 60000000000)

-- `n%DAY_ROTATION == 0`
abbrev pub is_daily : ℤ → Bool
is_daily n = (pos_part n + neg_part n) % day_rotation == 0

-- `getWriter`, which panics where rotatelogs returns an error.
unfoldable pub get_writer : Env → (Text → Bool) → Text → Option Writer
unfolding env_int remove_all int64
get_writer env rotates filename =
    let rotation = env_int env (codes "LOG_ROTATION_TIME") in
    let format = if is_daily rotation then codes "%Y%m%d" else codes "%Y%m%d%H%M" in
    let pattern = remove_all (codes ".log") 0 filename ++ codes "-" ++ format ++ codes ".log" in
    if rotates pattern
    then some (record {
      pattern = pattern;
      max_age = minutes (env_int env (codes "LOG_MAX_AGE"));
      rotation_time = minutes rotation;
    })
    else none

-- The enabler of the levels and the file, both nil for a word that is none of the three.
pub record Logger : Type 0 where
  pub level_enabler : Option Level
  pub log_writer : Option Writer

abbrev pub with_writer : Level → Option Writer → Option Logger
with_writer l none = none
with_writer l (some w) = some (record { level_enabler = some l; log_writer = some w })

-- `init`, after `util.InitConfig`.
unfoldable pub init : Env → (Text → Bool) → Option Logger
unfolding get_writer
init env rotates =
    let word = env_string env (codes "LOG_LEVEL") in
    if eq_text word (codes "info")
    then with_writer info_level (get_writer env rotates (codes "./logs/log_info.log"))
    else if eq_text word (codes "debug")
    then with_writer debug_level (get_writer env rotates (codes "./logs/log_debug.log"))
    else if eq_text word (codes "error")
    then with_writer error_level (get_writer env rotates (codes "./logs/log_error.log"))
    else some (record { level_enabler = none; log_writer = none })

-- What a call of the logger does to its caller.
pub data Ending : Type 0 where
  returns : Ending
  panics : Ending
  exits : Ending

-- As zap documents it: the logger is made with `zap.Development()`, in which `DPanic` panics too.
abbrev pub ending : Level → Ending
ending dpanic_level = panics
ending panic_level = panics
ending fatal_level = exits
ending _ = returns

-- `Debug`, `Info`, `Warn`, `Error`, `DPanic`, `Panic` and `Fatal`, by their level, each with its `f`
-- form: whether the message is written, and how the call ends. zap calls the enabler, so a nil one
-- panics before anything is written.
abbrev pub print : Logger → Level → Option Bool × Ending
print log l = elim log.level_enabler [
  | none ↦ (none, panics)
  | some from ↦ (some (leb (rank from) (rank l)), ending l)
]

-- ===== src/Log/Levels.antt =====
-- What the logger writes, and where.
use rpc_pigeon.Common.{
  ◌≡◌, ◌≢◌, refl, ap, ◌∙◌, ◌⊎◌, inl, inr, ◌++◌, Bool, true, false, Option, none, some, leb,
  if◌then◌else◌, if_cases, arith,
}
use rpc_pigeon.Common.Text.{Text, codes, eq_text, eq_text_iff, eq_of_eq_text}
use rpc_pigeon.Config.{Env, env_string, env_int}
use rpc_pigeon.Log.{
  Level, info_level, debug_level, error_level, rank, Writer, Logger, is_daily, get_writer,
  remove_all, with_writer, init, print, ending, panics,
}

abbrev pub date_format : (daily : Bool) → Text
date_format daily = if daily then codes "%Y%m%d" else codes "%Y%m%d%H%M"

-- The file of a level's messages, by day or by minute.
abbrev pub file_of : (name : Text) (daily : Bool) → Text
file_of name daily = (codes "./logs/log_" ++ name) ++ codes "-" ++ date_format daily ++ codes ".log"

-- The logger writes the messages of the level and of the more severe ones, to its file.
abbrev pub Writes : Env → Level → (name : Text) → Logger → Type 0
Writes env from name log =
    (env_string env (codes "LOG_LEVEL") ≡ name)
    × ((l : Level) → print log l ≡ (some (leb (rank from) (rank l)), ending l))
    × ((w : Writer) × (log.log_writer ≡ some w)
        × (w.pattern ≡ file_of name (is_daily (env_int env (codes "LOG_ROTATION_TIME")))))

with_writer-some :
    (l : Level) (o : Option Writer) (log : Logger)
    → with_writer l o ≡ some log
    → (log.level_enabler ≡ some l) × ((w : Writer) × (o ≡ some w) × (log.log_writer ≡ some w))
with_writer-some l none log e = absurd (cc)
with_writer-some l (some w) log e = (ground arith, (w, refl, ground arith))

pattern-eq :
    (env : Env) (rotates : Text → Bool) (filename : Text) (w : Writer)
    → get_writer env rotates filename ≡ some w
    → w.pattern
      ≡ remove_all (codes ".log") 0 filename
        ++ codes "-"
        ++ date_format (is_daily (env_int env (codes "LOG_ROTATION_TIME")))
        ++ codes ".log"
unfolding get_writer
pattern-eq env rotates filename w =
    if_cases
      (λ o.
        o ≡ some w
        → w.pattern
          ≡ remove_all (codes ".log") 0 filename
            ++ codes "-"
            ++ date_format (is_daily (env_int env (codes "LOG_ROTATION_TIME")))
            ++ codes ".log")
      (rotates _) _ _ (λ yes e. ground arith) (λ no e. absurd (cc))

module _ (env : Env) (rotates : Text → Bool) (log : Logger) where
  writes :
      (from : Level) (name filename : Text)
      → env_string env (codes "LOG_LEVEL") ≡ name
      → remove_all (codes ".log") 0 filename ≡ codes "./logs/log_" ++ name
      → with_writer from (get_writer env rotates filename) ≡ some log
      → Writes env from name log
  writes from name filename word same e =
      let (enabler, (w, made, is_w)) =
        with_writer-some from (get_writer env rotates filename) log e in
      (
        word,
        (λ l. rw enabler refl),
        (
          w,
          is_w,
          pattern-eq env rotates filename w made
              ∙ ap
                  (λ t.
                    t
                    ++ codes "-"
                    ++ date_format (is_daily (env_int env (codes "LOG_ROTATION_TIME")))
                    ++ codes ".log")
                  same,
        ),
      )

  abbrev pub Outcome : Type 0
  Outcome =
      Writes env info_level (codes "info") log
      ⊎ Writes env debug_level (codes "debug") log
      ⊎ Writes env error_level (codes "error") log
      ⊎ ((env_string env (codes "LOG_LEVEL") ≢ codes "info")
          × (env_string env (codes "LOG_LEVEL") ≢ codes "debug")
          × (env_string env (codes "LOG_LEVEL") ≢ codes "error")
          × ((l : Level) → print log l ≡ (none, panics)))

  abbrev word : Text
  word = env_string env (codes "LOG_LEVEL")

  is_word : (name : Text) → eq_text word name ≡ true → word ≡ name
  is_word name = eq_of_eq_text word name

  is_other : (name : Text) → eq_text word name ≡ false → word ≢ name
  is_other name e h = ground (arith, eq_text_iff word name)

  silent :
      word ≢ codes "info"
      → word ≢ codes "debug"
      → word ≢ codes "error"
      → ◌≡◌ {A = Option Logger}
          (some (record { level_enabler = none; log_writer = none }))
          (some log)
      → Outcome
  silent i d e same = inr (inr (inr (i, d, e, λ l. ground arith)))

  -- A logger that the start has made writes the messages of the level that LOG_LEVEL names and of
  -- the more severe ones, to the file of that name, whose date has no time of day exactly where the
  -- rotation is a multiple of 1140 minutes; its calls return, but for those of the levels that panic
  -- or end the process. Where LOG_LEVEL is none of the three words, every attempt to log panics and
  -- writes nothing.
  pub init-Writes : init env rotates ≡ some log → Outcome
  unfolding init remove_all
  init-Writes =
      if_cases (λ o. o ≡ some log → Outcome) (eq_text word (codes "info")) _ _
        (λ i e.
          inl (writes info_level (codes "info") (codes "./logs/log_info.log") (is_word _ i) refl e))
        (λ not_i.
          if_cases (λ o. o ≡ some log → Outcome) (eq_text word (codes "debug")) _ _
            (λ d e. inr (
              inl (
                writes debug_level (codes "debug") (codes "./logs/log_debug.log") (is_word _ d) refl
                  e)))
            (λ not_d.
              if_cases (λ o. o ≡ some log → Outcome) (eq_text word (codes "error")) _ _
                (λ r e. inr (
                  inr (
                    inl (
                      writes error_level (codes "error") (codes "./logs/log_error.log")
                        (is_word _ r) refl e))))
                (λ not_r e. silent (is_other _ not_i) (is_other _ not_d) (is_other _ not_r) e)))

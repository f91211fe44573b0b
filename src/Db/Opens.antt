-- ===== src/Db/Opens.antt =====
-- How `dbInit` ends.
use rpc_pigeon.Common.{
  ◌≡◌, refl, ◌⊎◌, inl, inr, List, ◌∷◌, ◌++◌, Bool, true, false, Option, none, some, if◌then◌else◌,
  if_cases,
}
use rpc_pigeon.Common.Text.{Text, codes, eq_text, to_lower}
use rpc_pigeon.Common.Run.{Run, ret, panic, and_then}
use rpc_pigeon.Config.{Env, env_int}
use rpc_pigeon.Db
use rpc_pigeon.Db.{
  DbConfig, db_config_init, Server, Call, opened, raw, exec, close, opened_logged, set_limits,
  check_query, create_query, create_unless, check_db, dsn_of, options_of, log_level, duration_of,
  db_init, Exec, connect, checked, limited,
}

-- What `checkDB` asks, where its query finds the database or not, up to its last step.
abbrev pub asked : (found : Bool) (name dsn : Text) → List Call → List Call
asked true name dsn log = raw (check_query name) ∷ opened dsn ∷ log
asked false name dsn log = exec (create_query name) ∷ raw (check_query name) ∷ opened dsn ∷ log

module _ (env : Env) (srv : Server) (log : List Call) where
  abbrev cfg : DbConfig
  cfg = db_config_init env

  abbrev is_mysql : Bool
  is_mysql = eq_text (to_lower cfg.db_driver) (codes "mysql")

  abbrev query_answer : Option Bool
  query_answer = srv.finds (check_query cfg.db_name)

  abbrev asked_for : Bool → List Call
  asked_for found = asked found cfg.db_name (cfg.dsn ++ codes "/" ++ options_of) log

  abbrev reopened : Bool → List Call
  reopened found =
      opened_logged (dsn_of cfg) (log_level env)
        (duration_of (env_int env (codes "DB_SLOWTHRESHOLD")))
      ∷ close
      ∷ asked_for found

  -- The end for a MySQL database whose query answers `found`.
  abbrev Connects : Bool → Run (List Call) Unit → Type 0
  Connects found run =
      ((srv.has_sql ≡ false) × (run ≡ ret tt (asked_for found)))
      ⊎ ((srv.has_sql ≡ true)
          × (srv.opens (dsn_of cfg) ≡ true)
          × (run ≡ ret tt (set_limits 10 100 3600 ∷ reopened found)))
      ⊎ ((srv.has_sql ≡ true) × (srv.opens (dsn_of cfg) ≡ false) × (run ≡ panic (reopened found)))

  abbrev pub Outcome : Run (List Call) Unit → Type 0
  Outcome run =
      ((is_mysql ≡ false) × (run ≡ panic log))
      ⊎ ((is_mysql ≡ true) × (query_answer ≡ none) × (run ≡ panic (asked_for true)))
      ⊎ ((is_mysql ≡ true) × ((found : Bool) × (query_answer ≡ some found) × Connects found run))

  -- `dbInit` after the query.
  abbrev after_query : Option Bool → Run (List Call) Unit
  after_query answer =
      and_then
        (checked srv cfg.db_name answer
          (raw (check_query cfg.db_name) ∷ opened (cfg.dsn ++ codes "/" ++ options_of) ∷ log))
        (λ status. if status then connect env srv cfg else Db.pure tt)

  connects :
      (found has_sql opens : Bool)
      → srv.has_sql ≡ has_sql
      → srv.opens (dsn_of cfg) ≡ opens
      → Connects found (after_query (some found))
  connects true false opens sql e = inl (sql, rw sql refl)
  connects false false opens sql e = inl (sql, rw sql refl)
  connects true true true sql e = inr (inl (sql, e, rw (sql, e) refl))
  connects false true true sql e = inr (inl (sql, e, rw (sql, e) refl))
  connects true true false sql e = inr (inr (sql, e, rw (sql, e) refl))
  connects false true false sql e = inr (inr (sql, e, rw (sql, e) refl))

  queried :
      is_mysql ≡ true
      → (answer : Option Bool) → query_answer ≡ answer
      → Outcome (after_query answer)
  queried mysql none e = inr (inl (mysql, e, refl))
  queried mysql (some found) e =
      inr (inr (mysql, (found, e, connects found srv.has_sql (srv.opens (dsn_of cfg)) refl refl)))

  -- `dbInit` panics where the driver is not MySQL, whatever the database does, and where the query of
  -- `checkDB` fails. Otherwise it asks for the database, creates it exactly if the query does not find
  -- it, and then either gives up in silence without a connection, as there is no `sql.DB`, or closes
  -- the connection and opens that of the database: it panics if that fails, and else limits the pool
  -- to 10 idle and 100 open connections for an hour, whatever the configuration asks for.
  pub db_init_outcomes : Outcome (db_init env srv log)
  unfolding db_init check_db
  db_init_outcomes =
      if_cases (λ (m : Exec Unit). Outcome (m log)) is_mysql _ _
        (λ mysql. queried mysql query_answer refl) (λ other. inl (other, refl))

-- ===== src/Db.antt =====
-- pkg/plugins/httpserver/db/init.go: the connections to the database and to the cache that the HTTP
-- server opens by its configuration. gorm and redis are arguments (`Server`, `ping`): what they
-- answer to an open, to a query and to a ping.
pub mod Cache
pub mod Opens
use rpc_pigeon.Common.{
  ℕ, ◌*ℤ◌, ℤ, pos, int64, List, [], ◌∷◌, ◌++◌, Bool, true, false, Option, none, some, if◌then◌else◌,
}
use rpc_pigeon.Common.Text.{Text, codes, eq_text, to_lower}
use rpc_pigeon.Common.Run.{Run, ret, panic, ◌>>=◌, ◌>>◌}
use rpc_pigeon.Config.{Env, env_string, env_int}

pub record DbConfig : Type 0 where
  pub db_name : Text
  pub db_driver : Text
  pub db_max_idle_conns : ℤ
  pub db_max_open_conns : ℤ
  pub db_conn_max_life_time : ℤ
  pub dsn : Text

-- `dbConfigInit`
unfoldable pub db_config_init : Env → DbConfig
unfolding env_int
db_config_init env = record {
  db_name = env_string env (codes "DB_NAME");
  db_driver = env_string env (codes "DB_DRIVER");
  db_max_idle_conns = env_int env (codes "DB_MAX_IDLE_CONNS");
  db_max_open_conns = env_int env (codes "DB_MAX_OPEN_CONNS");
  db_conn_max_life_time = env_int env (codes "DB_CONN_MAX_LIFETIME");
  dsn =
      env_string env (codes "DB_USER")
      ++ codes ":"
      ++ env_string env (codes "DB_PASSWD")
      ++ codes "@tcp("
      ++ env_string env (codes "DB_HOST")
      ++ codes ":"
      ++ env_string env (codes "DB_PORT")
      ++ codes ")";
}

-- The levels of gorm's logger.
pub data LogLevel : Type 0 where
  silent : LogLevel
  error : LogLevel
  warn : LogLevel
  info : LogLevel

abbrev pub level_of : Text → LogLevel
level_of mode =
    if eq_text mode (codes "silent")
    then silent
    else if eq_text mode (codes "warn")
    then warn
    else if eq_text mode (codes "error")
    then error
    else info

-- The level of `dbInit`: the words are read only where the variable is empty.
unfoldable pub log_level : Env → LogLevel
unfolding to_lower
log_level env =
    if eq_text (env.getenv (codes "DB_LOGMODE")) []
    then level_of (to_lower (env.get_string (codes "DB_LOGMODE")))
    else info

-- A `time.Duration` of so many seconds.
abbrev pub duration_of : ℤ → ℤ
duration_of n = int64 (n *ℤ pos 1000000000)

-- How the database answers: whether `gorm.Open` succeeds, what a query finds (`none` is an error,
-- with which there are no rows), and whether a connection has its `sql.DB`.
pub record Server : Type 0 where
  pub opens : Text → Bool
  pub finds : Text → Option Bool
  pub has_sql : Bool

-- What was asked of gorm, the latest first.
pub data Call : Type 0 where
  opened : Text → Call
  raw : Text → Call
  exec : Text → Call
  close : Call
  opened_logged : Text → LogLevel → (slow_threshold : ℤ) → Call
  set_limits : (max_idle max_open life_seconds : ℕ) → Call

abbrev pub Exec : Type 0 → Type 0
Exec A = List Call → Run (List Call) A

abbrev pub pure : {A : Type 0} → A → Exec A
pure a log = ret a log

abbrev pub fail : {A : Type 0} → Exec A
fail log = panic log

abbrev pub call : Call → Exec Unit
call c log = ret tt (c ∷ log)

abbrev pub check_query : Text → Text
check_query name =
    codes "select * from information_schema.SCHEMATA where SCHEMA_NAME = '" ++ name ++ codes "'; "

abbrev pub create_query : Text → Text
create_query name =
    codes "CREATE DATABASE IF NOT EXISTS `"
    ++ name
    ++ codes "` DEFAULT CHARACTER SET utf8mb4 DEFAULT COLLATE utf8mb4_unicode_ci;"

abbrev pub create_unless : Bool → Text → Exec Unit
create_unless true name = pure tt
create_unless false name = call (exec (create_query name))

-- `checkDB` after its query: an error leaves no rows, and the deferred `rows.Close()` panics.
abbrev pub checked : Server → Text → Option Bool → Exec Bool
checked srv name none = fail
checked srv name (some found) = do
  create_unless found name
  if srv.has_sql then (do call close; pure true) else pure false

unfoldable pub check_db : Server → (name dsn : Text) → Exec Bool
check_db srv name dsn = do
  call (opened dsn)
  call (raw (check_query name))
  checked srv name (srv.finds (check_query name))

abbrev pub options_of : Text
options_of = codes "?charset=utf8mb4&parseTime=True&loc=Local"

abbrev pub dsn_of : DbConfig → Text
dsn_of cfg = cfg.dsn ++ codes "/" ++ cfg.db_name ++ options_of

-- The limits of the connection pool are the same whatever the configuration says.
abbrev pub limited : (opens has_sql : Bool) → Exec Unit
limited true true = call (set_limits 10 100 3600)
limited true false = fail
limited false has_sql = fail

-- `dbInit` after the database was checked.
abbrev pub connect : Env → Server → DbConfig → Exec Unit
connect env srv cfg = do
  call (
      opened_logged (dsn_of cfg) (log_level env)
        (duration_of (env_int env (codes "DB_SLOWTHRESHOLD"))))
  limited (srv.opens (dsn_of cfg)) srv.has_sql

-- `dbInit`: with another driver there is no connection, and `Conn.DB()` panics.
unfoldable pub db_init : Env → Server → Exec Unit
unfolding db_config_init to_lower check_db log_level env_int int64
db_init env srv =
    let cfg = db_config_init env in
    if eq_text (to_lower cfg.db_driver) (codes "mysql")
    then (do
      status ← check_db srv cfg.db_name (cfg.dsn ++ codes "/" ++ options_of)
      if status then connect env srv cfg else pure tt)
    else fail

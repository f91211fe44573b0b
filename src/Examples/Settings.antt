-- ===== src/Examples/Settings.antt =====
-- The configuration of the log, the database and the cache.
use rpc_pigeon.Common.{
  ◌≡◌, ◌≢◌, refl, ◌⊎◌, pos, [], Bool, true, false, Option, none, some, if◌then◌else◌,
}
use rpc_pigeon.Common.Text.{Text, codes, eq_text}
use rpc_pigeon.Config.{Env, parse_int}
use rpc_pigeon.Log.{Logger, init}
use rpc_pigeon.Log.Levels.{Outcome, init-Writes}
use rpc_pigeon.Db.{Server, db_init}
use rpc_pigeon.Db.Opens
use rpc_pigeon.Db.Opens.{db_init_outcomes}
use rpc_pigeon.Db.Cache.{Cache, single, sizes_of, redis_init, redis_init-sizes}

-- LOG_LEVEL is in the environment, a rotation of 1140 minutes in the file; the pool of the cache has
-- a size in the environment, which is not read.
abbrev env : Env
env = record {
  getenv = λ k.
      if eq_text k (codes "LOG_LEVEL")
      then codes "error"
      else if eq_text k (codes "CACHE_POOL_SIZE")
      then codes "50"
      else [];
  get_string = λ k.
      if eq_text k (codes "DB_DRIVER")
      then codes "MySQL"
      else if eq_text k (codes "CACHE_CONNECT_MODE")
      then codes "single"
      else codes "v";
  get_int = λ k. if eq_text k (codes "LOG_ROTATION_TIME") then pos 1140 else pos 10;
  get_bool = λ k. true;
}

abbrev rotates : Text → Bool
rotates pattern = true

abbrev logger : Option Logger → Logger
logger none = record { level_enabler = none; log_writer = none }
logger (some l) = l

init-Writes_example : Outcome env rotates (logger (init env rotates))
unfolding init
init-Writes_example = init-Writes env rotates (logger (init env rotates)) refl

-- The database is there, but does not find the schema.
abbrev server : Server
server = record { opens = λ dsn. true; finds = λ query. some false; has_sql = true }

db_init_outcomes_example : Opens.Outcome env server [] (db_init env server [])
db_init_outcomes_example = db_init_outcomes env server []

abbrev cache : Cache
cache = single (codes "v") (codes "v") (pos 10) (pos 10) (pos 10)

redis_init-sizes_example :
    ((env.getenv (codes "CACHE_DB") ≡ [])
      × (sizes_of cache
          ≡ (env.get_int (codes "CACHE_POOL_SIZE"), env.get_int (codes "CACHE_MINIDLE_CONNS"))))
    ⊎ ((env.getenv (codes "CACHE_DB") ≢ [])
        × (sizes_of cache ≡ (
          parse_int (env.getenv (codes "CACHE_POOL_SIZE")),
          parse_int (env.getenv (codes "CACHE_MINIDLE_CONNS")),
        )))
unfolding redis_init
redis_init-sizes_example = redis_init-sizes env (λ c. true) cache refl

-- ===== src/Db/Cache.antt =====
-- `cacheInit` and `redisInit` of pkg/plugins/httpserver/db/init.go: the client of the cache. The
-- answer of its ping is an argument.
use rpc_pigeon.Common.{
  ◌≡◌, ◌≢◌, refl, sym, ap, ◌∙◌, ◌⊎◌, inl, inr, ℤ, List, [], ◌∷◌, Bool, Option, none, some, arith,
  if◌then◌else◌, if_cases,
}
use rpc_pigeon.Common.Text.{Text, codes, eq_text, split}
use rpc_pigeon.Config.{Env, is_unset, env_string, env_int, env_bool, parse_int}

-- What the two kinds of clients are given. The times and retries are constants.
pub record CacheConfig : Type 0 where
  pub mode : Text
  pub addresses : List Text
  pub passwd : Text
  pub db : ℤ
  pub pool_size : ℤ
  pub minidle_conns : ℤ

-- The numbers of `CACHE_POOL_SIZE` and `CACHE_MINIDLE_CONNS`, whose test is that of `CACHE_DB`.
abbrev pub beside_db : Env → Text → ℤ
beside_db env key =
    if is_unset env (codes "CACHE_DB") then env.get_int key else parse_int (env.getenv key)

unfoldable pub cache_config : Env → CacheConfig
unfolding env_int parse_int split
cache_config env = record {
  mode = env_string env (codes "CACHE_CONNECT_MODE");
  addresses = split (env_string env (codes "CACHE_ADDRESS")) b',';
  passwd = env_string env (codes "CACHE_PASSWD");
  db = env_int env (codes "CACHE_DB");
  pool_size = beside_db env (codes "CACHE_POOL_SIZE");
  minidle_conns = beside_db env (codes "CACHE_MINIDLE_CONNS");
}

-- The client in use.
pub data Cache : Type 0 where
  cluster : (addresses : List Text) (passwd : Text) (pool_size minidle_conns : ℤ) → Cache
  single : (address passwd : Text) (db pool_size minidle_conns : ℤ) → Cache

-- How `redisInit` ends: a panic has a client that does not answer, or none.
pub data Started : Type 0 where
  off : Started
  ready : Cache → Started
  failed : Option Cache → Started

abbrev pub first_address : List Text → Text
first_address [] = []
first_address (a ∷ more) = a

abbrev pub client_of : CacheConfig → Option Cache
client_of c =
    if eq_text (codes "cluster") c.mode
    then some (cluster c.addresses c.passwd c.pool_size c.minidle_conns)
    else if eq_text (codes "single") c.mode
    then some (single (first_address c.addresses) c.passwd c.db c.pool_size c.minidle_conns)
    else none

abbrev pub pinged : (Cache → Bool) → Option Cache → Started
pinged ping none = failed none
pinged ping (some c) = if ping c then ready c else failed (some c)

unfoldable pub redis_init : Env → (Cache → Bool) → Started
unfolding cache_config
redis_init env ping = pinged ping (client_of (cache_config env))

unfoldable pub cache_init : Env → (Cache → Bool) → Started
unfolding redis_init
cache_init env ping = if env_bool env (codes "CACHE_ENABLED") then redis_init env ping else off

-- The sizes of the cache's pool, as the client has them.
abbrev pub sizes_of : Cache → ℤ × ℤ
sizes_of (cluster a p n m) = (n, m)
sizes_of (single a p d n m) = (n, m)

-- The client that a start has made, whether it answers or not.
abbrev pub started_client : Started → Option Cache
started_client off = none
started_client (ready c) = some c
started_client (failed o) = o

same_sizes : (c k : Cache) → some c ≡ some k → sizes_of k ≡ sizes_of c
same_sizes c k e = let same : k ≡ c = ground arith in ap sizes_of same

client-sizes :
    (c : CacheConfig) (k : Cache)
    → client_of c ≡ some k
    → sizes_of k ≡ (c.pool_size, c.minidle_conns)
client-sizes c k =
    if_cases (λ o. o ≡ some k → sizes_of k ≡ (c.pool_size, c.minidle_conns))
      (eq_text (codes "cluster") c.mode) _ _ (λ is_cluster e. same_sizes _ k e)
      (λ other.
        if_cases (λ o. o ≡ some k → sizes_of k ≡ (c.pool_size, c.minidle_conns))
          (eq_text (codes "single") c.mode) _ _ (λ is_single e. same_sizes _ k e)
          (λ unknown e. absurd (cc)))

-- A ping does not change the client.
pinged-client : (ping : Cache → Bool) (o : Option Cache) → started_client (pinged ping o) ≡ o
pinged-client ping none = refl
pinged-client ping (some c) =
    if_cases (λ s. started_client s ≡ some c) (ping c) _ _ (λ up. refl) (λ down. refl)

by_emptiness :
    (t : Text) (s : ℤ × ℤ) (a b c d : ℤ)
    → s ≡ (if eq_text t [] then a else b, if eq_text t [] then c else d)
    → ((t ≡ []) × (s ≡ (a, c))) ⊎ ((t ≢ []) × (s ≡ (b, d)))
by_emptiness [] s a b c d e = inl (refl, e)
by_emptiness (x ∷ t) s a b c d e = inr ((λ h. absurd (cc)), e)

-- The variables of the environment that set the sizes of the cache's pool are read exactly where
-- another one, `CACHE_DB`, is set: where it is not, any client that `redisInit` makes has viper's
-- sizes, whatever these variables say, and where it is set, the sizes are those of the variables,
-- so 0 where they are not set, whatever viper says.
pub redis_init-sizes :
    (env : Env) (ping : Cache → Bool) (k : Cache)
    → started_client (redis_init env ping) ≡ some k
    → ((env.getenv (codes "CACHE_DB") ≡ [])
        × (sizes_of k
            ≡ (env.get_int (codes "CACHE_POOL_SIZE"), env.get_int (codes "CACHE_MINIDLE_CONNS"))))
      ⊎ ((env.getenv (codes "CACHE_DB") ≢ [])
          × (sizes_of k ≡ (
            parse_int (env.getenv (codes "CACHE_POOL_SIZE")),
            parse_int (env.getenv (codes "CACHE_MINIDLE_CONNS")),
          )))
unfolding redis_init cache_config
redis_init-sizes env ping k e =
    let sizes =
      client-sizes (cache_config env) k
        (sym (pinged-client ping (client_of (cache_config env))) ∙ e) in
    by_emptiness (env.getenv (codes "CACHE_DB")) (sizes_of k)
      (env.get_int (codes "CACHE_POOL_SIZE")) (parse_int (env.getenv (codes "CACHE_POOL_SIZE")))
      (env.get_int (codes "CACHE_MINIDLE_CONNS"))
      (parse_int (env.getenv (codes "CACHE_MINIDLE_CONNS"))) sizes

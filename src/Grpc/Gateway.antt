-- ===== src/Grpc/Gateway.antt =====
-- pkg/plugins/pool/grpc/grpc.go: how the gateway's pools are made and released. The globals that are
-- written here are a record, `Gate`; PoolConfig.yaml, which viper reads, is given as records whose
-- fields have the types that the code asserts. `grpcDial` is an argument. What is only logged is
-- left out, and `log.Fatalf` ends the process, so it is a panic.
pub mod Cluster
pub mod Release
pub mod Makes
pub mod Upright
pub mod Installs
pub mod Entries
pub mod Setup
use rpc_pigeon.Common.{
  ℕ, zero, suc, ◌+◌, ◌-◌, ◌*◌, ◌/◌, ◌%◌, ◌^◌, ℤ, pos, negsuc, ◌*ℤ◌, ◌+ℤ◌, int32, int64, eqb_ℤ, List,
  [], ◌∷◌, ◌++◌, Bool, true, false, Option, none, some, ◌==◌, if◌then◌else◌,
}
use rpc_pigeon.Common.Text.{Text, codes, eq_text, to_lower}
use rpc_pigeon.Common.Dict.{Dict, get, put, remove}
use rpc_pigeon.Common.Run.{Run, ret, panic, ◌>>=◌, ◌>>◌}
use rpc_pigeon.Grpc.Heap.{Error, Time, Duration, Factory, Client, Exec, pure, load_pool, store_pool}
use rpc_pigeon.Grpc.Pool.{new_pool, close, strict_network_mode, global_network_mode}
use rpc_pigeon.Grpc.Tenant.Init.{TenantConfig, Tenants, init_tenant_pool}
use rpc_pigeon.Grpc.Director.{Globals}

-- The engines that the gateway knows.
pub data Engine : Type 0 where
  asr tts : Engine

-- `switch engineType`
unfoldable pub engine_of : Text → Option Engine
engine_of name =
    if eq_text name (codes "asr")
    then some asr
    else if eq_text name (codes "tts")
    then some tts
    else none

-- `Options` of options.go, without the field `Dial`, which is always `grpcDial`.
pub record Options : Type 0 where
  pub pool_model : ℤ
  pub max_idle : ℤ
  pub max_active : ℤ
  pub max_concurrent_streams : ℤ
  pub reusable : Bool
  pub request_idle_time : ℤ
  pub request_max_life : ℤ
  pub request_time_out : ℤ
  pub gateway_proxy_addr : Text
  pub gateway_proxy_port : Text
  pub pool_status : Bool

-- An entry of ENGINE_LIST, with the id that `GenXid` makes for it.
pub record EngineEntry : Type 0 where
  pub server_host : Text
  pub engine_grpc_pool_size : ℤ
  pub xid : Text

-- An entry of `pool.engine` in PoolConfig.yaml.
pub record EngineConfig : Type 0 where
  pub engine_name : Text
  pub engine_server_port : Text
  pub engine_pool_init_interval_time : ℤ
  pub pool_model : ℤ
  pub grpc_request_reusable : Bool
  pub request_idle_time : ℤ
  pub request_max_life : ℤ
  pub request_timeout : ℤ
  pub gateway_proxy_port : Text
  pub pool_enabled : Bool
  pub engine_list : List EngineEntry

-- What `InitGrpcPool` sets of `pool.setting`.
pub record Setting : Type 0 where
  pub enabled : Bool
  pub omp_enabled : Bool
  pub tenant_enabled : Bool
  pub network_mode : ℤ
  pub gateway_proxy_addr : Text
  pub cluster_enabled : Bool
  pub cluster_node_num : ℤ

pub record Gate : Type 0 where
  pub globals : Globals
  pub asr_options : Options
  pub tts_options : Options
  pub engine_svc_port : Dict Text
  pub engine_pool_init_time : Dict ℤ
  pub gateway_proxy_addr : Text
  pub engine_cluster_enabled : Bool
  pub engine_cluster_node_num : ℤ
  pub failed_pool_status : Bool

abbrev pub pools_of : Engine → Gate → Dict ℕ
pools_of asr g = g.globals.asr_pools
pools_of tts g = g.globals.tts_pools

abbrev pub with_pools : Engine → Dict ℕ → Gate → Gate
with_pools asr pools g = record g { globals = record g.globals { asr_pools = pools } }
with_pools tts pools g = record g { globals = record g.globals { tts_pools = pools } }

abbrev pub options_of : Engine → Gate → Options
options_of asr g = g.asr_options
options_of tts g = g.tts_options

-- `time.Duration(n) * time.Second`
abbrev pub seconds : ℤ → Duration
seconds n = int64 (n *ℤ pos (10 ^ 9))

-- `newGrpcPool`
unfoldable pub new_grpc_pool :
    (Text → Factory) → Text → Options → Time → Exec (Option ℕ × Option Error)
unfolding new_pool
new_grpc_pool grpc_dial address option now =
    new_pool (some (grpc_dial address)) (int32 option.max_idle) (int32 option.max_active)
      (seconds option.request_idle_time) (seconds option.request_max_life)
      (seconds option.request_time_out) option.pool_model now

-- Go's division and remainder on `int`, which cut towards 0 and panic on 0.
abbrev neg : ℕ → ℤ
neg zero = pos 0
neg (suc n) = negsuc n

unfoldable pub quotient : ℤ → ℤ → Exec ℤ
quotient a (pos zero) = panic
quotient (pos a) (pos (suc b)) = pure (pos (a / suc b))
quotient (negsuc a) (pos (suc b)) = pure (neg (suc a / suc b))
quotient (pos a) (negsuc b) = pure (neg (a / suc b))
quotient (negsuc a) (negsuc b) = pure (int64 (pos (suc a / suc b)))

-- `n%2 == 0`
abbrev pub is_even : ℤ → Bool
is_even (pos a) = a % 2 == 0
is_even (negsuc a) = suc a % 2 == 0

-- A node's part of an engine's connections.
unfoldable pub cluster_size : Gate → ℤ → Exec ℤ
unfolding quotient
cluster_size g n =
    if g.engine_cluster_enabled
    then (do
      q ← quotient n g.engine_cluster_node_num
      pure (if is_even n then q else int64 (q +ℤ pos 1)))
    else pure n

-- The address that a gateway of the engine has from now on.
abbrev pub proxy_addr : Gate → Options → Text → Text
proxy_addr g op before =
    if eqb_ℤ g.globals.network_mode strict_network_mode
    then g.gateway_proxy_addr ++ b':' ∷ op.gateway_proxy_port
    else if eqb_ℤ g.globals.network_mode global_network_mode
    then op.gateway_proxy_port
    else before

-- The options, the address and the pool of an engine are set.
unfoldable pub install : Option Engine → Options → Text → ℕ → Gate → Gate
unfolding put
install none op name p g = g
install (some asr) op name p g = record g {
  asr_options = op;
  globals = record g.globals {
    asr_gateway_proxy_addr = proxy_addr g op g.globals.asr_gateway_proxy_addr;
    asr_pools = put g.globals.asr_pools name p;
  };
}
install (some tts) op name p g = record g {
  tts_options = op;
  globals = record g.globals {
    tts_gateway_proxy_addr = proxy_addr g op g.globals.tts_gateway_proxy_addr;
    tts_pools = put g.globals.tts_pools name p;
  };
}

-- `p.poolRemoteAddr` and `p.name` of what `newGrpcPool` returned.
abbrev pub named : (addr name : Text) → Option ℕ × Option Error → Exec ℕ
named addr name (p, some err) = panic
named addr name (none, none) = panic
named addr name (some p, none) = do
  pool ← load_pool p
  store_pool p (record pool { name = name; pool_remote_addr = addr })
  pure p

abbrev pub options : EngineConfig → (size : ℤ) (proxy : Text) → Options
options c size proxy = record {
  pool_model = c.pool_model;
  max_idle = size;
  max_active = size;
  max_concurrent_streams = pos 0;
  reusable = c.grpc_request_reusable;
  request_idle_time = c.request_idle_time;
  request_max_life = c.request_max_life;
  request_time_out = c.request_timeout;
  gateway_proxy_addr = proxy;
  gateway_proxy_port = c.gateway_proxy_port;
  pool_status = c.pool_enabled;
}

-- What `InitGrpcPoolByOmp` is told of an engine that was found.
pub record Found : Type 0 where
  pub engine_type : Text
  pub engine_cc_num : ℤ
  pub scene_code : Text
  pub server_host : Text

-- The body of its loop. A node's part is computed, and not used.
unfoldable pub by_omp_engine : (Text → Factory) → Time → Found → EngineConfig → Gate → Exec Gate
unfolding new_grpc_pool cluster_size install load_pool store_pool to_lower engine_of
by_omp_engine grpc_dial now found c g =
    if eq_text (to_lower c.engine_name) found.engine_type
    then (do
      let addr = found.server_host ++ b':' ∷ c.engine_server_port
      let op = options c found.engine_cc_num addr
      cluster_size g found.engine_cc_num
      r ← new_grpc_pool grpc_dial addr op now
      p ← named addr found.scene_code r
      pure (install (engine_of found.engine_type) op found.scene_code p g))
    else pure g

-- `InitGrpcPoolByOmp`
unfoldable pub init_grpc_pool_by_omp :
    (Text → Factory) → Time → Found → List EngineConfig → Gate → Exec Gate
unfolding by_omp_engine
init_grpc_pool_by_omp grpc_dial now found [] g = pure g
init_grpc_pool_by_omp grpc_dial now found (c ∷ engines) g = do
  g' ← by_omp_engine grpc_dial now found c g
  init_grpc_pool_by_omp grpc_dial now found engines g'

-- The pool leaves its map, and the goroutine of `Close` has the clients that are given.
abbrev pub released : Engine → Text → Gate → Option ℕ → Exec (Gate × List (Option Client))
released e name g none = pure (g, [])
released e name g (some p) = do
  left ← close p
  pure (with_pools e (remove (pools_of e g) name) g, left)

-- `ReleaseGrpcPool`
unfoldable pub release_grpc_pool :
    (pool_name engine_type : Text) → Gate → Exec (Gate × List (Option Client))
unfolding get remove close to_lower engine_of
release_grpc_pool name engine_type g = elim (engine_of (to_lower engine_type)) [
  | none ↦ pure (g, [])
  | some e ↦ released e name g (get (pools_of e g) name)
]

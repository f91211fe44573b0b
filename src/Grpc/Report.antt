-- ===== src/Grpc/Report.antt =====
-- What the gateway reports of its pools: `GetAsrPoolMetricsData` and `GetTtsPoolMetricsData` of
-- pkg/plugins/pool/grpc/grpc.go, and `ASRMetrics` and `TTSMetrics` of pkg/plugins/metrics/engine.go.
-- The functions of the two engines have the same code. `json.Marshal` is an argument of the latter.
pub mod Sums
use rpc_pigeon.Common.{
  ℕ, ℤ, pos, leb_ℤ, List, [], ◌∷◌, ◌++◌, map, Bool, true, false, Option, none, some, if◌then◌else◌,
}
use rpc_pigeon.Common.Text.{Text, codes}
use rpc_pigeon.Common.Dict.{Dict}
use rpc_pigeon.Common.Run.{Run, ret, ◌>>=◌, ◌>>◌}
use rpc_pigeon.Grpc.Heap.{Pool, Tenant, Exec, pure, load_pool, load_tenant}
use rpc_pigeon.Grpc.Pool.{pool_size, get_conn_current}
use rpc_pigeon.Grpc.Tenant
use rpc_pigeon.Grpc.Tenant.{tenant_size}
use rpc_pigeon.Grpc.Gateway.{Engine, asr, tts, Gate, pools_of, options_of}

-- The map of one engine.
pub record EngineData : Type 0 where
  pub engine_name : Text
  pub conn_current : ℤ
  pub pool_current_size : ℕ
  pub pool_size : ℤ
  pub pool_remote_addr : Text

pub record TenantData : Type 0 where
  pub tenant_id : Text
  pub tenant_name : Text
  pub conn_current : ℤ
  pub pool_current_size : ℕ
  pub pool_size : ℤ
  pub pool_remote_addr : Text

-- The keys "engines" and "tenants", of which the latter may be missing.
pub record MetricsMap : Type 0 where
  pub engines : List EngineData
  pub tenants : Option (List TenantData)

unfoldable pub engine_data : Pool → EngineData
unfolding get_conn_current
engine_data pool = record {
  engine_name = pool.name;
  conn_current =
      if leb_ℤ pool.capacity (pos (pool_size pool)) then pos 0 else get_conn_current pool;
  pool_current_size = pool_size pool;
  pool_size = pool.capacity;
  pool_remote_addr = pool.pool_remote_addr;
}

-- The loop over the pools: one that is down is passed over.
unfoldable pub engines_data : Dict ℕ → Exec (List EngineData)
unfolding load_pool engine_data
engines_data [] = pure []
engines_data ((k, p) ∷ pools) = do
  pool ← load_pool p
  rest ← engines_data pools
  pure (if pool.status then engine_data pool ∷ rest else rest)

unfoldable pub tenant_data : Tenant → TenantData
unfolding Tenant.get_conn_current
tenant_data tenant = record {
  tenant_id = tenant.id;
  tenant_name = tenant.tenant_name;
  conn_current =
      if leb_ℤ tenant.capacity (pos (tenant_size tenant))
      then pos 0
      else Tenant.get_conn_current tenant;
  pool_current_size = tenant_size tenant;
  pool_size = tenant.capacity;
  pool_remote_addr = tenant.pool_remote_addr;
}

unfoldable pub tenants_data : Dict ℕ → Exec (List TenantData)
unfolding load_tenant tenant_data
tenants_data [] = pure []
tenants_data ((k, t) ∷ tenants) = do
  tenant ← load_tenant t
  rest ← tenants_data tenants
  pure (tenant_data tenant ∷ rest)

abbrev pub no_data : EngineData
no_data = record {
  engine_name = [];
  conn_current = pos 0;
  pool_current_size = 0;
  pool_size = pos 0;
  pool_remote_addr = [];
}

abbrev pub tenants_of : Engine → Gate → Dict ℕ
tenants_of asr g = g.globals.tenants.asr
tenants_of tts g = g.globals.tenants.tts

-- `GetAsrPoolMetricsData` and `GetTtsPoolMetricsData`
unfoldable pub get_pool_metrics_data : Engine → Gate → Exec (MetricsMap × Bool)
unfolding engines_data tenants_data
get_pool_metrics_data e g =
    if (options_of e g).pool_status
    then (do
      engines ← engines_data (pools_of e g)
      tenants ←
          (if g.globals.tenant_enabled
            then (do ts ← tenants_data (tenants_of e g); pure (some ts))
            else pure none)
      pure (record { engines = engines; tenants = tenants }, true))
    else pure (record { engines = no_data ∷ []; tenants = none }, false)

-- `MetricsData` of engine.go.
pub record MetricsData : Type 0 where
  pub metrics_name : Text
  pub metrics_data : Text
  pub metrics_module : Text
  pub metrics_status : Bool

abbrev pub module_of : Engine → Text
module_of asr = codes "ASR"
module_of tts = codes "TTS"

-- A missing list of tenants adds nothing.
abbrev pub given : Option (List TenantData) → List TenantData
given none = []
given (some ts) = ts

abbrev pub metrics_of :
    (EngineData → Text) → (TenantData → Text) → Engine → MetricsMap × Bool → List MetricsData
metrics_of json_engine json_tenant e (m, status) =
    map
      (λ d. record {
        metrics_name = codes "engineData";
        metrics_data = json_engine d;
        metrics_module = module_of e;
        metrics_status = status;
      })
      m.engines
    ++ map
        (λ d. record {
          metrics_name = codes "tenantEngineData";
          metrics_data = json_tenant d;
          metrics_module = module_of e;
          metrics_status = status;
        })
        (given m.tenants)

-- `ASRMetrics` and `TTSMetrics`
unfoldable pub metrics :
    (EngineData → Text) → (TenantData → Text) → Engine → Gate → Exec (List MetricsData)
unfolding get_pool_metrics_data
metrics json_engine json_tenant e g = do
  m ← get_pool_metrics_data e g
  pure (metrics_of json_engine json_tenant e m)

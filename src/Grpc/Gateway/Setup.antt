-- ===== src/Grpc/Gateway/Setup.antt =====
-- `InitGrpcPool` and `initPoolForTenant` of pkg/plugins/pool/grpc/grpc.go: the pools and tenants of
-- the configuration.
use rpc_pigeon.Common.{ℕ, List, [], ◌∷◌, ◌++◌, Option, none, some, if◌then◌else◌}
use rpc_pigeon.Common.Text.{Text, codes, to_lower}
use rpc_pigeon.Common.Dict.{Dict, put}
use rpc_pigeon.Common.Run.{◌>>=◌}
use rpc_pigeon.Grpc.Heap.{Time, Factory, Exec, pure, load_pool, store_pool}
use rpc_pigeon.Grpc.Tenant.Init.{TenantConfig, init_tenant_pool}
use rpc_pigeon.Grpc.Gateway.{
  Engine, asr, tts, engine_of, EngineEntry, EngineConfig, Setting, Gate, new_grpc_pool,
  cluster_size, install, named, options,
}

-- The pool of one entry of ENGINE_LIST.
unfoldable pub init_entry : (Text → Factory) → Time → EngineConfig → EngineEntry → Gate → Exec Gate
unfolding new_grpc_pool cluster_size install load_pool store_pool to_lower engine_of
init_entry grpc_dial now c e g = do
  let addr = e.server_host ++ b':' ∷ c.engine_server_port
  size ← cluster_size g e.engine_grpc_pool_size
  let op = options c size g.gateway_proxy_addr
  r ← new_grpc_pool grpc_dial addr op now
  p ← named addr e.xid r
  pure (install (engine_of (to_lower c.engine_name)) op e.xid p g)

unfoldable pub init_entries :
    (Text → Factory) → Time → EngineConfig → List EngineEntry → Gate → Exec Gate
unfolding init_entry
init_entries grpc_dial now c [] g = pure g
init_entries grpc_dial now c (e ∷ es) g = do
  g' ← init_entry grpc_dial now c e g
  init_entries grpc_dial now c es g'

-- The maps of the engine's port and of its interval.
abbrev pub set_ports : Option Engine → EngineConfig → Gate → Gate
set_ports none c g = g
set_ports (some asr) c g = record g {
  engine_svc_port = put g.engine_svc_port (codes "asr") c.engine_server_port;
  engine_pool_init_time =
      put g.engine_pool_init_time (codes "asr") c.engine_pool_init_interval_time;
}
set_ports (some tts) c g = record g {
  engine_svc_port = put g.engine_svc_port (codes "tts") c.engine_server_port;
  engine_pool_init_time =
      put g.engine_pool_init_time (codes "tts") c.engine_pool_init_interval_time;
}

-- The loop of `InitGrpcPool` over the engines: with OMP no pool is made here.
unfoldable pub init_engine : (Text → Factory) → Time → EngineConfig → Gate → Exec Gate
unfolding init_entries put to_lower engine_of
init_engine grpc_dial now c g =
    if c.pool_enabled
    then (let g' = set_ports (engine_of (to_lower c.engine_name)) c g in
        if g.globals.omp_enabled then pure g' else init_entries grpc_dial now c c.engine_list g')
    else pure g

unfoldable pub init_engines : (Text → Factory) → Time → List EngineConfig → Gate → Exec Gate
unfolding init_engine
init_engines grpc_dial now [] g = pure g
init_engines grpc_dial now (c ∷ cs) g = do
  g' ← init_engine grpc_dial now c g
  init_engines grpc_dial now cs g'

abbrev pub with_setting : Setting → Gate → Gate
with_setting s g = record g {
  globals = record g.globals {
    omp_enabled = s.omp_enabled;
    tenant_enabled = s.tenant_enabled;
    network_mode = s.network_mode;
  };
  gateway_proxy_addr = s.gateway_proxy_addr;
  engine_cluster_enabled = s.cluster_enabled;
  engine_cluster_node_num = s.cluster_node_num;
}

-- `initPoolForTenant`: each time that a tenant's client is taken, the map of the engine's pools is in
-- the order that `order` gives it.
unfoldable pub init_pool_for_tenant :
    (ℕ → ℕ → Dict ℕ → Dict ℕ) → List TenantConfig → Gate → Exec Gate
unfolding init_tenant_pool
init_pool_for_tenant order configs g =
    if g.globals.tenant_enabled
    then (do
      tenants ←
          init_tenant_pool (λ i j. order i j g.globals.asr_pools)
            (λ i j. order i j g.globals.tts_pools) configs (record { asr = []; tts = [] })
      pure (record g { globals = record g.globals { tenants = tenants } }))
    else pure g

-- `InitGrpcPool`, up to the goroutines that it starts at its end.
unfoldable pub init_grpc_pool :
    (Text → Factory)
    → Time
    → (ℕ → ℕ → Dict ℕ → Dict ℕ)
    → Setting
    → List EngineConfig
    → List TenantConfig
    → Gate
    → Exec Gate
unfolding init_engines init_pool_for_tenant
init_grpc_pool grpc_dial now order s engines tenants g =
    if s.enabled
    then (do
      g' ← init_engines grpc_dial now engines (with_setting s g)
      if s.omp_enabled then pure g' else init_pool_for_tenant order tenants g')
    else pure g

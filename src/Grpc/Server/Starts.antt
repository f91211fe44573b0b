-- ===== src/Grpc/Server/Starts.antt =====
-- What `GRPCServer` (proxy/grpc.go) sets up: pools for the engines, and servers at the addresses that
-- the director knows them by.
use rpc_pigeon.Common.{
  ℕ, ◌≡◌, refl, ◌∙◌, ap, List, [], true, false, ◌⊎◌, All, if◌then◌else◌, eqb_ℤ, if_on, if_off,
  subst,
}
use rpc_pigeon.Common.Text.{Text}
use rpc_pigeon.Common.Dict.{Dict}
use rpc_pigeon.Common.Run.{ret, and_then}
use rpc_pigeon.Grpc.Heap.{Time, Factory, Heap, pure}
use rpc_pigeon.Grpc.Pool.{strict_network_mode}
use rpc_pigeon.Grpc.Tenant.Init.{TenantConfig}
use rpc_pigeon.Grpc.Gateway.{Engine, asr, tts, EngineConfig, Setting, Gate, pools_of}
use rpc_pigeon.Grpc.Gateway.Setup.{init_engines, init_grpc_pool, with_setting, init_pool_for_tenant}
use rpc_pigeon.Grpc.Server.{start_servers, grpc_server}
use rpc_pigeon.Grpc.Server.Serves.{Sound, Foreigners, Serves}
use rpc_pigeon.Grpc.Gateway.Upright.{Upright}
use rpc_pigeon.Grpc.Server.Loop.{engines-Started}

module _ (dial : Text → Factory) (now : Time)
    (up : (addr : Text) (i : ℕ) → dial addr i ≡ true) where
  tenants_skipped :
      (order : ℕ → ℕ → Dict ℕ → Dict ℕ) (tenants : List TenantConfig) (g : Gate) (h : Heap)
      → g.globals.tenant_enabled ≡ false
      → init_pool_for_tenant order tenants g h ≡ ret g h
  unfolding init_pool_for_tenant
  tenants_skipped order tenants g h off =
      ap (λ m. m h) (if_off g.globals.tenant_enabled _ (pure g) off)

  pool_set :
      (order : ℕ → ℕ → Dict ℕ → Dict ℕ) (s : Setting) (cs : List EngineConfig)
      (tenants : List TenantConfig) (g g' : Gate) (h h' : Heap)
      → s.enabled ≡ true
      → s.omp_enabled ≡ false
      → init_engines dial now cs (with_setting s g) h ≡ ret g' h'
      → g'.globals.tenant_enabled ≡ false
      → init_grpc_pool dial now order s cs tenants g h ≡ ret g' h'
  unfolding init_grpc_pool
  pool_set order s cs tenants g g' h h' on alone run off =
      ap (λ m. m h) (if_on s.enabled _ (pure g) on)
      ∙ ap
          (λ r.
            and_then r
              (λ g. if s.omp_enabled then pure g else init_pool_for_tenant order tenants g))
          run
      ∙ ap (λ m. m h') (if_off s.omp_enabled (pure g') _ alone)
      ∙ tenants_skipped order tenants g' h' off

  with_setting-same :
      (s : Setting) (g : Gate) (d : Engine) → pools_of d g ≡ pools_of d (with_setting s g)
  with_setting-same s g asr = refl
  with_setting-same s g tts = refl

  -- `GRPCServer` returns, and maps whose pools are made and up stay so.
  pub grpc_server_total :
      (order : ℕ → ℕ → Dict ℕ → Dict ℕ) (s : Setting) (cs : List EngineConfig)
      (tenants : List TenantConfig) (g : Gate) (h : Heap)
      → s.enabled ≡ true
      → s.omp_enabled ≡ false
      → s.tenant_enabled ≡ false
      → s.cluster_enabled ≡ false
      → eqb_ℤ s.network_mode strict_network_mode ≡ true
      → All (λ c. (c.pool_enabled ≡ false) ⊎ Sound c) cs
      → Foreigners cs
      → (g' : Gate) × (h' : Heap) × (grpc_server dial now order s cs tenants g h
          ≡ ret (g', start_servers s.gateway_proxy_addr cs) h')
        × All (Serves (start_servers s.gateway_proxy_addr cs) g' h') cs
        × ((d : Engine) → Upright h (pools_of d g) → Upright h' (pools_of d g'))
  unfolding grpc_server
  grpc_server_total order s cs tenants g h on alone untenanted single strict sound foreign =
      let (g', h', runs, v) =
        engines-Started dial now up s.gateway_proxy_addr cs (with_setting s g) h sound foreign alone
          single refl strict in
      (
        g',
        h',
        ap (λ m. m h) (if_on s.enabled _ (pure (g, [])) on)
            ∙ ap (λ r. and_then r (λ g. pure (g, start_servers s.gateway_proxy_addr cs)))
                (pool_set order s cs tenants g g' h h' on alone runs (v.tenant ∙ untenanted)),
        v.serves,
        λ d ok. v.upright d (subst (Upright h) (same d) ok),
      )
    where
      same : (d : Engine) → pools_of d g ≡ pools_of d (with_setting s g)
      same d = with_setting-same s g d

  -- The gateway is enabled, alone, in the strict network mode, and without OMP and tenants; every dial
  -- succeeds; and each enabled engine is a known one, with times that are not negative and entries
  -- with distinct names and positive sizes that fit an `int32`. Then `GRPCServer` returns and starts a server
  -- for each enabled engine, in their order. Each entry's name has a pool with its name, size and
  -- address, which is up and whose channel is full; and the address by which the director knows an
  -- enabled engine with entries is one at which a server of this engine listens.
  pub grpc_server-Serves :
      (order : ℕ → ℕ → Dict ℕ → Dict ℕ) (s : Setting) (cs : List EngineConfig)
      (tenants : List TenantConfig) (g : Gate) (h : Heap)
      → s.enabled ≡ true
      → s.omp_enabled ≡ false
      → s.tenant_enabled ≡ false
      → s.cluster_enabled ≡ false
      → eqb_ℤ s.network_mode strict_network_mode ≡ true
      → All (λ c. (c.pool_enabled ≡ false) ⊎ Sound c) cs
      → Foreigners cs
      → (g' : Gate) × (h' : Heap) × (grpc_server dial now order s cs tenants g h
          ≡ ret (g', start_servers s.gateway_proxy_addr cs) h')
        × All (Serves (start_servers s.gateway_proxy_addr cs) g' h') cs
  grpc_server-Serves order s cs tenants g h on alone untenanted single strict sound foreign =
      let (g', h', runs, serves, upright) =
        grpc_server_total order s cs tenants g h on alone untenanted single strict sound foreign in
      (g', h', runs, serves)

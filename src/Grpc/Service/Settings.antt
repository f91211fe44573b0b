-- ===== src/Grpc/Service/Settings.antt =====
-- The set-up of the gateway and a round of the health task are sequences of calls of the pools.
use rpc_pigeon.Common.{
  ℕ, ◌<◌, ◌^◌, ◌≡◌, pos, List, [], ◌∷◌, ◌++◌, Bool, true, false, arith, All, length, not,
  if◌then◌else◌,
}
use rpc_pigeon.Common.Text.{Text, to_lower}
use rpc_pigeon.Common.Dict.{Dict}
use rpc_pigeon.Common.Run.{Run, ret, ◌>>=◌, and_then, and_then-eq-ret}
use rpc_pigeon.Grpc.Heap.{Time, Factory, Heap, Exec, pure, load_pool, store_pool}
use rpc_pigeon.Grpc.Pool.Acquire.{KnownMode}
use rpc_pigeon.Grpc.Tenant.Init.{TenantConfig, Tenants, init_tenant, init_tenant_pool}
use rpc_pigeon.Grpc.System.{Sys, admit, here, next}
use rpc_pigeon.Grpc.Gateway.{
  Engine, engine_of, EngineEntry, EngineConfig, Setting, Gate, cluster_size, options, pools_of,
}
use rpc_pigeon.Grpc.Gateway.Setup.{
  init_entry, init_entries, set_ports, init_engine, init_engines, with_setting,
  init_pool_for_tenant, init_grpc_pool,
}
use rpc_pigeon.Grpc.Health.{check_pool, check_pools, check_status, check_grpc_serer_health}
use rpc_pigeon.Grpc.Service.Pools.{
  Goes, Goes-same, Goes-trans, built, built-Goes, cluster_size-heap, loaded, store-Goes,
}

-- A tenant's pool size fits an `int32`.
abbrev pub FitsInt32 : TenantConfig → Type 0
FitsInt32 config = (cap : ℕ) × (config.engine_pool_size ≡ pos cap) × (cap < 2 ^ 31)

pub init_tenant_pool-Goes :
    (s : Sys) (asr tts : ℕ → ℕ → Dict ℕ) (configs : List TenantConfig) (tenants r : Tenants)
    (h : Heap)
    → All FitsInt32 configs
    → init_tenant_pool asr tts configs tenants s.heap ≡ ret r h
    → Goes s h
unfolding init_tenant_pool
init_tenant_pool-Goes s asr tts [] tenants r h fits e = Goes-same s h (ground arith)
init_tenant_pool-Goes s asr tts (config ∷ configs) tenants r h fits e =
    let (cap, exact, small) = fits.0 in
    let (tenants', h₁, e₁, e₂) =
      and_then-eq-ret
        (init_tenant (asr (length configs)) (tts (length configs)) config tenants s.heap) _ e in
    Goes-trans s h₁ h
      (next here (
        admit (asr (length configs)) (tts (length configs)) config cap tenants tenants' h₁ exact
          small e₁))
      (init_tenant_pool-Goes (record s { heap = h₁ }) asr tts configs tenants' r h fits.1 e₂)

module _ (dial : Text → Factory) (now : Time) where
  init_entry-Goes :
      (s : Sys) (c : EngineConfig) (entry : EngineEntry) (g g' : Gate) (h : Heap)
      → KnownMode c.pool_model
      → init_entry dial now c entry g s.heap ≡ ret g' h
      → Goes s h
  unfolding init_entry
  init_entry-Goes s c entry g g' h known e =
      let addr = entry.server_host ++ b':' ∷ c.engine_server_port in
      let e' : and_then (cluster_size g entry.engine_grpc_pool_size s.heap) (λ size.
        built dial now addr entry.xid (options c size g.gateway_proxy_addr)
          (engine_of (to_lower c.engine_name)) g)
          ≡ ret g' h =
        e in
      let (size, h₁, e₁, e₂) =
        and_then-eq-ret (cluster_size g entry.engine_grpc_pool_size s.heap) _ e' in
      built-Goes dial now s addr entry.xid (options c size g.gateway_proxy_addr)
        (engine_of (to_lower c.engine_name)) g g' h known
        (rw (cluster_size-heap g entry.engine_grpc_pool_size s.heap size h₁ e₁) at e₂)

  init_entries-Goes :
      (s : Sys) (c : EngineConfig) (entries : List EngineEntry) (g g' : Gate) (h : Heap)
      → KnownMode c.pool_model
      → init_entries dial now c entries g s.heap ≡ ret g' h
      → Goes s h
  unfolding init_entries
  init_entries-Goes s c [] g g' h known e = Goes-same s h (ground arith)
  init_entries-Goes s c (entry ∷ entries) g g' h known e =
      let (g₁, h₁, e₁, e₂) = and_then-eq-ret (init_entry dial now c entry g s.heap) _ e in
      Goes-trans s h₁ h (init_entry-Goes s c entry g g₁ h₁ known e₁)
        (init_entries-Goes (record s { heap = h₁ }) c entries g₁ g' h known e₂)

  still :
      (s : Sys) (g g' : Gate) (h : Heap)
      → ◌≡◌ {A = Run Heap Gate} (ret g s.heap) (ret g' h)
      → Goes s h
  still s g g' h e = Goes-same s h (ground arith)

  -- One of two runs, by a setting.
  if-Goes :
      (s : Sys) (b : Bool) (on off : Exec Gate) (g' : Gate) (h : Heap)
      → (on s.heap ≡ ret g' h → Goes s h)
      → (off s.heap ≡ ret g' h → Goes s h)
      → (if b then on else off) s.heap ≡ ret g' h
      → Goes s h
  if-Goes s true on off g' h a b e = a e
  if-Goes s false on off g' h a b e = b e

  init_engine-Goes :
      (s : Sys) (c : EngineConfig) (g g' : Gate) (h : Heap)
      → KnownMode c.pool_model
      → init_engine dial now c g s.heap ≡ ret g' h
      → Goes s h
  unfolding init_engine
  init_engine-Goes s c g g' h known e =
      let g₁ = set_ports (engine_of (to_lower c.engine_name)) c g in
      if-Goes s c.pool_enabled
        (if g.globals.omp_enabled then pure g₁ else init_entries dial now c c.engine_list g₁)
        (pure g) g' h
        (if-Goes s g.globals.omp_enabled (pure g₁) (init_entries dial now c c.engine_list g₁) g' h
          (still s g₁ g' h) (init_entries-Goes s c c.engine_list g₁ g' h known))
        (still s g g' h) e

  init_engines-Goes :
      (s : Sys) (cs : List EngineConfig) (g g' : Gate) (h : Heap)
      → All (λ c. KnownMode c.pool_model) cs
      → init_engines dial now cs g s.heap ≡ ret g' h
      → Goes s h
  unfolding init_engines
  init_engines-Goes s [] g g' h known e = Goes-same s h (ground arith)
  init_engines-Goes s (c ∷ cs) g g' h known e =
      let (g₁, h₁, e₁, e₂) = and_then-eq-ret (init_engine dial now c g s.heap) _ e in
      Goes-trans s h₁ h (init_engine-Goes s c g g₁ h₁ known.0 e₁)
        (init_engines-Goes (record s { heap = h₁ }) cs g₁ g' h known.1 e₂)

  tenants-Goes :
      (s : Sys) (order : ℕ → ℕ → Dict ℕ → Dict ℕ) (configs : List TenantConfig) (g g' : Gate)
      (h : Heap)
      → All FitsInt32 configs
      → init_pool_for_tenant order configs g s.heap ≡ ret g' h
      → Goes s h
  unfolding init_pool_for_tenant
  tenants-Goes s order configs g g' h fits =
      let asr = λ (i j : ℕ). order i j g.globals.asr_pools in
      let tts = λ (i j : ℕ). order i j g.globals.tts_pools in
      let fresh : Tenants = record { asr = []; tts = [] } in
      let run = init_tenant_pool asr tts configs fresh in
      if-Goes s g.globals.tenant_enabled
        (run >>= (λ t. ret (record g { globals = record g.globals { tenants = t } }))) (pure g) g' h
        (λ e.
          let (t, h₁, e₁, e₂) = and_then-eq-ret (run s.heap) _ e in
          let ends : h ≡ h₁ = ground arith in
          rw ends (init_tenant_pool-Goes s asr tts configs fresh t h₁ fits e₁))
        (still s g g' h)

  pub init_grpc_pool-Goes :
      (s : Sys) (order : ℕ → ℕ → Dict ℕ → Dict ℕ) (setting : Setting) (engines : List EngineConfig)
      (configs : List TenantConfig) (g g' : Gate) (h : Heap)
      → All (λ c. KnownMode c.pool_model) engines
      → All FitsInt32 configs
      → init_grpc_pool dial now order setting engines configs g s.heap ≡ ret g' h
      → Goes s h
  unfolding init_grpc_pool
  init_grpc_pool-Goes s order setting engines configs g g' h known fits =
      let first = init_engines dial now engines (with_setting setting g) in
      let then_tenants : Gate → Exec Gate =
        λ g₁. if setting.omp_enabled then pure g₁ else init_pool_for_tenant order configs g₁ in
      if-Goes s setting.enabled (first >>= then_tenants) (pure g) g' h
        (λ e.
          let (g₁, h₁, e₁, e₂) = and_then-eq-ret (first s.heap) then_tenants e in
          let s₁ = record s { heap = h₁ } in
          Goes-trans s h₁ h (init_engines-Goes s engines (with_setting setting g) g₁ h₁ known e₁) (
            if-Goes s₁ setting.omp_enabled (pure g₁) (init_pool_for_tenant order configs g₁) g' h
              (still s₁ g₁ g' h) (tenants-Goes s₁ order configs g₁ g' h fits) e₂))
        (still s g g' h)

module _ (probe : Text → ℕ → Bool) where
  check_pool-Goes :
      (s : Sys) (p : ℕ) (failed : Bool) (h : Heap)
      → check_pool probe p s.heap ≡ ret failed h
      → Goes s h
  unfolding check_pool
  check_pool-Goes s p failed h e =
      let (pool, h₁, e₁, e₂) = and_then-eq-ret (load_pool p s.heap) _ e in
      let (there, back) = loaded p s.heap h₁ pool e₁ in
      let up = check_status (probe pool.pool_remote_addr) in
      let (_, h₂, e₃, e₄) =
        and_then-eq-ret (store_pool p (record pool { status = up }) h₁) (λ u. ret (not up)) e₂ in
      let ends : h ≡ h₂ = ground arith in
      rw ends (store-Goes s p pool pool.name pool.pool_remote_addr up h₂ there (rw back at e₃))

  check_pools-Goes :
      (s : Sys) (pools : Dict ℕ) (before failed : Bool) (h : Heap)
      → check_pools probe pools before s.heap ≡ ret failed h
      → Goes s h
  unfolding check_pools
  check_pools-Goes s [] before failed h e = Goes-same s h (ground arith)
  check_pools-Goes s ((key, p) ∷ pools) before failed h e =
      let (f₁, h₁, e₁, e₂) = and_then-eq-ret (check_pool probe p s.heap) _ e in
      Goes-trans s h₁ h (check_pool-Goes s p f₁ h₁ e₁)
        (check_pools-Goes (record s { heap = h₁ }) pools f₁ failed h e₂)

  pub check_grpc_serer_health-Goes :
      (s : Sys) (engine : Engine) (g g' : Gate) (h : Heap)
      → check_grpc_serer_health probe engine g s.heap ≡ ret g' h
      → Goes s h
  unfolding check_grpc_serer_health
  check_grpc_serer_health-Goes s engine g g' h e =
      let (f, h₁, e₁, e₂) =
        and_then-eq-ret (check_pools probe (pools_of engine g) g.failed_pool_status s.heap) _ e in
      let ends : h ≡ h₁ = ground arith in
      rw ends (check_pools-Goes s (pools_of engine g) g.failed_pool_status f h₁ e₁)

-- ===== src/Grpc/Server/Routes.antt =====
-- A request to a server that `GRPCServer` (proxy/grpc.go) has started, up to its pool.
use rpc_pigeon.Common.{
  ℕ, ◌≡◌, refl, sym, subst, List, [], ◌∷◌, true, false, Option, none, some, ◌⊎◌, All, eqb_ℤ, arith,
  if_cases, inl, inr,
}
use rpc_pigeon.Common.Text.{Text, eq_text}
use rpc_pigeon.Common.Dict.{Dict, Has}
use rpc_pigeon.Common.Run.{ret, and_then, ret-eq-ret}
use rpc_pigeon.Grpc.Heap.{Time, Factory, Heap}
use rpc_pigeon.Grpc.Pool
use rpc_pigeon.Grpc.Pool.{strict_network_mode}
use rpc_pigeon.Grpc.Tenant.Init.{TenantConfig}
use rpc_pigeon.Grpc.Balance.Loop.{status_at, Made, AtMost, size_at}
use rpc_pigeon.Grpc.Balance.Choice.{IntnLaw}
use rpc_pigeon.Grpc.Director.{Metadata, Weather, grpc_proxy_transport}
use rpc_pigeon.Grpc.Director.Tokens.{pools_at, answer}
use rpc_pigeon.Grpc.Director.Balanced.{PlainRequest, Eligible, Elected, balanced_routes}
use rpc_pigeon.Grpc.Gateway.{Engine, asr, tts, EngineConfig, Setting, Gate, pools_of}
use rpc_pigeon.Grpc.Gateway.Upright.{Stands, Upright}
use rpc_pigeon.Grpc.Server.{GrpcServer, grpc_server}
use rpc_pigeon.Grpc.Server.Serves.{Sound, Foreigners}
use rpc_pigeon.Grpc.Server.Starts.{grpc_server_total}

Upright-Made :
    (h : Heap) (pools : Dict ℕ) → All (λ (e : Text × ℕ). Stands h (e.1)) pools → Made h pools
Upright-Made h [] all = tt
Upright-Made h ((k, p) ∷ pools) ((lt, pool, there, up), all) =
    (rw there refl, Upright-Made h pools all)

Stands-up : (h : Heap) (p : ℕ) → Stands h p → status_at h p ≡ true
Stands-up h p (lt, pool, there, up) = rw (status_at, there) up

Upright-Eligible : (h : Heap) (pools : Dict ℕ) → Upright h pools → Eligible h pools
Upright-Eligible h [] ok = tt
Upright-Eligible h (e ∷ []) ok = tt
Upright-Eligible h ((k, p) ∷ f ∷ rest) (all, apart) =
    let up = Stands-up h p (all.0) in (Upright-Made h ((k, p) ∷ f ∷ rest) all, apart, ground arith)

-- The pool that a request gets, of pools that are all up: none of none, or one of them, which is up and
-- has the most idle connections.
abbrev pub Serving : Heap → Dict ℕ → Option ℕ → Type 0
Serving h pools o =
    ((pools ≡ []) × (o ≡ none))
    ⊎ ((k : Text) × (p : ℕ) × (o ≡ some p)
        × Has k p pools
        × (status_at h p ≡ true)
        × AtMost h (size_at h p) pools)

Elected-Serving :
    (h : Heap) (pools : Dict ℕ) (o : Option ℕ)
    → Upright h pools
    → Elected h pools o
    → Serving h pools o
Elected-Serving h [] o ok chosen = inl (refl, chosen)
Elected-Serving h ((k, p) ∷ []) o ((here, all), apart) chosen =
    inr (k, p, chosen, inl (refl, refl), Stands-up h p here, ((λ up. omega arith), tt))
Elected-Serving h (e ∷ f ∷ rest) o ok (k, p, is, has, up, most) = inr (k, p, is, has, up, most)

module _ (dial : Text → Factory) (now : Time)
    (up : (addr : Text) (i : ℕ) → dial addr i ≡ true) where
  pools_at-Upright :
      (g : Gate) (h : Heap) (addr : Text)
      → Upright h (pools_of asr g)
      → Upright h (pools_of tts g)
      → Upright h (pools_at g.globals addr)
  pools_at-Upright g h addr a t =
      if_cases (Upright h) (eq_text addr g.globals.asr_gateway_proxy_addr) g.globals.asr_pools
        g.globals.tts_pools (λ e. a) (λ e. t)

  -- The gateway is enabled, alone, in the strict network mode, and without OMP and tenants; every dial
  -- succeeds; each enabled engine is a known one, with times that are not negative and entries with
  -- distinct names and positive sizes that fit an `int32`; and there were no pools before. After
  -- `GRPCServer`, a request for the address of an engine, by a method that is not internal, gets what
  -- `Acquire` gives it in one of the engine's pools, which is up and has the most idle connections of
  -- them, or, if the engine has no pools, in none: the choice never panics. (`rand.Intn` is in its
  -- range.)
  pub started_routes :
      (order : ℕ → ℕ → Dict ℕ → Dict ℕ) (s : Setting) (cs : List EngineConfig)
      (tenants : List TenantConfig) (g g' : Gate) (h h' : Heap) (servers : List GrpcServer)
      (w : Weather) (md : Metadata) (method addr : Text)
      → s.enabled ≡ true
      → s.omp_enabled ≡ false
      → s.tenant_enabled ≡ false
      → s.cluster_enabled ≡ false
      → eqb_ℤ s.network_mode strict_network_mode ≡ true
      → All (λ c. (c.pool_enabled ≡ false) ⊎ Sound c) cs
      → Foreigners cs
      → pools_of asr g ≡ []
      → pools_of tts g ≡ []
      → grpc_server dial now order s cs tenants g h ≡ ret (g', servers) h'
      → PlainRequest g'.globals md method addr
      → IntnLaw w.intn
      → (o : Option ℕ) × Serving h' (pools_at g'.globals addr) o
        × (grpc_proxy_transport g'.globals w (some md) method h'
            ≡ and_then
                (Pool.acquire o w.ready w.now w.later h')
                (answer g'.globals w md method addr h'))
  started_routes order s cs tenants g g' h h' servers w md method addr on alone untenanted single
        strict sound foreign no_asr no_tts ran q law =
      let (g₁, h₁, runs, serves, upright) =
        grpc_server_total dial now up order s cs tenants g h on alone untenanted single strict sound
          foreign in
      let (same, same_h) = ret-eq-ret runs ran in
      let same_g : g₁ ≡ g' = ground arith in
      let same_heap : h₁ ≡ h' = ground arith in
      let nothing : Upright h [] = (tt, tt) in
      let ups : (d : Engine) → Upright h (pools_of d g) → Upright h' (pools_of d g') =
        subst (λ x. (d : Engine) → Upright h (pools_of d g) → Upright h' (pools_of d x)) same_g
          (subst (λ x. (d : Engine) → Upright h (pools_of d g) → Upright x (pools_of d g₁))
            same_heap upright) in
      let ok : Upright h' (pools_at g'.globals addr) =
        pools_at-Upright g' h' addr (ups asr (subst (Upright h) (sym no_asr) nothing))
          (ups tts (subst (Upright h) (sym no_tts) nothing)) in
      let (o, elected, routed) =
        balanced_routes g'.globals w md method addr h' q law
          (Upright-Eligible h' (pools_at g'.globals addr) ok) in
      (o, Elected-Serving h' (pools_at g'.globals addr) o ok elected, routed)

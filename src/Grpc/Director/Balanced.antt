-- ===== src/Grpc/Director/Balanced.antt =====
-- Which pool a request reaches without OMP and tenants: the one that `balancePool` chooses.
use rpc_pigeon.Common.{
  ℕ, ◌≡◌, ◌<◌, refl, ap, ◌∙◌, [], ◌∷◌, true, false, ◌||◌, Option, none, some, inl, inr, Bool-cases,
  arith, if◌then◌else◌, if_on, if_off, subst,
}
use rpc_pigeon.Common.Text.{Text, codes, eq_text, has_prefix}
use rpc_pigeon.Common.Dict.{Dict, Has, Distinct}
use rpc_pigeon.Common.Run.{Run, ret, and_then}
use rpc_pigeon.Grpc.Heap.{Heap, Exec, pure}
use rpc_pigeon.Grpc.Pool
use rpc_pigeon.Grpc.Pool.{global_network_mode}
use rpc_pigeon.Grpc.Balance.{balance_pool}
use rpc_pigeon.Grpc.Balance.Loop.{status_at, size_at, Made, AtMost, ups}
use rpc_pigeon.Grpc.Balance.Choice.{IntnLaw, balance_pool_best}
use rpc_pigeon.Grpc.Director.{
  Metadata, Globals, Weather, Routed, got, got_pair, route, route_addr, directed,
  grpc_proxy_transport,
}
use rpc_pigeon.Grpc.Director.Tokens.{Addressed, server_addr-Addressed, pools_at, answer, answered}

-- A request for a gateway's address that needs no token.
pub record PlainRequest (g : Globals) (md : Metadata) (method addr : Text) : Type 0 where
  pub public : has_prefix method (codes "/ivc.v1.internal") ≡ false
  pub addressed : Addressed g md addr
  pub gateway :
      eq_text addr g.asr_gateway_proxy_addr || eq_text addr g.tts_gateway_proxy_addr ≡ true
  pub no_tokens : g.omp_enabled || g.tenant_enabled ≡ false

-- Pools among which one can be chosen: where there are two or more, they are pools with distinct
-- names, and one of them is up.
abbrev pub Eligible : Heap → Dict ℕ → Type 0
Eligible h [] = Unit
Eligible h (e ∷ []) = Unit
Eligible h (e ∷ f ∷ rest) =
    Made h (e ∷ f ∷ rest) × Distinct (e ∷ f ∷ rest) × (0 < ups h (e ∷ f ∷ rest))

-- The choice: none of none, a single one whatever its state, and of more one that is up and has the
-- most idle connections of those that are up.
abbrev pub Elected : Heap → Dict ℕ → Option ℕ → Type 0
Elected h [] o = o ≡ none
Elected h ((k, p) ∷ []) o = o ≡ some p
Elected h (e ∷ f ∷ rest) o =
    (k : Text) × (p : ℕ) × (o ≡ some p)
    × Has k p (e ∷ f ∷ rest)
    × (status_at h p ≡ true)
    × AtMost h (size_at h p) (e ∷ f ∷ rest)

balance_pool-Elected :
    (intn : ℕ → ℕ) (h : Heap) (pools : Dict ℕ)
    → IntnLaw intn
    → Eligible h pools
    → (o : Option ℕ) × (balance_pool intn pools h ≡ ret o h) × Elected h pools o
unfolding balance_pool
balance_pool-Elected intn h [] law fit = (none, refl, refl)
balance_pool-Elected intn h ((k, p) ∷ []) law fit = (some p, refl, refl)
balance_pool-Elected intn h (e ∷ f ∷ rest) law (made, distinct, more) =
    let (k, p, runs, has, up, most) = balance_pool_best intn h e f rest made law distinct more in
    (some p, runs, (k, p, refl, has, up, most))

module _ (g : Globals) (w : Weather) (md : Metadata) (method addr : Text) (h : Heap)
    (q : PlainRequest g md method addr) where
  -- What `Acquire` of a chosen pool gives the route.
  abbrev lent_by : Option ℕ → Heap → Run Heap Routed
  lent_by o h' = and_then (Pool.acquire o w.ready w.now w.later h') (λ r. ret (got_pair r))

  plain_route :
      (pools tenants : Dict ℕ) (o : Option ℕ)
      → balance_pool w.intn pools h ≡ ret o h
      → route g w pools tenants md h ≡ lent_by o h
  unfolding route
  plain_route pools tenants o chose =
      ap (λ (m : Exec Routed). m h) (if_off (g.omp_enabled || g.tenant_enabled) _ _ q.no_tokens)
      ∙ ap (λ r. and_then r lent_by) chose

  plain_addr :
      (o : Option ℕ)
      → balance_pool w.intn (pools_at g addr) h ≡ ret o h
      → route_addr g w md addr h ≡ lent_by o h
  unfolding route_addr
  plain_addr o chose =
      let at_asr = eq_text addr g.asr_gateway_proxy_addr in
      let at_tts = eq_text addr g.tts_gateway_proxy_addr in
      let asr_route = route g w g.asr_pools g.tenants.asr md in
      let tts_route = route g w g.tts_pools g.tenants.tts md in
      let neither : Exec Routed = pure (got none none) in
      let chose_of : (pools : Dict ℕ)
          → pools_at g addr ≡ pools
          → balance_pool w.intn pools h ≡ ret o h =
        λ pools e. subst (λ ps. balance_pool w.intn ps h ≡ ret o h) e chose in
      elim (Bool-cases at_asr) [
        | inl asr ↦
            ap (λ (m : Exec Routed). m h)
              (if_on at_asr asr_route (if at_tts then tts_route else neither) asr)
            ∙ plain_route g.asr_pools g.tenants.asr o
                (chose_of g.asr_pools (if_on at_asr g.asr_pools g.tts_pools asr))
        | inr other ↦
            let tts : at_tts ≡ true = ground (arith, q.gateway) in
            ap (λ (m : Exec Routed). m h)
              (if_off at_asr asr_route (if at_tts then tts_route else neither) other
                ∙ if_on at_tts tts_route neither tts)
            ∙ plain_route g.tts_pools g.tenants.tts o
                (chose_of g.tts_pools (if_off at_asr g.asr_pools g.tts_pools other))
      ]

  plain_request :
      (o : Option ℕ)
      → balance_pool w.intn (pools_at g addr) h ≡ ret o h
      → grpc_proxy_transport g w (some md) method h
        ≡ and_then (lent_by o h) (λ r. ret (directed md r))
  unfolding grpc_proxy_transport
  plain_request o chose =
      rw (q.public, server_addr-Addressed g md addr h q.addressed, plain_addr o chose) refl

  -- Without OMP and tenants, a request for the address of an engine, in any network mode, whose method
  -- is not internal, gets what `Acquire` gives it in a pool of the engine: the single one, whether it is
  -- up or not; or of two or more, some of them up, one that is up and has the most idle connections of
  -- those that are up. An engine without pools gives what `Acquire` gives of a nil pool. (`rand.Intn` is in its range.)
  pub balanced_routes :
      IntnLaw w.intn
      → Eligible h (pools_at g addr)
      → (o : Option ℕ) × Elected h (pools_at g addr) o
        × (grpc_proxy_transport g w (some md) method h
            ≡ and_then (Pool.acquire o w.ready w.now w.later h) (answer g w md method addr h))
  balanced_routes law fit =
      let (o, chose, elected) = balance_pool-Elected w.intn h (pools_at g addr) law fit in
      (
        o,
        elected,
        plain_request o chose
            ∙ answered g w md method addr h (Pool.acquire o w.ready w.now w.later h),
      )

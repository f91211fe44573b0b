-- ===== src/Grpc/Director/Tokens.antt =====
-- Which pool a request reaches by its address and its token.
use rpc_pigeon.Common.{
  ℕ, ◌≡◌, ◌⊎◌, refl, ap, List, [], ◌∷◌, ◌++◌, Bool, true, false, ◌||◌, Option, none, some, inl, inr,
  Bool-cases, arith, if◌then◌else◌, eqb_ℤ, Bytes,
}
use rpc_pigeon.Common.Text.{Text, codes, eq_text, has_prefix, split}
use rpc_pigeon.Common.Dict.{Dict, get}
use rpc_pigeon.Common.Run.{Run, ret, blocked, panic, and_then}
use rpc_pigeon.Grpc.Heap.{
  Error, unsupported_method, unknown_pool, unknown_token, unknown_method, Client, Heap,
}
use rpc_pigeon.Grpc.Pool
use rpc_pigeon.Grpc.Pool.{global_network_mode}
use rpc_pigeon.Grpc.Tenant
use rpc_pigeon.Grpc.Token.{str_encode, str_decode}
use rpc_pigeon.Common.Split.{Without, split-Without, split-append}
use rpc_pigeon.Grpc.Token.RoundTrip.{str_decode-str_encode}
use rpc_pigeon.Grpc.Director.{
  Metadata, Globals, Weather, Directed, forward, reject, got_pair, engine_code, acquire_pool_at,
  acquire_tenant_at, by_code, route, server_addr, route_addr, directed, grpc_proxy_transport,
}

-- The text has no dash, so it is one part of a token.
abbrev pub Part : Text → Type 0
Part = Without b'-'

-- `user-code-rand`
abbrev pub token_text : (user code rnd : Text) → Text
token_text user code rnd = user ++ b'-' ∷ (code ++ b'-' ∷ rnd)

engine_code-token_text :
    (user code rnd : Text)
    → Part user
    → Part code
    → engine_code (split (token_text user code rnd) b'-') ≡ some code
engine_code-token_text user code rnd u c =
    rw (split-append b'-' user (code ++ b'-' ∷ rnd) u, split-append b'-' code rnd c) refl

-- The pools and tenants of the engine that has the address.
abbrev pub pools_at : Globals → Text → Dict ℕ
pools_at g addr = if eq_text addr g.asr_gateway_proxy_addr then g.asr_pools else g.tts_pools

abbrev pub tenants_at : Globals → Text → Dict ℕ
tenants_at g addr = if eq_text addr g.asr_gateway_proxy_addr then g.tenants.asr else g.tenants.tts

-- The address that a request is for: what `:authority` says first, in the global network mode the part
-- of it that follows the first colon, and the empty text without an `:authority`.
abbrev pub Addressed : Globals → Metadata → Text → Type 0
Addressed g md addr =
    (get md (codes ":authority") ≡ none) × (addr ≡ [])
    ⊎ (a : Text) × (others : List Text) × (get md (codes ":authority") ≡ some (a ∷ others))
      × ((eqb_ℤ g.network_mode global_network_mode ≡ false) × (addr ≡ a)
          ⊎ (eqb_ℤ g.network_mode global_network_mode ≡ true)
            × ((host : Text) × (more : List Text) × (split a b':' ≡ host ∷ addr ∷ more)))

pub server_addr-Addressed :
    (g : Globals) (md : Metadata) (addr : Text) (h : Heap)
    → Addressed g md addr
    → server_addr g md h ≡ ret addr h
unfolding server_addr
server_addr-Addressed g md addr h (inl (missing, empty)) = rw (missing, empty) refl
server_addr-Addressed g md addr h (inr (a, others, at, inl (whole, same))) =
    rw (at, whole, same) refl
server_addr-Addressed g md addr h (inr (a, others, at, inr (port, (host, more, parts)))) =
    rw (at, port, parts) refl

-- A request for a gateway's address, with a first token, for a method that is not internal.
pub record Request (g : Globals) (md : Metadata) (method addr token : Text) : Type 0 where
  pub public : has_prefix method (codes "/ivc.v1.internal") ≡ false
  pub addressed : Addressed g md addr
  pub more : List Text
  pub first_token : get md (codes "token") ≡ some (token ∷ more)
  pub gateway :
      eq_text addr g.asr_gateway_proxy_addr || eq_text addr g.tts_gateway_proxy_addr ≡ true
  pub by_tokens : g.omp_enabled || g.tenant_enabled ≡ true

module _ (g : Globals) (w : Weather) (md : Metadata) (method addr : Text) (h : Heap) where
  -- What a token's code is looked up in.
  abbrev routed : Option Text → Run Heap Directed
  routed code =
      and_then (by_code g w (pools_at g addr) (tenants_at g addr) code h) (λ r. ret (directed md r))

  module _ (token : Text) (q : Request g md method addr token) where
    route_addr_at :
        route_addr g w md addr h
        ≡ by_code g w
            (pools_at g addr)
            (tenants_at g addr)
            (engine_code (split (str_decode token).0 b'-'))
            h
    unfolding route_addr route
    route_addr_at = elim (Bool-cases (eq_text addr g.asr_gateway_proxy_addr)) [
      | inl asr ↦ rw (asr, q.by_tokens, q.first_token) refl
      | inr other ↦
          let tts : eq_text addr g.tts_gateway_proxy_addr ≡ true = ground (arith, q.gateway) in
          rw (other, tts, q.by_tokens, q.first_token) refl
    ]

    request_route :
        grpc_proxy_transport g w (some md) method h
        ≡ routed (engine_code (split (str_decode token).0 b'-'))
    unfolding grpc_proxy_transport
    request_route = rw (q.public, server_addr-Addressed g md addr h q.addressed, route_addr_at) refl

  -- The director's answer to what `Acquire` returns.
  abbrev pub answer : Option Client × Option Error → Heap → Run Heap Directed
  answer (none, err) = ret (reject unknown_method)
  answer (some c, err) = ret (forward md c err)

  pub answered :
      (m : Run Heap (Option Client × Option Error))
      → and_then (and_then m (λ r. ret (got_pair r))) (λ r. ret (directed md r)) ≡ and_then m answer
  answered (ret (none, err) s) = refl
  answered (ret (some c, err) s) = refl
  answered (blocked s) = refl
  answered (panic s) = refl

  at_code :
      (o : Option ℕ)
      → and_then (acquire_pool_at w o h) (λ r. ret (directed md r)) ≡ elim o [
        | none ↦ ret (reject unknown_pool) h
        | some p ↦ and_then (Pool.acquire (some p) w.ready w.now w.later h) answer
      ]
  at_code none = refl
  at_code (some p) = answered (Pool.acquire (some p) w.ready w.now w.later h)

  -- With OMP, a request for the address of an engine, in any network mode, whose method is not internal
  -- and whose token is the encoding of `user-code-rand`, where neither the user nor
  -- the code has a dash, gets what `Acquire` gives it in the pool of `code` among the pools of the
  -- engine that it is sent to: a connection is forwarded, none is an unknown method. If the engine
  -- has no pool of `code`, the request is rejected and nothing has changed.
  pub omp_token_routes :
      (user code rnd : Text)
      → Bytes (token_text user code rnd)
      → Part user
      → Part code
      → Request g md method addr (str_encode (token_text user code rnd))
      → g.omp_enabled ≡ true
      → grpc_proxy_transport g w (some md) method h ≡ elim (get (pools_at g addr) code) [
        | none ↦ ret (reject unknown_pool) h
        | some p ↦ and_then (Pool.acquire (some p) w.ready w.now w.later h) answer
      ]
  omp_token_routes user code rnd bytes u c q omp =
      rw
        (
          request_route _ q,
          ap (λ (x : Text × Bool). x.0) (str_decode-str_encode _ bytes),
          engine_code-token_text user code rnd u c,
          omp,
        )
        (at_code (get (pools_at g addr) code))

  at_tenant :
      (o : Option ℕ)
      → and_then (acquire_tenant_at o h) (λ r. ret (directed md r)) ≡ elim o [
        | none ↦ ret (reject unknown_pool) h
        | some t ↦ and_then (Tenant.acquire (some t) h) answer
      ]
  at_tenant none = refl
  at_tenant (some t) = answered (Tenant.acquire (some t) h)

  -- With tenants and without OMP, the same request (for the address of an engine, in any network mode,
  -- by a method that is not internal) gets what `Acquire` gives it in the tenant of
  -- `code` among the tenants of the engine; if there is none, it is rejected and nothing has changed.
  pub tenant_token_routes :
      (user code rnd : Text)
      → Bytes (token_text user code rnd)
      → Part user
      → Part code
      → Request g md method addr (str_encode (token_text user code rnd))
      → g.omp_enabled ≡ false
      → grpc_proxy_transport g w (some md) method h ≡ elim (get (tenants_at g addr) code) [
        | none ↦ ret (reject unknown_pool) h
        | some t ↦ and_then (Tenant.acquire (some t) h) answer
      ]
  tenant_token_routes user code rnd bytes u c q off =
      rw
        (
          request_route _ q,
          ap (λ (x : Text × Bool). x.0) (str_decode-str_encode _ bytes),
          engine_code-token_text user code rnd u c,
          off,
        )
        (at_tenant (get (tenants_at g addr) code))

-- Why a request finds no pool.
pub data Refused (g : Globals) : Option Metadata → Text → Error → Type 0 where
  internal :
      (incoming : Option Metadata) (method : Text)
      → has_prefix method (codes "/ivc.v1.internal") ≡ true
      → Refused g incoming method unsupported_method
  no_metadata :
      (method : Text)
      → has_prefix method (codes "/ivc.v1.internal") ≡ false
      → Refused g none method unknown_method
  other_address :
      (md : Metadata) (method addr : Text)
      → has_prefix method (codes "/ivc.v1.internal") ≡ false
      → Addressed g md addr
      → eq_text addr g.asr_gateway_proxy_addr ≡ false
      → eq_text addr g.tts_gateway_proxy_addr ≡ false
      → Refused g (some md) method unknown_method
  no_token :
      (md : Metadata) (method addr : Text)
      → has_prefix method (codes "/ivc.v1.internal") ≡ false
      → Addressed g md addr
      → eq_text addr g.asr_gateway_proxy_addr || eq_text addr g.tts_gateway_proxy_addr ≡ true
      → g.omp_enabled || g.tenant_enabled ≡ true
      → get md (codes "token") ≡ none
      → Refused g (some md) method unknown_method
  one_part :
      (md : Metadata) (method addr text : Text)
      → Bytes text
      → Part text
      → Request g md method addr (str_encode text)
      → Refused g (some md) method unknown_token

-- In any network mode, a request is rejected with the error of its case, and nothing has changed, if
-- its method is internal; or if it is not and the request has no metadata, is for an address of no
-- engine, is for an engine's address without the token that OMP or tenants ask for, or is for one with
-- a token whose text has a single part.
pub director_rejects :
    (g : Globals) (w : Weather) (h : Heap) (incoming : Option Metadata) (method : Text) (e : Error)
    → Refused g incoming method e
    → grpc_proxy_transport g w incoming method h ≡ ret (reject e) h
unfolding grpc_proxy_transport route_addr route
director_rejects g w h incoming method e (internal incoming' method' is) = rw is refl
director_rejects g w h incoming method e (no_metadata method' is) = rw is refl
director_rejects g w h incoming method e (other_address md method' addr is at asr tts) =
    rw (is, server_addr-Addressed g md addr h at, asr, tts) refl
director_rejects g w h incoming method e (no_token md method' addr is at gateway on missing) =
    rw (is, server_addr-Addressed g md addr h at)
      (elim (Bool-cases (eq_text addr g.asr_gateway_proxy_addr)) [
        | inl asr ↦ rw (asr, on, missing) refl
        | inr other ↦
            let tts : eq_text addr g.tts_gateway_proxy_addr ≡ true = ground (arith, gateway) in
            rw (other, tts, on, missing) refl
      ])
director_rejects g w h incoming method e (one_part md method' addr text bytes part q) =
    rw
      (
        request_route g w md method addr h (str_encode text) q,
        ap (λ (x : Text × Bool). x.0) (str_decode-str_encode text bytes),
        split-Without b'-' text part,
      )
      refl

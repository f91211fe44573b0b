-- ===== src/Grpc/Director.antt =====
-- `GrpcProxyTransport` of pkg/plugins/pool/grpc/options.go: the director, which finds a connection
-- for a request by its address and token. The globals of grpc.go that it reads are a record. The
-- incoming context is its metadata; the outgoing one carries a copy of that.
pub mod Lends
pub mod Tokens
pub mod Balanced
use rpc_pigeon.Common.{
  ℕ, suc, ℤ, List, [], ◌∷◌, Bool, true, false, ◌&&◌, ◌||◌, Option, none, some, eqb_ℤ, if◌then◌else◌,
}
use rpc_pigeon.Common.Text.{Text, codes, eq_text, has_prefix, split}
use rpc_pigeon.Common.Dict.{Dict, get}
use rpc_pigeon.Common.Run.{Run, ret, panic, ◌>>=◌}
use rpc_pigeon.Grpc.Heap.{
  Error, unsupported_method, unknown_token, unknown_pool, unknown_method, Time, Client, Exec, pure,
}
use rpc_pigeon.Grpc.Pool.{global_network_mode, Ready}
use rpc_pigeon.Grpc.Pool
use rpc_pigeon.Grpc.Tenant
use rpc_pigeon.Grpc.Tenant.Init.{Tenants}
use rpc_pigeon.Grpc.Token.{str_decode}
use rpc_pigeon.Grpc.Balance.{balance_pool}

-- `metadata.MD`
abbrev pub Metadata : Type 0
Metadata = Dict (List Text)

pub record Globals : Type 0 where
  pub omp_enabled : Bool
  pub tenant_enabled : Bool
  pub network_mode : ℤ
  pub asr_gateway_proxy_addr : Text
  pub tts_gateway_proxy_addr : Text
  pub asr_pools : Dict ℕ
  pub tts_pools : Dict ℕ
  pub tenants : Tenants

-- What a request meets: the case that `select` takes in `Acquire`, the clock, and `rand.Intn`.
pub record Weather : Type 0 where
  pub ready : Ready
  pub now : Time
  pub later : Time
  pub intn : ℕ → ℕ

-- `(outCtx, conn.ClientConn, conn, err)`, or an error with nil for the rest.
pub data Directed : Type 0 where
  forward : Metadata → Client → Option Error → Directed
  reject : Error → Directed

-- How the choice of a connection ends: an early return, or the variables `conn` and `err`.
pub data Routed : Type 0 where
  leave : Error → Routed
  got : Option Client → Option Error → Routed

abbrev pub got_pair : Option Client × Option Error → Routed
got_pair (c, err) = got c err

-- `xs[0]` and `xs[1]`, which panic out of range.
abbrev pub first_of : List Text → Exec Text
first_of [] h = panic h
first_of (x ∷ xs) h = ret x h

abbrev pub second_of : List Text → Exec Text
second_of [] h = panic h
second_of (x ∷ []) h = panic h
second_of (x ∷ y ∷ xs) h = ret y h

-- `engineCode[1]`, where there is one.
abbrev pub engine_code : List Text → Option Text
engine_code [] = none
engine_code (x ∷ []) = none
engine_code (x ∷ y ∷ xs) = some y

abbrev pub acquire_pool_at : Weather → Option ℕ → Exec Routed
acquire_pool_at w none = pure (leave unknown_pool)
acquire_pool_at w (some p) = do r ← Pool.acquire (some p) w.ready w.now w.later; pure (got_pair r)

abbrev pub acquire_tenant_at : Option ℕ → Exec Routed
acquire_tenant_at none = pure (leave unknown_pool)
acquire_tenant_at (some t) = do r ← Tenant.acquire (some t); pure (got_pair r)

-- The pool or the tenant of an engine code.
abbrev pub by_code : Globals → Weather → (pools tenants : Dict ℕ) → Option Text → Exec Routed
by_code g w pools tenants none = pure (leave unknown_token)
by_code g w pools tenants (some code) =
    if g.omp_enabled
    then acquire_pool_at w (get pools code)
    else acquire_tenant_at (get tenants code)

-- The token's code. A decoding error is dropped, and what was decoded before it is used.
abbrev pub by_token :
    Globals → Weather → (pools tenants : Dict ℕ) → Option (List Text) → Exec Routed
by_token g w pools tenants none = pure (got none (some unknown_pool))
by_token g w pools tenants (some token) = do
  text ← first_of token
  by_code g w pools tenants (engine_code (split (str_decode text).0 b'-'))

-- One engine's branch.
unfoldable pub route : Globals → Weather → (pools tenants : Dict ℕ) → Metadata → Exec Routed
unfolding get
route g w pools tenants md =
    if g.omp_enabled || g.tenant_enabled
    then by_token g w pools tenants (get md (codes "token"))
    else (do
      p ← balance_pool w.intn pools
      r ← Pool.acquire p w.ready w.now w.later
      pure (got_pair r))

-- The address that the request was sent to, or its port alone.
abbrev pub addr_of : Globals → Option (List Text) → Exec Text
addr_of g none = pure []
addr_of g (some addr) = do
  a ← first_of addr
  if eqb_ℤ g.network_mode global_network_mode then second_of (split a b':') else pure a

unfoldable pub server_addr : Globals → Metadata → Exec Text
unfolding get split
server_addr g md = addr_of g (get md (codes ":authority"))

unfoldable pub route_addr : Globals → Weather → Metadata → Text → Exec Routed
unfolding route
route_addr g w md addr =
    if eq_text addr g.asr_gateway_proxy_addr
    then route g w g.asr_pools g.tenants.asr md
    else if eq_text addr g.tts_gateway_proxy_addr
    then route g w g.tts_pools g.tenants.tts md
    else pure (got none none)

abbrev pub directed : Metadata → Routed → Directed
directed md (leave e) = reject e
directed md (got none err) = reject unknown_method
directed md (got (some c) err) = forward md c err

abbrev pub direct : Globals → Weather → Option Metadata → Exec Directed
direct g w none = pure (reject unknown_method)
direct g w (some md) = do addr ← server_addr g md; r ← route_addr g w md addr; pure (directed md r)

-- `GrpcProxyTransport`: the metadata of the incoming context, if it has any, and the method.
unfoldable pub grpc_proxy_transport : Globals → Weather → Option Metadata → Text → Exec Directed
unfolding server_addr route_addr has_prefix
grpc_proxy_transport g w incoming method =
    if has_prefix method (codes "/ivc.v1.internal")
    then pure (reject unsupported_method)
    else direct g w incoming

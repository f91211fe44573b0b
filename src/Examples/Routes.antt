-- ===== src/Examples/Routes.antt =====
-- Requests for the pool of `Examples.Pools`, and the balancing of two pools.
use rpc_pigeon.Common.{
  inl, inr, ℕ, ◌≡◌, refl, pos, [], ◌∷◌, Bool, true, false, ◌||◌, Option, none, some, arith, Bytes,
}
use rpc_pigeon.Common.Text.{Text, split, codes, has_prefix}
use rpc_pigeon.Common.Dict.{Dict, get}
use rpc_pigeon.Common.Run.{ret, panic, and_then}
use rpc_pigeon.Grpc.Heap.{
  unknown_pool, unknown_method, Client, Heap, update, load_pool, receive, store_pool,
}
use rpc_pigeon.Grpc.Pool.{
  global_network_mode, strict_mode, received, acquire, acquire_received, receive_pool, reusable,
}
use rpc_pigeon.Grpc.Tenant
use rpc_pigeon.Grpc.Balance.{balance_pool}
use rpc_pigeon.Grpc.Balance.Choice.{balance_pool_all_down}
use rpc_pigeon.Grpc.Token.{skip_line_ends, decode_groups, of_char, str_encode, str_decode, to_char}
use rpc_pigeon.Grpc.Token.RoundTrip.{str_decode-str_encode}
use rpc_pigeon.Grpc.Director.{
  server_addr, route_addr, route, Metadata, Globals, Weather, forward, reject, grpc_proxy_transport,
}
use rpc_pigeon.Grpc.Director.Lends.{client_of, CleanDirected, OneCall, director_lends}
use rpc_pigeon.Grpc.Director.Tokens.{
  Addressed, Request, answer, token_text, omp_token_routes, tenant_token_routes, no_metadata,
  director_rejects,
}
use rpc_pigeon.Grpc.Director.Balanced.{PlainRequest, Elected, balanced_routes}
use rpc_pigeon.Grpc.System.{Reach, initial, lend}
use rpc_pigeon.Examples.Pools
use rpc_pigeon.Examples.Pools.{after_make, Reach-make, Reach-admit, full, taken, after_admit}

abbrev pub globals : (omp tenant : Bool) → Globals
globals omp tenant = record {
  omp_enabled = omp;
  tenant_enabled = tenant;
  network_mode = pos 1;
  asr_gateway_proxy_addr = codes "gw:1";
  tts_gateway_proxy_addr = codes "gw:2";
  asr_pools = (codes "10", 0) ∷ [];
  tts_pools = [];
  tenants = record { asr = (codes "10", 0) ∷ []; tts = [] };
}

abbrev pub weather : Weather
weather = record { ready = received; now = pos 1; later = pos 2; intn = λ n. 0 }

-- `u-10-r` in base64.
abbrev token : Text
token = codes "dS0xMC1y"

abbrev pub metadata : Metadata
metadata = (codes ":authority", codes "gw:1" ∷ []) ∷ (codes "token", token ∷ []) ∷ []

token_code : str_encode (token_text (codes "u") (codes "10") (codes "r")) ≡ token
unfolding str_encode to_char
token_code = refl

token-Bytes : Bytes (codes "u-10-r")
token-Bytes =
    (omega arith, (omega arith, (omega arith, (omega arith, (omega arith, (omega arith, tt))))))

str_decode-str_encode_example : str_decode (str_encode (codes "u-10-r")) ≡ (codes "u-10-r", true)
str_decode-str_encode_example = str_decode-str_encode (codes "u-10-r") token-Bytes

request :
    (omp tenant : Bool)
    → (omp || tenant ≡ true)
    → Request
        (globals omp tenant)
        metadata
        (codes "/asr")
        (codes "gw:1")
        (str_encode (token_text (codes "u") (codes "10") (codes "r")))
unfolding has_prefix get str_encode to_char
request omp tenant on = record {
  public = refl;
  addressed = inr (_, _, refl, inl (refl, refl));
  more = [];
  first_token = refl;
  gateway = refl;
  by_tokens = on;
}

omp_token_routes_example :
    grpc_proxy_transport
      (globals true false)
      weather
      (some metadata)
      (codes "/asr")
      (after_make strict_mode).heap
    ≡ elim (get {V = ℕ} ((codes "10", 0) ∷ []) (codes "10")) [
      | none ↦ ret (reject unknown_pool) (after_make strict_mode).heap
      | some p ↦
          and_then (acquire (some p) received (pos 1) (pos 2) (after_make strict_mode).heap) (
            answer
              (globals true false)
              weather
              metadata
              (codes "/asr")
              (codes "gw:1")
              (after_make strict_mode).heap)
    ]
omp_token_routes_example =
    omp_token_routes (globals true false) weather metadata (codes "/asr") (codes "gw:1")
      (after_make strict_mode).heap (codes "u") (codes "10") (codes "r") token-Bytes (refl, tt)
      (refl, (refl, tt)) (request true false refl) refl

tenant_token_routes_example :
    grpc_proxy_transport
      (globals false true)
      weather
      (some metadata)
      (codes "/asr")
      after_admit.heap
    ≡ elim (get {V = ℕ} ((codes "10", 0) ∷ []) (codes "10")) [
      | none ↦ ret (reject unknown_pool) after_admit.heap
      | some t ↦ and_then (Tenant.acquire (some t) after_admit.heap) (
          answer
            (globals false true)
            weather
            metadata
            (codes "/asr")
            (codes "gw:1")
            after_admit.heap)
    ]
tenant_token_routes_example =
    tenant_token_routes (globals false true) weather metadata (codes "/asr") (codes "gw:1")
      after_admit.heap (codes "u") (codes "10") (codes "r") token-Bytes (refl, tt)
      (refl, (refl, tt)) (request false true refl) refl

director_rejects_example :
    grpc_proxy_transport (globals true false) weather none (codes "/asr") initial.heap
    ≡ ret (reject unknown_method) initial.heap
director_rejects_example =
    director_rejects (globals true false) weather initial.heap none (codes "/asr") unknown_method
      (no_metadata (codes "/asr") (unfold has_prefix in refl))

-- What the director hands on to the request.
abbrev pub lent : Client
lent = Pools.client

pub directs :
    grpc_proxy_transport
      (globals true false)
      weather
      (some metadata)
      (codes "/asr")
      (after_make strict_mode).heap
    ≡ ret (forward metadata lent none) Pools.after_take.heap
unfolding grpc_proxy_transport server_addr route_addr route has_prefix get split str_decode
    skip_line_ends decode_groups of_char acquire acquire_received receive_pool load_pool receive
    store_pool reusable
directs = refl

director_lends_example :
    Reach initial (record (after_make strict_mode) {
      heap = Pools.after_take.heap;
      lent = lend (client_of (forward metadata lent none)) [];
    })
    × CleanDirected (forward metadata lent none)
    × OneCall weather (after_make strict_mode).heap (some lent) Pools.after_take.heap
director_lends_example =
    director_lends (globals true false) weather (after_make strict_mode) Reach-make (some metadata)
      (codes "/asr") (forward metadata lent none) Pools.after_take.heap directs

-- Two pools, of which the first is up and has a connection.
abbrev two : Dict ℕ
two = (codes "a", 0) ∷ (codes "b", 1) ∷ []

abbrev heap_two : Bool → Heap
heap_two up = record initial.heap {
  pools =
      update (update (λ p. none) 0 (record (full strict_mode) { status = up })) 1
        (record (taken strict_mode) { status = false });
  next_pool = 2;
}

abbrev plain_globals : Globals
plain_globals = record (globals false false) { asr_pools = two }

plain_request : PlainRequest plain_globals metadata (codes "/asr") (codes "gw:1")
unfolding has_prefix get
plain_request = record {
  public = refl;
  addressed = inr (_, _, refl, inl (refl, refl));
  gateway = refl;
  no_tokens = refl;
}

balanced_routes_example :
    (o : Option ℕ) × Elected (heap_two true) two o
    × (grpc_proxy_transport plain_globals weather (some metadata) (codes "/asr") (heap_two true)
        ≡ and_then
            (acquire o received (pos 1) (pos 2) (heap_two true))
            (answer plain_globals weather metadata (codes "/asr") (codes "gw:1") (heap_two true)))
balanced_routes_example =
    balanced_routes plain_globals weather metadata (codes "/asr") (codes "gw:1") (heap_two true)
      plain_request (λ n. omega arith)
      ((refl, (refl, tt)), ((unfold get in refl), (unfold get in refl, tt)), omega arith)

balance_pool_all_down_example : balance_pool (λ n. 0) two (heap_two false) ≡ panic (heap_two false)
balance_pool_all_down_example =
    balance_pool_all_down (λ n. 0) (heap_two false) (codes "a", 0) (codes "b", 1) []
      (refl, (refl, tt)) refl

-- In the global network mode an address is a port.
global_port :
    Addressed
      (record (globals true false) { network_mode = global_network_mode })
      metadata
      (codes "1")
unfolding get split
global_port = inr (_, _, refl, inr (refl, (codes "gw", [], refl)))

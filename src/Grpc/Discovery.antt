-- ===== src/Grpc/Discovery.antt =====
-- pkg/plugins/pool/grpc/grpc.go: the pools follow the engine services of the cluster. The package
-- `kvs`, which asks Kubernetes, and `net.DialTimeout` are arguments: a round is given the names of
-- the services, the addresses behind a name by subset, and whether an address answers.
pub mod Replaces
pub mod Updates
use rpc_pigeon.Common.{
  ℕ, zero, suc, ◌+◌, ◌-◌, ◌*◌, ◌^◌, ◌<◌, ℤ, pos, negsuc, int32, eqb_ℤ, List, [], ◌∷◌, ◌++◌, Bool,
  true, false, ◌&&◌, Option, none, some, ltb, leb, ◌==◌, if◌then◌else◌,
}
use rpc_pigeon.Common.Text.{Text, codes, eq_text, to_lower, split, is_digit}
use rpc_pigeon.Common.Dict.{Dict, get}
use rpc_pigeon.Common.Run.{Run, ret, panic, ◌>>=◌, ◌>>◌}
use rpc_pigeon.Grpc.Heap.{Time, Factory, Client, Exec, pure, load_pool}
use rpc_pigeon.Grpc.Gateway.{
  Engine, engine_of, asr, tts, EngineConfig, Gate, pools_of, Found, init_grpc_pool_by_omp,
  release_grpc_pool,
}

-- `strconv.Atoi`: an optional sign and digits, in the range of `int64`.
unfoldable pub digits : Text → ℕ → Option ℕ
digits [] n = some n
digits (c ∷ s) n = let rest = digits s (n * 10 + (c - b'0')) in if is_digit c then rest else none

abbrev pub in_range : (negative : Bool) → Option ℕ → Option ℤ
in_range negative none = none
in_range true (some zero) = some (pos 0)
in_range true (some (suc n)) = if ltb n (2 ^ 63) then some (negsuc n) else none
in_range false (some n) = if ltb n (2 ^ 63) then some (pos n) else none

abbrev pub number : (negative : Bool) → Text → Option ℤ
number negative [] = none
number negative (c ∷ s) = in_range negative (digits (c ∷ s) 0)

unfoldable pub atoi : Text → Option ℤ
unfolding digits
atoi [] = none
atoi (c ∷ s) =
    if c == b'-' then number true s else if c == b'+' then number false s else number false (c ∷ s)

-- What a round meets: what `kvs` and the network answer, and the connections that are dialled.
pub record Cluster : Type 0 where
  pub live : Text → Bool
  pub endpoints : Text → List (List Text)
  pub grpc_dial : Text → Factory
  pub now : Time

-- `engineSvcPort[engineType]`, empty if it is not set.
abbrev pub port_of : Gate → Text → Text
port_of g engine = elim (get g.engine_svc_port engine) [ none ↦ [] | some port ↦ port ]

abbrev pub host_port : (host port : Text) → Text
host_port host port = host ++ b':' ∷ port

-- The last address of all subsets, empty if there is none.
abbrev pub last_ip : Text → List Text → Text
last_ip ip [] = ip
last_ip ip (x ∷ xs) = last_ip x xs

abbrev pub pod_ip : Text → List (List Text) → Text
pod_ip ip [] = ip
pod_ip ip (subset ∷ subsets) = pod_ip (last_ip ip subset) subsets

-- The parts of a service's name.
pub record Svc : Type 0 where
  pub engine_type : Text
  pub engine_cc_num : Text
  pub scene_code : Text

-- A name of three parts.
abbrev pub svc_of : List Text → Option Svc
svc_of [] = none
svc_of (a ∷ []) = none
svc_of (a ∷ b ∷ []) = none
svc_of (a ∷ b ∷ c ∷ []) = some (record { engine_type = a; engine_cc_num = b; scene_code = c })
svc_of (a ∷ b ∷ c ∷ d ∷ rest) = none

abbrev pub server_name : Svc → Text
server_name svc = to_lower svc.engine_type ++ b'-' ∷ (svc.engine_cc_num ++ b'-' ∷ svc.scene_code)

-- The end of a round of both functions: the pool of the service's pod, if that answers.
unfoldable pub attach : Cluster → List EngineConfig → Svc → ℤ → Gate → Exec Gate
unfolding init_grpc_pool_by_omp get to_lower
attach k engines svc n g =
    if eq_text (pod_ip [] (k.endpoints (server_name svc))) []
    then pure g
    else if k.live
        (host_port (pod_ip [] (k.endpoints (server_name svc))) (port_of g svc.engine_type))
    then init_grpc_pool_by_omp k.grpc_dial k.now
        (record {
          engine_type = svc.engine_type;
          engine_cc_num = n;
          scene_code = svc.scene_code;
          server_host = pod_ip [] (k.endpoints (server_name svc));
        })
        engines g
    else pure g

-- The gate, and the clients left to the goroutines of `Close`.
abbrev pub Round : Type 0
Round = Gate × List (Option Client)

abbrev pub attached : Cluster → List EngineConfig → Svc → ℤ → Round → Exec Round
attached k engines svc n (g, left) = do g' ← attach k engines svc n g; pure (g', left)

-- `initPoolFromExistEngine` for a service whose pool exists: it is kept if the capacity is equal.
abbrev pub replace : Cluster → List EngineConfig → Svc → ℤ → Gate → Option ℕ → Exec Round
replace k engines svc n g none = attached k engines svc n (g, [])
replace k engines svc n g (some p) = do
  pool ← load_pool p
  if eqb_ℤ pool.capacity (int32 n)
      then pure (g, [])
      else (do r ← release_grpc_pool svc.scene_code svc.engine_type g; attached k engines svc n r)

-- The pool that a service has, if its engine is known.
unfoldable pub pool_of : Svc → Gate → Option ℕ
unfolding get engine_of
pool_of svc g = elim (engine_of svc.engine_type) [
  | none ↦ none
  | some e ↦ get (pools_of e g) svc.scene_code
]

abbrev pub discover_svc : Cluster → List EngineConfig → Option Svc → Gate → Exec Round
discover_svc k engines none g = pure (g, [])
discover_svc k engines (some svc) g = elim (atoi svc.engine_cc_num) [
  | none ↦ pure (g, [])
  | some n ↦ replace k engines svc n g (pool_of svc g)
]

-- The body of the loop of `initPoolFromExistEngine` over the services.
unfoldable pub discover :
    Cluster → List EngineConfig → (engine_type name : Text) → Gate → Exec Round
unfolding load_pool release_grpc_pool attach atoi pool_of split
discover k engines engine_type name g =
    if k.live (host_port name (port_of g engine_type))
    then discover_svc k engines (svc_of (split name b'-')) g
    else pure (g, [])

-- One round of the outer loop of `initPoolFromExistEngine`.
unfoldable pub init_pool_from_exist_engine :
    Cluster → List EngineConfig → (engine_type : Text) → List Text → Gate → Exec Round
unfolding discover
init_pool_from_exist_engine k engines engine_type [] g = pure (g, [])
init_pool_from_exist_engine k engines engine_type (name ∷ names) g = do
  (g', left) ← discover k engines engine_type name g
  (g'', left') ← init_pool_from_exist_engine k engines engine_type names g'
  pure (g'', left' ++ left)

-- `InitPoolFromExistEngineForUpdate` for a service whose pool exists: the pool is released if the
-- capacity is equal, and a new one is made in any case.
abbrev pub renew_pool : Cluster → List EngineConfig → Svc → ℤ → Gate → Option ℕ → Exec Round
renew_pool k engines svc n g none = attached k engines svc n (g, [])
renew_pool k engines svc n g (some p) = do
  pool ← load_pool p
  r ←
      (if eqb_ℤ pool.capacity (int32 n)
        then release_grpc_pool svc.scene_code svc.engine_type g
        else pure (g, []))
  attached k engines svc n r

abbrev pub update_svc : Cluster → List EngineConfig → Option Svc → Gate → Exec Round
update_svc k engines none g = pure (g, [])
update_svc k engines (some svc) g = elim (atoi svc.engine_cc_num) [
  | none ↦ pure (g, [])
  | some n ↦ renew_pool k engines svc n g (pool_of svc g)
]

unfoldable pub update_engine :
    Cluster → List EngineConfig → (engine_type name : Text) → Gate → Exec Round
unfolding load_pool release_grpc_pool attach atoi pool_of split
update_engine k engines engine_type name g =
    if k.live (host_port name (port_of g engine_type))
    then update_svc k engines (svc_of (split name b'-')) g
    else pure (g, [])

-- `InitPoolFromExistEngineForUpdate`, up to its sleep.
unfoldable pub init_pool_from_exist_engine_for_update :
    Cluster → List EngineConfig → (engine_type : Text) → List Text → Gate → Exec Round
unfolding update_engine
init_pool_from_exist_engine_for_update k engines engine_type [] g = pure (g, [])
init_pool_from_exist_engine_for_update k engines engine_type (name ∷ names) g = do
  (g', left) ← update_engine k engines engine_type name g
  (g'', left') ← init_pool_from_exist_engine_for_update k engines engine_type names g'
  pure (g'', left' ++ left)

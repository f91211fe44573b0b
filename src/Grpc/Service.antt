-- ===== src/Grpc/Service.antt =====
-- The gateway at work (pkg/plugins/pool/grpc): its globals beside the pools in use. What its
-- goroutines do are acts, in any order: the set-up, the rounds of the discovery and of the health
-- tasks, the releases, and for a call the choice of its client and the client's way back. An act is
-- one call of a function of the package; `Runs` is any sequence of them.
pub mod Pools
pub mod Rounds
pub mod Settings
pub mod Refines
use rpc_pigeon.Common.{◌≡◌, ℕ, Bool, List, [], ◌∷◌, ◌++◌, Option, none, some}
use rpc_pigeon.Common.Text.{Text}
use rpc_pigeon.Common.Dict.{Dict}
use rpc_pigeon.Common.Run.{ret}
use rpc_pigeon.Grpc.Heap.{Time, Factory, Client, Heap}
use rpc_pigeon.Grpc.Pool.{drain, client_close}
use rpc_pigeon.Grpc.Tenant.Init.{TenantConfig}
use rpc_pigeon.Grpc.System.{Sys, initial, lend}
use rpc_pigeon.Grpc.Gateway.{
  Engine, EngineConfig, Found, Gate, Setting, init_grpc_pool_by_omp, release_grpc_pool,
}
use rpc_pigeon.Grpc.Gateway.Setup.{init_grpc_pool}
use rpc_pigeon.Grpc.Discovery.{
  Cluster, init_pool_from_exist_engine, init_pool_from_exist_engine_for_update,
}
use rpc_pigeon.Grpc.Health.{check_grpc_serer_health}
use rpc_pigeon.Grpc.Director.{Metadata, Weather, Directed, forward, reject, grpc_proxy_transport}

pub record Service : Type 0 where
  pub gate : Gate
  pub sys : Sys

-- The client that the director hands on.
abbrev pub handed : Directed → Option Client
handed (forward md c err) = some c
handed (reject e) = none

-- The store and the globals after a call that left clients to the goroutine of `Close`.
abbrev pub leaving : Service → Gate → List (Option Client) → Heap → Service
leaving v g left h = record {
  gate = g;
  sys = record v.sys { heap = h; doomed = left ++ v.sys.doomed };
}

abbrev pub moved : Service → Gate → Heap → Service
moved v g h = record { gate = g; sys = record v.sys { heap = h } }

-- The engines and the tenants of the configuration.
pub data Act (engines : List EngineConfig) (tenants : List TenantConfig)
    : Service → Service → Type 0 where
  set_up :
      {v : Service} (dial : Text → Factory) (now : Time) (order : ℕ → ℕ → Dict ℕ → Dict ℕ)
      (setting : Setting) (g : Gate) (h : Heap)
      → init_grpc_pool dial now order setting engines tenants v.gate v.sys.heap ≡ ret g h
      → Act engines tenants v (moved v g h)
  by_omp :
      {v : Service} (dial : Text → Factory) (now : Time) (found : Found) (g : Gate) (h : Heap)
      → init_grpc_pool_by_omp dial now found engines v.gate v.sys.heap ≡ ret g h
      → Act engines tenants v (moved v g h)
  discover :
      {v : Service} (k : Cluster) (engine : Text) (names : List Text) (g : Gate)
      (left : List (Option Client)) (h : Heap)
      → init_pool_from_exist_engine k engines engine names v.gate v.sys.heap ≡ ret (g, left) h
      → Act engines tenants v (leaving v g left h)
  update :
      {v : Service} (k : Cluster) (engine : Text) (names : List Text) (g : Gate)
      (left : List (Option Client)) (h : Heap)
      → init_pool_from_exist_engine_for_update k engines engine names v.gate v.sys.heap
        ≡ ret (g, left) h
      → Act engines tenants v (leaving v g left h)
  release :
      {v : Service} (name engine : Text) (g : Gate) (left : List (Option Client)) (h : Heap)
      → release_grpc_pool name engine v.gate v.sys.heap ≡ ret (g, left) h
      → Act engines tenants v (leaving v g left h)
  check :
      {v : Service} (probe : Text → ℕ → Bool) (engine : Engine) (g : Gate) (h : Heap)
      → check_grpc_serer_health probe engine v.gate v.sys.heap ≡ ret g h
      → Act engines tenants v (moved v g h)
  direct :
      {v : Service} (w : Weather) (incoming : Option Metadata) (method : Text) (d : Directed)
      (h : Heap)
      → grpc_proxy_transport v.gate.globals w incoming method v.sys.heap ≡ ret d h
      → Act engines tenants v (record {
        gate = v.gate;
        sys = record v.sys { heap = h; lent = lend (handed d) v.sys.lent };
      })
  give_back :
      {v : Service} (xs : List Client) (c : Client) (ys : List Client) (now : Time) (h : Heap)
      → v.sys.lent ≡ xs ++ (c ∷ ys)
      → client_close c now v.sys.heap ≡ ret tt h
      → Act engines tenants v
          (record { gate = v.gate; sys = record v.sys { heap = h; lent = xs ++ ys } })
  destroy :
      {v : Service} (c : Option Client) (rest : List (Option Client)) (h : Heap)
      → v.sys.doomed ≡ c ∷ rest
      → drain (c ∷ []) v.sys.heap ≡ ret tt h
      → Act engines tenants v
          (record { gate = v.gate; sys = record v.sys { heap = h; doomed = rest } })

-- The gateway with its globals as they are before `InitGrpcPool`.
abbrev pub started : Gate → Service
started g = record { gate = g; sys = initial }

pub data Runs (engines : List EngineConfig) (tenants : List TenantConfig) (v : Service)
    : Service → Type 0 where
  at_start : Runs engines tenants v v
  act :
      {u w : Service}
      → Runs engines tenants v u
      → Act engines tenants u w
      → Runs engines tenants v w

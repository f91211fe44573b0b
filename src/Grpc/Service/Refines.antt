-- ===== src/Grpc/Service/Refines.antt =====
-- Every act of the gateway is a sequence of calls of its pools.
use rpc_pigeon.Common.{◌≡◌, refl, List, All}
use rpc_pigeon.Grpc.Pool.Acquire.{KnownMode}
use rpc_pigeon.Grpc.Director.{Directed, forward, reject}
use rpc_pigeon.Grpc.Director.Lends.{client_of, director_lends}
use rpc_pigeon.Grpc.Tenant.Init.{TenantConfig}
use rpc_pigeon.Grpc.System
use rpc_pigeon.Grpc.System.{Sys, Reach, here, next, initial, lend}
use rpc_pigeon.Grpc.Gateway.{EngineConfig, Gate}
use rpc_pigeon.Grpc.Service.{
  Service, Act, set_up, by_omp, discover, update, release, check, direct, give_back, destroy,
  handed, started, Runs, at_start, act,
}
use rpc_pigeon.Grpc.Service.Pools.{Reach-trans, init_grpc_pool_by_omp-Goes, release_grpc_pool-Goes}
use rpc_pigeon.Grpc.Service.Rounds.{discovery-Goes, update-Goes}
use rpc_pigeon.Grpc.Service.Settings.{FitsInt32, init_grpc_pool-Goes, check_grpc_serer_health-Goes}

handed-client : (d : Directed) → handed d ≡ client_of d
handed-client (forward md c err) = refl
handed-client (reject e) = refl

module _ (engines : List EngineConfig) (tenants : List TenantConfig) where
  act-Reach :
      {v w : Service}
      → All (λ c. KnownMode c.pool_model) engines
      → All FitsInt32 tenants
      → Reach initial v.sys
      → Act engines tenants v w
      → Reach initial w.sys
  act-Reach {v} known fits r (set_up dial now order setting g h e) =
      Reach-trans r
        (init_grpc_pool-Goes dial now v.sys order setting engines tenants v.gate g h known fits e)
  act-Reach {v} known fits r (by_omp dial now found g h e) =
      Reach-trans r (init_grpc_pool_by_omp-Goes dial now v.sys found engines v.gate g h known e)
  act-Reach {v} known fits r (discover k engine names g left h e) =
      Reach-trans r (discovery-Goes k engines known v.sys engine names v.gate g left h e)
  act-Reach {v} known fits r (update k engine names g left h e) =
      Reach-trans r (update-Goes k engines known v.sys engine names v.gate g left h e)
  act-Reach {v} known fits r (release name engine g left h e) =
      Reach-trans r (release_grpc_pool-Goes v.sys name engine v.gate g left h e)
  act-Reach {v} known fits r (check probe engine g h e) =
      Reach-trans r (check_grpc_serer_health-Goes probe v.sys engine v.gate g h e)
  act-Reach {v} known fits r (direct w incoming method d h e) =
      rw (handed-client d) (director_lends v.gate.globals w v.sys r incoming method d h e).0
  act-Reach known fits r (give_back xs c ys now h among e) =
      next r (System.give_back xs c ys now h among e)
  act-Reach known fits r (destroy c rest h doomed e) = next r (System.destroy c rest h doomed e)

  -- Where the engines have one of the two modes and the tenants' sizes fit an `int32`, whatever the
  -- gateway does from its start on, in any order (set-ups, rounds of discovery, of updates and of
  -- the health tasks, releases, calls and their ends), its pools and tenants are in a state that
  -- calls of the pools alone reach from the empty store.
  pub Runs-Reach :
      (g : Gate) (v : Service)
      → All (λ c. KnownMode c.pool_model) engines
      → All FitsInt32 tenants
      → Runs engines tenants (started g) v
      → Reach initial v.sys
  Runs-Reach g v known fits at_start = here
  Runs-Reach g v known fits (act before step) =
      act-Reach known fits (Runs-Reach g _ known fits before) step

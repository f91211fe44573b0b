-- ===== src/Grpc/Server.antt =====
-- pkg/plugins/proxy/grpc.go: the gRPC servers of the gateway. PoolConfig.yaml, which viper reads, is
-- given as the records of Grpc/Gateway. `net.Listen`, gRPC and its reflection are not followed: a
-- server is the address that it listens on and its name.
pub mod Follows
pub mod Calls
pub mod Serves
pub mod Loop
pub mod Starts
pub mod Routes
use rpc_pigeon.Common.{ℕ, List, [], ◌∷◌, ◌++◌, if◌then◌else◌}
use rpc_pigeon.Common.Text.{Text}
use rpc_pigeon.Common.Dict.{Dict}
use rpc_pigeon.Common.Run.{◌>>=◌}
use rpc_pigeon.Grpc.Heap.{Time, Factory, Exec, pure}
use rpc_pigeon.Grpc.Tenant.Init.{TenantConfig}
use rpc_pigeon.Grpc.Gateway.{EngineConfig, Setting, Gate}
use rpc_pigeon.Grpc.Gateway.Setup.{init_grpc_pool}

-- The arguments of `grpcServer`.
pub record GrpcServer : Type 0 where
  pub addr : Text
  pub server_name : Text

abbrev pub server_of : (gateway_proxy_addr : Text) → EngineConfig → GrpcServer
server_of proxy c = record {
  addr = proxy ++ b':' ∷ c.gateway_proxy_port;
  server_name = c.engine_name;
}

-- The loop of `GRPCServer` over the engines.
unfoldable pub start_servers : (gateway_proxy_addr : Text) → List EngineConfig → List GrpcServer
start_servers proxy [] = []
start_servers proxy (c ∷ cs) =
    let rest = start_servers proxy cs in if c.pool_enabled then server_of proxy c ∷ rest else rest

-- `GRPCServer`: the globals after `InitGrpcPool`, and the servers that are started.
unfoldable pub grpc_server :
    (Text → Factory)
    → Time
    → (ℕ → ℕ → Dict ℕ → Dict ℕ)
    → Setting
    → List EngineConfig
    → List TenantConfig
    → Gate
    → Exec (Gate × List GrpcServer)
unfolding init_grpc_pool start_servers
grpc_server grpc_dial now order s engines tenants g =
    if s.enabled
    then (do
      g' ← init_grpc_pool grpc_dial now order s engines tenants g
      pure (g', start_servers s.gateway_proxy_addr engines))
    else pure (g, [])

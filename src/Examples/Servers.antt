-- ===== src/Examples/Servers.antt =====
-- A gateway with two engines, of which one is enabled: its pool and its server (proxy/grpc.go).
use rpc_pigeon.Common.{
  refl, pos, int64, inl, inr, List, [], ◌∷◌, true, false, All, arith, ◌≡◌, some, Option, ℕ, ◌⊎◌,
  int32,
}
use rpc_pigeon.Common.Text.{has_prefix, codes, to_lower}
use rpc_pigeon.Common.Run.{Run, ret, blocked, panic, and_then}
use rpc_pigeon.Common.Dict.{put, get}
use rpc_pigeon.Grpc.Heap.{Heap, load_pool, store_pool, send}
use rpc_pigeon.Grpc.System.{initial}
use rpc_pigeon.Grpc.Gateway.{
  EngineConfig, Setting, Gate, asr, engine_of, new_grpc_pool, cluster_size, install,
}
use rpc_pigeon.Grpc.Gateway.Setup.{
  init_grpc_pool, init_engines, init_engine, init_entries, init_entry, init_pool_for_tenant,
}
use rpc_pigeon.Grpc.Pool.{
  new_pool, alloc_pool, fill, create_client, dial, send_pool, acquire, received,
}
use rpc_pigeon.Grpc.Director.{Metadata, grpc_proxy_transport}
use rpc_pigeon.Grpc.Director.Tokens.{pools_at, answer}
use rpc_pigeon.Grpc.Director.Balanced.{PlainRequest}
use rpc_pigeon.Examples.Routes.{weather}
use rpc_pigeon.Grpc.Server.Routes.{Serving, started_routes}
use rpc_pigeon.Grpc.Server
use rpc_pigeon.Grpc.Server.{GrpcServer, start_servers}
use rpc_pigeon.Plugins.{
  Process, zero_plugin, running, sending, grpc_server, http_server, show_metrics, kvs_server, main,
  register_plugins, returns, after_body, body, Reaches, at_main, step,
}
use rpc_pigeon.Plugins.Waits.{Unheard, main_waits}
use rpc_pigeon.Grpc.Server.Serves.{Serves, Sound}
use rpc_pigeon.Grpc.Server.Starts.{grpc_server-Serves}
use rpc_pigeon.Examples.Gateways.{gate}

abbrev asr_engine : EngineConfig
asr_engine = record {
  engine_name = codes "ASR";
  engine_server_port = codes "80";
  engine_pool_init_interval_time = pos 5;
  pool_model = pos 0;
  grpc_request_reusable = true;
  request_idle_time = pos 10;
  request_max_life = pos 60;
  request_timeout = pos 10;
  gateway_proxy_port = codes "1";
  pool_enabled = true;
  engine_list =
      record { server_host = codes "a"; engine_grpc_pool_size = pos 2; xid = codes "10" }
      ∷ record { server_host = codes "b"; engine_grpc_pool_size = pos 1; xid = codes "11" }
      ∷ [];
}

abbrev tts_engine : EngineConfig
tts_engine = record asr_engine { engine_name = codes "TTS"; pool_enabled = false; engine_list = [] }

abbrev setting : Setting
setting = record {
  enabled = true;
  omp_enabled = false;
  tenant_enabled = false;
  network_mode = pos 1;
  gateway_proxy_addr = codes "g";
  cluster_enabled = false;
  cluster_node_num = pos 1;
}

abbrev configs : List EngineConfig
configs = asr_engine ∷ tts_engine ∷ []

-- One server, at `g:1`.
servers :
    start_servers (codes "g") configs
    ≡ record { addr = codes "g:1"; server_name = codes "ASR" } ∷ []
unfolding start_servers
servers = refl

abbrev no_pools : Gate
no_pools = record gate { globals = record gate.globals { asr_pools = []; tts_pools = [] } }

Sound-configs : All (λ c. (c.pool_enabled ≡ false) ⊎ Sound c) configs
unfolding to_lower engine_of int64
Sound-configs = (
  inr (
    asr,
    refl,
    refl,
    refl,
    ((1, refl, omega arith), ((0, refl, omega arith), tt)),
    ((refl, tt), (tt, tt)),
  ),
  (inl refl, tt),
)

grpc_server-Serves_example :
    (g' : Gate) × (h' : Heap) × (Server.grpc_server
        (λ addr i. true)
        (pos 0)
        (λ i j m. m)
        setting
        configs
        []
        gate
        initial.heap
      ≡ ret (g', start_servers (codes "g") configs) h')
    × All (Serves (start_servers (codes "g") configs) g' h') configs
unfolding to_lower engine_of int64
grpc_server-Serves_example =
    grpc_server-Serves (λ addr i. true) (pos 0) (λ addr i. refl) (λ i j m. m) setting configs []
      gate initial.heap refl refl refl refl refl Sound-configs
      (((tt, tt), ((tt, tt), tt)), (tt, tt))

abbrev run : Run Heap (Gate × List GrpcServer)
run =
    Server.grpc_server (λ addr i. true) (pos 0) (λ i j m. m) setting configs [] no_pools
      initial.heap

abbrev gate_of : Run Heap (Gate × List GrpcServer) → Gate
gate_of (ret r h) = r.0
gate_of (blocked h) = no_pools
gate_of (panic h) = no_pools

abbrev heap_of : Run Heap (Gate × List GrpcServer) → Heap
heap_of (ret r h) = h
heap_of (blocked h) = h
heap_of (panic h) = h

ran : run ≡ ret (gate_of run, start_servers (codes "g") configs) (heap_of run)
unfolding Server.grpc_server init_grpc_pool init_engines init_engine init_entries init_entry
    new_grpc_pool cluster_size install load_pool store_pool to_lower engine_of new_pool alloc_pool
    fill create_client dial send_pool send put init_pool_for_tenant start_servers int32 int64
ran = refl

abbrev incoming : Metadata
incoming = (codes ":authority", codes "g:1" ∷ []) ∷ []

request : PlainRequest (gate_of run).globals incoming (codes "/asr") (codes "g:1")
unfolding Server.grpc_server init_grpc_pool init_engines init_engine init_entries init_entry
    new_grpc_pool cluster_size install load_pool store_pool to_lower engine_of new_pool alloc_pool
    fill create_client dial send_pool send put init_pool_for_tenant start_servers int32 int64
    has_prefix get
request = record {
  public = refl;
  addressed = inr (_, _, refl, inl (refl, refl));
  gateway = refl;
  no_tokens = refl;
}

started_routes_example :
    (o : Option ℕ) × Serving (heap_of run) (pools_at (gate_of run).globals (codes "g:1")) o
    × (grpc_proxy_transport
          (gate_of run).globals
          weather
          (some incoming)
          (codes "/asr")
          (heap_of run)
        ≡ and_then (acquire o received (pos 1) (pos 2) (heap_of run)) (
            answer
              (gate_of run).globals
              weather
              incoming
              (codes "/asr")
              (codes "g:1")
              (heap_of run)))
unfolding to_lower engine_of int64
started_routes_example =
    started_routes (λ addr i. true) (pos 0) (λ addr i. refl) (λ i j m. m) setting configs []
      no_pools (gate_of run) initial.heap (heap_of run) (start_servers (codes "g") configs) weather
      incoming (codes "/asr") (codes "g:1") refl refl refl refl refl Sound-configs
      (((tt, tt), ((tt, tt), tt)), (tt, tt)) refl refl ran request (λ n. omega arith)

-- The plugin KvsServer has come to its send.
abbrev after_kvs : Process
after_kvs = record {
  routines =
      running grpc_server zero_plugin
      ∷ running http_server zero_plugin
      ∷ running show_metrics zero_plugin
      ∷ sending zero_plugin
      ∷ [];
  next_chan = 4;
  receives = some 3 ∷ some 0 ∷ some 1 ∷ some 2 ∷ [];
}

kvs_ends : Reaches (codes "dev") setting configs after_kvs
unfolding main register_plugins returns after_body
kvs_ends = step at_main (
    body
      (running grpc_server zero_plugin
        ∷ running http_server zero_plugin
        ∷ running show_metrics zero_plugin
        ∷ [])
      [] kvs_server zero_plugin refl refl)

main_waits_example :
    (after_kvs.receives ≡ some 3 ∷ some 0 ∷ some 1 ∷ some 2 ∷ []) × All Unheard after_kvs.routines
main_waits_example = main_waits kvs_ends

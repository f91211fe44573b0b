-- ===== src/Examples/Services.antt =====
-- The gateway from its start: one round of discovery makes a pool, and a release closes it.
use rpc_pigeon.Common.{refl, pos, int32, int64, inl, List, [], ◌∷◌, true, false}
use rpc_pigeon.Common.Text.{codes, Text}
use rpc_pigeon.Common.Run.{Run, ret, blocked, panic}
use rpc_pigeon.Grpc.Heap.{Heap}
use rpc_pigeon.Grpc.System.{initial, Reach}
use rpc_pigeon.Grpc.Gateway.{EngineConfig, Gate, release_grpc_pool}
use rpc_pigeon.Grpc.Discovery.{Round, init_pool_from_exist_engine, Svc}
use rpc_pigeon.Grpc.Discovery
use rpc_pigeon.Grpc.Service.{Service, leaving, started, discover, release, Runs, at_start, act}
use rpc_pigeon.Grpc.Service.Refines.{Runs-Reach}
use rpc_pigeon.Examples.Gateways.{gate, cluster, heap}

abbrev engine_asr : EngineConfig
engine_asr = record {
  engine_name = codes "ASR";
  engine_server_port = codes "80";
  engine_pool_init_interval_time = pos 5;
  pool_model = pos 0;
  grpc_request_reusable = true;
  request_idle_time = pos 10;
  request_max_life = pos 60;
  request_timeout = pos 10;
  gateway_proxy_port = codes "1";
  pool_enabled = true;
  engine_list = [];
}

abbrev empty_gate : Gate
empty_gate = record gate {
  globals = record gate.globals { asr_pools = []; tts_pools = [] };
  engine_cluster_enabled = false;
}

abbrev engines : List EngineConfig
engines = engine_asr ∷ []

abbrev left_by : Service → Run Heap Round → Service
left_by v (ret (g, left) h) = leaving v g left h
left_by v (blocked h) = v
left_by v (panic h) = v

abbrev found : Run Heap Round
found =
    init_pool_from_exist_engine cluster engines (codes "asr") (codes "asr-2-10" ∷ []) empty_gate
      initial.heap

abbrev after_found : Service
after_found = left_by (started empty_gate) found

abbrev closed : Run Heap Round
closed = release_grpc_pool (codes "10") (codes "asr") after_found.gate after_found.sys.heap

abbrev round_of : Run Heap Round → Round
round_of (ret r h) = r
round_of (blocked h) = (empty_gate, [])
round_of (panic h) = (empty_gate, [])

abbrev heap_of : Run Heap Round → Heap
heap_of (ret r h) = h
heap_of (blocked h) = initial.heap
heap_of (panic h) = initial.heap

runs : Runs engines [] (started empty_gate) (left_by after_found closed)
unfolding init_pool_from_exist_engine release_grpc_pool int32 int64
runs =
    act
      (act at_start (
        discover cluster (codes "asr") (codes "asr-2-10" ∷ []) (round_of found).0 (round_of found).1
          (heap_of found) refl))
      (release (codes "10") (codes "asr") (round_of closed).0 (round_of closed).1 (heap_of closed)
        refl)

Runs-Reach_example : Reach initial (left_by after_found closed).sys
Runs-Reach_example =
    Runs-Reach engines [] empty_gate (left_by after_found closed) (inl refl, tt) tt runs

-- The gateway of `Examples.Gateways`, whose pool has one connection, and a service that has two now.
abbrev single_gate : Gate
single_gate = record gate { engine_cluster_enabled = false }

abbrev svc : Svc
svc = record { engine_type = codes "asr"; engine_cc_num = codes "2"; scene_code = codes "10" }

-- ===== src/Examples/Gateways.antt =====
-- A gateway with the pool of `Examples.Pools`, under the name 10.
use rpc_pigeon.Common.{
  ℕ, ◌<◌, ◌≡◌, ◌↔◌, refl, pos, List, [], ◌∷◌, true, false, none, some, arith, if◌then◌else◌, ◌==◌,
  Bool,
}
use rpc_pigeon.Common.Text.{Text, codes, eq_text, to_lower}
use rpc_pigeon.Common.Dict.{get}
use rpc_pigeon.Common.Run.{ret}
use rpc_pigeon.Grpc.Heap.{Heap}
use rpc_pigeon.Grpc.Pool.{strict_mode, is_close, new_client}
use rpc_pigeon.Grpc.Gateway.{
  asr, engine_of, Options, Gate, pools_of, release_grpc_pool, cluster_size,
}
use rpc_pigeon.Grpc.Gateway.Release.{release_closes}
use rpc_pigeon.Grpc.Gateway.Cluster.{Shares, cluster_size_total}
use rpc_pigeon.Grpc.Discovery.{Cluster}
use rpc_pigeon.Grpc.Health.{check_pools, check_status}
use rpc_pigeon.Grpc.Health.Round.{After, round_total}
use rpc_pigeon.Examples.Pools.{after_make, full}
use rpc_pigeon.Examples.Routes.{globals}

abbrev options : Options
options = record {
  pool_model = pos 0;
  max_idle = pos 1;
  max_active = pos 1;
  max_concurrent_streams = pos 0;
  reusable = true;
  request_idle_time = pos 10;
  request_max_life = pos 60;
  request_time_out = pos 10;
  gateway_proxy_addr = codes "gw";
  gateway_proxy_port = codes "1";
  pool_status = true;
}

abbrev pub gate : Gate
gate = record {
  globals = globals true false;
  asr_options = options;
  tts_options = options;
  engine_svc_port = (codes "asr", codes "80") ∷ [];
  engine_pool_init_time = [];
  gateway_proxy_addr = codes "gw";
  engine_cluster_enabled = true;
  engine_cluster_node_num = pos 3;
  failed_pool_status = false;
}

abbrev pub heap : Heap
heap = (after_make strict_mode).heap

release_closes_example :
    (g' : Gate) × (h' : Heap) × (release_grpc_pool (codes "10") (codes "ASR") gate heap
      ≡ ret (g', some (new_client 0 (pos 0) 0) ∷ []) h')
    × (is_close (some 0) h' ≡ ret true h')
    × ((k : Text)
        → get (pools_of asr g') k
          ≡ (if eq_text (codes "10") k then none else get (pools_of asr gate) k))
    × ((q : ℕ)
        → h'.pools q ≡ (
            if q == 0
            then some (record (full strict_mode) { clients = none; status = false })
            else heap.pools q))
unfolding engine_of to_lower get
release_closes_example =
    release_closes asr (codes "10") (codes "ASR") gate heap 0 (full strict_mode)
      (record { cap = 1; buf = some (new_client 0 (pos 0) 0) ∷ [] }) refl refl refl refl

cluster_size_total_example :
    (size : ℕ) × (cluster_size gate (pos 10) heap ≡ ret (pos size) heap) × Shares 10 3 size
cluster_size_total_example = cluster_size_total gate 10 2 heap refl refl (omega arith)

-- Everything answers, at one address.
abbrev pub cluster : Cluster
cluster = record {
  live = λ addr. true;
  endpoints = λ name. (codes "1.2.3.4" ∷ []) ∷ [];
  grpc_dial = λ addr n. true;
  now = pos 0;
}

-- One name has two parts, the other stands for the pool that exists.
abbrev names : List Text
names = codes "asr-10" ∷ codes "asr-1-10" ∷ []

-- The third attempt succeeds.
abbrev probe : Text → ℕ → Bool
probe addr i = i == 2

round_total_example :
    (failed : Bool) × (h' : Heap) × (check_pools probe ((codes "10", 0) ∷ []) false heap
      ≡ ret failed h')
    × After probe heap ((codes "10", 0) ∷ []) h'
    × ((addr : Text)
        → (check_status (probe addr) ≡ true) ↔ ((j : ℕ) × (j < 6) × (probe addr j ≡ true)))
round_total_example = round_total probe heap ((codes "10", 0) ∷ []) false (refl, tt)

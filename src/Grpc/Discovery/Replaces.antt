-- ===== src/Grpc/Discovery/Replaces.antt =====
-- A service whose number of connections has changed gets a new pool.
use rpc_pigeon.Common.{ℕ, ◌≡◌, refl, ℤ, List, [], true, false, none, some}
use rpc_pigeon.Common.Text.{Text, eq_text}
use rpc_pigeon.Common.Dict.{Dict, get}
use rpc_pigeon.Grpc.Heap.{Pool, Heap}
use rpc_pigeon.Grpc.Gateway.{
  Engine, engine_of, EngineConfig, Gate, Found, pools_of, init_grpc_pool_by_omp,
}
use rpc_pigeon.Grpc.Discovery.{
  Cluster, Svc, host_port, port_of, pod_ip, server_name, pool_of, attach,
}

-- `port_of`, by the map of the ports.
abbrev port_in : Text → Dict Text → Text
port_in engine ports = elim (get ports engine) [ none ↦ [] | some port ↦ port ]

module _ (k : Cluster) (svc : Svc) where
  -- The address of the service's pod, and what is known of the engine.
  abbrev pub ip : Text
  ip = pod_ip [] (k.endpoints (server_name svc))

  abbrev pub found_of : ℤ → Found
  found_of n = record {
    engine_type = svc.engine_type;
    engine_cc_num = n;
    scene_code = svc.scene_code;
    server_host = ip;
  }

  pub attach_live :
      (engines : List EngineConfig) (n : ℤ) (g : Gate) (h : Heap)
      → eq_text ip [] ≡ false
      → k.live (host_port ip (port_of g svc.engine_type)) ≡ true
      → attach k engines svc n g h
        ≡ init_grpc_pool_by_omp k.grpc_dial k.now (found_of n) engines g h
  unfolding attach
  attach_live engines n g h there live = rw (there, live) refl

  pub pool_at :
      (g : Gate) (e : Engine) (p : ℕ)
      → engine_of svc.engine_type ≡ some e
      → get (pools_of e g) svc.scene_code ≡ some p
      → pool_of svc g ≡ some p
  unfolding pool_of
  pool_at g e p known at = rw (pool_of, known) at

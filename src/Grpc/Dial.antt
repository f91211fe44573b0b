-- ===== src/Grpc/Dial.antt =====
-- pkg/plugins/pool/grpc/grpc.go: what `grpcDial` hands to gRPC, and how an address is probed.
-- `net.DialTimeout` is an argument; the connection that gRPC makes is not followed.
use rpc_pigeon.Common.{
  ℕ, ◌*◌, ◌<◌, ◌^◌, ◌≡◌, ap, ◌∙◌, ℤ, pos, ◌*ℤ◌, int64, int64-pos, ◌++◌, ◌∷◌, [], Bool, true, false,
  not, ◌||◌, Option, none, some, if◌then◌else◌, arith,
}
use rpc_pigeon.Common.Text.{Text}
use rpc_pigeon.Common.Dict.{Dict, get}
use rpc_pigeon.Grpc.Heap.{Duration}
use rpc_pigeon.Grpc.Gateway.{seconds}

-- What `grpcDial` hands to `grpc.DialContext`, from the globals of these names.
pub record DialOptions : Type 0 where
  pub dial_timeout : Duration
  pub backoff_max_delay : Duration
  pub keep_alive_time : Duration
  pub keep_alive_timeout : Duration
  pub initial_window_size : ℤ
  pub initial_conn_window_size : ℤ
  pub max_send_msg_size : ℤ
  pub max_recv_msg_size : ℤ

abbrev pub second : ℕ
second = 10 ^ 9

abbrev pub default_options : DialOptions
default_options = record {
  dial_timeout = pos (5 * second);
  backoff_max_delay = pos (3 * second);
  keep_alive_time = pos (10 * second);
  keep_alive_timeout = pos (3 * second);
  initial_window_size = pos (2 ^ 30);
  initial_conn_window_size = pos (2 ^ 30);
  max_send_msg_size = pos (4 * 2 ^ 30);
  max_recv_msg_size = pos (4 * 2 ^ 30);
}

-- What `InitGrpcPool` reads of `pool.setting` for them, in seconds.
pub record DialSetting : Type 0 where
  pub dial_timeout : ℤ
  pub backoff_max_delay : ℤ
  pub keepalive_time : ℤ
  pub keepalive_timeout : ℤ

unfoldable pub set_dial : DialSetting → DialOptions → DialOptions
unfolding int64
set_dial s o = record o {
  dial_timeout = seconds s.dial_timeout;
  backoff_max_delay = seconds s.backoff_max_delay;
  keep_alive_time = seconds s.keepalive_time;
  keep_alive_timeout = seconds s.keepalive_timeout;
}

-- `checkGRPCSerer`: `dial_timeout` says whether a connection came, and whether an error.
unfoldable pub check_grpc_serer : (dial_timeout : Text → Bool × Bool) → Text → Bool
check_grpc_serer dial_timeout addr =
    let (conn, err) = dial_timeout addr in if err || not conn then false else true

-- `m[k]` of a map of strings, empty where there is no entry.
abbrev pub port_of : Option Text → Text
port_of none = []
port_of (some p) = p

-- `CheckEngineSererStatus`, with the port of the engine's services.
unfoldable pub check_engine_serer_status :
    (dial_timeout : Text → Bool × Bool)
    → (engine_svc_port : Dict Text) (server_name engine_type : Text) → Bool
unfolding check_grpc_serer get
check_engine_serer_status dial_timeout ports server_name engine_type =
    check_grpc_serer dial_timeout (server_name ++ b':' ∷ port_of (get ports engine_type))

-- A configured number of seconds below 2 ^ 33 is taken over as it is.
seconds-pos : (n : ℕ) → n < 2 ^ 33 → seconds (pos n) ≡ pos (n * second)
seconds-pos n small =
    let exact : pos n *ℤ pos (10 ^ 9) ≡ pos (n * second) = ground arith in
    ap int64 exact ∙ int64-pos (n * second) (omega arith)

-- ===== src/Plugins.antt =====
-- pigeon.go, pkg/plugins/plugin.go and what the plugins of pkg/plugins/proxy and pkg/plugins/metrics do
-- at their end: main starts four plugins and receives from a channel of each. The servers of gRPC and
-- of HTTP run until they fail; a panic of one, which ends the process, is not followed.
pub mod Waits
use rpc_pigeon.Common.{
  ℕ, suc, ◌≡◌, List, [], ◌∷◌, ◌++◌, map, Bool, true, false, not, Option, none, some, if◌then◌else◌,
}
use rpc_pigeon.Common.Text.{Text, codes, eq_text, to_lower}
use rpc_pigeon.Grpc.Gateway.{EngineConfig, Setting}
use rpc_pigeon.Grpc.Server.{GrpcServer, start_servers}

-- `plugins.Plugin`: its channel by number, or nil. The field `Factory` is an argument of `go` below.
pub record Plugin : Type 0 where
  pub status : Option ℕ

-- `var gRPCPlugin proxy.Plugin`
abbrev pub zero_plugin : Plugin
zero_plugin = record { status = none }

-- The functions that goroutines run: the four plugins, and a gRPC server of one of them.
pub data Factory : Type 0 where
  grpc_server http_server show_metrics kvs_server : Factory
  one_grpc_server : GrpcServer → Factory

-- A goroutine: in the body of a method of the plugin, at its deferred `plugin.Status <- false`, or at
-- its end.
pub data Routine : Type 0 where
  running : Factory → Plugin → Routine
  sending : Plugin → Routine
  finished : Routine

-- The goroutines beside main, the number of the next channel, and the channels that main has still to
-- receive from, in order.
pub record Process : Type 0 where
  pub routines : List Routine
  pub next_chan : ℕ
  pub receives : List (Option ℕ)

-- `registerPlugins`: the method value keeps its own receiver, and the channel that is returned is that
-- of a new plugin.
unfoldable pub register_plugins : Factory → Plugin → Process → Plugin × Process
register_plugins factory receiver p = (
  record { status = some p.next_chan },
  record p { routines = p.routines ++ running factory receiver ∷ []; next_chan = suc p.next_chan },
)

-- `main`, up to its first receive.
unfoldable pub main : Process
unfolding register_plugins
main =
    let (grpc, p₁) =
      register_plugins grpc_server zero_plugin
        (record { routines = []; next_chan = 0; receives = [] }) in
    let (http, p₂) = register_plugins http_server zero_plugin p₁ in
    let (metrics, p₃) = register_plugins show_metrics zero_plugin p₂ in
    let (kvs, p₄) = register_plugins kvs_server zero_plugin p₃ in
    record p₄ { receives = kvs.status ∷ grpc.status ∷ http.status ∷ metrics.status ∷ [] }

-- Whether the body of a method can come to its end, where a failure of a server ends its body.
-- `ShowMetrics` loops for ever in the mode `dev`.
unfoldable pub returns : (run_mode : Text) → Factory → Bool
unfolding to_lower
returns run_mode show_metrics = not (eq_text (to_lower run_mode) (codes "dev"))
returns run_mode _ = true

-- What the body leaves when it ends. `GRPCServer` has started its servers, and sends nothing; every other
-- method sends at its end.
unfoldable pub after_body : Setting → List EngineConfig → Factory → Plugin → List Routine
unfolding start_servers
after_body s engines grpc_server plugin =
    finished
    ∷ (if s.enabled
        then map (λ r. running (one_grpc_server r) plugin)
            (start_servers s.gateway_proxy_addr engines)
        else [])
after_body s engines _ plugin = sending plugin ∷ []

-- What happens next, for a configuration.
pub data Step (run_mode : Text) (s : Setting) (engines : List EngineConfig) (p : Process)
    : Process → Type 0 where
  body :
      (xs ys : List Routine) (f : Factory) (plugin : Plugin)
      → p.routines ≡ xs ++ (running f plugin ∷ ys)
      → returns run_mode f ≡ true
      → Step run_mode s engines p
          (record p { routines = xs ++ (after_body s engines f plugin ++ ys) })
  receive :
      (xs ys : List Routine) (plugin : Plugin) (k : ℕ) (rest : List (Option ℕ))
      → p.routines ≡ xs ++ (sending plugin ∷ ys)
      → plugin.status ≡ some k
      → p.receives ≡ some k ∷ rest
      → Step run_mode s engines p (record p { routines = xs ++ (finished ∷ ys); receives = rest })

pub data Reaches (run_mode : Text) (s : Setting) (engines : List EngineConfig)
    : Process → Type 0 where
  at_main : Reaches run_mode s engines main
  step :
      {p q : Process}
      → Reaches run_mode s engines p
      → Step run_mode s engines p q
      → Reaches run_mode s engines q

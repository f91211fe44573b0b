-- ===== src/Http/Server.antt =====
-- `HttpServer` of pkg/plugins/proxy/http.go: what the server is started with.
use rpc_pigeon.Common.{ℕ, ℤ, int64, List, Bool, Option}
use rpc_pigeon.Common.Text.{Text, codes}
use rpc_pigeon.Common.Run.{Run, ret, and_then}
use rpc_pigeon.Config.{Env, env_string, env_int}
use rpc_pigeon.Db.{duration_of}
use rpc_pigeon.Http.Routes.{Entry, Route, Router, definition_route}
use rpc_pigeon.Http.Routes.Reload.{no_routes}

pub record HttpServer : Type 0 where
  pub run_mode : Text
  pub time_out : ℤ
  pub port : Text

-- The server with its routes, once they are set up.
unfoldable pub http_server :
    (ℕ → Text)
    → (List Route → Route → Bool)
    → Env
    → Option (List (Option Entry))
    → Run Router HttpServer
unfolding definition_route env_int int64
http_server sprint_other takes env config =
    and_then (definition_route sprint_other takes config no_routes) (λ u r.
      ret
        (record {
          run_mode = env_string env (codes "HTTP_DEBUG_MODE");
          time_out = duration_of (env_int env (codes "HTTP_TIME_DURATION"));
          port = env_string env (codes "HTTP_SERVER_PORT");
        })
        r)

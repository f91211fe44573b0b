-- ===== src/Examples/Web.antt =====
-- The HTTP side at small inputs: a file of two routes, a login, a request that is late.
use rpc_pigeon.Common.{
  ◌++◌, if◌then◌else◌, ℕ, ◌≡◌, refl, List, [], ◌∷◌, Bool, true, false, Option, none, some,
}
use rpc_pigeon.Common.Text.{Text, codes, eq_text}
use rpc_pigeon.Common.Dict.{Dict, get, put, get-put}
use rpc_pigeon.Common.Run.{Run, ret, and_then}
use rpc_pigeon.Http.Routes.{text, Entry, Route, Router, get_method, definition_route, watch_router}
use rpc_pigeon.Http.Routes.Reload.{no_routes, loaded}
use rpc_pigeon.Http.Routes.Added.{handlers_at, own_routes, first_entry, proxied_at}
use rpc_pigeon.Http.Routes.Served.{first_entry_serves}
use rpc_pigeon.Http.Client.{OptionFn, with_header, with_query_param}
use rpc_pigeon.Http.Proxy.{Incoming, Outgoing, Reply, failed, request, proxied}
use rpc_pigeon.Http.Proxy.Exchange
use rpc_pigeon.Http.Proxy.Exchange.{Exchange, Reaches, answered, internal_error, sends_body}
use rpc_pigeon.Http.Proxy.Leaks.{Fits, run_proxy-Fits}
use rpc_pigeon.Http.Session
use rpc_pigeon.Http.Session.{Sessions, Context, save_auth_session, clear_auth_session, next_request}
use rpc_pigeon.Http.Session.Login.{LoggedIn, LoggedOut, login_carries_over}
use rpc_pigeon.Http.Timeout

-- A value that is no string prints as `1`, and gin takes every route.
abbrev sprint_other : ℕ → Text
sprint_other n = codes "1"

abbrev takes : List Route → Route → Bool
takes routes route = true

abbrev entry : (path to : Text) → Entry
entry path to =
    (text (codes "path"), text path)
    ∷ (text (codes "method"), text (codes "get"))
    ∷ (text (codes "to"), text to)
    ∷ []

-- The second entry has the path of the first one, and the changed file a new target for it.
abbrev config : Option (List (Option Entry))
config = some (some (entry (codes "/a") (codes "x")) ∷ some (entry (codes "/a") (codes "y")) ∷ [])

abbrev changed : Option (List (Option Entry))
changed = some (some (entry (codes "/a") (codes "z")) ∷ [])

abbrev run : Run Router Unit
run =
    and_then (definition_route sprint_other takes config no_routes)
      (λ u. watch_router sprint_other takes (changed ∷ []))

abbrev router_of : Run Router Unit → Router
router_of (ret u r) = r
router_of _ = no_routes

first_entry_serves_example :
    handlers_at (router_of run).routes get_method (codes "/a")
    ≡ proxied_at sprint_other takes
        (first_entry sprint_other takes (loaded (config ∷ changed ∷ [])) (codes "/a"))
        get_method
      ++ handlers_at own_routes get_method (codes "/a")
unfolding definition_route watch_router
first_entry_serves_example =
    first_entry_serves sprint_other takes config (changed ∷ []) (router_of run) get_method
      (codes "/a") refl

-- The canonical form of the names of one letter.
abbrev canonical : Text → Text
canonical k = if eq_text k (codes "h") then codes "H" else k

abbrev options : List OptionFn
options =
    with_query_param (codes "a") (codes "1")
    ∷ with_header (codes "H") (codes "x")
    ∷ with_header (codes "h") (codes "y")
    ∷ with_query_param (codes "a") (codes "2")
    ∷ []

-- The target does not answer.
abbrev send : Outgoing → Reply
send out = failed (codes "refused")

abbrev incoming : Incoming
incoming = record { method = codes "GET"; raw_query = codes "q=1"; post_form = []; header = [] }

abbrev end : Exchange
end = record { handler = answered (internal_error (codes "refused")); worker = sends_body [] }

reaches : Reaches (request send (proxied (codes "x") incoming)) end
unfolding request proxied
reaches =
    Exchange.step (Exchange.step Exchange.at_start Exchange.returns)
      (Exchange.takes_error (codes "refused"))

run_proxy-Fits_example :
    (reply : Reply) × (request send (proxied (codes "x") incoming) ≡ some reply)
    × Fits reply end.handler end.worker
run_proxy-Fits_example = run_proxy-Fits send (codes "x") incoming reaches

-- Sessions as maps, which the cookie holds itself.
abbrev api : Sessions (Dict Session.Value) (Dict Session.Value)
api = record {
  get = λ s k. get s k;
  set = λ s k v. put s k v;
  clear = λ s. [];
  load = λ s. s;
  save = λ s. s;
  get-set = λ s k j v. get-put s k j v;
  get-clear = λ s k. unfold get in refl;
  load-save = λ s. refl;
}

abbrev visit : Context api
visit = record { session = []; cookie = []; user_id = none; login_page = false; aborted = false }

abbrev next : Context api → Run (Context api) Unit
next c = ret tt c

login_carries_over_example :
    LoggedIn api next 7 (next_request api (save_auth_session api 7 visit))
    × LoggedOut api next (next_request api (clear_auth_session api visit))
login_carries_over_example = login_carries_over api next 7 visit

-- The time is out after the first write, and the status is set later.
abbrev script : List Timeout.Handled
script = Timeout.write (codes "a") ∷ Timeout.direct (Timeout.write_header 200) ∷ []

abbrev late_exchange : Timeout.Exchange
late_exchange = record {
  middleware = Timeout.aborted;
  worker = Timeout.sending;
  ahead = [];
  buffer = codes "a";
  reached = Timeout.gateway_timeout ∷ Timeout.passed (Timeout.write_header 200) ∷ [];
}

-- ===== src/Http/Routes.antt =====
-- pkg/plugins/proxy/http.go: the routes of RouteConfig.yaml, which are loaded at the start and again
-- whenever the file changes. `fmt.Sprintf` of a value that is no string is an argument, and so is
-- gin: whether it takes a route beside those that it has, as it panics where it does not.
pub mod Reload
pub mod Added
pub mod Served
use rpc_pigeon.Common.{
  ℕ, ℤ, List, [], ◌∷◌, ◌++◌, Bool, true, false, Option, none, some, if◌then◌else◌,
}
use rpc_pigeon.Common.Text.{Text, codes, eq_text}
use rpc_pigeon.Common.Dict.{Dict, get, put}
use rpc_pigeon.Common.Run.{Run, ret, panic, ◌>>=◌, ◌>>◌}
use rpc_pigeon.Config.{Env, env_string, env_int}

-- A value of a yaml file: a string, or a value of another type.
pub data Value : Type 0 where
  text : Text → Value
  other : ℕ → Value

-- An entry of ROUTE: its keys and values, in the order in which `range` visits them.
abbrev pub Entry : Type 0
Entry = List (Value × Value)

pub data Method : Type 0 where
  get_method : Method
  post_method : Method

-- What serves a route: the proxy to a target, or a method of a controller.
pub data Handler : Type 0 where
  run_proxy : (to : Text) → Handler
  controller : (method : Text) → Handler

pub record Route : Type 0 where
  pub method : Method
  pub path : Text
  pub handler : Handler

-- `routeMap`, and the routes that gin has, the latest first.
pub record Router : Type 0 where
  pub route_map : Dict Text
  pub routes : List Route

abbrev pub Exec : Type 0
Exec = Router → Run Router Unit

abbrev pub pure : Exec
pure r = ret tt r

module _ (sprint_other : ℕ → Text) (takes : List Route → Route → Bool) where
  -- `fmt.Sprintf("%v", v)`
  abbrev pub sprint : Value → Text
  sprint (text s) = s
  sprint (other n) = sprint_other n

  -- `rmapStr`
  unfoldable pub rmap_str : Entry → Dict Text → Dict Text
  unfolding put
  rmap_str [] m = m
  rmap_str ((k, v) ∷ entry) m = rmap_str entry (put m (sprint k) (sprint v))

  -- `rmapStr[key]`, empty if it is not set.
  abbrev pub value_of : Option Text → Text
  value_of none = []
  value_of (some s) = s

  unfoldable pub field : Text → Entry → Text
  unfolding rmap_str get
  field key entry = value_of (get (rmap_str entry []) key)

  abbrev pub path_of : Entry → Text
  path_of entry = field (codes "path") entry

  abbrev pub target_of : Entry → Text
  target_of entry = field (codes "to") entry

  -- `rmap["method"] == word`
  abbrev pub is_value : Value → Text → Bool
  is_value (text s) word = eq_text s word
  is_value (other n) word = false

  unfoldable pub method_is : Entry → Text → Bool
  method_is [] word = false
  method_is ((k, v) ∷ entry) word =
      let later = method_is entry word in
      if is_value k (codes "method") then is_value v word else later

  -- `r.GET` and `r.POST`
  abbrev pub register : Route → Exec
  register route r =
      if takes r.routes route then ret tt (record r { routes = route ∷ r.routes }) else panic r

  abbrev pub register_if : Bool → Method → Entry → Exec
  register_if true method entry =
      register
        (record { method = method; path = path_of entry; handler = run_proxy (target_of entry) })
  register_if false method entry = pure

  abbrev pub record_target : Entry → Exec
  record_target entry r =
      ret tt (record r { route_map = put r.route_map (path_of entry) (target_of entry) })

  abbrev pub add_new : Entry → Exec
  add_new entry = do
    record_target entry
    register_if (method_is entry (codes "get")) get_method entry
    register_if (method_is entry (codes "post")) post_method entry

  abbrev pub add_unless : Option Text → Entry → Exec
  add_unless (some to) entry = pure
  add_unless none entry = add_new entry

  -- `addRoute`, whose type assertion panics for a value that is no map.
  unfoldable pub add_route : Option Entry → Exec
  unfolding field get put method_is
  add_route none r = panic r
  add_route (some entry) r = add_unless (get r.route_map (path_of entry)) entry r

  unfoldable pub add_routes : List (Option Entry) → Exec
  unfolding add_route
  add_routes [] = pure
  add_routes (e ∷ es) = add_route e >> add_routes es

  -- `getRouterTask`: `none` is a configuration without routes.
  unfoldable pub get_router_task : Option (List (Option Entry)) → Exec
  unfolding add_routes
  get_router_task none = pure
  get_router_task (some entries) = add_routes entries

  -- `watchRouter`: a reload for each change of the file.
  unfoldable pub watch_router : List (Option (List (Option Entry))) → Exec
  unfolding get_router_task
  watch_router [] = pure
  watch_router (change ∷ changes) = get_router_task change >> watch_router changes

  -- The routes of the gateway itself, as `definitionRoute` adds them.
  abbrev pub own : Method → (path method : Text) → Exec
  own method path handler =
      register (record { method = method; path = path; handler = controller handler })

  -- `definitionRoute`, up to its middleware.
  unfoldable pub definition_route : Option (List (Option Entry)) → Exec
  unfolding get_router_task
  definition_route config = do
    own get_method (codes "/engine/metricsdata") (codes "GetEngineMetricsData")
    own post_method (codes "/engine/create") (codes "CreateEngine")
    own post_method (codes "/engine/update") (codes "UpdateEngine")
    own post_method (codes "/engine/delete") (codes "DeleteEngine")
    own post_method (codes "/engine/check") (codes "CheckEngine")
    get_router_task config

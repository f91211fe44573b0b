-- ===== src/Http/Proxy.antt =====
-- pkg/plugins/proxy/http.go: a request of a route is sent on to the route's target. fasthttp is an
-- argument: what it answers to the request that it is given.
pub mod Exchange
pub mod Leaks
use rpc_pigeon.Common.{ℕ, List, [], ◌∷◌, ◌++◌, Bool, true, false, Option, none, some, if◌then◌else◌}
use rpc_pigeon.Common.Text.{Text, codes, eq_text, to_upper}
use rpc_pigeon.Common.Dict.{Dict}
use rpc_pigeon.Http.Query.{encode}

-- What gin knows of a request: the values of a form as pairs, in the order of its keys.
pub record Incoming : Type 0 where
  pub method : Text
  pub raw_query : Text
  pub post_form : List (Text × Text)
  pub header : List (Text × Text)

abbrev pub with_query : (to query : Text) → Text
with_query to query = if eq_text query [] then to else to ++ b'?' ∷ query

-- `getRequestUrl`
unfoldable pub get_request_url : (to : Text) → Incoming → Text
unfolding encode
get_request_url to c = with_query to (
    if eq_text c.method (codes "GET")
    then c.raw_query
    else if eq_text c.method (codes "POST")
    then encode c.post_form
    else [])

-- `HttpRequest.Query`, a string or the values of a form.
pub data Query : Type 0 where
  string : Text → Query
  values : List (Text × Text) → Query

pub record HttpRequest : Type 0 where
  pub header : List (Text × Text)
  pub method : Text
  pub to : Text
  pub query : Query

-- The request that fasthttp is given.
pub data Outgoing : Type 0 where
  get_request : (url : Text) → Outgoing
  post_request : (to : Text) (args header : List (Text × Text)) → Outgoing

pub data Reply : Type 0 where
  body : Text → Reply
  failed : (err : Text) → Reply

-- The two type assertions of `Request`, which panic for a value of the other type.
abbrev pub get_of : Query → Option Outgoing
get_of (string u) = some (get_request u)
get_of (values vs) = none

abbrev pub post_of : HttpRequest → Query → Option Outgoing
post_of r (string u) = none
post_of r (values vs) = some (post_request r.to vs r.header)

abbrev pub replied : (Outgoing → Reply) → Option Outgoing → Option Reply
replied send none = none
replied send (some out) = some (send out)

-- `Request`: `none` is a panic.
unfoldable pub request : (Outgoing → Reply) → HttpRequest → Option Reply
unfolding to_upper
request send r =
    if eq_text (to_upper r.method) (codes "GET")
    then replied send (get_of r.query)
    else if eq_text (to_upper r.method) (codes "POST")
    then replied send (post_of r r.query)
    else some (failed (codes "http request any method"))

-- The request that `runProxy` makes.
unfoldable pub proxied : (to : Text) → Incoming → HttpRequest
unfolding get_request_url to_upper
proxied to c = record {
  header = c.header;
  method = c.method;
  to = to;
  query =
      if eq_text (to_upper c.method) (codes "POST")
      then values c.post_form
      else string (get_request_url to c);
}

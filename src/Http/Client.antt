-- ===== src/Http/Client.antt =====
-- pkg/plugins/httpserver/util/HttpClient.go: a request with its options. net/http is an argument:
-- which URLs it takes for a request, the canonical form of a header's name, and how the server
-- answers; and so is the order in which `range` visits the map of the headers.
pub mod Sends
use rpc_pigeon.Common.{
  ℕ, ℤ, pos, List, [], ◌∷◌, ◌++◌, Bool, true, false, ◌||◌, Option, none, some, ◌==◌, if◌then◌else◌,
}
use rpc_pigeon.Common.Text.{Text, codes}
use rpc_pigeon.Common.Dict.{Dict, get, put}
use rpc_pigeon.Http.Query.{encode}

-- `http.Client`, whose transport, test of redirects and cookie jar are net/http's. The methods of
-- `HttpClient` return the client that they have changed.
pub record HttpClient (T R J : Type 0) : Type 0 where
  pub transport : Option T
  pub check_redirect : Option R
  pub jar : Option J
  pub timeout : ℤ

module _ {T R J : Type 0} where
  abbrev pub new_http_client : HttpClient T R J
  new_http_client = record { transport = none; check_redirect = none; jar = none; timeout = pos 0 }

  unfoldable pub with_transport : T → HttpClient T R J → HttpClient T R J
  with_transport t c = record c { transport = some t }

  unfoldable pub with_check_redirect : R → HttpClient T R J → HttpClient T R J
  with_check_redirect r c = record c { check_redirect = some r }

  unfoldable pub with_jar : J → HttpClient T R J → HttpClient T R J
  with_jar j c = record c { jar = some j }

  unfoldable pub with_time_out : ℤ → HttpClient T R J → HttpClient T R J
  with_time_out t c = record c { timeout = t }

-- `Option`
pub record Settings : Type 0 where
  pub headers : Dict Text
  pub query_params : Dict Text

-- `OptionFn`, by the functions that make them.
pub data OptionFn : Type 0 where
  with_headers : Dict Text → OptionFn
  with_header : (key value : Text) → OptionFn
  with_query_params : Dict Text → OptionFn
  with_query_param : (key value : Text) → OptionFn

unfoldable pub put_all : Dict Text → Dict Text → Dict Text
unfolding put
put_all [] m = m
put_all ((k, v) ∷ entries) m = put_all entries (put m k v)

unfoldable pub apply_option : OptionFn → Settings → Settings
unfolding put_all put
apply_option (with_headers hs) o = record o { headers = put_all hs o.headers }
apply_option (with_header k v) o = record o { headers = put o.headers k v }
apply_option (with_query_params ps) o = record o { query_params = put_all ps o.query_params }
apply_option (with_query_param k v) o = record o { query_params = put o.query_params k v }

unfoldable pub apply_options : List OptionFn → Settings → Settings
unfolding apply_option
apply_options [] o = o
apply_options (f ∷ fs) o = apply_options fs (apply_option f o)

-- `strings.Contains(url, "?")`
abbrev pub has_query : Text → Bool
has_query [] = false
has_query (c ∷ s) = c == b'?' || has_query s

-- The URL with the parameters, if there are any.
unfoldable pub with_query : Text → Dict Text → Text
unfolding encode
with_query url [] = url
with_query url (p ∷ ps) = url ++ (if has_query url then b'&' else b'?') ∷ encode (p ∷ ps)

pub record Request : Type 0 where
  pub method : Text
  pub url : Text
  pub headers : Dict (List Text)

-- What comes of a request: an error before the body was read, an error in it, or the whole body.
pub data Answer : Type 0 where
  no_response : Text → Answer
  broken_body : Text → Answer
  replied : (body : Text) → Answer

-- What `Do` returns: an error, or the body.
pub data Done : Type 0 where
  failed : Text → Done
  body : Text → Done

abbrev pub done : Answer → Done
done (no_response e) = failed e
done (broken_body e) = failed e
done (replied b) = body b

abbrev pub sent : (Request → Answer) → Option Text → Request → Done
sent send (some e) r = failed e
sent send none r = done (send r)

-- The values of a header: none, where it is not set.
abbrev pub values_of : Option (List Text) → List Text
values_of none = []
values_of (some vs) = vs

module _ (canonical : Text → Text) where
  -- `request.Header.Add(key, value)`, which appends to the values of the canonical name.
  abbrev pub add_header : Dict (List Text) → Text → Text → Dict (List Text)
  add_header hd k v = put hd (canonical k) (values_of (get hd (canonical k)) ++ v ∷ [])

  unfoldable pub add_headers : Dict Text → Dict (List Text) → Dict (List Text)
  unfolding put get
  add_headers [] hd = hd
  add_headers ((k, v) ∷ hs) hd = add_headers hs (add_header hd k v)

  -- The request that `Do` makes.
  unfoldable pub request_of :
      (order : Dict Text → Dict Text) (method url : Text) → List OptionFn → Request
  unfolding apply_options with_query add_headers
  request_of order method url options =
      let o = apply_options options (record { headers = []; query_params = [] }) in
      record {
        method = method;
        url = with_query url o.query_params;
        headers = add_headers (order o.headers) [];
      }

-- `Do`; `new_request` is the error of `http.NewRequest`, if it has one.
unfoldable pub do_request :
    (canonical : Text → Text) (order : Dict Text → Dict Text)
    (new_request : Text → Text → Option Text)
    → (Request → Answer)
    → (method url : Text) → List OptionFn
    → Done
unfolding request_of
do_request canonical order new_request send method url options =
    let r = request_of canonical order method url options in sent send (new_request method r.url) r

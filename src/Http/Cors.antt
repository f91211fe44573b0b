-- ===== src/Http/Cors.antt =====
-- pkg/plugins/httpserver/middleware/Cors.go. Of gin: `c.Header` sets a header of the response, `c.Set` a
-- key of the context, `AbortWithStatus` sets the status and keeps the handlers behind from running, and
-- `c.Next` runs them.
pub mod Admits
use rpc_pigeon.Common.{
  ◌≡◌, refl, List, [], ◌∷◌, ◌++◌, ℕ, Option, none, some, or_else, if◌then◌else◌, Bool, true, false,
  arith,
}
use rpc_pigeon.Common.Text.{Text, codes, eq_text}
use rpc_pigeon.Common.Dict.{Dict, get, put, get-put}

-- What the middleware reads of the request: `Header.Get("Origin")` is empty where there is none.
pub record Request : Type 0 where
  pub method : Text
  pub origin : Text
  pub header_keys : List Text

-- A `gin.Context` that no handler has written to, or one after some.
pub record Context : Type 0 where
  pub headers : Dict Text
  pub keys : Dict Text
  pub status : Option ℕ
  pub aborted : Bool

-- `strings.Join(keys, ", ")`
unfoldable pub join : List Text → Text
join [] = []
join (k ∷ []) = k
join (k ∷ j ∷ ks) = k ++ (codes ", " ++ join (j ∷ ks))

-- `headerStr`, which is not used.
unfoldable pub header_str : List Text → Text
unfolding join
header_str ks =
    if eq_text (join ks) []
    then codes "access-control-allow-origin, access-control-allow-headers"
    else codes "access-control-allow-origin, access-control-allow-headers, " ++ join ks

abbrev pub header : Text → Text → Context → Context
header k v c = record c { headers = put c.headers k v }

-- `Cors`
unfoldable pub cors : (Context → Context) → Context → Context
unfolding put
cors next c = next (header (codes "Access-Control-Allow-Origin") (codes "*") c)

-- The headers that `CorsAll` sets for a request with an origin.
unfoldable pub cors_headers : Dict Text
cors_headers =
    (codes "Access-Control-Allow-Origin", codes "*")
    ∷ (codes "Access-Control-Allow-Methods", codes "POST, GET, OPTIONS, PUT, DELETE,UPDATE")
    ∷ (
      codes "Access-Control-Allow-Headers",
      codes "Authorization, Content-Length, X-CSRF-Token, "
          ++ (codes "Token,session,X_Requested_With,Accept, Origin, Host, "
              ++ (codes "Connection, Accept-Encoding, Accept-Language,DNT, "
                  ++ (codes "X-CustomHeader, Keep-Alive, User-Agent, X-Requested-With, "
                      ++ codes "If-Modified-Since, Cache-Control, Content-Type, Pragma"))),
    )
    ∷ (
      codes "Access-Control-Expose-Headers",
      codes "Content-Length, Access-Control-Allow-Origin, "
          ++ (codes "Access-Control-Allow-Headers,Cache-Control,Content-Language,"
              ++ codes "Content-Type,Expires,Last-Modified,Pragma,FooBar"),
    )
    ∷ (codes "Access-Control-Max-Age", codes "172800")
    ∷ (codes "Access-Control-Allow-Credentials", codes "false")
    ∷ []

abbrev pub set_all : Dict Text → Context → Context
set_all [] c = c
set_all ((k, v) ∷ hs) c = set_all hs (header k v c)

unfoldable pub allow : Context → Context
unfolding put cors_headers
allow c =
    let c' = set_all cors_headers c in
    record c' { keys = put c'.keys (codes "content-type") (codes "application/json") }

-- `CorsAll`, before the handlers behind.
unfoldable pub admit : Request → Context → Context
unfolding allow
admit r c =
    let c' = if eq_text r.origin [] then c else allow c in
    if eq_text r.method (codes "OPTIONS")
    then record c' { status = some 204; aborted = true }
    else c'

-- `CorsAll`, with the handlers behind.
unfoldable pub cors_all : (Context → Context) → Request → Context → Context
unfolding admit
cors_all next r c = let c' = admit r c in if c'.aborted then c' else next c'

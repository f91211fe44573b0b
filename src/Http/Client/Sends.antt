-- ===== src/Http/Client/Sends.antt =====
-- What a request of the client carries.
use rpc_pigeon.Common.{
  ◌≡◌, ◌⊎◌, List, [], ◌∷◌, ◌++◌, Option, none, some, if◌then◌else◌, or_else, Bytes,
}
use rpc_pigeon.Common.Text.{Text, eq_text}
use rpc_pigeon.Common.Dict.{Dict, get, Distinct}
use rpc_pigeon.Http.Query.RoundTrip.{AreBytes, parse_query}
use rpc_pigeon.Http.Client.{
  OptionFn, with_headers, with_header, with_query_params, with_query_param, has_query, values_of,
}

-- What the last entry with the key says.
pub last_entry : Dict Text → Text → Option Text
last_entry [] k = none
last_entry ((j, v) ∷ m) k = or_else (last_entry m k) (if eq_text j k then some v else none)

-- What the last option that names the parameter says of it, and what the last that names the header.
abbrev param_of : OptionFn → Text → Option Text
param_of (with_headers hs) k = none
param_of (with_header j v) k = none
param_of (with_query_params ps) k = last_entry ps k
param_of (with_query_param j v) k = if eq_text j k then some v else none

abbrev header_of : OptionFn → Text → Option Text
header_of (with_headers hs) k = last_entry hs k
header_of (with_header j v) k = if eq_text j k then some v else none
header_of (with_query_params ps) k = none
header_of (with_query_param j v) k = none

pub last_param : List OptionFn → Text → Option Text
last_param [] k = none
last_param (f ∷ fs) k = or_else (last_param fs k) (param_of f k)

pub last_header : List OptionFn → Text → Option Text
last_header [] k = none
last_header (f ∷ fs) k = or_else (last_header fs k) (header_of f k)

-- Each option sets bytes.
abbrev OptionBytes : OptionFn → Type 0
OptionBytes (with_headers hs) = Unit
OptionBytes (with_header j v) = Unit
OptionBytes (with_query_params ps) = AreBytes ps
OptionBytes (with_query_param j v) = Bytes j × Bytes v

-- The URL has no parameters to carry, or has them after its own query.
abbrev pub Carries : (url carrier : Text) → (Text → Option Text) → Type 0
Carries url carrier params =
    (((k : Text) → params k ≡ none) × (carrier ≡ url))
    ⊎ ((q : Text) × (qs : Dict Text) × (carrier ≡ url ++ (if has_query url then b'&' else b'?') ∷ q)
        × (parse_query q ≡ some qs)
        × ((k : Text) → get qs k ≡ params k))

module _ (canonical : Text → Text) where
  -- The values of the entries whose names have the canonical form `c`, in their order.
  pub values_named : Dict Text → Text → List Text
  values_named [] c = []
  values_named ((k, v) ∷ hs) c =
      (if eq_text (canonical k) c then v ∷ [] else []) ++ values_named hs c

  -- The headers of a request are those of a map `m` of the options: each name once, with the value of
  -- the last option that names it. A header has the values of all names of `m` with its canonical form.
  abbrev pub Headers :
      (order : Dict Text → Dict Text) → Dict (List Text) → (Text → Option Text) → Type 0
  Headers order headers last =
      (m : Dict Text) × Distinct m
      × ((k : Text) → get m k ≡ last k)
      × ((c : Text) → values_of (get headers c) ≡ values_named (order m) c)

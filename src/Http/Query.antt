-- ===== src/Http/Query.antt =====
-- The encoding of query parameters: `url.Values.Encode`, which pkg/plugins/httpserver/util/HttpClient.go
-- and pkg/plugins/proxy/http.go call, as Go documents it.
pub mod Escape
pub mod RoundTrip
use rpc_pigeon.Common.{
  ℕ, ◌+◌, ◌-◌, ◌/◌, ◌%◌, List, [], ◌∷◌, ◌++◌, Bool, true, false, ◌&&◌, ◌||◌, ltb, leb, ◌==◌,
  if◌then◌else◌,
}
use rpc_pigeon.Common.Text.{Text, is_digit}

abbrev pub is_letter : ℕ → Bool
is_letter c = (leb b'a' c && leb c b'z') || (leb b'A' c && leb c b'Z')

-- The bytes that `url.QueryEscape` keeps.
abbrev pub is_kept : ℕ → Bool
is_kept c = is_letter c || is_digit c || c == b'-' || c == b'_' || c == b'.' || c == b'~'

-- An upper-case hexadecimal digit.
abbrev pub hex : ℕ → ℕ
hex n = if ltb n 10 then n + b'0' else n - 10 + b'A'

abbrev pub escaped : ℕ → Text → Text
escaped c rest =
    if is_kept c
    then c ∷ rest
    else if c == b' '
    then b'+' ∷ rest
    else b'%' ∷ hex (c / 16) ∷ hex (c % 16) ∷ rest

unfoldable pub query_escape : Text → Text
query_escape [] = []
query_escape (c ∷ s) = escaped c (query_escape s)

-- `s <= t`, by bytes.
unfoldable pub leb_text : Text → Text → Bool
leb_text [] t = true
leb_text (x ∷ s) [] = false
leb_text (x ∷ s) (y ∷ t) = ltb x y || (x == y && leb_text s t)

-- Pairs sorted by key.
unfoldable pub insert : Text × Text → List (Text × Text) → List (Text × Text)
unfolding leb_text
insert p [] = p ∷ []
insert p (q ∷ ps) = let rest = insert p ps in if leb_text p.0 q.0 then p ∷ q ∷ ps else q ∷ rest

unfoldable pub sorted : List (Text × Text) → List (Text × Text)
unfolding insert
sorted [] = []
sorted (p ∷ ps) = insert p (sorted ps)

abbrev pub pair_text : Text × Text → Text
pair_text (k, v) = query_escape k ++ b'=' ∷ query_escape v

unfoldable pub join_pairs : Text × Text → List (Text × Text) → Text
unfolding query_escape
join_pairs p [] = pair_text p
join_pairs p (q ∷ ps) = pair_text p ++ b'&' ∷ join_pairs q ps

abbrev pub joined : List (Text × Text) → Text
joined [] = []
joined (p ∷ ps) = join_pairs p ps

-- `Encode` of values given as pairs, the values of a key in their order.
unfoldable pub encode : List (Text × Text) → Text
unfolding sorted join_pairs
encode ps = joined (sorted ps)

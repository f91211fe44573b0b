-- ===== src/Http/Query/RoundTrip.antt =====
-- A server reads back the parameters that were encoded.
use rpc_pigeon.Common.{
  ℕ, ◌<◌, ◌≡◌, refl, ap, ◌∙◌, ◌⊎◌, inl, inr, List, [], ◌∷◌, ◌++◌, Bool, true, false, ◌==◌,
  if◌then◌else◌, if_cases, All-append, Option, none, some, All, Bytes, arith, Bool-cases,
}
use rpc_pigeon.Common.Text.{Text, split, eq_text, eq_of_eq_text}
use rpc_pigeon.Common.Dict.{get}
use rpc_pigeon.Common.Split.{Without, split-Without, split-append}
use rpc_pigeon.Http.Query.{
  is_kept, escaped, query_escape, leb_text, insert, sorted, pair_text, join_pairs, joined, encode,
}
use rpc_pigeon.Http.Query.Escape.{unescape, plain, unescape-query_escape}

-- How `url.ParseQuery` reads: the parts between `&`, each cut at its first `=`, and the two halves
-- without their escapes.

-- The two parts of a text, before and after its first `=`.
abbrev pub before_cut : ℕ → Text × Text → Text × Text
before_cut c (a, b) = (c ∷ a, b)

unfoldable pub cut : Text → Text × Text
cut [] = ([], [])
cut (c ∷ s) = let rest = cut s in if c == b'=' then ([], s) else before_cut c rest

abbrev pub both : Option Text → Option Text → Option (Text × Text)
both (some a) (some b) = some (a, b)
both (some a) none = none
both none b = none

abbrev pub parse_pair : Text × Text → Option (Text × Text)
parse_pair (k, v) = both (unescape plain k) (unescape plain v)

abbrev pub then_pair :
    Option (Text × Text) → Option (List (Text × Text)) → Option (List (Text × Text))
then_pair (some p) (some ps) = some (p ∷ ps)
then_pair (some p) none = none
then_pair none ps = none

unfoldable pub parse_parts : List Text → Option (List (Text × Text))
unfolding cut unescape
parse_parts [] = some []
parse_parts (part ∷ parts) = then_pair (parse_pair (cut part)) (parse_parts parts)

unfoldable pub parse_query : Text → Option (List (Text × Text))
unfolding parse_parts split
parse_query [] = some []
parse_query (c ∷ s) = parse_parts (split (c ∷ s) b'&')

escaped-Without :
    (sep c : ℕ) (rest : Text)
    → (sep ≡ b'&') ⊎ (sep ≡ b'=')
    → c < 256
    → Without sep rest
    → Without sep (escaped c rest)
escaped-Without sep c rest special byte h =
    if_cases (Without sep) (is_kept c) _ _ (λ kept. (ground arith, h))
      (λ other.
        if_cases (Without sep) (c == b' ') _ _ (λ space. (ground arith, h))
          (λ more. (ground arith, (ground arith, (ground arith, h)))))

query_escape-Without :
    (sep : ℕ) (s : Text) → (sep ≡ b'&') ⊎ (sep ≡ b'=') → Bytes s → Without sep (query_escape s)
unfolding query_escape
query_escape-Without sep [] special h = tt
query_escape-Without sep (c ∷ s) special h =
    escaped-Without sep c (query_escape s) special h.0 (query_escape-Without sep s special h.1)

cut-Without : (k v : Text) → Without b'=' k → cut (k ++ b'=' ∷ v) ≡ (k, v)
unfolding cut
cut-Without [] v h = refl
cut-Without (c ∷ k) v h = rw (h.0, cut-Without k v h.1) refl

-- Both halves of each pair are bytes.
abbrev pub AreBytes : List (Text × Text) → Type 0
AreBytes = All (λ p. Bytes p.0 × Bytes p.1)

pair_text-Without : (p : Text × Text) → Bytes p.0 × Bytes p.1 → Without b'&' (pair_text p)
pair_text-Without (k, v) (hk, hv) =
    All-append _ (query_escape k) _ (query_escape-Without b'&' k (inl refl) hk)
      (refl, query_escape-Without b'&' v (inl refl) hv)

parse_pair-pair_text :
    (p : Text × Text) → Bytes p.0 × Bytes p.1 → parse_pair (cut (pair_text p)) ≡ some p
parse_pair-pair_text (k, v) (hk, hv) =
    ap parse_pair
      (cut-Without (query_escape k) (query_escape v) (query_escape-Without b'=' k (inr refl) hk))
    ∙ rw (unescape-query_escape k hk, unescape-query_escape v hv) refl

parse_parts-join_pairs :
    (p : Text × Text) (ps : List (Text × Text))
    → Bytes p.0 × Bytes p.1
    → AreBytes ps
    → parse_parts (split (join_pairs p ps) b'&') ≡ some (p ∷ ps)
unfolding join_pairs parse_parts
parse_parts-join_pairs p [] h hs =
    rw (split-Without b'&' (pair_text p) (pair_text-Without p h), parse_pair-pair_text p h) refl
parse_parts-join_pairs p (q ∷ ps) h hs =
    rw
      (
        split-append b'&' (pair_text p) (join_pairs q ps) (pair_text-Without p h),
        parse_pair-pair_text p h,
        parse_parts-join_pairs q ps hs.0 hs.1,
      )
      refl

parse_query-append :
    (a : Text) (c : ℕ) (b : Text) → parse_query (a ++ c ∷ b) ≡ parse_parts (split (a ++ c ∷ b) b'&')
unfolding parse_query
parse_query-append [] c b = refl
parse_query-append (x ∷ a) c b = refl

parse_query-join_pairs :
    (p : Text × Text) (ps : List (Text × Text))
    → parse_query (join_pairs p ps) ≡ parse_parts (split (join_pairs p ps) b'&')
unfolding join_pairs
parse_query-join_pairs p [] = parse_query-append (query_escape p.0) b'=' (query_escape p.1)
parse_query-join_pairs p (q ∷ ps) = parse_query-append (pair_text p) b'&' (join_pairs q ps)

parse_query-joined : (ps : List (Text × Text)) → AreBytes ps → parse_query (joined ps) ≡ some ps
parse_query-joined [] h = unfold parse_query in refl
parse_query-joined (p ∷ ps) h = parse_query-join_pairs p ps ∙ parse_parts-join_pairs p ps h.0 h.1

-- Sorting keeps the pairs, and the first value of each key.
insert-AreBytes :
    (p : Text × Text) (ps : List (Text × Text))
    → Bytes p.0 × Bytes p.1
    → AreBytes ps
    → AreBytes (insert p ps)
unfolding insert
insert-AreBytes p [] h hs = (h, tt)
insert-AreBytes p (q ∷ ps) h hs =
    if_cases AreBytes (leb_text p.0 q.0) _ _ (λ first. (h, hs))
      (λ later. (hs.0, insert-AreBytes p ps h hs.1))

sorted-AreBytes : (ps : List (Text × Text)) → AreBytes ps → AreBytes (sorted ps)
unfolding sorted
sorted-AreBytes [] h = tt
sorted-AreBytes (p ∷ ps) h = insert-AreBytes p (sorted ps) h.0 (sorted-AreBytes ps h.1)

leb_text_refl : (s : Text) → leb_text s s ≡ true
unfolding leb_text
leb_text_refl [] = refl
leb_text_refl (c ∷ s) = ground (arith, leb_text_refl s)

if_swap :
    (a b : Bool) (x y o : Option Text)
    → (a ≡ true → b ≡ false)
    → (if a then x else if b then y else o) ≡ (if b then y else if a then x else o)
if_swap true b x y o apart = rw (apart refl) refl
if_swap false b x y o apart = refl

get_swap :
    (p q : Text × Text) (k : Text) (o : Option Text)
    → leb_text p.0 q.0 ≡ false
    → (if eq_text q.0 k then some q.1 else if eq_text p.0 k then some p.1 else o)
      ≡ (if eq_text p.0 k then some p.1 else if eq_text q.0 k then some q.1 else o)
get_swap p q k o later = if_swap (eq_text q.0 k) (eq_text p.0 k) (some q.1) (some p.1) o (λ at_q.
    let q_k = eq_of_eq_text q.0 k at_q in
    elim (Bool-cases (eq_text p.0 k)) [
      | inl at_p ↦
          let same : leb_text p.0 q.0 ≡ true =
            rw (eq_of_eq_text p.0 k at_p, q_k) (leb_text_refl k) in
          absurd (cc)
      | inr other ↦ other
    ])

get-insert :
    (p : Text × Text) (ps : List (Text × Text)) (k : Text)
    → get (insert p ps) k ≡ (if eq_text p.0 k then some p.1 else get ps k)
unfolding insert get
get-insert p [] k = refl
get-insert p (q ∷ ps) k =
    if_cases
      (λ l.
        get l k
        ≡ (if eq_text p.0 k then some p.1 else if eq_text q.0 k then some q.1 else get ps k))
      (leb_text p.0 q.0) _ _ (λ first. refl)
      (λ later.
        ap (λ o. if eq_text q.0 k then some q.1 else o) (get-insert p ps k)
        ∙ get_swap p q k (get ps k) later)

get-sorted : (ps : List (Text × Text)) (k : Text) → get (sorted ps) k ≡ get ps k
unfolding sorted get
get-sorted [] k = refl
get-sorted (p ∷ ps) k =
    get-insert p (sorted ps) k ∙ ap (λ o. if eq_text p.0 k then some p.1 else o) (get-sorted ps k)

-- A server that reads the encoding of parameters finds each of them: under every key, the first
-- value that was given for it.
pub parse_query-encode :
    (ps : List (Text × Text))
    → AreBytes ps
    → (qs : List (Text × Text)) × (parse_query (encode ps) ≡ some qs)
      × ((k : Text) → get qs k ≡ get ps k)
unfolding encode
parse_query-encode ps h =
    (sorted ps, parse_query-joined (sorted ps) (sorted-AreBytes ps h), get-sorted ps)

-- ===== src/Http/Cors/Admits.antt =====
-- What `CorsAll` (middleware/Cors.go) leaves of a request.
use rpc_pigeon.Common.{
  ◌≡◌, refl, ◌∙◌, ap, sym, [], ◌∷◌, Option, none, some, or_else, if◌then◌else◌, Bool, true, false,
  Bool-cases, inl, inr, if_on, if_off,
}
use rpc_pigeon.Common.Text.{Text, codes, eq_text, eq_of_eq_text}
use rpc_pigeon.Common.Dict.{Dict, get, get-put, Distinct}
use rpc_pigeon.Http.Cors.{Request, Context, header, set_all, cors_headers, allow, admit, cors_all}

-- The new headers, and those before where no new one stands.
set_all-get :
    (hs : Dict Text) (c : Context) (k : Text)
    → Distinct hs
    → get (set_all hs c).headers k ≡ or_else (get hs k) (get c.headers k)
unfolding get
set_all-get [] c k d = refl
set_all-get ((a, v) ∷ hs) c k (fresh, d) =
    set_all-get hs (header a v c) k d
    ∙ ap (or_else (get hs k)) (get-put c.headers a k v)
    ∙ one (eq_text a k) v (get hs k) (get c.headers k) λ e. rw (sym (eq_of_eq_text a k e)) fresh
  where
    one :
        (b : Bool) (v : Text) (x y : Option Text)
        → (b ≡ true → x ≡ none)
        → or_else x (if b then some v else y) ≡ or_else (if b then some v else x) y
    one true v x y f = rw (f refl) refl
    one false v x y f = refl

cors_headers-Distinct : Distinct cors_headers
unfolding cors_headers get
cors_headers-Distinct = (refl, (refl, (refl, (refl, (refl, (refl, tt))))))

set_all-rest :
    (hs : Dict Text) (c : Context)
    → ((set_all hs c).status ≡ c.status) × ((set_all hs c).aborted ≡ c.aborted)
set_all-rest [] c = (refl, refl)
set_all-rest ((a, v) ∷ hs) c = set_all-rest hs (header a v c)

-- The headers after `CorsAll`, of those before.
abbrev pub shown : Request → Dict Text → Text → Option Text
shown r headers k =
    if eq_text r.origin [] then get headers k else or_else (get cors_headers k) (get headers k)

abbrev pub is_options : Request → Bool
is_options r = eq_text r.method (codes "OPTIONS")

-- What a context is after the headers, with the headers that it shows.
allowed :
    (r : Request) (c : Context)
    → (c' : Context) × ((if eq_text r.origin [] then c else allow c) ≡ c')
      × ((k : Text) → get c'.headers k ≡ shown r c.headers k)
      × (c'.status ≡ c.status)
      × (c'.aborted ≡ c.aborted)
unfolding allow
allowed r c = elim (Bool-cases (eq_text r.origin [])) [
  | inl none_given ↦ (c, if_on _ c (allow c) none_given, (λ k. rw none_given refl), refl, refl)
  | inr given ↦
      let (status, aborted) = set_all-rest cors_headers c in
      (
        allow c,
        if_off _ c (allow c) given,
        (λ k. rw given (set_all-get cors_headers c k cors_headers-Distinct)),
        status,
        aborted,
      )
]

-- The last test of `CorsAll`.
abbrev answered : Bool → Context → Context
answered options c = if options then record c { status = some 204; aborted = true } else c

answered-next :
    (next : Context → Context) (options : Bool) (c : Context)
    → c.aborted ≡ false
    → (if (answered options c).aborted then answered options c else next (answered options c))
      ≡ (if options then record c { status = some 204; aborted = true } else next c)
answered-next next true c fresh = refl
answered-next next false c fresh = if_off c.aborted c (next c) fresh

content_type :
    (b : Bool) (x : Option Text)
    → (if b then x else or_else (get cors_headers (codes "Content-Type")) x) ≡ x
unfolding cors_headers get
content_type true x = refl
content_type false x = refl

-- A request with the method OPTIONS is answered with the status 204, and no handler behind runs; every
-- other request goes to the handlers behind. In both cases the headers of the access control are set
-- if the request has an origin, and every other header, the content type among them, is what it was.
cors_all-Admits :
    (next : Context → Context) (r : Request) (c : Context)
    → c.aborted ≡ false
    → (c' : Context) × (cors_all next r c
        ≡ (if is_options r then record c' { status = some 204; aborted = true } else next c'))
      × ((k : Text) → get c'.headers k ≡ shown r c.headers k)
      × (shown r c.headers (codes "Content-Type") ≡ get c.headers (codes "Content-Type"))
      × (c'.status ≡ c.status)
unfolding cors_all admit
cors_all-Admits next r c fresh =
    let (c', e, shows, status, aborted) = allowed r c in
    (
      c',
      ap
            (λ x.
              if (answered (is_options r) x).aborted
              then answered (is_options r) x
              else next (answered (is_options r) x))
            e
          ∙ answered-next next (is_options r) c' (aborted ∙ fresh),
      shows,
      content_type (eq_text r.origin []) (get c.headers (codes "Content-Type")),
      status,
    )

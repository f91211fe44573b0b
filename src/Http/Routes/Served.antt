-- ===== src/Http/Routes/Served.antt =====
-- What gin serves at a path after any reloads of the routes.
use rpc_pigeon.Common.{
  ℕ, subst, ◌≡◌, refl, sym, ◌∙◌, ap, List, [], ◌∷◌, ◌++◌, Bool, true, false, ◌&&◌, Option, none,
  some, if◌then◌else◌, arith, Bool-cases, inl, inr, append-nil, append_assoc,
}
use rpc_pigeon.Common.Text.{Text, codes, eq_text, eq_of_eq_text}
use rpc_pigeon.Common.Dict.{get}
use rpc_pigeon.Common.Run.{Run, panic, ret, and_then, and_then-eq-ret}
use rpc_pigeon.Http.Routes.{
  Entry, Method, Handler, run_proxy, Route, Router, path_of, target_of, register, register_if,
  add_new, add_unless, Exec, add_route, add_routes, get_router_task, watch_router, method_is, own,
  definition_route, get_method, post_method,
}
use rpc_pigeon.Http.Routes.Reload.{no_routes, entries_of, loaded, first_target, add_unless-map}
use rpc_pigeon.Http.Routes.Added.{
  same_method, handlers_at, own_route, own_routes, first_entry, proxied_at, new_at, Adds,
  Adds-append, Adds-none, new_at-nothing,
}

module _ (sprint_other : ℕ → Text) (takes : List Route → Route → Bool) where
  -- What a registration adds at a method and a path.
  abbrev one_if : Bool → Handler → List Handler
  one_if b h = if b then h ∷ [] else []

  register-at :
      (route : Route) (r r' : Router) (m : Method) (p : Text)
      → register sprint_other takes route r ≡ ret tt r'
      → (r'.route_map ≡ r.route_map)
        × (handlers_at r'.routes m p
            ≡ one_if (same_method route.method m && eq_text route.path p) route.handler
              ++ handlers_at r.routes m p)
  unfolding handlers_at
  register-at route r r' m p run = elim (Bool-cases (takes r.routes route)) [
    | inl takes_it ↦
        let e : ret tt (record r { routes = route ∷ r.routes }) ≡ ret tt r' = rw takes_it at run in
        let same : r' ≡ record r { routes = route ∷ r.routes } = ground arith in
        rw same (
          refl,
          elim (Bool-cases (same_method route.method m && eq_text route.path p)) [
            | inl here ↦ rw here refl
            | inr other ↦ rw other refl
          ],
        )
    | inr refuses ↦ absurd (let e : panic r ≡ ret tt r' = rw refuses at run in cc)
  ]

  register_if-at :
      (b : Bool) (n : Method) (e : Entry) (r r' : Router) (m : Method) (p : Text)
      → register_if sprint_other takes b n e r ≡ ret tt r'
      → (r'.route_map ≡ r.route_map)
        × (handlers_at r'.routes m p
            ≡ one_if
                (b && (same_method n m && eq_text (path_of sprint_other takes e) p))
                (run_proxy (target_of sprint_other takes e))
              ++ handlers_at r.routes m p)
  register_if-at true n e r r' m p run = register-at _ r r' m p run
  register_if-at false n e r r' m p run = let same : r' ≡ r = ground arith in rw same (refl, refl)

  -- One of the two registrations of an entry is for the method.
  both_at :
      (m : Method) (get_on post_on here : Bool) (h : Handler)
      → one_if (post_on && (same_method post_method m && here)) h
          ++ one_if (get_on && (same_method get_method m && here)) h
        ≡ one_if (elim m [ get_method ↦ get_on | post_method ↦ post_on ] && here) h
  both_at get_method get_on true here h = refl
  both_at get_method get_on false here h = refl
  both_at post_method true post_on here h = append-nil (one_if (post_on && here) h)
  both_at post_method false post_on here h = append-nil (one_if (post_on && here) h)

  -- The entry, if it has the path.
  abbrev entry_if : Entry → Text → Option Entry
  entry_if e p = if eq_text (path_of sprint_other takes e) p then some e else none

  proxied-entry_if :
      (e : Entry) (m : Method) (p : Text)
      → one_if
          (elim m [
            | get_method ↦ method_is sprint_other takes e (codes "get")
            | post_method ↦ method_is sprint_other takes e (codes "post")
          ]
            && eq_text (path_of sprint_other takes e) p)
          (run_proxy (target_of sprint_other takes e))
        ≡ proxied_at sprint_other takes (entry_if e p) m
  proxied-entry_if e get_method p =
      elim (Bool-cases (method_is sprint_other takes e (codes "get"))) [
        | inl is ↦ elim (Bool-cases (eq_text (path_of sprint_other takes e) p)) [
          | inl here ↦ rw (is, here, is) refl
          | inr other ↦ rw (is, other) refl
        ]
        | inr isnt ↦ elim (Bool-cases (eq_text (path_of sprint_other takes e) p)) [
          | inl here ↦ rw (isnt, here, isnt) refl
          | inr other ↦ rw (isnt, other) refl
        ]
      ]
  proxied-entry_if e post_method p =
      elim (Bool-cases (method_is sprint_other takes e (codes "post"))) [
        | inl is ↦ elim (Bool-cases (eq_text (path_of sprint_other takes e) p)) [
          | inl here ↦ rw (is, here, is) refl
          | inr other ↦ rw (is, other) refl
        ]
        | inr isnt ↦ elim (Bool-cases (eq_text (path_of sprint_other takes e) p)) [
          | inl here ↦ rw (isnt, here, isnt) refl
          | inr other ↦ rw (isnt, other) refl
        ]
      ]

  add_new-at :
      (e : Entry) (r r' : Router) (m : Method) (p : Text)
      → add_new sprint_other takes e r ≡ ret tt r'
      → handlers_at r'.routes m p
        ≡ proxied_at sprint_other takes (entry_if e p) m ++ handlers_at r.routes m p
  add_new-at e r r' m p run =
      let (u, r₂, e₁, e₂) =
        and_then-eq-ret
          (register_if sprint_other takes (method_is sprint_other takes e (codes "get")) get_method
            e _)
          _ run in
      let (_, first) = register_if-at _ get_method e _ r₂ m p e₁ in
      let (_, last) = register_if-at _ post_method e r₂ r' m p e₂ in
      last
      ∙ ap
          (λ hs.
            one_if
              (method_is sprint_other takes e (codes "post")
                && (same_method post_method m && eq_text (path_of sprint_other takes e) p))
              (run_proxy (target_of sprint_other takes e))
            ++ hs)
          first
      ∙ sym (append_assoc (one_if _ _) (one_if _ _) (handlers_at r.routes m p))
      ∙ ap (λ hs. hs ++ handlers_at r.routes m p)
          (both_at m (method_is sprint_other takes e (codes "get"))
              (method_is sprint_other takes e (codes "post"))
              (eq_text (path_of sprint_other takes e) p)
              (run_proxy (target_of sprint_other takes e))
            ∙ proxied-entry_if e m p)

  add_unless-at :
      (e : Entry) (r r' : Router) (before : Option Text) (m : Method) (p : Text)
      → get r.route_map (path_of sprint_other takes e) ≡ before
      → add_unless sprint_other takes before e r ≡ ret tt r'
      → handlers_at r'.routes m p
        ≡ new_at sprint_other takes (get r.route_map p) (entry_if e p) m ++ handlers_at r.routes m p
  add_unless-at e r r' (some to) m p there run =
      let same : r' ≡ r = ground arith in
      ap (λ (x : Router). handlers_at x.routes m p) same
      ∙ elim (Bool-cases (eq_text (path_of sprint_other takes e) p)) [
        | inl here ↦
            let q = eq_of_eq_text (path_of sprint_other takes e) p here in
            let known : get r.route_map p ≡ some to =
              subst (λ t. get r.route_map t ≡ some to) q there in
            rw known refl
        | inr other ↦ rw (other, new_at-nothing sprint_other takes (get r.route_map p) m) refl
      ]
  add_unless-at e r r' none m p there run =
      add_new-at e r r' m p run
      ∙ ap (λ hs. hs ++ handlers_at r.routes m p)
          (elim (Bool-cases (eq_text (path_of sprint_other takes e) p)) [
            | inl here ↦
                let q = eq_of_eq_text (path_of sprint_other takes e) p here in
                let known : get r.route_map p ≡ none =
                  subst (λ t. get r.route_map t ≡ none) q there in
                rw (here, known) refl
            | inr other ↦ rw (other, new_at-nothing sprint_other takes (get r.route_map p) m) refl
          ])

  add_routes-Adds :
      (es : List (Option Entry)) (r r' : Router)
      → add_routes sprint_other takes es r ≡ ret tt r'
      → Adds sprint_other takes r r' es
  unfolding add_routes add_route first_entry first_target
  add_routes-Adds [] r r' run = Adds-none sprint_other takes r r' (ground arith)
  add_routes-Adds (none ∷ es) r r' run = absurd (cc)
  add_routes-Adds (some e ∷ es) r r' run =
      let (u, r₁, e₁, e₂) = and_then-eq-ret (add_route sprint_other takes (some e) r) _ run in
      Adds-append sprint_other takes (some e ∷ []) es
        (record {
          maps = λ p. add_unless-map sprint_other takes e r r₁ _ p refl e₁;
          serves = λ m p. add_unless-at e r r₁ _ m p refl e₁;
        })
        (add_routes-Adds es r₁ r' e₂)

  task-Adds :
      (c : Option (List (Option Entry))) (r r' : Router)
      → get_router_task sprint_other takes c r ≡ ret tt r'
      → Adds sprint_other takes r r' (entries_of c)
  unfolding get_router_task
  task-Adds none r r' run = Adds-none sprint_other takes r r' (ground arith)
  task-Adds (some es) r r' run = add_routes-Adds es r r' run

  watch-Adds :
      (cs : List (Option (List (Option Entry)))) (r r' : Router)
      → watch_router sprint_other takes cs r ≡ ret tt r'
      → Adds sprint_other takes r r' (loaded cs)
  unfolding watch_router
  watch-Adds [] r r' run = Adds-none sprint_other takes r r' (ground arith)
  watch-Adds (c ∷ cs) r r' run =
      let (u, r₁, e₁, e₂) = and_then-eq-ret (get_router_task sprint_other takes c r) _ run in
      Adds-append sprint_other takes (entries_of c) (loaded cs) (task-Adds c r r₁ e₁)
        (watch-Adds cs r₁ r' e₂)

  -- What `own` leaves behind.
  own-registers :
      (n : Method) (path name : Text) (k : Exec) (r r' : Router)
      → and_then (own sprint_other takes n path name r) (λ u. k) ≡ ret tt r'
      → k (record r { routes = own_route n path name ∷ r.routes }) ≡ ret tt r'
  own-registers n path name k r r' run =
      elim (Bool-cases (takes r.routes (own_route n path name))) [
        | inl takes_it ↦ rw takes_it at run
        | inr refuses ↦
            absurd
              (let e : ◌≡◌ {A = Run Router Unit} (panic r) (ret tt r') = rw refuses at run in cc)
      ]

  definition-Adds :
      (c : Option (List (Option Entry))) (r' : Router)
      → definition_route sprint_other takes c no_routes ≡ ret tt r'
      → Adds sprint_other takes (record { route_map = []; routes = own_routes }) r' (entries_of c)
  unfolding definition_route
  definition-Adds c r' run =
      let f₁ = own-registers get_method _ _ _ no_routes r' run in
      let f₂ = own-registers post_method _ _ _ _ r' f₁ in
      let f₃ = own-registers post_method _ _ _ _ r' f₂ in
      let f₄ = own-registers post_method _ _ _ _ r' f₃ in
      let f₅ = own-registers post_method _ _ _ _ r' f₄ in task-Adds c _ r' f₅

  -- Once the gateway has set up its routes and then met any changes of the file, without a panic, gin
  -- serves a path at a method by the gateway's own handler for them, if it has one, and by the proxy to
  -- the target of the first entry with the path among all that were ever loaded, if that entry's method
  -- is the one; and by nothing else. A later entry, in the same file or in a changed one, neither
  -- replaces the target nor adds a route, and an entry that a change removes is served on.
  pub first_entry_serves :
      (config : Option (List (Option Entry))) (changes : List (Option (List (Option Entry))))
      (r : Router) (m : Method) (p : Text)
      → and_then
          (definition_route sprint_other takes config no_routes)
          (λ u. watch_router sprint_other takes changes)
        ≡ ret tt r
      → handlers_at r.routes m p
        ≡ proxied_at sprint_other takes
            (first_entry sprint_other takes (loaded (config ∷ changes)) p)
            m
          ++ handlers_at own_routes m p
  unfolding get
  first_entry_serves config changes r m p run =
      let (u, r₁, e₁, e₂) =
        and_then-eq-ret (definition_route sprint_other takes config no_routes) _ run in
      let all =
        Adds-append sprint_other takes (entries_of config) (loaded changes)
          (definition-Adds config r₁ e₁) (watch-Adds changes r₁ r e₂) in
      all.serves m p

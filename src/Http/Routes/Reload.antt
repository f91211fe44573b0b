-- ===== src/Http/Routes/Reload.antt =====
-- What a reload of the routes changes.
use rpc_pigeon.Common.{
  ℕ, ◌≡◌, refl, sym, ◌∙◌, ap, List, [], ◌∷◌, ◌++◌, Bool, true, false, Option, none, some, is_some,
  of_is_some, if◌then◌else◌, if_cases, arith, or_else, or_else-kept, or_else-fresh, or_else_assoc,
  or_else-if, or_else-none, or_else-some, if_first,
}
use rpc_pigeon.Common.Text.{Text, codes, eq_text, eq_text_refl, eq_of_eq_text}
use rpc_pigeon.Common.Dict.{get, put, get-put}
use rpc_pigeon.Common.Run.{ret, and_then-eq-ret}
use rpc_pigeon.Http.Routes.{
  Entry, Method, Route, Router, path_of, target_of, register, register_if, add_new, add_unless,
  add_route, add_routes, get_router_task, method_is, get_method, post_method,
}

-- Before the first route.
abbrev pub no_routes : Router
no_routes = record { route_map = []; routes = [] }

abbrev pub entries_of : Option (List (Option Entry)) → List (Option Entry)
entries_of none = []
entries_of (some es) = es

-- The entries of all files that were loaded.
abbrev pub loaded : List (Option (List (Option Entry))) → List (Option Entry)
loaded [] = []
loaded (c ∷ cs) = entries_of c ++ loaded cs

module _ (sprint_other : ℕ → Text) (takes : List Route → Route → Bool) where
  -- The target of the first entry with the path.
  unfoldable pub first_target : List (Option Entry) → Text → Option Text
  first_target [] p = none
  first_target (none ∷ es) p = first_target es p
  first_target (some e ∷ es) p =
      let later = first_target es p in
      if eq_text (path_of sprint_other takes e) p
      then some (target_of sprint_other takes e)
      else later

  register-keeps :
      (route : Route) (r r' : Router)
      → register sprint_other takes route r ≡ ret tt r'
      → r'.route_map ≡ r.route_map
  register-keeps route r r' =
      if_cases (λ run. run ≡ ret tt r' → r'.route_map ≡ r.route_map) (takes r.routes route) _ _
        (λ yes e. ground arith) (λ no e. absurd (cc))

  register_if-keeps :
      (b : Bool) (m : Method) (e : Entry) (r r' : Router)
      → register_if sprint_other takes b m e r ≡ ret tt r'
      → r'.route_map ≡ r.route_map
  register_if-keeps true m e r r' run = register-keeps _ r r' run
  register_if-keeps false m e r r' run = ground arith

  add_new-map :
      (e : Entry) (r r' : Router)
      → add_new sprint_other takes e r ≡ ret tt r'
      → r'.route_map
        ≡ put r.route_map (path_of sprint_other takes e) (target_of sprint_other takes e)
  add_new-map e r r' run =
      let r₁ : Router = record r {
        route_map = put r.route_map (path_of sprint_other takes e) (target_of sprint_other takes e);
      } in
      let (u, r₂, e₁, e₂) =
        and_then-eq-ret
          (register_if sprint_other takes (method_is sprint_other takes e (codes "get")) get_method
            e r₁)
          _ run in
      register_if-keeps _ post_method e r₂ r' e₂ ∙ register_if-keeps _ get_method e r₁ r₂ e₁

  -- After an entry was added, a path has the target that it had, or else that of the entry.
  pub add_unless-map :
      (e : Entry) (r r' : Router) (before : Option Text) (p : Text)
      → get r.route_map (path_of sprint_other takes e) ≡ before
      → add_unless sprint_other takes before e r ≡ ret tt r'
      → get r'.route_map p ≡ or_else (get r.route_map p) (first_target (some e ∷ []) p)
  unfolding first_target
  add_unless-map e r r' (some to) p there run =
      let same : r' ≡ r = ground arith in
      rw same (
        or_else-kept (get r.route_map p) _ _
          (λ e. let q = eq_of_eq_text _ p e in rw (sym q, there) refl))
  add_unless-map e r r' none p there run =
      let q = path_of sprint_other takes e in
      ap (λ m. get m p) (add_new-map e r r' run)
      ∙ get-put r.route_map q p (target_of sprint_other takes e)
      ∙ or_else-fresh (get r.route_map p) (eq_text q p) (target_of sprint_other takes e)
          (λ same. let at_p = eq_of_eq_text q p same in rw (sym at_p) there)

  add_routes-map :
      (es : List (Option Entry)) (r r' : Router) (p : Text)
      → add_routes sprint_other takes es r ≡ ret tt r'
      → get r'.route_map p ≡ or_else (get r.route_map p) (first_target es p)
  unfolding add_routes add_route first_target
  add_routes-map [] r r' p run =
      let same : r' ≡ r = ground arith in rw same (or_else-none (get r.route_map p))
  add_routes-map (none ∷ es) r r' p run = absurd (cc)
  add_routes-map (some e ∷ es) r r' p run =
      let (u, r₁, e₁, e₂) = and_then-eq-ret (add_route sprint_other takes (some e) r) _ run in
      let q = path_of sprint_other takes e in
      let t = target_of sprint_other takes e in
      add_routes-map es r₁ r' p e₂
      ∙ ap (λ o. or_else o (first_target es p))
          (add_unless-map e r r₁ (get r.route_map q) p refl e₁)
      ∙ or_else_assoc (get r.route_map p) (if eq_text q p then some t else none) (first_target es p)
      ∙ ap (or_else (get r.route_map p)) (or_else-if (eq_text q p) t (first_target es p))

  pub first_target-append :
      (es fs : List (Option Entry)) (p : Text)
      → first_target (es ++ fs) p ≡ or_else (first_target es p) (first_target fs p)
  unfolding first_target
  first_target-append [] fs p = refl
  first_target-append (none ∷ es) fs p = first_target-append es fs p
  first_target-append (some e ∷ es) fs p =
      if_first (eq_text (path_of sprint_other takes e) p) _ _ _ _ (first_target-append es fs p)

  -- Each of the entries has its path in the router.
  abbrev Known : Router → List (Option Entry) → Type 0
  Known r [] = Unit
  Known r (none ∷ es) = ⊥
  Known r (some e ∷ es) =
      (is_some (get r.route_map (path_of sprint_other takes e)) ≡ true) × Known r es

  Known-unchanged :
      (es : List (Option Entry)) (r : Router)
      → Known r es
      → add_routes sprint_other takes es r ≡ ret tt r
  unfolding add_routes add_route
  Known-unchanged [] r known = refl
  Known-unchanged (none ∷ es) r known = absurd known
  Known-unchanged (some e ∷ es) r known =
      let (to, there) = of_is_some (get r.route_map (path_of sprint_other takes e)) known.0 in
      rw there (Known-unchanged es r known.1)

  added-Known :
      (es : List (Option Entry)) (r r' : Router)
      → add_routes sprint_other takes es r ≡ ret tt r'
      → Known r' es
  unfolding add_routes add_route first_target
  added-Known [] r r' run = tt
  added-Known (none ∷ es) r r' run = absurd (cc)
  added-Known (some e ∷ es) r r' run =
      let q = path_of sprint_other takes e in
      let t = target_of sprint_other takes e in
      let (u, r₁, e₁, e₂) = and_then-eq-ret (add_route sprint_other takes (some e) r) _ run in
      let there : is_some (if eq_text q q then some t else first_target es q) ≡ true =
        rw (eq_text_refl q) refl in
      (
        ap is_some (add_routes-map (some e ∷ es) r r' q run)
            ∙ or_else-some (get r.route_map q) _ there,
        added-Known es r₁ r' e₂,
      )

  -- A file that was loaded without a panic is loaded again without one, and the second time changes
  -- nothing: no route is given to gin twice.
  reload_unchanged :
      (config : Option (List (Option Entry))) (r r' : Router)
      → get_router_task sprint_other takes config r ≡ ret tt r'
      → get_router_task sprint_other takes config r' ≡ ret tt r'
  unfolding get_router_task
  reload_unchanged none r r' run = refl
  reload_unchanged (some es) r r' run = Known-unchanged es r' (added-Known es r r' run)

-- ===== src/Http/Routes/Added.antt =====
-- What entries of RouteConfig.yaml add to the routes of gin.
use rpc_pigeon.Common.{
  ℕ, or_else-none, ◌≡◌, refl, sym, ◌∙◌, ap, List, [], ◌∷◌, ◌++◌, Bool, true, false, ◌&&◌, Option,
  none, some, if◌then◌else◌, or_else, or_else_assoc, Bool-cases, inl, inr, append-nil, append_assoc,
}
use rpc_pigeon.Common.Text.{Text, codes, eq_text}
use rpc_pigeon.Common.Dict.{get}
use rpc_pigeon.Http.Routes.{
  Entry, Method, Handler, run_proxy, controller, Route, Router, path_of, target_of, method_is,
  get_method, post_method,
}
use rpc_pigeon.Http.Routes.Reload.{first_target, first_target-append}

abbrev pub same_method : Method → Method → Bool
same_method get_method get_method = true
same_method get_method post_method = false
same_method post_method get_method = false
same_method post_method post_method = true

-- The handlers that gin has for a method and a path, the latest first.
unfoldable pub handlers_at : List Route → Method → Text → List Handler
handlers_at [] m p = []
handlers_at (route ∷ routes) m p =
    let others = handlers_at routes m p in
    if same_method route.method m && eq_text route.path p then route.handler ∷ others else others

-- How RouteConfig.yaml spells a method.
abbrev pub word : Method → Text
word get_method = codes "get"
word post_method = codes "post"

-- The routes of the gateway itself, the latest first.
abbrev pub own_route : Method → (path name : Text) → Route
own_route m path name = record { method = m; path = path; handler = controller name }

abbrev pub own_routes : List Route
own_routes =
    own_route post_method (codes "/engine/check") (codes "CheckEngine")
    ∷ own_route post_method (codes "/engine/delete") (codes "DeleteEngine")
    ∷ own_route post_method (codes "/engine/update") (codes "UpdateEngine")
    ∷ own_route post_method (codes "/engine/create") (codes "CreateEngine")
    ∷ own_route get_method (codes "/engine/metricsdata") (codes "GetEngineMetricsData")
    ∷ []

module _ (sprint_other : ℕ → Text) (takes : List Route → Route → Bool) where
  -- The first entry with the path.
  unfoldable pub first_entry : List (Option Entry) → Text → Option Entry
  first_entry [] p = none
  first_entry (none ∷ es) p = first_entry es p
  first_entry (some e ∷ es) p =
      let later = first_entry es p in
      if eq_text (path_of sprint_other takes e) p then some e else later

  -- An entry is served by the proxy to its target, at its method.
  abbrev pub proxied_at : Option Entry → Method → List Handler
  proxied_at none m = []
  proxied_at (some e) m =
      if method_is sprint_other takes e (word m)
      then run_proxy (target_of sprint_other takes e) ∷ []
      else []

  -- A path that has a target already gets no route.
  abbrev pub new_at : Option Text → Option Entry → Method → List Handler
  new_at (some to) o m = []
  new_at none o m = proxied_at o m

  target_of_first : Option Entry → Option Text
  target_of_first none = none
  target_of_first (some e) = some (target_of sprint_other takes e)

  first_target-entry :
      (es : List (Option Entry)) (p : Text)
      → first_target sprint_other takes es p ≡ target_of_first (first_entry es p)
  unfolding first_target first_entry target_of_first
  first_target-entry [] p = refl
  first_target-entry (none ∷ es) p = first_target-entry es p
  first_target-entry (some e ∷ es) p =
      elim (Bool-cases (eq_text (path_of sprint_other takes e) p)) [
        | inl same ↦ rw same refl
        | inr other ↦ rw other (first_target-entry es p)
      ]

  first_entry-append :
      (es fs : List (Option Entry)) (p : Text)
      → first_entry (es ++ fs) p ≡ or_else (first_entry es p) (first_entry fs p)
  unfolding first_entry
  first_entry-append [] fs p = refl
  first_entry-append (none ∷ es) fs p = first_entry-append es fs p
  first_entry-append (some e ∷ es) fs p =
      elim (Bool-cases (eq_text (path_of sprint_other takes e) p)) [
        | inl same ↦ rw same refl
        | inr other ↦ rw other (first_entry-append es fs p)
      ]

  -- What comes to a router by the entries: targets for the paths that have none, and their routes.
  pub record Adds (r r' : Router) (es : List (Option Entry)) : Type 0 where
    pub maps :
        (p : Text)
        → get r'.route_map p ≡ or_else (get r.route_map p) (first_target sprint_other takes es p)
    pub serves :
        (m : Method) (p : Text)
        → handlers_at r'.routes m p
          ≡ new_at (get r.route_map p) (first_entry es p) m ++ handlers_at r.routes m p

  pub new_at-nothing : (o : Option Text) (m : Method) → new_at o none m ≡ []
  new_at-nothing none m = refl
  new_at-nothing (some to) m = refl

  new_at-join :
      (o : Option Text) (a b : Option Entry) (m : Method)
      → new_at (or_else o (target_of_first a)) b m ++ new_at o a m ≡ new_at o (or_else a b) m
  unfolding target_of_first
  new_at-join (some to) a b m = refl
  new_at-join none none b m = append-nil (proxied_at b m)
  new_at-join none (some e) b m = refl

  pub Adds-append :
      {r r₁ r₂ : Router} (es fs : List (Option Entry))
      → Adds r r₁ es
      → Adds r₁ r₂ fs
      → Adds r r₂ (es ++ fs)
  Adds-append {r} {r₁} es fs a b = record {
    maps = λ p.
        b.maps p
        ∙ ap (λ o. or_else o (first_target sprint_other takes fs p)) (a.maps p)
        ∙ or_else_assoc (get r.route_map p) _ _
        ∙ ap (or_else (get r.route_map p)) (sym (first_target-append sprint_other takes es fs p));
    serves = λ m p.
        let o = get r.route_map p in
        let before : get r₁.route_map p ≡ or_else o (target_of_first (first_entry es p)) =
          a.maps p ∙ ap (or_else o) (first_target-entry es p) in
        b.serves m p
        ∙ ap (λ hs. new_at (get r₁.route_map p) (first_entry fs p) m ++ hs) (a.serves m p)
        ∙ ap
            (λ x.
              new_at x (first_entry fs p) m
              ++ (new_at o (first_entry es p) m ++ handlers_at r.routes m p))
            before
        ∙ sym (append_assoc (new_at _ (first_entry fs p) m) (new_at o (first_entry es p) m) _)
        ∙ ap (λ hs. hs ++ handlers_at r.routes m p)
            (new_at-join o (first_entry es p) (first_entry fs p) m
              ∙ ap (λ e. new_at o e m) (sym (first_entry-append es fs p)));
  }

  pub Adds-none : (r r' : Router) → r' ≡ r → Adds r r' []
  unfolding first_target first_entry
  Adds-none r r' same = record {
    maps = λ p. ap (λ (x : Router). get x.route_map p) same ∙ or_else-none (get r.route_map p);
    serves = λ m p. rw (same, new_at-nothing (get r.route_map p) m) refl;
  }

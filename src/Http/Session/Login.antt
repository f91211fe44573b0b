-- ===== src/Http/Session/Login.antt =====
-- Login and logout carry over to the next request.
use rpc_pigeon.Common.{ℕ, ◌≡◌, refl, ap, ◌∙◌, true, false, none, some}
use rpc_pigeon.Common.Text.{codes}
use rpc_pigeon.Common.Run.{Run, ret}
use rpc_pigeon.Http.Session.{
  Sessions, Context, uint64, next_request, auth_middle, save_auth_session, clear_auth_session,
  has_session, get_session_user_id,
}

module _ {S Cookie : Type 0} (api : Sessions S Cookie)
    (next : Context api → Run (Context api) Unit) where
  -- The user is logged in as `id`: the handlers behind the login check run, with that id.
  abbrev pub LoggedIn : ℕ → Context api → Type 0
  LoggedIn id c =
      (has_session api c ≡ true)
      × (get_session_user_id api c ≡ ret id c)
      × (auth_middle api next c ≡ next (record c { user_id = some id }))

  -- Nobody is: the login page is shown, and the handlers behind do not run.
  abbrev pub LoggedOut : Context api → Type 0
  LoggedOut c =
      (has_session api c ≡ false)
      × (get_session_user_id api c ≡ ret 0 c)
      × (auth_middle api next c ≡ ret tt (record c { login_page = true; aborted = true }))

  -- After `SaveAuthSession`, the client's next request is logged in as that user, and after
  -- `ClearAuthSession`, whoever was logged in, the next one is logged out, for any store of sessions
  -- that keeps what is set, forgets all when cleared, and loads from a cookie what was saved in it.
  pub login_carries_over :
      (id : ℕ) (c : Context api)
      → LoggedIn id (next_request api (save_auth_session api id c))
        × LoggedOut (next_request api (clear_auth_session api c))
  unfolding has_session get_session_user_id auth_middle save_auth_session clear_auth_session
  login_carries_over id c =
      let key = codes "userId" in
      let session = api.set c.session key (uint64 id) in
      let stays : api.get (api.load (api.save session)) key ≡ some (uint64 id) =
        ap (λ s. api.get s key) (api.load-save session)
        ∙ api.get-set c.session key key (uint64 id) in
      let gone : api.get (api.load (api.save (api.clear c.session))) key ≡ none =
        ap (λ s. api.get s key) (api.load-save (api.clear c.session))
        ∙ api.get-clear c.session key in
      ((rw stays refl, rw stays refl, rw stays refl), (rw gone refl, rw gone refl, rw gone refl))

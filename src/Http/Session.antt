-- ===== src/Http/Session.antt =====
-- pkg/plugins/httpserver/middleware/Session.go: who is logged in, by the session of a request. The
-- package gin-contrib/sessions is an interface: a request's session is loaded from its cookie, and
-- `Save` puts it into the cookie of the next one.
pub mod Login
use rpc_pigeon.Common.{ℕ, ◌≡◌, [], Bool, true, false, Option, none, some, is_some, if◌then◌else◌}
use rpc_pigeon.Common.Text.{Text, codes, eq_text}
use rpc_pigeon.Common.Run.{Run, ret, panic}

-- What a session holds under a key: a `uint64`, or a value of another type.
pub data Value : Type 0 where
  uint64 : ℕ → Value
  other : ℕ → Value

-- The operations of a session, and what is documented of them.
pub record Sessions (S Cookie : Type 0) : Type 0 where
  pub get : S → Text → Option Value
  pub set : S → Text → Value → S
  pub clear : S → S
  pub load : Cookie → S
  pub save : S → Cookie
  pub get-set :
      (s : S) (k j : Text) (v : Value)
      → get (set s k v) j ≡ (if eq_text k j then some v else get s j)
  pub get-clear : (s : S) (k : Text) → get (clear s) k ≡ none
  pub load-save : (s : S) → load (save s) ≡ s

module _ {S Cookie : Type 0} (api : Sessions S Cookie) where
  -- A request: its session, the cookie of its answer, the `userId` of its context, and whether the
  -- login page was shown and the handlers behind were aborted.
  pub record Context : Type 0 where
    pub session : S
    pub cookie : Cookie
    pub user_id : Option ℕ
    pub login_page : Bool
    pub aborted : Bool

  -- The next request of the same client.
  abbrev pub next_request : Context → Context
  next_request c = record {
    session = api.load c.cookie;
    cookie = c.cookie;
    user_id = none;
    login_page = false;
    aborted = false;
  }

  abbrev pub auth_by : Option Value → (Context → Run Context Unit) → Context → Run Context Unit
  auth_by none next c = ret tt (record c { login_page = true; aborted = true })
  auth_by (some (uint64 id)) next c = next (record c { user_id = some id })
  auth_by (some (other n)) next c = panic c

  -- `AuthMiddle`; `next` are the handlers behind it.
  unfoldable pub auth_middle : (Context → Run Context Unit) → Context → Run Context Unit
  auth_middle next c = auth_by (api.get c.session (codes "userId")) next c

  unfoldable pub save_auth_session : ℕ → Context → Context
  save_auth_session id c =
      let session = api.set c.session (codes "userId") (uint64 id) in
      record c { session = session; cookie = api.save session }

  unfoldable pub clear_auth_session : Context → Context
  clear_auth_session c =
      let session = api.clear c.session in record c { session = session; cookie = api.save session }

  unfoldable pub has_session : Context → Bool
  has_session c = is_some (api.get c.session (codes "userId"))

  abbrev pub user_of : Option Value → Context → Run Context ℕ
  user_of none c = ret 0 c
  user_of (some (uint64 id)) c = ret id c
  user_of (some (other n)) c = panic c

  unfoldable pub get_session_user_id : Context → Run Context ℕ
  get_session_user_id c = user_of (api.get c.session (codes "userId")) c

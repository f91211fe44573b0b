-- ===== src/Grpc/Server/Serves.antt =====
-- What is said of an engine that `GRPCServer` (proxy/grpc.go) has set up: its pools, and the address
-- at which a server of it listens.
use rpc_pigeon.Common.{
  ℕ, ◌<◌, ◌≤◌, ◌≡◌, sym, ◌∙◌, List, [], ◌∷◌, ◌++◌, true, false, some, ◌⊎◌, inl, inr, All, arith,
  subst, if_on, if_cases,
}
use rpc_pigeon.Common.Text.{Text, eq_text, to_lower}
use rpc_pigeon.Common.Dict.{get}
use rpc_pigeon.Grpc.Heap.{Heap}
use rpc_pigeon.Grpc.Pool.{is_neg}
use rpc_pigeon.Grpc.Gateway.{Engine, engine_of, EngineEntry, EngineConfig, Gate, seconds, pools_of}
use rpc_pigeon.Grpc.Gateway.Entries.{Sized, Apart, Served, PoolAs-frame, entry_addr}
use rpc_pigeon.Grpc.Server.{GrpcServer, server_of, start_servers}
use rpc_pigeon.Grpc.Server.Follows.{addr_of}

-- The configuration of an engine that the set-up gets through.
abbrev pub Sound : EngineConfig → Type 0
Sound c =
    (e : Engine) × (engine_of (to_lower c.engine_name) ≡ some e)
    × (is_neg (seconds c.request_idle_time) ≡ false)
    × (is_neg (seconds c.request_max_life) ≡ false)
    × All Sized c.engine_list
    × Apart c.engine_list

-- The names of the engine's pools are none of the others'.
abbrev pub Foreign : EngineConfig → List EngineConfig → Type 0
Foreign c cs =
    All (λ x. All (λ d. All (λ y. eq_text y.xid x.xid ≡ false) d.engine_list) cs) c.engine_list

abbrev pub Foreigners : List EngineConfig → Type 0
Foreigners [] = Unit
Foreigners (c ∷ cs) = Foreign c cs × Foreigners cs

-- A server for the engine listens at the address.
abbrev pub Listens : Engine → Text → List GrpcServer → Type 0
Listens e addr [] = ⊥
Listens e addr (s ∷ ss) =
    ((s.addr ≡ addr) × (engine_of (to_lower s.server_name) ≡ some e)) ⊎ Listens e addr ss

-- An engine that is not enabled, or one whose entries have their pools; if it has entries, a server of
-- the engine listens at the address that the director has for it.
abbrev pub Serves : List GrpcServer → Gate → Heap → EngineConfig → Type 0
Serves servers g h c =
    (c.pool_enabled ≡ false)
    ⊎ ((e : Engine) × (engine_of (to_lower c.engine_name) ≡ some e)
        × All (Served c e g h) c.engine_list
        × ((c.engine_list ≡ []) ⊎ Listens e (addr_of e g) servers))

-- What is said of the pools of an engine still holds when the others are set up.
pub Served-later :
    (c : EngineConfig) (e : Engine) (g₁ g' : Gate) (h₁ h' : Heap) (xs : List EngineEntry)
    → All (λ x. get (pools_of e g') x.xid ≡ get (pools_of e g₁) x.xid) xs
    → ((q : ℕ) → q < h₁.next_pool → h'.pools q ≡ h₁.pools q)
    → h₁.next_pool ≤ h'.next_pool
    → All (Served c e g₁ h₁) xs
    → All (Served c e g' h') xs
Served-later c e g₁ g' h₁ h' [] names keeps grows served = tt
Served-later c e g₁ g' h₁ h' (x ∷ xs) names keeps grows ((p, lt, there, pool), served) = (
  (
    p,
    omega (arith, lt, grows),
    names.0 ∙ there,
    PoolAs-frame x.xid (entry_addr c x) _ h₁ h' p (keeps p lt) pool,
  ),
  Served-later c e g₁ g' h₁ h' xs names.1 keeps grows served,
)

pub Listens-later :
    (e : Engine) (addr proxy : Text) (c : EngineConfig) (cs : List EngineConfig)
    → Listens e addr (start_servers proxy cs)
    → Listens e addr (start_servers proxy (c ∷ cs))
unfolding start_servers
Listens-later e addr proxy c cs l =
    if_cases (Listens e addr) c.pool_enabled (server_of proxy c ∷ start_servers proxy cs)
      (start_servers proxy cs) (λ on. inr l) (λ off. l)

pub Listens-here :
    (e : Engine) (addr proxy : Text) (c : EngineConfig) (cs : List EngineConfig)
    → c.pool_enabled ≡ true
    → engine_of (to_lower c.engine_name) ≡ some e
    → addr ≡ proxy ++ b':' ∷ c.gateway_proxy_port
    → Listens e addr (start_servers proxy (c ∷ cs))
unfolding start_servers
Listens-here e addr proxy c cs on known at =
    subst (Listens e addr) (sym (if_on c.pool_enabled _ (start_servers proxy cs) on))
      (inl (sym at, known))

pub Serves-later :
    (ss ss' : List GrpcServer) (g : Gate) (h : Heap) (c : EngineConfig)
    → ((e : Engine) (addr : Text) → Listens e addr ss → Listens e addr ss')
    → Serves ss g h c
    → Serves ss' g h c
Serves-later ss ss' g h c f (inl off) = inl off
Serves-later ss ss' g h c f (inr (e, known, served, inl empty)) = inr (e, known, served, inl empty)
Serves-later ss ss' g h c f (inr (e, known, served, inr l)) =
    inr (e, known, served, inr (f e (addr_of e g) l))

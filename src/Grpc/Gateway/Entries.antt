-- ===== src/Grpc/Gateway/Entries.antt =====
-- The pools that `InitGrpcPool` (grpc.go) makes of the entries of ENGINE_LIST.
use rpc_pigeon.Common.{
  ℕ, suc, ◌+◌, ◌<◌, ◌≤◌, ◌^◌, ◌≡◌, refl, sym, ap, ◌∙◌, subst, pos, pos_part, List, [], ◌∷◌, ◌++◌,
  true, false, none, some, arith, All, if◌then◌else◌,
}
use rpc_pigeon.Common.Text.{Text, eq_text, eq_text_refl, to_lower}
use rpc_pigeon.Common.Dict.{get}
use rpc_pigeon.Common.Run.{ret}
use rpc_pigeon.Grpc.Heap.{Time, Factory, Heap}
use rpc_pigeon.Grpc.Pool.{is_neg}
use rpc_pigeon.Grpc.Gateway.{
  Engine, asr, tts, engine_of, Options, EngineEntry, EngineConfig, Gate, seconds, cluster_size,
  new_grpc_pool, named, options, install, pools_of,
}
use rpc_pigeon.Grpc.Gateway.Makes.{PoolAs, pools-install, alone_size, made_named}
use rpc_pigeon.Grpc.Gateway.Upright.{Upright, Upright-frame, Upright-install}
use rpc_pigeon.Grpc.Gateway.Setup.{init_entry, init_entries}

-- The size of an entry's pool is positive and fits an `int32`.
abbrev pub Sized : EngineEntry → Type 0
Sized x = (n : ℕ) × (x.engine_grpc_pool_size ≡ pos (suc n)) × (suc n < 2 ^ 31)

-- The names of the entries are distinct.
abbrev pub Apart : List EngineEntry → Type 0
Apart [] = Unit
Apart (x ∷ xs) = All (λ y. eq_text y.xid x.xid ≡ false) xs × Apart xs

cluster-install :
    (e : Engine) (op : Options) (name : Text) (p : ℕ) (g : Gate)
    → (install (some e) op name p g).engine_cluster_enabled ≡ g.engine_cluster_enabled
unfolding install
cluster-install asr op name p g = refl
cluster-install tts op name p g = refl

pub PoolAs-frame :
    (name addr : Text) (size : ℕ) (h h' : Heap) (p : ℕ)
    → h'.pools p ≡ h.pools p
    → PoolAs name addr size h p
    → PoolAs name addr size h' p
PoolAs-frame name addr size h h' p same (pool, ch, there, a, b, c, d, e, f, g) =
    (pool, ch, same ∙ there, a, b, c, d, e, f, g)

module _ (c : EngineConfig) where
  abbrev pub entry_addr : EngineEntry → Text
  entry_addr x = x.server_host ++ b':' ∷ c.engine_server_port

  -- The entry's name has a pool of its size at its address.
  abbrev pub Served : Engine → Gate → Heap → EngineEntry → Type 0
  Served e g h x =
      (p : ℕ) × (p < h.next_pool)
      × (get (pools_of e g) x.xid ≡ some p)
      × PoolAs x.xid (entry_addr x) (pos_part x.engine_grpc_pool_size) h p

module _ (dial : Text → Factory) (now : Time) (c : EngineConfig) (e : Engine)
    (known : engine_of (to_lower c.engine_name) ≡ some e)
    (idle : is_neg (seconds c.request_idle_time) ≡ false)
    (life : is_neg (seconds c.request_max_life) ≡ false)
    (up : (addr : Text) (i : ℕ) → dial addr i ≡ true) where
  one_entry :
      (x : EngineEntry) (g : Gate) (h h₁ h₂ : Heap) (p : ℕ)
      → cluster_size g x.engine_grpc_pool_size h ≡ ret x.engine_grpc_pool_size h
      → new_grpc_pool dial
          (entry_addr c x)
          (options c x.engine_grpc_pool_size g.gateway_proxy_addr)
          now
          h
        ≡ ret (some p, none) h₁
      → named (entry_addr c x) x.xid (some p, none) h₁ ≡ ret p h₂
      → init_entry dial now c x g h
        ≡ ret
            (install (some e) (options c x.engine_grpc_pool_size g.gateway_proxy_addr) x.xid p g)
            h₂
  unfolding init_entry
  one_entry x g h h₁ h₂ p alone made is_named = rw (alone, made) (rw is_named (rw known refl))

  -- What the loop over the entries leaves, and what it keeps.
  abbrev pub Made : List EngineEntry → (g g' : Gate) (h h' : Heap) → Type 0
  Made xs g g' h h' =
      All (Served c e g' h') xs
      × ((q : ℕ) → q < h.next_pool → h'.pools q ≡ h.pools q)
      × ((k : Text)
          → All (λ x. eq_text x.xid k ≡ false) xs
          → get (pools_of e g') k ≡ get (pools_of e g) k)
      × (h.next_pool ≤ h'.next_pool)
      × ((d : Engine) → Upright h (pools_of d g) → Upright h' (pools_of d g'))

  pub entries-Made :
      (xs : List EngineEntry) (g : Gate) (h : Heap)
      → All Sized xs
      → Apart xs
      → g.engine_cluster_enabled ≡ false
      → (g' : Gate) × (h' : Heap) × (init_entries dial now c xs g h ≡ ret g' h') × Made xs g g' h h'
  unfolding init_entries
  entries-Made [] g h sized apart alone =
      (g, h, refl, (tt, (λ q lt. refl), (λ k others. refl), omega arith, λ d ok. ok))
  entries-Made (x ∷ xs) g h ((n, size, small), sized) (fresh, apart) alone =
      let p = h.next_pool in
      let op = options c x.engine_grpc_pool_size g.gateway_proxy_addr in
      let g₁ = install (some e) op x.xid p g in
      let (h₁, h₂, made, is_named, stands, frame, next) =
        made_named dial now c (entry_addr c x) x.xid g.gateway_proxy_addr x.engine_grpc_pool_size n
          h size small idle life (λ i lt. up (entry_addr c x) (h.dials + i)) in
      let first =
        one_entry x g h h₁ h₂ p (alone_size g x.engine_grpc_pool_size h alone) made is_named in
      let (g', h', run, (served, keeps, names, grows, upright)) =
        entries-Made xs g₁ h₂ sized apart (cluster-install e op x.xid p g ∙ alone) in
      let at_x : get (pools_of e g') x.xid ≡ some p =
        names x.xid fresh
        ∙ pools-install e op x.xid p g x.xid
        ∙ ap (λ b. if b then some p else get (pools_of e g) x.xid) (eq_text_refl x.xid) in
      let sized_x : PoolAs x.xid (entry_addr c x) (pos_part x.engine_grpc_pool_size) h₂ p =
        subst (λ z. PoolAs x.xid (entry_addr c x) (pos_part z) h₂ p) (sym size) stands in
      (
        g',
        h',
        rw first run,
        (
          (
            (
              p,
              omega (arith, next, grows),
              at_x,
              PoolAs-frame x.xid (entry_addr c x) _ h₂ h' p (keeps p (omega (arith, next))) sized_x,
            ),
            served,
          ),
          (λ q lt. keeps q (omega (arith, next)) ∙ frame q (ground arith)),
          (λ k others.
              names k others.1
              ∙ pools-install e op x.xid p g k
              ∙ ap (λ b. if b then some p else get (pools_of e g) k) others.0),
          omega (arith, next, grows),
          λ d ok. upright d (
              Upright-install e op x.xid p g h₂ d
                (let (pool, ch, there, a, b, c, d, e, f, is_up) = stands in
                  (omega (arith, next), pool, there, is_up))
                (Upright-frame h h₂ (pools_of d g) (λ q lt. frame q (ground arith))
                  (omega (arith, next)) ok)),
        ),
      )

  -- ENGINE_LIST has entries with distinct names and positive sizes that fit an `int32`. Where the
  -- engine is known, its configured times are not negative, the gateway is not one of a cluster and
  -- every dial succeeds, the loop of `InitGrpcPool` over them returns, and each entry's name has a
  -- pool with the entry's name, size and address, which is up and whose channel is full.
  list_Served :
      (xs : List EngineEntry) (g : Gate) (h : Heap)
      → All Sized xs
      → Apart xs
      → g.engine_cluster_enabled ≡ false
      → (g' : Gate) × (h' : Heap) × (init_entries dial now c xs g h ≡ ret g' h')
        × All (Served c e g' h') xs
  list_Served xs g h sized apart alone =
      let (g', h', run, (served, keeps, names, grows, upright)) =
        entries-Made xs g h sized apart alone in
      (g', h', run, served)

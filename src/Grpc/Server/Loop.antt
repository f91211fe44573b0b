-- ===== src/Grpc/Server/Loop.antt =====
-- The loop of `InitGrpcPool` (grpc.go) over the engines, for the servers of `GRPCServer`.
use rpc_pigeon.Common.{
  ℕ, ◌<◌, ◌≤◌, ◌≡◌, refl, sym, ◌∙◌, ap, List, [], ◌∷◌, ◌++◌, true, false, some, ◌⊎◌, inl, inr, All,
  arith, eqb_ℤ, Bool-cases, All-mono, if_on, if_off, subst,
}
use rpc_pigeon.Common.Text.{Text, eq_text, to_lower}
use rpc_pigeon.Common.Dict.{get}
use rpc_pigeon.Common.Run.{ret}
use rpc_pigeon.Grpc.Heap.{Time, Factory, Heap, pure}
use rpc_pigeon.Grpc.Pool.{is_neg, strict_network_mode}
use rpc_pigeon.Grpc.Gateway.{Engine, engine_of, EngineConfig, Gate, seconds, pools_of}
use rpc_pigeon.Grpc.Gateway.Setup.{set_ports, init_engine, init_engines}
use rpc_pigeon.Grpc.Gateway.Entries.{Sized, Apart, Served, entries-Made}
use rpc_pigeon.Grpc.Server.{start_servers}
use rpc_pigeon.Grpc.Gateway.Upright.{Upright}
use rpc_pigeon.Grpc.Server.Follows.{
  set_ports-same, addr_of, Strict, Follows, Follows-trans, set_ports-Follows, entries-Follows,
}
use rpc_pigeon.Grpc.Server.Serves.{
  Sound, Foreign, Foreigners, Listens, Serves, Served-later, Listens-later, Listens-here,
  Serves-later,
}

-- What the loop over the engines leaves.
pub record Started (proxy : Text) (cs : List EngineConfig) (g g' : Gate) (h h' : Heap)
    : Type 0 where
  pub serves : All (Serves (start_servers proxy cs) g' h') cs
  pub keeps : (q : ℕ) → q < h.next_pool → h'.pools q ≡ h.pools q
  pub grows : h.next_pool ≤ h'.next_pool
  pub names :
      (d : Engine) (k : Text)
      → All (λ c. All (λ x. eq_text x.xid k ≡ false) c.engine_list) cs
      → get (pools_of d g') k ≡ get (pools_of d g) k
  pub addr :
      (d : Engine)
      → (addr_of d g' ≡ addr_of d g) ⊎ Listens d (addr_of d g') (start_servers proxy cs)
  pub upright : (d : Engine) → Upright h (pools_of d g) → Upright h' (pools_of d g')
  pub tenant : g'.globals.tenant_enabled ≡ g.globals.tenant_enabled

module _ (dial : Text → Factory) (now : Time)
    (up : (addr : Text) (i : ℕ) → dial addr i ≡ true) where
  -- One engine that is enabled.
  engine_set :
      (c : EngineConfig) (e : Engine) (g : Gate) (h : Heap)
      → c.pool_enabled ≡ true
      → g.globals.omp_enabled ≡ false
      → g.engine_cluster_enabled ≡ false
      → engine_of (to_lower c.engine_name) ≡ some e
      → is_neg (seconds c.request_idle_time) ≡ false
      → is_neg (seconds c.request_max_life) ≡ false
      → All Sized c.engine_list
      → Apart c.engine_list
      → (g' : Gate) × (h' : Heap) × (init_engine dial now c g h ≡ ret g' h')
        × Follows c c.engine_list g g'
        × All (Served c e g' h') c.engine_list
        × ((q : ℕ) → q < h.next_pool → h'.pools q ≡ h.pools q)
        × (h.next_pool ≤ h'.next_pool)
        × ((d : Engine) → Upright h (pools_of d g) → Upright h' (pools_of d g'))
  unfolding init_engine
  engine_set c e g h enabled alone single known idle life sized apart =
      let o = engine_of (to_lower c.engine_name) in
      let before = set_ports-Follows c g o in
      let (g', h', run, (served, keeps, names, grows, upright)) =
        entries-Made dial now c e known idle life up c.engine_list (set_ports o c g) h sized apart
          (before.cluster ∙ single) in
      (
        g',
        h',
        ap (λ m. m h)
              (if_on c.pool_enabled _ (pure g) enabled ∙ if_off g.globals.omp_enabled _ _ alone)
            ∙ run,
        Follows-trans c [] c.engine_list g (set_ports o c g) g' before
            (entries-Follows dial now c c.engine_list (set_ports o c g) g' h h' run),
        served,
        keeps,
        grows,
        λ d ok. upright d (subst (Upright h) (sym (set_ports-same c g o d).0) ok),
      )

  engine_skipped :
      (c : EngineConfig) (g : Gate) (h : Heap)
      → c.pool_enabled ≡ false
      → init_engine dial now c g h ≡ ret g h
  unfolding init_engine
  engine_skipped c g h disabled = rw disabled refl

  Started-none : (proxy : Text) (g : Gate) (h : Heap) → Started proxy [] g g h h
  Started-none proxy g h = record {
    serves = tt;
    keeps = λ q lt. refl;
    grows = omega arith;
    names = λ d k others. refl;
    addr = λ d. inl refl;
    upright = λ d ok. ok;
    tenant = refl;
  }

  Started-skipped :
      (proxy : Text) (c : EngineConfig) (cs : List EngineConfig) (g g' : Gate) (h h' : Heap)
      → c.pool_enabled ≡ false
      → Started proxy cs g g' h h'
      → Started proxy (c ∷ cs) g g' h h'
  Started-skipped proxy c cs g g' h h' off v = record {
    serves =
        let ss = start_servers proxy cs in
        let ss' = start_servers proxy (c ∷ cs) in
        (
          inl off,
          All-mono (Serves ss g' h') (Serves ss' g' h') cs
              (λ d. Serves-later ss ss' g' h' d λ e addr. Listens-later e addr proxy c cs) v.serves,
        );
    keeps = v.keeps;
    grows = v.grows;
    names = λ d k others. v.names d k others.1;
    addr = λ d. elim (v.addr d) [
      | inl same ↦ inl same
      | inr l ↦ inr (Listens-later d (addr_of d g') proxy c cs l)
    ];
    upright = v.upright;
    tenant = v.tenant;
  }

  -- The address of an engine that was set, after the others.
  addr-later :
      (proxy : Text) (c : EngineConfig) (cs : List EngineConfig) (g₁ g' : Gate) (h₁ h' : Heap)
      (d : Engine)
      → c.pool_enabled ≡ true
      → engine_of (to_lower c.engine_name) ≡ some d
      → addr_of d g₁ ≡ proxy ++ b':' ∷ c.gateway_proxy_port
      → Started proxy cs g₁ g' h₁ h'
      → Listens d (addr_of d g') (start_servers proxy (c ∷ cs))
  addr-later proxy c cs g₁ g' h₁ h' d on known at v = elim (v.addr d) [
    | inl same ↦ Listens-here d (addr_of d g') proxy c cs on known (same ∙ at)
    | inr l ↦ Listens-later d (addr_of d g') proxy c cs l
  ]

  Started-engine :
      (proxy : Text) (c : EngineConfig) (cs : List EngineConfig) (e : Engine) (g g₁ g' : Gate)
      (h h₁ h' : Heap)
      → c.pool_enabled ≡ true
      → engine_of (to_lower c.engine_name) ≡ some e
      → g.gateway_proxy_addr ≡ proxy
      → Strict g
      → Foreign c cs
      → Follows c c.engine_list g g₁
      → All (Served c e g₁ h₁) c.engine_list
      → ((q : ℕ) → q < h.next_pool → h₁.pools q ≡ h.pools q)
      → h.next_pool ≤ h₁.next_pool
      → ((d : Engine) → Upright h (pools_of d g) → Upright h₁ (pools_of d g₁))
      → Started proxy cs g₁ g' h₁ h'
      → Started proxy (c ∷ cs) g g' h h'
  Started-engine proxy c cs e g g₁ g' h h₁ h' on known is strict foreign f served keeps grows
        upright v =
      let ss = start_servers proxy cs in
      let ss' = start_servers proxy (c ∷ cs) in
      let port : Text → Text = λ a. a ++ b':' ∷ c.gateway_proxy_port in
      record {
        serves = (
          inr (
            e,
            known,
            Served-later c e g₁ g' h₁ h' c.engine_list
                (All-mono (λ x. All (λ d. All (λ y. eq_text y.xid x.xid ≡ false) d.engine_list) cs)
                  (λ x. get (pools_of e g') x.xid ≡ get (pools_of e g₁) x.xid) c.engine_list
                  (λ x others. v.names e x.xid others) foreign)
                v.keeps v.grows served,
            elim (f.written e strict known) [
              | inl empty ↦ inl empty
              | inr at ↦ inr (addr-later proxy c cs g₁ g' h₁ h' e on known (at ∙ ap port is) v)
            ],
          ),
          All-mono (Serves ss g' h') (Serves ss' g' h') cs
              (λ d. Serves-later ss ss' g' h' d λ e addr. Listens-later e addr proxy c cs) v.serves,
        );
        keeps = λ q lt. v.keeps q (omega (arith, lt, grows)) ∙ keeps q lt;
        grows = let more = v.grows in omega arith;
        names = λ d k others. v.names d k others.1 ∙ f.names d k others.0;
        addr = λ d. elim (v.addr d) [
          | inl same ↦ elim (f.addr d strict) [
            | inl before ↦ inl (same ∙ before)
            | inr (known, at) ↦
                inr (addr-later proxy c cs g₁ g' h₁ h' d on known (at ∙ ap port is) v)
          ]
          | inr l ↦ inr (Listens-later d (addr_of d g') proxy c cs l)
        ];
        upright = λ d ok. v.upright d (upright d ok);
        tenant = v.tenant ∙ f.tenant;
      }

  pub engines-Started :
      (proxy : Text) (cs : List EngineConfig) (g : Gate) (h : Heap)
      → All (λ c. (c.pool_enabled ≡ false) ⊎ Sound c) cs
      → Foreigners cs
      → g.globals.omp_enabled ≡ false
      → g.engine_cluster_enabled ≡ false
      → g.gateway_proxy_addr ≡ proxy
      → Strict g
      → (g' : Gate) × (h' : Heap) × (init_engines dial now cs g h ≡ ret g' h')
        × Started proxy cs g g' h h'
  unfolding init_engines
  engines-Started proxy [] g h sound foreign alone single is strict =
      (g, h, refl, Started-none proxy g h)
  engines-Started proxy (c ∷ cs) g h sound foreign alone single is strict =
      elim (Bool-cases c.pool_enabled) [
        | inl on ↦ elim (sound.0) [
          | inl off ↦ absurd (let e = sym on ∙ off in cc)
          | inr (e, known, idle, life, sized, apart) ↦
              let (g₁, h₁, run, f, served, keeps, grows, upright) =
                engine_set c e g h on alone single known idle life sized apart in
              let (g', h', runs, v) =
                engines-Started proxy cs g₁ h₁ sound.1 foreign.1 (f.omp ∙ alone)
                  (f.cluster ∙ single) (f.proxy ∙ is)
                  (ap (λ m. eqb_ℤ m strict_network_mode) f.mode ∙ strict) in
              (
                g',
                h',
                rw run runs,
                Started-engine proxy c cs e g g₁ g' h h₁ h' on known is strict foreign.0 f served
                    keeps grows upright v,
              )
        ]
        | inr off ↦
            let (g', h', runs, v) =
              engines-Started proxy cs g h sound.1 foreign.1 alone single is strict in
            (g', h', rw (engine_skipped c g h off) runs, Started-skipped proxy c cs g g' h h' off v)
      ]

-- ===== src/Grpc/Server/Follows.antt =====
-- What the set-up of an engine (`InitGrpcPool` of grpc.go) leaves of the globals beside its pools, and
-- the address that it sets.
use rpc_pigeon.Common.{
  ℕ, ◌≡◌, refl, ◌∙◌, ap, ℤ, List, [], ◌∷◌, ◌++◌, true, false, Option, none, some, ◌⊎◌, inl, inr,
  All, arith, subst,
}
use rpc_pigeon.Common.Text.{Text, eq_text, to_lower}
use rpc_pigeon.Common.Dict.{get, get-put}
use rpc_pigeon.Common.Run.{ret, and_then-eq-ret}
use rpc_pigeon.Grpc.Heap.{Time, Factory, Heap}
use rpc_pigeon.Grpc.Pool.{strict_network_mode}
use rpc_pigeon.Common.{eqb_ℤ}
use rpc_pigeon.Grpc.Gateway.{
  Engine, asr, tts, engine_of, Options, EngineEntry, EngineConfig, Gate, install, pools_of, options,
  cluster_size, new_grpc_pool, named,
}
use rpc_pigeon.Grpc.Gateway.Setup.{set_ports, init_entry, init_entries}

-- The address that the director compares with the request's, for an engine.
abbrev pub addr_of : Engine → Gate → Text
addr_of asr g = g.globals.asr_gateway_proxy_addr
addr_of tts g = g.globals.tts_gateway_proxy_addr

abbrev pub Strict : Gate → Type 0
Strict g = eqb_ℤ g.globals.network_mode strict_network_mode ≡ true

-- The globals `g'` come of `g` by pools of the engine `c` with the names `ks`.
pub record Follows (c : EngineConfig) (ks : List EngineEntry) (g g' : Gate) : Type 0 where
  pub cluster : g'.engine_cluster_enabled ≡ g.engine_cluster_enabled
  pub proxy : g'.gateway_proxy_addr ≡ g.gateway_proxy_addr
  pub mode : g'.globals.network_mode ≡ g.globals.network_mode
  pub omp : g'.globals.omp_enabled ≡ g.globals.omp_enabled
  pub tenant : g'.globals.tenant_enabled ≡ g.globals.tenant_enabled
  pub names :
      (d : Engine) (k : Text)
      → All (λ x. eq_text x.xid k ≡ false) ks
      → get (pools_of d g') k ≡ get (pools_of d g) k
  pub addr :
      (d : Engine)
      → Strict g
      → (addr_of d g' ≡ addr_of d g)
        ⊎ ((engine_of (to_lower c.engine_name) ≡ some d)
            × (addr_of d g' ≡ g.gateway_proxy_addr ++ b':' ∷ c.gateway_proxy_port))
  pub written :
      (d : Engine)
      → Strict g
      → engine_of (to_lower c.engine_name) ≡ some d
      → (ks ≡ []) ⊎ (addr_of d g' ≡ g.gateway_proxy_addr ++ b':' ∷ c.gateway_proxy_port)

pub set_ports-same :
    (c : EngineConfig) (g : Gate) (o : Option Engine) (d : Engine)
    → (pools_of d (set_ports o c g) ≡ pools_of d g) × (addr_of d (set_ports o c g) ≡ addr_of d g)
set_ports-same c g none d = (refl, refl)
set_ports-same c g (some asr) asr = (refl, refl)
set_ports-same c g (some asr) tts = (refl, refl)
set_ports-same c g (some tts) asr = (refl, refl)
set_ports-same c g (some tts) tts = (refl, refl)

set_ports-settings :
    (c : EngineConfig) (g : Gate) (o : Option Engine)
    → ((set_ports o c g).engine_cluster_enabled ≡ g.engine_cluster_enabled)
      × ((set_ports o c g).gateway_proxy_addr ≡ g.gateway_proxy_addr)
      × ((set_ports o c g).globals ≡ g.globals)
set_ports-settings c g none = (refl, refl, refl)
set_ports-settings c g (some asr) = (refl, refl, refl)
set_ports-settings c g (some tts) = (refl, refl, refl)

-- The ports of an engine are no pool and no address.
pub set_ports-Follows :
    (c : EngineConfig) (g : Gate) (o : Option Engine) → Follows c [] g (set_ports o c g)
set_ports-Follows c g o =
    let (cluster, proxy, globals) = set_ports-settings c g o in
    record {
      cluster = cluster;
      proxy = proxy;
      mode = ap (λ x. x.network_mode) globals;
      omp = ap (λ x. x.omp_enabled) globals;
      tenant = ap (λ x. x.tenant_enabled) globals;
      names = λ d k others. ap (λ m. get m k) (set_ports-same c g o d).0;
      addr = λ d strict. inl ((set_ports-same c g o d).1);
      written = λ d strict e. inl refl;
    }

names-install :
    (o : Option Engine) (op : Options) (name : Text) (p : ℕ) (g : Gate) (d : Engine) (k : Text)
    → eq_text name k ≡ false
    → get (pools_of d (install o op name p g)) k ≡ get (pools_of d g) k
unfolding install
names-install none op name p g d k other = refl
names-install (some asr) op name p g asr k other =
    get-put g.globals.asr_pools name k p ∙ rw other refl
names-install (some asr) op name p g tts k other = refl
names-install (some tts) op name p g asr k other = refl
names-install (some tts) op name p g tts k other =
    get-put g.globals.tts_pools name k p ∙ rw other refl

addr-install :
    (o : Option Engine) (op : Options) (name : Text) (p : ℕ) (g : Gate) (d : Engine)
    → Strict g
    → (addr_of d (install o op name p g) ≡ addr_of d g)
      ⊎ ((o ≡ some d)
          × (addr_of d (install o op name p g)
              ≡ g.gateway_proxy_addr ++ b':' ∷ op.gateway_proxy_port))
unfolding install
addr-install none op name p g d strict = inl refl
addr-install (some asr) op name p g asr strict = inr (refl, rw strict refl)
addr-install (some asr) op name p g tts strict = inl refl
addr-install (some tts) op name p g asr strict = inl refl
addr-install (some tts) op name p g tts strict = inr (refl, rw strict refl)

addr-written :
    (o : Option Engine) (op : Options) (name : Text) (p : ℕ) (g : Gate) (d : Engine)
    → Strict g
    → o ≡ some d
    → addr_of d (install o op name p g) ≡ g.gateway_proxy_addr ++ b':' ∷ op.gateway_proxy_port
unfolding install
addr-written none op name p g d strict is = absurd (cc)
addr-written (some asr) op name p g asr strict is = rw strict refl
addr-written (some asr) op name p g tts strict is = absurd (ground arith)
addr-written (some tts) op name p g asr strict is = absurd (ground arith)
addr-written (some tts) op name p g tts strict is = rw strict refl

install-same :
    (o : Option Engine) (op : Options) (name : Text) (p : ℕ) (g : Gate)
    → ((install o op name p g).engine_cluster_enabled ≡ g.engine_cluster_enabled)
      × ((install o op name p g).gateway_proxy_addr ≡ g.gateway_proxy_addr)
      × ((install o op name p g).globals.network_mode ≡ g.globals.network_mode)
      × ((install o op name p g).globals.omp_enabled ≡ g.globals.omp_enabled)
      × ((install o op name p g).globals.tenant_enabled ≡ g.globals.tenant_enabled)
unfolding install
install-same none op name p g = (refl, refl, refl, refl, refl)
install-same (some asr) op name p g = (refl, refl, refl, refl, refl)
install-same (some tts) op name p g = (refl, refl, refl, refl, refl)

install-Follows :
    (c : EngineConfig) (x : EngineEntry) (size : ℤ) (proxy : Text) (p : ℕ) (g : Gate)
    → Follows c
        (x ∷ [])
        g
        (install (engine_of (to_lower c.engine_name)) (options c size proxy) x.xid p g)
install-Follows c x size proxy p g =
    let o = engine_of (to_lower c.engine_name) in
    let op = options c size proxy in
    let (cluster, address, mode, omp, tenant) = install-same o op x.xid p g in
    record {
      cluster = cluster;
      proxy = address;
      mode = mode;
      omp = omp;
      tenant = tenant;
      names = λ d k others. names-install o op x.xid p g d k others.0;
      addr = addr-install o op x.xid p g;
      written = λ d strict is. inr (addr-written o op x.xid p g d strict is);
    }

All-split {κ} :
    {A : Type 0} (P : A → Type κ) (xs ys : List A) → All P (xs ++ ys) → All P xs × All P ys
All-split P [] ys h = (tt, h)
All-split P (x ∷ xs) ys h = let (a, b) = All-split P xs ys h.1 in ((h.0, a), b)

-- One set-up after another.
pub Follows-trans :
    (c : EngineConfig) (xs ys : List EngineEntry) (g g₁ g₂ : Gate)
    → Follows c xs g g₁
    → Follows c ys g₁ g₂
    → Follows c (xs ++ ys) g g₂
Follows-trans c xs ys g g₁ g₂ a b = record {
  cluster = b.cluster ∙ a.cluster;
  proxy = b.proxy ∙ a.proxy;
  mode = b.mode ∙ a.mode;
  omp = b.omp ∙ a.omp;
  tenant = b.tenant ∙ a.tenant;
  names = λ d k others.
      let (first, later) = All-split (λ x. eq_text x.xid k ≡ false) xs ys others in
      b.names d k later ∙ a.names d k first;
  addr = λ d strict. elim (b.addr d (still strict)) [
    | inl same ↦ elim (a.addr d strict) [
      | inl before ↦ inl (same ∙ before)
      | inr (is, at) ↦ inr (is, same ∙ at)
    ]
    | inr (is, at) ↦ inr (is, at ∙ there)
  ];
  written = λ d strict is. elim (b.written d (still strict) is) [
    | inr at ↦ inr (at ∙ there)
    | inl none_later ↦ elim (a.written d strict is) [
      | inl none_first ↦ inl (rw (none_first, none_later) refl)
      | inr at ↦ elim (b.addr d (still strict)) [
        | inl same ↦ inr (same ∙ at)
        | inr (now, after) ↦ inr (after ∙ there)
      ]
    ]
  ];
}
  where
    still : Strict g → Strict g₁
    still strict = ap (λ m. eqb_ℤ m strict_network_mode) a.mode ∙ strict

    there :
        g₁.gateway_proxy_addr ++ b':' ∷ c.gateway_proxy_port
        ≡ g.gateway_proxy_addr ++ b':' ∷ c.gateway_proxy_port
    there = ap (λ a. a ++ b':' ∷ c.gateway_proxy_port) a.proxy

-- What `InitGrpcPool` does for an entry that it gets through.
entry-Follows :
    (dial : Text → Factory) (now : Time) (c : EngineConfig) (x : EngineEntry) (g g' : Gate)
    (h h' : Heap)
    → init_entry dial now c x g h ≡ ret g' h'
    → Follows c (x ∷ []) g g'
unfolding init_entry
entry-Follows dial now c x g g' h h' run =
    let addr = x.server_host ++ b':' ∷ c.engine_server_port in
    let (size, h₁, _, run₁) = and_then-eq-ret (cluster_size g x.engine_grpc_pool_size h) _ run in
    let op = options c size g.gateway_proxy_addr in
    let (r, h₂, _, run₂) = and_then-eq-ret (new_grpc_pool dial addr op now h₁) _ run₁ in
    let (p, h₃, _, run₃) = and_then-eq-ret (named addr x.xid r h₂) _ run₂ in
    let same : install (engine_of (to_lower c.engine_name)) op x.xid p g ≡ g' = ground arith in
    subst (Follows c (x ∷ []) g) same (install-Follows c x size g.gateway_proxy_addr p g)

pub entries-Follows :
    (dial : Text → Factory) (now : Time) (c : EngineConfig) (xs : List EngineEntry) (g g' : Gate)
    (h h' : Heap)
    → init_entries dial now c xs g h ≡ ret g' h'
    → Follows c xs g g'
unfolding init_entries
entries-Follows dial now c [] g g' h h' run =
    let same : g ≡ g' = ground arith in subst (Follows c [] g) same (set_ports-Follows c g none)
entries-Follows dial now c (x ∷ xs) g g' h h' run =
    let (g₁, h₁, first, later) = and_then-eq-ret (init_entry dial now c x g h) _ run in
    Follows-trans c (x ∷ []) xs g g₁ g' (entry-Follows dial now c x g g₁ h h₁ first)
      (entries-Follows dial now c xs g₁ g' h₁ h' later)

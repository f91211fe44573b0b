-- ===== src/Grpc/Director/Lends.antt =====
-- A request that the director answers is a call of `Acquire` on a pool or a tenant, or none at all.
use rpc_pigeon.Common.{
  ℕ, ◌≡◌, ◌⊎◌, refl, sym, subst, ◌∙◌, List, [], ◌∷◌, ◌||◌, Option, none, some, inl, inr, Bool-cases,
  arith, eqb_ℤ, ◌==◌,
}
use rpc_pigeon.Common.Text.{Text, codes, eq_text, has_prefix, split}
use rpc_pigeon.Common.Dict.{Dict, get}
use rpc_pigeon.Common.Run.{Run, ret, and_then, and_then-eq-ret, ret-eq-ret}
use rpc_pigeon.Grpc.Heap.{
  Error, unsupported_method, unknown_method, pool_closed, Client, Exec, Heap, load_pool,
}
use rpc_pigeon.Grpc.Heap
use rpc_pigeon.Grpc.Pool
use rpc_pigeon.Grpc.Pool.{global_network_mode, Ready}
use rpc_pigeon.Grpc.Pool.Acquire.{acquire_nil}
use rpc_pigeon.Grpc.Pool.Clean.{Clean, acquire-Clean, tenant-Clean}
use rpc_pigeon.Grpc.System.Safety.{Reach-fits}
use rpc_pigeon.Grpc.Tenant
use rpc_pigeon.Grpc.Token.{str_decode}
use rpc_pigeon.Grpc.Balance.{Scan, scan, start, chosen, random_of, balance_pool}
use rpc_pigeon.Grpc.System.{Sys, take, take_tenant, Reach, next, initial, lend}
use rpc_pigeon.Grpc.Director.{
  Metadata, Globals, Weather, Directed, forward, reject, Routed, leave, got, got_pair, first_of,
  second_of, engine_code, acquire_pool_at, acquire_tenant_at, by_code, by_token, route, addr_of,
  server_addr, route_addr, directed, direct, grpc_proxy_transport,
}

-- The client that the caller has in hand afterwards.
abbrev pub client_of : Directed → Option Client
client_of (forward md c err) = some c
client_of (reject e) = none

-- The client `c` in hand and the heap `h'` are those of no call, which leaves the heap as it was, or
-- of one call of `Acquire`, of a pool or of a tenant, made in that heap.
abbrev pub OneCall : Weather → (h : Heap) → (c : Option Client) → (h' : Heap) → Type 0
OneCall w h c h' =
    (h' ≡ h) × (c ≡ none)
    ⊎ ((p : ℕ) × (x : Option Client × Option Error) × (Pool.acquire (some p) w.ready w.now w.later h
          ≡ ret x h')
        × (c ≡ x.0))
    ⊎ ((t : ℕ) × (x : Option Client × Option Error) × (Tenant.acquire (some t) h ≡ ret x h')
        × (c ≡ x.0))

abbrev routed_client : Routed → Option Client
routed_client (leave e) = none
routed_client (got c err) = c

load_pool-heap : (p : ℕ) (h h' : Heap) {pool : Heap.Pool} → load_pool p h ≡ ret pool h' → h' ≡ h
unfolding load_pool
load_pool-heap p h h' r = ground arith

scan-heap :
    (pools : Dict ℕ) (s : Scan) (h : Heap) (s' : Scan) (h' : Heap)
    → scan pools s h ≡ ret s' h'
    → h' ≡ h
unfolding scan
scan-heap [] s h s' h' r = ground arith
scan-heap ((k, p) ∷ pools) s h s' h' r =
    let (pool, h₁, r₁, r₂) = and_then-eq-ret (load_pool p h) _ r in
    scan-heap pools _ h₁ s' h' r₂ ∙ load_pool-heap p h h₁ r₁

random_of-heap :
    (intn : ℕ → ℕ) (ks : List Text) (h : Heap) (k : Text) (h' : Heap)
    → random_of intn ks h ≡ ret k h'
    → h' ≡ h
random_of-heap intn [] h k h' r = absurd (cc)
random_of-heap intn (x ∷ xs) h k h' r = ground arith

chosen-heap :
    (intn : ℕ → ℕ) (s : Scan) (h : Heap) (k : Text) (h' : Heap)
    → chosen intn s h ≡ ret k h'
    → h' ≡ h
unfolding chosen
chosen-heap intn s h k h' r = elim (Bool-cases (s.sum_size == 0)) [
  | inl e ↦ random_of-heap intn s.index_rand h k h' (rw e at r)
  | inr e ↦ ground arith
]

balance_pool-heap :
    (intn : ℕ → ℕ) (pools : Dict ℕ) (h : Heap) (o : Option ℕ) (h' : Heap)
    → balance_pool intn pools h ≡ ret o h'
    → h' ≡ h
unfolding balance_pool
balance_pool-heap intn [] h o h' r = ground arith
balance_pool-heap intn ((k, p) ∷ []) h o h' r = ground arith
balance_pool-heap intn ((k, p) ∷ q ∷ pools) h o h' r =
    let (s, h₁, r₁, r₂) = and_then-eq-ret (scan ((k, p) ∷ q ∷ pools) start h) _ r in
    let (j, h₂, r₃, r₄) = and_then-eq-ret (chosen intn s h₁) _ r₂ in
    let last : h' ≡ h₂ = ground arith in
    last ∙ chosen-heap intn s h₁ j h₂ r₃ ∙ scan-heap ((k, p) ∷ q ∷ pools) start h s h₁ r₁

-- A client comes without an error.
abbrev CleanRouted : Routed → Type 0
CleanRouted (leave e) = Unit
CleanRouted (got c err) = Clean (c, err)

abbrev pub CleanDirected : Directed → Type 0
CleanDirected (forward md c err) = err ≡ none
CleanDirected (reject e) = Unit

clean_none : (x : Routed) → routed_client x ≡ none → CleanRouted x
clean_none (leave e) none_there = tt
clean_none (got c err) none_there = inl none_there

clean_directed : (md : Metadata) (r : Routed) → CleanRouted r → CleanDirected (directed md r)
clean_directed md (leave e) clean = tt
clean_directed md (got none err) clean = tt
clean_directed md (got (some c) err) (inl e) = absurd (cc)
clean_directed md (got (some c) err) (inr e) = e

module _ (g : Globals) (w : Weather) (s : Sys) (reach : Reach initial s) where
  -- The state after a call that left the client `c` in the hands of its caller.
  abbrev Lent : Option Client → Heap → Type 0
  Lent c h = Reach initial (record s { heap = h; lent = lend c s.lent }) × OneCall w s.heap c h

  unchanged : (h : Heap) → h ≡ s.heap → Lent none h
  unchanged h e = (rw e reach, inl (e, refl))

  abbrev Routes : Routed → Heap → Type 0
  Routes r h = Lent (routed_client r) h × CleanRouted r

  routed_none :
      {x : Routed} (r : Routed) (h : Heap)
      → ◌≡◌ {A = Run Heap Routed} (ret x s.heap) (ret r h)
      → routed_client x ≡ none
      → Routes r h
  routed_none {x} r h e no_client =
      let same : r ≡ x = ground arith in
      let same_heap : h ≡ s.heap = ground arith in
      rw same
        (subst (λ c. Lent c h) (sym no_client) (unchanged h same_heap), clean_none x no_client)

  got-Lent :
      (x : Option Client × Option Error) (h₁ : Heap) (r : Routed) (h : Heap)
      → ◌≡◌ {A = Run Heap Routed} (ret (got_pair x) h₁) (ret r h)
      → Lent x.0 h₁ × Clean x
      → Routes r h
  got-Lent (c, err) h₁ r h e lent =
      let same : r ≡ got c err = ground arith in
      let heap : h ≡ h₁ = ground arith in rw (same, heap) lent

  acquire-Reach :
      (o : Option ℕ) (r : Option Client × Option Error) (h : Heap)
      → Pool.acquire o w.ready w.now w.later s.heap ≡ ret r h
      → Lent r.0 h × Clean r
  acquire-Reach none r h e =
      let (same, heap) = ret-eq-ret (acquire_nil w.ready w.now w.later s.heap) e in
      subst (λ (x : Option Client × Option Error). Lent x.0 h × Clean x) (sym same)
        (unchanged h heap, inl refl)
  acquire-Reach (some p) r h e = (
    (next reach (take p w.ready w.now w.later r h e), inr (inl (p, r, e, refl))),
    acquire-Clean p w.later w.ready w.now r s.heap h (Reach-fits reach p) e,
  )

  pool_at-Reach :
      (o : Option ℕ) (r : Routed) (h : Heap) → acquire_pool_at w o s.heap ≡ ret r h → Routes r h
  pool_at-Reach none r h e = routed_none r h e refl
  pool_at-Reach (some p) r h e =
      let (x, h₁, e₁, e₂) =
        and_then-eq-ret (Pool.acquire (some p) w.ready w.now w.later s.heap) _ e in
      got-Lent x h₁ r h e₂ (acquire-Reach (some p) x h₁ e₁)

  tenant_at-Reach :
      (o : Option ℕ) (r : Routed) (h : Heap) → acquire_tenant_at o s.heap ≡ ret r h → Routes r h
  tenant_at-Reach none r h e = routed_none r h e refl
  tenant_at-Reach (some t) r h e =
      let (x, h₁, e₁, e₂) = and_then-eq-ret (Tenant.acquire (some t) s.heap) _ e in
      got-Lent x h₁ r h e₂ (
        (next reach (take_tenant t x h₁ e₁), inr (inr (t, x, e₁, refl))),
        tenant-Clean t x s.heap h₁ e₁,
      )

  by_code-Reach :
      (pools tenants : Dict ℕ) (o : Option Text) (r : Routed) (h : Heap)
      → by_code g w pools tenants o s.heap ≡ ret r h
      → Routes r h
  by_code-Reach pools tenants none r h e = routed_none r h e refl
  by_code-Reach pools tenants (some code) r h e = elim (Bool-cases g.omp_enabled) [
    | inl omp ↦ pool_at-Reach (get pools code) r h (rw omp at e)
    | inr other ↦ tenant_at-Reach (get tenants code) r h (rw other at e)
  ]

  first_of-heap : (xs : List Text) (x : Text) (h : Heap) → first_of xs s.heap ≡ ret x h → h ≡ s.heap
  first_of-heap [] x h e = absurd (cc)
  first_of-heap (y ∷ ys) x h e = ground arith

  second_of-heap :
      (xs : List Text) (x : Text) (h : Heap) → second_of xs s.heap ≡ ret x h → h ≡ s.heap
  second_of-heap [] x h e = absurd (cc)
  second_of-heap (y ∷ []) x h e = absurd (cc)
  second_of-heap (y ∷ z ∷ zs) x h e = ground arith

  by_token-Reach :
      (pools tenants : Dict ℕ) (o : Option (List Text)) (r : Routed) (h : Heap)
      → by_token g w pools tenants o s.heap ≡ ret r h
      → Routes r h
  by_token-Reach pools tenants none r h e = routed_none r h e refl
  by_token-Reach pools tenants (some token) r h e =
      let (text, h₁, e₁, e₂) = and_then-eq-ret (first_of token s.heap) _ e in
      let same = first_of-heap token text h₁ e₁ in
      by_code-Reach pools tenants (engine_code (split (str_decode text).0 b'-')) r h (rw same at e₂)

  route-Reach :
      (pools tenants : Dict ℕ) (md : Metadata) (r : Routed) (h : Heap)
      → route g w pools tenants md s.heap ≡ ret r h
      → Routes r h
  unfolding route
  route-Reach pools tenants md r h e = elim (Bool-cases (g.omp_enabled || g.tenant_enabled)) [
    | inl on ↦ by_token-Reach pools tenants (get md (codes "token")) r h (rw on at e)
    | inr off ↦
        let e' : and_then (balance_pool w.intn pools s.heap) _ ≡ ret r h = rw off at e in
        let (p, h₁, e₁, e₂) = and_then-eq-ret (balance_pool w.intn pools s.heap) _ e' in
        let same = balance_pool-heap w.intn pools s.heap p h₁ e₁ in
        let (x, h₂, e₃, e₄) = and_then-eq-ret (Pool.acquire p w.ready w.now w.later h₁) _ e₂ in
        got-Lent x h₂ r h e₄ (acquire-Reach p x h₂ (rw same at e₃))
  ]

  route_addr-Reach :
      (md : Metadata) (addr : Text) (r : Routed) (h : Heap)
      → route_addr g w md addr s.heap ≡ ret r h
      → Routes r h
  unfolding route_addr
  route_addr-Reach md addr r h e = elim (Bool-cases (eq_text addr g.asr_gateway_proxy_addr)) [
    | inl asr ↦ route-Reach g.asr_pools g.tenants.asr md r h (rw asr at e)
    | inr other ↦ elim (Bool-cases (eq_text addr g.tts_gateway_proxy_addr)) [
      | inl tts ↦ route-Reach g.tts_pools g.tenants.tts md r h (rw (other, tts) at e)
      | inr neither ↦ routed_none r h (rw (other, neither) at e) refl
    ]
  ]

  addr_of-heap :
      (o : Option (List Text)) (a : Text) (h : Heap) → addr_of g o s.heap ≡ ret a h → h ≡ s.heap
  addr_of-heap none a h e = ground arith
  addr_of-heap (some xs) a h e =
      let (x, h₁, e₁, e₂) = and_then-eq-ret (first_of xs s.heap) _ e in
      let same = first_of-heap xs x h₁ e₁ in
      elim (Bool-cases (eqb_ℤ g.network_mode global_network_mode)) [
        | inl port ↦ second_of-heap (split x b':') a h (rw (port, same) at e₂)
        | inr whole ↦
            let last : ◌≡◌ {A = Run Heap Text} (ret x h₁) (ret a h) = rw whole at e₂ in
            let ends : h ≡ h₁ = ground arith in ends ∙ same
      ]

  directed-client : (md : Metadata) (r : Routed) → client_of (directed md r) ≡ routed_client r
  directed-client md (leave e) = refl
  directed-client md (got none err) = refl
  directed-client md (got (some c) err) = refl

  direct-Reach :
      (o : Option Metadata) (d : Directed) (h : Heap)
      → direct g w o s.heap ≡ ret d h
      → Lent (client_of d) h × CleanDirected d
  direct-Reach none d h e =
      let same : d ≡ reject unknown_method = ground arith in
      rw same (unchanged h (ground arith), tt)
  direct-Reach (some md) d h e =
      let (addr, h₁, e₁, e₂) = and_then-eq-ret (server_addr g md s.heap) _ e in
      let same : h₁ ≡ s.heap =
        unfold server_addr in addr_of-heap (get md (codes ":authority")) addr h₁ e₁ in
      let (r, h₂, e₃, e₄) = and_then-eq-ret (route_addr g w md addr h₁) _ e₂ in
      let d-directed : d ≡ directed md r = ground arith in
      let h-h₂ : h ≡ h₂ = ground arith in
      let (lent, clean) = route_addr-Reach md addr r h₂ (rw same at e₃) in
      rw (d-directed, h-h₂)
        (subst (λ c. Lent c h₂) (sym (directed-client md r)) lent, clean_directed md r clean)

  -- Whatever the director answers to a request, it has made no call of a pool or tenant, and the heap is
  -- as it was and no client is handed on; or exactly one, an `Acquire`, whose heap and client, if any,
  -- are the answer's. The state is one that calls of the pools reach, in which the client handed on is
  -- lent to the handler; it comes without an error.
  pub director_lends :
      (incoming : Option Metadata) (method : Text) (d : Directed) (h : Heap)
      → grpc_proxy_transport g w incoming method s.heap ≡ ret d h
      → Reach initial (record s { heap = h; lent = lend (client_of d) s.lent })
        × CleanDirected d
        × OneCall w s.heap (client_of d) h
  unfolding grpc_proxy_transport
  director_lends incoming method d h e =
      elim (Bool-cases (has_prefix method (codes "/ivc.v1.internal"))) [
        | inl internal ↦
            let e' : ◌≡◌ {A = Run Heap Directed} (ret (reject unsupported_method) s.heap)
                (ret d h) =
              rw internal at e in
            let same : d ≡ reject unsupported_method = ground arith in
            let here : h ≡ s.heap = ground arith in
            rw same ((unchanged h here).0, tt, inl (here, refl))
        | inr other ↦
            let (lent, clean) = direct-Reach incoming d h (rw other at e) in (lent.0, clean, lent.1)
      ]

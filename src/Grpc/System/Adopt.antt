-- ===== src/Grpc/System/Adopt.antt =====
-- `initTenantPool` keeps the accounts: what a tenant gets leaves its pool.
use rpc_pigeon.Common.{
  ℕ, zero, suc, ◌+◌, ◌≤◌, ◌<◌, ◌≡◌, refl, subst, List, [], ◌∷◌, ◌++◌, Bool, Option, none, some,
  arith, length, length-append, All, All-snoc,
}
use rpc_pigeon.Common.Dict.{Dict}
use rpc_pigeon.Common.Run.{ret, ret-eq-ret, and_then-eq-ret}
use rpc_pigeon.Grpc.Heap.{Error, Client, Chan, Tenant, Heap}
use rpc_pigeon.Grpc.Pool.{send_tenant}
use rpc_pigeon.Grpc.Pool.Acquire.{InPool, oldest}
use rpc_pigeon.Grpc.Pool.Outcomes.{Room}
use rpc_pigeon.Grpc.Pool.Return.{filled, sent_tenant}
use rpc_pigeon.Grpc.Pool.Receive.{Received}
use rpc_pigeon.Grpc.Tenant.Init.{blance_acquire_pool, adopt, fill_tenant}
use rpc_pigeon.Grpc.Tenant.Scan.{blance_acquire_pool-Received}
use rpc_pigeon.Grpc.System.{Sys}
use rpc_pigeon.Grpc.System.Accounts.{at_pool, at_tenant, held, held-cons, held-lend_tenant}
use rpc_pigeon.Grpc.System.Invariant.{Live, InTenant, Inv}
use rpc_pigeon.Grpc.System.Keeps.{put_tenant-Inv, Took-Inv}

send_tenant_room :
    (h : Heap) (t : ℕ) (tenant : Tenant) (ch : Chan) (c : Client)
    → h.tenants t ≡ some tenant
    → tenant.clients ≡ some ch
    → length ch.buf < ch.cap
    → send_tenant t (some c) h ≡ ret tt (sent_tenant h t tenant ch c)
unfolding send_tenant
send_tenant_room h t tenant ch c here e room = ground arith

-- A client just taken from pool `p` goes to tenant `t`, which has room.
adopt-Inv :
    (s : Sys) (x : Client) (lent : List Client) (t : ℕ) (tenant : Tenant) (ch : Chan) (p : ℕ)
    → s.lent ≡ x ∷ lent
    → InPool p (some x)
    → s.heap.tenants t ≡ some tenant
    → tenant.clients ≡ some ch
    → length ch.buf + held (at_tenant t) s.lent < ch.cap
    → Inv s
    → Inv (record s {
      heap = sent_tenant s.heap t tenant ch (record x { tenant = some t });
      lent = lent;
    })
adopt-Inv s x lent t tenant ch p e i here e' space v =
    let live = subst (All (Live s.heap.next_pool s.heap.next_tenant)) e v.lent in
    let given = some (record x { tenant = some t }) in
    let fits = v.tenants t tenant here in
    let fewer : (f : Client → Bool) → held f lent ≤ held f s.lent =
      λ f. rw (e, held-cons) (omega arith) in
    let room =
      subst (Room (InTenant s.heap.next_pool t) (held (at_tenant t) s.lent) tenant.capacity) e'
        fits.1 in
    put_tenant-Inv s t tenant (record tenant { clients = filled ch (record x { tenant = some t }) })
      lent v here
      (
        refl,
        (
          room.0,
          room.1,
          omega (arith, space, fewer (at_tenant t), length-append ch.buf (given ∷ [])),
          All-snoc _ ch.buf given room.3 (live.0.0, live.0.1, refl),
        ),
      )
      (λ q. fewer (at_pool q)) (λ u ne. fewer (at_tenant u)) live.1

-- The state after one client of pool `p` went to the tenant.
abbrev moved : Sys → Heap → ℕ → Tenant → Chan → Client → Sys
moved s h t tenant ch x = record s {
  heap = sent_tenant h t tenant ch (record x { tenant = some t });
}

Received-InPool :
    (s : Sys) (p : ℕ) (x : Option Client) (h : Heap) → Received s.heap p x h → Inv s → InPool p x
Received-InPool s p x h (pool, cap, rest, here, e, _) v =
    (subst (Room (InPool p) (held (at_pool p) s.lent) pool.capacity) e (v.pools p pool here).1).3.0

module _ (s : Sys) (t : ℕ) (tenant : Tenant) (ch : Chan) (here : s.heap.tenants t ≡ some tenant)
    (e : tenant.clients ≡ some ch) (space : length ch.buf + held (at_tenant t) s.lent < ch.cap)
    (v : Inv s) where
  moved-Inv :
      (p : ℕ) (x : Client) (h : Heap) → Received s.heap p (some x) h → Inv (moved s h t tenant ch x)
  moved-Inv p x h (pool, cap, rest, there, e', after) =
      let own = Received-InPool s p (some x) h (pool, cap, rest, there, e', after) v in
      let v' =
        Took-Inv s p pool (some x) h v there
          (oldest cap (some x) rest s.heap.dials s.heap.closed e' own after) in
      adopt-Inv (record s { heap = h; lent = x ∷ s.lent }) x s.lent t tenant ch p refl own
        (rw after here) e (omega (arith, space, held-lend_tenant p t (some x) s.lent own)) v'

  -- A round of the loop that does not panic.
  round_moves :
      (pools : Dict ℕ) (got : Option Client × Option Error) (h h' : Heap)
      → blance_acquire_pool pools s.heap ≡ ret got h
      → adopt t got h ≡ ret tt h'
      → (x : Client) × (h' ≡ sent_tenant h t tenant ch (record x { tenant = some t }))
        × Inv (moved s h t tenant ch x)
  round_moves pools (c, some err) h h' r a = absurd (cc)
  round_moves pools (none, none) h h' r a = absurd (cc)
  round_moves pools (some x, none) h h' r a =
      let (p, got) = blance_acquire_pool-Received pools s.heap (some x) h r in
      let (pool, cap, rest, there, e', after) = got in
      (
        x,
        (ret-eq-ret
            (send_tenant_room h t tenant ch (record x { tenant = some t }) (rw after here) e
              (omega (arith, space)))
            a).1,
        moved-Inv p x h got,
      )

pub fill_tenant-Inv :
    (rounds : ℕ) (pools : ℕ → Dict ℕ) (s : Sys) (t : ℕ) (tenant : Tenant) (ch : Chan) (h : Heap)
    → s.heap.tenants t ≡ some tenant
    → tenant.clients ≡ some ch
    → length ch.buf + held (at_tenant t) s.lent + rounds ≤ ch.cap
    → fill_tenant pools t rounds s.heap ≡ ret tt h
    → Inv s
    → Inv (record s { heap = h })
unfolding fill_tenant
fill_tenant-Inv zero pools s t tenant ch h here e space r v =
    subst (λ k. Inv (record s { heap = k })) (ground arith) v
fill_tenant-Inv (suc rounds) pools s t tenant ch h here e space r v =
    let (got, h₁, r₁, r₂) = and_then-eq-ret (blance_acquire_pool (pools rounds) s.heap) _ r in
    let (_, h₂, r₃, r₄) = and_then-eq-ret (adopt t got h₁) _ r₂ in
    let (x, same, v') =
      round_moves s t tenant ch here e (omega (arith, space)) v (pools rounds) got h₁ h₂ r₁ r₃ in
    let given = some (record x { tenant = some t }) in
    fill_tenant-Inv rounds pools (moved s h₁ t tenant ch x) t
      (record tenant { clients = filled ch (record x { tenant = some t }) })
      (record ch { buf = ch.buf ++ given ∷ [] }) h (ground arith) refl
      (omega (arith, space, length-append ch.buf (given ∷ [])))
      (subst (λ k. fill_tenant pools t rounds k ≡ ret tt h) same r₄) v'

-- ===== src/Grpc/System/Borrow.antt =====
-- `Tenant.Acquire` keeps the accounts.
use rpc_pigeon.Common.{
  ℕ, ◌≡◌, refl, sym, subst, List, [], ◌∷◌, Option, none, some, inl, inr, Option-cases, of_is_some,
  arith, ap,
}
use rpc_pigeon.Common.Run.{ret, blocked, panic, ret-eq-ret}
use rpc_pigeon.Grpc.Heap.{Error, Client, Tenant, Heap, update}
use rpc_pigeon.Grpc.Pool.Outcomes.{Room}
use rpc_pigeon.Grpc.Tenant
use rpc_pigeon.Grpc.System.{Sys, lend}
use rpc_pigeon.Grpc.System.Accounts.{
  at_tenant, held, held-tenant_cons, held-tenant_cons_ne, held-tenant_cons_pool,
}
use rpc_pigeon.Grpc.System.Invariant.{NilOrBelow, InTenant, Inv}
use rpc_pigeon.Grpc.System.Keeps.{put_tenant-Inv}

abbrev taken : Heap → ℕ → Tenant → ℕ → List (Option Client) → Heap
taken h t tenant cap rest = record h {
  tenants =
      update h.tenants t (record tenant { clients = some (record { cap = cap; buf = rest }) });
}

module _ (h : Heap) (t : ℕ) where
  tenant_dangling : h.tenants t ≡ none → Tenant.acquire (some t) h ≡ panic h
  unfolding Tenant.acquire
  tenant_dangling e = ground arith

  module _ (tenant : Tenant) (here : h.tenants t ≡ some tenant) (cap : ℕ) where
    tenant_empty :
        tenant.clients ≡ some (record { cap = cap; buf = [] })
        → Tenant.acquire (some t) h ≡ blocked h
    unfolding Tenant.acquire
    tenant_empty e = ground arith

    tenant_first :
        (x : Option Client) (rest : List (Option Client))
        → tenant.clients ≡ some (record { cap = cap; buf = x ∷ rest })
        → Tenant.acquire (some t) h ≡ ret (x, none) (taken h t tenant cap rest)
    unfolding Tenant.acquire
    tenant_first x rest e = ground arith

module _ (s : Sys) (t : ℕ) (c : Option Client) (err : Option Error) (h : Heap)
    (r : Tenant.acquire (some t) s.heap ≡ ret (c, err) h) (v : Inv s) where
  abbrev Lent : Option Client → Heap → Type 0
  Lent x k = Inv (record s { heap = k; lent = lend x s.lent })

  lend_first :
      (tenant : Tenant) (cap : ℕ) (x : Client) (rest : List (Option Client))
      → s.heap.tenants t ≡ some tenant
      → tenant.clients ≡ some (record { cap = cap; buf = some x ∷ rest })
      → Room
          (InTenant s.heap.next_pool t)
          (held (at_tenant t) s.lent)
          tenant.capacity
          (some (record { cap = cap; buf = some x ∷ rest }))
      → NilOrBelow s.heap.next_tenant (some t)
      → Lent (some x) (taken s.heap t tenant cap rest)
  lend_first tenant cap x rest here e room below =
      let of_t = room.3.0.2 in
      put_tenant-Inv s t tenant
        (record tenant { clients = some (record { cap = cap; buf = rest }) }) (x ∷ s.lent) v here
        (refl, (room.0, room.1, omega (arith, room.2, held-tenant_cons t x s.lent of_t), room.3.1))
        (λ p. omega (arith, held-tenant_cons_pool t x s.lent of_t p))
        (λ u ne. omega (arith, held-tenant_cons_ne t x s.lent of_t u ne))
        ((room.3.0.0, room.3.0.1, subst (NilOrBelow s.heap.next_tenant) (sym of_t) below), v.lent)

  borrow_buf :
      (tenant : Tenant) (cap : ℕ) (buf : List (Option Client))
      → s.heap.tenants t ≡ some tenant
      → tenant.clients ≡ some (record { cap = cap; buf = buf })
      → Room
          (InTenant s.heap.next_pool t)
          (held (at_tenant t) s.lent)
          tenant.capacity
          (some (record { cap = cap; buf = buf }))
      → Lent c h
  borrow_buf tenant cap [] here e room = absurd (cc (tenant_empty s.heap t tenant here cap e))
  borrow_buf tenant cap (none ∷ rest) here e room = absurd room.3.0
  borrow_buf tenant cap (some x ∷ rest) here e room =
      let (same, heap) = ret-eq-ret (tenant_first s.heap t tenant here cap (some x) rest e) r in
      rw (ap (λ (q : Option Client × Option Error). q.0) same, heap)
        (lend_first tenant cap x rest here e room (v.tenant_below t tenant here))

  borrow_at : (tenant : Tenant) → s.heap.tenants t ≡ some tenant → Lent c h
  borrow_at tenant here =
      let fits = v.tenants t tenant here in
      let (ch, e) = of_is_some tenant.clients fits.0 in
      borrow_buf tenant ch.cap ch.buf here e (
        subst (Room (InTenant s.heap.next_pool t) (held (at_tenant t) s.lent) tenant.capacity) e
          fits.1)

  pub borrow-Inv : Lent c h
  borrow-Inv = elim (Option-cases (s.heap.tenants t)) [
    | inl gone ↦ absurd (cc (tenant_dangling s.heap t gone))
    | inr (tenant, here) ↦ borrow_at tenant here
  ]

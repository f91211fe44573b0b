-- ===== src/Grpc/System/Back.antt =====
-- A client that is given back always finds room, and the accounts stay right.
use rpc_pigeon.Common.{
  ℕ, suc, ◌≤◌, ◌<◌, ℤ, ◌≡◌, refl, sym, subst, List, [], ◌∷◌, ◌++◌, Bool, true, Option, none, some,
  inl, inr, Option-cases, of_is_some, arith, length, length-append, All, All-middle, All-without,
  All-snoc,
}
use rpc_pigeon.Common.Run.{ret, ret-eq-ret}
use rpc_pigeon.Grpc.Heap.{Time, Client, Chan, Pool, Tenant, Heap}
use rpc_pigeon.Grpc.Pool.{client_close}
use rpc_pigeon.Grpc.Pool.Acquire.{InPool}
use rpc_pigeon.Grpc.Pool.Outcomes.{Room}
use rpc_pigeon.Grpc.Pool.Return.{
  used, filled, conn_shut, sent_pool, sent_tenant, client_close_shut, client_close_pool,
  client_close_tenant,
}
use rpc_pigeon.Grpc.System.{Sys}
use rpc_pigeon.Grpc.System.Accounts.{
  at_pool, at_tenant, held, held-without, held-pool_self, held-tenant_self,
}
use rpc_pigeon.Grpc.System.Invariant.{Live, Below, NilOrBelow, InTenant, Inv}
use rpc_pigeon.Grpc.System.Keeps.{put_pool-Inv, put_tenant-Inv, fewer-Inv}

-- A channel that has lent `suc n` clients has room for one of them.
Room-send :
    (Held : Option Client → Type 0) (n : ℕ) (capacity : ℤ) (ch : Chan) (c : Client)
    → Room Held (suc n) capacity (some ch)
    → Held (some c)
    → (length ch.buf < ch.cap) × Room Held n capacity (filled ch c)
Room-send Held n capacity ch c room i = (
  omega (arith, room.2),
  (
    room.0,
    room.1,
    omega (arith, room.2, length-append ch.buf (some c ∷ [])),
    All-snoc Held ch.buf (some c) room.3 i,
  ),
)

module _ (s : Sys) (xs : List Client) (c : Client) (ys : List Client) (now : Time) (v : Inv s)
    (among : s.lent ≡ xs ++ (c ∷ ys)) where
  abbrev rest : List Client
  rest = xs ++ ys

  live_all : All (Live s.heap.next_pool s.heap.next_tenant) (xs ++ (c ∷ ys))
  live_all = subst (All (Live s.heap.next_pool s.heap.next_tenant)) among v.lent

  live : Live s.heap.next_pool s.heap.next_tenant c
  live = All-middle _ xs c ys live_all

  live_rest : All (Live s.heap.next_pool s.heap.next_tenant) rest
  live_rest = All-without _ xs c ys live_all

  fewer : (f : Client → Bool) → held f rest ≤ held f s.lent
  fewer f = omega (arith, held-without f s.lent xs c ys among)

  one_fewer : (f : Client → Bool) → f c ≡ true → held f s.lent ≡ suc (held f rest)
  one_fewer f e = rw (held-without f s.lent xs c ys among, e) (omega arith)

  abbrev Back : Heap → Type 0
  Back h = (client_close c now s.heap ≡ ret tt h) × Inv (record s { heap = h; lent = rest })

  module _ (p : ℕ) (pool : Pool) (from : c.pool ≡ some p) (here : s.heap.pools p ≡ some pool) where
    Back-shut : pool.clients ≡ none → (h : Heap) × Back h
    Back-shut e = (
      conn_shut s.heap c,
      (
        client_close_shut s.heap c now p pool from here e,
        fewer-Inv s rest s.doomed s.heap.dials _ v fewer live_rest,
      ),
    )

    module _ (ch : Chan) (open_ch : pool.clients ≡ some ch) where
      Back-pool : c.tenant ≡ none → (h : Heap) × Back h
      Back-pool no_tenant =
          let fits = v.pools p pool here in
          let room =
            subst (λ n. Room (InPool p) n pool.capacity (some ch))
              (one_fewer (at_pool p) (held-pool_self p c from no_tenant))
              (subst (Room (InPool p) (held (at_pool p) s.lent) pool.capacity) open_ch fits.1) in
          let sent =
            Room-send (InPool p) _ pool.capacity ch (used c now) room (live.0, from, no_tenant) in
          (
            sent_pool s.heap p pool ch (used c now),
            (
              client_close_pool s.heap c now p pool from here ch open_ch live.0 no_tenant sent.0,
              put_pool-Inv s p pool (record pool { clients = filled ch (used c now) }) rest s.doomed
                  s.heap.dials s.heap.closed v here (fits.0, sent.1) (λ q ne. fewer (at_pool q))
                  (λ t. fewer (at_tenant t)) live_rest,
            ),
          )

      Back-tenant :
          (t : ℕ) (tenant : Tenant) (tch : Chan)
          → c.tenant ≡ some t
          → s.heap.tenants t ≡ some tenant
          → tenant.clients ≡ some tch
          → (h : Heap) × Back h
      Back-tenant t tenant tch at_t there e =
          let fits = v.tenants t tenant there in
          let Held = InTenant s.heap.next_pool t in
          let room =
            subst (λ n. Room Held n tenant.capacity (some tch))
              (one_fewer (at_tenant t) (held-tenant_self t c at_t))
              (subst (Room Held (held (at_tenant t) s.lent) tenant.capacity) e fits.1) in
          let sent =
            Room-send Held _ tenant.capacity tch (used c now) room (live.0, live.1, at_t) in
          (
            sent_tenant s.heap t tenant tch (used c now),
            (
              client_close_tenant s.heap c now p pool from here ch open_ch live.0 t tenant tch at_t
                  there e sent.0,
              put_tenant-Inv s t tenant (record tenant { clients = filled tch (used c now) }) rest v
                  there (refl, sent.1) (λ q. fewer (at_pool q)) (λ u ne. fewer (at_tenant u))
                  live_rest,
            ),
          )

  Back-open :
      (p : ℕ) (pool : Pool) (o : Option ℕ)
      → c.pool ≡ some p
      → s.heap.pools p ≡ some pool
      → c.tenant ≡ o
      → (ch : Chan) → pool.clients ≡ some ch
      → (h : Heap) × Back h
  Back-open p pool none from here no_tenant ch open_ch =
      Back-pool p pool from here ch open_ch no_tenant
  Back-open p pool (some t) from here at_t ch open_ch =
      let (tenant, there) =
        of_is_some _ (v.tenant_made t (subst (NilOrBelow s.heap.next_tenant) at_t live.2)) in
      let (tch, e) = of_is_some tenant.clients (v.tenants t tenant there).0 in
      Back-tenant p pool from here ch open_ch t tenant tch at_t there e

  Back-at :
      (p : ℕ) (pool : Pool) → c.pool ≡ some p → s.heap.pools p ≡ some pool → (h : Heap) × Back h
  Back-at p pool from here = elim (Option-cases pool.clients) [
    | inl shut ↦ Back-shut p pool from here shut
    | inr (ch, open_ch) ↦ Back-open p pool c.tenant from here refl ch open_ch
  ]

  Back-from : (o : Option ℕ) → c.pool ≡ o → (h : Heap) × Back h
  Back-from none from = absurd (subst (Below s.heap.next_pool) from live.1)
  Back-from (some p) from =
      let (pool, here) =
        of_is_some _ (v.pool_made p (subst (Below s.heap.next_pool) from live.1)) in
      Back-at p pool from here

  pub Back-total : (h : Heap) × Back h
  Back-total = Back-from c.pool refl

  pub give_back-Inv :
      (h : Heap) → client_close c now s.heap ≡ ret tt h → Inv (record s { heap = h; lent = rest })
  give_back-Inv h r =
      let (h', (r', v')) = Back-total in
      subst (λ k. Inv (record s { heap = k; lent = rest })) (sym (ret-eq-ret r' r).1) v'

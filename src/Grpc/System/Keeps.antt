-- ===== src/Grpc/System/Keeps.antt =====
-- Each kind of call keeps the accounts.
use rpc_pigeon.Common.{
  ℕ, ◌≤◌, ◌<◌, ℤ, ◌≡◌, ◌≢◌, sym, subst, List, Bool, Option, none, some, inl, inr, Option-cases,
  arith, All,
}
use rpc_pigeon.Common.Run.{ret}
use rpc_pigeon.Grpc.Heap.{Error, Time, Client, Chan, Pool, Tenant, Heap, update, Conn}
use rpc_pigeon.Grpc.Pool.{Ready, acquire}
use rpc_pigeon.Grpc.Pool.Acquire.{acquire_dangling, NilOrInPool, Took, nothing, oldest, InPool}
use rpc_pigeon.Grpc.Pool.Outcomes.{Room, acquire-Took}
use rpc_pigeon.Grpc.System.{Sys, lend}
use rpc_pigeon.Grpc.System.Accounts.{
  at_pool, at_tenant, held, held-lend_self, held-lend_ne, held-lend_tenant,
}
use rpc_pigeon.Grpc.System.Invariant.{Live, Below, NilOrBelow, PoolFits, TenantFits, Inv, at-update}

-- A channel with room for `n` clients has room for fewer.
pub Room-mono :
    (Held : Option Client → Type 0) {m n : ℕ} (capacity : ℤ) (o : Option Chan)
    → m ≤ n
    → Room Held n capacity o
    → Room Held m capacity o
Room-mono Held capacity none le room = tt
Room-mono Held capacity (some ch) le room = (room.0, room.1, omega (arith, room.2), room.3)

-- One pool is written, and the lent clients change, so that nobody else has more of them lent.
pub put_pool-Inv :
    (s : Sys) (p : ℕ) (pool pool' : Pool) (lent : List Client) (doomed : List (Option Client))
    (dials : ℕ) (closed : List Conn)
    → Inv s
    → s.heap.pools p ≡ some pool
    → PoolFits p lent pool'
    → ((q : ℕ) → q ≢ p → held (at_pool q) lent ≤ held (at_pool q) s.lent)
    → ((t : ℕ) → held (at_tenant t) lent ≤ held (at_tenant t) s.lent)
    → All (Live s.heap.next_pool s.heap.next_tenant) lent
    → Inv (record {
      heap = record s.heap { pools = update s.heap.pools p pool'; dials = dials; closed = closed };
      lent = lent;
      doomed = doomed;
    })
put_pool-Inv s p pool pool' lent doomed dials closed v here fits others tenants live = record {
  pools =
      at-update (λ q a. PoolFits q lent a) s.heap.pools p pool' fits
        λ q a ne e.
          let old = v.pools q a e in (old.0, Room-mono _ a.capacity a.clients (others q ne) old.1);
  tenants = λ t a e.
      let old = v.tenants t a e in (old.0, Room-mono _ a.capacity a.clients (tenants t) old.1);
  pool_below =
      at-update (λ q a. q < s.heap.next_pool) s.heap.pools p pool' (v.pool_below p pool here)
        λ q a ne e. v.pool_below q a e;
  pool_made = λ q lt. ground (arith, v.pool_made q lt);
  tenant_below = v.tenant_below;
  tenant_made = v.tenant_made;
  lent = live;
}

-- No pool and no tenant is written, and nobody has more clients lent.
pub fewer-Inv :
    (s : Sys) (lent : List Client) (doomed : List (Option Client)) (dials : ℕ) (closed : List Conn)
    → Inv s
    → ((f : Client → Bool) → held f lent ≤ held f s.lent)
    → All (Live s.heap.next_pool s.heap.next_tenant) lent
    → Inv (record {
      heap = record s.heap { dials = dials; closed = closed };
      lent = lent;
      doomed = doomed;
    })
fewer-Inv s lent doomed dials closed v fewer live = record {
  pools = λ p a e.
      let old = v.pools p a e in
      (old.0, Room-mono _ a.capacity a.clients (fewer (at_pool p)) old.1);
  tenants = λ t a e.
      let old = v.tenants t a e in
      (old.0, Room-mono _ a.capacity a.clients (fewer (at_tenant t)) old.1);
  pool_below = v.pool_below;
  pool_made = v.pool_made;
  tenant_below = v.tenant_below;
  tenant_made = v.tenant_made;
  lent = live;
}

-- One tenant is written, and the lent clients change, so that nobody else has more of them lent.
pub put_tenant-Inv :
    (s : Sys) (t : ℕ) (tenant tenant' : Tenant) (lent : List Client)
    → Inv s
    → s.heap.tenants t ≡ some tenant
    → TenantFits s.heap.next_pool t lent tenant'
    → ((p : ℕ) → held (at_pool p) lent ≤ held (at_pool p) s.lent)
    → ((u : ℕ) → u ≢ t → held (at_tenant u) lent ≤ held (at_tenant u) s.lent)
    → All (Live s.heap.next_pool s.heap.next_tenant) lent
    → Inv (record s {
      heap = record s.heap { tenants = update s.heap.tenants t tenant' };
      lent = lent;
    })
put_tenant-Inv s t tenant tenant' lent v here fits pools others live = record {
  pools =
      λ p a e. let old = v.pools p a e in (old.0, Room-mono _ a.capacity a.clients (pools p) old.1);
  tenants =
      at-update (λ u a. TenantFits s.heap.next_pool u lent a) s.heap.tenants t tenant' fits
        λ u a ne e.
          let old = v.tenants u a e in
          (old.0, Room-mono _ a.capacity a.clients (others u ne) old.1);
  pool_below = v.pool_below;
  pool_made = v.pool_made;
  tenant_below =
      at-update (λ u a. u < s.heap.next_tenant) s.heap.tenants t tenant'
        (v.tenant_below t tenant here) λ u a ne e. v.tenant_below u a e;
  tenant_made = λ u lt. ground (arith, v.tenant_made u lt);
  lent = live;
}

lend-Live :
    (pools tenants p : ℕ) (c : Option Client) (lent : List Client)
    → p < pools
    → NilOrInPool p c
    → All (Live pools tenants) lent
    → All (Live pools tenants) (lend c lent)
lend-Live pools tenants p none lent below i live = live
lend-Live pools tenants p (some c) lent below i live =
    ((i.0, subst (Below pools) (sym i.1) below, subst (NilOrBelow tenants) (sym i.2) tt), live)

pub Took-Inv :
    (s : Sys) (p : ℕ) (pool : Pool) (c : Option Client) (h : Heap)
    → Inv s
    → s.heap.pools p ≡ some pool
    → Took s.heap p pool c h
    → Inv (record s { heap = h; lent = lend c s.lent })
Took-Inv s p pool c h v here (nothing e same) = rw (e, same) v
Took-Inv s p pool c h v here (oldest cap x rest dials closed e mine after) = rw after (
    put_pool-Inv s p pool (record pool { clients = some (record { cap = cap; buf = rest }) })
      (lend c s.lent) s.doomed dials closed v here
      (let fits = v.pools p pool here in
        let room = subst (Room (InPool p) (held (at_pool p) s.lent) pool.capacity) e fits.1 in
        (fits.0, (room.0, room.1, omega (arith, room.2, held-lend_self p c s.lent), room.3.1)))
      (λ q ne. omega (arith, held-lend_ne p q c s.lent mine ne))
      (λ t. omega (arith, held-lend_tenant p t c s.lent mine))
      (lend-Live _ _ p c s.lent (v.pool_below p pool here) mine v.lent))

-- A call of `Acquire` that returns.
pub take-Inv :
    (s : Sys) (p : ℕ) (ready : Ready) (now later : Time) (c : Option Client) (err : Option Error)
    (h : Heap)
    → acquire (some p) ready now later s.heap ≡ ret (c, err) h
    → Inv s
    → Inv (record s { heap = h; lent = lend c s.lent })
take-Inv s p ready now later c err h r v = elim (Option-cases (s.heap.pools p)) [
  | inl gone ↦ absurd (cc (acquire_dangling s.heap p ready now later gone))
  | inr (pool, here) ↦
      let fits = v.pools p pool here in
      Took-Inv s p pool c h v here (
        acquire-Took s.heap p pool here (held (at_pool p) s.lent) ready now later c err h fits.1
          fits.0 r)
]

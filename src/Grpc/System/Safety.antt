-- ===== src/Grpc/System/Safety.antt =====
-- What holds of the pools and tenants after any calls, in any order.
use rpc_pigeon.Common.{
  ℕ, ◌+◌, ◌-◌, ◌≤◌, pos, ◌≡◌, subst, ◌∙◌, List, ◌∷◌, ◌++◌, true, false, Option, none, some, arith,
  length, is_some, of_is_some, ap,
}
use rpc_pigeon.Common.Run.{ret, and_then}
use rpc_pigeon.Grpc.Heap.{Error, Time, Client, Chan, Pool, Tenant, Heap, len}
use rpc_pigeon.Grpc.Pool.{
  client_close, get_conn_current, loose_mode, acquire, done, over_capacity, Ready, receive_pool,
  pool_size,
}
use rpc_pigeon.Grpc.Pool.Acquire.{
  InPool, Took, nothing, oldest, acquire_open, done_loose, loose_receives,
}
use rpc_pigeon.Grpc.Pool.Outcomes.{Room, over_capacity-Room, acquire-Took}
use rpc_pigeon.Grpc.Pool.Capacity.{get_conn_current_exact}
use rpc_pigeon.Grpc.System.{
  Sys, Step, make, admit, take, take_tenant, give_back, shut, destroy, mark, Reach, here, next,
  initial,
}
use rpc_pigeon.Grpc.System.Accounts.{at_pool, at_tenant, held}
use rpc_pigeon.Grpc.System.Invariant.{Inv, InTenant, initial-Inv}
use rpc_pigeon.Grpc.System.Keeps.{put_pool-Inv, take-Inv}
use rpc_pigeon.Grpc.System.Build.{build-Inv}
use rpc_pigeon.Grpc.System.Admit.{admit-Inv}
use rpc_pigeon.Grpc.System.Borrow.{borrow-Inv}
use rpc_pigeon.Grpc.System.Back.{Back-total, give_back-Inv}
use rpc_pigeon.Grpc.System.Shut.{Shut-Inv, destroy-Inv}

-- Each call keeps the accounts.
pub Step-Inv : {s t : Sys} → Step s t → Inv s → Inv t
Step-Inv (make {s} factor init size idle life timeout mode now r h known small e) v =
    build-Inv s init size idle life timeout mode now v factor r h known small e
Step-Inv (admit {s} asr tts config cap tenants r h e small run) v =
    admit-Inv s asr tts config cap tenants r h e small run v
Step-Inv (take {s} p ready now later r h e) v = take-Inv s p ready now later r.0 r.1 h e v
Step-Inv (take_tenant {s} t r h e) v = borrow-Inv s t r.0 r.1 h e v
Step-Inv (give_back {s} xs c ys now h among e) v = give_back-Inv s xs c ys now v among h e
Step-Inv (shut {s} p left h e) v = Shut-Inv s p left h e v
Step-Inv (destroy {s} c rest h among e) v = destroy-Inv s c rest h e v
Step-Inv (mark {s} p pool name addr status there) v =
    put_pool-Inv s p pool (record pool { name = name; pool_remote_addr = addr; status = status })
      s.lent s.doomed s.heap.dials s.heap.closed v there (v.pools p pool there)
      (λ q ne. omega arith) (λ t. omega arith) v.lent

pub Reach-Inv : {s t : Sys} → Inv s → Reach s t → Inv t
Reach-Inv v here = v
Reach-Inv v (next r step) = Step-Inv step (Reach-Inv v r)

-- After any calls, each taken as one step, whoever gives a lent client back succeeds: the goroutine
-- of `Client.Close` returns, and neither blocks on a full or nil channel nor panics.
pub return_never_blocks :
    {s : Sys}
    → Reach initial s
    → (xs : List Client) (c : Client) (ys : List Client) (now : Time) → s.lent ≡ xs ++ (c ∷ ys)
    → (h : Heap) × (client_close c now s.heap ≡ ret tt h)
return_never_blocks {s} r xs c ys now among =
    let (h, back) = Back-total s xs c ys now (Reach-Inv initial-Inv r) among in (h, back.0)

-- After any calls, an open pool states the capacity of its channel, its idle clients and the lent
-- ones that belong to it are together at most the capacity, and `GetConnCurrent` is the capacity
-- less the idle clients, so it counts at least the lent ones.
pub pool_accounts :
    {s : Sys} (p : ℕ) (pool : Pool) (ch : Chan)
    → Reach initial s
    → s.heap.pools p ≡ some pool
    → pool.clients ≡ some ch
    → (pool.capacity ≡ pos ch.cap)
      × (get_conn_current pool ≡ pos (ch.cap - length ch.buf))
      × (held (at_pool p) s.lent ≤ ch.cap - length ch.buf)
      × (length ch.buf + held (at_pool p) s.lent ≤ ch.cap)
pool_accounts {s} p pool ch r there e =
    let room =
      subst (Room (InPool p) _ pool.capacity) e ((Reach-Inv initial-Inv r).pools p pool there).1 in
    let size = ap len e in
    (
      room.0,
      get_conn_current_exact pool ch.cap room.0 room.1 (omega (arith, room.2, size))
          ∙ ap (λ n. pos (ch.cap - n)) size,
      omega (arith, room.2),
      room.2,
    )

-- After any calls, a tenant's channel is open, and its idle clients and the lent ones that belong to
-- it are together at most its capacity, which the tenant states.
pub tenant_accounts :
    {s : Sys} (t : ℕ) (tenant : Tenant)
    → Reach initial s
    → s.heap.tenants t ≡ some tenant
    → (ch : Chan) × (tenant.clients ≡ some ch)
      × (tenant.capacity ≡ pos ch.cap)
      × (length ch.buf + held (at_tenant t) s.lent ≤ ch.cap)
tenant_accounts {s} t tenant r there =
    let fits = (Reach-Inv initial-Inv r).tenants t tenant there in
    let (ch, e) = of_is_some tenant.clients fits.0 in
    let room = subst (Room (InTenant s.heap.next_pool t) _ tenant.capacity) e fits.1 in
    (ch, e, room.0, room.2)

-- After any calls, no open pool has more than its capacity in use.
pub Reach-fits :
    {s : Sys}
    → Reach initial s
    → (p : ℕ) (pool : Pool) → s.heap.pools p ≡ some pool
    → is_some pool.clients ≡ true
    → over_capacity pool ≡ false
Reach-fits {s} r p pool there usable =
    let (ch, e) = of_is_some pool.clients usable in
    over_capacity-Room s.heap p pool there _ ch e
      (subst (Room (InPool p) _ pool.capacity) e ((Reach-Inv initial-Inv r).pools p pool there).1)

-- After any calls, an `Acquire` in a pool of the loose mode whose context is done only receives from
-- the channel: it never dials, although the mode means to make new connections at the limit.
loose_never_dials :
    {s : Sys} (p : ℕ) (pool : Pool) (ch : Chan) (now later : Time)
    → Reach initial s
    → s.heap.pools p ≡ some pool
    → pool.clients ≡ some ch
    → pool.mode ≡ loose_mode
    → acquire (some p) done now later s.heap ≡ and_then (receive_pool p s.heap) (λ c. ret (c, none))
loose_never_dials {s} p pool ch now later r there e loose =
    let room =
      subst (Room (InPool p) _ pool.capacity) e ((Reach-Inv initial-Inv r).pools p pool there).1 in
    acquire_open s.heap p pool there ch done now later e
    ∙ done_loose s.heap p pool there later loose
    ∙ loose_receives s.heap p pool there later (over_capacity-Room s.heap p pool there _ ch e room)

Took-client :
    (h : Heap) (p : ℕ) (pool : Pool) (c : Client) (h' : Heap)
    → h.pools p ≡ some pool
    → Took h p pool (some c) h'
    → (is_some c.conn ≡ true)
      × (c.pool ≡ some p)
      × (c.tenant ≡ none)
      × ((after : Pool) × (h'.pools p ≡ some after) × (pool_size after + 1 ≡ pool_size pool))
Took-client h p pool c h' there (nothing absent same) = absurd (cc)
Took-client h p pool c h' there (oldest cap x rest dials closed e mine same) = (
  mine.0,
  mine.1,
  mine.2,
  (
    record pool { clients = some (record { cap = cap; buf = rest }) },
    rw same (ground arith),
    rw (ap len e) (omega arith),
  ),
)

-- After any calls, a client that `Acquire` returns has a connection and belongs to that pool alone,
-- and the pool's channel holds one entry less.
pub acquire_lends :
    {s : Sys} (p : ℕ) (pool : Pool) (ready : Ready) (now later : Time) (c : Client)
    (err : Option Error) (h : Heap)
    → Reach initial s
    → s.heap.pools p ≡ some pool
    → acquire (some p) ready now later s.heap ≡ ret (some c, err) h
    → (is_some c.conn ≡ true)
      × (c.pool ≡ some p)
      × (c.tenant ≡ none)
      × ((after : Pool) × (h.pools p ≡ some after) × (pool_size after + 1 ≡ pool_size pool))
acquire_lends {s} p pool ready now later c err h r there e =
    let fits = (Reach-Inv initial-Inv r).pools p pool there in
    Took-client s.heap p pool c h there
      (acquire-Took s.heap p pool there _ ready now later (some c) err h fits.1 fits.0 e)

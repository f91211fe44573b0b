-- ===== src/Grpc/System/Build.antt =====
-- `NewPool` keeps the accounts.
use rpc_pigeon.Common.{
  ℕ, zero, suc, ◌+◌, ◌≤◌, ◌<◌, ◌^◌, ℤ, pos, ◌≡◌, refl, sym, subst, ◌∙◌, List, [], ◌∷◌, ◌++◌, Option,
  none, some, inl, inr, Bool-cases, arith, length, length-append, All, All-snoc, All-mono,
}
use rpc_pigeon.Common.Run.{ret, ret-eq-ret}
use rpc_pigeon.Grpc.Heap.{Error, Time, Factory, Client, Chan, Pool, Heap}
use rpc_pigeon.Grpc.Pool.{new_pool, fresh_pool, fill, new_client, bad_sizes}
use rpc_pigeon.Grpc.Pool.Acquire.{KnownMode, InPool}
use rpc_pigeon.Grpc.Pool.Outcomes.{Room}
use rpc_pigeon.Grpc.Pool.Return.{filled}
use rpc_pigeon.Grpc.Pool.Fill.{after_round, fill-none, fill_up, fill_down, fill-Filled}
use rpc_pigeon.Grpc.Pool.Make.{
  allocated, rounds_of, rounds_of-le, new_pool_bad, new_pool_good, new_pool_nil,
}
use rpc_pigeon.Grpc.System.{Sys}
use rpc_pigeon.Grpc.System.Accounts.{at_pool, one_if, held, held-nil, held-cons}
use rpc_pigeon.Grpc.System.Invariant.{Live, Below, InTenant, PoolFits, Inv, at-update}
use rpc_pigeon.Grpc.System.Keeps.{put_pool-Inv, fewer-Inv}

fresh_one :
    (pools tenants : ℕ) (c : Client) → Live pools tenants c → one_if (at_pool pools c) + 0 ≡ 0
fresh_one pools tenants c live = ground arith

held-fresh :
    (pools tenants : ℕ) (lent : List Client)
    → All (Live pools tenants) lent
    → held (at_pool pools) lent ≡ 0
held-fresh pools tenants [] live = held-nil _
held-fresh pools tenants (c ∷ cs) live =
    rw (held-cons, held-fresh pools tenants cs live.1) (fresh_one pools tenants c live.0)

Below-suc : (n : ℕ) (o : Option ℕ) → Below n o → Below (suc n) o
Below-suc n none h = h
Below-suc n (some p) h = omega arith

Live-suc : (pools tenants : ℕ) (c : Client) → Live pools tenants c → Live (suc pools) tenants c
Live-suc pools tenants c live = (live.0, Below-suc pools c.pool live.1, live.2)

InTenant-suc : (pools t : ℕ) (c : Option Client) → InTenant pools t c → InTenant (suc pools) t c
InTenant-suc pools t none i = i
InTenant-suc pools t (some c) i = (i.0, Below-suc pools c.pool i.1, i.2)

Room-suc :
    (pools t n : ℕ) (capacity : ℤ) (o : Option Chan)
    → Room (InTenant pools t) n capacity o
    → Room (InTenant (suc pools) t) n capacity o
Room-suc pools t n capacity none room = tt
Room-suc pools t n capacity (some ch) room =
    (room.0, room.1, room.2, All-mono _ _ ch.buf (InTenant-suc pools t) room.3)

-- A pool is allocated with an empty channel.
alloc-Inv :
    (s : Sys) (pool : Pool) (cap : ℕ)
    → KnownMode pool.mode
    → pool.clients ≡ some (record { cap = cap; buf = [] })
    → pool.capacity ≡ pos cap
    → cap < 2 ^ 31
    → Inv s
    → Inv (record s { heap = allocated s.heap pool })
alloc-Inv s pool cap known e exact small v = record {
  pools =
      at-update (λ q a. PoolFits q s.lent a) s.heap.pools s.heap.next_pool pool
        (
          known,
          subst (Room _ _ pool.capacity) (sym e) (
            exact,
            small,
            omega (arith, held-fresh s.heap.next_pool s.heap.next_tenant s.lent v.lent),
            tt,
          ),
        )
        λ q a ne here. v.pools q a here;
  tenants = λ t a here.
      let old = v.tenants t a here in
      (old.0, Room-suc s.heap.next_pool t _ a.capacity a.clients old.1);
  pool_below =
      at-update (λ q a. q < suc s.heap.next_pool) s.heap.pools s.heap.next_pool pool (omega arith)
        λ q a ne here. omega (arith, v.pool_below q a here);
  pool_made = λ q lt. ground (arith, v.pool_made q);
  tenant_below = v.tenant_below;
  tenant_made = v.tenant_made;
  lent = All-mono _ _ s.lent (Live-suc s.heap.next_pool s.heap.next_tenant) v.lent;
}

-- One round of the loop of `initPool`.
round-Inv :
    (s : Sys) (p : ℕ) (pool : Pool) (ch : Chan) (now : Time) (rounds : ℕ)
    → s.heap.pools p ≡ some pool
    → pool.clients ≡ some ch
    → length ch.buf + held (at_pool p) s.lent + suc rounds ≤ ch.cap
    → Inv s
    → Inv (record s { heap = after_round s.heap p pool ch now })
round-Inv s p pool ch now rounds here e space v =
    let fits = v.pools p pool here in
    let room = subst (Room (InPool p) (held (at_pool p) s.lent) pool.capacity) e fits.1 in
    let made = some (new_client p now s.heap.dials) in
    put_pool-Inv s p pool (record pool { clients = filled ch (new_client p now s.heap.dials) })
      s.lent s.doomed (suc s.heap.dials) s.heap.closed v here
      (
        fits.0,
        (
          room.0,
          room.1,
          omega (arith, length-append ch.buf (made ∷ [])),
          All-snoc _ ch.buf made room.3 (refl, refl, refl),
        ),
      )
      (λ q ne. omega arith) (λ t. omega arith) v.lent

fill-Inv :
    (rounds : ℕ) (s : Sys) (p : ℕ) (pool : Pool) (ch : Chan) (now : Time) (err : Option Error)
    (h : Heap)
    → s.heap.pools p ≡ some pool
    → pool.clients ≡ some ch
    → length ch.buf + held (at_pool p) s.lent + rounds ≤ ch.cap
    → fill p rounds now s.heap ≡ ret err h
    → Inv s
    → Inv (record s { heap = h })
fill-Inv zero s p pool ch now err h here e space r v =
    subst (λ k. Inv (record s { heap = k })) (sym (ret-eq-ret (fill-none s.heap p now) r).1) v
fill-Inv (suc rounds) s p pool ch now err h here e space r v =
    elim (Bool-cases (pool.factor s.heap.dials)) [
      | inl up ↦
          let made = some (new_client p now s.heap.dials) in
          fill-Inv rounds (record s { heap = after_round s.heap p pool ch now }) p
            (record pool { clients = filled ch (new_client p now s.heap.dials) })
            (record ch { buf = ch.buf ++ made ∷ [] }) now err h (ground arith) refl
            (omega (arith, length-append ch.buf (made ∷ [])))
            (sym (fill_up s.heap p pool here rounds now ch e up (omega arith)) ∙ r)
            (round-Inv s p pool ch now rounds here e space v)
      | inr down ↦
          subst (λ k. Inv (record s { heap = k }))
            (sym (ret-eq-ret (fill_down s.heap p pool here rounds now down) r).1)
            (fewer-Inv s s.lent s.doomed (suc s.heap.dials) s.heap.closed v (λ f. omega arith)
              v.lent)
    ]

module _ (s : Sys) (init : ℤ) (size : ℕ) (idle life timeout mode : ℤ) (now : Time) (v : Inv s) where
  build-Inv' :
      (factor : Factory) (r : Option ℕ × Option Error) (h : Heap)
      → KnownMode mode
      → size < 2 ^ 31
      → new_pool (some factor) init (pos size) idle life timeout mode now s.heap ≡ ret r h
      → Inv (record s { heap = h })
  build-Inv' factor r h known small e = elim (Bool-cases (bad_sizes init (pos size) idle life)) [
    | inl bad ↦
        subst (λ k. Inv (record s { heap = k }))
          (sym
            (ret-eq-ret (new_pool_bad factor init (pos size) idle life timeout mode now s.heap bad)
              e).1)
          v
    | inr good ↦
        let pool = fresh_pool factor (pos size) idle life timeout mode in
        let s' = record s { heap = allocated s.heap pool } in
        let v' = alloc-Inv s pool size known refl refl small v in
        let space : 0 + held (at_pool s.heap.next_pool) s.lent + rounds_of init (pos size) ≤ size =
          omega (
            arith,
            held-fresh s.heap.next_pool s.heap.next_tenant s.lent v.lent,
            rounds_of-le init size,
          ) in
        let (err, h', r', _) =
          fill-Filled (rounds_of init (pos size)) (allocated s.heap pool) s.heap.next_pool pool
            (record { cap = size; buf = [] }) now (ground arith) refl (omega (arith, space)) in
        subst (λ k. Inv (record s { heap = k }))
          (sym
            (ret-eq-ret
              (new_pool_good factor init (pos size) idle life timeout mode now s.heap err h' good
                r')
              e).1)
          (fill-Inv (rounds_of init (pos size)) s' s.heap.next_pool pool
            (record { cap = size; buf = [] }) now err h' (ground arith) refl space r' v')
  ]

  pub build-Inv :
      (factor : Option Factory) (r : Option ℕ × Option Error) (h : Heap)
      → KnownMode mode
      → size < 2 ^ 31
      → new_pool factor init (pos size) idle life timeout mode now s.heap ≡ ret r h
      → Inv (record s { heap = h })
  build-Inv none r h known small e =
      subst (λ k. Inv (record s { heap = k }))
        (sym (ret-eq-ret (new_pool_nil init (pos size) idle life timeout mode now s.heap) e).1) v
  build-Inv (some factor) r h known small e = build-Inv' factor r h known small e

-- ===== src/Grpc/Pool/Acquire.antt =====
-- What `Acquire` (pool.go) does to the heap in the two modes that pool.go defines.
use rpc_pigeon.Common.{
  ℕ, suc, ℤ, ◌≡◌, refl, ◌⊎◌, inl, inr, List, [], ◌∷◌, true, false, Option, none, some, arith,
  Bool-cases, is_some, sym, ap, subst, if◌then◌else◌,
}
use rpc_pigeon.Common.Run.{ret, blocked, panic, and_then, ret-eq-ret}
use rpc_pigeon.Grpc.Heap.{
  Error, pool_init, pool_closed, Time, Client, Chan, Pool, Heap, update, Conn,
}
use rpc_pigeon.Grpc.Pool.{
  strict_mode, loose_mode, Ready, acquire, acquire_case, acquire_done, acquire_loose,
  acquire_received, receive_pool, over_capacity, reusable, new_client,
}

abbrev pub KnownMode : ℤ → Type 0
KnownMode mode = (mode ≡ strict_mode) ⊎ (mode ≡ loose_mode)

-- A client that belongs to pool `p` and has a connection.
abbrev pub InPool : ℕ → Option Client → Type 0
InPool p none = ⊥
InPool p (some c) = (is_some c.conn ≡ true) × (c.pool ≡ some p) × (c.tenant ≡ none)

abbrev pub NilOrInPool : ℕ → Option Client → Type 0
NilOrInPool p none = Unit
NilOrInPool p (some c) = InPool p (some c)

-- The heap after the oldest entry left the channel of `p`, and perhaps a connection was replaced.
abbrev pub after_take : Heap → ℕ → Pool → ℕ → List (Option Client) → ℕ → List Conn → Heap
after_take h p pool cap rest dials closed = record h {
  pools = update h.pools p (record pool { clients = some (record { cap = cap; buf = rest }) });
  dials = dials;
  closed = closed;
}

-- The outcomes of a call that returns: it took nothing, or the oldest entry of the channel.
pub data Took (h : Heap) (p : ℕ) (pool : Pool) (c : Option Client) (h' : Heap) : Type 0 where
  nothing : c ≡ none → h' ≡ h → Took h p pool c h'
  oldest :
      (cap : ℕ) (x : Option Client) (rest : List (Option Client)) (dials : ℕ) (closed : List Conn)
      → pool.clients ≡ some (record { cap = cap; buf = x ∷ rest })
      → NilOrInPool p c
      → h' ≡ after_take h p pool cap rest dials closed
      → Took h p pool c h'

-- What `createClient` returns for the dial with number `n`.
abbrev pub created : Pool → ℕ → Time → ℕ → Option Client × Option Error
created pool p now n =
    if pool.factor n then (some (new_client p now n), none) else (none, some pool_init)

abbrev pub shut_conn : Option Conn → List Conn → List Conn
shut_conn none closed = closed
shut_conn (some k) closed = k ∷ closed

module _ (h : Heap) (p : ℕ) (pool : Pool) (at_p : h.pools p ≡ some pool) where
  pub received_reused :
      (cap : ℕ) (x : Client) (rest : List (Option Client)) (now later : Time)
      → pool.clients ≡ some (record { cap = cap; buf = some x ∷ rest })
      → reusable pool x now ≡ true
      → acquire_received p pool now later h
        ≡ ret
            (some (record x { time_used = now }), none)
            (after_take h p pool cap rest h.dials h.closed)
  unfolding acquire_received
  received_reused cap x rest now later e ok = ground arith

  pub received_renewed :
      (cap : ℕ) (x : Client) (rest : List (Option Client)) (now later : Time)
      → pool.clients ≡ some (record { cap = cap; buf = some x ∷ rest })
      → reusable pool x now ≡ false
      → acquire_received p pool now later h
        ≡ ret
            (created pool p later h.dials)
            (after_take h p pool cap rest (suc h.dials) (shut_conn x.conn h.closed))
  unfolding acquire_received
  received_renewed cap x rest now later e stale = ground arith

  created-InPool : (n : ℕ) (now : Time) → NilOrInPool p (created pool p now n).0
  created-InPool n now = elim (Bool-cases (pool.factor n)) [
    | inl up ↦ rw up (refl, refl, refl)
    | inr down ↦ rw down tt
  ]

  pub received-Took :
      (cap : ℕ) (x : Client) (rest : List (Option Client)) (now later : Time)
      → pool.clients ≡ some (record { cap = cap; buf = some x ∷ rest })
      → InPool p (some x)
      → (c : Option Client) (err : Option Error) (h' : Heap)
      → acquire_received p pool now later h ≡ ret (c, err) h'
      → Took h p pool c h'
  received-Took cap x rest now later e i c err h' r = elim (Bool-cases (reusable pool x now)) [
    | inl ok ↦
        let (same, heap) = ret-eq-ret (received_reused cap x rest now later e ok) r in
        oldest cap (some x) rest h.dials h.closed e
          (subst (NilOrInPool p) (sym (ap (λ (q : Option Client × Option Error). q.0) same)) i) heap
    | inr stale ↦
        let (same, heap) = ret-eq-ret (received_renewed cap x rest now later e stale) r in
        oldest cap (some x) rest _ _ e
          (subst (NilOrInPool p) (sym (ap (λ (q : Option Client × Option Error). q.0) same))
            (created-InPool h.dials later))
          heap
  ]

  -- `c <- pool.clients` alone, as the loose mode does it.
  pub receive_pool_first :
      (cap : ℕ) (x : Option Client) (rest : List (Option Client))
      → pool.clients ≡ some (record { cap = cap; buf = x ∷ rest })
      → receive_pool p h ≡ ret x (after_take h p pool cap rest h.dials h.closed)
  unfolding receive_pool
  receive_pool_first cap x rest e = ground arith

  pub loose_first :
      (cap : ℕ) (x : Option Client) (rest : List (Option Client)) (later : Time)
      → pool.clients ≡ some (record { cap = cap; buf = x ∷ rest })
      → over_capacity pool ≡ false
      → acquire_loose p pool later h ≡ ret (x, none) (after_take h p pool cap rest h.dials h.closed)
  unfolding acquire_loose
  loose_first cap x rest later e fits = rw fits (ground arith)

  pub loose_receives :
      (later : Time)
      → over_capacity pool ≡ false
      → acquire_loose p pool later h ≡ and_then (receive_pool p h) (λ c. ret (c, none))
  unfolding acquire_loose
  loose_receives later fits = rw fits

  pub loose_empty :
      (cap : ℕ) (later : Time)
      → pool.clients ≡ some (record { cap = cap; buf = [] })
      → over_capacity pool ≡ false
      → acquire_loose p pool later h ≡ blocked h
  unfolding acquire_loose
  loose_empty cap later e fits = ground arith

  pub received_empty :
      (cap : ℕ) (now later : Time)
      → pool.clients ≡ some (record { cap = cap; buf = [] })
      → acquire_received p pool now later h ≡ blocked h
  unfolding acquire_received
  received_empty cap now later e = ground arith

  pub done_strict :
      (later : Time) → pool.mode ≡ strict_mode → acquire_done p pool later h ≡ ret (none, none) h
  unfolding acquire_done
  done_strict later m = rw m

  pub done_loose :
      (later : Time)
      → pool.mode ≡ loose_mode
      → acquire_done p pool later h ≡ acquire_loose p pool later h
  unfolding acquire_done
  done_loose later m = rw m

  pub acquire_open :
      (ch : Chan) (ready : Ready) (now later : Time)
      → pool.clients ≡ some ch
      → acquire (some p) ready now later h ≡ acquire_case ready p pool now later h
  unfolding acquire
  acquire_open ch ready now later e = ground arith

  pub acquire_shut :
      (ready : Ready) (now later : Time)
      → pool.clients ≡ none
      → acquire (some p) ready now later h ≡ ret (none, some pool_closed) h
  unfolding acquire
  acquire_shut ready now later e = ground arith

pub acquire_dangling :
    (h : Heap) (p : ℕ) (ready : Ready) (now later : Time)
    → h.pools p ≡ none
    → acquire (some p) ready now later h ≡ panic h
unfolding acquire
acquire_dangling h p ready now later e = ground arith

pub acquire_nil :
    (ready : Ready) (now later : Time) (h : Heap)
    → acquire none ready now later h ≡ ret (none, some pool_closed) h
unfolding acquire
acquire_nil ready now later h = refl

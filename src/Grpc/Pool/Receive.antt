-- ===== src/Grpc/Pool/Receive.antt =====
-- `<-pool.clients`: inversion of a receive that returns.
use rpc_pigeon.Common.{ℕ, ◌≡◌, List, [], ◌∷◌, Option, none, some, inl, inr, Option-cases, arith}
use rpc_pigeon.Common.Run.{ret, blocked, panic, ret-eq-ret}
use rpc_pigeon.Grpc.Heap.{Client, Pool, Heap}
use rpc_pigeon.Grpc.Pool.{receive_pool}
use rpc_pigeon.Grpc.Pool.Acquire.{after_take, receive_pool_first}

-- The oldest entry of the channel of `p` was received.
abbrev pub Received : Heap → ℕ → Option Client → Heap → Type 0
Received h p x h' =
    (pool : Pool) × (cap : ℕ) × (rest : List (Option Client)) × (h.pools p ≡ some pool)
    × (pool.clients ≡ some (record { cap = cap; buf = x ∷ rest }))
    × (h' ≡ after_take h p pool cap rest h.dials h.closed)

module _ (h : Heap) (p : ℕ) where
  receive_pool_dangling : h.pools p ≡ none → receive_pool p h ≡ panic h
  unfolding receive_pool
  receive_pool_dangling e = ground arith

  receive_pool_nil :
      (pool : Pool) → h.pools p ≡ some pool → pool.clients ≡ none → receive_pool p h ≡ blocked h
  unfolding receive_pool
  receive_pool_nil pool here e = ground arith

  receive_pool_empty :
      (pool : Pool) (cap : ℕ)
      → h.pools p ≡ some pool
      → pool.clients ≡ some (record { cap = cap; buf = [] })
      → receive_pool p h ≡ blocked h
  unfolding receive_pool
  receive_pool_empty pool cap here e = ground arith

  module _ (x : Option Client) (h' : Heap) (r : receive_pool p h ≡ ret x h') where
    Received-buf :
        (pool : Pool) (cap : ℕ) (buf : List (Option Client))
        → h.pools p ≡ some pool
        → pool.clients ≡ some (record { cap = cap; buf = buf })
        → Received h p x h'
    Received-buf pool cap [] here e = absurd (cc (receive_pool_empty pool cap here e))
    Received-buf pool cap (y ∷ rest) here e =
        let (same, heap) = ret-eq-ret (receive_pool_first h p pool here cap y rest e) r in
        (pool, cap, rest, here, rw (same) e, heap)

    Received-at : (pool : Pool) → h.pools p ≡ some pool → Received h p x h'
    Received-at pool here = elim (Option-cases pool.clients) [
      | inl shut ↦ absurd (cc (receive_pool_nil pool here shut))
      | inr (ch, e) ↦ Received-buf pool ch.cap ch.buf here e
    ]

    pub receive_pool-Received : Received h p x h'
    receive_pool-Received = elim (Option-cases (h.pools p)) [
      | inl gone ↦ absurd (cc (receive_pool_dangling gone))
      | inr (pool, here) ↦ Received-at pool here
    ]

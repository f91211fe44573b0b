-- ===== src/Grpc/Tenant/Scan.antt =====
-- `blanceAcquirePool` (tenant.go): its loop changes nothing, and the client comes from a pool.
use rpc_pigeon.Common.{ℕ, ◌≡◌, [], ◌∷◌, Option, none, some, inl, inr, Bool-cases, arith, ◌∙◌, ◌==◌}
use rpc_pigeon.Common.Dict.{Dict, get}
use rpc_pigeon.Common.Run.{ret, and_then-eq-ret}
use rpc_pigeon.Grpc.Heap.{Error, Client, Pool, Heap, load_pool}
use rpc_pigeon.Grpc.Pool.{receive_pool}
use rpc_pigeon.Grpc.Pool.Receive.{Received, receive_pool-Received}
use rpc_pigeon.Grpc.Tenant.Init.{Scan, scan, receive_at, blance_acquire_pool, start}

load_pool-heap : (p : ℕ) (h : Heap) (pool : Pool) (h' : Heap) → load_pool p h ≡ ret pool h' → h' ≡ h
unfolding load_pool
load_pool-heap p h pool h' r = ground arith

pub scan-heap :
    (pools : Dict ℕ) (s : Scan) (h : Heap) (s' : Scan) (h' : Heap)
    → scan pools s h ≡ ret s' h'
    → h' ≡ h
unfolding scan
scan-heap [] s h s' h' r = ground arith
scan-heap ((k, p) ∷ pools) s h s' h' r =
    let (pool, h₁, r₁, r₂) = and_then-eq-ret (load_pool p h) _ r in
    scan-heap pools _ h₁ s' h' r₂ ∙ load_pool-heap p h pool h₁ r₁

receive_at-Received :
    (o : Option ℕ) (h : Heap) (c : Option Client) (err : Option Error) (h' : Heap)
    → receive_at o h ≡ ret (c, err) h'
    → (p : ℕ) × Received h p c h'
receive_at-Received none h c err h' r = absurd (cc)
receive_at-Received (some p) h c err h' r =
    let (x, h₁, r₁, r₂) = and_then-eq-ret (receive_pool p h) _ r in
    (p, receive_pool-Received h p c h' (r₁ ∙ ground arith))

-- A client that `blanceAcquirePool` returns was the oldest in the channel of a pool.
pub blance_acquire_pool-Received :
    (pools : Dict ℕ) (h : Heap) (c : Option Client) (h' : Heap)
    → blance_acquire_pool pools h ≡ ret (c, none) h'
    → (p : ℕ) × Received h p c h'
unfolding blance_acquire_pool
blance_acquire_pool-Received pools h c h' r =
    let (s, h₁, r₁, r₂) = and_then-eq-ret (scan pools start h) _ r in
    elim (Bool-cases (s.sum_size == 0)) [
      | inl empty ↦ absurd (ground arith)
      | inr more ↦
          receive_at-Received (get pools s.index) h c none h'
            (rw (scan-heap pools start h s h₁ r₁, more) at r₂)
    ]

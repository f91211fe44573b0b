-- ===== src/Grpc/System/Shut.antt =====
-- `Pool.Close`, its goroutine, and `Tenant.Acquire` keep the accounts.
use rpc_pigeon.Common.{
  ℕ, ◌≡◌, refl, sym, subst, List, [], ◌∷◌, ◌++◌, false, Option, none, some, inl, inr, Option-cases,
  arith,
}
use rpc_pigeon.Common.Run.{ret, panic, ret-eq-ret}
use rpc_pigeon.Grpc.Heap.{Client, Chan, Pool, Heap, update, Conn}
use rpc_pigeon.Grpc.Pool.{close, drain}
use rpc_pigeon.Grpc.Pool.Acquire.{shut_conn}
use rpc_pigeon.Grpc.System.{Sys}
use rpc_pigeon.Grpc.System.Invariant.{Inv}
use rpc_pigeon.Grpc.System.Keeps.{put_pool-Inv, fewer-Inv}

close_shut :
    (h : Heap) (p : ℕ) (pool : Pool)
    → h.pools p ≡ some pool
    → pool.clients ≡ none
    → close p h ≡ ret [] h
unfolding close
close_shut h p pool here e = ground arith

close_open :
    (h : Heap) (p : ℕ) (pool : Pool) (ch : Chan)
    → h.pools p ≡ some pool
    → pool.clients ≡ some ch
    → close p h
      ≡ ret ch.buf
          (record h { pools = update h.pools p (record pool { clients = none; status = false }) })
unfolding close
close_open h p pool ch here e = ground arith

close_dangling : (h : Heap) (p : ℕ) → h.pools p ≡ none → close p h ≡ panic h
unfolding close
close_dangling h p e = ground arith

drain_one :
    (h : Heap) (c : Option Client)
    → (closed : List Conn) × (drain (c ∷ []) h ≡ ret tt (record h { closed = closed }))
unfolding drain
drain_one h none = (h.closed, refl)
drain_one h (some c) = (shut_conn c.conn h.closed, ground arith)

pub destroy-Inv :
    (s : Sys) (c : Option Client) (rest : List (Option Client)) (h : Heap)
    → drain (c ∷ []) s.heap ≡ ret tt h
    → Inv s
    → Inv (record s { heap = h; doomed = rest })
destroy-Inv s c rest h r v =
    let (closed, r') = drain_one s.heap c in
    subst (λ k. Inv (record s { heap = k; doomed = rest })) (sym (ret-eq-ret r' r).1)
      (fewer-Inv s s.lent rest s.heap.dials closed v (λ f. omega arith) v.lent)

module _ (s : Sys) (p : ℕ) (left : List (Option Client)) (h : Heap)
    (r : close p s.heap ≡ ret left h) (v : Inv s) where
  abbrev Shut : Heap → Type 0
  Shut k = Inv (record s { heap = k; doomed = left ++ s.doomed })

  Shut-at : (pool : Pool) → s.heap.pools p ≡ some pool → Shut h
  Shut-at pool here = elim (Option-cases pool.clients) [
    | inl e ↦
        subst Shut (sym (ret-eq-ret (close_shut s.heap p pool here e) r).1)
          (fewer-Inv s s.lent _ s.heap.dials s.heap.closed v (λ f. omega arith) v.lent)
    | inr (ch, e) ↦ subst Shut (sym (ret-eq-ret (close_open s.heap p pool ch here e) r).1) (
        put_pool-Inv s p pool (record pool { clients = none; status = false }) s.lent _ s.heap.dials
          s.heap.closed v here ((v.pools p pool here).0, tt) (λ q ne. omega arith)
          (λ t. omega arith) v.lent)
  ]

  pub Shut-Inv : Shut h
  Shut-Inv = elim (Option-cases (s.heap.pools p)) [
    | inl gone ↦ absurd (cc (close_dangling s.heap p gone))
    | inr (pool, here) ↦ Shut-at pool here
  ]

-- ===== src/Grpc/Pool/Make.antt =====
-- What `NewPool` (pool.go) returns: it always returns, and a pool that it returns is as full as asked.
use rpc_pigeon.Common.{
  ℕ, suc, ◌≤◌, ◌≡◌, refl, true, false, Option, none, some, arith, ℤ, pos, pos_part, ltb_ℤ,
  if◌then◌else◌,
}
use rpc_pigeon.Common.Run.{ret}
use rpc_pigeon.Grpc.Heap.{Error, pool_init, Time, Factory, Pool, Heap, update}
use rpc_pigeon.Grpc.Pool.{new_pool, fresh_pool, bad_sizes, fill}

-- The clamp of `init` to `size`.
abbrev pub rounds_of : (init size : ℤ) → ℕ
rounds_of init size = pos_part (if ltb_ℤ size init then size else init)

pub rounds_of-le : (init : ℤ) (size : ℕ) → rounds_of init (pos size) ≤ size
rounds_of-le init size = ground arith

abbrev pub allocated : Heap → Pool → Heap
allocated h pool = record h { pools = update h.pools h.next_pool pool; next_pool = suc h.next_pool }

abbrev pub made_pool : ℕ → Option Error → Option ℕ × Option Error
made_pool p none = (some p, none)
made_pool p (some e) = (none, some e)

pub new_pool_nil :
    (init size idle life timeout mode : ℤ) (now : Time) (h : Heap)
    → new_pool none init size idle life timeout mode now h ≡ ret (none, some pool_init) h
unfolding new_pool
new_pool_nil init size idle life timeout mode now h = refl

module _ (factor : Factory) (init size idle life timeout mode : ℤ) (now : Time) (h : Heap) where
  pub new_pool_bad :
      bad_sizes init size idle life ≡ true
      → new_pool (some factor) init size idle life timeout mode now h ≡ ret (none, some pool_init) h
  unfolding new_pool
  new_pool_bad bad = rw bad

  pub new_pool_good :
      (err : Option Error) (h' : Heap)
      → bad_sizes init size idle life ≡ false
      → fill h.next_pool
          (rounds_of init size)
          now
          (allocated h (fresh_pool factor size idle life timeout mode))
        ≡ ret err h'
      → new_pool (some factor) init size idle life timeout mode now h
        ≡ ret (made_pool h.next_pool err) h'
  unfolding new_pool
  new_pool_good none h' good e = rw (good, e)
  new_pool_good (some x) h' good e = rw (good, e)

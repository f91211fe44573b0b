-- ===== src/Grpc/Pool/Capacity.antt =====
-- `GetConnCurrent` and the test of the loose mode in `Acquire` (pool.go).
use rpc_pigeon.Common.{
  ℕ, ◌-◌, ◌≤◌, ◌<◌, ◌^◌, pos, ◌-ℤ◌, int32, int32-pos, ◌≡◌, false, arith, ap, ◌∙◌,
}
use rpc_pigeon.Grpc.Heap.{Pool}
use rpc_pigeon.Grpc.Pool.{pool_size, get_conn_current, over_capacity}

pos-sub : (a b : ℕ) → b ≤ a → pos a -ℤ pos b ≡ pos (a - b)
pos-sub a b h = ground arith

in_use : (cap n : ℕ) → cap < 2 ^ 31 → n ≤ cap → int32 (pos cap -ℤ int32 (pos n)) ≡ pos (cap - n)
in_use cap n small fits =
    ap (λ z. int32 (pos cap -ℤ z)) (int32-pos n (omega arith))
    ∙ ap int32 (pos-sub cap n fits)
    ∙ int32-pos (cap - n) (omega arith)

-- A pool whose capacity is an `int32`, with at most that many idle clients: the connections in use
-- are the capacity less the idle ones, and no conversion wraps.
pub get_conn_current_exact :
    (pool : Pool) (cap : ℕ)
    → pool.capacity ≡ pos cap
    → cap < 2 ^ 31
    → pool_size pool ≤ cap
    → get_conn_current pool ≡ pos (cap - pool_size pool)
unfolding get_conn_current
get_conn_current_exact pool cap e small fits = rw e (in_use cap (pool_size pool) small fits)

pub over_capacity-false :
    (pool : Pool) (cap : ℕ)
    → pool.capacity ≡ pos cap
    → cap < 2 ^ 31
    → pool_size pool ≤ cap
    → over_capacity pool ≡ false
unfolding over_capacity
over_capacity-false pool cap e small fits =
    rw (get_conn_current_exact pool cap e small fits, e) (ground arith)

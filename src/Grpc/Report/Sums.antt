-- ===== src/Grpc/Report/Sums.antt =====
-- The numbers that the gateway reports add up.
use rpc_pigeon.Common.{ℕ, ◌+◌, ◌≡◌, pos, some}
use rpc_pigeon.Common.Dict.{Dict}
use rpc_pigeon.Grpc.Heap.{Pool, Chan, Heap}
use rpc_pigeon.Grpc.Pool.{pool_size}
use rpc_pigeon.Grpc.Report.{EngineData}

-- The pool of an entry is open.
abbrev pub Usable : Heap → ℕ → Type 0
Usable h p = (pool : Pool) × (ch : Chan) × (h.pools p ≡ some pool) × (pool.clients ≡ some ch)

-- The connections in use and the idle ones are together the size.
abbrev pub AddsUp : EngineData → Type 0
AddsUp d =
    (used : ℕ) × (d.conn_current ≡ pos used) × (d.pool_size ≡ pos (used + d.pool_current_size))

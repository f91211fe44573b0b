-- ===== src/Grpc/Health.antt =====
-- pkg/plugins/pool/grpc/grpc.go: the tasks `checkAsrGRPCSererHealthTask` and
-- `checkTtsGRPCSererHealthTask`. Whether a server answers is an argument: `probe addr i` is the
-- answer of the attempt `i` at the address in the round. Both tasks have the same code.
pub mod Round
use rpc_pigeon.Common.{
  ℕ, zero, suc, List, [], ◌∷◌, Bool, true, false, ◌||◌, not, Option, none, some, if◌then◌else◌,
}
use rpc_pigeon.Common.Text.{Text}
use rpc_pigeon.Common.Dict.{Dict}
use rpc_pigeon.Common.Run.{Run, ret, ◌>>=◌, ◌>>◌}
use rpc_pigeon.Grpc.Heap.{Exec, pure, load_pool, store_pool}
use rpc_pigeon.Grpc.Gateway.{Engine, Gate, pools_of}

-- The inner loop: up to `rounds` attempts more, from the attempt `i` on, and its last result.
unfoldable pub retry : (ℕ → Bool) → (rounds i : ℕ) → Bool
retry probe zero i = false
retry probe (suc rounds) i = let rest = retry probe rounds (suc i) in if probe i then true else rest

-- `checkStatus` after the inner loop.
unfoldable pub check_status : (ℕ → Bool) → Bool
unfolding retry
check_status probe = if probe 0 then true else retry probe 5 1

-- The body of the loop over the pools, with `failedPoolStatus`.
unfoldable pub check_pool : (Text → ℕ → Bool) → ℕ → Exec Bool
unfolding load_pool store_pool check_status
check_pool probe p = do
  pool ← load_pool p
  let up = check_status (probe pool.pool_remote_addr)
  store_pool p (record pool { status = up })
  pure (not up)

unfoldable pub check_pools : (Text → ℕ → Bool) → Dict ℕ → Bool → Exec Bool
unfolding check_pool
check_pools probe [] failed = pure failed
check_pools probe ((k, p) ∷ pools) failed = do
  failed' ← check_pool probe p
  check_pools probe pools failed'

-- A round of the task of an engine, up to its sleep.
unfoldable pub check_grpc_serer_health : (Text → ℕ → Bool) → Engine → Gate → Exec Gate
unfolding check_pools
check_grpc_serer_health probe e g = do
  failed ← check_pools probe (pools_of e g) g.failed_pool_status
  pure (record g { failed_pool_status = failed })

-- ===== src/Grpc/Balance.antt =====
-- pkg/plugins/pool/grpc/options.go: `balancePool` and `balanceTenantPool`. `rand.Intn` is the
-- argument `intn`. The maps are lists of entries in the order in which the loop visits them.
pub mod Loop
pub mod Choice
use rpc_pigeon.Common.{
  ℕ, zero, suc, ◌+◌, List, [], ◌∷◌, ◌++◌, Option, none, some, ltb, leb, ◌==◌, if◌then◌else◌,
  get_elem?, length,
}
use rpc_pigeon.Common.Text.{Text}
use rpc_pigeon.Common.Dict.{Dict, get}
use rpc_pigeon.Common.Run.{Run, ret, panic, ◌>>=◌}
use rpc_pigeon.Grpc.Heap.{Heap, Exec, pure, load_pool, load_tenant, Pool}
use rpc_pigeon.Grpc.Pool.{pool_size}
use rpc_pigeon.Grpc.Tenant.{tenant_size}

-- The variables of the loop of `balancePool`.
pub record Scan : Type 0 where
  pub sum_size : ℕ
  pub size : ℕ
  pub index : Text
  pub index_rand : List Text

-- The body of the loop: a pool that is down is passed over.
unfoldable pub visit : Text → Pool → Scan → Scan
visit k pool s =
    if pool.status
    then record {
      sum_size = s.sum_size + pool_size pool;
      size = if leb s.size (pool_size pool) then pool_size pool else s.size;
      index = if leb s.size (pool_size pool) then k else s.index;
      index_rand = s.index_rand ++ k ∷ [];
    }
    else s

unfoldable pub scan : Dict ℕ → Scan → Exec Scan
unfolding load_pool
scan [] s = pure s
scan ((k, p) ∷ pools) s = do pool ← load_pool p; scan pools (visit k pool s)

abbrev pub start : Scan
start = record { sum_size = 0; size = 0; index = []; index_rand = [] }

-- `indexRand[rand.Intn(len(indexRand))]`: `Intn` panics at 0, and an index out of range does too.
abbrev pub random_of : (ℕ → ℕ) → List Text → Exec Text
random_of intn [] h = panic h
random_of intn (k ∷ ks) h = elim (get_elem? (k ∷ ks) (intn (length (k ∷ ks)))) [
  | none ↦ panic h
  | some j ↦ ret j h
]

-- The least loaded pool, or a random one if none has an idle connection.
unfoldable pub chosen : (ℕ → ℕ) → Scan → Exec Text
chosen intn s = if s.sum_size == 0 then random_of intn s.index_rand else pure s.index

-- `balancePool`: a pointer to a pool, or nil.
unfoldable pub balance_pool : (ℕ → ℕ) → Dict ℕ → Exec (Option ℕ)
unfolding scan visit chosen
balance_pool intn [] = pure none
balance_pool intn ((k, p) ∷ []) = pure (some p)
balance_pool intn ((k, p) ∷ q ∷ pools) = do
  s ← scan ((k, p) ∷ q ∷ pools) start
  index ← chosen intn s
  pure (get ((k, p) ∷ q ∷ pools) index)

-- The variables of the loop of `balanceTenantPool`, and the number of the round.
pub record TenantScan : Type 0 where
  pub index : ℕ
  pub sum_size : ℕ
  pub size : ℕ

unfoldable pub scan_tenants : List ℕ → ℕ → TenantScan → Exec TenantScan
unfolding load_tenant
scan_tenants [] k s = pure s
scan_tenants (t ∷ ts) k s = do
  tenant ← load_tenant t
  scan_tenants ts (suc k) (record {
    index = if ltb s.size (tenant_size tenant) then k else s.index;
    sum_size = s.sum_size + tenant_size tenant;
    size = if ltb s.size (tenant_size tenant) then tenant_size tenant else s.size;
  })

-- `pools[i]`
abbrev pub at_index : List ℕ → ℕ → Exec ℕ
at_index ts i h = elim (get_elem? ts i) [ none ↦ panic h | some t ↦ ret t h ]

abbrev pub random_index : (ℕ → ℕ) → ℕ → Exec ℕ
random_index intn zero h = panic h
random_index intn (suc n) h = ret (intn (suc n)) h

-- `balanceTenantPool`
unfoldable pub balance_tenant_pool : (ℕ → ℕ) → List ℕ → Exec ℕ
unfolding scan_tenants
balance_tenant_pool intn (t ∷ []) = pure t
balance_tenant_pool intn ts = do
  s ← scan_tenants ts 0 (record { index = 0; sum_size = 0; size = 0 })
  i ← (if s.sum_size == 0 then random_index intn (length ts) else pure s.index)
  at_index ts i

-- ===== src/Grpc/Tenant/Init.antt =====
-- pkg/plugins/pool/grpc/tenant.go: `blanceAcquirePool` and `initTenantPool`, which fills each
-- tenant's channel with clients of the engine's pools. The tenants are read from TenantConfig.yaml
-- by viper; their entries are an argument here.
use rpc_pigeon.Common.{
  ℕ, zero, suc, ◌+◌, ℤ, pos, negsuc, int32, pos_part, List, [], ◌∷◌, Option, none, some, ltb, ◌==◌,
  if◌then◌else◌, length,
}
use rpc_pigeon.Common.Text.{Text, codes, eq_text, to_lower}
use rpc_pigeon.Common.Dict.{Dict, get, put}
use rpc_pigeon.Common.Run.{ret, panic, ◌>>=◌, ◌>>◌}
use rpc_pigeon.Grpc.Heap.{Error, pool_empty, Client, Tenant, Exec, pure, update, load_pool}
use rpc_pigeon.Grpc.Pool.{pool_size, receive_pool, send_tenant}

-- The variables of the loop of `blanceAcquirePool`.
pub record Scan : Type 0 where
  pub sum_size : ℕ
  pub size : ℕ
  pub index : Text

abbrev pub look : Text → ℕ → Scan → Scan
look k p_size s =
    if ltb s.size p_size
    then record { sum_size = s.sum_size + p_size; size = p_size; index = k }
    else record s { sum_size = s.sum_size + p_size }

unfoldable pub scan : Dict ℕ → Scan → Exec Scan
unfolding load_pool
scan [] s = pure s
scan ((k, p) ∷ pools) s = do pool ← load_pool p; scan pools (look k (pool_size pool) s)

abbrev pub start : Scan
start = record { sum_size = 0; size = 0; index = [] }

abbrev pub receive_at : Option ℕ → Exec (Option Client × Option Error)
receive_at none = panic
receive_at (some p) = do c ← receive_pool p; pure (c, none)

-- `blanceAcquirePool`, over the entries in the order in which its loop visits them.
unfoldable pub blance_acquire_pool : Dict ℕ → Exec (Option Client × Option Error)
unfolding scan receive_pool
blance_acquire_pool pools = do
  s ← scan pools start
  if s.sum_size == 0 then pure (none, some pool_empty) else receive_at (get pools s.index)

-- `client.tenant = tenant` and the send after it.
abbrev pub adopt : ℕ → Option Client × Option Error → Exec (Unit {0})
adopt t (c, some err) = panic
adopt t (none, none) = panic
adopt t (some client, none) = send_tenant t (some (record client { tenant = some t }))

-- The loop over the tenant's clients. Each of its rounds ranges over the map anew, so the order of
-- the entries is given for each.
unfoldable pub fill_tenant : (ℕ → Dict ℕ) → ℕ → ℕ → Exec (Unit {0})
unfolding blance_acquire_pool send_tenant
fill_tenant pools t zero = pure tt
fill_tenant pools t (suc rounds) = do
  got ← blance_acquire_pool (pools rounds)
  adopt t got
  fill_tenant pools t rounds

pub record TenantConfig : Type 0 where
  pub engine_pool_size : ℤ
  pub engine_name : Text
  pub scene_code : Text
  pub tenant_name : Text

abbrev pub fresh_tenant : TenantConfig → ℕ → Tenant
fresh_tenant config cap = record {
  id = config.scene_code;
  clients = some (record { cap = cap; buf = [] });
  conn_current = pos 0;
  capacity = int32 config.engine_pool_size;
  size = int32 config.engine_pool_size;
  mode = pos 0;
  pool_remote_addr = [];
  tenant_name = config.tenant_name;
  engine = to_lower config.engine_name;
}

unfoldable pub alloc_tenant : Tenant → Exec ℕ
alloc_tenant tenant h =
    ret h.next_tenant (record h {
      tenants = update h.tenants h.next_tenant tenant;
      next_tenant = suc h.next_tenant;
    })

-- `&Tenant{…}`, whose `make(chan *Client, tenantPoolSize)` panics on a negative size.
unfoldable pub new_tenant : TenantConfig → Exec ℕ
unfolding alloc_tenant
new_tenant config h = elim config.engine_pool_size [
  | negsuc n ↦ panic h
  | pos cap ↦ alloc_tenant (fresh_tenant config cap) h
]

-- The result: the tenants of each engine by scene code.
pub record Tenants : Type 0 where
  pub asr : Dict ℕ
  pub tts : Dict ℕ

-- The body of the loop of `initTenantPool`.
unfoldable pub init_tenant :
    (asr_pools tts_pools : ℕ → Dict ℕ) → TenantConfig → Tenants → Exec Tenants
unfolding new_tenant fill_tenant
init_tenant asr_pools tts_pools config tenants = do
  t ← new_tenant config
  let rounds = pos_part config.engine_pool_size
  let engine = to_lower config.engine_name
  if eq_text engine (codes "asr")
      then (do
        fill_tenant asr_pools t rounds
        pure (record tenants { asr = put tenants.asr config.scene_code t }))
      else if eq_text engine (codes "tts")
      then (do
        fill_tenant tts_pools t rounds
        pure (record tenants { tts = put tenants.tts config.scene_code t }))
      else pure tenants

-- `initTenantPool`. The orders of the maps are given for each tenant and round.
unfoldable pub init_tenant_pool :
    (asr_pools tts_pools : ℕ → ℕ → Dict ℕ) → List TenantConfig → Tenants → Exec Tenants
unfolding init_tenant
init_tenant_pool asr_pools tts_pools [] tenants = pure tenants
init_tenant_pool asr_pools tts_pools (config ∷ rest) tenants = do
  tenants' ← init_tenant (asr_pools (length rest)) (tts_pools (length rest)) config tenants
  init_tenant_pool asr_pools tts_pools rest tenants'

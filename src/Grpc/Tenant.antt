-- ===== src/Grpc/Tenant.antt =====
-- pkg/plugins/pool/grpc/tenant.go: the methods of `Tenant`. The construction
-- of all tenants from the configuration is in `Tenant/Init.antt`.
pub mod Init
pub mod Scan
use rpc_pigeon.Common.{
  ℕ, ℤ, pos, ◌-ℤ◌, int32, Bool, true, false, Option, none, some, if◌then◌else◌, is_some,
}
use rpc_pigeon.Common.Run.{◌>>=◌, ◌>>◌}
use rpc_pigeon.Grpc.Heap.{
  Error, pool_closed, Client, Tenant, Exec, pure, load_tenant, store_tenant, len, receive,
}

-- `Size` and `GetConnCurrent`
abbrev pub tenant_size : Tenant → ℕ
tenant_size tenant = len tenant.clients

unfoldable pub get_conn_current : Tenant → ℤ
get_conn_current tenant = int32 (tenant.capacity -ℤ int32 (pos (tenant_size tenant)))

-- `IsClose`
unfoldable pub is_close : Option ℕ → Exec Bool
unfolding load_tenant
is_close none = pure true
is_close (some t) = do tenant ← load_tenant t; pure (if is_some tenant.clients then false else true)

unfoldable pub receive_tenant : ℕ → Exec (Option Client)
unfolding load_tenant receive store_tenant
receive_tenant t = do
  tenant ← load_tenant t
  (c, ch) ← receive tenant.clients
  store_tenant t (record tenant { clients = some ch })
  pure c

-- `Acquire`
unfoldable pub acquire : Option ℕ → Exec (Option Client × Option Error)
unfolding is_close receive_tenant
acquire none = pure (none, some pool_closed)
acquire (some t) = do
  shut ← is_close (some t)
  if shut then pure (none, some pool_closed) else do c ← receive_tenant t; pure (c, none)

-- ===== src/Examples/Pools.antt =====
-- One pool with one connection, which is taken and given back; a tenant with a connection of it.
use rpc_pigeon.Common.{
  ℕ, ◌≡◌, refl, inl, inr, ℤ, pos, [], ◌∷◌, true, none, some, arith, ◌-◌, ◌≤◌, ◌+◌, length, is_some,
  int32,
}
use rpc_pigeon.Common.Text.{codes, to_lower}
use rpc_pigeon.Common.Dict.{Dict, get, put}
use rpc_pigeon.Common.Run.{ret}
use rpc_pigeon.Grpc.Heap.{
  Client, Chan, Pool, Tenant, Heap, update, load_pool, store_pool, send, receive, load_tenant,
  store_tenant,
}
use rpc_pigeon.Grpc.Pool.{
  strict_mode, loose_mode, received, new_client, new_pool, alloc_pool, fill, create_client, dial,
  send_pool, receive_pool, reusable, acquire_received, client_close, pool_size, get_conn_current,
  fresh_pool, acquire, send_tenant,
}
use rpc_pigeon.Grpc.Tenant.Init.{
  TenantConfig, init_tenant, new_tenant, alloc_tenant, fill_tenant, blance_acquire_pool, scan,
}
use rpc_pigeon.Grpc.System.{Sys, make, take, admit, Reach, here, next, initial}
use rpc_pigeon.Grpc.System.Accounts.{at_pool, at_tenant, held}
use rpc_pigeon.Grpc.System.Safety.{
  return_never_blocks, pool_accounts, tenant_accounts, acquire_lends,
}

-- A pool of one connection, in either mode.
abbrev pub made : ℤ → Pool
made mode = fresh_pool (λ n. true) (pos 1) (pos 10) (pos 60) (pos 10) mode

abbrev pub full : ℤ → Pool
full mode = record (made mode) {
  clients = some (record { cap = 1; buf = some (new_client 0 (pos 0) 0) ∷ [] });
}

abbrev pub taken : ℤ → Pool
taken mode = record (made mode) { clients = some (record { cap = 1; buf = [] }) }

abbrev pub after_make : ℤ → Sys
after_make mode = record initial {
  heap = record initial.heap {
    pools = update (update (λ p. none) 0 (made mode)) 0 (full mode);
    next_pool = 1;
    dials = 1;
  };
}

pub Reach-make : Reach initial (after_make strict_mode)
unfolding new_pool alloc_pool fill create_client load_pool dial send_pool send store_pool
Reach-make = next here (
    make (some (λ n. true)) (pos 1) 1 (pos 10) (pos 60) (pos 10) strict_mode (pos 0) (some 0, none)
      _ (inl refl) (omega arith) refl)

pub Reach-loose : Reach initial (after_make loose_mode)
unfolding new_pool alloc_pool fill create_client load_pool dial send_pool send store_pool
Reach-loose = next here (
    make (some (λ n. true)) (pos 1) 1 (pos 10) (pos 60) (pos 10) loose_mode (pos 0) (some 0, none) _
      (inr refl) (omega arith) refl)

-- The client in the hands of its caller, at time 1.
abbrev pub client : Client
client = record (new_client 0 (pos 0) 0) { time_used = pos 1 }

abbrev pub after_take : Sys
after_take = record initial {
  heap = record initial.heap {
    pools = update (after_make strict_mode).heap.pools 0 (taken strict_mode);
    next_pool = 1;
    dials = 1;
  };
  lent = client ∷ [];
}

acquires :
    acquire (some 0) received (pos 1) (pos 2) (after_make strict_mode).heap
    ≡ ret (some client, none) after_take.heap
unfolding acquire acquire_received receive_pool load_pool receive store_pool reusable
acquires = refl

pub Reach-take : Reach initial after_take
Reach-take =
    next Reach-make (take 0 received (pos 1) (pos 2) (some client, none) after_take.heap acquires)

return_never_blocks_example : (h : Heap) × (client_close client (pos 5) after_take.heap ≡ ret tt h)
return_never_blocks_example = return_never_blocks Reach-take [] client [] (pos 5) refl

pool_accounts_example :
    ((taken strict_mode).capacity ≡ pos 1)
    × (get_conn_current (taken strict_mode) ≡ pos (1 - 0))
    × (held (at_pool 0) (client ∷ []) ≤ 1 - 0)
    × (0 + held (at_pool 0) (client ∷ []) ≤ 1)
pool_accounts_example =
    pool_accounts 0 (taken strict_mode) (record { cap = 1; buf = [] }) Reach-take refl refl

acquire_lends_example :
    (is_some client.conn ≡ true)
    × (client.pool ≡ some 0)
    × (client.tenant ≡ none)
    × ((after : Pool) × (after_take.heap.pools 0 ≡ some after)
        × (pool_size after + 1 ≡ pool_size (full strict_mode)))
acquire_lends_example =
    acquire_lends 0 (full strict_mode) received (pos 1) (pos 2) client none after_take.heap
      Reach-make refl acquires

abbrev config : TenantConfig
config = record {
  engine_pool_size = pos 1;
  engine_name = codes "ASR";
  scene_code = codes "10";
  tenant_name = codes "a";
}

abbrev pub adopted : Client
adopted = record (new_client 0 (pos 0) 0) { tenant = some 0 }

abbrev pub tenant : Tenant
tenant = record {
  id = codes "10";
  clients = some (record { cap = 1; buf = some adopted ∷ [] });
  conn_current = pos 0;
  capacity = pos 1;
  size = pos 1;
  mode = pos 0;
  pool_remote_addr = [];
  tenant_name = codes "a";
  engine = codes "asr";
}

-- The tenant has the pool's only connection.
abbrev pub after_admit : Sys
after_admit = record initial {
  heap = record initial.heap {
    pools = update (after_make strict_mode).heap.pools 0 (taken strict_mode);
    next_pool = 1;
    tenants =
        update
          (update (λ t. none) 0 (record tenant { clients = some (record { cap = 1; buf = [] }) })) 0
          tenant;
    next_tenant = 1;
    dials = 1;
  };
}

abbrev pub asr_only : Dict ℕ
asr_only = (codes "x", 0) ∷ []

admits :
    init_tenant
      (λ i. asr_only)
      (λ i. [])
      config
      (record { asr = []; tts = [] })
      (after_make strict_mode).heap
    ≡ ret (record { asr = (codes "10", 0) ∷ []; tts = [] }) after_admit.heap
unfolding init_tenant new_tenant alloc_tenant fill_tenant blance_acquire_pool scan load_pool
    receive_pool receive store_pool send_tenant load_tenant send store_tenant get put int32 to_lower
admits = refl

pub Reach-admit : Reach initial after_admit
Reach-admit = next Reach-make (
    admit (λ i. asr_only) (λ i. []) config 1 (record { asr = []; tts = [] })
      (record { asr = (codes "10", 0) ∷ []; tts = [] }) after_admit.heap refl (omega arith) admits)

tenant_accounts_example :
    (ch : Chan) × (tenant.clients ≡ some ch)
    × (tenant.capacity ≡ pos ch.cap)
    × (length ch.buf + held (at_tenant 0) after_admit.lent ≤ ch.cap)
tenant_accounts_example = tenant_accounts 0 tenant Reach-admit refl

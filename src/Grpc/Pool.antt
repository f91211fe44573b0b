-- ===== src/Grpc/Pool.antt =====
-- pkg/plugins/pool/grpc/pool.go: the connection pool. `time.Now()` is an argument of each call.
pub mod Acquire
pub mod Outcomes
pub mod Return
pub mod Fill
pub mod Make
pub mod Up
pub mod Receive
pub mod Clean
pub mod Capacity
use rpc_pigeon.Common.{
  ℕ, zero, suc, ℤ, pos, ◌-ℤ◌, ◌+ℤ◌, ◌*ℤ◌, ltb_ℤ, leb_ℤ, eqb_ℤ, int32, pos_part, List, [], ◌∷◌, Bool,
  true, false, ◌&&◌, ◌||◌, Option, none, some, if◌then◌else◌, is_some,
}
use rpc_pigeon.Common.Run.{ret, panic, ◌>>=◌, ◌>>◌}
use rpc_pigeon.Grpc.Heap.{
  Error, pool_init, pool_closed, Time, Factory, Client, Chan, Pool, Exec, pure, load_pool,
  store_pool, load_tenant, store_tenant, len, send, receive, update,
}

abbrev pub strict_mode : ℤ
strict_mode = pos 0

abbrev pub loose_mode : ℤ
loose_mode = pos 1

abbrev pub strict_network_mode : ℤ
strict_network_mode = pos 1

abbrev pub global_network_mode : ℤ
global_network_mode = pos 2

-- `pool.clients <- c` and `<-pool.clients`.
unfoldable pub send_pool : ℕ → Option Client → Exec (Unit {0})
unfolding load_pool send store_pool
send_pool p c = do
  pool ← load_pool p
  ch ← send pool.clients c
  store_pool p (record pool { clients = some ch })

unfoldable pub receive_pool : ℕ → Exec (Option Client)
unfolding load_pool receive store_pool
receive_pool p = do
  pool ← load_pool p
  (c, ch) ← receive pool.clients
  store_pool p (record pool { clients = some ch })
  pure c

-- `pool.factor()`: the number of the dial, if it succeeds.
unfoldable pub dial : Factory → Exec (Option ℕ)
dial factor h =
    ret (if factor h.dials then some h.dials else none) (record h { dials = suc h.dials })

abbrev pub new_client : ℕ → Time → ℕ → Client
new_client p now conn = record {
  conn = some conn;
  time_used = now;
  time_init = now;
  pool = some p;
  tenant = none;
}

-- `createClient`
unfoldable pub create_client : ℕ → Time → Exec (Option Client × Option Error)
unfolding load_pool dial
create_client p now = do
  pool ← load_pool p
  conn ← dial pool.factor
  elim conn [ none ↦ pure (none, some pool_init) | some c ↦ pure (some (new_client p now c), none) ]

-- The loop of `initPool`: `init` clients are made and sent.
unfoldable pub fill : ℕ → ℕ → Time → Exec (Option Error)
unfolding create_client send_pool
fill p zero now = pure none
fill p (suc rounds) now = do
  (client, err) ← create_client p now
  if is_some err then pure (some pool_init) else do send_pool p client; fill p rounds now

-- `&Pool{…}`
unfoldable pub alloc_pool : Pool → Exec ℕ
alloc_pool pool h =
    ret h.next_pool
      (record h { pools = update h.pools h.next_pool pool; next_pool = suc h.next_pool })

abbrev pub fresh_pool : Factory → (size idle_dur max_life_dur timeout mode : ℤ) → Pool
fresh_pool factor size idle_dur max_life_dur timeout mode = record {
  name = [];
  clients = some (record { cap = pos_part size; buf = [] });
  conn_current = pos 0;
  capacity = size;
  size = size;
  idle_dur = idle_dur;
  max_life_dur = max_life_dur;
  timeout = timeout;
  factor = factor;
  mode = mode;
  pool_remote_addr = [];
  status = true;
}

abbrev pub is_neg : ℤ → Bool
is_neg z = ltb_ℤ z (pos 0)

-- The checks of `initPool` on its numbers.
abbrev pub bad_sizes : (init size idle_dur max_life_dur : ℤ) → Bool
bad_sizes init size idle_dur max_life_dur =
    is_neg init || leb_ℤ size (pos 0) || is_neg idle_dur || is_neg max_life_dur

-- `initPool`, which `NewPool` calls.
unfoldable pub new_pool :
    Option Factory
    → (init size idle_dur max_life_dur timeout mode : ℤ) (now : Time)
    → Exec (Option ℕ × Option Error)
unfolding alloc_pool fill
new_pool none init size idle_dur max_life_dur timeout mode now = pure (none, some pool_init)
new_pool (some factor) init size idle_dur max_life_dur timeout mode now =
    if bad_sizes init size idle_dur max_life_dur then pure (none, some pool_init) else do
      p ← alloc_pool (fresh_pool factor size idle_dur max_life_dur timeout mode)
      err ← fill p (pos_part (if ltb_ℤ size init then size else init)) now
      pure (if is_some err then (none, err) else (some p, none))

-- `Destory`: what is left of the client.
unfoldable pub destory : Client → Exec Client
destory client h = elim client.conn [
  | none ↦ ret (record client { conn = none; pool = none }) h
  | some c ↦ ret (record client { conn = none; pool = none }) (record h { closed = c ∷ h.closed })
]

-- `IsClose`
unfoldable pub is_close : Option ℕ → Exec Bool
unfolding load_pool
is_close none = pure true
is_close (some p) = do pool ← load_pool p; pure (if is_some pool.clients then false else true)

-- `Size`
abbrev pub pool_size : Pool → ℕ
pool_size pool = len pool.clients

-- `GetConnCurrent`
unfoldable pub get_conn_current : Pool → ℤ
get_conn_current pool = int32 (pool.capacity -ℤ int32 (pos (pool_size pool)))

-- The case that `select` takes in `Acquire`. Where both are ready the runtime chooses one.
pub data Ready : Type 0 where
  done received : Ready

-- `client.timeUsed.Add(pool.idleDur).After(now)` and the test before it.
unfoldable pub reusable : Pool → Client → Time → Bool
reusable pool client now =
    ltb_ℤ (pos 0) pool.idle_dur && ltb_ℤ now (client.time_used +ℤ pool.idle_dur)

-- The end of `Acquire`: the client in hand is destroyed, and a new one made.
unfoldable pub renew : ℕ → Option Client → Time → Exec (Option Client × Option Error)
unfolding create_client destory
renew p none now = create_client p now
renew p (some client) now = destory client >> create_client p now

-- The test of the loose mode: more than the capacity is in use, and at most five times as much.
unfoldable pub over_capacity : Pool → Bool
unfolding get_conn_current
over_capacity pool =
    ltb_ℤ pool.capacity (get_conn_current pool)
    && leb_ℤ (get_conn_current pool) (int32 (pos 5 *ℤ pool.capacity))

unfoldable pub acquire_loose : ℕ → Pool → Time → Exec (Option Client × Option Error)
unfolding create_client send_pool receive_pool over_capacity
acquire_loose p pool now =
    if over_capacity pool
    then (do
      (client, err) ← create_client p now
      send_pool p client
      c ← receive_pool p
      pure (c, err))
    else (do c ← receive_pool p; pure (c, none))

-- `case <-ctx.Done()`
unfoldable pub acquire_done : ℕ → Pool → Time → Exec (Option Client × Option Error)
unfolding acquire_loose renew
acquire_done p pool later =
    if eqb_ℤ pool.mode strict_mode
    then pure (none, none)
    else if eqb_ℤ pool.mode loose_mode
    then acquire_loose p pool later
    else renew p none later

abbrev pub take_client :
    ℕ → Pool → Option Client → (now later : Time) → Exec (Option Client × Option Error)
take_client p pool none now later = renew p none later
take_client p pool (some client) now later =
    if reusable pool client now
    then pure (some (record client { time_used = now }), none)
    else renew p (some client) later

-- `case client = <-pool.clients`
unfoldable pub acquire_received :
    ℕ → Pool → (now later : Time) → Exec (Option Client × Option Error)
unfolding receive_pool renew reusable
acquire_received p pool now later = do c ← receive_pool p; take_client p pool c now later

abbrev pub acquire_case :
    Ready → ℕ → Pool → (now later : Time) → Exec (Option Client × Option Error)
acquire_case done p pool now later = acquire_done p pool later
acquire_case received p pool now later = acquire_received p pool now later

-- `Acquire`: `now` is read on entry, `later` when a client is created after the wait.
unfoldable pub acquire : Option ℕ → Ready → (now later : Time) → Exec (Option Client × Option Error)
unfolding load_pool acquire_done acquire_received
acquire none ready now later = pure (none, some pool_closed)
acquire (some p) ready now later = do
  pool ← load_pool p
  if is_some pool.clients
      then acquire_case ready p pool now later
      else pure (none, some pool_closed)

-- The goroutine of `Close`: the clients left in the channel are destroyed.
unfoldable pub drain : List (Option Client) → Exec (Unit {0})
unfolding destory
drain [] = pure tt
drain (none ∷ rest) = drain rest
drain (some client ∷ rest) = destory client >> drain rest

abbrev pub buffered : Option Chan → List (Option Client)
buffered none = []
buffered (some ch) = ch.buf

-- `Close`, with the clients that its goroutine is left to destroy.
unfoldable pub close : ℕ → Exec (List (Option Client))
unfolding load_pool store_pool
close p = do
  pool ← load_pool p
  if is_some pool.clients
      then (do
        store_pool p (record pool { clients = none; status = false })
        pure (buffered pool.clients))
      else pure []

-- `client.tenant.clients <- client`
unfoldable pub send_tenant : ℕ → Option Client → Exec (Unit {0})
unfolding load_tenant send store_tenant
send_tenant t c = do
  tenant ← load_tenant t
  ch ← send tenant.clients c
  store_tenant t (record tenant { clients = some ch })

abbrev pub home : Client → Exec (Unit {0})
home client = elim client.tenant [
  | some t ↦ send_tenant t (some client)
  | none ↦ elim client.pool [ some p ↦ send_pool p (some client) | none ↦ panic ]
]

-- The goroutine of `Client.Close`: the client goes back to its tenant or pool, or is destroyed.
unfoldable pub client_close : Client → Time → Exec (Unit {0})
unfolding is_close destory send_pool send_tenant
client_close client now = do
  shut ← is_close client.pool
  if shut
      then destory client >> pure tt
      else if is_some client.conn
      then home (record client { time_used = now })
      else pure tt

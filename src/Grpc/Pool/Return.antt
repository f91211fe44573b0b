-- ===== src/Grpc/Pool/Return.antt =====
-- What `Client.Close` (pool.go) does to the heap: a client whose pool is open goes back to the
-- channel that it came from, if there is room; otherwise its connection is closed.
use rpc_pigeon.Common.{ℕ, ◌<◌, ◌≡◌, [], ◌∷◌, ◌++◌, true, Option, none, some, arith, length, is_some}
use rpc_pigeon.Common.Run.{ret}
use rpc_pigeon.Grpc.Heap.{Time, Client, Chan, Pool, Tenant, Heap, update}
use rpc_pigeon.Grpc.Pool.{client_close}
use rpc_pigeon.Grpc.Pool.Acquire.{shut_conn}

abbrev pub used : Client → Time → Client
used c now = record c { time_used = now }

abbrev pub filled : Chan → Client → Option Chan
filled ch c = some (record ch { buf = ch.buf ++ some c ∷ [] })

abbrev pub conn_shut : Heap → Client → Heap
conn_shut h c = record h { closed = shut_conn c.conn h.closed }

abbrev pub sent_pool : Heap → ℕ → Pool → Chan → Client → Heap
sent_pool h p pool ch c = record h {
  pools = update h.pools p (record pool { clients = filled ch c });
}

abbrev pub sent_tenant : Heap → ℕ → Tenant → Chan → Client → Heap
sent_tenant h t tenant ch c = record h {
  tenants = update h.tenants t (record tenant { clients = filled ch c });
}

module _ (h : Heap) (c : Client) (now : Time) (p : ℕ) (pool : Pool) (from : c.pool ≡ some p)
    (here : h.pools p ≡ some pool) where
  pub client_close_shut : pool.clients ≡ none → client_close c now h ≡ ret tt (conn_shut h c)
  unfolding client_close
  client_close_shut e = ground arith

  module _ (ch : Chan) (open_ch : pool.clients ≡ some ch) (conn : is_some c.conn ≡ true) where
    pub client_close_pool :
        c.tenant ≡ none
        → length ch.buf < ch.cap
        → client_close c now h ≡ ret tt (sent_pool h p pool ch (used c now))
    unfolding client_close
    client_close_pool no_tenant room = ground arith

    pub client_close_tenant :
        (t : ℕ) (tenant : Tenant) (tch : Chan)
        → c.tenant ≡ some t
        → h.tenants t ≡ some tenant
        → tenant.clients ≡ some tch
        → length tch.buf < tch.cap
        → client_close c now h ≡ ret tt (sent_tenant h t tenant tch (used c now))
    unfolding client_close
    client_close_tenant t tenant tch at_t there e room = ground arith

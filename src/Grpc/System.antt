-- ===== src/Grpc/System.antt =====
-- The pools and tenants in use: which calls may happen, in any order. `lent` are the clients that
-- callers hold (handler.go returns each by one `conn.Close()`), `doomed` those that a closed pool
-- has left to the goroutine of `Close`. Each call is one step, as the goroutines interleave.
pub mod Accounts
pub mod Safety
pub mod Invariant
pub mod Keeps
pub mod Admit
pub mod Adopt
pub mod Build
pub mod Borrow
pub mod Shut
pub mod Back
use rpc_pigeon.Common.{ℕ, ◌<◌, ◌^◌, ℤ, pos, ◌≡◌, ◌⊎◌, List, [], ◌∷◌, ◌++◌, Option, none, some, Bool}
use rpc_pigeon.Common.Text.{Text}
use rpc_pigeon.Common.Dict.{Dict}
use rpc_pigeon.Common.Run.{ret}
use rpc_pigeon.Grpc.Heap.{Error, Time, Factory, Client, Heap, Pool, update}
use rpc_pigeon.Grpc.Pool.{
  strict_mode, loose_mode, Ready, new_pool, acquire, close, drain, client_close,
}
use rpc_pigeon.Grpc.Pool.Acquire.{KnownMode}
use rpc_pigeon.Grpc.Tenant
use rpc_pigeon.Grpc.Tenant.Init.{TenantConfig, Tenants, init_tenant}

pub record Sys : Type 0 where
  pub heap : Heap
  pub lent : List Client
  pub doomed : List (Option Client)

-- What a call returned, in the hands of its caller.
abbrev pub lend : Option Client → List Client → List Client
lend none lent = lent
lend (some c) lent = c ∷ lent

-- What grpc.go writes into a pool: its name, its address and whether it is up.
abbrev pub marked : ℕ → Pool → (name addr : Text) (status : Bool) → Heap → Heap
marked p pool name addr status h = record h {
  pools = update h.pools p (record pool { name = name; pool_remote_addr = addr; status = status });
}

pub data Step : Sys → Sys → Type 0 where
  make :
      {s : Sys} (factor : Option Factory) (init : ℤ) (size : ℕ) (idle life timeout mode : ℤ)
      (now : Time) (r : Option ℕ × Option Error) (h : Heap)
      → KnownMode mode
      → size < 2 ^ 31
      → new_pool factor init (pos size) idle life timeout mode now s.heap ≡ ret r h
      → Step s (record s { heap = h })
  admit :
      {s : Sys} (asr tts : ℕ → Dict ℕ) (config : TenantConfig) (cap : ℕ) (tenants r : Tenants)
      (h : Heap)
      → config.engine_pool_size ≡ pos cap
      → cap < 2 ^ 31
      → init_tenant asr tts config tenants s.heap ≡ ret r h
      → Step s (record s { heap = h })
  take :
      {s : Sys} (p : ℕ) (ready : Ready) (now later : Time) (r : Option Client × Option Error)
      (h : Heap)
      → acquire (some p) ready now later s.heap ≡ ret r h
      → Step s (record s { heap = h; lent = lend r.0 s.lent })
  take_tenant :
      {s : Sys} (t : ℕ) (r : Option Client × Option Error) (h : Heap)
      → Tenant.acquire (some t) s.heap ≡ ret r h
      → Step s (record s { heap = h; lent = lend r.0 s.lent })
  give_back :
      {s : Sys} (xs : List Client) (c : Client) (ys : List Client) (now : Time) (h : Heap)
      → s.lent ≡ xs ++ (c ∷ ys)
      → client_close c now s.heap ≡ ret tt h
      → Step s (record s { heap = h; lent = xs ++ ys })
  shut :
      {s : Sys} (p : ℕ) (left : List (Option Client)) (h : Heap)
      → close p s.heap ≡ ret left h
      → Step s (record s { heap = h; doomed = left ++ s.doomed })
  destroy :
      {s : Sys} (c : Option Client) (rest : List (Option Client)) (h : Heap)
      → s.doomed ≡ c ∷ rest
      → drain (c ∷ []) s.heap ≡ ret tt h
      → Step s (record s { heap = h; doomed = rest })
  mark :
      {s : Sys} (p : ℕ) (pool : Pool) (name addr : Text) (status : Bool)
      → s.heap.pools p ≡ some pool
      → Step s (record s { heap = marked p pool name addr status s.heap })

pub data Reach (s : Sys) : Sys → Type 0 where
  here : Reach s s
  next : {t u : Sys} → Reach s t → Step t u → Reach s u

-- Before the first pool is made.
abbrev pub initial : Sys
initial = record {
  heap = record {
    pools = λ p. none;
    next_pool = 0;
    tenants = λ t. none;
    next_tenant = 0;
    dials = 0;
    closed = [];
  };
  lent = [];
  doomed = [];
}

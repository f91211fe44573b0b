-- ===== src/Grpc/Heap.antt =====
-- The objects of pkg/plugins/pool/grpc that are shared by pointer: `Pool` (pool.go), `Tenant`
-- (tenant.go), their channels of `*Client`, and the gRPC connections that are dialled and closed.
-- A pointer is a number, and `nil` is `none`. A `*Client` is owned by one holder at a time, a
-- channel or a caller, so it is kept by value. The locks are left out: an operation is one step.
use rpc_pigeon.Common.{
  arith, ◌≡◌, ℕ, ℤ, List, [], ◌∷◌, ◌++◌, Bool, Option, none, some, ltb, ◌==◌, if◌then◌else◌, length,
}
use rpc_pigeon.Common.Text.{Text}
use rpc_pigeon.Common.Run.{Run, ret, blocked, panic}

-- The errors that the package makes: those of pool.go and tenant.go by `errors.New`, the others by
-- `status.Errorf`.
pub data Error : Type 0 where
  pool_init pool_closed pool_empty : Error
  unsupported_method unknown_token unknown_pool unknown_method : Error

-- `time.Time` and `time.Duration`, in nanoseconds.
abbrev pub Time : Type 0
Time = ℤ

abbrev pub Duration : Type 0
Duration = ℤ

-- A gRPC connection, by the number of the dial that made it.
abbrev pub Conn : Type 0
Conn = ℕ

-- `func() (*grpc.ClientConn, error)`: whether the dial with a given number succeeds is up to the
-- network.
abbrev pub Factory : Type 0
Factory = ℕ → Bool

pub record Client : Type 0 where
  pub conn : Option Conn
  pub time_used : Time
  pub time_init : Time
  pub pool : Option ℕ
  pub tenant : Option ℕ

-- A buffered channel of `*Client`, oldest first.
pub record Chan : Type 0 where
  pub cap : ℕ
  pub buf : List (Option Client)

pub record Pool : Type 0 where
  pub name : Text
  pub clients : Option Chan
  pub conn_current : ℤ
  pub capacity : ℤ
  pub size : ℤ
  pub idle_dur : Duration
  pub max_life_dur : Duration
  pub timeout : Duration
  pub factor : Factory
  pub mode : ℤ
  pub pool_remote_addr : Text
  pub status : Bool

pub record Tenant : Type 0 where
  pub id : Text
  pub clients : Option Chan
  pub conn_current : ℤ
  pub capacity : ℤ
  pub size : ℤ
  pub mode : ℤ
  pub pool_remote_addr : Text
  pub tenant_name : Text
  pub engine : Text

pub record Heap : Type 0 where
  pub pools : ℕ → Option Pool
  pub next_pool : ℕ
  pub tenants : ℕ → Option Tenant
  pub next_tenant : ℕ
  pub dials : ℕ
  pub closed : List Conn

abbrev pub Exec : Type 0 → Type 0
Exec A = Heap → Run Heap A

abbrev pub pure : {A : Type 0} → A → Exec A
pure = ret

abbrev pub update {ℓ} : {A : Type ℓ} → (ℕ → Option A) → ℕ → A → ℕ → Option A
update f p a q = if q == p then some a else f q

-- `*p`, which panics on a pointer to nothing.
unfoldable pub load_pool : ℕ → Exec Pool
load_pool p h = elim (h.pools p) [ none ↦ panic h | some pool ↦ ret pool h ]

unfoldable pub store_pool : ℕ → Pool → Exec (Unit {0})
store_pool p pool h = ret tt (record h { pools = update h.pools p pool })

unfoldable pub load_tenant : ℕ → Exec Tenant
load_tenant t h = elim (h.tenants t) [ none ↦ panic h | some tenant ↦ ret tenant h ]

unfoldable pub store_tenant : ℕ → Tenant → Exec (Unit {0})
store_tenant t tenant h = ret tt (record h { tenants = update h.tenants t tenant })

-- `len(ch)`, 0 for the nil channel.
abbrev pub len : Option Chan → ℕ
len none = 0
len (some ch) = length ch.buf

abbrev pub push : Chan → Option Client → Option Chan
push ch c = if ltb (length ch.buf) ch.cap then some (record ch { buf = ch.buf ++ c ∷ [] }) else none

-- `ch <- c`: the channel afterwards. A nil channel and a full one block.
unfoldable pub send : Option Chan → Option Client → Exec Chan
send none c h = blocked h
send (some ch) c h = elim (push ch c) [ none ↦ blocked h | some ch' ↦ ret ch' h ]

abbrev pub pop : ℕ → List (Option Client) → Exec (Option Client × Chan)
pop cap [] h = blocked h
pop cap (c ∷ rest) h = ret (c, record { cap = cap; buf = rest }) h

-- `<-ch`: the client and the channel afterwards. A nil channel and an empty one block.
unfoldable pub receive : Option Chan → Exec (Option Client × Chan)
receive none h = blocked h
receive (some ch) h = pop ch.cap ch.buf h

pub load_pool_at :
    (p : ℕ) (h : Heap) (pool : Pool) → h.pools p ≡ some pool → load_pool p h ≡ ret pool h
unfolding load_pool
load_pool_at p h pool e = ground arith

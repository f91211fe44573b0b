-- ===== src/Grpc/Race.antt =====
-- pkg/plugins/pool/grpc/pool.go: one pool between its goroutines, a shared access at a time.
-- `Acquire`, `IsClose` and `Client.Close` take no lock, so any access of another goroutine may come
-- between two of theirs; `Close` and `Size` take `pool.lock`. The clients are those that the pool has
-- made (`client.tenant` is nil), each known by the number of its dial. The reads and writes of
-- `pool.clients` are taken in one order.
pub mod Moves
pub mod Places
pub mod Close
pub mod Strand
pub mod Progress
use rpc_pigeon.Common.{
  ℕ, zero, suc, ◌<◌, ℤ, pos, ◌-ℤ◌, ltb_ℤ, ◌≡◌, Bool, true, false, List, [], ◌∷◌, ◌++◌,
  if◌then◌else◌, length,
}
use rpc_pigeon.Common.Threads.{set}

-- `STRICT_MODE`, `LOOSE_MODE`, and any other mode: the network modes among them, of which
-- `STRICT_NETWORK_MODE` is the same number as `LOOSE_MODE`.
pub data Mode : Type 0 where
  strict loose network : Mode

-- `attached`: `pool.clients` is not nil. `queue` is the channel that `initPool` made, which the
-- goroutines that have read it still see after `Close`. `starting` counts the goroutines that `Close`
-- has started and that have not run yet.
pub record Memory : Type 0 where
  pub attached : Bool
  pub queue : List ℕ
  pub dials : ℕ
  pub closed : List ℕ
  pub locked : Bool
  pub status : Bool
  pub starting : ℕ

-- Where a goroutine stands, with the local variables that are live there. `seen` is the channel it
-- has read from `pool.clients`: false is nil.
pub data Place : Type 0 where
  idle : Place
  acquiring : Place  -- Acquire, before it reads the channel for `select`
  selecting : (seen done : Bool) → Place  -- in the `select`; whether the context is done
  got : (c : ℕ) → Place  -- before the test of the idle time
  replacing : (c : ℕ) → Place  -- before `client.Destory()`
  dialing : Place  -- before the last `createClient()`
  late : Place  -- LOOSE_MODE after ctx.Done(), before the first GetConnCurrent()
  over : Place  -- past that test: not followed further
  late_reading : Place  -- before it reads the channel of `<-pool.clients`
  late_waiting : (seen : Bool) → Place  -- in `<-pool.clients`
  lent : (c : ℕ) → Place  -- the caller holds the client
  checking : (c : ℕ) → Place  -- Client.Close, before IsClose()
  checked : (c : ℕ) → Place  -- IsClose() was false
  sending : (seen : Bool) (c : ℕ) → Place  -- in `client.pool.clients <- client`
  destroying : (c : ℕ) → Place  -- before `client.Destory()`
  locking : Place  -- Close, before `pool.lock.Lock()`
  testing : Place  -- before IsClose()
  detaching : Place  -- before `pool.clients = nil`
  spawning : Place  -- before `go func`
  ending : Place  -- before `pool.status = false`
  unlocking : Place  -- before the deferred `Unlock()`
  draining : Place  -- the goroutine of Close, before `len(clients) > 0`
  taking : Place  -- before `<-clients`
  dropping : (c : ℕ) → Place  -- before `client.Destory()`

-- `Size`, whose `len` of a nil channel is 0.
abbrev pub size_of : Memory → ℕ
size_of m = if m.attached then length m.queue else 0

-- `GetConnCurrent() > capacity`, the first half of the test of the loose mode.
abbrev pub over_cap : ℕ → Memory → Bool
over_cap cap m = ltb_ℤ (pos cap) (pos cap -ℤ pos (size_of m))

-- One access of one goroutine to a pool of the given mode and capacity, or `expire`, by which the
-- context of a goroutine in `select` is done. What the clock and the factory decide is left open, and so
-- is whether a context is done when `select` begins and which ready case it takes: where more than one
-- move starts at a place, any may follow.
pub data Move (mode : Mode) (cap : ℕ) (m : Memory) : Place → Memory → Place → Type 0 where
  -- Acquire
  refuse : m.attached ≡ false → Move mode cap m idle m idle
  enter : m.attached ≡ true → Move mode cap m idle m acquiring
  select : {done : Bool} → Move mode cap m acquiring m (selecting m.attached done)
  expire : {seen : Bool} → Move mode cap m (selecting seen false) m (selecting seen true)
  receive :
      {c : ℕ} {rest : List ℕ} {done : Bool}
      → m.queue ≡ c ∷ rest
      → Move mode cap m (selecting true done) (record m { queue = rest }) (got c)
  fresh : {c : ℕ} → Move mode cap m (got c) m (lent c)
  stale : {c : ℕ} → Move mode cap m (got c) m (replacing c)
  replace : {c : ℕ} → Move mode cap m (replacing c) (record m { closed = c ∷ m.closed }) dialing
  dial : Move mode cap m dialing (record m { dials = suc m.dials }) (lent m.dials)
  fail : Move mode cap m dialing m idle
  done_strict : {seen : Bool} → mode ≡ strict → Move mode cap m (selecting seen true) m idle
  done_loose : {seen : Bool} → mode ≡ loose → Move mode cap m (selecting seen true) m late
  done_network : {seen : Bool} → mode ≡ network → Move mode cap m (selecting seen true) m dialing
  count_over : m.locked ≡ false → over_cap cap m ≡ true → Move mode cap m late m over
  count_under : m.locked ≡ false → over_cap cap m ≡ false → Move mode cap m late m late_reading
  reread : Move mode cap m late_reading m (late_waiting m.attached)
  receive_late :
      {c : ℕ} {rest : List ℕ}
      → m.queue ≡ c ∷ rest
      → Move mode cap m (late_waiting true) (record m { queue = rest }) (lent c)
  -- Client.Close
  give_back : {c : ℕ} → Move mode cap m (lent c) m (checking c)
  check_open : {c : ℕ} → m.attached ≡ true → Move mode cap m (checking c) m (checked c)
  check_closed : {c : ℕ} → m.attached ≡ false → Move mode cap m (checking c) m (destroying c)
  read_chan : {c : ℕ} → Move mode cap m (checked c) m (sending m.attached c)
  send :
      {c : ℕ}
      → length m.queue < cap
      → Move mode cap m (sending true c) (record m { queue = m.queue ++ c ∷ [] }) idle
  destroy : {c : ℕ} → Move mode cap m (destroying c) (record m { closed = c ∷ m.closed }) idle
  -- Close
  shut : Move mode cap m idle m locking
  lock : m.locked ≡ false → Move mode cap m locking (record m { locked = true }) testing
  already : m.attached ≡ false → Move mode cap m testing m unlocking
  test : m.attached ≡ true → Move mode cap m testing m detaching
  detach : Move mode cap m detaching (record m { attached = false }) spawning
  spawn : Move mode cap m spawning (record m { starting = suc m.starting }) ending
  end : Move mode cap m ending (record m { status = false }) unlocking
  unlock : Move mode cap m unlocking (record m { locked = false }) idle
  -- its goroutine
  start_drain :
      {k : ℕ} → m.starting ≡ suc k → Move mode cap m idle (record m { starting = k }) draining
  drained : m.queue ≡ [] → Move mode cap m draining m idle
  more : {c : ℕ} {rest : List ℕ} → m.queue ≡ c ∷ rest → Move mode cap m draining m taking
  take :
      {c : ℕ} {rest : List ℕ}
      → m.queue ≡ c ∷ rest
      → Move mode cap m taking (record m { queue = rest }) (dropping c)
  drop : {c : ℕ} → Move mode cap m (dropping c) (record m { closed = c ∷ m.closed }) draining

-- `n` goroutines over one pool. An index from `n` on is never picked, and stays `idle`.
pub record Threads : Type 0 where
  pub mem : Memory
  pub pc : ℕ → Place

pub data Turn (mode : Mode) (cap n : ℕ) (s : Threads) : Threads → Type 0 where
  pick :
      (i : ℕ) {m : Memory} {p : Place}
      → i < n
      → Move mode cap s.mem (s.pc i) m p
      → Turn mode cap n s (record { mem = m; pc = set s.pc i p })

-- The numbers below `k`, in order.
abbrev pub upto : ℕ → List ℕ
upto zero = []
upto (suc k) = upto k ++ k ∷ []

-- What `initPool` returns: `init` clients in the channel.
abbrev pub fresh_memory : ℕ → Memory
fresh_memory init = record {
  attached = true;
  queue = upto init;
  dials = init;
  closed = [];
  locked = false;
  status = true;
  starting = 0;
}

-- Any number of turns.
pub data Turns (mode : Mode) (cap n : ℕ) (s : Threads) : Threads → Type 0 where
  stop : Turns mode cap n s s
  more_turns : {t u : Threads} → Turns mode cap n s t → Turn mode cap n t u → Turns mode cap n s u

abbrev pub started : ℕ → Threads
started init = record { mem = fresh_memory init; pc = λ _. idle }

-- ===== src/Grpc/Race/Moves.antt =====
-- pool.go between goroutines: the clients in the hands of a goroutine, and what a move changes.
use rpc_pigeon.Common.{
  ℕ, ◌+◌, ◌≤◌, ◌≡◌, true, [], ◌∷◌, if◌then◌else◌, length, arith, ltb, length-append, ◌≢◌, ◌==◌,
}
use rpc_pigeon.Common.Threads.{count, count-append}
use rpc_pigeon.Grpc.Race.{
  Mode, network, Memory, Place, selecting, got, replacing, dialing, over, late_waiting, lent,
  checking, checked, sending, destroying, dropping, Move, receive, receive_late, take, send,
  count_over, detach, done_network, select, reread, read_chan,
}

abbrev same : ℕ → ℕ → ℕ
same c d = if d == c then 1 else 0

-- Whether a goroutine at the place has client `c` in hand.
abbrev pub holds : ℕ → Place → ℕ
holds c (got d) = same c d
holds c (replacing d) = same c d
holds c (lent d) = same c d
holds c (checking d) = same c d
holds c (checked d) = same c d
holds c (sending seen d) = same c d
holds c (destroying d) = same c d
holds c (dropping d) = same c d
holds c _ = 0

-- A goroutine that has taken a client off the channel, or makes one instead.
abbrev pub busy : Place → ℕ
busy (got d) = 1
busy (replacing d) = 1
busy dialing = 1
busy (lent d) = 1
busy (checking d) = 1
busy (checked d) = 1
busy (sending seen d) = 1
busy (destroying d) = 1
busy (dropping d) = 1
busy _ = 0

abbrev pub made : ℕ → Memory → ℕ
made c m = if ltb c m.dials then 1 else 0

-- The clients of the goroutines that a move does not concern: `rest` of them hold `c`.
pub Move-places :
    {mode : Mode} {cap : ℕ} {m m' : Memory} {p p' : Place} (c rest : ℕ)
    → Move mode cap m p m' p'
    → rest + holds c p + count c m.queue + count c m.closed ≡ made c m
    → rest + holds c p' + count c m'.queue + count c m'.closed ≡ made c m'
Move-places c rest (receive q) e = ground (arith, q)
Move-places c rest (receive_late q) e = ground (arith, q)
Move-places c rest (take q) e = ground (arith, q)
Move-places {m} c rest (send {c = d} room) e = ground (arith, count-append c m.queue (d ∷ []))
Move-places c rest mv e = ground arith

-- Outside the network modes no move adds to the clients in the pool and in use.
pub Move-room :
    {mode : Mode} {cap init : ℕ} {m m' : Memory} {p p' : Place} (rest : ℕ)
    → mode ≢ network
    → Move mode cap m p m' p'
    → rest + busy p + length m.queue ≤ init
    → rest + busy p' + length m'.queue ≤ init
Move-room rest quiet (receive q) e = ground (arith, q)
Move-room rest quiet (receive_late q) e = ground (arith, q)
Move-room rest quiet (take q) e = ground (arith, q)
Move-room {m} rest quiet (send {c = d} room) e = ground (arith, length-append m.queue (d ∷ []))
Move-room rest quiet (done_network is) e = absurd (quiet is)
Move-room rest quiet mv e = ground arith

-- What a goroutine has read of the pool still says whether it was open: a nil channel that it has
-- seen is nil for good. No goroutine is in the branch that makes a client over the capacity.
abbrev pub Knows : Memory → Place → Type 0
Knows m (selecting seen done) = m.attached ≡ true → seen ≡ true
Knows m (late_waiting seen) = m.attached ≡ true → seen ≡ true
Knows m (sending seen c) = m.attached ≡ true → seen ≡ true
Knows m over = ⊥
Knows m _ = Unit

-- No move attaches a channel again.
pub Move-attached :
    {mode : Mode} {cap : ℕ} {m m' : Memory} {p p' : Place}
    → Move mode cap m p m' p'
    → m'.attached ≡ true
    → m.attached ≡ true
Move-attached detach e = ground arith
Move-attached mv e = e

pub Knows-keeps :
    (m m' : Memory) (p : Place) → (m'.attached ≡ true → m.attached ≡ true) → Knows m p → Knows m' p
Knows-keeps m m' (selecting seen done) f k = λ e. k (f e)
Knows-keeps m m' (late_waiting seen) f k = λ e. k (f e)
Knows-keeps m m' (sending seen c) f k = λ e. k (f e)
Knows-keeps m m' over f k = k
Knows-keeps m m' p f k = ground arith

pub Move-Knows :
    {mode : Mode} {cap : ℕ} {m m' : Memory} {p p' : Place}
    → Move mode cap m p m' p'
    → Knows m p
    → Knows m' p'
Move-Knows select k = λ e. e
Move-Knows reread k = λ e. e
Move-Knows read_chan k = λ e. e
Move-Knows (count_over free e) k = absurd (ground arith)
Move-Knows mv k = ground arith

-- ===== src/Grpc/Race/Progress.antt =====
-- pool.go between goroutines: where a goroutine may have to wait.
use rpc_pigeon.Common.{
  ℕ, ◌+◌, ◌<◌, ◌≤◌, ◌≡◌, ◌≢◌, refl, Bool, true, false, List, [], ◌∷◌, ◌⊎◌, inl, inr, arith,
  Bool-cases, length,
}
use rpc_pigeon.Common.Threads.{sum-one, sum-some}
use rpc_pigeon.Grpc.Race.{
  expire, Mode, strict, loose, network, Memory, Place, idle, acquiring, selecting, got, replacing,
  dialing, late, over, late_reading, late_waiting, lent, checking, checked, sending, destroying,
  locking, testing, detaching, spawning, ending, unlocking, draining, taking, dropping, Move,
  Threads, Turns, started, over_cap,
}
use rpc_pigeon.Grpc.Race.Moves.{busy, Knows}
use rpc_pigeon.Grpc.Race.Places.{Turns-Knows, Turns-room}
use rpc_pigeon.Grpc.Race.Close.{in_lock, close_once}

-- The move is one of the goroutine itself: not the end of its context, which it may wait for.
abbrev pub IsOwn :
    {mode : Mode} {cap : ℕ} {m m' : Memory} {p p' : Place} → Move mode cap m p m' p' → Type 0
IsOwn expire = ⊥
IsOwn mv = Unit

-- A goroutine at the place can make a move of its own.
abbrev pub Goes : Mode → ℕ → Memory → Place → Type 0
Goes mode cap m p = (m' : Memory) × (p' : Place) × (mv : Move mode cap m p m' p') × IsOwn mv

-- What a goroutine at the place waits for.
abbrev pub Waits : (locked : Type 0) → Memory → Place → Type 0
Waits locked m (selecting true false) = m.queue ≡ []
Waits locked m (selecting false false) = m.attached ≡ false
Waits locked m (late_waiting true) = m.queue ≡ []
Waits locked m (late_waiting false) = m.attached ≡ false
Waits locked m (sending false c) = m.attached ≡ false
Waits locked m taking = m.queue ≡ []
Waits locked m late = locked
Waits locked m locking = locked
Waits locked m _ = ⊥

List-cases : (xs : List ℕ) → (xs ≡ []) ⊎ ((c : ℕ) × (rest : List ℕ) × (xs ≡ c ∷ rest))
List-cases [] = inl refl
List-cases (c ∷ rest) = inr (c, rest, refl)

leaves_select :
    (mode : Mode) (cap : ℕ) (m : Memory) (seen : Bool) → Goes mode cap m (selecting seen true)
leaves_select strict cap m seen = (_, _, Move.done_strict refl, tt)
leaves_select loose cap m seen = (_, _, Move.done_loose refl, tt)
leaves_select network cap m seen = (_, _, Move.done_network refl, tt)

place_moves :
    (mode : Mode) (cap : ℕ) (m : Memory) (p : Place) {locked : Type 0}
    → Knows m p
    → (busy p + length m.queue ≤ cap)
    → (m.locked ≡ true → locked)
    → Goes mode cap m p ⊎ Waits locked m p
place_moves mode cap m idle k room held = inl (_, _, Move.shut, tt)
place_moves mode cap m acquiring k room held = inl (_, _, Move.select {done = false}, tt)
place_moves mode cap m (selecting seen true) k room held = inl (leaves_select mode cap m seen)
place_moves mode cap m (selecting true false) k room held = elim (List-cases m.queue) [
  | inl empty ↦ inr empty
  | inr (c, rest, e) ↦ inl (_, _, Move.receive e, tt)
]
place_moves mode cap m (selecting false false) k room held =
    inr (elim (Bool-cases m.attached) [ inl on ↦ absurd (let e = k on in cc) | inr off ↦ off ])
place_moves mode cap m (got c) k room held = inl (_, _, Move.fresh, tt)
place_moves mode cap m (replacing c) k room held = inl (_, _, Move.replace, tt)
place_moves mode cap m dialing k room held = inl (_, _, Move.dial, tt)
place_moves mode cap m late k room held = elim (Bool-cases m.locked) [
  | inl on ↦ inr (held on)
  | inr off ↦ elim (Bool-cases (over_cap cap m)) [
    | inl more ↦ inl (_, _, Move.count_over off more, tt)
    | inr less ↦ inl (_, _, Move.count_under off less, tt)
  ]
]
place_moves mode cap m over k room held = absurd k
place_moves mode cap m late_reading k room held = inl (_, _, Move.reread, tt)
place_moves mode cap m (late_waiting true) k room held = elim (List-cases m.queue) [
  | inl empty ↦ inr empty
  | inr (c, rest, e) ↦ inl (_, _, Move.receive_late e, tt)
]
place_moves mode cap m (late_waiting false) k room held =
    inr (elim (Bool-cases m.attached) [ inl on ↦ absurd (let e = k on in cc) | inr off ↦ off ])
place_moves mode cap m (lent c) k room held = inl (_, _, Move.give_back, tt)
place_moves mode cap m (checking c) k room held = elim (Bool-cases m.attached) [
  | inl on ↦ inl (_, _, Move.check_open on, tt)
  | inr off ↦ inl (_, _, Move.check_closed off, tt)
]
place_moves mode cap m (checked c) k room held = inl (_, _, Move.read_chan, tt)
place_moves mode cap m (sending true c) k room held = inl (_, _, Move.send (omega arith), tt)
place_moves mode cap m (sending false c) k room held =
    inr (elim (Bool-cases m.attached) [ inl on ↦ absurd (let e = k on in cc) | inr off ↦ off ])
place_moves mode cap m (destroying c) k room held = inl (_, _, Move.destroy, tt)
place_moves mode cap m locking k room held = elim (Bool-cases m.locked) [
  | inl on ↦ inr (held on)
  | inr off ↦ inl (_, _, Move.lock off, tt)
]
place_moves mode cap m testing k room held = elim (Bool-cases m.attached) [
  | inl on ↦ inl (_, _, Move.test on, tt)
  | inr off ↦ inl (_, _, Move.already off, tt)
]
place_moves mode cap m detaching k room held = inl (_, _, Move.detach, tt)
place_moves mode cap m spawning k room held = inl (_, _, Move.spawn, tt)
place_moves mode cap m ending k room held = inl (_, _, Move.end, tt)
place_moves mode cap m unlocking k room held = inl (_, _, Move.unlock, tt)
place_moves mode cap m draining k room held = elim (List-cases m.queue) [
  | inl empty ↦ inl (_, _, Move.drained empty, tt)
  | inr (c, rest, e) ↦ inl (_, _, Move.more e, tt)
]
place_moves mode cap m taking k room held = elim (List-cases m.queue) [
  | inl empty ↦ inr empty
  | inr (c, rest, e) ↦ inl (_, _, Move.take e, tt)
]
place_moves mode cap m (dropping c) k room held = inl (_, _, Move.drop, tt)

-- Another goroutine is between `Lock` and `Unlock`, and can make a move.
abbrev pub Held : Mode → ℕ → ℕ → Threads → Type 0
Held mode cap n s = (j : ℕ) × (j < n) × (0 < in_lock (s.pc j)) × Goes mode cap s.mem (s.pc j)

in_lock-Goes : (mode : Mode) (cap : ℕ) (m : Memory) (p : Place) → 0 < in_lock p → Goes mode cap m p
in_lock-Goes mode cap m testing h = elim (Bool-cases m.attached) [
  | inl on ↦ (_, _, Move.test on, tt)
  | inr off ↦ (_, _, Move.already off, tt)
]
in_lock-Goes mode cap m detaching h = (_, _, Move.detach, tt)
in_lock-Goes mode cap m spawning h = (_, _, Move.spawn, tt)
in_lock-Goes mode cap m ending h = (_, _, Move.end, tt)
in_lock-Goes mode cap m unlocking h = (_, _, Move.unlock, tt)
in_lock-Goes mode cap m p h = absurd (omega arith)

-- In the strict and the loose mode, whatever the interleaving, a goroutine can make a move, or it waits:
-- in `select`, its context not done, at an empty channel or at the nil channel of a pool that is closed;
-- in the loose mode after its context, at an empty channel or at such a nil channel; in `Client.Close`, at the nil channel of a pool that is closed; in the goroutine of `Close`,
-- at an empty channel; or for the lock, whose holder can make a move. So no send to the channel that
-- the pool was made with ever waits, before `Close` or after.
pub blocked_only :
    {mode : Mode} {cap n init : ℕ} {s : Threads} (i : ℕ)
    → mode ≢ network
    → init ≤ cap
    → Turns mode cap n (started init) s
    → i < n
    → Goes mode cap s.mem (s.pc i) ⊎ Waits (Held mode cap n s) s.mem (s.pc i)
blocked_only {mode} {cap} {n} {s} i quiet small r lt =
    let fits = Turns-room quiet r in
    let one = sum-one busy n s.pc i lt in
    let lock = (close_once r).0 in
    place_moves mode cap s.mem (s.pc i) (Turns-Knows r i) (omega arith) λ on.
      let (j, below, inside) = sum-some in_lock n s.pc (ground arith) in
      (j, below, inside, in_lock-Goes mode cap s.mem (s.pc j) inside)

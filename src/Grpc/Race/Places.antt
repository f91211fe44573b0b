-- ===== src/Grpc/Race/Places.antt =====
-- pool.go between goroutines: where each connection is, and that whoever returns one finds room.
use rpc_pigeon.Common.{
  ℕ, suc, zero, ◌+◌, ◌<◌, ◌≤◌, ◌≡◌, refl, Bool, true, [], ◌∷◌, ◌++◌, if◌then◌else◌, length, arith,
  ltb, length-append, ◌≢◌, ◌==◌, subst, sym, if_cases, ◌⊎◌, inl, inr,
}
use rpc_pigeon.Common.Threads.{
  sum, rest, rest-sum, rest-set, sum-two, sum-zero, sum-one, count, count-append,
}
use native.Mathlib.Decide.{ℕ_discrete}
use rpc_pigeon.Grpc.Race.{
  Mode, network, idle, lent, sending, over, Move, send, Threads, Turn, pick, Turns, stop,
  more_turns, started, upto,
}
use rpc_pigeon.Grpc.Race.Moves.{
  holds, busy, made, Move-places, Move-room, Knows, Knows-keeps, Move-Knows, Move-attached,
}

-- Each connection that was dialled is with one goroutine, in the channel or closed.
abbrev pub Placed : ℕ → ℕ → Threads → Type 0
Placed n c s = sum (holds c) n s.pc + count c s.mem.queue + count c s.mem.closed ≡ made c s.mem

Turn-Placed :
    {mode : Mode} {cap n : ℕ} {s t : Threads} (c : ℕ)
    → Turn mode cap n s t
    → Placed n c s
    → Placed n c t
Turn-Placed {n} {s} c (pick i {m = m'} {p = p'} lt mv) e =
    let before = rest-sum (holds c) n s.pc i lt in
    let after = rest-set (holds c) n s.pc i p' lt in
    let moved = Move-places c (rest (holds c) n s.pc i) mv (omega arith) in omega arith

count-upto : (c k : ℕ) → count c (upto k) ≡ (if ltb c k then 1 else 0)
count-upto c zero = ground arith
count-upto c (suc k) = ground (arith, count-upto c k, count-append c (upto k) (k ∷ []))

length-upto : (k : ℕ) → length (upto k) ≡ k
length-upto zero = refl
length-upto (suc k) = omega (arith, length-upto k, length-append (upto k) (k ∷ []))

-- Whatever the interleaving, each connection that was dialled is in exactly one place: in the hands of
-- one goroutine, in the channel once, or closed once. A connection that was not dialled is in none.
pub one_place :
    {mode : Mode} {cap n init : ℕ} {s : Threads} (c : ℕ)
    → Turns mode cap n (started init) s
    → Placed n c s
one_place {n} {init} c stop =
    let nobody = sum-zero (holds c) n (started init).pc (λ i. refl) in
    omega (arith, count-upto c init)
one_place c (more_turns r t) = Turn-Placed c t (one_place c r)

-- Whatever the interleaving, a client that a caller has got from `Acquire` is in the hands of no other
-- goroutine, and its connection is neither in the channel nor closed.
lent_alone :
    {mode : Mode} {cap n init : ℕ} {s : Threads}
    → Turns mode cap n (started init) s
    → (i j c : ℕ) → i < n
    → j < n
    → s.pc i ≡ lent c
    → ((i ≡ j) ⊎ (holds c (s.pc j) ≡ 0)) × (count c s.mem.queue ≡ 0) × (count c s.mem.closed ≡ 0)
lent_alone {n} {s} r i j c hi hj e =
    let place = one_place c r in
    let mine : holds c (s.pc i) ≡ 1 = rw e (ground arith) in
    let few : made c s.mem ≤ 1 = ground arith in
    let one = sum-one (holds c) n s.pc i hi in
    (
      elim (ℕ_discrete i j) [
        | yes same ↦ inl same
        | no ne ↦ inr (omega (arith, sum-two (holds c) n s.pc i j hi hj ne))
      ],
      omega arith,
      omega arith,
    )

Turn-Knows :
    {mode : Mode} {cap n : ℕ} {s t : Threads}
    → Turn mode cap n s t
    → ((i : ℕ) → Knows s.mem (s.pc i))
    → (i : ℕ) → Knows t.mem (t.pc i)
Turn-Knows {s} (pick i {m = m'} {p = p'} lt mv) v j =
    if_cases (Knows m') (j == i) p' (s.pc j) (λ e. Move-Knows mv (v i))
      (λ e. Knows-keeps s.mem m' (s.pc j) (Move-attached mv) (v j))

-- What each goroutine has seen of the pool is true of it.
pub Turns-Knows :
    {mode : Mode} {cap n init : ℕ} {s : Threads}
    → Turns mode cap n (started init) s
    → (i : ℕ) → Knows s.mem (s.pc i)
Turns-Knows stop i = tt
Turns-Knows (more_turns r t) i = Turn-Knows t (Turns-Knows r) i

Turn-room :
    {mode : Mode} {cap n init : ℕ} {s t : Threads}
    → mode ≢ network
    → Turn mode cap n s t
    → sum busy n s.pc + length s.mem.queue ≤ init
    → sum busy n t.pc + length t.mem.queue ≤ init
Turn-room {n} {init} {s} quiet (pick i {p = p'} lt mv) fits =
    let before = rest-sum busy n s.pc i lt in
    let after = rest-set busy n s.pc i p' lt in
    let moved = Move-room {init = init} (rest busy n s.pc i) quiet mv (omega arith) in omega arith

-- The clients in the pool and in use are at most those that it was made with.
pub Turns-room :
    {mode : Mode} {cap n init : ℕ} {s : Threads}
    → mode ≢ network
    → Turns mode cap n (started init) s
    → sum busy n s.pc + length s.mem.queue ≤ init
Turns-room {n} {init} quiet stop =
    omega (arith, sum-zero busy n (started init).pc (λ i. refl), length-upto init)
Turns-room {init} quiet (more_turns r t) = Turn-room {init = init} quiet t (Turns-room quiet r)

-- In the strict and the loose mode, whatever the interleaving, the clients that goroutines have taken
-- off the channel and those in it are at most the clients that the pool was made with. While the pool
-- is open, a goroutine of `Client.Close` that is at its send can send at once: it has not seen the nil
-- channel, and there is room. Afterwards the client is in the channel.
return_finds_room :
    {mode : Mode} {cap n init : ℕ} {s : Threads}
    → mode ≢ network
    → init ≤ cap
    → Turns mode cap n (started init) s
    → (i c : ℕ) (seen : Bool) → i < n
    → s.pc i ≡ sending seen c
    → s.mem.attached ≡ true
    → (sum busy n s.pc + length s.mem.queue ≤ init)
      × Move mode cap s.mem (s.pc i) (record s.mem { queue = s.mem.queue ++ c ∷ [] }) idle
return_finds_room {mode} {cap} {n} {init} {s} quiet small r i c seen hi e there =
    let fits = Turns-room quiet r in
    let one = sum-one busy n s.pc i hi in
    let mine : busy (s.pc i) ≡ 1 = rw e refl in
    let sees = subst (Knows s.mem) e (Turns-Knows r i) there in
    (
      fits,
      subst (λ p. Move mode cap s.mem p (record s.mem { queue = s.mem.queue ++ c ∷ [] }) idle)
          (sym (rw (e, sees) refl)) (send (omega arith)),
    )

-- Whatever the interleaving, no goroutine makes a client beyond the
-- capacity: the branch of the loose mode for it is never entered.
never_over :
    {mode : Mode} {cap n init : ℕ} {s : Threads}
    → Turns mode cap n (started init) s
    → (i : ℕ) → s.pc i ≢ over
never_over {s} r i e = subst (Knows s.mem) e (Turns-Knows r i)

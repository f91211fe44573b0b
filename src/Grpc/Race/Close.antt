-- ===== src/Grpc/Race/Close.antt =====
-- pool.go between goroutines: `Close` under its lock, and the goroutine that it starts.
use rpc_pigeon.Common.{ℕ, ◌+◌, ◌<◌, ◌≤◌, ◌≡◌, refl, Bool, true, if◌then◌else◌, arith, subst, sym}
use native.Mathlib.Decide.{ℕ_discrete}
use rpc_pigeon.Common.Threads.{
  set, set-same, set-other, sum, rest, rest-sum, rest-set, sum-two, sum-zero,
}
use rpc_pigeon.Grpc.Race.{
  Mode, Memory, Place, testing, detaching, spawning, ending, unlocking, draining, taking, dropping,
  Move, detach, Threads, Turn, pick, Turns, stop, more_turns, started, test, lock, start_drain,
}

-- `Close` between `Lock` and `Unlock`.
abbrev pub in_lock : Place → ℕ
in_lock testing = 1
in_lock detaching = 1
in_lock spawning = 1
in_lock ending = 1
in_lock unlocking = 1
in_lock _ = 0

-- The goroutine that `Close` starts, from the write of nil on.
abbrev pub drains : Place → ℕ
drains spawning = 1
drains draining = 1
drains taking = 1
drains (dropping c) = 1
drains _ = 0

abbrev pub bit : Bool → ℕ
bit b = if b then 1 else 0

Move-lock :
    {mode : Mode} {cap : ℕ} {m m' : Memory} {p p' : Place} (rest : ℕ)
    → Move mode cap m p m' p'
    → rest + in_lock p ≡ bit m.locked
    → rest + in_lock p' ≡ bit m'.locked
Move-lock rest (lock free) e = ground arith
Move-lock rest mv e = ground arith

abbrev Sure : Memory → Place → Type 0
Sure m detaching = m.attached ≡ true
Sure m _ = Unit

Move-drains :
    {mode : Mode} {cap : ℕ} {m m' : Memory} {p p' : Place} (rest : ℕ)
    → Move mode cap m p m' p'
    → Sure m p
    → rest + drains p + m.starting + bit m.attached ≤ 1
    → rest + drains p' + m'.starting + bit m'.attached ≤ 1
Move-drains rest (start_drain one) k e = ground arith
Move-drains rest mv k e = ground arith

Move-Sure :
    {mode : Mode} {cap : ℕ} {m m' : Memory} {p p' : Place} → Move mode cap m p m' p' → Sure m' p'
Move-Sure (test e) = e
Move-Sure mv = ground arith

-- The accounts of the lock and of the goroutine that `Close` starts.
record Lock (n : ℕ) (s : Threads) : Type 0 where
  pub alone : sum in_lock n s.pc ≡ bit s.mem.locked
  pub sure : (i : ℕ) → i < n → Sure s.mem (s.pc i)
  pub once : sum drains n s.pc + s.mem.starting + bit s.mem.attached ≤ 1

-- Who is not in the lock does not move what `Close` has tested; who is in it is there alone.
Sure-other :
    {mode : Mode} {cap : ℕ} {m m' : Memory} {p p' : Place} (q : Place)
    → Move mode cap m p m' p'
    → in_lock p + in_lock q ≤ 1
    → Sure m q
    → Sure m' q
Sure-other detaching detach few k = absurd (omega arith)
Sure-other detaching mv few k = ground arith
Sure-other q mv few k = ground arith

Turn-Lock : {mode : Mode} {cap n : ℕ} {s t : Threads} → Turn mode cap n s t → Lock n s → Lock n t
Turn-Lock {mode} {cap} {n} {s} (pick i {m = m'} {p = p'} lt mv) v = record {
  alone =
      let before = rest-sum in_lock n s.pc i lt in
      let after = rest-set in_lock n s.pc i p' lt in
      let alone = v.alone in
      let moved = Move-lock (rest in_lock n s.pc i) mv (omega arith) in omega arith;
  sure = λ j hj. elim (ℕ_discrete i j) [
    | yes same ↦
        subst (λ k. Sure m' (set s.pc i p' k)) same
          (subst (Sure m') (sym (set-same s.pc i p')) (Move-Sure mv))
    | no ne ↦ subst (Sure m') (sym (set-other s.pc i p' j ne)) (
        Sure-other (s.pc j) mv
          (let alone = v.alone in let two = sum-two in_lock n s.pc i j lt hj ne in ground arith)
          (v.sure j hj))
  ];
  once =
      let before = rest-sum drains n s.pc i lt in
      let after = rest-set drains n s.pc i p' lt in
      let once = v.once in
      let moved = Move-drains (rest drains n s.pc i) mv (v.sure i lt) (omega arith) in omega arith;
}

Turns-Lock :
    {mode : Mode} {cap n init : ℕ} {s : Threads} → Turns mode cap n (started init) s → Lock n s
Turns-Lock {n} {init} stop = record {
  alone = sum-zero in_lock n (started init).pc (λ i. refl);
  sure = λ i h. tt;
  once = omega (arith, sum-zero drains n (started init).pc (λ i. refl));
}
Turns-Lock (more_turns r t) = Turn-Lock t (Turns-Lock r)

-- Whatever the interleaving, two goroutines are never between `Lock` and `Unlock` of `Close`
-- together, and none is while the lock is free. However many goroutines call `Close`, at most one goroutine is started to destroy the clients
-- of the channel, and none while the pool is open.
pub close_once :
    {mode : Mode} {cap n init : ℕ} {s : Threads}
    → Turns mode cap n (started init) s
    → (sum in_lock n s.pc ≡ bit s.mem.locked)
      × (sum drains n s.pc + s.mem.starting + bit s.mem.attached ≤ 1)
close_once r = let v = Turns-Lock r in (v.alone, v.once)

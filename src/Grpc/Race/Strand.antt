-- ===== src/Grpc/Race/Strand.antt =====
-- pool.go between goroutines: a `Close` between the test of `Client.Close` and its send.
use rpc_pigeon.Common.{ℕ, ◌<◌, ◌≡◌, true, false, arith, ◌≢◌, subst, sym, ◌∙◌, ◌≤◌}
use native.Mathlib.Decide.{ℕ_discrete}
use rpc_pigeon.Common.Threads.{set, set-same, set-other, sum-one, count}
use rpc_pigeon.Grpc.Race.{
  Mode, Memory, Place, idle, checked, sending, locking, testing, detaching, spawning, Move, shut,
  lock, test, detach, read_chan, Threads, pick, Turns, stop, more_turns, started,
}
use rpc_pigeon.Grpc.Race.Moves.{holds, made}
use rpc_pigeon.Grpc.Race.Places.{one_place}

-- The state after a turn of goroutine `i` to the place `p` and the memory `m`.
abbrev pub moved : Threads → ℕ → Memory → Place → Threads
moved s i m p = record { mem = m; pc = set s.pc i p }

turn :
    {mode : Mode} {cap n : ℕ} {r s : Threads} {i : ℕ} {m : Memory} {p q : Place}
    → Turns mode cap n r s
    → i < n
    → s.pc i ≡ p
    → Move mode cap s.mem p m q
    → Turns mode cap n r (moved s i m q)
turn {mode} {cap} {s} {i} {m} {q} r lt e mv =
    more_turns r (pick i lt (subst (λ p. Move mode cap s.mem p m q) (sym e) mv))

append :
    {mode : Mode} {cap n : ℕ} {r s t : Threads}
    → Turns mode cap n r s
    → Turns mode cap n s t
    → Turns mode cap n r t
append r stop = r
append r (more_turns rs t) = more_turns (append r rs) t

-- Goroutine `j` in `Close`, before its lock, its test and its write of nil.
abbrev shut_by : Threads → ℕ → Threads
shut_by s j = moved s j s.mem locking

abbrev locked_by : Threads → ℕ → Threads
locked_by s j = moved (shut_by s j) j (record s.mem { locked = true }) testing

abbrev tested_by : Threads → ℕ → Threads
tested_by s j = moved (locked_by s j) j (record s.mem { locked = true }) detaching

-- Goroutine `j` closes the pool up to the write of nil, and then goroutine `i`, which has tested
-- `IsClose` before, reads the channel.
abbrev pub closing : Threads → ℕ → Threads
closing s j = moved (tested_by s j) j (record s.mem { locked = true; attached = false }) spawning

abbrev pub close_between : Threads → (i j c : ℕ) → Threads
close_between s i j c = let t = closing s j in moved t i t.mem (sending false c)

closing-Turns :
    {mode : Mode} {cap n : ℕ} {s : Threads} {j : ℕ}
    → j < n
    → s.pc j ≡ idle
    → s.mem.attached ≡ true
    → s.mem.locked ≡ false
    → Turns mode cap n s (closing s j)
closing-Turns {s} {j} hj e there free =
    turn
      (turn (turn (turn stop hj e shut) hj (set-same s.pc j locking) (lock free)) hj
        (set-same (shut_by s j).pc j testing) (test there))
      hj (set-same (locked_by s j).pc j detaching) detach

closing-other : (s : Threads) (i j : ℕ) → j ≢ i → (closing s j).pc i ≡ s.pc i
closing-other s i j ne = ground arith

close_between-Turns :
    {mode : Mode} {cap n : ℕ} {s : Threads} (i j c : ℕ)
    → i < n
    → j < n
    → j ≢ i
    → s.pc i ≡ checked c
    → s.pc j ≡ idle
    → s.mem.attached ≡ true
    → s.mem.locked ≡ false
    → Turns mode cap n s (close_between s i j c)
close_between-Turns {s} i j c hi hj ne at e there free =
    turn (closing-Turns hj e there free) hi (closing-other s i j ne ∙ at) read_chan

-- From a send to the nil channel no move leads away.
stuck :
    {mode : Mode} {cap : ℕ} {m m' : Memory} {p p' : Place} {c : ℕ}
    → Move mode cap m p m' p'
    → p ≢ sending false c
stuck shut e = absurd (cc)
stuck mv e = ground arith

Turns-stuck :
    {mode : Mode} {cap n : ℕ} {s t : Threads} {i c : ℕ}
    → s.pc i ≡ sending false c
    → Turns mode cap n s t
    → t.pc i ≡ sending false c
Turns-stuck e stop = e
Turns-stuck {i} {c} e (more_turns {t} r (pick j {p = p'} lt mv)) = elim (ℕ_discrete j i) [
  | yes same ↦
      absurd (stuck mv (subst (λ k. t.pc k ≡ sending false c) (sym same) (Turns-stuck e r)))
  | no ne ↦ set-other t.pc j p' i ne ∙ Turns-stuck e r
]

-- Where a goroutine of `Client.Close` has found the pool open, and another goroutine can close the
-- pool before the first reads the channel, the first is left for ever: whatever the turns afterwards,
-- it stays at a send to the nil channel, and its connection is neither closed nor in the channel.
pub close_strands :
    {mode : Mode} {cap n init : ℕ} {s t : Threads}
    → Turns mode cap n (started init) s
    → (i j c : ℕ) → i < n
    → j < n
    → j ≢ i
    → s.pc i ≡ checked c
    → s.pc j ≡ idle
    → s.mem.attached ≡ true
    → s.mem.locked ≡ false
    → Turns mode cap n (close_between s i j c) t
    → Turns mode cap n s (close_between s i j c)
      × (t.pc i ≡ sending false c)
      × (count c t.mem.queue ≡ 0)
      × (count c t.mem.closed ≡ 0)
close_strands {n} {s} {t} r i j c hi hj ne at e there free later =
    let there = close_between-Turns i j c hi hj ne at e there free in
    let left = Turns-stuck (set-same (closing s j).pc i (sending false c)) later in
    let place = one_place c (append (append r there) later) in
    let mine : holds c (t.pc i) ≡ 1 = rw left (ground arith) in
    let few : made c t.mem ≤ 1 = ground arith in
    let one = sum-one (holds c) n t.pc i hi in (there, left, omega arith, omega arith)

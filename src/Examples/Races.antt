-- ===== src/Examples/Races.antt =====
-- Goroutines over one pool (pkg/plugins/pool/grpc/pool.go), turn by turn.
use rpc_pigeon.Common.{◌+◌, ◌≤◌, ◌≡◌, refl, false, [], ◌∷◌, arith, ◌⊎◌}
use rpc_pigeon.Common.Threads.{sum, count}
use rpc_pigeon.Grpc.Race.{
  strict, sending, idle, taking, Threads, read_chan, shut, lock, test, detach, spawn, end, unlock,
  start_drain, more, drained, check_closed, destroy, send, Turns, stop, more_turns, pick, started,
  enter, select, receive, fresh, give_back, check_open,
}
use rpc_pigeon.Grpc.Race.Moves.{holds}
use rpc_pigeon.Grpc.Race.Places.{one_place}
use rpc_pigeon.Grpc.Race.Progress.{Goes, Waits, Held, blocked_only}
use rpc_pigeon.Grpc.Race.Close.{close_once, in_lock, drains, bit}
use rpc_pigeon.Grpc.Race.Strand.{close_strands, close_between}

-- A pool of one client and two goroutines, of which goroutine 0 borrows it.
abbrev borrowed : (s : Threads) × Turns strict 1 2 (started 1) s
borrowed = (
  _,
  more_turns
      (more_turns
        (more_turns (more_turns stop (pick 0 (omega arith) (enter refl)))
          (pick 0 (omega arith) (select {done = false})))
        (pick 0 (omega arith) (receive refl)))
      (pick 0 (omega arith) fresh),
)

abbrev tested : (s : Threads) × Turns strict 1 2 (started 1) s
tested = (
  _,
  more_turns (more_turns borrowed.1 (pick 0 (omega arith) give_back))
      (pick 0 (omega arith) (check_open refl)),
)

one_place_example :
    sum (holds 0) 2 borrowed.0.pc + count 0 borrowed.0.mem.queue + count 0 borrowed.0.mem.closed ≡ 1
one_place_example = one_place 0 borrowed.1

abbrev at_send : (s : Threads) × Turns strict 1 2 (started 1) s
at_send = (_, more_turns tested.1 (pick 0 (omega arith) read_chan))

blocked_only_example :
    Goes strict 1 at_send.0.mem (at_send.0.pc 0)
    ⊎ Waits (Held strict 1 2 at_send.0) at_send.0.mem (at_send.0.pc 0)
blocked_only_example = blocked_only 0 (ground arith) (omega arith) at_send.1 (omega arith)

close_strands_example :
    Turns strict 1 2 tested.0 (close_between tested.0 0 1 0)
    × ((close_between tested.0 0 1 0).pc 0 ≡ sending false 0)
    × (count 0 (close_between tested.0 0 1 0).mem.queue ≡ 0)
    × (count 0 (close_between tested.0 0 1 0).mem.closed ≡ 0)
close_strands_example =
    close_strands tested.1 0 1 0 (omega arith) (omega arith) (ground arith) refl refl refl refl stop

-- The goroutine of `Close` has found a client in the channel, which goroutine 0 then receives.
abbrev robbed : (s : Threads) × Turns strict 1 2 (started 1) s
robbed = (
  _,
  more_turns
      (more_turns
        (more_turns
          (more_turns
            (more_turns
              (more_turns
                (more_turns
                  (more_turns
                    (more_turns
                      (more_turns
                        (more_turns
                          (more_turns
                            (more_turns
                              (more_turns
                                (more_turns (more_turns stop (pick 0 (omega arith) (enter refl)))
                                  (pick 0 (omega arith) (select {done = false})))
                                (pick 1 (omega arith) shut))
                              (pick 1 (omega arith) (lock refl)))
                            (pick 1 (omega arith) (test refl)))
                          (pick 1 (omega arith) detach))
                        (pick 1 (omega arith) spawn))
                      (pick 1 (omega arith) end))
                    (pick 1 (omega arith) unlock))
                  (pick 1 (omega arith) (start_drain refl)))
                (pick 1 (omega arith) (more refl)))
              (pick 0 (omega arith) (receive refl)))
            (pick 0 (omega arith) fresh))
          (pick 0 (omega arith) give_back))
        (pick 0 (omega arith) (check_closed refl)))
      (pick 0 (omega arith) destroy),
)

close_once_example :
    (sum in_lock 2 robbed.0.pc ≡ 0)
    × (sum drains 2 robbed.0.pc + robbed.0.mem.starting + bit robbed.0.mem.attached ≤ 1)
close_once_example = close_once robbed.1

-- It waits at an empty channel, although every client was given back and destroyed.
robbed_waits : (robbed.0.pc 0 ≡ idle) × (robbed.0.pc 1 ≡ taking) × (robbed.0.mem.queue ≡ [])
robbed_waits = (refl, refl, refl)

-- Goroutine 0 has read the channel before `Close`, and sends when the channel is drained.
abbrev late_return : (s : Threads) × Turns strict 1 2 (started 1) s
late_return = (
  _,
  more_turns
      (more_turns
        (more_turns
          (more_turns
            (more_turns
              (more_turns
                (more_turns
                  (more_turns
                    (more_turns
                      (more_turns (more_turns tested.1 (pick 0 (omega arith) read_chan))
                        (pick 1 (omega arith) shut))
                      (pick 1 (omega arith) (lock refl)))
                    (pick 1 (omega arith) (test refl)))
                  (pick 1 (omega arith) detach))
                (pick 1 (omega arith) spawn))
              (pick 1 (omega arith) end))
            (pick 1 (omega arith) unlock))
          (pick 1 (omega arith) (start_drain refl)))
        (pick 1 (omega arith) (drained refl)))
      (pick 0 (omega arith) (send (omega arith))),
)

-- All is over, and connection 0 is in the channel that the pool has left behind.
late_return_leaks :
    (late_return.0.pc 0 ≡ idle)
    × (late_return.0.pc 1 ≡ idle)
    × (late_return.0.mem.queue ≡ 0 ∷ [])
    × (late_return.0.mem.closed ≡ [])
late_return_leaks = (refl, refl, refl, refl)

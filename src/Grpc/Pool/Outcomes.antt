-- ===== src/Grpc/Pool/Outcomes.antt =====
-- The outcomes of `Acquire` (pool.go) in a pool whose channel holds its own clients, within its
-- capacity, and whose mode is one of the two that pool.go defines.
use rpc_pigeon.Common.{
  ℕ, ◌≤◌, ◌<◌, ◌^◌, ℤ, pos, ◌≡◌, sym, subst, ap, ◌+◌, ◌∙◌, inl, inr, List, [], ◌∷◌, false, Option,
  none, some, arith, Option-cases, length, All,
}
use rpc_pigeon.Common.Run.{Run, ret, ret-eq-ret}
use rpc_pigeon.Grpc.Heap.{Error, Time, Client, Chan, Pool, Heap, len}
use rpc_pigeon.Grpc.Pool.{
  Ready, done, received, acquire, acquire_case, acquire_loose, acquire_received, over_capacity,
}
use rpc_pigeon.Grpc.Pool.Capacity.{over_capacity-false}
use rpc_pigeon.Grpc.Pool.Acquire.{
  KnownMode, InPool, NilOrInPool, Took, nothing, oldest, received-Took, loose_first, loose_empty,
  received_empty, done_strict, done_loose, acquire_open, acquire_shut,
}

-- A channel of the capacity that its owner states, with room for the `n` clients that are lent.
abbrev pub Room : (Option Client → Type 0) → ℕ → ℤ → Option Chan → Type 0
Room Held n capacity none = Unit
Room Held n capacity (some ch) =
    (capacity ≡ pos ch.cap) × (ch.cap < 2 ^ 31) × (length ch.buf + n ≤ ch.cap) × All Held ch.buf

module _ (h : Heap) (p : ℕ) (pool : Pool) (at_p : h.pools p ≡ some pool) where
  pub over_capacity-Room :
      (n : ℕ) (ch : Chan)
      → pool.clients ≡ some ch
      → Room (InPool p) n pool.capacity (some ch)
      → over_capacity pool ≡ false
  over_capacity-Room n ch e room =
      over_capacity-false pool ch.cap room.0 room.1
        (subst (λ c. len c ≤ ch.cap) (sym e) (omega (arith, room.2)))

  received-Took' :
      (n cap : ℕ) (buf : List (Option Client)) (now later : Time) (c : Option Client)
      (err : Option Error) (h' : Heap)
      → pool.clients ≡ some (record { cap = cap; buf = buf })
      → All (InPool p) buf
      → acquire_received p pool now later h ≡ ret (c, err) h'
      → Took h p pool c h'
  received-Took' n cap [] now later c err h' e own r =
      absurd (cc (received_empty h p pool at_p cap now later e))
  received-Took' n cap (none ∷ rest) now later c err h' e own r = absurd own.0
  received-Took' n cap (some x ∷ rest) now later c err h' e own r =
      received-Took h p pool at_p cap x rest now later e own.0 c err h' r

  loose-Took :
      (cap : ℕ) (buf : List (Option Client)) (later : Time) (c : Option Client) (err : Option Error)
      (h' : Heap)
      → pool.clients ≡ some (record { cap = cap; buf = buf })
      → All (InPool p) buf
      → over_capacity pool ≡ false
      → acquire_loose p pool later h ≡ ret (c, err) h'
      → Took h p pool c h'
  loose-Took cap [] later c err h' e own fits r =
      absurd (cc (loose_empty h p pool at_p cap later e fits))
  loose-Took cap (none ∷ rest) later c err h' e own fits r = absurd own.0
  loose-Took cap (some x ∷ rest) later c err h' e own fits r =
      let (same, heap) = ret-eq-ret (loose_first h p pool at_p cap (some x) rest later e fits) r in
      oldest cap (some x) rest _ _ e
        (subst (NilOrInPool p) (sym (ap (λ (q : Option Client × Option Error). q.0) same)) own.0)
        heap

  Took-nothing :
      {m : Run Heap (Option Client × Option Error)} {err err' : Option Error} {c : Option Client}
      {h' : Heap}
      → m ≡ ret (none, err') h
      → m ≡ ret (c, err) h'
      → Took h p pool c h'
  Took-nothing q r = nothing (ground arith) (ground arith)

  case-Took :
      (n : ℕ) (ready : Ready) (now later : Time) (ch : Chan) (c : Option Client)
      (err : Option Error) (h' : Heap)
      → pool.clients ≡ some ch
      → Room (InPool p) n pool.capacity (some ch)
      → KnownMode pool.mode
      → acquire_case ready p pool now later h ≡ ret (c, err) h'
      → Took h p pool c h'
  case-Took n received now later ch c err h' e room known r =
      received-Took' n ch.cap ch.buf now later c err h' e room.3 r
  case-Took n done now later ch c err h' e room (inl strict) r =
      Took-nothing (done_strict h p pool at_p later strict) r
  case-Took n done now later ch c err h' e room (inr loose) r =
      loose-Took ch.cap ch.buf later c err h' e room.3 (over_capacity-Room n ch e room)
        (sym (done_loose h p pool at_p later loose) ∙ r)

  -- An `Acquire` that returns in such a pool took nothing or the oldest entry, and never more.
  pub acquire-Took :
      (n : ℕ) (ready : Ready) (now later : Time) (c : Option Client) (err : Option Error)
      (h' : Heap)
      → Room (InPool p) n pool.capacity pool.clients
      → KnownMode pool.mode
      → acquire (some p) ready now later h ≡ ret (c, err) h'
      → Took h p pool c h'
  acquire-Took n ready now later c err h' room known r = elim (Option-cases pool.clients) [
    | inl shut ↦ Took-nothing (acquire_shut h p pool at_p ready now later shut) r
    | inr (ch, e) ↦
        case-Took n ready now later ch c err h' e (subst (Room (InPool p) n pool.capacity) e room)
          known (sym (acquire_open h p pool at_p ch ready now later e) ∙ r)
  ]

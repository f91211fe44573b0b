-- ===== src/Grpc/Handler/Ends.antt =====
-- How a proxied call ends, and that its client goes back.
use rpc_pigeon.Common.{
  ℕ, ◌≡◌, ◌≢◌, refl, ◌⊎◌, inl, inr, ◌↔◌, [], ◌∷◌, Bool, true, false, Option, none, some, Bool-cases,
  arith,
}
use rpc_pigeon.Common.Text.{Text}
use rpc_pigeon.Common.Run.{ret}
use rpc_pigeon.Grpc.Heap.{Time, Client, Heap, Exec}
use rpc_pigeon.Grpc.Pool.{dial}
use rpc_pigeon.Grpc.Director.{
  Metadata, Globals, Weather, Directed, forward, reject, grpc_proxy_transport,
}
use rpc_pigeon.Grpc.Director.Lends.{client_of, CleanDirected, director_lends}
use rpc_pigeon.Grpc.Handler.{
  StreamError, eof, failed, Streams, Calls, Result, ok, never, refused, no_stream, failed_s2c,
  s2c_end, c2s_end, select_loop, end_c2s, no_calls, proxy, handler, serve, leave,
}
use rpc_pigeon.Grpc.System.Safety.{return_never_blocks}
use rpc_pigeon.Grpc.System.{Sys, give_back, Reach, next, initial, lend}

-- What `select` finds on its first round.
abbrev pub first_round : Streams → Bool
first_round x = x.first 1

-- Something ends the loop of `select`: the backend's direction, or a failure of the caller's.
abbrev pub Decided : (a b : Option StreamError) → Type 0
Decided a b = ((e : StreamError) × (b ≡ some e)) ⊎ ((n : ℕ) × (a ≡ some (failed n)))

-- Nothing does: the backend's direction never ends, and the caller's ends well or never.
abbrev pub Undecided : (a b : Option StreamError) → Type 0
Undecided a b = (b ≡ none) × ((a ≡ none) ⊎ (a ≡ some eof))

-- How the loop ends where the caller's side ends with `a` and the backend's with `b`.
abbrev pub Ends : (a b : Option StreamError) → Bool → Calls → Result → Type 0
Ends a b s2c_first calls r =
    (r ≢ never)
    × ((r ≡ ok) ↔ ((b ≡ some eof) × ((a ≡ none) ⊎ (a ≡ some eof) ⊎ (s2c_first ≡ false))))
    × ((calls.cancelled ≡ true) ↔ ((a ≢ none) × (a ≢ some eof) × ((b ≡ none) ⊎ (s2c_first ≡ true))))

-- The loop ends, or waits for ever.
abbrev pub Outcome : (a b : Option StreamError) → Bool → Option (Calls × Result) → Type 0
Outcome a b s2c_first o =
    Undecided a b × (o ≡ none)
    ⊎ Decided a b
      × ((calls : Calls) × (r : Result) × (o ≡ some (calls, r)) × Ends a b s2c_first calls r)

-- The calls and the result of a loop that ends; the choice of the first round decides where both may be.
loop_end : Bool → (a b : Option StreamError) → Calls × Result
loop_end s none none = (no_calls, ok)
loop_end s none (some b) = end_c2s b no_calls
loop_end s (some eof) none = (no_calls, ok)
loop_end s (some (failed m)) none = (record no_calls { cancelled = true }, failed_s2c (failed m))
loop_end true (some eof) (some b) = end_c2s b (record no_calls { close_send = true })
loop_end true (some (failed m)) (some b) =
    (record no_calls { cancelled = true }, failed_s2c (failed m))
loop_end false (some a) (some b) = end_c2s b no_calls

EndsWith : Bool → (a b : Option StreamError) → Type 0
EndsWith s a b = Ends a b s (loop_end s a b).0 (loop_end s a b).1

loop_end-Ends : (s : Bool) (a b : Option StreamError) → Decided a b → EndsWith s a b
unfolding EndsWith loop_end
loop_end-Ends s none none (inl (e, is)) = absurd (cc)
loop_end-Ends s none none (inr (n, is)) = absurd (cc)
loop_end-Ends s (some eof) none (inl (e, is)) = absurd (cc)
loop_end-Ends s (some eof) none (inr (n, is)) = absurd (ground arith)
loop_end-Ends s none (some eof) d = (
  λ e. ground arith,
  (λ e. (refl, inl refl), λ e. refl),
  (λ e. absurd (ground arith), λ e. absurd (e.0 refl)),
)
loop_end-Ends s none (some (failed n)) d = (
  λ e. ground arith,
  (λ e. absurd (ground arith), λ e. absurd (ground arith)),
  (λ e. absurd (ground arith), λ e. absurd (e.0 refl)),
)
loop_end-Ends s (some (failed m)) none d = (
  λ e. ground arith,
  (λ e. absurd (ground arith), λ e. absurd (ground arith)),
  (λ e. (λ f. ground arith, λ f. ground arith, inl refl), λ e. refl),
)
loop_end-Ends true (some eof) (some eof) d = (
  λ e. ground arith,
  (λ e. (refl, inr (inl refl)), λ e. refl),
  (λ e. absurd (ground arith), λ e. absurd (e.1 refl)),
)
loop_end-Ends true (some eof) (some (failed n)) d = (
  λ e. ground arith,
  (λ e. absurd (ground arith), λ e. absurd (ground arith)),
  (λ e. absurd (ground arith), λ e. absurd (e.1 refl)),
)
loop_end-Ends true (some (failed m)) (some b) d = (
  λ e. ground arith,
  (λ e. absurd (ground arith), λ e. absurd (ground arith)),
  (λ e. (λ f. ground arith, λ f. ground arith, inr refl), λ e. refl),
)
loop_end-Ends false (some a) (some eof) d = (
  λ e. ground arith,
  (λ e. (refl, inr (inr refl)), λ e. refl),
  (λ e. absurd (ground arith), λ e. absurd (ground arith)),
)
loop_end-Ends false (some a) (some (failed n)) d = (
  λ e. ground arith,
  (λ e. absurd (ground arith), λ e. absurd (ground arith)),
  (λ e. absurd (ground arith), λ e. absurd (ground arith)),
)

select_loop-loop_end :
    (first : ℕ → Bool) (a b : Option StreamError)
    → Decided a b
    → select_loop first 2 a b no_calls ≡ some (loop_end (first 1) a b)
unfolding select_loop loop_end
select_loop-loop_end first none none (inl (e, is)) = absurd (cc)
select_loop-loop_end first none none (inr (n, is)) = absurd (cc)
select_loop-loop_end first none (some b) d = refl
select_loop-loop_end first (some eof) none (inl (e, is)) = absurd (cc)
select_loop-loop_end first (some eof) none (inr (n, is)) = absurd (ground arith)
select_loop-loop_end first (some (failed m)) none d = refl
select_loop-loop_end first (some eof) (some b) d = elim (Bool-cases (first 1)) [
  | inl s2c ↦ rw s2c refl
  | inr c2s ↦ rw c2s refl
]
select_loop-loop_end first (some (failed m)) (some b) d = elim (Bool-cases (first 1)) [
  | inl s2c ↦ rw s2c refl
  | inr c2s ↦ rw c2s refl
]

decide : (a b : Option StreamError) → Undecided a b ⊎ Decided a b
decide none none = inl (refl, inl refl)
decide (some eof) none = inl (refl, inr refl)
decide (some (failed n)) none = inr (inr (n, refl))
decide a (some e) = inr (inl (e, refl))

select_waits :
    (first : ℕ → Bool) (a b : Option StreamError)
    → Undecided a b
    → select_loop first 2 a b no_calls ≡ none
unfolding select_loop
select_waits first a b (quiet, inl silent) = rw (quiet, silent) refl
select_waits first a b (quiet, inr closed) = rw (quiet, closed) refl

-- The loop of `select` of a call whose stream to the backend is open waits for ever exactly if nothing
-- decides it: the backend's direction never ends, and the caller's ends with EOF or never. Otherwise
-- the call comes to an end, and never with the error that is "never reached". It succeeds exactly if
-- the backend's direction ended with EOF and the caller's did not fail before; its stream is cancelled
-- exactly if the caller's direction failed, and first.
pub proxy-Ends : (x : Streams) → Outcome (s2c_end x) (c2s_end x) (first_round x) (proxy none x)
unfolding proxy EndsWith
proxy-Ends x = elim (decide (s2c_end x) (c2s_end x)) [
  | inl undecided ↦ inl (undecided, select_waits x.first (s2c_end x) (c2s_end x) undecided)
  | inr decided ↦ inr (
    decided,
    (
      _,
      _,
      select_loop-loop_end x.first (s2c_end x) (c2s_end x) decided,
      loop_end-Ends (first_round x) (s2c_end x) (c2s_end x) decided,
    ),
  )
]

-- Something ends the call: no stream to the backend is opened, or its loop of `select` is decided.
abbrev pub Settles : Option StreamError → Streams → Type 0
Settles (some e) x = Unit
Settles none x = Decided (s2c_end x) (c2s_end x)

-- The handler ends, and its client is back.
abbrev pub GivesBack : Sys → Exec Result → Type 0
GivesBack s run =
    (r : Result) × (h : Heap) × (run s.heap ≡ ret r h) × Reach initial (record s { heap = h })

module _ (s : Sys) (reach : Reach initial s) (now : Time) where
  -- The state in which the director has handed on the client.
  abbrev with_client : Client → Heap → Sys
  with_client c h = record s { heap = h; lent = c ∷ s.lent }

  leave_gives_back :
      (c : Client) (h : Heap) (calls : Calls) (result : Result)
      → Reach initial (with_client c h)
      → (h' : Heap) × (leave c now (some (calls, result)) h ≡ ret result h')
        × Reach initial (record s { heap = h' })
  leave_gives_back c h calls result r =
      let (h', e) = return_never_blocks r [] c s.lent now refl in
      (h', rw e refl, next r (give_back [] c s.lent now h' refl e))

  served :
      (dial : Option StreamError) (x : Streams) (c : Client) (h : Heap)
      → Settles dial x
      → Reach initial (with_client c h)
      → (result : Result) × (h' : Heap) × (leave c now (proxy dial x) h ≡ ret result h')
        × Reach initial (record s { heap = h' })
  served (some e) x c h settles r =
      let (h', ends, back) = leave_gives_back c h no_calls (no_stream e) r in
      (no_stream e, h', unfold proxy in ends, back)
  served none x c h settles r =
      let e = select_loop-loop_end x.first (s2c_end x) (c2s_end x) settles in
      let ended = loop_end (first_round x) (s2c_end x) (c2s_end x) in
      let (h', ends, back) = leave_gives_back c h ended.0 ended.1 r in
      (ended.1, h', (unfold proxy in rw e ends), back)

  serve_gives_back :
      (dial : Option StreamError) (x : Streams) (d : Directed) (h : Heap)
      → Settles dial x
      → Reach initial (record s { heap = h; lent = lend (client_of d) s.lent })
      → CleanDirected d
      → (result : Result) × (h' : Heap) × (serve dial x now d h ≡ ret result h')
        × Reach initial (record s { heap = h' })
  serve_gives_back dial x (reject e) h settles r clean = (refused e, h, refl, r)
  serve_gives_back dial x (forward md c (some e)) h settles r clean = absurd (cc)
  serve_gives_back dial x (forward md c none) h settles r clean = served dial x c h settles r

-- After any calls, once the director has answered, the handler of a proxied call comes to an end and
-- gives back the client that the director lent to it: the state is one
-- that calls of the pools reach, with the same clients lent as before. This holds however its streams
-- end, if the call does not wait for ever: its stream is not opened, or the backend's direction ends,
-- or the caller's fails.
pub handler-GivesBack :
    {s : Sys} (g : Globals) (w : Weather) (incoming : Option Metadata) (method : Text)
    (dial : Option StreamError) (x : Streams) (now : Time) (d : Directed) (h : Heap)
    → Settles dial x
    → Reach initial s
    → grpc_proxy_transport g w incoming method s.heap ≡ ret d h
    → GivesBack s (handler g w incoming (some method) dial x now)
unfolding handler
handler-GivesBack {s} g w incoming method dial x now d h settles reach directs =
    let (r, clean, once) = director_lends g w s reach incoming method d h directs in
    let (result, h', ends, back) = serve_gives_back s reach now dial x d h settles r clean in
    (result, h', rw directs ends, back)

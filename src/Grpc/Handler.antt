-- ===== src/Grpc/Handler.antt =====
-- pkg/plugins/pool/grpc/handler.go: the handler of a proxied stream. The streams of gRPC are
-- arguments: what each side sends until it ends, and which sends the other side refuses.
pub mod Relay
pub mod Ends
use rpc_pigeon.Common.{
  ℕ, zero, suc, List, [], ◌∷◌, Bool, true, false, Option, none, some, ◌==◌, if◌then◌else◌,
}
use rpc_pigeon.Common.Text.{Text}
use rpc_pigeon.Common.Dict.{Dict}
use rpc_pigeon.Common.Run.{Run, ret, blocked, ◌>>=◌, ◌>>◌}
use rpc_pigeon.Grpc.Heap.{Error, Time, Client, Exec, pure}
use rpc_pigeon.Grpc.Pool.{client_close}
use rpc_pigeon.Grpc.Director.{
  Metadata, Globals, Weather, Directed, forward, reject, grpc_proxy_transport,
}

-- `io.EOF`, or an error with a number.
pub data StreamError : Type 0 where
  eof : StreamError
  failed : ℕ → StreamError

-- What a source sends, and the error that ends it, if it ever ends: `RecvMsg` waits for ever after the
-- messages of one that does not. Which sends to a sink fail, by their number.
pub record Source : Type 0 where
  pub messages : List Text
  pub end : Option StreamError

abbrev pub Sink : Type 0
Sink = ℕ → Option StreamError

-- What was sent on, and the error put into the channel, if one ever is.
abbrev pub Relayed : Type 0
Relayed = List Text × Option StreamError

abbrev pub sent : Text → Relayed → Relayed
sent m (ms, e) = (m ∷ ms, e)

-- The loop of `forwardServerToClient`, from its round `i` on.
unfoldable pub forward_server_to_client : Sink → ℕ → List Text → Option StreamError → Relayed
forward_server_to_client sink i [] end = ([], end)
forward_server_to_client sink i (m ∷ ms) end =
    let rest = forward_server_to_client sink (suc i) ms end in
    elim (sink i) [ some e ↦ ([], some e) | none ↦ sent m rest ]

-- The header that the source has, and the sending of it: an error of either ends the loop.
pub record Header : Type 0 where
  pub header : Option StreamError
  pub send_header : Option StreamError

unfoldable pub header_error : Header → ℕ → Option StreamError
header_error hd i =
    if i == 0 then (elim hd.header [ some e ↦ some e | none ↦ hd.send_header ]) else none

-- The loop of `forwardClientToServer`, whose round 0 sends the header first.
unfoldable pub forward_client_to_server :
    Header → Sink → ℕ → List Text → Option StreamError → Relayed
unfolding header_error
forward_client_to_server hd sink i [] end = ([], end)
forward_client_to_server hd sink i (m ∷ ms) end =
    let rest = forward_client_to_server hd sink (suc i) ms end in
    elim (header_error hd i) [
      | some e ↦ ([], some e)
      | none ↦ elim (sink i) [ some e ↦ ([], some e) | none ↦ sent m rest ]
    ]

-- What the handler returns: nil, an error of the director or of the new stream, the error of either
-- direction, or the one that should never be reached.
pub data Result : Type 0 where
  ok : Result
  no_method : Result
  refused : Error → Result
  no_stream : StreamError → Result
  failed_s2c : StreamError → Result
  backend : StreamError → Result
  never : Result

-- The calls made on the streams.
pub record Calls : Type 0 where
  pub close_send : Bool
  pub cancelled : Bool
  pub trailer : Bool

-- `case c2sErr`
abbrev pub end_c2s : StreamError → Calls → Calls × Result
end_c2s eof calls = (record calls { trailer = true }, ok)
end_c2s (failed n) calls = (record calls { trailer = true }, backend (failed n))

-- The loop of `select`: a channel that is ready, or is once its stream has ended, and not yet read
-- from, is `some` error and may be chosen; `first` tells in each round whether that of the caller's
-- side is chosen where both may be. Where nothing more can come, `select` waits for ever: `none`.
unfoldable pub select_loop :
    (first : ℕ → Bool)
    → (rounds : ℕ) → (s2c c2s : Option StreamError) → Calls
    → Option (Calls × Result)
select_loop first zero s2c c2s calls = some (calls, never)
select_loop first (suc rounds) none none calls = none
select_loop first (suc rounds) none (some e) calls = some (end_c2s e calls)
select_loop first (suc rounds) (some eof) none calls =
    select_loop first rounds none none (record calls { close_send = true })
select_loop first (suc rounds) (some (failed n)) none calls =
    some (record calls { cancelled = true }, failed_s2c (failed n))
select_loop first (suc rounds) (some eof) (some e) calls =
    let rest = select_loop first rounds none (some e) (record calls { close_send = true }) in
    if first rounds then rest else some (end_c2s e calls)
select_loop first (suc rounds) (some (failed n)) (some e) calls =
    if first rounds
    then some (record calls { cancelled = true }, failed_s2c (failed n))
    else some (end_c2s e calls)

-- The two streams of a call and the order of their ends.
pub record Streams : Type 0 where
  pub caller : Source
  pub to_backend : Sink
  pub backend : Source
  pub to_caller : Sink
  pub header : Header
  pub first : ℕ → Bool

abbrev pub no_calls : Calls
no_calls = record { close_send = false; cancelled = false; trailer = false }

abbrev pub s2c_end : Streams → Option StreamError
s2c_end x = (forward_server_to_client x.to_backend 0 x.caller.messages x.caller.end).1

abbrev pub c2s_end : Streams → Option StreamError
c2s_end x = (forward_client_to_server x.header x.to_caller 0 x.backend.messages x.backend.end).1

-- The handler behind `NewClientStream`, which may fail.
unfoldable pub proxy : Option StreamError → Streams → Option (Calls × Result)
unfolding forward_server_to_client forward_client_to_server select_loop
proxy (some e) x = some (no_calls, no_stream e)
proxy none x = select_loop x.first 2 (s2c_end x) (c2s_end x) no_calls

-- Once the loop of `select` has returned, the deferred `conn.Close()` runs.
abbrev pub leave : Client → Time → Option (Calls × Result) → Exec Result
leave c now none = blocked
leave c now (some (calls, result)) = do client_close c now; pure result

-- A client in hand with an error is not given back: the handler returns before its `defer`.
abbrev pub serve : Option StreamError → Streams → Time → Directed → Exec Result
serve dial x now (reject e) = pure (refused e)
serve dial x now (forward md c (some e)) = pure (refused e)
serve dial x now (forward md c none) = leave c now (proxy dial x)

-- `handler`: the method of the stream, if it has one.
unfoldable pub handler :
    Globals
    → Weather
    → Option Metadata
    → Option Text
    → Option StreamError
    → Streams
    → Time
    → Exec Result
unfolding grpc_proxy_transport proxy client_close
handler g w incoming none dial x now = pure no_method
handler g w incoming (some method) dial x now = do
  d ← grpc_proxy_transport g w incoming method
  serve dial x now d

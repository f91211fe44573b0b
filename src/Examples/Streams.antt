-- ===== src/Examples/Streams.antt =====
-- A proxied call over the pool of `Examples.Pools`.
use rpc_pigeon.Common.{
  ◌≡◌, refl, inl, pos, List, [], ◌∷◌, true, false, none, some, if◌then◌else◌, ◌==◌,
}
use rpc_pigeon.Common.Text.{Text, codes}
use rpc_pigeon.Grpc.Pool.{strict_mode}
use rpc_pigeon.Grpc.Director.{forward}
use rpc_pigeon.Grpc.Handler.{
  eof, failed, Sink, Header, Streams, proxy, s2c_end, c2s_end, forward_server_to_client,
  forward_client_to_server, header_error, handler,
}
use rpc_pigeon.Grpc.Handler.Relay.{Relays, forward_server_to_client-Relays}
use rpc_pigeon.Grpc.Handler.Ends.{Outcome, first_round, proxy-Ends, GivesBack, handler-GivesBack}
use rpc_pigeon.Examples.Pools
use rpc_pigeon.Examples.Pools.{after_make, Reach-make}
use rpc_pigeon.Examples.Routes.{globals, weather, metadata, lent, directs}

-- A sink that refuses the second message.
abbrev one_only : Sink
one_only i = if i == 1 then some (failed 3) else none

abbrev messages : List Text
messages = codes "a" ∷ codes "b" ∷ []

abbrev header : Header
header = record { header = none; send_header = none }

abbrev streams : Streams
streams = record {
  caller = record { messages = messages; end = some eof };
  to_backend = one_only;
  backend = record { messages = messages; end = some eof };
  to_caller = λ i. none;
  header = header;
  first = λ i. true;
}

forward_server_to_client-Relays_example :
    Relays one_only 0 messages (some eof) (forward_server_to_client one_only 0 messages (some eof))
forward_server_to_client-Relays_example =
    forward_server_to_client-Relays one_only 0 messages (some eof)

proxy-Ends_example :
    Outcome (s2c_end streams) (c2s_end streams) (first_round streams) (proxy none streams)
proxy-Ends_example = proxy-Ends streams

streams_end : c2s_end streams ≡ some eof
unfolding forward_client_to_server header_error
streams_end = refl

handler-GivesBack_example : GivesBack (after_make strict_mode) (
    handler (globals true false) weather (some metadata) (some (codes "/asr")) none streams (pos 5))
handler-GivesBack_example =
    handler-GivesBack (globals true false) weather (some metadata) (codes "/asr") none streams
      (pos 5) (forward metadata lent none) Pools.after_take.heap (inl (eof, streams_end)) Reach-make
      directs

-- ===== src/Grpc/Handler/Relay.antt =====
-- What the two loops of the handler send on.
use rpc_pigeon.Common.{
  ℕ, suc, ◌+◌, ◌<◌, ◌≡◌, refl, subst, ap, ◌⊎◌, inl, inr, List, [], ◌∷◌, ◌++◌, Option, none, some,
  Option-cases, length, arith,
}
use rpc_pigeon.Common.Text.{Text}
use rpc_pigeon.Grpc.Handler.{
  StreamError, Sink, Relayed, Header, header_error, forward_server_to_client, sent,
}

-- The sink takes each of the messages, which it is sent one after the other.
abbrev pub Accepted : Sink → ℕ → List Text → Type 0
Accepted sink i [] = Unit
Accepted sink i (m ∷ out) = (sink i ≡ none) × Accepted sink (suc i) out

-- What was sent is the beginning of what the source sent, in order, and was all accepted: all of it,
-- and then the source's end, if it has one, was put into the channel; or all before a message whose
-- sending failed, and then that error was.
abbrev pub Relays : Sink → ℕ → List Text → Option StreamError → Relayed → Type 0
Relays sink i ms end (out, e) =
    Accepted sink i out
    × ((rest : List Text) × (ms ≡ out ++ rest)
        × ((rest ≡ []) × (e ≡ end)
            ⊎ (0 < length rest)
              × ((err : StreamError) × (e ≡ some err) × (sink (i + length out) ≡ some err))))

-- The header's error comes before that of the first message.
abbrev pub headed : Header → Sink → Sink
headed hd sink i = elim (header_error hd i) [ some e ↦ some e | none ↦ sink i ]

Relays-sent :
    (sink : Sink) (i : ℕ) (m : Text) (ms : List Text) (end : Option StreamError) (r : Relayed)
    → sink i ≡ none
    → Relays sink (suc i) ms end r
    → Relays sink i (m ∷ ms) end (sent m r)
Relays-sent sink i m ms end (out, e) takes (accepted, (rest, parts, inl all)) =
    ((takes, accepted), (rest, ap (λ l. m ∷ l) parts, inl all))
Relays-sent sink i m ms end (out, e) takes
      (accepted, (rest, parts, inr (some_left, (err, is, fails)))) =
    (
      (takes, accepted),
      (
        rest,
        ap (λ l. m ∷ l) parts,
        inr (some_left, (err, is, subst (λ j. sink j ≡ some err) (omega arith) fails)),
      ),
    )

-- The caller's messages reach the backend in order, up to the first that the backend refuses: those
-- before it are all accepted, nothing is sent after it, and the loop ends with the refusal's error.
-- Without a refusal all are sent, and the loop ends as the caller does, or not if the caller never ends.
pub forward_server_to_client-Relays :
    (sink : Sink) (i : ℕ) (ms : List Text) (end : Option StreamError)
    → Relays sink i ms end (forward_server_to_client sink i ms end)
unfolding forward_server_to_client
forward_server_to_client-Relays sink i [] end = (tt, ([], refl, inl (refl, refl)))
forward_server_to_client-Relays sink i (m ∷ ms) end = elim (Option-cases (sink i)) [
  | inl accepted ↦
      rw (forward_server_to_client, accepted)
        (Relays-sent sink i m ms end _ accepted
          (forward_server_to_client-Relays sink (suc i) ms end))
  | inr (e, fails) ↦
      rw (forward_server_to_client, fails)
        (
          tt,
          (
            m ∷ ms,
            refl,
            inr (omega arith, (e, refl, subst (λ (j : ℕ). sink j ≡ some e) (omega arith) fails)),
          ),
        )
]

-- ===== src/Http/Proxy/Leaks.antt =====
-- What an exchange of the proxy comes to.
use rpc_pigeon.Common.{
  ◌≡◌, refl, subst, ◌⊎◌, inl, inr, List, [], Bool, true, false, some, if◌then◌else◌, is_some,
  of_is_some, arith,
}
use rpc_pigeon.Common.Text.{Text, codes, eq_text, eq_of_eq_text, to_upper}
use rpc_pigeon.Http.Proxy.{
  Incoming, Outgoing, Reply, body, failed, request, proxied, replied, HttpRequest, get_request_url,
  get_of, post_of, values, string,
}
use rpc_pigeon.Http.Proxy.Exchange.{
  Handler, waiting, answered, Worker, working, sends_body, finished, Exchange, after_request, found,
  internal_error, timed_out, Step, returns, takes_body, takes_error, times_out, Reaches, at_start,
  step,
}

-- What fits the handler and the goroutine of a request with this reply.
abbrev pub Fits : Reply → Handler → Worker → Type 0
Fits reply waiting w = (w ≡ working) ⊎ (w ≡ after_request (some reply))
Fits reply (answered r) w =
    ((b : Text) × (reply ≡ body b) × (r ≡ found b) × (w ≡ finished))
    ⊎ ((err : Text) × (reply ≡ failed err) × (r ≡ internal_error err) × (w ≡ sends_body []))
    ⊎ ((r ≡ timed_out) × ((w ≡ working) ⊎ (w ≡ after_request (some reply))))

Step-Fits :
    (reply : Reply) {x y : Exchange}
    → Step (some reply) x y
    → Fits reply x.handler x.worker
    → Fits reply y.handler y.worker
Step-Fits reply (returns {h = waiting}) f = inr refl
Step-Fits reply (returns {h = answered r}) (inl (b, e, same, w)) = absurd (cc)
Step-Fits reply (returns {h = answered r}) (inr (inl (err, e, same, w))) = absurd (cc)
Step-Fits reply (returns {h = answered r}) (inr (inr (same, w))) = inr (inr (same, inr refl))
Step-Fits reply (takes_body b) (inl e) = absurd (cc)
Step-Fits (body c) (takes_body b) (inr e) = inl (c, refl, ground arith, refl)
Step-Fits (failed err) (takes_body b) (inr e) = absurd (cc)
Step-Fits reply (takes_error err) (inl e) = absurd (cc)
Step-Fits (body c) (takes_error err) (inr e) = absurd (cc)
Step-Fits (failed err') (takes_error err) (inr e) = inr (inl (err', refl, ground arith, refl))
Step-Fits reply times_out f = inr (inr (refl, f))

-- The type assertion of the method fits the query, as one method is not the other.
asserted :
    (send : Outgoing → Reply) (r : HttpRequest) (vs : List (Text × Text)) (u err : Text)
    (is_get is_post : Bool)
    → (is_get ≡ true → is_post ≡ false)
    → is_some (
        if is_get
        then replied send (get_of (if is_post then values vs else string u))
        else if is_post
        then replied send (post_of r (if is_post then values vs else string u))
        else some (failed err))
      ≡ true
asserted send r vs u err true true apart = absurd (let e = apart refl in cc)
asserted send r vs u err true false apart = refl
asserted send r vs u err false true apart = refl
asserted send r vs u err false false apart = refl

-- `Request` does not panic for the requests that `runProxy` makes.
request-proxied :
    (send : Outgoing → Reply) (to : Text) (c : Incoming)
    → (reply : Reply) × (request send (proxied to c) ≡ some reply)
unfolding request proxied
request-proxied send to c =
    let method = to_upper c.method in
    of_is_some (request send (proxied to c)) (
      asserted send (proxied to c) c.post_form (get_request_url to c) _
        (eq_text method (codes "GET")) (eq_text method (codes "POST"))
        (λ is_get. rw (eq_of_eq_text method (codes "GET") is_get) refl))

Reaches-Fits :
    (reply : Reply) {x : Exchange} → Reaches (some reply) x → Fits reply x.handler x.worker
Reaches-Fits reply at_start = inl refl
Reaches-Fits reply (step before s) = Step-Fits reply s (Reaches-Fits reply before)

-- The request that `runProxy` makes never panics, and whatever order the answer of the target and the
-- timer come in, the handler has given no response yet, or exactly one, where the goroutine has come
-- to its end only with the body of a target that answered: after an error it stays for ever at its
-- second send, and after a time-out it can only come to a send that nobody receives.
pub run_proxy-Fits :
    (send : Outgoing → Reply) (to : Text) (c : Incoming) {x : Exchange}
    → Reaches (request send (proxied to c)) x
    → (reply : Reply) × (request send (proxied to c) ≡ some reply) × Fits reply x.handler x.worker
run_proxy-Fits send to c {x} reached =
    let (reply, e) = request-proxied send to c in
    (reply, e, Reaches-Fits reply (subst (λ o. Reaches o x) e reached))

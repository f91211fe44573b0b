-- ===== src/Http/RequestJob.antt =====
-- `requestJob` of pkg/plugins/httpserver/middleware/Duration.go, with its goroutine. When the context
-- is done, and when `structChan` is received from, is left open.
use rpc_pigeon.Common.{
  ◌≡◌, ◌<◌, refl, subst, List, [], ◌∷◌, ◌++◌, Bool, true, false, length, ◌⊎◌, inl, inr, arith,
}

-- `requestJob`: in `c.Next()`, at its send, at `<-ch`, or returned, after `c.Abort()` or not.
pub data Caller : Type 0 where
  handling : Caller
  announcing : Caller
  awaiting : Caller
  returned : (aborted : Bool) → Caller

-- The goroutine: in its `select`, at `ch <- true`, at `ch <- false`, or at its end.
pub data Watcher : Type 0 where
  selecting : Watcher
  telling : Watcher
  denying : Watcher
  ended : Watcher

-- `ch` has room for one value.
pub record Request : Type 0 where
  pub caller : Caller
  pub watcher : Watcher
  pub ch : List Bool
  pub ctx_done : Bool

abbrev pub fresh : Request
fresh = record { caller = handling; watcher = selecting; ch = []; ctx_done = false }

pub data Step (r : Request) : Request → Type 0 where
  expires : Step r (record r { ctx_done = true })
  sees_done : r.watcher ≡ selecting → r.ctx_done ≡ true → Step r (record r { watcher = telling })
  tells :
      r.watcher ≡ telling
      → length r.ch < 1
      → Step r (record r { watcher = denying; ch = r.ch ++ true ∷ [] })
  denies :
      r.watcher ≡ denying
      → length r.ch < 1
      → Step r (record r { watcher = ended; ch = r.ch ++ false ∷ [] })
  handles : r.caller ≡ handling → Step r (record r { caller = announcing })
  announces : r.caller ≡ announcing → Step r (record r { caller = awaiting })
  receives :
      (b : Bool) (rest : List Bool)
      → r.caller ≡ awaiting
      → r.ch ≡ b ∷ rest
      → Step r (record r { caller = returned b; ch = rest })

pub data Reaches : Request → Type 0 where
  at_start : Reaches fresh
  step : {q r : Request} → Reaches q → Step q r → Reaches r

abbrev has_returned : Caller → Bool
has_returned (returned b) = true
has_returned _ = false

-- What the channel holds as the goroutine goes on, and what the caller has then received.
abbrev Fits : Watcher → (caller : Caller) (ch : List Bool) → Bool → Type 0
Fits selecting c ch done = (ch ≡ []) × (has_returned c ≡ false)
Fits telling c ch done = (ch ≡ []) × (has_returned c ≡ false) × (done ≡ true)
Fits denying c ch done =
    ((has_returned c ≡ false) × (ch ≡ true ∷ []) × (done ≡ true))
    ⊎ ((c ≡ returned true) × (ch ≡ []) × (done ≡ true))
Fits ended c ch done = (c ≡ returned true) × (ch ≡ false ∷ []) × (done ≡ true)

abbrev Fit : Request → Type 0
Fit r = Fits r.watcher r.caller r.ch r.ctx_done

Fits-expires :
    (w : Watcher) (c : Caller) (ch : List Bool) (d : Bool) → Fits w c ch d → Fits w c ch true
Fits-expires selecting c ch d h = h
Fits-expires telling c ch d h = (h.0, h.1, refl)
Fits-expires denying c ch d (inl h) = inl (h.0, h.1, refl)
Fits-expires denying c ch d (inr h) = inr (h.0, h.1, refl)
Fits-expires ended c ch d h = (h.0, h.1, refl)

-- `ch <- false` has to wait for the caller.
Fits-denies :
    (c : Caller) (ch : List Bool) (d : Bool)
    → length ch < 1
    → Fits denying c ch d
    → Fits ended c (ch ++ false ∷ []) d
Fits-denies c ch d lt (inl (waits, full, done)) = absurd (ground arith)
Fits-denies c ch d lt (inr (over, empty, done)) = (over, rw empty refl, done)

-- The caller goes on before it has returned.
Fits-goes :
    (w : Watcher) (c c' : Caller) (ch : List Bool) (d : Bool)
    → has_returned c ≡ false
    → has_returned c' ≡ false
    → Fits w c ch d
    → Fits w c' ch d
Fits-goes selecting c c' ch d e e' h = (h.0, e')
Fits-goes telling c c' ch d e e' h = (h.0, e', h.2)
Fits-goes denying c c' ch d e e' (inl h) = inl (e', h.1, h.2)
Fits-goes denying c c' ch d e e' (inr (over, empty, done)) = absurd (ground arith)
Fits-goes ended c c' ch d e e' (over, full, done) = absurd (ground arith)

Fits-receives :
    (w : Watcher) (b : Bool) (ch rest : List Bool) (d : Bool)
    → ch ≡ b ∷ rest
    → Fits w awaiting ch d
    → Fits w (returned b) rest d
Fits-receives selecting b ch rest d e h = absurd (ground arith)
Fits-receives telling b ch rest d e h = absurd (ground arith)
Fits-receives denying b ch rest d e (inl (waits, full, done)) =
    let is : b ≡ true = ground arith in inr (rw is refl, ground arith, done)
Fits-receives denying b ch rest d e (inr (over, empty, done)) = absurd (ground arith)
Fits-receives ended b ch rest d e (over, full, done) = absurd (ground arith)

Step-Fit : {q r : Request} → Step q r → Fit q → Fit r
Step-Fit {q} expires h = Fits-expires q.watcher q.caller q.ch q.ctx_done h
Step-Fit {q} (sees_done e f) h =
    let (empty, before) = subst (λ w. Fits w q.caller q.ch q.ctx_done) e h in (empty, before, f)
Step-Fit {q} (tells e lt) h =
    let (empty, before, done) = subst (λ w. Fits w q.caller q.ch q.ctx_done) e h in
    inl (before, rw empty refl, done)
Step-Fit {q} (denies e lt) h =
    Fits-denies q.caller q.ch q.ctx_done lt (subst (λ w. Fits w q.caller q.ch q.ctx_done) e h)
Step-Fit {q} (handles e) h =
    Fits-goes q.watcher q.caller announcing q.ch q.ctx_done (rw e refl) refl h
Step-Fit {q} (announces e) h =
    Fits-goes q.watcher q.caller awaiting q.ch q.ctx_done (rw e refl) refl h
Step-Fit {q} (receives b rest e f) h =
    Fits-receives q.watcher b q.ch rest q.ctx_done f
      (subst (λ c. Fits q.watcher c q.ch q.ctx_done) e h)

Reaches-Fit : {r : Request} → Reaches r → Fit r
Reaches-Fit at_start = (refl, refl)
Reaches-Fit (step r t) = Step-Fit t (Reaches-Fit r)

Fits-returned :
    (w : Watcher) (b : Bool) (ch : List Bool) (d : Bool)
    → Fits w (returned b) ch d
    → (b ≡ true) × (d ≡ true)
Fits-returned selecting b ch d h = absurd (ground arith)
Fits-returned telling b ch d h = absurd (ground arith)
Fits-returned denying b ch d (inl (waits, full, done)) = absurd (ground arith)
Fits-returned denying b ch d (inr (over, empty, done)) = (ground arith, done)
Fits-returned ended b ch d (over, full, done) = (ground arith, done)

-- Whoever runs when, `requestJob` returns only after its context is done, and then it has aborted the
-- request, however long before the handlers had ended.
request_job_aborts :
    {r : Request} (aborted : Bool)
    → Reaches r
    → r.caller ≡ returned aborted
    → (aborted ≡ true) × (r.ctx_done ≡ true)
request_job_aborts {r} aborted there e =
    Fits-returned r.watcher aborted r.ch r.ctx_done
      (subst (λ c. Fits r.watcher c r.ch r.ctx_done) e (Reaches-Fit there))

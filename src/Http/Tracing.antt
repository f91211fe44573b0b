-- ===== src/Http/Tracing.antt =====
-- pkg/plugins/httpserver/util/Goroutine.go: GenerateTracingJobs and the goroutine of its task. What is
-- logged is given by `job_log`; the parent context, and who receives from `pch`, are not followed: when
-- the parent is done, and when the send is received, is left open.
use rpc_pigeon.Common.{
  ℕ, suc, ◌≡◌, refl, sym, ◌∙◌, subst, List, [], ◌∷◌, ◌++◌, Bool, true, false, Option, none, arith,
  if◌then◌else◌,
}
use rpc_pigeon.Common.Text.{Text, codes, eq_text}

-- A context: nil, or one by number.
abbrev pub Context : Type 0
Context = Option ℕ

-- The switch of `doTask`, and its last line.
unfoldable pub job_log : (trace_type : Text) → List Text
job_log trace_type =
    (if eq_text trace_type (codes "A")
      then codes "job A" ∷ []
      else if eq_text trace_type (codes "B")
      then codes "job B" ∷ []
      else if eq_text trace_type (codes "C")
      then codes "job C" ∷ []
      else [])
    ++ codes "tracing job finish ..." ∷ []

-- `doTask`: in its switch, at `ch <- ctx` with the variable `ctx`, or at its end.
pub data Task : Type 0 where
  working : Task
  reporting : Context → Task
  ended : Task

-- `GenerateTracingJobs`: at `<-ch`, at `pch <- pctx`, in its loop over `select`, at its `cancel()`, or
-- returned.
pub data Caller : Type 0 where
  receiving : Caller
  forwarding : Context → Caller
  polling : Caller
  cancelling : Caller
  returned : Caller

-- `polls` counts the rounds of the loop that took the default.
pub record Jobs : Type 0 where
  pub caller : Caller
  pub task : Task
  pub forwarded : List Context
  pub log : List Text
  pub parent_done : Bool
  pub cancelled : Bool
  pub polls : ℕ

abbrev pub launched : Jobs
launched = record {
  caller = receiving;
  task = working;
  forwarded = [];
  log = [];
  parent_done = false;
  cancelled = false;
  polls = 0;
}

-- `ctx.Done()` of the context that `WithCancel` derives.
abbrev pub is_done : Jobs → Bool
is_done j = if j.cancelled then true else j.parent_done

pub data Step (trace_type : Text) (j : Jobs) : Jobs → Type 0 where
  expires : Step trace_type j (record j { parent_done = true })
  works :
      j.task ≡ working
      → Step trace_type j (record j { task = reporting none; log = j.log ++ job_log trace_type })
  reports :
      (ctx : Context)
      → j.task ≡ reporting ctx
      → j.caller ≡ receiving
      → Step trace_type j (record j { task = ended; caller = forwarding ctx })
  forwards :
      (ctx : Context)
      → j.caller ≡ forwarding ctx
      → Step trace_type j (record j { caller = polling; forwarded = j.forwarded ++ ctx ∷ [] })
  polls_again :
      j.caller ≡ polling → is_done j ≡ false → Step trace_type j (record j { polls = suc j.polls })
  sees_done :
      j.caller ≡ polling → is_done j ≡ true → Step trace_type j (record j { caller = cancelling })
  cancels :
      j.caller ≡ cancelling → Step trace_type j (record j { caller = returned; cancelled = true })

pub data Reaches (trace_type : Text) : Jobs → Type 0 where
  at_launch : Reaches trace_type launched
  step : {i j : Jobs} → Reaches trace_type i → Step trace_type i j → Reaches trace_type j

-- What has happened by the time that the caller has come to a place.
abbrev Told : Caller → Task → (forwarded : List Context) → (parent_done cancelled : Bool) → Type 0
Told receiving working sent p c = (sent ≡ []) × (c ≡ false)
Told receiving (reporting ctx) sent p c = (ctx ≡ none) × (sent ≡ []) × (c ≡ false)
Told receiving ended sent p c = ⊥
Told (forwarding ctx) t sent p c = (ctx ≡ none) × (t ≡ ended) × (sent ≡ []) × (c ≡ false)
Told polling t sent p c = (t ≡ ended) × (sent ≡ none ∷ []) × (c ≡ false)
Told cancelling t sent p c = (t ≡ ended) × (sent ≡ none ∷ []) × (c ≡ false) × (p ≡ true)
Told returned t sent p c = (t ≡ ended) × (sent ≡ none ∷ []) × (p ≡ true)

Tells : Jobs → Type 0
Tells j = Told j.caller j.task j.forwarded j.parent_done j.cancelled

Told-expires :
    (a : Caller) (t : Task) (sent : List Context) (p c : Bool)
    → Told a t sent p c
    → Told a t sent true c
Told-expires receiving working sent p c h = h
Told-expires receiving (reporting ctx) sent p c h = h
Told-expires receiving ended sent p c h = h
Told-expires (forwarding ctx) t sent p c h = h
Told-expires polling t sent p c h = h
Told-expires cancelling t sent p c h = (h.0, h.1, h.2, refl)
Told-expires returned t sent p c h = (h.0, h.1, refl)

Told-works :
    (a : Caller) (t : Task) (sent : List Context) (p c : Bool)
    → t ≡ working
    → Told a t sent p c
    → Told a (reporting none) sent p c
Told-works receiving working sent p c e (unsent, not_yet) = (refl, unsent, not_yet)
Told-works receiving (reporting ctx) sent p c e h = absurd (ground arith)
Told-works receiving ended sent p c e h = absurd h
Told-works (forwarding ctx) t sent p c e h = absurd (ground arith)
Told-works polling t sent p c e h = absurd (ground arith)
Told-works cancelling t sent p c e h = absurd (ground arith)
Told-works returned t sent p c e h = absurd (ground arith)

Told-reports :
    (a : Caller) (t : Task) (sent : List Context) (p c : Bool) (ctx : Context)
    → t ≡ reporting ctx
    → a ≡ receiving
    → Told a t sent p c
    → Told (forwarding ctx) ended sent p c
Told-reports receiving (reporting ctx) sent p c ctx' e f (same, none_sent, not_yet) =
    let is : ctx ≡ ctx' = ground arith in (sym is ∙ same, refl, none_sent, not_yet)
Told-reports receiving working sent p c ctx e f h = absurd (ground arith)
Told-reports receiving ended sent p c ctx e f h = absurd h
Told-reports (forwarding ctx') t sent p c ctx e f h = absurd (ground arith)
Told-reports polling t sent p c ctx e f h = absurd (ground arith)
Told-reports cancelling t sent p c ctx e f h = absurd (ground arith)
Told-reports returned t sent p c ctx e f h = absurd (ground arith)

-- At a known place of the caller.
known_place :
    (a b : Caller) (t : Task) (sent : List Context) (p c : Bool)
    → a ≡ b
    → Told a t sent p c
    → Told b t sent p c
known_place a b t sent p c e h = subst (λ a. Told a t sent p c) e h

done_parent : (c p : Bool) → c ≡ false → (if c then true else p) ≡ true → p ≡ true
done_parent true p e f = absurd (cc)
done_parent false p e f = f

Step-Tells : {trace_type : Text} {i j : Jobs} → Step trace_type i j → Tells i → Tells j
unfolding Tells
Step-Tells {i} expires h = Told-expires i.caller i.task i.forwarded i.parent_done i.cancelled h
Step-Tells {i} (works e) h = Told-works i.caller i.task i.forwarded i.parent_done i.cancelled e h
Step-Tells {i} (reports ctx e f) h =
    Told-reports i.caller i.task i.forwarded i.parent_done i.cancelled ctx e f h
Step-Tells {i} (forwards ctx e) h =
    let (is, over, unsent, not_yet) =
      known_place i.caller (forwarding ctx) i.task i.forwarded i.parent_done i.cancelled e h in
    (over, rw (unsent, is) refl, not_yet)
Step-Tells (polls_again e f) h = h
Step-Tells {i} (sees_done e f) h =
    let (over, sent, not_yet) =
      known_place i.caller polling i.task i.forwarded i.parent_done i.cancelled e h in
    (over, sent, not_yet, done_parent i.cancelled i.parent_done not_yet f)
Step-Tells {i} (cancels e) h =
    let (over, sent, not_yet, done) =
      known_place i.caller cancelling i.task i.forwarded i.parent_done i.cancelled e h in
    (over, sent, done)

Reaches-Tells : {trace_type : Text} {j : Jobs} → Reaches trace_type j → Tells j
unfolding Tells
Reaches-Tells at_launch = (refl, refl)
Reaches-Tells (step r t) = Step-Tells t (Reaches-Tells r)

-- Whatever the trace type and whoever runs when: once `GenerateTracingJobs` has returned, its task has
-- ended, it has sent one context, which is nil, and the parent context is done. It never returns before.
tracing_waits :
    {trace_type : Text} {j : Jobs}
    → Reaches trace_type j
    → j.caller ≡ returned
    → (j.task ≡ ended) × (j.forwarded ≡ none ∷ []) × (j.parent_done ≡ true)
unfolding Tells
tracing_waits {j} r e =
    known_place j.caller returned j.task j.forwarded j.parent_done j.cancelled e (Reaches-Tells r)

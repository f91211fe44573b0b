-- ===== src/Http/Proxy/Exchange.antt =====
-- `runProxy` of pkg/plugins/proxy/http.go: the handler waits for the goroutine of the request, over
-- two channels without a buffer, or for its timer. A send and the receive that meets it are one step.
use rpc_pigeon.Common.{ℕ, [], ◌∷◌, ◌++◌, Option, none, some}
use rpc_pigeon.Common.Text.{Text, codes}
use rpc_pigeon.Http.Proxy.{Reply, body, failed}

pub record Response : Type 0 where
  pub status : ℕ
  pub text : Text

pub data Handler : Type 0 where
  waiting : Handler
  answered : Response → Handler

-- The goroutine: at its request, at `resultErr <- err`, at `result <- bodyStr`, at its end, or in a
-- panic.
pub data Worker : Type 0 where
  working : Worker
  sends_error : (err : Text) → Worker
  sends_body : (body : Text) → Worker
  finished : Worker
  crashed : Worker

pub record Exchange : Type 0 where
  pub handler : Handler
  pub worker : Worker

-- Where the goroutine goes on once its request has returned.
abbrev pub after_request : Option Reply → Worker
after_request none = crashed
after_request (some (body b)) = sends_body b
after_request (some (failed err)) = sends_error err

abbrev pub found : Text → Response
found b = record { status = 200; text = b }

-- `fmt.Sprintln(err)` ends in a new line.
abbrev pub internal_error : Text → Response
internal_error err = record { status = 500; text = err ++ 10 ∷ [] }

abbrev pub timed_out : Response
timed_out = record { status = 404; text = codes "request time out" }

-- The steps of an exchange whose request returns `reply`, if it returns.
pub data Step (reply : Option Reply) : Exchange → Exchange → Type 0 where
  returns :
      {h : Handler}
      → Step reply
          (record { handler = h; worker = working })
          (record { handler = h; worker = after_request reply })
  takes_body :
      (b : Text)
      → Step reply
          (record { handler = waiting; worker = sends_body b })
          (record { handler = answered (found b); worker = finished })
  takes_error :
      (err : Text)
      → Step reply
          (record { handler = waiting; worker = sends_error err })
          (record { handler = answered (internal_error err); worker = sends_body [] })
  times_out :
      {w : Worker}
      → Step reply
          (record { handler = waiting; worker = w })
          (record { handler = answered timed_out; worker = w })

abbrev pub start : Exchange
start = record { handler = waiting; worker = working }

pub data Reaches (reply : Option Reply) : Exchange → Type 0 where
  at_start : Reaches reply start
  step : {x y : Exchange} → Reaches reply x → Step reply x y → Reaches reply y

-- ===== src/Http/Timeout.antt =====
-- pkg/plugins/httpserver/middleware/Duration.go: the time-out of a request. `GinWriter` keeps in a
-- buffer what the handlers behind write by `Write`; every other method is that of gin's writer, which
-- it embeds. A goroutine runs the handlers and then sends over a channel without a buffer, and the
-- middleware waits for it or for the time. The calls that reach gin's writer are kept in their order;
-- what gin makes of them is gin's.
use rpc_pigeon.Common.{ℕ, ◌≡◌, List, [], ◌∷◌, ◌++◌}
use rpc_pigeon.Common.Text.{Text}

-- What handlers call of gin's writer through `GinWriter`: `WriteHeader` or `WriteString`.
pub data Direct : Type 0 where
  write_header : (code : ℕ) → Direct
  write_string : (s : Text) → Direct

-- A call of a handler on `c.Writer`.
pub data Handled : Type 0 where
  write : (b : Text) → Handled
  direct : Direct → Handled

-- A call that reaches gin's writer: one of a handler, the `Write` of the buffer, or the
-- `WriteHeader` of 504.
pub data Reached : Type 0 where
  passed : Direct → Reached
  buffered : (b : Text) → Reached
  gateway_timeout : Reached

pub data Middleware : Type 0 where
  waiting : Middleware
  flushed : Middleware
  aborted : Middleware

-- The goroutine: in `c.Next()`, at its send, or at its end.
pub data Worker : Type 0 where
  running : Worker
  sending : Worker
  finished : Worker

-- The calls that the handlers have still to make, the buffer, and the calls that reached gin's writer.
pub record Exchange : Type 0 where
  pub middleware : Middleware
  pub worker : Worker
  pub ahead : List Handled
  pub buffer : Text
  pub reached : List Reached

pub data Step : Exchange → Exchange → Type 0 where
  writes :
      (x : Exchange) (b : Text) (hs : List Handled)
      → x.worker ≡ running
      → x.ahead ≡ write b ∷ hs
      → Step x (record x { ahead = hs; buffer = x.buffer ++ b })
  passes :
      (x : Exchange) (d : Direct) (hs : List Handled)
      → x.worker ≡ running
      → x.ahead ≡ direct d ∷ hs
      → Step x (record x { ahead = hs; reached = x.reached ++ passed d ∷ [] })
  returns :
      (x : Exchange) → x.worker ≡ running → x.ahead ≡ [] → Step x (record x { worker = sending })
  finishes :
      (x : Exchange)
      → x.middleware ≡ waiting
      → x.worker ≡ sending
      → Step x (record x {
        middleware = flushed;
        worker = finished;
        reached = x.reached ++ buffered x.buffer ∷ [];
      })
  times_out :
      (x : Exchange)
      → x.middleware ≡ waiting
      → Step x (record x { middleware = aborted; reached = x.reached ++ gateway_timeout ∷ [] })

-- A request whose handlers make the calls of `script`.
abbrev pub start : List Handled → Exchange
start script = record {
  middleware = waiting;
  worker = running;
  ahead = script;
  buffer = [];
  reached = [];
}

pub data Reaches (script : List Handled) : Exchange → Type 0 where
  at_start : Reaches script (start script)
  step : {x y : Exchange} → Reaches script x → Step x y → Reaches script y

-- What calls of handlers write by `Write`, and what they call of gin's writer.
pub written : List Handled → Text
written [] = []
written (write b ∷ hs) = b ++ written hs
written (direct d ∷ hs) = written hs

pub straight : List Handled → List Reached
straight [] = []
straight (write b ∷ hs) = straight hs
straight (direct d ∷ hs) = passed d ∷ straight hs

-- The goroutine has not ended, and is at its send only after the last call.
abbrev pub Waits : Worker → List Handled → Type 0
Waits running ahead = Unit
Waits sending ahead = ahead ≡ []
Waits finished ahead = ⊥

-- What the middleware leaves of the calls of `script`.
abbrev pub Left :
    List Handled → Middleware → Worker → (ahead : List Handled) → Text → List Reached → Type 0
Left script waiting w ahead buffer reached =
    (did : List Handled) × (script ≡ did ++ ahead)
    × (buffer ≡ written did)
    × (reached ≡ straight did)
    × Waits w ahead
Left script flushed w ahead buffer reached =
    (w ≡ finished) × (reached ≡ straight script ++ buffered (written script) ∷ [])
Left script aborted w ahead buffer reached =
    (before : List Handled) × (after : List Handled) × (script ≡ before ++ (after ++ ahead))
    × (reached ≡ straight before ++ gateway_timeout ∷ straight after)
    × Waits w ahead

abbrev pub AllOrNothing : List Handled → Exchange → Type 0
AllOrNothing script x = Left script x.middleware x.worker x.ahead x.buffer x.reached

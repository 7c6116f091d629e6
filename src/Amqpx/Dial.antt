-- ===== src/Amqpx/Dial.antt =====
-- internal/amqpx/connection.go: `Dial`, as the steps of its two threads: the goroutine that dials, and
-- the caller that waits for its result or for the timeout.
pub mod Late
use rabbitmq_go.Base.{ℕ, Bool, true, false, Option, none, some, List, [], ◌∷◌, ◌≡◌, Str, bytes}
use rabbitmq_go.Errors.{GoError, text, Result, ok, err}

-- What `amqp.DialConfig` gives: a connection, by its number, or an error.
abbrev pub Dialed : Type 0
Dialed = Result ℕ

-- Where the goroutine stands: in `amqp.DialConfig`, at its `select` with a result, or at its end.
pub data Dialer : Type 0 where
  dialing : Dialer
  offering : Dialed → Dialer
  finished : Dialer

-- The state that the threads share: the goroutine, the buffer of `resultChan`, which has room for one
-- result, what `Dial` has returned, what `amqp.DialConfig` has given, and whether the connection that it
-- made is still open.
pub record Race : Type 0 where
  pub dialer : Dialer
  pub buffer : Option Dialed
  pub returned : Option Dialed
  pub given : Option Dialed
  pub is_open : Bool

abbrev pub started : Race
started = record { dialer = dialing; buffer = none; returned = none; given = none; is_open = false }

-- The two branches of the goroutine's `select`: the send, where the buffer has room, else the default,
-- which closes the connection.
unfoldable pub offer : Dialed → Race → Race
offer result s = elim s.buffer [
  | none ↦ record s { dialer = finished; buffer = some result }
  | some r ↦ record s { dialer = finished; is_open = false }
]

-- The error of the timeout.
abbrev pub timed_out : Dialed
timed_out =
    err (text (bytes "rabbitmq: connection timeout: broker may not be running or is unreachable"))

-- The steps.
pub data Step (s : Race) : Race → Type 0 where
  dials :
      (conn : ℕ)
      → s.dialer ≡ dialing
      → Step s (record s { dialer = offering (ok conn); given = some (ok conn); is_open = true })
  dial_fails :
      (e : GoError)
      → s.dialer ≡ dialing
      → Step s (record s { dialer = offering (err e); given = some (err e) })
  offers : (result : Dialed) → s.dialer ≡ offering result → Step s (offer result s)
  receives :
      (result : Dialed)
      → s.returned ≡ none
      → s.buffer ≡ some result
      → Step s (record s { buffer = none; returned = some result })
  times_out : s.returned ≡ none → Step s (record s { returned = some timed_out })

pub data Reach (s : Race) : Race → Type 0 where
  here : Reach s s
  next : {t u : Race} → Reach s t → Step t u → Reach s u

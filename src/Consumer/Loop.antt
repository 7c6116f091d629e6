-- ===== src/Consumer/Loop.antt =====
-- pkg/rabbitmq/consumer.go: the loop of `consumeOnce`, the restarts of `Consume` and
-- `ConsumeConcurrent`, and the forms of both for handlers that take the body only.
pub mod Prefetch
pub mod Settled
pub mod Restarts
use rabbitmq_go.Base.{
  ℤ, pos, leb_ℤ, Bool, true, false, Option, none, some, List, [], ◌∷◌, Str, bytes, if◌then◌else◌,
}
use rabbitmq_go.Errors.{GoError, text, canceled, is_canceled}
use rabbitmq_go.Amqp.{Delivery}
use rabbitmq_go.Topology.{Calls}
use rabbitmq_go.Consumer.{Message, Trace, HandlerOutcome, Environment, Consumer}
use rabbitmq_go.Consumer.Handling.{handle_delivery}
use rabbitmq_go.Consumer.Setup.{Link, in_session, max_ℤ}

-- What the `select` of a session's loop picks: the end of the context, the notice that the channel is
-- closed, with an error or without, the end of the stream of deliveries, or a delivery.
pub data Arrival : Type 0 where
  context_done : Arrival
  channel_closed : Option GoError → Arrival
  stream_closed : Arrival
  arrives : Delivery → Arrival

-- The error of a notice that the channel is closed.
abbrev pub close_error : Option GoError → GoError
close_error (some e) = e
close_error none = text (bytes "rabbitmq: channel closed")

-- The error of the first arrival that ends a session. In `consumeOnceConcurrent` an arrival may also
-- come in the `select` that waits for a free worker.
abbrev pub ending : List Arrival → Option GoError
ending [] = none
ending (context_done ∷ rest) = some canceled
ending (channel_closed e ∷ rest) = some (close_error e)
ending (stream_closed ∷ rest) = some (text (bytes "rabbitmq: message channel closed"))
ending (arrives d ∷ rest) = ending rest

-- One turn of the restarts: is the context done at the `select`; what the session meets and what
-- arrives in it; and does the sleep after it come to its end, or does the context end it?
pub record Turn : Type 0 where
  pub stopped : Bool
  pub link : Link
  pub arrivals : List Arrival
  pub woke : Bool

module _ (c : Consumer) (env : Environment) (queue_name routing_key : Str) where
  -- The loop of `consumeOnce`, on what arrives; `none` is a loop that still waits.
  unfoldable pub receive : List Arrival → Trace → Option GoError × Trace
  receive [] h = (none, h)
  receive (context_done ∷ rest) h = (some canceled, h)
  receive (channel_closed e ∷ rest) h = (some (close_error e), h)
  receive (stream_closed ∷ rest) h = (some (text (bytes "rabbitmq: message channel closed")), h)
  receive (arrives d ∷ rest) h = receive rest (handle_delivery c env queue_name routing_key d h).1

module _ (c : Consumer) (env : Environment) (quote : Str → Str) (queue_name routing_key : Str) where
  -- `consumeOnce`.
  unfoldable pub consume_once : Turn → Trace → Option GoError × Calls × Trace
  unfolding in_session receive
  consume_once t h =
      in_session t.link quote c.cfg c.cfg.prefetch_count queue_name routing_key
        (receive c env queue_name routing_key t.arrivals) h

module _ (c : Consumer) (quote : Str → Str) (queue_name routing_key : Str) where
  -- `consumeOnceConcurrent` for so many workers. What its goroutines leave on the trace is `work`; the
  -- steps of its loop and of its goroutines are in Session.
  unfoldable pub consume_once_concurrent :
      ℤ → (Trace → Trace) → Turn → Trace → Option GoError × Calls × Trace
  unfolding in_session
  consume_once_concurrent workers work t h =
      in_session t.link quote c.cfg (max_ℤ c.cfg.prefetch_count workers) queue_name routing_key
        (λ h'. (ending t.arrivals, work h')) h

-- A session of the restarts, on the trace: its error, if it has ended.
abbrev pub Run : Type 0
Run = Turn → Trace → Option GoError × Calls × Trace

-- A call that blocks: it still runs, or it has returned an error or nil.
pub data Blocking : Type 0 where
  running : Blocking
  returned : Option GoError → Blocking

-- What follows a session that ended with an error, `rest` being the further turns.
abbrev pub after_session : Turn → GoError → (Trace → Blocking × Trace) → Trace → Blocking × Trace
after_session t e rest h =
    if is_canceled e then (returned none, h) else if t.woke then rest h else (returned none, h)

-- The restarts of `Consume` and of `ConsumeConcurrent`, which have the same form.
unfoldable pub restarts : Run → List Turn → Trace → Blocking × Trace
restarts session [] h = (running, h)
restarts session (t ∷ turns) h =
    let (ended, calls, h') = session t h in
    let next : Blocking × Trace = elim ended [
      | none ↦ (running, h')
      | some e ↦ after_session t e (restarts session turns) h'
    ] in
    if t.stopped then (returned none, h) else next

abbrev pub nil_handler : Blocking
nil_handler = returned (some (text (bytes "rabbitmq: nil message handler")))

-- `Consume`; a handler may be nil.
unfoldable pub consume :
    Consumer → (Str → Str) → Str → Str → Option (Environment) → List Turn → Trace → Blocking × Trace
unfolding restarts
consume c quote queue_name routing_key none turns h = (nil_handler, h)
consume c quote queue_name routing_key (some env) turns h =
    restarts (consume_once c env quote queue_name routing_key) turns h

-- How the goroutines of `consumeOnceConcurrent` interleave, for so many workers, in a turn: the trace
-- that they leave.
abbrev pub Schedule : Type 0
Schedule = ℤ → Environment → Turn → Trace → Trace

-- `ConsumeConcurrent`.
unfoldable pub consume_concurrent :
    Consumer
    → (Str → Str)
    → Str
    → Str
    → ℤ
    → Schedule
    → Option (Environment)
    → List Turn
    → Trace
    → Blocking × Trace
unfolding consume consume_once_concurrent
consume_concurrent c quote queue_name routing_key workers schedule none turns h = (nil_handler, h)
consume_concurrent c quote queue_name routing_key workers schedule (some env) turns h =
    if leb_ℤ workers (pos 1)
    then consume c quote queue_name routing_key (some env) turns h
    else restarts
        (λ t.
          consume_once_concurrent c quote queue_name routing_key workers (schedule workers env t) t)
        turns h

-- A handler of the body only, as a handler of messages.
abbrev pub of_body : (Trace → Str → HandlerOutcome) → Trace → Message → HandlerOutcome
of_body handler h m = handler h m.body

-- `ConsumeBody` and `ConsumeBodyConcurrent`: the handler of the environment takes the body only, and
-- may be nil.
unfoldable pub consume_body :
    Consumer
    → (Str → Str)
    → Str
    → Str
    → Environment
    → Option (Trace → Str → HandlerOutcome)
    → List Turn
    → Trace
    → Blocking × Trace
unfolding consume
consume_body c quote queue_name routing_key env none turns h = (nil_handler, h)
consume_body c quote queue_name routing_key env (some handler) turns h =
    consume c quote queue_name routing_key (some (record env { handler = of_body handler })) turns h

unfoldable pub consume_body_concurrent :
    Consumer
    → (Str → Str)
    → Str
    → Str
    → ℤ
    → Schedule
    → Environment
    → Option (Trace → Str → HandlerOutcome)
    → List Turn
    → Trace
    → Blocking × Trace
unfolding consume_concurrent
consume_body_concurrent c quote queue_name routing_key workers schedule env none turns h =
    (nil_handler, h)
consume_body_concurrent c quote queue_name routing_key workers schedule env (some handler) turns h =
    consume_concurrent c quote queue_name routing_key workers schedule
      (some (record env { handler = of_body handler })) turns h

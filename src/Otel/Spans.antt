-- ===== src/Otel/Spans.antt =====
-- pkg/otelrabbitmq/otelrabbitmq.go: `StartPublish` and `StartConsume` with their callbacks, as the calls
-- that they make of the tracer, the span, the propagator and the instruments. Contexts are left out.
pub mod Metered
pub mod Followed
pub mod Published
use rabbitmq_go.Base.{
  ℕ, ℤ, pos, Bool, true, false, Option, none, some, List, [], ◌∷◌, ◌++◌, Str, bytes, is_empty,
  if◌then◌else◌,
}
use rabbitmq_go.Errors.{GoError, text, Texts, error_text}
use rabbitmq_go.Amqp.{Table, entries}
use rabbitmq_go.Consumer.{DeliveryContext, ConsumeResult, Event, started, ended, Trace}
use rabbitmq_go.Instrumentation.{PublishContext, Hooks}
use rabbitmq_go.Publisher.{PublishError, publish_returned, failed, returned_error_text}
use rabbitmq_go.Otel.{Instrument, messages, duration, dead_letter}
use rabbitmq_go.Otel.Carrier.{inject}

pub data SpanKind : Type 0 where
  producer : SpanKind
  consumer : SpanKind

pub data Code : Type 0 where
  code_ok : Code
  code_error : Code

-- `attribute.KeyValue`.
pub data Attribute : Type 0 where
  string_attribute : Str → Str → Attribute
  int_attribute : Str → ℤ → Attribute
  bool_attribute : Str → Bool → Attribute

pub data Signal : Type 0 where
  extracted : Table → Signal
  injected : Table → Signal
  span_started : Str → SpanKind → List Attribute → Signal
  error_recorded : GoError → Signal
  status_set : Code → Str → Signal
  attributes_set : List Attribute → Signal
  counted : Instrument → ℕ → List Attribute → Signal
  -- the time since the start, in nanoseconds
  recorded : Instrument → ℕ → List Attribute → Signal
  span_ended : Signal

-- The signals so far, the latest first.
abbrev pub Signals : Type 0
Signals = List Signal

-- The error, and the status, of a span that ends.
abbrev pub set_outcome : Texts → Option GoError → Signals → Signals
set_outcome texts none s = status_set code_ok [] ∷ s
set_outcome texts (some e) s = status_set code_error (error_text texts e) ∷ error_recorded e ∷ s

-- `StartPublish`, where the propagator sets these fields: the signals and the headers.
unfoldable pub start_publish : List (Str × Str) → PublishContext → Signals → Signals × Table
start_publish fields p s = (
  injected p.headers
      ∷ span_started (bytes "rabbitmq.publish") producer (
          string_attribute (bytes "messaging.system") (bytes "rabbitmq")
          ∷ string_attribute (bytes "messaging.destination.name") p.exchange
          ∷ string_attribute (bytes "messaging.rabbitmq.routing_key") p.routing_key
          ∷ int_attribute (bytes "messaging.message.body.size") (pos p.body_size)
          ∷ [])
      ∷ s,
  inject fields p.headers,
)

-- Its callback.
unfoldable pub end_publish : Texts → Option GoError → Signals → Signals
end_publish texts e s = span_ended ∷ set_outcome texts e s

-- `len(d.Headers) > 0`.
abbrev pub extract : Table → Signals → Signals
extract headers s = elim (entries headers) [ [] ↦ s | _ ∷ _ ↦ extracted headers ∷ s ]

-- `StartConsume`.
unfoldable pub start_consume : DeliveryContext → Signals → Signals
start_consume d s =
    span_started (bytes "rabbitmq.consume") consumer (
      string_attribute (bytes "messaging.system") (bytes "rabbitmq")
      ∷ string_attribute (bytes "messaging.destination.name") d.queue
      ∷ string_attribute (bytes "messaging.rabbitmq.routing_key") d.routing_key
      ∷ string_attribute (bytes "messaging.operation") (bytes "process")
      ∷ int_attribute (bytes "messaging.message.body.size") (pos d.body_size)
      ∷ int_attribute (bytes "messaging.retry_count") d.retry_count
      ∷ [])
    ∷ extract d.headers s

abbrev pub status_of : Option GoError → Str
status_of none = bytes "ok"
status_of (some e) = bytes "error"

-- `attrs` of the callback.
unfoldable pub outcome_attributes : DeliveryContext → ConsumeResult → List Attribute
outcome_attributes d r =
    string_attribute (bytes "messaging.destination.name") d.queue
    ∷ string_attribute (bytes "messaging.rabbitmq.routing_key") d.routing_key
    ∷ string_attribute (bytes "messaging.process.status") (status_of r.err)
    ∷ bool_attribute (bytes "messaging.rabbitmq.acked") r.acked
    ∷ bool_attribute (bytes "messaging.rabbitmq.nacked") r.nacked
    ∷ bool_attribute (bytes "messaging.rabbitmq.requeued") r.requeued
    ∷ bool_attribute (bytes "messaging.rabbitmq.retried") r.retried
    ∷ []

-- `if res.DeadLettered`.
abbrev pub count_dead_letter : DeliveryContext → ConsumeResult → Signals → Signals
count_dead_letter d r s =
    if r.dead_lettered
    then counted dead_letter 1 (
        string_attribute (bytes "messaging.destination.name") d.queue
        ∷ bool_attribute (bytes "messaging.non_retryable") r.non_retryable
        ∷ [])
      ∷ s
    else s

-- The callback of `StartConsume`, so long after the start.
unfoldable pub end_consume : Texts → ℕ → DeliveryContext → ConsumeResult → Signals → Signals
unfolding outcome_attributes
end_consume texts elapsed d r s =
    let attrs = outcome_attributes d r in
    span_ended
    ∷ count_dead_letter d r (
        recorded duration elapsed attrs
        ∷ counted messages 1 attrs
        ∷ attributes_set attrs
        ∷ set_outcome texts r.err s)

-- What the bridge does in a session of `Consume`, by its trace: the signals, and the delivery whose
-- callback has not been called, if there is one. `elapsed` is the time that a handling took, and may
-- differ at each callback.
unfoldable pub observe : Texts → (Signals → ℕ) → Trace → Option DeliveryContext × Signals
unfolding start_consume end_consume
observe texts elapsed [] = (none, [])
observe texts elapsed (started d ∷ h) = (some d, start_consume d (observe texts elapsed h).1)
observe texts elapsed (ended r ∷ h) =
    let (open_delivery, s) = observe texts elapsed h in
    elim open_delivery [ none ↦ (none, s) | some d ↦ (none, end_consume texts (elapsed s) d r s) ]
observe texts elapsed (ev ∷ h) = observe texts elapsed h

-- `err.Error()` of an error of a publish.
abbrev pub published_error : Texts → (Str → Str) → PublishError → GoError
published_error texts quote (failed e) = e
published_error texts quote (publish_returned r) =
    text (returned_error_text (λ n. texts.decimal (pos n)) quote r)

abbrev pub outcome : Texts → (Str → Str) → Option PublishError → Option GoError
outcome texts quote none = none
outcome texts quote (some e) = some (published_error texts quote e)

-- The bridge as an `Instrumentation`.
unfoldable pub bridge : Texts → (Str → Str) → (Signals → ℕ) → List (Str × Str) → Hooks Signals
unfolding start_publish end_publish start_consume end_consume
bridge texts quote elapsed fields = record {
  start_publish = λ p s. record {
    world = (start_publish fields p s).0;
    headers = (start_publish fields p s).1;
    end = λ e s'. end_publish texts (outcome texts quote e) s';
  };
  start_consume = λ d s. (start_consume d s, λ r s'. end_consume texts (elapsed s') d r s');
}

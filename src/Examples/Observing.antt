-- ===== src/Examples/Observing.antt =====
-- The OpenTelemetry bridge on a session and on a retry copy; the options of a dial.
use rabbitmq_go.Base.{ℕ, pos, some, List, [], ◌∷◌, ◌≡◌, refl, Str, bytes, str_eq, put}
use rabbitmq_go.Errors.{Texts, ok}
use rabbitmq_go.Amqp.{Value, int32, string, Table}
use rabbitmq_go.Amqpx.Retry.{read_retry_count, next_retry_headers}
use rabbitmq_go.Config.{Config}
use rabbitmq_go.Consumer.Loop.{receive}
use rabbitmq_go.Otel.Carrier.{carrier_get, carrier_set, inject}
use rabbitmq_go.Otel.Carrier.Retried.{injected_text, context_reaches_retries}
use rabbitmq_go.Otel.Spans.{Signals, observe}
use rabbitmq_go.Otel.Spans.Metered.{Metered, receive-Metered}
use rabbitmq_go.Examples.{raw_config}
use rabbitmq_go.Examples.Consuming.{consumer, failing}
use rabbitmq_go.Examples.Running.{queue, key, arrivals}

-- The field of a propagator, and the headers of a delivery that was retried once.
abbrev pub fields : List (Str × Str)
fields = (bytes "traceparent", bytes "00-1") ∷ []

abbrev headers : List (Str × Value)
headers = (bytes "x-retry-count", int32 (pos 1)) ∷ []

abbrev copy : Table
copy =
    some
      ((bytes "x-retry-count", int32 (pos 2)) ∷ (bytes "traceparent", string (bytes "00-1")) ∷ [])

copied : next_retry_headers (inject fields (some headers)) (pos 2) ≡ ok copy
unfolding next_retry_headers inject carrier_set put str_eq
copied = refl

abbrev pub sprint : Value → Str
sprint _ = []

context_reaches_retries_example :
    (carrier_get sprint (inject fields (some headers)) (bytes "traceparent")
      ≡ injected_text sprint fields headers (bytes "traceparent"))
    × (carrier_get sprint copy (bytes "traceparent")
        ≡ injected_text sprint fields headers (bytes "traceparent"))
    × (read_retry_count (inject fields (some headers)) ≡ read_retry_count (some headers))
unfolding str_eq
context_reaches_retries_example =
    context_reaches_retries sprint fields headers (pos 2) copy (bytes "traceparent") refl copied
      (λ e. absurd cc)

-- The delivery has no budget left, and is dead-lettered.
abbrev pub texts : Texts
texts = record { amqp_text = λ _ reason. reason; decimal = λ _. [] }

abbrev pub second_passed : Signals → ℕ
second_passed _ = 1_000_000_000

nothing-Metered : Metered texts second_passed []
unfolding observe
nothing-Metered = record {
  idle = refl;
  messages_are = refl;
  dead_letters_are = refl;
  starts_are = refl;
  ends_are = refl;
}

receive-Metered_example :
    Metered texts second_passed (receive consumer failing queue key arrivals []).1
receive-Metered_example =
    receive-Metered texts second_passed consumer failing refl queue key arrivals [] nothing-Metered

-- A name, and a map of properties.
abbrev named_config : Config
named_config = record raw_config {
  connection_name = bytes "orders-api";
  client_properties = some ((bytes "product", string (bytes "shop")) ∷ []);
}

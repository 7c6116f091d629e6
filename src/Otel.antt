-- ===== src/Otel.antt =====
-- pkg/otelrabbitmq: the options of the OpenTelemetry instrumentation, and the names of its instruments.
-- Providers and propagators are numbers: the code only hands them on.
pub mod Carrier
pub mod Spans
pub mod Options
use rabbitmq_go.Base.{
  ℕ, Option, none, some, List, [], ◌∷◌, ◌++◌, Str, bytes, is_empty, if◌then◌else◌,
}

pub record OtelConfig : Type 0 where
  pub tracer_provider : ℕ
  pub meter_provider : ℕ
  pub propagator : ℕ
  pub metric_prefix : Str

-- `WithTracerProvider`, `WithMeterProvider`, `WithPropagator`, `WithMetricPrefix`; `none` is nil.
pub data OtelOption : Type 0 where
  with_tracer_provider : Option ℕ → OtelOption
  with_meter_provider : Option ℕ → OtelOption
  with_propagator : Option ℕ → OtelOption
  with_metric_prefix : Str → OtelOption

abbrev pub default_metric_prefix : Str
default_metric_prefix = bytes "rabbitmq"

-- `opt(&cfg)`.
unfoldable pub apply : OtelOption → OtelConfig → OtelConfig
apply (with_tracer_provider none) cfg = cfg
apply (with_tracer_provider (some tp)) cfg = record cfg { tracer_provider = tp }
apply (with_meter_provider none) cfg = cfg
apply (with_meter_provider (some mp)) cfg = record cfg { meter_provider = mp }
apply (with_propagator none) cfg = cfg
apply (with_propagator (some p)) cfg = record cfg { propagator = p }
apply (with_metric_prefix prefix) cfg =
    if is_empty prefix then cfg else record cfg { metric_prefix = prefix }

-- `for _, opt := range opts`.
unfoldable pub apply_all : List OtelOption → OtelConfig → OtelConfig
unfolding apply
apply_all [] cfg = cfg
apply_all (opt ∷ opts) cfg = apply_all opts (apply opt cfg)

-- The instruments, and their names under a prefix (`newMetrics`).
pub data Instrument : Type 0 where
  messages : Instrument
  duration : Instrument
  dead_letter : Instrument

unfoldable pub instrument_name : Str → Instrument → Str
instrument_name prefix messages = prefix ++ bytes ".messages.total"
instrument_name prefix duration = prefix ++ bytes ".message.duration.seconds"
instrument_name prefix dead_letter = prefix ++ bytes ".deadletter.total"

-- What `New` keeps: whose tracer and meter it takes, the propagator, and the names of the instruments.
pub record Bridge : Type 0 where
  pub tracer : ℕ
  pub meter : ℕ
  pub propagator : ℕ
  pub name_of : Instrument → Str

-- `New`, with the global providers and the global propagator.
unfoldable pub new_bridge : ℕ → ℕ → ℕ → List OtelOption → Bridge
unfolding apply_all
new_bridge global_tracer global_meter global_propagator opts =
    let cfg = apply_all opts (record {
      tracer_provider = global_tracer;
      meter_provider = global_meter;
      propagator = global_propagator;
      metric_prefix = default_metric_prefix;
    }) in
    record {
      tracer = cfg.tracer_provider;
      meter = cfg.meter_provider;
      propagator = cfg.propagator;
      name_of = instrument_name cfg.metric_prefix;
    }

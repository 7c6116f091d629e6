-- ===== src/Otel/Options.antt =====
-- pkg/otelrabbitmq/otelrabbitmq.go: which options count.
use rabbitmq_go.Base.{
  ℕ, Option, none, some, List, [], ◌∷◌, ◌++◌, ◌≡◌, refl, ap, ◌∙◌, Str, bytes, is_empty,
  if◌then◌else◌,
}
use rabbitmq_go.Otel.{
  OtelConfig, OtelOption, with_tracer_provider, with_meter_provider, with_propagator,
  with_metric_prefix, default_metric_prefix, apply_all, Instrument, messages, duration, dead_letter,
  instrument_name, new_bridge,
}

-- What an option gives for each setting; a nil and an empty prefix give nothing.
abbrev given_tracer : OtelOption → Option ℕ
given_tracer (with_tracer_provider tp) = tp
given_tracer _ = none

abbrev given_meter : OtelOption → Option ℕ
given_meter (with_meter_provider mp) = mp
given_meter _ = none

abbrev given_propagator : OtelOption → Option ℕ
given_propagator (with_propagator p) = p
given_propagator _ = none

abbrev given_prefix : OtelOption → Option Str
given_prefix (with_metric_prefix prefix) = if is_empty prefix then none else some prefix
given_prefix _ = none

-- The last thing that is given in a list, else a default.
abbrev last_given : {A : Type 0} → (OtelOption → Option A) → A → List OtelOption → A
last_given g d [] = d
last_given g d (opt ∷ opts) = elim (g opt) [
  | none ↦ last_given g d opts
  | some a ↦ last_given g a opts
]

apply_all_lem :
    (opts : List OtelOption) (cfg : OtelConfig)
    → apply_all opts cfg ≡ record {
      tracer_provider = last_given given_tracer cfg.tracer_provider opts;
      meter_provider = last_given given_meter cfg.meter_provider opts;
      propagator = last_given given_propagator cfg.propagator opts;
      metric_prefix = last_given given_prefix cfg.metric_prefix opts;
    }
unfolding apply_all
apply_all_lem [] cfg = refl
apply_all_lem (with_tracer_provider none ∷ opts) cfg = apply_all_lem opts cfg
apply_all_lem (with_tracer_provider (some tp) ∷ opts) cfg =
    apply_all_lem opts (record cfg { tracer_provider = tp })
apply_all_lem (with_meter_provider none ∷ opts) cfg = apply_all_lem opts cfg
apply_all_lem (with_meter_provider (some mp) ∷ opts) cfg =
    apply_all_lem opts (record cfg { meter_provider = mp })
apply_all_lem (with_propagator none ∷ opts) cfg = apply_all_lem opts cfg
apply_all_lem (with_propagator (some p) ∷ opts) cfg =
    apply_all_lem opts (record cfg { propagator = p })
apply_all_lem (with_metric_prefix [] ∷ opts) cfg = apply_all_lem opts cfg
apply_all_lem (with_metric_prefix (c ∷ s) ∷ opts) cfg =
    apply_all_lem opts (record cfg { metric_prefix = c ∷ s })

-- What follows the prefix in the name of an instrument.
abbrev suffix : Instrument → Str
suffix messages = bytes ".messages.total"
suffix duration = bytes ".message.duration.seconds"
suffix dead_letter = bytes ".deadletter.total"

instrument_name_lem :
    (prefix : Str) (i : Instrument) → instrument_name prefix i ≡ prefix ++ suffix i
unfolding instrument_name
instrument_name_lem prefix messages = refl
instrument_name_lem prefix duration = refl
instrument_name_lem prefix dead_letter = refl

-- `New` takes for each setting the last option that is neither nil nor empty, in any order with the
-- other options, and else the global provider or propagator and the prefix "rabbitmq"; the name
-- of each instrument is the prefix and the suffix of the instrument.
new_bridge_lem :
    (tracer meter propagator : ℕ) (opts : List OtelOption) (i : Instrument)
    → let b = new_bridge tracer meter propagator opts in
      (b.tracer ≡ last_given given_tracer tracer opts)
      × (b.meter ≡ last_given given_meter meter opts)
      × (b.propagator ≡ last_given given_propagator propagator opts)
      × (b.name_of i ≡ last_given given_prefix default_metric_prefix opts ++ suffix i)
unfolding new_bridge
new_bridge_lem tracer meter propagator opts i =
    let e = apply_all_lem opts (record {
      tracer_provider = tracer;
      meter_provider = meter;
      propagator = propagator;
      metric_prefix = default_metric_prefix;
    }) in
    (
      ap (λ c. c.tracer_provider) e,
      ap (λ c. c.meter_provider) e,
      ap (λ c. c.propagator) e,
      instrument_name_lem _ i ∙ ap (λ c. c.metric_prefix ++ suffix i) e,
    )

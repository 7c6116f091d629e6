-- ===== src/Otel/Spans/Published.antt =====
-- pkg/otelrabbitmq over pkg/rabbitmq: the span of a publish, and the context that a message carries.
use rabbitmq_go.Base.{
  ℕ, ◌+◌, Bool, true, false, not, ◌&&◌, Option, none, some, List, ◌≡◌, subst, sym, arith, Str,
  tally, if◌then◌else◌,
}
use rabbitmq_go.Errors.{Texts}
use rabbitmq_go.Amqp.{Value, entries}
use rabbitmq_go.Publisher.{PublishMessage, PublishError, Publisher, Client}
use rabbitmq_go.Publisher.Publish.{normalize_publish_message}
use rabbitmq_go.Publisher.Publish.Observed.{publish_observed, started_with, observed_world}
use rabbitmq_go.Otel.Spans.{
  Signal, status_set, code_ok, code_error, Signals, start_publish, end_publish, bridge,
}
use rabbitmq_go.Otel.Spans.Metered.{starts_span, ends_span}

abbrev pub sets_error : Signal → Bool
sets_error (status_set code_error description) = true
sets_error _ = false

abbrev pub sets_ok : Signal → Bool
sets_ok (status_set code_ok description) = true
sets_ok _ = false

abbrev pub is_some : {A : Type 0} → Option A → Bool
is_some none = false
is_some (some a) = true

abbrev pub one_if : Bool → ℕ
one_if b = if b then 1 else 0

-- From the signals `s` to `s'`: one span that was started and ended if `hooked`, with the status of the
-- error that the caller gets.
pub record Spanned (hooked failed : Bool) (s s' : Signals) : Type 0 where
  pub starts_are : tally starts_span s' ≡ tally starts_span s + one_if hooked
  pub ends_are : tally ends_span s' ≡ tally ends_span s + one_if hooked
  pub errors_are : tally sets_error s' ≡ tally sets_error s + one_if (hooked && failed)
  pub oks_are : tally sets_ok s' ≡ tally sets_ok s + one_if (hooked && not failed)

-- The headers of a message after the defaults.
abbrev pub defaulted : PublishMessage → Publisher → List (Str × Value)
defaulted msg p = entries (normalize_publish_message p msg).headers

module _ (texts : Texts) (quote : Str → Str) (elapsed : Signals → ℕ) (fields : List (Str × Str))
    (client : Client) (msg : PublishMessage) (p : Publisher) (s : Signals) where
  -- The hooks of the bridge around an outcome.
  abbrev around : Bool → Option PublishError → Signals
  around hooked e =
      let started = started_with (bridge texts quote elapsed fields) client msg p s in
      if hooked then started.end e started.world else s

  around-Spanned :
      (hooked : Bool) (e : Option PublishError) → Spanned hooked (is_some e) s (around hooked e)
  unfolding bridge start_publish end_publish
  around-Spanned false e = record {
    starts_are = omega arith;
    ends_are = omega arith;
    errors_are = omega arith;
    oks_are = omega arith;
  }
  around-Spanned true none = record {
    starts_are = omega arith;
    ends_are = omega arith;
    errors_are = omega arith;
    oks_are = omega arith;
  }
  around-Spanned true (some e) = record {
    starts_are = omega arith;
    ends_are = omega arith;
    errors_are = omega arith;
    oks_are = omega arith;
  }

  -- `PublishMessage` with the bridge starts and ends one span if the publisher is open and has not taken
  -- the bridge for the no-op default, and none otherwise; the status of the span is error if the caller
  -- gets an error, and ok if not. On every branch.
  pub publish_spans :
      let r = publish_observed (bridge texts quote elapsed fields) client msg p s in
      Spanned (not p.closed && not p.instr_is_nop) (is_some r.0) s r.2
  publish_spans =
      let hooks = bridge texts quote elapsed fields in
      let r = publish_observed hooks client msg p s in
      subst (λ s'. Spanned (not p.closed && not p.instr_is_nop) (is_some r.0) s s')
        (sym (observed_world hooks client msg p s))
        (around-Spanned (not p.closed && not p.instr_is_nop) r.0)

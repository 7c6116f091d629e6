-- ===== src/Otel/Spans/Followed.antt =====
-- pkg/otelrabbitmq: the bridge in a session, as an implementation of the interface.
use rabbitmq_go.Base.{ℕ, Option, none, some, List, [], ◌∷◌, ◌≡◌, refl, ap, sym, ◌∙◌, arith, Str}
use rabbitmq_go.Errors.{Texts}
use rabbitmq_go.Consumer.{DeliveryContext, ConsumeResult, started, ended, Trace}
use rabbitmq_go.Instrumentation.{follow}
use rabbitmq_go.Otel.Spans.{Signals, start_consume, end_consume, observe, bridge}

module _ (texts : Texts) (quote : Str → Str) (elapsed : Signals → ℕ)
    (fields : List (Str × Str)) where
  abbrev callback : Option DeliveryContext → Option (ConsumeResult → Signals → Signals)
  callback none = none
  callback (some d) = some (λ r s. end_consume texts (elapsed s) d r s)

  -- A callback is called, if there is one.
  abbrev finish :
      ConsumeResult
      → Option (ConsumeResult → Signals → Signals) × Signals
      → Option (ConsumeResult → Signals → Signals) × Signals
  finish r (none, s) = (none, s)
  finish r (some end, s) = (none, end r s)

  abbrev finish_open :
      ConsumeResult → Option DeliveryContext × Signals → Option DeliveryContext × Signals
  finish_open r (none, s) = (none, s)
  finish_open r (some d, s) = (none, end_consume texts (elapsed s) d r s)

  finish-callback :
      (r : ConsumeResult) (p : Option DeliveryContext × Signals)
      → finish r (callback p.0, p.1) ≡ (callback (finish_open r p).0, (finish_open r p).1)
  finish-callback r (none, s) = refl
  finish-callback r (some d, s) = refl

  follow_ended :
      (r : ConsumeResult) (h : Trace)
      → follow (bridge texts quote elapsed fields) [] (ended r ∷ h)
        ≡ finish r (follow (bridge texts quote elapsed fields) [] h)
  unfolding follow
  follow_ended r h = ground arith

  observe_ended :
      (r : ConsumeResult) (h : Trace)
      → observe texts elapsed (ended r ∷ h) ≡ finish_open r (observe texts elapsed h)
  unfolding observe
  observe_ended r h = ground arith

  -- The calls that the bridge makes in a session are those that its hooks make, each callback being called
  -- by the end of its delivery.
  follow-observe :
      (h : Trace)
      → follow (bridge texts quote elapsed fields) [] h
        ≡ (callback (observe texts elapsed h).0, (observe texts elapsed h).1)
  unfolding follow observe bridge
  follow-observe [] = refl
  follow-observe (started d ∷ h) =
      ap (λ x. (callback (some d), start_consume d x.1)) (follow-observe h)
  follow-observe (ended r ∷ h) =
      follow_ended r h
      ∙ (ap (λ x. finish r x) (follow-observe h)
          ∙ (finish-callback r (observe texts elapsed h)
              ∙ sym (ap (λ x. (callback x.0, x.1)) (observe_ended r h))))
  follow-observe (ev ∷ h) = follow-observe h

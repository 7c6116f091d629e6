-- ===== src/Otel/Spans/Metered.antt =====
-- pkg/otelrabbitmq over pkg/rabbitmq: what the spans and the counters of the bridge count.
use rabbitmq_go.Base.{
  ℕ, ◌+◌, Bool, true, false, not, none, some, List, [], ◌∷◌, ◌≡◌, refl, ap, subst, sym, ◌∙◌, arith,
  Str, tally, if◌then◌else◌,
}
use rabbitmq_go.Errors.{Texts}
use rabbitmq_go.Amqp.{Delivery}
use rabbitmq_go.Consumer.{
  DeliveryContext, ConsumeResult, Event, started, ended, nacked, Trace, Environment, Consumer,
}
use rabbitmq_go.Consumer.Handling.{process, handle_delivery, delivery_routing_key, delivery_context}
use rabbitmq_go.Consumer.Handling.Settlement.{settlements, reported, process-Settles}
use rabbitmq_go.Consumer.Handling.Measures.{is_silent, measure-process}
use rabbitmq_go.Consumer.Loop.{
  Arrival, context_done, channel_closed, stream_closed, arrives, receive,
}
use rabbitmq_go.Otel.{messages, dead_letter}
use rabbitmq_go.Otel.Spans.{
  Signal, span_started, counted, span_ended, Signals, start_consume, end_consume, observe,
}

abbrev pub counts_message : Signal → Bool
counts_message (counted messages n attrs) = true
counts_message _ = false

abbrev pub counts_dead_letter : Signal → Bool
counts_dead_letter (counted dead_letter n attrs) = true
counts_dead_letter _ = false

abbrev pub starts_span : Signal → Bool
starts_span (span_started name kind attrs) = true
starts_span _ = false

abbrev pub ends_span : Signal → Bool
ends_span span_ended = true
ends_span _ = false

-- A nack with no requeue, with which the broker dead-letters.
abbrev pub is_rejection : Event → Bool
is_rejection (nacked tag multiple requeue) = not requeue
is_rejection _ = false

-- One count of a message, one span that was started and one that was ended for each delivery that was
-- settled, one count of a dead letter for each delivery that was rejected, and no open callback.
pub record Metered (texts : Texts) (elapsed : Signals → ℕ) (h : Trace) : Type 0 where
  pub idle : (observe texts elapsed h).0 ≡ none
  pub messages_are : tally counts_message (observe texts elapsed h).1 ≡ settlements h
  pub dead_letters_are : tally counts_dead_letter (observe texts elapsed h).1 ≡ tally is_rejection h
  pub starts_are : tally starts_span (observe texts elapsed h).1 ≡ settlements h
  pub ends_are : tally ends_span (observe texts elapsed h).1 ≡ settlements h

rejections_silent :
    (ev : Event) (h : Trace)
    → is_silent ev ≡ true
    → tally is_rejection (ev ∷ h) ≡ tally is_rejection h
rejections_silent ev h e = ground arith

rejections_grow :
    (ev : Event) (h k : Trace)
    → tally is_rejection h ≡ tally is_rejection k
    → tally is_rejection (ev ∷ h) ≡ tally is_rejection (ev ∷ k)
rejections_grow ev h k e = ground arith

module _ (texts : Texts) (elapsed : Signals → ℕ) where
  observe_silent :
      (ev : Event) (h : Trace)
      → is_silent ev ≡ true
      → observe texts elapsed (ev ∷ h) ≡ observe texts elapsed h
  unfolding observe
  observe_silent ev h e = ground arith

  observe_grows :
      (ev : Event) (h k : Trace)
      → observe texts elapsed h ≡ observe texts elapsed k
      → observe texts elapsed (ev ∷ h) ≡ observe texts elapsed (ev ∷ k)
  unfolding observe
  observe_grows ev h k e = ground arith

  observe-reported :
      (tag : ℕ) (r : ConsumeResult) (h : Trace)
      → observe texts elapsed (reported tag r ∷ h) ≡ observe texts elapsed h
  unfolding observe
  observe-reported tag r h = ground arith

  observe-ended :
      (r : ConsumeResult) (d : DeliveryContext) (h : Trace) (s : Signals)
      → observe texts elapsed h ≡ (some d, s)
      → observe texts elapsed (ended r ∷ h) ≡ (none, end_consume texts (elapsed s) d r s)
  unfolding observe
  observe-ended r d h s e = ground arith

  observe-started :
      (d : DeliveryContext) (h : Trace)
      → observe texts elapsed (started d ∷ h)
        ≡ (some d, start_consume d (observe texts elapsed h).1)
  unfolding observe
  observe-started d h = refl

  -- What a start and its callback count.
  count-outcome :
      (n : ℕ) (d : DeliveryContext) (r : ConsumeResult) (s : Signals)
      → let t = end_consume texts n d r (start_consume d s) in
        (tally counts_message t ≡ tally counts_message s + 1)
        × (tally counts_dead_letter t
            ≡ tally counts_dead_letter s + (if r.dead_lettered then 1 else 0))
        × (tally starts_span t ≡ tally starts_span s + 1)
        × (tally ends_span t ≡ tally ends_span s + 1)
  unfolding end_consume start_consume
  count-outcome n d r s = ground arith

  module _ (c : Consumer) (env : Environment) (custom : c.instr_is_nop ≡ false) where
    handle_delivery_custom :
        (queue key : Str) (msg : Delivery) (h : Trace)
        → let p =
            process c env
              (delivery_routing_key key msg)
              msg
              (started (delivery_context queue key msg) ∷ h) in
          (handle_delivery c env queue key msg h).1 ≡ ended p.0 ∷ p.1
    unfolding handle_delivery
    handle_delivery_custom queue key msg h = ground arith

    process_observed :
        (key : Str) (msg : Delivery) (d : DeliveryContext) (h : Trace)
        → let p = process c env key msg (started d ∷ h) in
          observe texts elapsed (ended p.0 ∷ p.1) ≡ (
            none,
            end_consume texts
                (elapsed (start_consume d (observe texts elapsed h).1))
                d
                p.0
                (start_consume d (observe texts elapsed h).1),
          )
    process_observed key msg d h =
        let p = process c env key msg (started d ∷ h) in
        observe-ended p.0 d p.1 (start_consume d (observe texts elapsed h).1) (
          measure-process (observe texts elapsed) observe_silent observe_grows c env key msg
            (started d ∷ h)
          ∙ observe-reported msg.delivery_tag p.0 (started d ∷ h)
          ∙ observe-started d h)

    process_rejected :
        (key : Str) (msg : Delivery) (h : Trace)
        → let p = process c env key msg h in
          tally is_rejection p.1 ≡ (if p.0.dead_lettered then 1 else 0) + tally is_rejection h
    process_rejected key msg h =
        let p = process c env key msg h in
        let v = process-Settles c env key msg h in
        measure-process (tally is_rejection) rejections_silent rejections_grow c env key msg h
        ∙ ground (arith, v.either, v.dead_lettered_is)

    process-Metered :
        (key : Str) (msg : Delivery) (d : DeliveryContext) (h : Trace)
        → Metered texts elapsed h
        → let p = process c env key msg (started d ∷ h) in Metered texts elapsed (ended p.0 ∷ p.1)
    process-Metered key msg d h v =
        let p = process c env key msg (started d ∷ h) in
        let s = (observe texts elapsed h).1 in
        let now = process_observed key msg d h in
        let (m, dl, st, en) = count-outcome (elapsed (start_consume d s)) d p.0 s in
        let once = (process-Settles c env key msg (started d ∷ h)).once in
        let rejected = process_rejected key msg (started d ∷ h) in
        record {
          idle = ap (λ o. o.0) now;
          messages_are =
              ap (λ o. tally counts_message o.1) now ∙ ground (arith, m, once, v.messages_are);
          dead_letters_are =
              ap (λ o. tally counts_dead_letter o.1) now
              ∙ ground (arith, dl, rejected, v.dead_letters_are);
          starts_are = ap (λ o. tally starts_span o.1) now ∙ ground (arith, st, once, v.starts_are);
          ends_are = ap (λ o. tally ends_span o.1) now ∙ ground (arith, en, once, v.ends_are);
        }

    handle_delivery-Metered :
        (queue key : Str) (msg : Delivery) (h : Trace)
        → Metered texts elapsed h
        → Metered texts elapsed (handle_delivery c env queue key msg h).1
    handle_delivery-Metered queue key msg h v =
        subst (Metered texts elapsed) (sym (handle_delivery_custom queue key msg h))
          (process-Metered (delivery_routing_key key msg) msg (delivery_context queue key msg) h v)

    -- With the bridge as its instrumentation, a session of `Consume` keeps the counts: as many messages
    -- counted, spans started and spans ended as deliveries settled, as many dead letters counted as
    -- deliveries nacked with no requeue, and no callback left open.
    pub receive-Metered :
        (queue key : Str) (arrivals : List Arrival) (h : Trace)
        → Metered texts elapsed h
        → Metered texts elapsed (receive c env queue key arrivals h).1
    unfolding receive
    receive-Metered queue key [] h v = v
    receive-Metered queue key (context_done ∷ rest) h v = v
    receive-Metered queue key (channel_closed e ∷ rest) h v = v
    receive-Metered queue key (stream_closed ∷ rest) h v = v
    receive-Metered queue key (arrives d ∷ rest) h v =
        receive-Metered queue key rest _ (handle_delivery-Metered queue key d h v)

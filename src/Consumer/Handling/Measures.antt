-- ===== src/Consumer/Handling/Measures.antt =====
-- pkg/rabbitmq/consumer.go: what the handling of a delivery adds to a trace, seen by a measure that
-- only calls of acknowledgement and of the instrumentation change.
use rabbitmq_go.Base.{
  ℤ, Bool, true, false, ◌∷◌, ◌≡◌, refl, ◌⊎◌, ap, ◌∙◌, arith, Str, inc_int, inl, inr,
}
use rabbitmq_go.Errors.{Result, ok, err}
use rabbitmq_go.Amqp.{Table, Publishing, Delivery}
use rabbitmq_go.Amqpx.Retry.{read_retry_count, next_retry_headers}
use rabbitmq_go.Consumer.{Event, handled, published, waited, hooked, Trace, Environment, Consumer}
use rabbitmq_go.Consumer.Handling.{
  call_handler, publish_copy, republish_with_retry, retry_copy, publish_retry, process,
  handle_handler_error, message_from_delivery,
}
use rabbitmq_go.Consumer.Handling.Settlement.{reported}

-- The events that such a measure does not see.
abbrev pub is_silent : Event → Bool
is_silent (handled m) = true
is_silent (published exchange key mandatory immediate p) = true
is_silent waited = true
is_silent (hooked key d n) = true
is_silent _ = false

-- The acknowledgement comes right after the handler, or after the publish of a retry.
process_shape :
    (c : Consumer) (env : Environment) (key : Str) (msg : Delivery) (h : Trace)
    → let n = read_retry_count msg.headers in
      let t = (call_handler c env msg n h).1 in
      let r = reported msg.delivery_tag (process c env key msg h).0 in
      ((process c env key msg h).1 ≡ r ∷ t)
      ⊎ ((process c env key msg h).1 ≡ r ∷ (publish_retry c env key msg (inc_int n) t).1)
unfolding process handle_handler_error
process_shape c env key msg h = ground arith

module _ {A : Type 0} (f : Trace → A)
    (silent : (ev : Event) (h : Trace) → is_silent ev ≡ true → f (ev ∷ h) ≡ f h)
    (grows : (ev : Event) (h k : Trace) → f h ≡ f k → f (ev ∷ h) ≡ f (ev ∷ k)) (c : Consumer)
    (env : Environment) where
  measure-call_handler :
      (msg : Delivery) (n : ℤ) (h : Trace) → f (call_handler c env msg n h).1 ≡ f h
  unfolding call_handler
  measure-call_handler msg n h =
      ground (arith, silent (handled (message_from_delivery msg n)) h refl)

  measure-publish_copy :
      (key : Str) (copy : Publishing) (h : Trace) → f (publish_copy c env key copy h).1 ≡ f h
  unfolding publish_copy
  measure-publish_copy key copy h =
      let sent = published c.cfg.exchange key false false copy in
      ground (arith, silent sent h refl, silent waited (sent ∷ h) refl)

  measure-republish :
      (key : Str) (msg : Delivery) (n : ℤ) (h : Trace) (headers : Result Table)
      → next_retry_headers msg.headers n ≡ headers
      → f (republish_with_retry c env key msg n h).1 ≡ f h
  unfolding republish_with_retry
  measure-republish key msg n h (err e) r = ground arith
  measure-republish key msg n h (ok headers) r =
      ground (arith, measure-publish_copy key (retry_copy msg headers) h)

  measure-publish_retry :
      (key : Str) (msg : Delivery) (n : ℤ) (h : Trace) → f (publish_retry c env key msg n h).1 ≡ f h
  unfolding publish_retry
  measure-publish_retry key msg n h =
      ground (arith, silent (hooked key msg n) h refl, measure-republish key msg n h _ refl)

  -- The processing adds, for such a measure, the acknowledgement that it reports.
  pub measure-process :
      (key : Str) (msg : Delivery) (h : Trace)
      → f (process c env key msg h).1
        ≡ f (reported msg.delivery_tag (process c env key msg h).0 ∷ h)
  measure-process key msg h =
      let n = read_retry_count msg.headers in
      let t = (call_handler c env msg n h).1 in
      let called = measure-call_handler msg n h in
      let r = (process c env key msg h).0 in
      elim (process_shape c env key msg h) [
        | inl e ↦ ap f e ∙ grows (reported msg.delivery_tag r) t h called
        | inr e ↦
            ap f e
            ∙ grows (reported msg.delivery_tag r) (publish_retry c env key msg (inc_int n) t).1 h
                (measure-publish_retry key msg (inc_int n) t ∙ called)
      ]

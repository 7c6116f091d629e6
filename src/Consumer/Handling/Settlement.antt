-- ===== src/Consumer/Handling/Settlement.antt =====
-- pkg/rabbitmq/consumer.go: each delivery is settled once, and the reported outcome is what happened.
use rabbitmq_go.Base.{
  ℕ, ◌+◌, ℤ, Bool, true, false, not, ◌&&◌, Option, none, some, [], ◌∷◌, ◌≡◌, arith, Str, tally,
  inc_int, inl, inr, Bool-cases, if◌then◌else◌,
}
use rabbitmq_go.Amqp.{Publishing, Delivery}
use rabbitmq_go.Amqpx.Retry.{read_retry_count}
use rabbitmq_go.Consumer.{
  ConsumeResult, DeliveryContext, Event, started, ended, acked, nacked, Trace, Environment,
  Consumer,
}
use rabbitmq_go.Consumer.Handling.{
  call_handler, publish_copy, publish_retry, process, handle_handler_error, handle_delivery,
  delivery_routing_key, delivery_context,
}

-- Is the event an acknowledgement, positive or negative?
abbrev pub is_settlement : Event → Bool
is_settlement (acked tag multiple) = true
is_settlement (nacked tag multiple requeue) = true
is_settlement _ = false

abbrev pub settlements : Trace → ℕ
settlements = tally is_settlement

abbrev pub is_some {ℓ} : {A : Type ℓ} → Option A → Bool
is_some none = false
is_some (some a) = true

abbrev pub newest : Trace → Option Event
newest [] = none
newest (ev ∷ h) = some ev

-- The call that a result reports, for the delivery with a tag and for no other.
abbrev pub reported : ℕ → ConsumeResult → Event
reported tag r = if r.acked then acked tag false else nacked tag false r.requeued

-- After trace `h` a delivery was settled with result `r`, and the trace is now `t`.
pub record Settles (tag : ℕ) (h : Trace) (r : ConsumeResult) (t : Trace) : Type 0 where
  pub last_is : newest t ≡ some (reported tag r)
  pub once : settlements t ≡ settlements h + 1
  pub either : r.nacked ≡ not r.acked
  pub dead_lettered_is : r.dead_lettered ≡ (r.nacked && not r.requeued)
  pub requeued_is_nacked : (r.requeued && r.acked) ≡ false
  pub retried_is : r.retried ≡ (r.acked && is_some r.err)

Settles-started :
    (tag : ℕ) (d : DeliveryContext) (h : Trace) (r : ConsumeResult) (t : Trace)
    → Settles tag (started d ∷ h) r t
    → Settles tag h r t
Settles-started tag d h r t s = record {
  last_is = s.last_is;
  once = omega (arith, s.once);
  either = s.either;
  dead_lettered_is = s.dead_lettered_is;
  requeued_is_nacked = s.requeued_is_nacked;
  retried_is = s.retried_is;
}

module _ (c : Consumer) (env : Environment) where
  settlements-call_handler :
      (msg : Delivery) (n : ℤ) (h : Trace)
      → settlements (call_handler c env msg n h).1 ≡ settlements h
  unfolding call_handler
  settlements-call_handler msg n h = ground arith

  settlements-publish_copy :
      (key : Str) (copy : Publishing) (h : Trace)
      → settlements (publish_copy c env key copy h).1 ≡ settlements h
  unfolding publish_copy
  settlements-publish_copy key copy h = ground arith

  settlements-publish_retry :
      (key : Str) (msg : Delivery) (n : ℤ) (h : Trace)
      → settlements (publish_retry c env key msg n h).1 ≡ settlements h
  unfolding publish_retry
  settlements-publish_retry key msg n h = ground arith

  pub process-Settles :
      (key : Str) (msg : Delivery) (h : Trace)
      → Settles msg.delivery_tag h (process c env key msg h).0 (process c env key msg h).1
  unfolding process handle_handler_error
  process-Settles key msg h = ground (
    arith,
    settlements-call_handler msg (read_retry_count msg.headers) h,
    settlements-publish_retry key msg (inc_int (read_retry_count msg.headers))
        (call_handler c env msg (read_retry_count msg.headers) h).1,
  )

  -- `handleDelivery` settles each delivery once, by one call that names only this delivery, and on
  -- every branch, panics of the handler and failures of the retry publish included. With a custom
  -- instrumentation the last event is the callback with a result that agrees with that call: exactly
  -- one of acked and nacked, dead-lettered exactly when nacked with no requeue, retried exactly when
  -- acked after an error.
  pub handle_delivery-Settles :
      (queue key : Str) (msg : Delivery) (h : Trace)
      → (r : ConsumeResult) × (t : Trace) × Settles msg.delivery_tag h r t
        × ((handle_delivery c env queue key msg h).1 ≡ (if c.instr_is_nop then t else ended r ∷ t))
  unfolding handle_delivery
  handle_delivery-Settles queue key msg h = elim (Bool-cases c.instr_is_nop) [
    | inl e ↦
        let k = delivery_routing_key key msg in
        (
          (process c env k msg h).0,
          (process c env k msg h).1,
          process-Settles k msg h,
          ground arith,
        )
    | inr e ↦
        let k = delivery_routing_key key msg in
        let h' = started (delivery_context queue key msg) ∷ h in
        (
          (process c env k msg h').0,
          (process c env k msg h').1,
          Settles-started msg.delivery_tag (delivery_context queue key msg) h
              (process c env k msg h').0 (process c env k msg h').1 (process-Settles k msg h'),
          ground arith,
        )
  ]

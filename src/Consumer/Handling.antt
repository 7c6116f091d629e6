-- ===== src/Consumer/Handling.antt =====
-- pkg/rabbitmq/consumer.go: `handleDelivery` and what it calls, `callHandler`, `handleHandlerError`,
-- `publishRetry` and `republishWithRetry`. A function takes the trace and gives its result with the
-- longer trace. Log lines and the values of contexts are left out.
pub mod Settlement
pub mod Measures
pub mod Outcome
pub mod Bounded
pub mod Exhausted
pub mod Requeue
use rabbitmq_go.Base.{
  ℤ, leb_ℤ, inc_int, true, false, ◌||◌, Option, none, some, ◌∷◌, ◌++◌, Str, bytes, is_empty, length,
  ◌==◌, if◌then◌else◌,
}
use rabbitmq_go.Errors.{GoError, text, is_non_retryable, ok, err}
use rabbitmq_go.Amqp.{Table, Publishing, Delivery, persistent}
use rabbitmq_go.Amqpx.Retry.{read_retry_count, next_retry_headers}
use rabbitmq_go.Consumer.{
  Message, DeliveryContext, ConsumeResult, zero_result, Event, started, handled, published, waited,
  hooked, acked, nacked, ended, Trace, returned, panicked, refused, unconfirmed, deferred,
  wait_failed, confirmed, Environment, Consumer,
}

-- A computation that observes and extends the trace.
abbrev pub M : Type 0 → Type 0
M A = Trace → A × Trace

abbrev pub pure : {A : Type 0} → A → M A
pure a h = (a, h)

infixl 5 ◌>>=◌ ◌>>◌
abbrev pub ◌>>=◌ : {A B : Type 0} → M A → (A → M B) → M B
◌>>=◌ m f h = let (a, h') = m h in f a h'

abbrev pub ◌>>◌ : {A B : Type 0} → M A → M B → M B
m >> k = m >>= λ _. k

abbrev pub emit : Event → M (Unit {0})
emit ev h = (tt, ev ∷ h)

-- `messageFromDelivery`.
unfoldable pub message_from_delivery : Delivery → ℤ → Message
message_from_delivery msg retry_count = record {
  body = msg.body;
  headers = msg.headers;
  content_type = msg.content_type;
  content_encoding = msg.content_encoding;
  delivery_mode = msg.delivery_mode;
  priority = msg.priority;
  correlation_id = msg.correlation_id;
  reply_to = msg.reply_to;
  expiration = msg.expiration;
  message_id = msg.message_id;
  timestamp = msg.timestamp;
  type = msg.type;
  user_id = msg.user_id;
  app_id = msg.app_id;
  routing_key = msg.routing_key;
  exchange = msg.exchange;
  redelivered = msg.redelivered;
  retry_count = retry_count;
}

-- The outcome with which `handleHandlerError` starts.
abbrev pub failed_with : GoError → ConsumeResult
failed_with e = record zero_result { err = some e; non_retryable = is_non_retryable e }

-- The publishing that `republishWithRetry` builds.
unfoldable pub retry_copy : Delivery → Table → Publishing
retry_copy original headers = record {
  headers = headers;
  content_type = original.content_type;
  content_encoding = original.content_encoding;
  delivery_mode = if original.delivery_mode == 0 then persistent else original.delivery_mode;
  priority = original.priority;
  correlation_id = original.correlation_id;
  reply_to = original.reply_to;
  expiration = original.expiration;
  message_id = original.message_id;
  timestamp = original.timestamp;
  type = original.type;
  user_id = original.user_id;
  app_id = original.app_id;
  body = original.body;
}

-- The routing key that a retry uses: the delivery's own, else that of `Consume`.
unfoldable pub delivery_routing_key : Str → Delivery → Str
delivery_routing_key routing_key msg =
    if is_empty msg.routing_key then routing_key else msg.routing_key

-- What `handleDelivery` tells the instrumentation.
unfoldable pub delivery_context : Str → Str → Delivery → DeliveryContext
unfolding delivery_routing_key
delivery_context queue_name routing_key msg = record {
  queue = queue_name;
  routing_key = delivery_routing_key routing_key msg;
  body_size = length msg.body;
  retry_count = read_retry_count msg.headers;
  headers = msg.headers;
}

module _ (c : Consumer) (env : Environment) where
  -- `callHandler`: a panic becomes an error.
  unfoldable pub call_handler : Delivery → ℤ → M (Option GoError)
  call_handler msg retry_count h =
      let m = message_from_delivery msg retry_count in
      elim (env.handler h m) [
        | returned e ↦ (e, handled m ∷ h)
        | panicked v ↦ (some (text (bytes "rabbitmq: message handler panic: " ++ v)), handled m ∷ h)
      ]

  -- The wait of `republishWithRetry`, and the error that it gives.
  unfoldable pub await_confirm : M (Option GoError)
  await_confirm h = elim (env.wait h) [
    | wait_failed e ↦ (some e, waited ∷ h)
    | confirmed true ↦ (none, waited ∷ h)
    | confirmed false ↦
        (some (text (bytes "rabbitmq: retry publish was not acknowledged by broker")), waited ∷ h)
  ]

  -- The publish of `republishWithRetry` and what follows it.
  unfoldable pub publish_copy : Str → Publishing → M (Option GoError)
  unfolding await_confirm
  publish_copy routing_key copy h =
      let h' = published c.cfg.exchange routing_key false false copy ∷ h in
      elim (env.publish_deferred h c.cfg.exchange routing_key copy) [
        | refused e ↦ (some e, h')
        | unconfirmed ↦
            (some (text (bytes "rabbitmq: publisher confirms not enabled on retry channel")), h')
        | deferred ↦ await_confirm h'
      ]

  -- `republishWithRetry`; `none` is the nil error.
  unfoldable pub republish_with_retry : Str → Delivery → ℤ → M (Option GoError)
  unfolding publish_copy
  republish_with_retry routing_key original new_retry_count =
      elim (next_retry_headers original.headers new_retry_count) [
        | err e ↦ pure (some e)
        | ok headers ↦ publish_copy routing_key (retry_copy original headers)
      ]

  -- `publishRetry`, with the hook that tests may set.
  unfoldable pub publish_retry : Str → Delivery → ℤ → M (Option GoError)
  unfolding republish_with_retry
  publish_retry routing_key original new_retry_count = elim c.retry_publish [
    | none ↦ republish_with_retry routing_key original new_retry_count
    | some hook ↦ λ h. (
      hook h routing_key original new_retry_count,
      hooked routing_key original new_retry_count ∷ h,
    )
  ]

  -- The branch of `handleHandlerError` that gives the message up.
  unfoldable pub dead_letter : Delivery → ConsumeResult → M ConsumeResult
  dead_letter msg outcome = do
    emit (nacked msg.delivery_tag false false)
    pure (record outcome { dead_lettered = true; nacked = true })

  -- The branch of `handleHandlerError` that retries.
  unfoldable pub retry : Str → Delivery → ℤ → ConsumeResult → M ConsumeResult
  retry routing_key msg retry_count outcome = do
    pub_err ← publish_retry routing_key msg (inc_int retry_count)
    elim pub_err [
      | some e ↦ do
        emit (nacked msg.delivery_tag false true)
        pure (record outcome { nacked = true; requeued = true })
      | none ↦ do
        emit (acked msg.delivery_tag false)
        pure (record outcome { acked = true; retried = true })
    ]

  -- `handleHandlerError`.
  unfoldable pub handle_handler_error : Str → Delivery → ℤ → GoError → M ConsumeResult
  unfolding dead_letter retry
  handle_handler_error routing_key msg retry_count handler_err =
      let outcome = failed_with handler_err in
      let retries_exhausted = leb_ℤ c.cfg.max_retries retry_count in
      if outcome.non_retryable || retries_exhausted
      then dead_letter msg outcome
      else retry routing_key msg retry_count outcome

  -- The part of `handleDelivery` between the two calls of the instrumentation.
  unfoldable pub process : Str → Delivery → M ConsumeResult
  unfolding call_handler
  process routing_key msg = do
    handler_err ← call_handler msg (read_retry_count msg.headers)
    elim handler_err [
      | some e ↦ handle_handler_error routing_key msg (read_retry_count msg.headers) e
      | none ↦ do emit (acked msg.delivery_tag false); pure (record zero_result { acked = true })
    ]

  -- `handleDelivery`.
  unfoldable pub handle_delivery : Str → Str → Delivery → M (Unit {0})
  handle_delivery queue_name routing_key msg =
      let key = delivery_routing_key routing_key msg in
      if c.instr_is_nop then (process key msg >>= λ _. pure tt) else do
        emit (started (delivery_context queue_name routing_key msg))
        result ← process key msg
        emit (ended result)

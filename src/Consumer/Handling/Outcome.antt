-- ===== src/Consumer/Handling/Outcome.antt =====
-- pkg/rabbitmq/consumer.go: when a delivery is acknowledged, dead-lettered or requeued.
use rabbitmq_go.Base.{
  ℕ, ◌<◌, Bool, tally, ℤ, leb_ℤ, ◌≤ℤ◌, ◌<ℤ◌, true, false, ◌||◌, Option, none, some, ◌∷◌, ◌++◌, ◌≡◌,
  refl, ◌⊎◌, inl, inr, ◌↔◌, arith, Str, bytes, inc_int, Bool-cases, Option-cases, ap, sym, ◌∙◌,
}
use rabbitmq_go.Errors.{GoError, Result, text, is_non_retryable, ok, err}
use rabbitmq_go.Amqp.{Table, Publishing, Delivery}
use rabbitmq_go.Amqpx.Retry.{read_retry_count, next_retry_headers}
use rabbitmq_go.Consumer.{
  Message, ConsumeResult, zero_result, HandlerOutcome, returned, panicked, handled, published,
  waited, Event, acked, nacked, Trace, Environment, Consumer, deferred, confirmed,
}
use rabbitmq_go.Consumer.Handling.Settlement.{newest}
use rabbitmq_go.Consumer.Handling.{
  dead_letter, failed_with, message_from_delivery, retry_copy, publish_copy, republish_with_retry,
  publish_retry, retry, handle_handler_error, process,
}

-- The error of a handler's run, if it failed.
abbrev pub failure : HandlerOutcome → Option GoError
failure (returned e) = e
failure (panicked v) = some (text (bytes "rabbitmq: message handler panic: " ++ v))

-- What the handler is called with, and how that call ends.
abbrev pub message : Delivery → Message
message msg = message_from_delivery msg (read_retry_count msg.headers)

abbrev pub run_handler : Environment → Delivery → Trace → Option GoError
run_handler env msg h = failure (env.handler h (message msg))

abbrev is_ack : Event → Bool
is_ack (acked tag multiple) = true
is_ack _ = false

-- How often a delivery was acknowledged.
abbrev pub acks : Trace → ℕ
acks = tally is_ack

-- A retry copy with these headers was published after the handler's call, and the broker
-- acknowledged it.
pub record CopyConfirmed (c : Consumer) (env : Environment) (key : Str) (msg : Delivery)
    (h t : Trace) : Type 0 where
  pub headers : Table
  pub counted : next_retry_headers msg.headers (inc_int (read_retry_count msg.headers)) ≡ ok headers
  pub accepted :
      env.publish_deferred (handled (message msg) ∷ h) c.cfg.exchange key (retry_copy msg headers)
      ≡ deferred
  pub acknowledged :
      env.wait (
        published c.cfg.exchange key false false (retry_copy msg headers)
        ∷ handled (message msg)
        ∷ h)
      ≡ confirmed true
  pub trace_is :
      t
      ≡ acked msg.delivery_tag false
        ∷ waited
        ∷ published c.cfg.exchange key false false (retry_copy msg headers)
        ∷ handled (message msg)
        ∷ h

module _ (c : Consumer) (env : Environment) where
  -- The two ways of `process`, by how the handler ended.
  pub process_succeeded :
      (key : Str) (msg : Delivery) (h : Trace)
      → run_handler env msg h ≡ none
      → process c env key msg h ≡ (
        record zero_result { acked = true },
        acked msg.delivery_tag false ∷ handled (message msg) ∷ h,
      )
  unfolding process
  process_succeeded key msg h e = ground arith

  pub process_failed :
      (key : Str) (msg : Delivery) (h : Trace) (e : GoError)
      → run_handler env msg h ≡ some e
      → process c env key msg h
        ≡ handle_handler_error c env key msg
            (read_retry_count msg.headers)
            e
            (handled (message msg) ∷ h)
  unfolding process
  process_failed key msg h e f = ground arith

  -- A republish with no error was accepted and acknowledged.
  publish_copy_succeeded :
      (key : Str) (copy : Publishing) (h : Trace)
      → (publish_copy c env key copy h).0 ≡ none
      → (env.publish_deferred h c.cfg.exchange key copy ≡ deferred)
        × (env.wait (published c.cfg.exchange key false false copy ∷ h) ≡ confirmed true)
        × ((publish_copy c env key copy h).1
            ≡ waited ∷ published c.cfg.exchange key false false copy ∷ h)
  unfolding publish_copy
  publish_copy_succeeded key copy h e = ground arith

  -- The three ends of `handleHandlerError`.
  pub data Ended (key : Str) (msg : Delivery) (e : GoError) (h : Trace) (r : ConsumeResult)
      (t : Trace) : Type 0 where
    gave_up :
        (is_non_retryable e ≡ true) ⊎ (c.cfg.max_retries ≤ℤ read_retry_count msg.headers)
        → r.dead_lettered ≡ true
        → r.acked ≡ false
        → r.retried ≡ false
        → r.requeued ≡ false
        → t ≡ nacked msg.delivery_tag false false ∷ h
        → Ended key msg e h r t
    copied :
        is_non_retryable e ≡ false
        → read_retry_count msg.headers <ℤ c.cfg.max_retries
        → r.dead_lettered ≡ false
        → r.acked ≡ true
        → r.retried ≡ true
        → r.requeued ≡ false
        → (u : Trace)
        → publish_retry c env key msg (inc_int (read_retry_count msg.headers)) h ≡ (none, u)
        → t ≡ acked msg.delivery_tag false ∷ u
        → Ended key msg e h r t
    put_back :
        is_non_retryable e ≡ false
        → read_retry_count msg.headers <ℤ c.cfg.max_retries
        → r.dead_lettered ≡ false
        → r.acked ≡ false
        → r.retried ≡ false
        → r.requeued ≡ true
        → (u : Trace) (why : GoError)
        → publish_retry c env key msg (inc_int (read_retry_count msg.headers)) h ≡ (some why, u)
        → t ≡ nacked msg.delivery_tag false true ∷ u
        → Ended key msg e h r t

  retry_confirmed :
      (key : Str) (msg : Delivery) (n : ℤ) (o : ConsumeResult) (h u : Trace)
      → publish_retry c env key msg (inc_int n) h ≡ (none, u)
      → retry c env key msg n o h
        ≡ (record o { acked = true; retried = true }, acked msg.delivery_tag false ∷ u)
  unfolding retry
  retry_confirmed key msg n o h u e = ground arith

  pub retry_refused :
      (key : Str) (msg : Delivery) (n : ℤ) (o : ConsumeResult) (h u : Trace) (why : GoError)
      → publish_retry c env key msg (inc_int n) h ≡ (some why, u)
      → retry c env key msg n o h
        ≡ (record o { nacked = true; requeued = true }, nacked msg.delivery_tag false true ∷ u)
  unfolding retry
  retry_refused key msg n o h u why e = ground arith

  retry-Ended :
      (key : Str) (msg : Delivery) (e : GoError) (h : Trace) (p : Option GoError × Trace)
      → publish_retry c env key msg (inc_int (read_retry_count msg.headers)) h ≡ p
      → is_non_retryable e ≡ false
      → read_retry_count msg.headers <ℤ c.cfg.max_retries
      → let q = retry c env key msg (read_retry_count msg.headers) (failed_with e) h in
        Ended key msg e h q.0 q.1
  retry-Ended key msg e h (none, u) pe ne lt =
      rw (retry_confirmed key msg _ _ h u pe) (copied ne lt refl refl refl refl u pe refl)
  retry-Ended key msg e h (some why, u) pe ne lt =
      rw (retry_refused key msg _ _ h u why pe) (put_back ne lt refl refl refl refl u why pe refl)

  handle_handler_error-Ended :
      (key : Str) (msg : Delivery) (e : GoError) (h : Trace)
      → let q = handle_handler_error c env key msg (read_retry_count msg.headers) e h in
        Ended key msg e h q.0 q.1
  unfolding handle_handler_error dead_letter
  handle_handler_error-Ended key msg e h =
      elim (Bool-cases
        (is_non_retryable e || leb_ℤ c.cfg.max_retries (read_retry_count msg.headers))) [
          | inl up ↦ rw (up, handle_handler_error) (gave_up (ground arith) refl refl refl refl refl)
          | inr again ↦
              rw (again, handle_handler_error)
                (retry-Ended key msg e h _ refl (ground arith) (ground arith))
        ]

  pub process-Ended :
      (key : Str) (msg : Delivery) (h : Trace) (e : GoError)
      → run_handler env msg h ≡ some e
      → let q = process c env key msg h in Ended key msg e (handled (message msg) ∷ h) q.0 q.1
  process-Ended key msg h e f =
      rw (process_failed key msg h e f) (handle_handler_error-Ended key msg e _)

  acks-publish_retry :
      (key : Str) (msg : Delivery) (n : ℤ) (h : Trace)
      → acks (publish_retry c env key msg n h).1 ≡ acks h
  unfolding publish_retry
  acks-publish_retry key msg n h = ground arith

  -- Of the three ends only the copied one acknowledges, and only the first nacks with no requeue.
  pub Ended-acked :
      {key : Str} {msg : Delivery} {e : GoError} {h : Trace} {r : ConsumeResult} {t : Trace}
      → Ended key msg e h r t
      → acks h < acks t
      → (u : Trace) × (publish_retry c env key msg (inc_int (read_retry_count msg.headers)) h
          ≡ (none, u))
        × (t ≡ acked msg.delivery_tag false ∷ u)
  Ended-acked (gave_up _ _ _ _ _ q) b = absurd (omega (arith, ap acks q, b))
  Ended-acked (copied _ _ _ _ _ _ u p q) b = (u, p, q)
  Ended-acked {key} {msg} {h = h} (put_back _ _ _ _ _ _ u why p q) b = absurd (
      omega (
        arith,
        ap acks q,
        b,
        ap (λ r. acks r.1) p,
        acks-publish_retry key msg (inc_int (read_retry_count msg.headers)) h,
      ))

  Ended-nacked :
      {key : Str} {msg : Delivery} {e : GoError} {h : Trace} {r : ConsumeResult} {t : Trace}
      → Ended key msg e h r t
      → newest t ≡ some (nacked msg.delivery_tag false false)
      → (is_non_retryable e ≡ true) ⊎ (c.cfg.max_retries ≤ℤ read_retry_count msg.headers)
  Ended-nacked (gave_up why _ _ _ _ _) b = why
  Ended-nacked (copied _ _ _ _ _ _ u p q) b = absurd (cc (ap newest q, b))
  Ended-nacked (put_back _ _ _ _ _ _ u why p q) b = absurd (cc (ap newest q, b))

  Ended-gave_up :
      {key : Str} {msg : Delivery} {e : GoError} {h : Trace} {r : ConsumeResult} {t : Trace}
      → Ended key msg e h r t
      → (is_non_retryable e ≡ true) ⊎ (c.cfg.max_retries ≤ℤ read_retry_count msg.headers)
      → newest t ≡ some (nacked msg.delivery_tag false false)
  Ended-gave_up (gave_up _ _ _ _ _ q) b = ap newest q
  Ended-gave_up (copied ne lt _ _ _ _ _ _ _) b = absurd (ground arith)
  Ended-gave_up (put_back ne lt _ _ _ _ _ _ _ _) b = absurd (ground arith)

  -- The last thing done for a delivery is its nack with no requeue, which dead-letters it, exactly
  -- when its handler failed with an error that is not retryable, or failed with the retry count at
  -- `MaxRetries` or above; a panic counts as an error with its text.
  pub process_dead_lettered_iff :
      (key : Str) (msg : Delivery) (h : Trace)
      → (newest (process c env key msg h).1 ≡ some (nacked msg.delivery_tag false false)) ↔ (
          (e : GoError) × (run_handler env msg h ≡ some e)
          × ((is_non_retryable e ≡ true) ⊎ (c.cfg.max_retries ≤ℤ read_retry_count msg.headers)))
  process_dead_lettered_iff key msg h = (
    λ d. elim (Option-cases (run_handler env msg h)) [
      | inl s ↦ absurd (cc (ap (λ q. newest q.1) (process_succeeded key msg h s), d))
      | inr (e, f) ↦ (e, f, Ended-nacked (process-Ended key msg h e f) d)
    ],
    λ (e, f, why). Ended-gave_up (process-Ended key msg h e f) why,
  )

module _ (c : Consumer) (env : Environment) (no_hook : c.retry_publish ≡ none) where
  publish_retry_no_hook :
      (key : Str) (msg : Delivery) (n : ℤ) (h : Trace)
      → publish_retry c env key msg n h ≡ republish_with_retry c env key msg n h
  unfolding publish_retry
  publish_retry_no_hook key msg n h = ground arith

  pub republished :
      (key : Str) (msg : Delivery) (n : ℤ) (h u : Trace) (made : Result Table)
      → next_retry_headers msg.headers n ≡ made
      → publish_retry c env key msg n h ≡ (none, u)
      → (headers : Table) × (next_retry_headers msg.headers n ≡ ok headers)
        × (env.publish_deferred h c.cfg.exchange key (retry_copy msg headers) ≡ deferred)
        × (env.wait (published c.cfg.exchange key false false (retry_copy msg headers) ∷ h)
            ≡ confirmed true)
        × (u ≡ waited ∷ published c.cfg.exchange key false false (retry_copy msg headers) ∷ h)
  unfolding republish_with_retry
  republished key msg n h u (err why) m p =
      absurd (ground (arith, publish_retry_no_hook key msg n h))
  republished key msg n h u (ok headers) m p =
      let same : publish_copy c env key (retry_copy msg headers) h ≡ (none, u) =
        ground (arith, publish_retry_no_hook key msg n h) in
      let (d, w, t) =
        publish_copy_succeeded c env key (retry_copy msg headers) h (ap (λ q. q.0) same) in
      (headers, m, d, w, sym (ap (λ q. q.1) same) ∙ t)

  -- With no test hook set, `Ack` is called for the original only if the handler returned nil and nothing
  -- was republished, or if a copy with the next retry count was published to the configured exchange
  -- after the handler's call and acknowledged by the broker before the original was.
  pub process_acked :
      (key : Str) (msg : Delivery) (h : Trace)
      → acks h < acks (process c env key msg h).1
      → ((run_handler env msg h ≡ none)
          × ((process c env key msg h).1
              ≡ acked msg.delivery_tag false ∷ handled (message msg) ∷ h))
        ⊎ CopyConfirmed c env key msg h (process c env key msg h).1
  process_acked key msg h a = elim (Option-cases (run_handler env msg h)) [
    | inl s ↦ inl (s, ap (λ q. q.1) (process_succeeded c env key msg h s))
    | inr (e, f) ↦
        let (u, p, t) = Ended-acked c env (process-Ended c env key msg h e f) (omega (arith, a)) in
        let (headers, m, d, w, v) = republished key msg _ _ u _ refl p in
        inr (record {
          headers = headers;
          counted = m;
          accepted = d;
          acknowledged = w;
          trace_is = t ∙ ap (◌∷◌ (acked msg.delivery_tag false)) v;
        })
  ]

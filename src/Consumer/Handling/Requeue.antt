-- ===== src/Consumer/Handling/Requeue.antt =====
-- pkg/rabbitmq/consumer.go and internal/amqpx/retry.go: a retry count whose successor does not fit
-- the int32 of the header.
use rabbitmq_go.Base.{
  ℤ, ◌<ℤ◌, inc_int, IsInt32, true, false, none, some, ◌∷◌, ◌≡◌, ap, ◌∙◌, arith, Str,
}
use rabbitmq_go.Errors.{GoError, number, is_non_retryable, err}
use rabbitmq_go.Amqp.{Table, Delivery}
use rabbitmq_go.Amqpx.Retry.{read_retry_count, next_retry_headers}
use rabbitmq_go.Amqpx.Retry.RoundTrip.{next_retry_headers_out_of_range}
use rabbitmq_go.Consumer.{Trace, handled, nacked, Environment, Consumer}
use rabbitmq_go.Consumer.Handling.{
  publish_retry, republish_with_retry, failed_with, handle_handler_error, process,
}
use rabbitmq_go.Consumer.Handling.Outcome.{run_handler, message, process_failed, retry_refused}

refused :
    (original : Table) (count : ℤ)
    → ¬ IsInt32 count
    → (why : GoError) × (next_retry_headers original count ≡ err why)
refused original count out =
    let (text, e) = next_retry_headers_out_of_range original count (ground arith) in
    (number text count, e)

module _ (c : Consumer) (env : Environment) (no_hook : c.retry_publish ≡ none) where
  publish_retry_refused :
      (key : Str) (msg : Delivery) (n : ℤ) (h : Trace) (why : GoError)
      → next_retry_headers msg.headers n ≡ err why
      → publish_retry c env key msg n h ≡ (some why, h)
  unfolding publish_retry republish_with_retry
  publish_retry_refused key msg n h why e = ground arith

  handle_handler_error_refused :
      (key : Str) (msg : Delivery) (n : ℤ) (e why : GoError) (h : Trace)
      → is_non_retryable e ≡ false
      → n <ℤ c.cfg.max_retries
      → publish_retry c env key msg (inc_int n) h ≡ (some why, h)
      → handle_handler_error c env key msg n e h ≡ (
        record (failed_with e) { nacked = true; requeued = true },
        nacked msg.delivery_tag false true ∷ h,
      )
  unfolding handle_handler_error
  handle_handler_error_refused key msg n e why h r lt p =
      ground (arith, retry_refused c env key msg n (failed_with e) h h why p)

  -- Let the retry count n of a delivery be below `MaxRetries`, let n + 1 not fit an int32, as when the
  -- header holds an int64 far below zero, and let the handler fail with a retryable error. Then, with
  -- no test hook set, no copy is published and the delivery is nacked with requeue.
  pub process_out_of_range :
      (key : Str) (msg : Delivery) (h : Trace) (e : GoError)
      → ¬ IsInt32 (inc_int (read_retry_count msg.headers))
      → run_handler env msg h ≡ some e
      → is_non_retryable e ≡ false
      → read_retry_count msg.headers <ℤ c.cfg.max_retries
      → ((process c env key msg h).0.requeued ≡ true)
        × ((process c env key msg h).1
            ≡ nacked msg.delivery_tag false true ∷ handled (message msg) ∷ h)
  process_out_of_range key msg h e out f r lt =
      let (why, refusal) = refused msg.headers (inc_int (read_retry_count msg.headers)) out in
      let p = publish_retry_refused key msg _ (handled (message msg) ∷ h) why refusal in
      let q = handle_handler_error_refused key msg (read_retry_count msg.headers) e why _ r lt p in
      let z = process_failed c env key msg h e f ∙ q in (ap (λ x. x.0.requeued) z, ap (λ x. x.1) z)

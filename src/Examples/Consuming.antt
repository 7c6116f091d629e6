-- ===== src/Examples/Consuming.antt =====
-- Deliveries, their handlers and their retries.
use rabbitmq_go.Base.{
  ℕ, pos, negsuc, true, false, none, some, [], ◌∷◌, ◌≡◌, refl, ◌↔◌, ◌⊎◌, ◌≢◌, arith, bytes, IsInt32,
  gap, ◌≤◌, ◌+◌, ◌^◌, ◌<◌, find, str_eq, ◌<ℤ◌, ◌≤ℤ◌, inc_int,
}
use rabbitmq_go.Errors.{GoError, text, in_chain, is_non_retryable, ok}
use rabbitmq_go.Amqp.{Table, get, int64, Delivery}
use rabbitmq_go.Amqpx.Retry.{
  count_of_value, retry_count_header, read_retry_count, next_retry_headers,
}
use rabbitmq_go.Amqpx.Retry.RoundTrip.{read_retry_count-next_retry_headers}
use rabbitmq_go.Consumer.{
  Consumer, Environment, Trace, HandlerOutcome, returned, panicked, deferred, confirmed, acked,
  nacked, handled, ended, ConsumeResult,
}
use rabbitmq_go.Consumer.Handling.{
  call_handler, await_confirm, publish_copy, republish_with_retry, publish_retry, retry,
  dead_letter, handle_handler_error, process, handle_delivery,
}
use rabbitmq_go.Consumer.Handling.Settlement.{newest, Settles, handle_delivery-Settles}
use rabbitmq_go.Consumer.Handling.Outcome.{
  acks, run_handler, message, CopyConfirmed, process_acked, process_dead_lettered_iff,
}
use rabbitmq_go.Consumer.Handling.Bounded.{Broker, rounds, runs, Confirms, rounds_bounded}
use rabbitmq_go.Consumer.Handling.Exhausted.{KeepsFailing, Returns, rounds_exhausted}
use rabbitmq_go.Consumer.Handling.Requeue.{process_out_of_range}
use rabbitmq_go.Examples.{raw_config, delivery, delivered, retried}

abbrev pub consumer : Consumer
consumer = record { cfg = raw_config; instr_is_nop = false; retry_publish = none }

-- A broker that takes and acknowledges each copy, with a handler that always ends in one way.
abbrev pub always : HandlerOutcome → Environment
always o = record {
  handler = λ _ _. o;
  publish_deferred = λ _ _ _ _. deferred;
  wait = λ _. confirmed true;
}

abbrev pub failing : Environment
failing = always (returned (some (text (bytes "no database"))))

abbrev panicking : Environment
panicking = always (panicked (bytes "index out of range"))

-- A header that an int64 far below zero fills.
abbrev underflowing : Delivery
underflowing = delivery (some ((bytes "x-retry-count", int64 (negsuc (2 ^ 40))) ∷ []))

-- Tests: the first failure is retried, and a failure at the limit is dead-lettered.
first_failure_retried :
    (process consumer failing (bytes "created") (retried (pos 0)) []).0.retried ≡ true
unfolding process handle_handler_error retry publish_retry republish_with_retry publish_copy
    await_confirm call_handler read_retry_count next_retry_headers find str_eq is_non_retryable
    in_chain count_of_value inc_int
first_failure_retried = refl

last_failure_dead_lettered :
    (process consumer panicking (bytes "created") (retried (pos 2)) []).0.dead_lettered ≡ true
unfolding process handle_handler_error dead_letter call_handler read_retry_count find str_eq
    is_non_retryable in_chain count_of_value inc_int
last_failure_dead_lettered = refl

retry_acked : acks [] < acks (process consumer failing (bytes "created") (retried (pos 1)) []).1
unfolding process handle_handler_error retry publish_retry republish_with_retry publish_copy
    await_confirm call_handler read_retry_count next_retry_headers find str_eq is_non_retryable
    in_chain count_of_value inc_int
retry_acked = omega arith

process_acked_example :
    ((run_handler failing (retried (pos 1)) [] ≡ none)
      × ((process consumer failing (bytes "created") (retried (pos 1)) []).1
          ≡ acked 7 false ∷ handled (message (retried (pos 1))) ∷ []))
    ⊎ CopyConfirmed consumer failing
        (bytes "created")
        (retried (pos 1))
        []
        (process consumer failing (bytes "created") (retried (pos 1)) []).1
process_acked_example =
    process_acked consumer failing refl (bytes "created") (retried (pos 1)) [] retry_acked

process_dead_lettered_iff_example :
    (newest (process consumer failing (bytes "created") (retried (pos 2)) []).1
      ≡ some (nacked 7 false false))
    ↔ ((e : GoError) × (run_handler failing (retried (pos 2)) [] ≡ some e)
        × ((is_non_retryable e ≡ true) ⊎ (pos 2 ≤ℤ read_retry_count (retried (pos 2)).headers)))
process_dead_lettered_iff_example =
    process_dead_lettered_iff consumer failing (bytes "created") (retried (pos 2)) []

handle_delivery-Settles_example :
    (r : ConsumeResult) × (t : Trace) × Settles 7 [] r t
    × ((handle_delivery consumer panicking (bytes "q") (bytes "created") (retried (pos 0)) []).1
        ≡ ended r ∷ t)
handle_delivery-Settles_example =
    handle_delivery-Settles consumer panicking (bytes "q") (bytes "created") (retried (pos 0)) []

two-IsInt32 : IsInt32 (pos 2)
two-IsInt32 = (omega arith, omega arith)

count_of_retried : (n : ℕ) → read_retry_count (retried (pos n)).headers ≡ pos n
unfolding read_retry_count count_of_value find str_eq
count_of_retried n = refl

fresh_count : gap (pos 2) (read_retry_count (retried (pos 0)).headers) < 3
fresh_count = rw (count_of_retried 0) (omega arith)

fresh-IsInt32 : IsInt32 (read_retry_count (retried (pos 0)).headers)
fresh-IsInt32 = rw (count_of_retried 0) (omega arith, omega arith)

-- A broker that queues each copy, and gives back what is requeued.
abbrev returning : Broker
returning = record {
  routes = λ _ _. true;
  redeliver = λ _. delivered;
  again = λ _ msg. record msg { redelivered = true };
}

returning-Returns : Returns returning
returning-Returns = record { routes_all = λ _ _. refl; keeps = λ _ _. refl }

always-Confirms : (o : HandlerOutcome) → Confirms (always o)
always-Confirms o = record { accepts = λ h exchange key p. refl; acknowledges = λ h. refl }

rounds_bounded_example :
    (t : Trace) × (rounds consumer panicking returning 3 (bytes "created") (retried (pos 0) ∷ []) []
      ≡ some t)
    × (runs t ≤ runs [] + gap (pos 2) (read_retry_count (retried (pos 0)).headers) + 1)
rounds_bounded_example =
    rounds_bounded consumer panicking refl two-IsInt32
      (always-Confirms (panicked (bytes "index out of range"))) returning (λ _ _. refl) 3
      (bytes "created") (retried (pos 0)) [] fresh-IsInt32 fresh_count

plain_failure : is_non_retryable (text (bytes "no database")) ≡ false
unfolding is_non_retryable in_chain
plain_failure = refl

failing-KeepsFailing : KeepsFailing failing
failing-KeepsFailing h msg = (text (bytes "no database"), refl, plain_failure)

rounds_exhausted_example :
    (t : Trace) × (tag : ℕ) × (rounds consumer failing returning 3
        (bytes "created")
        (retried (pos 0) ∷ [])
        []
      ≡ some t)
    × (newest t ≡ some (nacked tag false false))
    × (runs t ≡ runs [] + gap (pos 2) (read_retry_count (retried (pos 0)).headers) + 1)
rounds_exhausted_example =
    rounds_exhausted consumer failing refl two-IsInt32
      (always-Confirms (returned (some (text (bytes "no database"))))) failing-KeepsFailing
      returning returning-Returns 3 (bytes "created") (retried (pos 0)) [] fresh-IsInt32 fresh_count

count_of_underflowing : read_retry_count underflowing.headers ≡ negsuc (2 ^ 40)
unfolding read_retry_count count_of_value find str_eq
count_of_underflowing = refl

underflowing_out : ¬ IsInt32 (inc_int (read_retry_count underflowing.headers))
unfolding inc_int
underflowing_out = λ h. ground (arith, h, count_of_underflowing)

underflowing_below : read_retry_count underflowing.headers <ℤ pos 2
underflowing_below = rw count_of_underflowing (omega arith)

process_out_of_range_example :
    ((process consumer failing (bytes "created") underflowing []).0.requeued ≡ true)
    × ((process consumer failing (bytes "created") underflowing []).1
        ≡ nacked 7 false true ∷ handled (message underflowing) ∷ [])
process_out_of_range_example =
    process_out_of_range consumer failing refl (bytes "created") underflowing []
      (text (bytes "no database")) underflowing_out refl plain_failure underflowing_below

trace_differs : bytes "trace" ≢ retry_count_header
trace_differs = λ e. absurd (ground (arith, e))

read_retry_count-next_retry_headers_example :
    (t : Table) × (next_retry_headers (retried (pos 1)).headers (pos 2) ≡ ok t)
    × (read_retry_count t ≡ pos 2)
    × (get (bytes "trace") t ≡ get (bytes "trace") (retried (pos 1)).headers)
read_retry_count-next_retry_headers_example =
    read_retry_count-next_retry_headers (retried (pos 1)).headers (pos 2) (bytes "trace")
      two-IsInt32 trace_differs

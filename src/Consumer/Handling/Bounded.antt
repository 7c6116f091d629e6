-- ===== src/Consumer/Handling/Bounded.antt =====
-- pkg/rabbitmq/consumer.go: in-place retries end. A retry copy comes back as a new delivery, and what is
-- nacked with requeue comes back as well; the broker that does this is a parameter.
use rabbitmq_go.Base.{
  List, ◌++◌, ◌⊎◌, ◌≤ℤ◌, put, inc_int-IsInt32, ℕ, zero, suc, ◌+◌, ◌<◌, ◌≤◌, ℤ, Bool, true, false,
  Option, none, some, [], ◌∷◌, ◌≡◌, refl, ap, sym, ◌∙◌, inl, inr, arith, Str, tally, inc_int,
  inc_int-eq-suc, gap, gap-suc_ℤ, subst, IsInt32-IsInt, IsInt32, Option-cases, Bool-cases,
  if◌then◌else◌,
}
use rabbitmq_go.Errors.{GoError, is_non_retryable}
use rabbitmq_go.Amqp.{int32, entries, Publishing, Delivery}
use rabbitmq_go.Amqpx.Retry.{retry_count_header, read_retry_count}
use rabbitmq_go.Amqpx.Retry.RoundTrip.{read_retry_count_of_next, next_retry_headers_total}
use rabbitmq_go.Consumer.{
  Message, ConsumeResult, Event, acked, nacked, handled, published, Trace, Environment, Consumer,
  deferred, confirmed,
}
use rabbitmq_go.Consumer.Handling.{
  retry_copy, publish_copy, republish_with_retry, publish_retry, process,
}
use rabbitmq_go.Consumer.Handling.Settlement.{newest}
use rabbitmq_go.Consumer.Handling.Outcome.{
  run_handler, Ended, gave_up, copied, put_back, process-Ended, republished, process_succeeded,
}

-- The copies that were published since the latest call of the handler.
abbrev pub round_copies : Trace → List Publishing
round_copies [] = []
round_copies (handled m ∷ h) = []
round_copies (published exchange key mandatory immediate p ∷ h) = p ∷ round_copies h
round_copies (ev ∷ h) = round_copies h

-- Is the latest event a nack with requeue?
abbrev pub is_requeue : Trace → Bool
is_requeue (nacked tag multiple requeue ∷ h) = requeue
is_requeue _ = false

-- The broker and its one queue: does it queue a copy that it took, how a copy comes back as a
-- delivery, and how a delivery comes back that was nacked with requeue.
pub record Broker : Type 0 where
  pub routes : Trace → Publishing → Bool
  pub redeliver : Trace → Publishing → Delivery
  pub again : Trace → Delivery → Delivery

abbrev pub queued : Broker → Trace → List Publishing → List Delivery
queued b t [] = []
queued b t (p ∷ ps) = if b.routes t p then b.redeliver t p ∷ queued b t ps else queued b t ps

-- What the handling of a delivery puts into the queue.
abbrev pub follow_ups : Broker → Trace → Delivery → List Delivery
follow_ups b t msg =
    queued b t (round_copies t) ++ (if is_requeue t then b.again t msg ∷ [] else [])

abbrev pub is_handled : Event → Bool
is_handled (handled m) = true
is_handled _ = false

-- How often a handler was called.
abbrev pub runs : Trace → ℕ
runs = tally is_handled

module _ (c : Consumer) (env : Environment) (b : Broker) where
  -- The queue is handled until it is empty, on fuel: each delivery, the copies that were published for
  -- it, and the delivery itself after a nack with requeue.
  unfoldable pub rounds : ℕ → Str → List Delivery → Trace → Option Trace
  rounds zero key [] h = some h
  rounds zero key (msg ∷ queue) h = none
  rounds (suc fuel) key [] h = some h
  rounds (suc fuel) key (msg ∷ queue) h =
      let t = (process c env key msg h).1 in rounds fuel key (queue ++ follow_ups b t msg) t

  rounds_empty : (fuel : ℕ) (key : Str) (h : Trace) → rounds fuel key [] h ≡ some h
  unfolding rounds
  rounds_empty zero key h = refl
  rounds_empty (suc fuel) key h = refl

  -- A delivery whose handling puts nothing into the queue, or one delivery.
  pub rounds_last :
      (fuel : ℕ) (key : Str) (msg : Delivery) (h : Trace)
      → follow_ups b (process c env key msg h).1 msg ≡ []
      → rounds (suc fuel) key (msg ∷ []) h ≡ some (process c env key msg h).1
  unfolding rounds
  rounds_last fuel key msg h e =
      ap (λ q. rounds fuel key q (process c env key msg h).1) e ∙ rounds_empty fuel key _

  pub rounds_further :
      (fuel : ℕ) (key : Str) (msg next : Delivery) (h : Trace)
      → follow_ups b (process c env key msg h).1 msg ≡ next ∷ []
      → rounds (suc fuel) key (msg ∷ []) h ≡ rounds fuel key (next ∷ []) (process c env key msg h).1
  unfolding rounds
  rounds_further fuel key msg next h e = ap (λ q. rounds fuel key q (process c env key msg h).1) e

  -- Nothing was published and nothing is requeued; or one copy was published, and the broker queues it
  -- or not.
  abbrev pub IsLast : Trace → Type 0
  IsLast t = (round_copies t ≡ []) × (is_requeue t ≡ false)

  pub follow_ups_none : (t : Trace) (msg : Delivery) → IsLast t → follow_ups b t msg ≡ []
  follow_ups_none t msg (none_made, kept) = rw (none_made, kept) refl

  pub follow_ups_copy :
      (t : Trace) (msg : Delivery) (copy : Publishing)
      → round_copies t ≡ copy ∷ []
      → is_requeue t ≡ false
      → follow_ups b t msg ≡ (if b.routes t copy then b.redeliver t copy ∷ [] else [])
  follow_ups_copy t msg copy made kept = elim (Bool-cases (b.routes t copy)) [
    | inl routed ↦ rw (made, kept, routed) refl
    | inr lost ↦ rw (made, kept, lost) refl
  ]

module _ (c : Consumer) (env : Environment) where
  runs-publish_retry :
      (key : Str) (msg : Delivery) (n : ℤ) (h : Trace)
      → runs (publish_retry c env key msg n h).1 ≡ runs h
  unfolding publish_retry
  runs-publish_retry key msg n h = ground arith

  Ended-runs :
      {key : Str} {msg : Delivery} {e : GoError} {h : Trace} {r : ConsumeResult} {t : Trace}
      → Ended c env key msg e h r t
      → runs t ≡ runs h
  Ended-runs (gave_up _ _ _ _ _ e) = omega (arith, ap runs e)
  Ended-runs {key} {msg} {h = h} (copied _ _ _ _ _ _ u p e) = omega (
    arith,
    ap runs e,
    ap (λ q. runs q.1) p,
    runs-publish_retry key msg (inc_int (read_retry_count msg.headers)) h,
  )
  Ended-runs {key} {msg} {h = h} (put_back _ _ _ _ _ _ u why p e) = omega (
    arith,
    ap runs e,
    ap (λ q. runs q.1) p,
    runs-publish_retry key msg (inc_int (read_retry_count msg.headers)) h,
  )

  pub runs-process :
      (key : Str) (msg : Delivery) (h : Trace) → runs (process c env key msg h).1 ≡ runs h + 1
  runs-process key msg h = elim (Option-cases (run_handler env msg h)) [
    | inl s ↦ ap (λ q. runs q.1) (process_succeeded c env key msg h s) ∙ omega arith
    | inr (e, f) ↦ Ended-runs (process-Ended c env key msg h e f) ∙ omega arith
  ]

-- The broker takes each retry copy and acknowledges it.
pub record Confirms (env : Environment) : Type 0 where
  pub accepts :
      (h : Trace) (exchange key : Str) (p : Publishing)
      → env.publish_deferred h exchange key p ≡ deferred
  pub acknowledges : (h : Trace) → env.wait h ≡ confirmed true

module _ (c : Consumer) (env : Environment) (no_hook : c.retry_publish ≡ none)
    (max_is : IsInt32 c.cfg.max_retries) (f : Confirms env) where
  publish_copy_succeeds :
      (key : Str) (copy : Publishing) (h : Trace) → (publish_copy c env key copy h).0 ≡ none
  unfolding publish_copy
  publish_copy_succeeds key copy h = ground (
    arith,
    f.accepts h c.cfg.exchange key copy,
    f.acknowledges (published c.cfg.exchange key false false copy ∷ h),
  )

  publish_retry_succeeds :
      (key : Str) (msg : Delivery) (n : ℤ) (h : Trace)
      → IsInt32 n
      → (publish_retry c env key msg n h).0 ≡ none
  unfolding publish_retry republish_with_retry
  publish_retry_succeeds key msg n h fits =
      let made = some (put retry_count_header (int32 n) (entries msg.headers)) in
      ground (
        arith,
        next_retry_headers_total msg.headers n fits,
        publish_copy_succeeds key (retry_copy msg made) h,
      )

  -- One copy was published, which carries the next count, and the budget allows it.
  abbrev pub NextCopy : Delivery → Trace → Type 0
  NextCopy msg t =
      (copy : Publishing) × (round_copies t ≡ copy ∷ [])
      × (is_requeue t ≡ false)
      × IsInt32 (read_retry_count copy.headers)
      × (gap c.cfg.max_retries (read_retry_count copy.headers) + 1
          ≡ gap c.cfg.max_retries (read_retry_count msg.headers))

  -- The delivery was dead-lettered, for one of the two reasons.
  abbrev pub GaveUp : GoError → Delivery → Trace → Type 0
  GaveUp e msg t =
      (newest t ≡ some (nacked msg.delivery_tag false false))
      × ((is_non_retryable e ≡ true) ⊎ (c.cfg.max_retries ≤ℤ read_retry_count msg.headers))
      × (round_copies t ≡ [])
      × (is_requeue t ≡ false)

  Ended-round :
      (key : Str) (msg : Delivery) (e : GoError) (m : Message) (h : Trace) (r : ConsumeResult)
      (t : Trace)
      → IsInt32 (read_retry_count msg.headers)
      → Ended c env key msg e (handled m ∷ h) r t
      → GaveUp e msg t ⊎ NextCopy msg t
  unfolding retry_copy
  Ended-round key msg e m h r t fits (gave_up why _ _ _ _ q) =
      inl (ap newest q, why, ap round_copies q, ap is_requeue q)
  Ended-round key msg e m h r t fits (put_back _ lt _ _ _ _ u why p q) =
      let fits' = inc_int-IsInt32 (read_retry_count msg.headers) c.cfg.max_retries fits max_is lt in
      absurd (
        cc (
          publish_retry_succeeds key msg (inc_int (read_retry_count msg.headers)) (handled m ∷ h)
              fits',
          p,
        ))
  Ended-round key msg e m h r t fits (copied _ lt _ _ _ _ u p q) =
      let n = read_retry_count msg.headers in
      let max = c.cfg.max_retries in
      let (headers, made, _, _, v) =
        republished c env no_hook key msg _ (handled m ∷ h) u _ refl p in
      let (reads, fits') = read_retry_count_of_next msg.headers headers _ made in
      let up = inc_int-eq-suc n max (IsInt32-IsInt n fits) (IsInt32-IsInt max max_is) lt in
      let counted = reads ∙ up in
      let trace = q ∙ ap (◌∷◌ (acked msg.delivery_tag false)) v in
      inr (
        (
          retry_copy msg headers,
          ap round_copies trace,
          ap is_requeue trace,
          subst IsInt32 (sym reads) fits',
          ap (λ n. gap c.cfg.max_retries n + 1) counted ∙ gap-suc_ℤ c.cfg.max_retries _ lt,
        ))

  pub failed-round :
      (key : Str) (msg : Delivery) (h : Trace) (e : GoError)
      → IsInt32 (read_retry_count msg.headers)
      → run_handler env msg h ≡ some e
      → GaveUp e msg (process c env key msg h).1 ⊎ NextCopy msg (process c env key msg h).1
  failed-round key msg h e fits failed =
      Ended-round key msg e _ h _ _ fits (process-Ended c env key msg h e failed)

  process-round :
      (key : Str) (msg : Delivery) (h : Trace)
      → IsInt32 (read_retry_count msg.headers)
      → ((round_copies (process c env key msg h).1 ≡ [])
          × (is_requeue (process c env key msg h).1 ≡ false))
        ⊎ NextCopy msg (process c env key msg h).1
  process-round key msg h fits = elim (Option-cases (run_handler env msg h)) [
    | inl s ↦
        let done = ap (λ q. q.1) (process_succeeded c env key msg h s) in
        inl (ap round_copies done, ap is_requeue done)
    | inr (e, failed) ↦ elim (failed-round key msg h e fits failed) [
      | inl (_, _, no_copy, kept) ↦ inl (no_copy, kept)
      | inr copy ↦ inr copy
    ]
  ]

  -- Whatever the handler does: if the broker takes and acknowledges each retry copy, a delivery and all
  -- that it puts into the queue are handled at most `MaxRetries - count + 1` times in all, where `count`
  -- is the retry count that it comes with, and then the queue is empty. With no test hook set, for a
  -- count and a `MaxRetries` of 32 bits, and if the broker keeps the headers of what it delivers.
  pub rounds_bounded :
      (b : Broker)
      → ((t : Trace) (p : Publishing) → (b.redeliver t p).headers ≡ p.headers)
      → (fuel : ℕ) (key : Str) (msg : Delivery) (h : Trace) → IsInt32 (read_retry_count msg.headers)
      → gap c.cfg.max_retries (read_retry_count msg.headers) < fuel
      → (t : Trace) × (rounds c env b fuel key (msg ∷ []) h ≡ some t)
        × (runs t ≤ runs h + gap c.cfg.max_retries (read_retry_count msg.headers) + 1)
  rounds_bounded b keeps zero key msg h fits lt = absurd (omega arith)
  rounds_bounded b keeps (suc fuel) key msg h fits lt =
      let t = (process c env key msg h).1 in
      let once = runs-process c env key msg h in
      elim (process-round key msg h fits) [
        | inl last ↦ (
          t,
          rounds_last c env b fuel key msg h (follow_ups_none c env b t msg last),
          omega (arith, once),
        )
        | inr (copy, out, kept, small, less) ↦
            let next = follow_ups_copy c env b t msg copy out kept in
            elim (Bool-cases (b.routes t copy)) [
              | inr lost ↦
                  (t, rounds_last c env b fuel key msg h (next ∙ rw lost refl), omega (arith, once))
              | inl routed ↦
                  let same = ap read_retry_count (keeps t copy) in
                  let as_before = ap (gap c.cfg.max_retries) same in
                  let (u, e, bound) =
                    rounds_bounded b keeps fuel key (b.redeliver t copy) t
                      (subst IsInt32 (sym same) small) (omega (arith, less, as_before, lt)) in
                  (
                    u,
                    rounds_further c env b fuel key msg (b.redeliver t copy) h
                          (next ∙ rw routed refl)
                        ∙ e,
                    omega (arith, bound, less, as_before, once),
                  )
            ]
      ]

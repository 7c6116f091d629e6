-- ===== src/Consumer/Handling/Exhausted.antt =====
-- pkg/rabbitmq/consumer.go: how the in-place retries end if nothing helps.
use rabbitmq_go.Base.{
  ℕ, zero, suc, ◌+◌, ◌<◌, true, false, none, some, [], ◌∷◌, ◌≡◌, refl, ap, sym, ◌∙◌, inl, inr,
  arith, Str, gap, subst, IsInt32,
}
use rabbitmq_go.Errors.{GoError, is_non_retryable}
use rabbitmq_go.Amqp.{Publishing, Delivery}
use rabbitmq_go.Amqpx.Retry.{read_retry_count}
use rabbitmq_go.Consumer.{nacked, Trace, Environment, Consumer}
use rabbitmq_go.Consumer.Handling.{process}
use rabbitmq_go.Consumer.Handling.Outcome.{run_handler}
use rabbitmq_go.Consumer.Handling.Settlement.{newest}
use rabbitmq_go.Consumer.Handling.Bounded.{
  Broker, rounds, runs, runs-process, Confirms, failed-round, rounds_last, rounds_further,
  follow_ups_none, follow_ups_copy,
}

-- Each handler call fails with a retryable error.
abbrev pub KeepsFailing : Environment → Type 0
KeepsFailing env =
    (h : Trace) (msg : Delivery)
    → (e : GoError) × (run_handler env msg h ≡ some e) × (is_non_retryable e ≡ false)

-- The broker queues each retry copy, with its headers.
pub record Returns (b : Broker) : Type 0 where
  pub routes_all : (t : Trace) (p : Publishing) → b.routes t p ≡ true
  pub keeps : (t : Trace) (p : Publishing) → (b.redeliver t p).headers ≡ p.headers

module _ (c : Consumer) (env : Environment) (no_hook : c.retry_publish ≡ none)
    (max_is : IsInt32 c.cfg.max_retries) (ok : Confirms env) (f : KeepsFailing env) where
  -- With a handler that keeps failing with retryable errors, and a broker that acknowledges each
  -- retry copy and queues it with its headers, no test hook, and a count and a `MaxRetries` of 32 bits:
  -- a delivery and its copies are handled exactly `MaxRetries - count + 1` times (once, if the count is
  -- above); then the queue is empty, and the last thing done was a nack with no requeue.
  pub rounds_exhausted :
      (b : Broker)
      → Returns b
      → (fuel : ℕ) (key : Str) (msg : Delivery) (h : Trace) → IsInt32 (read_retry_count msg.headers)
      → gap c.cfg.max_retries (read_retry_count msg.headers) < fuel
      → (t : Trace) × (tag : ℕ) × (rounds c env b fuel key (msg ∷ []) h ≡ some t)
        × (newest t ≡ some (nacked tag false false))
        × (runs t ≡ runs h + gap c.cfg.max_retries (read_retry_count msg.headers) + 1)
  rounds_exhausted b back zero key msg h fits lt = absurd (omega arith)
  rounds_exhausted b back (suc fuel) key msg h fits lt =
      let t = (process c env key msg h).1 in
      let once = runs-process c env key msg h in
      let (e, failed, ne) = f h msg in
      elim (failed-round c env no_hook max_is ok key msg h e fits failed) [
        | inl (dead, inl never, _, _) ↦ absurd (cc (ne, never))
        | inl (dead, inr up, no_copy, kept) ↦ (
          t,
          msg.delivery_tag,
          rounds_last c env b fuel key msg h (follow_ups_none c env b t msg (no_copy, kept)),
          dead,
          omega (arith, once, up),
        )
        | inr (copy, out, kept, small, less) ↦
            let next = follow_ups_copy c env b t msg copy out kept in
            let same = ap read_retry_count (back.keeps t copy) in
            let as_before = ap (gap c.cfg.max_retries) same in
            let (u, tag, r, dead, total) =
              rounds_exhausted b back fuel key (b.redeliver t copy) t
                (subst IsInt32 (sym same) small) (omega (arith, less, as_before, lt)) in
            (
              u,
              tag,
              rounds_further c env b fuel key msg (b.redeliver t copy) h
                    (next ∙ rw (back.routes_all t copy) refl)
                  ∙ r,
              dead,
              omega (arith, total, less, as_before, once),
            )
      ]

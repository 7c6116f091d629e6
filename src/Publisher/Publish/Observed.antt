-- ===== src/Publisher/Publish/Observed.antt =====
-- pkg/rabbitmq/publisher.go: `PublishMessage` with its instrumentation, from `StartPublish` to the
-- callback. What the hooks see and change is `W`.
use rabbitmq_go.Base.{
  Bool, true, false, Option, some, bytes, ◌≡◌, ap, sym, ◌∙◌, not, ◌&&◌, arith, length, inl, inr,
  Bool-cases, if◌then◌else◌,
}
use rabbitmq_go.Errors.{text}
use rabbitmq_go.Publisher.{PublishMessage, PublishError, failed, Publisher, Client}
use rabbitmq_go.Publisher.Publish.{normalize_publish_message, publish, publish_message, Injection}
use rabbitmq_go.Publisher.Publish.Channels.{prepared, publish_message_closed, publish_message_open}
use rabbitmq_go.Instrumentation.{PublishContext, Started, Hooks}

-- `&PublishContext{...}`.
unfoldable pub publish_context : PublishMessage → PublishContext
publish_context msg = record {
  exchange = msg.exchange;
  routing_key = msg.routing_key;
  body_size = length msg.body;
  headers = msg.headers;
}

agree :
    {A B W : Type 0} {x : A × B × W} {y r : A × B} (w : W)
    → x ≡ (r.0, r.1, w)
    → y ≡ r
    → (x.0 ≡ y.0) × (x.1 ≡ y.1)
agree w e f = (ap (λ x. x.0) e ∙ sym (ap (λ y. y.0) f), ap (λ x. x.1) e ∙ sym (ap (λ y. y.1) f))

module _ {W : Type 0} (hooks : Hooks W) (client : Client) where
  unfoldable pub publish_observed :
      PublishMessage → Publisher → W → Option PublishError × Publisher × W
  publish_observed msg p w =
      if p.closed
      then (some (failed (text (bytes "rabbitmq: publisher is closed"))), p, w)
      else let m = normalize_publish_message p msg in
        let (e, q) = publish client m p in
        let started : Started W = hooks.start_publish (publish_context m) w in
        let (e', q') = publish client (record m { headers = started.headers }) p in
        if p.instr_is_nop then (e, q, w) else (e', q', started.end e' started.world)

  -- The message after the defaults, and the call of `StartPublish` with it.
  abbrev pub started_with : PublishMessage → Publisher → W → Started W
  started_with msg p w = hooks.start_publish (publish_context (normalize_publish_message p msg)) w

  -- What `StartPublish` does to the headers of this message.
  abbrev pub injection : PublishMessage → W → Injection
  injection msg w p headers =
      let m = normalize_publish_message p msg in
      (hooks.start_publish (record (publish_context m) { headers = headers }) w).headers

  module _ (msg : PublishMessage) (p : Publisher) (w : W) where
    observed_closed :
        p.closed ≡ true
        → publish_observed msg p w
          ≡ (some (failed (text (bytes "rabbitmq: publisher is closed"))), p, w)
    unfolding publish_observed
    observed_closed e = ground arith

    observed_nop :
        p.closed ≡ false
        → p.instr_is_nop ≡ true
        → publish_observed msg p w
          ≡ (let r = publish client (normalize_publish_message p msg) p in (r.0, r.1, w))
    unfolding publish_observed
    observed_nop e f = ground arith

    observed_open :
        p.closed ≡ false
        → p.instr_is_nop ≡ false
        → publish_observed msg p w ≡ (
            let s = started_with msg p w in
            let m = record (normalize_publish_message p msg) { headers = s.headers } in
            let r = publish client m p in (r.0, r.1, s.end r.0 s.world))
    unfolding publish_observed
    observed_open e f = ground arith

    pub prepared_open :
        p.instr_is_nop ≡ false
        → prepared (injection msg w) msg p
          ≡ record (normalize_publish_message p msg) { headers = (started_with msg p w).headers }
    unfolding publish_context
    prepared_open f =
        let m : PublishMessage = normalize_publish_message p msg in
        ap (λ b. if b then m else record m { headers = (started_with msg p w).headers }) f

    prepared_nop :
        p.instr_is_nop ≡ true → prepared (injection msg w) msg p ≡ normalize_publish_message p msg
    prepared_nop f = ground arith

    -- What the caller gets and what becomes of the publisher.
    pub observed_result :
        ((publish_observed msg p w).0 ≡ (publish_message client (injection msg w) msg p).0)
        × ((publish_observed msg p w).1 ≡ (publish_message client (injection msg w) msg p).1)
    observed_result = elim (Bool-cases p.closed) [
      | inl shut ↦
          agree w (observed_closed shut)
            (publish_message_closed client (injection msg w) msg p shut)
      | inr live ↦
          let code = publish_message_open client (injection msg w) msg p live in
          elim (Bool-cases p.instr_is_nop) [
            | inl nop ↦
                agree w (observed_nop live nop)
                  (code ∙ ap (λ m. publish client m p) (prepared_nop nop))
            | inr real ↦
                agree _ (observed_open live real)
                  (code ∙ ap (λ m. publish client m p) (prepared_open real))
          ]
    ]

    -- What the hooks have done: nothing, or a start and its callback with the caller's error.
    abbrev pub is_hooked : Bool
    is_hooked = not p.closed && not p.instr_is_nop

    pub observed_world : (publish_observed msg p w).2 ≡ (
        let s = started_with msg p w in
        if is_hooked then s.end (publish_observed msg p w).0 s.world else w)
    observed_world = elim (Bool-cases p.closed) [
      | inl shut ↦ ground (arith, observed_closed shut)
      | inr live ↦ elim (Bool-cases p.instr_is_nop) [
        | inl nop ↦ ground (arith, observed_nop live nop)
        | inr real ↦ ground (arith, observed_open live real)
      ]
    ]

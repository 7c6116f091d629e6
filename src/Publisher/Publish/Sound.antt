-- ===== src/Publisher/Publish/Sound.antt =====
-- pkg/rabbitmq/publisher.go: what a nil error of `PublishMessage` means.
use rabbitmq_go.Base.{
  ℕ, Bool, true, false, none, some, List, [], ◌∷◌, ◌≡◌, refl, ap, subst, sym, ◌∙◌, arith, ◌⊎◌, inl,
  inr, Bool-cases, Option-cases, if◌then◌else◌,
}
use rabbitmq_go.Errors.{Result, ok, err}
use rabbitmq_go.Publisher.{
  PooledChannel, Sent, PublishMessage, Publisher, Client, answered, waited_out,
}
use rabbitmq_go.Publisher.Pool.{
  close_channel, forget, new_channel_or_error, borrow_from, borrow_channel, return_pooled,
}
use rabbitmq_go.Publisher.Pool.Accounts.{
  borrow_channel_closed, borrow_channel_nil, borrow_channel_pool,
}
use rabbitmq_go.Publisher.Publish.{
  sent_as, after_send, publish_on_channel, await_return, publish_mandatory, publish_optional,
  publish, publish_message, Injection,
}
use rabbitmq_go.Publisher.Publish.Channels.{
  publish_borrowed, publish_refused, publish_message_closed, publish_message_open, prepared,
}

-- The pool's functions publish nothing.
new_channel_or_error-sent :
    (client : Client) (p : Publisher) → (new_channel_or_error client p).1.sent ≡ p.sent
unfolding new_channel_or_error
new_channel_or_error-sent client p = ground arith

borrow_from-sent :
    (client : Client) (pool : List PooledChannel) (p : Publisher)
    → (borrow_from client pool p).1.sent ≡ p.sent
unfolding borrow_from
borrow_from-sent client [] p = new_channel_or_error-sent client p
borrow_from-sent client (pch ∷ rest) p = ground (
  arith,
  new_channel_or_error-sent client
      (forget pch.ch (close_channel pch.ch (record p { channel_pool = some rest }))),
)

borrow_channel-sent : (client : Client) (p : Publisher) → (borrow_channel client p).1.sent ≡ p.sent
borrow_channel-sent client p = elim (Bool-cases p.closed) [
  | inl shut ↦ rw (borrow_channel_closed client p shut) refl
  | inr live ↦ elim (Option-cases p.channel_pool) [
    | inl nil ↦ rw (borrow_channel_nil client p live nil) (new_channel_or_error-sent client p)
    | inr (pool, e) ↦ rw (borrow_channel_pool client p pool live e) (borrow_from-sent client pool p)
  ]
]

return_pooled-sent : (pch : PooledChannel) (p : Publisher) → (return_pooled pch p).sent ≡ p.sent
unfolding return_pooled
return_pooled-sent pch p = ground arith

-- The broker acknowledged the message, if the caller waits for that, else the client took it.
abbrev pub Taken : Client → ℕ → PublishMessage → Publisher → Type 0
Taken client ch msg q =
    ((msg.wait_for_confirm ≡ true) × (client.publish_confirmed q (sent_as ch msg) ≡ answered true))
    ⊎ ((msg.wait_for_confirm ≡ false) × (client.publish q (sent_as ch msg) ≡ none))

-- How the publish of a message on a borrowed channel went well.
pub record Delivered (client : Client) (msg : PublishMessage) (p q : Publisher)
    (pch : PooledChannel) : Type 0 where
  pub borrowed : borrow_channel client p ≡ (ok pch, q)
  pub confirmed : Taken client pch.ch msg q
  pub routed :
      (msg.mandatory ≡ false)
      ⊎ (client.returns (after_send client (sent_as pch.ch msg) q) (sent_as pch.ch msg)
          ≡ waited_out)

publish_on_channel_succeeded :
    (client : Client) (ch : ℕ) (msg : PublishMessage) (q : Publisher)
    → (publish_on_channel client ch msg q).0 ≡ none
    → Taken client ch msg q
      × ((publish_on_channel client ch msg q).1 ≡ after_send client (sent_as ch msg) q)
unfolding publish_on_channel
publish_on_channel_succeeded client ch msg q h = elim (Bool-cases msg.wait_for_confirm) [
  | inl w ↦ (inl (w, ground arith), ground arith)
  | inr w ↦ (inr (w, ground arith), ground arith)
]

module _ (client : Client) (msg : PublishMessage) (p q : Publisher) (pch : PooledChannel)
    (e : borrow_channel client p ≡ (ok pch, q)) where
  sent_before : q.sent ≡ p.sent
  sent_before = ap (λ r. r.1.sent) (sym e) ∙ borrow_channel-sent client p

  mandatory_none :
      (publish_mandatory client pch msg q).0 ≡ none
      → ((publish_on_channel client pch.ch msg q).0 ≡ none)
        × (await_return client (sent_as pch.ch msg) (publish_on_channel client pch.ch msg q).1
            ≡ none)
        × ((publish_mandatory client pch msg q).1.sent
            ≡ (publish_on_channel client pch.ch msg q).1.sent)
  unfolding publish_mandatory
  mandatory_none h = ground arith

  optional_none :
      (publish_optional client pch msg q).0 ≡ none
      → ((publish_on_channel client pch.ch msg q).0 ≡ none)
        × ((publish_optional client pch msg q).1.sent
            ≡ (publish_on_channel client pch.ch msg q).1.sent)
  unfolding publish_optional
  optional_none h = (ground arith, return_pooled-sent pch _)

  returns_waited_out :
      (s : Sent) (t : Publisher) → await_return client s t ≡ none → client.returns t s ≡ waited_out
  unfolding await_return
  returns_waited_out s t h = ground arith

  mandatory-Delivered :
      msg.mandatory ≡ true
      → (publish_mandatory client pch msg q).0 ≡ none
      → Delivered client msg p q pch
        × ((publish_mandatory client pch msg q).1.sent ≡ sent_as pch.ch msg ∷ p.sent)
  mandatory-Delivered m h =
      let (none_sent, none_back, same) = mandatory_none h in
      let (c, after) = publish_on_channel_succeeded client pch.ch msg q none_sent in
      (
        record {
          borrowed = e;
          confirmed = c;
          routed = inr (
              returns_waited_out _ _
                (subst (λ t. await_return client (sent_as pch.ch msg) t ≡ none) after none_back));
        },
        same ∙ ap (λ t. t.sent) after ∙ ap (◌∷◌ (sent_as pch.ch msg)) sent_before,
      )

  optional-Delivered :
      msg.mandatory ≡ false
      → (publish_optional client pch msg q).0 ≡ none
      → Delivered client msg p q pch
        × ((publish_optional client pch msg q).1.sent ≡ sent_as pch.ch msg ∷ p.sent)
  optional-Delivered m h =
      let (none_sent, same) = optional_none h in
      let (c, after) = publish_on_channel_succeeded client pch.ch msg q none_sent in
      (
        record { borrowed = e; confirmed = c; routed = inl m },
        same ∙ ap (λ t. t.sent) after ∙ ap (◌∷◌ (sent_as pch.ch msg)) sent_before,
      )

  used-Delivered :
      (b : Bool)
      → msg.mandatory ≡ b
      → (if b then publish_mandatory client pch msg q else publish_optional client pch msg q).0
        ≡ none
      → Delivered client msg p q pch
        × ((if b
              then publish_mandatory client pch msg q
              else publish_optional client pch msg q).1.sent
            ≡ sent_as pch.ch msg ∷ p.sent)
  used-Delivered true m h = mandatory-Delivered m h
  used-Delivered false m h = optional-Delivered m h

-- A nil error of `publish` has one publish behind it.
abbrev pub Succeeds : Client → PublishMessage → Publisher → Publisher → Type 0
Succeeds client msg p p' =
    (q : Publisher) × (pch : PooledChannel) × Delivered client msg p q pch
    × (p'.sent ≡ sent_as pch.ch msg ∷ p.sent)

publish_from_sound :
    (client : Client) (msg : PublishMessage) (p q : Publisher) (r : Result PooledChannel)
    → borrow_channel client p ≡ (r, q)
    → (publish client msg p).0 ≡ none
    → Succeeds client msg p (publish client msg p).1
publish_from_sound client msg p q (err why) e h =
    absurd (ground (arith, publish_refused client msg p q why e))
publish_from_sound client msg p q (ok pch) e h =
    let opened = publish_borrowed client msg p q pch e in
    let (d, s) =
      used-Delivered client msg p q pch e msg.mandatory refl (sym (ap (λ r. r.0) opened) ∙ h) in
    (q, pch, d, ap (λ r. r.1.sent) opened ∙ s)

-- A nil error of `PublishMessage` means that the publisher was open, that one message was handed to
-- the client, on the channel borrowed for it, with the defaults filled in and the headers that the
-- instrumentation left; that the broker acknowledged it, where the caller waits for the confirm; that
-- the client reported no error, where not; and that a mandatory one did not come back in time.
pub publish_message_sound :
    (client : Client) (inject : Injection) (msg : PublishMessage) (p : Publisher)
    → (publish_message client inject msg p).0 ≡ none
    → (p.closed ≡ false)
      × Succeeds client (prepared inject msg p) p (publish_message client inject msg p).1
publish_message_sound client inject msg p h = elim (Bool-cases p.closed) [
  | inl shut ↦ absurd (ground (arith, publish_message_closed client inject msg p shut))
  | inr live ↦
      let same = publish_message_open client inject msg p live in
      (
        live,
        rw same (
            publish_from_sound client (prepared inject msg p) p _ _ refl
              (sym (ap (λ r. r.0) same) ∙ h)),
      )
]

-- ===== src/Publisher/Watching/Frame.antt =====
-- pkg/rabbitmq/publisher.go and pool.go: the calls of users change neither the connection of a publisher
-- nor which connections are open, nor do they close it or dial.
use rabbitmq_go.Base.{
  ℕ, Bool, true, false, Option, some, List, [], ◌∷◌, ◌≡◌, refl, if◌then◌else◌, ap, ◌∙◌, arith, inl,
  inr, Bool-cases, Option-cases,
}
use rabbitmq_go.Errors.{Result, ok, err}
use rabbitmq_go.Publisher.{PooledChannel, PublishMessage, PublishError, Publisher, Client}
use rabbitmq_go.Publisher.Pool.{
  new_channel_or_error, borrow_from, borrow_channel, is_stale, get_channel, return_pooled,
  return_channel,
}
use rabbitmq_go.Publisher.Pool.Accounts.{
  borrow_channel_closed, borrow_channel_nil, borrow_channel_pool, return_channel_open,
  return_channel_shut,
}
use rabbitmq_go.Publisher.Pool.Getting.{get_channel_borrowed, get_channel_refused}
use rabbitmq_go.Publisher.Publish.{
  publish_mandatory, publish_optional, publish, publish_message, Injection,
}
use rabbitmq_go.Publisher.Publish.Channels.{
  publish_on_channel_lem, publish_mandatory_lem, publish_optional_lem, publish_borrowed,
  publish_refused, publish_message_closed, publish_message_open, prepared,
}
use rabbitmq_go.Publisher.History.{
  State, Step, gets, get_fails, puts_back, publishes, connects, drains, closes, loses_channel,
  loses_connection, waits,
}
use rabbitmq_go.Publisher.Watching.{is_use}

-- The connection, the open connections, whether the publisher is closed, and the connections dialed.
abbrev pub View : Type 0
View = Option ℕ × (ℕ → Bool) × Bool × ℕ

abbrev pub view : Publisher → View
view p = (p.connection, p.open_connection, p.closed, p.next_connection)

module _ (client : Client) where
  view-new_channel : (p : Publisher) → view (new_channel_or_error client p).1 ≡ view p
  unfolding new_channel_or_error
  view-new_channel p = ground arith

  view-borrow_from :
      (pool : List PooledChannel) (p : Publisher) → view (borrow_from client pool p).1 ≡ view p
  unfolding borrow_from
  view-borrow_from [] p = view-new_channel p
  view-borrow_from (pch ∷ rest) p =
      elim (Bool-cases (is_stale (record p { channel_pool = some rest }) pch)) [
        | inl stale ↦ rw (stale, borrow_from) (view-new_channel _)
        | inr good ↦ rw (good, borrow_from) refl
      ]

  view-borrow_channel : (p : Publisher) → view (borrow_channel client p).1 ≡ view p
  view-borrow_channel p = elim (Bool-cases p.closed) [
    | inl shut ↦ ap (λ r. view r.1) (borrow_channel_closed client p shut)
    | inr live ↦ elim (Option-cases p.channel_pool) [
      | inl nil ↦ ap (λ r. view r.1) (borrow_channel_nil client p live nil) ∙ view-new_channel p
      | inr (pool, e) ↦
          ap (λ r. view r.1) (borrow_channel_pool client p pool live e) ∙ view-borrow_from pool p
    ]
  ]

  view-get_from :
      (p q : Publisher) (r : Result PooledChannel)
      → borrow_channel client p ≡ (r, q)
      → view q ≡ view p
      → view (get_channel client p).1 ≡ view p
  view-get_from p q (ok pch) e v = rw (get_channel_borrowed client p q pch e) v
  view-get_from p q (err why) e v = rw (get_channel_refused client p q why e) v

  view-get_channel : (p : Publisher) → view (get_channel client p).1 ≡ view p
  view-get_channel p = view-get_from p _ _ refl (view-borrow_channel p)

view-return_pooled : (pch : PooledChannel) (p : Publisher) → view (return_pooled pch p) ≡ view p
unfolding return_pooled
view-return_pooled pch p = ground arith

view-return_channel : (ch : ℕ) (p : Publisher) → view (return_channel (some ch) p) ≡ view p
view-return_channel ch p = elim (Bool-cases (p.open_channel ch)) [
  | inl live ↦ rw (return_channel_open ch p live) (view-return_pooled _ p)
  | inr shut ↦ rw (return_channel_shut ch p shut) refl
]

view-if :
    (b : Bool) (p : Publisher) (x y : Option PublishError × Publisher)
    → view x.1 ≡ view p
    → view y.1 ≡ view p
    → view (if b then x else y).1 ≡ view p
view-if true p x y v w = v
view-if false p x y v w = w

module _ (client : Client) where
  view-used :
      (msg : PublishMessage) (pch : PooledChannel) (q : Publisher)
      → view
          (if msg.mandatory
            then publish_mandatory client pch msg q
            else publish_optional client pch msg q).1
        ≡ view q
  view-used msg pch q =
      let sent = ap view (publish_on_channel_lem client pch.ch msg q) in
      view-if msg.mandatory q _ _ (ap view (publish_mandatory_lem client pch msg q) ∙ sent)
        (ap view (publish_optional_lem client pch msg q) ∙ view-return_pooled pch _ ∙ sent)

  view-publish_from :
      (msg : PublishMessage) (p q : Publisher) (r : Result PooledChannel)
      → borrow_channel client p ≡ (r, q)
      → view q ≡ view p
      → view (publish client msg p).1 ≡ view p
  view-publish_from msg p q (ok pch) e v =
      ap (λ r. view r.1) (publish_borrowed client msg p q pch e) ∙ view-used msg pch q ∙ v
  view-publish_from msg p q (err why) e v =
      ap (λ r. view r.1) (publish_refused client msg p q why e) ∙ v

  view-publish_message :
      (inject : Injection) (msg : PublishMessage) (p : Publisher)
      → view (publish_message client inject msg p).1 ≡ view p
  view-publish_message inject msg p = elim (Bool-cases p.closed) [
    | inl shut ↦ ap (λ r. view r.1) (publish_message_closed client inject msg p shut)
    | inr live ↦
        ap (λ r. view r.1) (publish_message_open client inject msg p live)
        ∙ view-publish_from (prepared inject msg p) p _ _ refl (view-borrow_channel client p)
  ]

  -- The steps of users and of the network keep the view.
  pub view-use :
      (inject : Injection) {s t : State} (st : Step client inject s t)
      → is_use client inject st ≡ true
      → view t.publisher ≡ view s.publisher
  view-use inject {s} (gets ch e) u = view-get_channel client s.publisher
  view-use inject {s} (get_fails e h) u = view-get_channel client s.publisher
  view-use inject {s} (puts_back ch out) u = view-return_channel ch s.publisher
  view-use inject {s} (publishes msg) u = view-publish_message inject msg s.publisher
  view-use inject connects u = absurd cc
  view-use inject drains u = absurd cc
  view-use inject closes u = absurd cc
  view-use inject (loses_channel ch) u = refl
  view-use inject (loses_connection conn) u = absurd cc
  view-use inject (waits n) u = refl

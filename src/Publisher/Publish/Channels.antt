-- ===== src/Publisher/Publish/Channels.antt =====
-- pkg/rabbitmq/publisher.go and pool.go: a publish leaks no channel, and leaves none lent out.
use rabbitmq_go.Base.{
  update, ℕ, Bool, true, false, Option, some, List, [], ◌∷◌, ◌≡◌, bytes, refl, arith, inl, inr,
  Bool-cases, Option-cases, if◌then◌else◌,
}
use rabbitmq_go.Errors.{GoError, text, Result, ok, err}
use rabbitmq_go.Publisher.{
  PooledChannel, Sent, PublishMessage, Publisher, PublishError, failed, Client,
}
use rabbitmq_go.Publisher.Pool.{
  close_channel, forget, is_stale, new_channel_or_error, borrow_from, borrow_channel, return_pooled,
}
use rabbitmq_go.Publisher.Pool.Accounts.{
  Lent, Inv, lend, borrow_channel-Inv, borrow_channel_closed, borrow_channel_nil,
  borrow_channel_pool, return_pooled-Inv,
}
use rabbitmq_go.Publisher.Publish.{
  sent_as, after_send, publish_on_channel, publish_mandatory, publish_optional, publish,
  publish_message, Injection, normalize_publish_message,
}

-- Only the values of `lent` matter.
pub same-Inv :
    (p : Publisher) (lent lent' : Lent) → ((i : ℕ) → lent i ≡ lent' i) → Inv p lent → Inv p lent'
same-Inv p lent lent' same v = record {
  accounted = λ i. ground (arith, same i, v.accounted i);
  bounded = v.bounded;
}

-- A channel that is borrowed was not lent out before.
abbrev pub Unlent : Lent → Result PooledChannel → Type 0
Unlent lent (ok pch) = lent pch.ch ≡ false
Unlent lent (err e) = Unit {0}

new_channel-Unlent :
    (client : Client) (p : Publisher) (lent : Lent)
    → lent p.next_channel ≡ false
    → Unlent lent (new_channel_or_error client p).0
unfolding new_channel_or_error
new_channel-Unlent client p lent h = ground arith

next-Unlent : (p : Publisher) (lent : Lent) → Inv p lent → lent p.next_channel ≡ false
next-Unlent p lent v = ground (arith, v.accounted p.next_channel)

borrow_from-Unlent :
    (client : Client) (pool : List PooledChannel) (p : Publisher) (lent : Lent)
    → p.channel_pool ≡ some pool
    → Inv p lent
    → Unlent lent (borrow_from client pool p).0
unfolding borrow_from
borrow_from-Unlent client [] p lent e v = new_channel-Unlent client p lent (next-Unlent p lent v)
borrow_from-Unlent client (pch ∷ rest) p lent e v =
    elim (Bool-cases (is_stale (record p { channel_pool = some rest }) pch)) [
      | inl stale ↦
          rw (stale, borrow_from) (new_channel-Unlent client _ lent (next-Unlent p lent v))
      | inr good ↦ rw (good, borrow_from) (ground (arith, v.accounted pch.ch))
    ]

pub borrow_channel-Unlent :
    (client : Client) (p : Publisher) (lent : Lent)
    → Inv p lent
    → Unlent lent (borrow_channel client p).0
borrow_channel-Unlent client p lent v = elim (Bool-cases p.closed) [
  | inl shut ↦ rw (borrow_channel_closed client p shut) tt
  | inr live ↦ elim (Option-cases p.channel_pool) [
    | inl nil ↦
        rw (borrow_channel_nil client p live nil)
          (new_channel-Unlent client p lent (next-Unlent p lent v))
    | inr (pool, e) ↦
        rw (borrow_channel_pool client p pool live e) (borrow_from-Unlent client pool p lent e v)
  ]
]

-- What a publish does to the world keeps the accounts.
after_send-Inv :
    (client : Client) (s : Sent) (p : Publisher) (lent : Lent)
    → Inv p lent
    → Inv (after_send client s p) lent
after_send-Inv client s p lent v = record {
  accounted = λ i. ground (arith, v.accounted i);
  bounded = v.bounded;
}

pub publish_on_channel_lem :
    (client : Client) (ch : ℕ) (msg : PublishMessage) (p : Publisher)
    → (publish_on_channel client ch msg p).1 ≡ after_send client (sent_as ch msg) p
unfolding publish_on_channel
publish_on_channel_lem client ch msg p = ground arith

discard_lent-Inv :
    (ch : ℕ) (p : Publisher) (lent : Lent)
    → lent ch ≡ true
    → Inv p lent
    → Inv (forget ch (close_channel ch p)) (update lent ch false)
discard_lent-Inv ch p lent out v = record {
  accounted = λ i. ground (arith, v.accounted i);
  bounded = v.bounded;
}

pub publish_mandatory_lem :
    (client : Client) (pch : PooledChannel) (msg : PublishMessage) (p : Publisher)
    → (publish_mandatory client pch msg p).1
      ≡ forget pch.ch (close_channel pch.ch (publish_on_channel client pch.ch msg p).1)
unfolding publish_mandatory
publish_mandatory_lem client pch msg p = ground arith

pub publish_optional_lem :
    (client : Client) (pch : PooledChannel) (msg : PublishMessage) (p : Publisher)
    → (publish_optional client pch msg p).1
      ≡ return_pooled pch (publish_on_channel client pch.ch msg p).1
unfolding publish_optional
publish_optional_lem client pch msg p = refl

pub publish_borrowed :
    (client : Client) (msg : PublishMessage) (p q : Publisher) (pch : PooledChannel)
    → borrow_channel client p ≡ (ok pch, q)
    → publish client msg p ≡ (
        if msg.mandatory
        then publish_mandatory client pch msg q
        else publish_optional client pch msg q)
unfolding publish
publish_borrowed client msg p q pch e = ground arith

pub publish_refused :
    (client : Client) (msg : PublishMessage) (p q : Publisher) (e : GoError)
    → borrow_channel client p ≡ (err e, q)
    → publish client msg p ≡ (some (failed e), q)
unfolding publish
publish_refused client msg p q e h = ground arith

either-Inv :
    (lent : Lent) (b : Bool) (x y : Option PublishError × Publisher)
    → Inv x.1 lent
    → Inv y.1 lent
    → Inv (if b then x else y).1 lent
either-Inv lent true x y v w = v
either-Inv lent false x y v w = w

module _ (client : Client) (msg : PublishMessage) (lent : Lent) where
  -- The borrowed channel is given up or put back, so `lent` is as it was.
  restored : (ch : ℕ) → lent ch ≡ false → (i : ℕ) → update (update lent ch true) ch false i ≡ lent i
  restored ch h i = ground arith

  used-Inv :
      (pch : PooledChannel) (q : Publisher)
      → lent pch.ch ≡ false
      → Inv q (update lent pch.ch true)
      → Inv
          (if msg.mandatory
            then publish_mandatory client pch msg q
            else publish_optional client pch msg q).1
          lent
  used-Inv pch q free v =
      let sent-Inv = after_send-Inv client (sent_as pch.ch msg) q (update lent pch.ch true) v in
      let v' : Inv (publish_on_channel client pch.ch msg q).1 (update lent pch.ch true) =
        rw (publish_on_channel_lem client pch.ch msg q) sent-Inv in
      let out : update lent pch.ch true pch.ch ≡ true = ground arith in
      either-Inv lent msg.mandatory _ _
        (rw (publish_mandatory_lem client pch msg q)
          (same-Inv _ _ lent (restored pch.ch free) (discard_lent-Inv pch.ch _ _ out v')))
        (rw (publish_optional_lem client pch msg q)
          (same-Inv _ _ lent (restored pch.ch free) (return_pooled-Inv pch _ _ out v')))

  publish_from-Inv :
      (p q : Publisher) (r : Result PooledChannel)
      → borrow_channel client p ≡ (r, q)
      → Unlent lent r
      → Inv q (lend lent r)
      → Inv (publish client msg p).1 lent
  publish_from-Inv p q (ok pch) e free v =
      rw (publish_borrowed client msg p q pch e) (used-Inv pch q free v)
  publish_from-Inv p q (err why) e free v = rw (publish_refused client msg p q why e) v

  pub publish-Inv : (p : Publisher) → Inv p lent → Inv (publish client msg p).1 lent
  publish-Inv p v =
      publish_from-Inv p _ _ refl (borrow_channel-Unlent client p lent v)
        (borrow_channel-Inv client p lent v)

pub publish_message_closed :
    (client : Client) (inject : Injection) (msg : PublishMessage) (p : Publisher)
    → p.closed ≡ true
    → publish_message client inject msg p
      ≡ (some (failed (text (bytes "rabbitmq: publisher is closed"))), p)
unfolding publish_message
publish_message_closed client inject msg p e = ground arith

-- The message that `publish` gets from `PublishMessage`.
abbrev pub prepared : Injection → PublishMessage → Publisher → PublishMessage
prepared inject msg p =
    let m = normalize_publish_message p msg in
    if p.instr_is_nop then m else record m { headers = inject p m.headers }

pub publish_message_open :
    (client : Client) (inject : Injection) (msg : PublishMessage) (p : Publisher)
    → p.closed ≡ false
    → publish_message client inject msg p ≡ publish client (prepared inject msg p) p
unfolding publish_message
publish_message_open client inject msg p e = ground arith

-- `PublishMessage` keeps the accounts on every branch: whether it fails at the borrow, at the publish,
-- at the confirmation, by a returned message, or not at all, no channel stays lent out, each channel
-- that is still open is in the pool or with the caller who had it, and the pool is within its capacity.
pub publish_message-Inv :
    (client : Client) (inject : Injection) (msg : PublishMessage) (p : Publisher) (lent : Lent)
    → Inv p lent
    → Inv (publish_message client inject msg p).1 lent
publish_message-Inv client inject msg p lent v = elim (Bool-cases p.closed) [
  | inl shut ↦ rw (publish_message_closed client inject msg p shut) v
  | inr live ↦ rw (publish_message_open client inject msg p live) (publish-Inv client _ lent p v)
]

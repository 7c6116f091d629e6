-- ===== src/Consumer/Loop/Settled.antt =====
-- pkg/rabbitmq/consumer.go: the deliveries of a session are settled in the order in which they come.
use rabbitmq_go.Base.{ℕ, List, [], ◌∷◌, true, ◌≡◌, refl, ap, ◌∙◌, arith, Str}
use rabbitmq_go.Amqp.{Delivery}
use rabbitmq_go.Consumer.Handling.Settlement.{reported}
use rabbitmq_go.Consumer.Handling.Measures.{is_silent, measure-process}
use rabbitmq_go.Consumer.{
  Event, ConsumeResult, started, acked, nacked, Trace, Environment, Consumer,
}
use rabbitmq_go.Consumer.Handling.{process, handle_delivery, delivery_routing_key, delivery_context}
use rabbitmq_go.Consumer.Loop.{
  Arrival, context_done, channel_closed, stream_closed, arrives, ending, receive,
}

-- The tags of the deliveries that were settled, the latest first.
abbrev pub settled_tags : Trace → List ℕ
settled_tags [] = []
settled_tags (acked tag multiple ∷ h) = tag ∷ settled_tags h
settled_tags (nacked tag multiple requeue ∷ h) = tag ∷ settled_tags h
settled_tags (ev ∷ h) = settled_tags h

-- The tags of what arrives before the first arrival that ends the session, the latest first, before
-- the given ones.
abbrev pub tags_of : List Arrival → List ℕ → List ℕ
tags_of (arrives d ∷ rest) tags = tags_of rest (d.delivery_tag ∷ tags)
tags_of _ tags = tags

tags_silent :
    (ev : Event) (h : Trace) → is_silent ev ≡ true → settled_tags (ev ∷ h) ≡ settled_tags h
tags_silent ev h e = ground arith

tags_grow :
    (ev : Event) (h k : Trace)
    → settled_tags h ≡ settled_tags k
    → settled_tags (ev ∷ h) ≡ settled_tags (ev ∷ k)
tags_grow ev h k e = ground arith

tags-reported :
    (tag : ℕ) (r : ConsumeResult) (h : Trace)
    → settled_tags (reported tag r ∷ h) ≡ tag ∷ settled_tags h
tags-reported tag r h = ground arith

module _ (c : Consumer) (env : Environment) where
  tags-process :
      (key : Str) (msg : Delivery) (h : Trace)
      → settled_tags (process c env key msg h).1 ≡ msg.delivery_tag ∷ settled_tags h
  tags-process key msg h =
      measure-process settled_tags tags_silent tags_grow c env key msg h
      ∙ tags-reported msg.delivery_tag (process c env key msg h).0 h

  pub tags-handle_delivery :
      (queue key : Str) (msg : Delivery) (h : Trace)
      → settled_tags (handle_delivery c env queue key msg h).1 ≡ msg.delivery_tag ∷ settled_tags h
  unfolding handle_delivery
  tags-handle_delivery queue key msg h = ground (
    arith,
    tags-process (delivery_routing_key key msg) msg h,
    tags-process (delivery_routing_key key msg) msg (started (delivery_context queue key msg) ∷ h),
  )

  -- The loop of `consumeOnce` settles each delivery that arrives before the first other arrival, once,
  -- in the order of arrival, and nothing else; it returns the error of that arrival, and it waits if
  -- there is none.
  pub receive_settles :
      (queue key : Str) (arrivals : List Arrival) (h : Trace)
      → (settled_tags (receive c env queue key arrivals h).1 ≡ tags_of arrivals (settled_tags h))
        × ((receive c env queue key arrivals h).0 ≡ ending arrivals)
  unfolding receive
  receive_settles queue key [] h = (refl, refl)
  receive_settles queue key (context_done ∷ rest) h = (refl, refl)
  receive_settles queue key (channel_closed e ∷ rest) h = (refl, refl)
  receive_settles queue key (stream_closed ∷ rest) h = (refl, refl)
  receive_settles queue key (arrives d ∷ rest) h =
      let t = (handle_delivery c env queue key d h).1 in
      let (tags, e) = receive_settles queue key rest t in
      (tags ∙ ap (tags_of rest) (tags-handle_delivery queue key d h), e)

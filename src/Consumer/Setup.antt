-- ===== src/Consumer/Setup.antt =====
-- pkg/rabbitmq/consumer.go: what `consumeOnce` and `consumeOnceConcurrent` do before and after their
-- loops: the channel, its prefetch count, its confirm mode, and the topology.
pub mod Order
pub mod Life
pub mod Plain
use rabbitmq_go.Base.{
  ℤ, pos, ltb_ℤ, Bool, false, not, Option, none, some, [], ◌∷◌, Str, bytes, if◌then◌else◌,
}
use rabbitmq_go.Errors.{GoError, text, ok, err}
use rabbitmq_go.Config.{Config}
use rabbitmq_go.Topology.{
  open_channel, close_channel, qos, confirm, Calls, Channel, M, call, doing, ◌>>=◌, ◌>>◌,
  declare_consumer_topology,
}

-- `max(c.cfg.PrefetchCount, workers)`.
abbrev pub max_ℤ : ℤ → ℤ → ℤ
max_ℤ a b = if ltb_ℤ a b then b else a

-- `if c.cfg.MaxRetries > 0 { ch.Confirm(false) }`.
unfoldable pub enable_confirms : Channel → Config → M (Unit {0})
enable_confirms channel cfg h =
    if ltb_ℤ (pos 0) cfg.max_retries
    then call channel (doing (bytes "enable confirms for retry publisher")) (confirm false) h
    else (ok tt, h)

-- From `ch.Qos` to `declareConsumerTopology`, with a prefetch count.
unfoldable pub set_up : Channel → (Str → Str) → Config → ℤ → Str → Str → M (Unit {0})
set_up channel quote cfg prefetch queue_name routing_key = do
  call channel (λ e. e) (qos prefetch (pos 0) false)
  enable_confirms channel cfg
  declare_consumer_topology channel quote cfg queue_name routing_key

-- What a session meets: whether there is a live connection, and how its channel answers.
pub record Link : Type 0 where
  pub connected : Bool
  pub channel : Channel

-- A session on an open channel, and the deferred `ch.Close`. `loop` is the loop of the session on a
-- state; its error is `none` while it runs.
unfoldable pub on_channel :
    {S : Type 0}
    → Link
    → (Str → Str)
    → Config
    → ℤ
    → Str
    → Str
    → (S → Option GoError × S)
    → S
    → Option GoError × Calls × S
on_channel link quote cfg prefetch queue_name routing_key loop s =
    let (r, calls) =
      set_up link.channel quote cfg prefetch queue_name routing_key (open_channel ∷ []) in
    elim r [
      | err e ↦ (some e, close_channel ∷ calls, s)
      | ok _ ↦
          let (ended, s') = loop s in
          (ended, elim ended [ none ↦ calls | some e ↦ close_channel ∷ calls ], s')
    ]

-- A whole session: `consumeOnce` or `consumeOnceConcurrent`, by its prefetch count and its loop.
unfoldable pub in_session :
    {S : Type 0}
    → Link
    → (Str → Str)
    → Config
    → ℤ
    → Str
    → Str
    → (S → Option GoError × S)
    → S
    → Option GoError × Calls × S
unfolding on_channel
in_session link quote cfg prefetch queue_name routing_key loop s =
    if not link.connected
    then (some (text (bytes "rabbitmq: connection not available")), [], s)
    else elim (link.channel [] open_channel) [
      | some e ↦ (some e, open_channel ∷ [], s)
      | none ↦ on_channel link quote cfg prefetch queue_name routing_key loop s
    ]

-- ===== src/Consumer/Loop/Prefetch.antt =====
-- pkg/rabbitmq/consumer.go: the prefetch count of `consumeOnceConcurrent`.
use rabbitmq_go.Base.{
  ℤ, pos, leb_ℤ, Bool, true, false, ◌&&◌, Option, none, some, List, [], ◌∷◌, ◌≡◌, ap, ◌∙◌, arith,
  Str, tally, if◌then◌else◌,
}
use rabbitmq_go.Errors.{GoError}
use rabbitmq_go.Config.{Config}
use rabbitmq_go.Topology.{Call, open_channel, close_channel, qos, Calls, Channel}
use rabbitmq_go.Topology.Order.{Planned, carry}
use rabbitmq_go.Consumer.{Trace, Consumer}
use rabbitmq_go.Consumer.Setup.{max_ℤ, set_up, Link, on_channel, in_session}
use rabbitmq_go.Consumer.Setup.Order.{session_plan, set_up-carry}
use rabbitmq_go.Consumer.Setup.Life.{planned, tally-carry}
use rabbitmq_go.Consumer.Loop.{Turn, ending, consume_once_concurrent}

abbrev pub is_qos : Call → Bool
is_qos (qos count size global) = true
is_qos _ = false

-- Does a call ask for a prefetch count of at least n, for each consumer of the channel?
abbrev pub asks_for : ℤ → Call → Bool
asks_for n (qos count size false) = leb_ℤ n count && leb_ℤ size (pos 0)
asks_for n _ = false

abbrev pub is_none {ℓ} : {A : Type ℓ} → Option A → Bool
is_none none = true
is_none (some a) = false

-- Does a session come to the point where it makes its calls?
abbrev pub has_channel : Link → Bool
has_channel link = link.connected && is_none (link.channel [] open_channel)

tally-carry_first :
    (p : Call → Bool) (channel : Channel) (c : Call) (wrapped : GoError → GoError)
    (ps : List Planned) (h : Calls)
    → planned p ps ≡ 0
    → tally p (carry channel ((c, wrapped) ∷ ps) h).1 ≡ tally p (c ∷ h)
unfolding carry
tally-carry_first p channel c wrapped ps h e = ground (arith, tally-carry p channel ps (c ∷ h) e)

module _ {S : Type 0} (link : Link) (quote : Str → Str) (cfg : Config) (prefetch : ℤ)
    (queue_name routing_key : Str) (loop : S → Option GoError × S) (p : Call → Bool) where
  -- Of the calls of a session only that for the prefetch count is of the kind, or none is.
  abbrev IsOfQos : Type 0
  IsOfQos =
      (p open_channel ≡ false)
      × (p close_channel ≡ false)
      × (planned p (session_plan quote cfg prefetch queue_name routing_key)
          ≡ (if p (qos prefetch (pos 0) false) then 1 else 0))

  tally-set_up :
      IsOfQos
      → tally p
          (set_up link.channel quote cfg prefetch queue_name routing_key (open_channel ∷ [])).1
        ≡ (if p (qos prefetch (pos 0) false) then 1 else 0)
  tally-set_up (opens, closes, one) =
      ap (λ r. tally p r.1)
        (set_up-carry link.channel quote cfg queue_name routing_key prefetch (open_channel ∷ []))
      ∙ (tally-carry_first p link.channel _ _ _ (open_channel ∷ []) (omega (arith, one))
          ∙ ground (arith, opens))

  tally-on_channel :
      (s : S)
      → p close_channel ≡ false
      → tally p (on_channel link quote cfg prefetch queue_name routing_key loop s).1
        ≡ tally p
            (set_up link.channel quote cfg prefetch queue_name routing_key (open_channel ∷ [])).1
  unfolding on_channel
  tally-on_channel s e = ground arith

  tally-in_session :
      (s : S)
      → IsOfQos
      → tally p (in_session link quote cfg prefetch queue_name routing_key loop s).1
        ≡ (if has_channel link && p (qos prefetch (pos 0) false) then 1 else 0)
  unfolding in_session
  tally-in_session s only = ground (arith, only.0, tally-set_up only, tally-on_channel s only.1)

-- `consumeOnceConcurrent` asks for a prefetch count exactly once if it has a channel, whatever the
-- broker answers after that, and never else; and what it asks for, for each consumer of the channel,
-- is no number below the workers and none below `PrefetchCount`. The counts are compared as numbers:
-- a `PrefetchCount` of 0, which stands for no limit, is the least.
pub prefetch_bounds :
    (c : Consumer) (quote : Str → Str) (queue_name routing_key : Str) (workers : ℤ)
    (work : Trace → Trace) (t : Turn) (h : Trace)
    → let calls = (consume_once_concurrent c quote queue_name routing_key workers work t h).1 in
      (tally is_qos calls ≡ (if has_channel t.link then 1 else 0))
      × (tally (asks_for workers) calls ≡ tally is_qos calls)
      × (tally (asks_for c.cfg.prefetch_count) calls ≡ tally is_qos calls)
unfolding consume_once_concurrent
prefetch_bounds c quote queue_name routing_key workers work t h =
    let n = max_ℤ c.cfg.prefetch_count workers in
    let loop : Trace → Option GoError × Trace = λ h'. (ending t.arrivals, work h') in
    let asked =
      tally-in_session t.link quote c.cfg n queue_name routing_key loop is_qos h (ground arith) in
    let for_workers =
      tally-in_session t.link quote c.cfg n queue_name routing_key loop (asks_for workers) h
        (ground arith) in
    let for_config =
      tally-in_session t.link quote c.cfg n queue_name routing_key loop
        (asks_for c.cfg.prefetch_count) h (ground arith) in
    (ground (arith, asked), ground (arith, asked, for_workers), ground (arith, asked, for_config))

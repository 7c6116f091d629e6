-- ===== src/Consumer/Setup/Order.antt =====
-- pkg/rabbitmq/consumer.go: the order of the set-up of a session, and the life of its channel.
use rabbitmq_go.Base.{
  ℤ, pos, ltb_ℤ, false, none, List, [], ◌∷◌, ◌++◌, ◌≡◌, refl, sym, ◌∙◌, arith, Str, bytes,
  if◌then◌else◌,
}
use rabbitmq_go.Errors.{Result, ok, err}
use rabbitmq_go.Config.{Config}
use rabbitmq_go.Topology.{
  qos, confirm, consume, Calls, Channel, M, call, doing, ◌>>◌, declare_consumer_topology,
  declare_queue_topology,
}
use rabbitmq_go.Topology.Order.{Planned, plan, carry, calls_of, declare_queue_topology-carry}
use rabbitmq_go.Consumer.Setup.{enable_confirms, set_up}

-- What a session's channel needs, in order: its prefetch count, confirm mode if there can be retries,
-- the topology of the queue, and the deliveries last.
abbrev pub confirm_plan : Config → List Planned
confirm_plan cfg =
    if ltb_ℤ (pos 0) cfg.max_retries
    then (confirm false, doing (bytes "enable confirms for retry publisher")) ∷ []
    else []

abbrev pub consume_plan : Str → List Planned
consume_plan queue_name = (consume queue_name [] false false false false none, λ e. e) ∷ []

abbrev pub session_plan : (Str → Str) → Config → ℤ → Str → Str → List Planned
session_plan quote cfg prefetch queue_name routing_key =
    (qos prefetch (pos 0) false, λ e. e)
    ∷ (confirm_plan cfg ++ (plan quote cfg queue_name routing_key ++ consume_plan queue_name))

carry_nothing : (channel : Channel) (h : Calls) → carry channel [] h ≡ (ok tt, h)
unfolding carry
carry_nothing channel h = refl

-- A plan, then another one.
abbrev pub then_carry :
    Channel → List Planned → Result (Unit {0}) × Calls → Result (Unit {0}) × Calls
then_carry channel ps (ok a, h) = carry channel ps h
then_carry channel ps (err e, h) = (err e, h)

carry-append :
    (channel : Channel) (ps qs : List Planned) (h : Calls)
    → carry channel (ps ++ qs) h ≡ then_carry channel qs (carry channel ps h)
unfolding carry
carry-append channel [] qs h = refl
carry-append channel ((c, wrapped) ∷ ps) qs h = ground (arith, carry-append channel ps qs (c ∷ h))

bind-then_carry :
    (channel : Channel) (qs : List Planned) (m k : M (Unit {0})) (h : Calls)
    (p : Result (Unit {0}) × Calls)
    → ((h' : Calls) → k h' ≡ carry channel qs h')
    → m h ≡ p
    → (m >> k) h ≡ then_carry channel qs p
bind-then_carry channel qs m k h (ok a, h') same e = ground (arith, same h')
bind-then_carry channel qs m k h (err why, h') same e = ground arith

module _ (channel : Channel) (quote : Str → Str) (cfg : Config) (queue_name routing_key : Str) where
  consume-carry :
      (h : Calls)
      → call channel (λ e. e) (consume queue_name [] false false false false none) h
        ≡ carry channel (consume_plan queue_name) h
  unfolding carry
  consume-carry h = ground arith

  consumer_topology-carry :
      (h : Calls)
      → declare_consumer_topology channel quote cfg queue_name routing_key h
        ≡ carry channel (plan quote cfg queue_name routing_key ++ consume_plan queue_name) h
  unfolding declare_consumer_topology
  consumer_topology-carry h =
      bind-then_carry channel (consume_plan queue_name)
        (declare_queue_topology channel quote cfg queue_name routing_key)
        (call channel (λ e. e) (consume queue_name [] false false false false none)) h _
        (λ h'. consume-carry h')
        (declare_queue_topology-carry channel quote cfg queue_name routing_key h)
      ∙ sym
          (carry-append channel (plan quote cfg queue_name routing_key) (consume_plan queue_name) h)

  confirms-carry : (h : Calls) → enable_confirms channel cfg h ≡ carry channel (confirm_plan cfg) h
  unfolding enable_confirms carry
  confirms-carry h = ground arith

  tail-carry :
      (h : Calls)
      → (enable_confirms channel cfg
            >> declare_consumer_topology channel quote cfg queue_name routing_key)
          h
        ≡ carry channel
            (confirm_plan cfg ++ (plan quote cfg queue_name routing_key ++ consume_plan queue_name))
            h
  tail-carry h =
      bind-then_carry channel (plan quote cfg queue_name routing_key ++ consume_plan queue_name)
        (enable_confirms channel cfg)
        (declare_consumer_topology channel quote cfg queue_name routing_key) h _
        consumer_topology-carry (confirms-carry h)
      ∙ sym (
          carry-append channel (confirm_plan cfg)
            (plan quote cfg queue_name routing_key ++ consume_plan queue_name) h)

  qos-carry :
      (prefetch : ℤ) (h : Calls)
      → call channel (λ e. e) (qos prefetch (pos 0) false) h
        ≡ carry channel ((qos prefetch (pos 0) false, λ e. e) ∷ []) h
  unfolding carry
  qos-carry prefetch h = ground arith

  -- The set-up of a session makes the calls of its plan, in order, up to the first that the broker
  -- refuses, and returns nil after the whole plan, else the refusal in the words of its step.
  pub set_up-carry :
      (prefetch : ℤ) (h : Calls)
      → set_up channel quote cfg prefetch queue_name routing_key h
        ≡ carry channel (session_plan quote cfg prefetch queue_name routing_key) h
  unfolding set_up
  set_up-carry prefetch h =
      bind-then_carry channel _ (call channel (λ e. e) (qos prefetch (pos 0) false))
        (enable_confirms channel cfg
          >> declare_consumer_topology channel quote cfg queue_name routing_key)
        h _ tail-carry (qos-carry prefetch h)
      ∙ sym (carry-append channel ((qos prefetch (pos 0) false, λ e. e) ∷ []) _ h)

-- A plan that is carried out without an error has made all its calls.
pub carry_complete :
    (channel : Channel) (ps : List Planned) (h u : Calls)
    → carry channel ps h ≡ (ok tt, u)
    → u ≡ calls_of ps h
unfolding carry
carry_complete channel [] h u e = ground arith
carry_complete channel ((c, wrapped) ∷ ps) h u e =
    ground (arith, carry_complete channel ps (c ∷ h) u)

-- ===== src/Topology/Order.antt =====
-- pkg/rabbitmq/topology.go: the calls, against the list of what a queue needs.
use rabbitmq_go.Base.{
  true, false, none, some, List, [], ◌∷◌, ◌++◌, ◌≡◌, ap, ◌∙◌, arith, inl, inr, Bool-cases, Str,
  bytes, if◌then◌else◌,
}
use rabbitmq_go.Errors.{GoError, ok, err}
use rabbitmq_go.Amqp.{Table}
use rabbitmq_go.Config.{Config, dead_letter_exchange_type}
use rabbitmq_go.Topology.{
  M, ◌>>=◌, declare_queue_args, doing, wrap_queue_declare_err, Call, exchange_declare,
  queue_declare, queue_bind, Calls, Channel, dlx_name, dlq_name, dead_letter_args,
  declare_dead_letter, declare_queue, declare_queue_topology,
}

-- A call of a plan, with what its error is wrapped in.
abbrev pub Planned : Type 0
Planned = Call × (GoError → GoError)

-- What a queue needs, in the order in which each part can be declared.
abbrev pub dead_letter_plan : Config → Str → Str → List Planned
dead_letter_plan cfg queue_name routing_key =
    (
      exchange_declare (dlx_name cfg) dead_letter_exchange_type true false false false none,
      doing (bytes "declare dead-letter exchange"),
    )
    ∷ (
      queue_declare (dlq_name cfg queue_name) true false false false none,
      doing (bytes "declare dead-letter queue"),
    )
    ∷ (
      queue_bind (dlq_name cfg queue_name) routing_key (dlx_name cfg) false none,
      doing (bytes "bind dead-letter queue"),
    )
    ∷ []

abbrev pub queue_plan : (Str → Str) → Config → Str → Str → Table → List Planned
queue_plan quote cfg queue_name routing_key args =
    (queue_declare queue_name true false false false args, wrap_queue_declare_err quote queue_name)
    ∷ (queue_bind queue_name routing_key cfg.exchange false none, doing (bytes "bind queue"))
    ∷ []

abbrev pub plan : (Str → Str) → Config → Str → Str → List Planned
plan quote cfg queue_name routing_key =
    if cfg.disable_dead_letter
    then queue_plan quote cfg queue_name routing_key none
    else dead_letter_plan cfg queue_name routing_key
      ++ queue_plan quote cfg queue_name routing_key (dead_letter_args cfg routing_key)

-- The calls of a plan one after the other, up to the first that is refused.
unfoldable pub carry : Channel → List Planned → M (Unit {0})
carry channel [] h = (ok tt, h)
carry channel ((c, wrapped) ∷ cs) h =
    let rest = carry channel cs (c ∷ h) in
    elim (channel h c) [ none ↦ rest | some e ↦ (err (wrapped e), c ∷ h) ]

-- The calls of a plan after those before it, the latest first.
abbrev pub calls_of : List Planned → Calls → Calls
calls_of [] h = h
calls_of ((c, wrapped) ∷ ps) h = calls_of ps (c ∷ h)

bind_same :
    {A B : Type 0} (m n : M A) (f : A → M B) (h : Calls) → m h ≡ n h → (m >>= f) h ≡ (n >>= f) h
bind_same m n f h e = ground arith

module _ (channel : Channel) (quote : Str → Str) (cfg : Config) (queue_name routing_key : Str) where
  declare_queue-carry :
      (args : Table) (h : Calls)
      → declare_queue channel quote cfg queue_name routing_key args h
        ≡ carry channel (queue_plan quote cfg queue_name routing_key args) h
  unfolding declare_queue carry
  declare_queue-carry args h = ground arith

  args_off :
      (h : Calls)
      → cfg.disable_dead_letter ≡ true
      → declare_queue_args channel quote cfg queue_name routing_key h ≡ (ok none, h)
  unfolding declare_queue_args
  args_off h e = ground arith

  args_on :
      (h : Calls)
      → cfg.disable_dead_letter ≡ false
      → declare_queue_args channel quote cfg queue_name routing_key h
        ≡ declare_dead_letter channel quote cfg queue_name routing_key h
  unfolding declare_queue_args
  args_on h e = ground arith

  topology_plain :
      (h : Calls)
      → cfg.disable_dead_letter ≡ true
      → declare_queue_topology channel quote cfg queue_name routing_key h
        ≡ carry channel (queue_plan quote cfg queue_name routing_key none) h
  unfolding declare_queue_topology
  topology_plain h e =
      bind_same (declare_queue_args channel quote cfg queue_name routing_key) (λ h'. (ok none, h'))
        (declare_queue channel quote cfg queue_name routing_key) h (args_off h e)
      ∙ declare_queue-carry none h

  dead_letter-carry :
      (h : Calls)
      → (declare_dead_letter channel quote cfg queue_name routing_key
            >>= declare_queue channel quote cfg queue_name routing_key)
          h
        ≡ carry channel
            (dead_letter_plan cfg queue_name routing_key
              ++ queue_plan quote cfg queue_name routing_key (dead_letter_args cfg routing_key))
            h
  unfolding declare_dead_letter carry
  dead_letter-carry h = ground (
    arith,
    declare_queue-carry (dead_letter_args cfg routing_key) (
        queue_bind (dlq_name cfg queue_name) routing_key (dlx_name cfg) false none
        ∷ queue_declare (dlq_name cfg queue_name) true false false false none
        ∷ exchange_declare (dlx_name cfg) dead_letter_exchange_type true false false false none
        ∷ h),
  )

  topology_dead_letter :
      (h : Calls)
      → cfg.disable_dead_letter ≡ false
      → declare_queue_topology channel quote cfg queue_name routing_key h
        ≡ carry channel
            (dead_letter_plan cfg queue_name routing_key
              ++ queue_plan quote cfg queue_name routing_key (dead_letter_args cfg routing_key))
            h
  unfolding declare_queue_topology
  topology_dead_letter h e =
      bind_same (declare_queue_args channel quote cfg queue_name routing_key)
        (declare_dead_letter channel quote cfg queue_name routing_key)
        (declare_queue channel quote cfg queue_name routing_key) h (args_on h e)
      ∙ dead_letter-carry h

  -- `declareQueueTopology` makes the calls of the plan, in its order, up to the first that the broker
  -- refuses, and returns nil after the whole plan, else the refusal in the words of its step.
  pub declare_queue_topology-carry :
      (h : Calls)
      → declare_queue_topology channel quote cfg queue_name routing_key h
        ≡ carry channel (plan quote cfg queue_name routing_key) h
  declare_queue_topology-carry h = elim (Bool-cases cfg.disable_dead_letter) [
    | inl off ↦ topology_plain h off ∙ ap (λ p. carry channel p h) (ground arith)
    | inr on ↦ topology_dead_letter h on ∙ ap (λ p. carry channel p h) (ground arith)
  ]

-- ===== src/Topology/DeadLetter.antt =====
-- pkg/rabbitmq/topology.go: where a dead letter of a queue goes.
use rabbitmq_go.Base.{
  Bool, true, false, Option, none, some, List, [], ◌∷◌, ◌≡◌, refl, ap, ◌∙◌, arith, Str, str_eq,
  str_eq_iff, bytes, if◌then◌else◌, ◌&&◌, ◌||◌, find,
}
use rabbitmq_go.Errors.{ok}
use rabbitmq_go.Amqp.{string, Table, get}
use rabbitmq_go.Config.{Config, dead_letter_exchange_type}
use rabbitmq_go.Topology.{
  Call, exchange_declare, queue_declare, queue_bind, Calls, Channel, dlx_name, dlq_name,
  dead_letter_args, declare_queue_topology,
}
use rabbitmq_go.Topology.Order.{Planned, plan, calls_of, carry, declare_queue_topology-carry}

-- Does a call bind a queue to an exchange with a key?
abbrev pub binds : Str → Str → Str → Call → Bool
binds queue exchange key (queue_bind q k e no_wait args) =
    str_eq q queue && (str_eq e exchange && str_eq k key)
binds queue exchange key _ = false

-- Does a call declare a direct exchange?
abbrev pub declares_direct : Str → Call → Bool
declares_direct exchange (exchange_declare n kind durable auto_delete internal no_wait args) =
    str_eq n exchange && str_eq kind (bytes "direct")
declares_direct exchange _ = false

abbrev pub any : (Call → Bool) → Calls → Bool
any p [] = false
any p (c ∷ cs) = p c || any p cs

-- The arguments of the latest declaration of a queue.
abbrev pub args_of : Str → Calls → Option Table
args_of queue [] = none
args_of queue (queue_declare q durable auto_delete exclusive no_wait args ∷ cs) =
    if str_eq q queue then some args else args_of queue cs
args_of queue (c ∷ cs) = args_of queue cs

self : (s : Str) → str_eq s s ≡ true
self s = (str_eq_iff s s).1 refl

module _ (channel : Channel) (quote : Str → Str) (cfg : Config) (queue_name routing_key : Str)
    (on : cfg.disable_dead_letter ≡ false)
    (accepts : (h : Calls) (c : Call) → channel h c ≡ none) where
  -- The calls that set the queue up, the latest first.
  abbrev made : Calls
  made =
      queue_bind queue_name routing_key cfg.exchange false none
      ∷ queue_declare queue_name true false false false (dead_letter_args cfg routing_key)
      ∷ queue_bind (dlq_name cfg queue_name) routing_key (dlx_name cfg) false none
      ∷ queue_declare (dlq_name cfg queue_name) true false false false none
      ∷ exchange_declare (dlx_name cfg) dead_letter_exchange_type true false false false none
      ∷ []

  carry_all : (ps : List Planned) (h : Calls) → carry channel ps h ≡ (ok tt, calls_of ps h)
  unfolding carry
  carry_all [] h = refl
  carry_all ((c, wrapped) ∷ ps) h = ground (arith, accepts h c, carry_all ps (c ∷ h))

  calls_made : calls_of (plan quote cfg queue_name routing_key) [] ≡ made
  calls_made = ground (arith, on)

  carry-plan : carry channel (plan quote cfg queue_name routing_key) [] ≡ (ok tt, made)
  carry-plan = carry_all _ [] ∙ ap (λ cs. (ok tt, cs)) calls_made

  made_by_code : declare_queue_topology channel quote cfg queue_name routing_key [] ≡ (ok tt, made)
  made_by_code =
      declare_queue_topology-carry channel quote cfg queue_name routing_key [] ∙ carry-plan

  routed_exchange :
      get (bytes "x-dead-letter-exchange") (dead_letter_args cfg routing_key)
      ≡ some (string (dlx_name cfg))
  unfolding find str_eq
  routed_exchange = refl

  routed_key :
      get (bytes "x-dead-letter-routing-key") (dead_letter_args cfg routing_key)
      ≡ some (string routing_key)
  unfolding find str_eq
  routed_key = refl

  own_args : args_of queue_name made ≡ some (dead_letter_args cfg routing_key)
  own_args = ground (arith, self queue_name)

  exchange_declared : any (declares_direct (dlx_name cfg)) made ≡ true
  exchange_declared = ground (arith, self (dlx_name cfg), self (bytes "direct"))

  queue_bound : any (binds (dlq_name cfg queue_name) (dlx_name cfg) routing_key) made ≡ true
  queue_bound =
      ground (arith, self (dlx_name cfg), self (dlq_name cfg queue_name), self routing_key)

  -- Let dead letters be on and let the broker accept every call. `declareQueueTopology` then returns
  -- nil, and among its calls: the latest that declares the queue has arguments that name an exchange
  -- and a key, one declares that exchange, of type direct, and one binds the queue
  -- `queueName + DeadLetterQueueSuffix` to it with that key. So a dead letter is routed to that queue.
  pub dead_letter_route :
      let (r, calls) = declare_queue_topology channel quote cfg queue_name routing_key [] in
      (r ≡ ok tt)
      × ((args : Table) × (args_of queue_name calls ≡ some args)
          × (get (bytes "x-dead-letter-exchange") args ≡ some (string (dlx_name cfg)))
          × (get (bytes "x-dead-letter-routing-key") args ≡ some (string routing_key)))
      × (any (declares_direct (dlx_name cfg)) calls ≡ true)
      × (any (binds (dlq_name cfg queue_name) (dlx_name cfg) routing_key) calls ≡ true)
  dead_letter_route = rw made_by_code (
    refl,
    (dead_letter_args cfg routing_key, own_args, routed_exchange, routed_key),
    exchange_declared,
    queue_bound,
  )

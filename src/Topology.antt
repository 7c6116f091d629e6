-- ===== src/Topology.antt =====
-- pkg/rabbitmq/topology.go: the exchanges, queues and bindings that are declared for a queue.
pub mod Order
pub mod DeadLetter
use rabbitmq_go.Base.{
  Bool, true, false, Option, none, some, List, [], ◌∷◌, ◌++◌, Str, bytes, ◌==◌, if◌then◌else◌, ℕ, ℤ,
  ◌||◌,
}
use rabbitmq_go.Errors.{GoError, wrap, join, non_retryable, amqp_error, Result, ok, err}
use rabbitmq_go.Amqp.{Value, string, Table, precondition_failed}
use rabbitmq_go.Config.{Config, dead_letter_exchange_type}

-- The calls of the AMQP client that concern one channel, with their arguments.
pub data Call : Type 0 where
  -- `conn.Channel()` and `ch.Close()`
  open_channel : Call
  close_channel : Call
  -- prefetch count, prefetch size, global
  qos : ℤ → ℤ → Bool → Call
  -- no-wait
  confirm : Bool → Call
  -- name, kind, durable, auto-deleted, internal, no-wait, arguments
  exchange_declare : Str → Str → Bool → Bool → Bool → Bool → Table → Call
  -- name, durable, auto-deleted, exclusive, no-wait, arguments
  queue_declare : Str → Bool → Bool → Bool → Bool → Table → Call
  -- queue, key, exchange, no-wait, arguments
  queue_bind : Str → Str → Str → Bool → Table → Call
  -- queue, consumer, auto-ack, exclusive, no-local, no-wait, arguments
  consume : Str → Str → Bool → Bool → Bool → Bool → Table → Call

-- The calls so far, the latest first.
abbrev pub Calls : Type 0
Calls = List Call

-- The channel's answer to a call may depend on all the calls before it; `none` is no error.
abbrev pub Channel : Type 0
Channel = Calls → Call → Option GoError

-- A computation that calls the channel and may fail.
abbrev pub M : Type 0 → Type 0
M A = Calls → Result A × Calls

abbrev pub pure : {A : Type 0} → A → M A
pure a h = (ok a, h)

infixl 5 ◌>>=◌ ◌>>◌
abbrev pub ◌>>=◌ : {A B : Type 0} → M A → (A → M B) → M B
◌>>=◌ m f h = let (r, h') = m h in elim r [ ok a ↦ f a h' | err e ↦ (err e, h') ]

abbrev pub ◌>>◌ : {A B : Type 0} → M A → M B → M B
m >> k = m >>= λ _. k

-- A call, and what its error is wrapped in.
abbrev pub call : Channel → (GoError → GoError) → Call → M (Unit {0})
call channel wrapped c h = elim (channel h c) [
  | none ↦ (ok tt, c ∷ h)
  | some e ↦ (err (wrapped e), c ∷ h)
]

-- `fmt.Errorf("doing: %w", err)`.
abbrev pub doing : Str → GoError → GoError
doing what e = wrap (what ++ bytes ": ") e []

-- The first AMQP error of a chain, as `errors.As` finds it, has code `PreconditionFailed`.
unfoldable pub first_code : GoError → Option ℕ
first_code (amqp_error code reason) = some code
first_code (wrap before e after) = first_code e
first_code (join a b) =
    let second = first_code b in elim (first_code a) [ none ↦ second | some code ↦ some code ]
first_code (non_retryable e) = first_code e
first_code _ = none

-- `wrapQueueDeclareErr`, by the outcome of its test and with the test. `quote` is the %q of the
-- package fmt.
abbrev pub queue_declare_err : (Str → Str) → Str → GoError → Bool → GoError
queue_declare_err quote queue_name e true =
    wrap (bytes "declare queue " ++ (quote queue_name ++ bytes ": ")) e (
      bytes " (queue already exists with different arguments; delete "
      ++ (quote queue_name ++ bytes " on the broker, then restart)"))
queue_declare_err quote queue_name e false = doing (bytes "declare queue") e

unfoldable pub is_precondition_failed : GoError → Bool
unfolding first_code
is_precondition_failed e = elim (first_code e) [
  | none ↦ false
  | some code ↦ code == precondition_failed
]

unfoldable pub wrap_queue_declare_err : (Str → Str) → Str → GoError → GoError
unfolding is_precondition_failed
wrap_queue_declare_err quote queue_name e =
    queue_declare_err quote queue_name e (is_precondition_failed e)

-- `dlxName` and `dlqName`.
abbrev pub dlx_name : Config → Str
dlx_name cfg = cfg.exchange ++ cfg.dead_letter_exchange_suffix

abbrev pub dlq_name : Config → Str → Str
dlq_name cfg queue_name = queue_name ++ cfg.dead_letter_queue_suffix

-- The arguments of a queue with dead letters.
abbrev pub dead_letter_args : Config → Str → Table
dead_letter_args cfg routing_key = some (
    (bytes "x-dead-letter-exchange", string (dlx_name cfg))
    ∷ (bytes "x-dead-letter-routing-key", string routing_key)
    ∷ [])

module _ (channel : Channel) (quote : Str → Str) where
  -- The part of `declareQueueTopology` under `if !cfg.DisableDeadLetter`; it gives `queueArgs`.
  unfoldable pub declare_dead_letter : Config → Str → Str → M Table
  declare_dead_letter cfg queue_name routing_key = do
    call channel (doing (bytes "declare dead-letter exchange"))
        (exchange_declare (dlx_name cfg) dead_letter_exchange_type true false false false none)
    call channel (doing (bytes "declare dead-letter queue"))
        (queue_declare (dlq_name cfg queue_name) true false false false none)
    call channel (doing (bytes "bind dead-letter queue"))
        (queue_bind (dlq_name cfg queue_name) routing_key (dlx_name cfg) false none)
    pure (dead_letter_args cfg routing_key)

  -- The first half of `declareQueueTopology`.
  unfoldable pub declare_queue_args : Config → Str → Str → M Table
  declare_queue_args cfg queue_name routing_key h =
      if cfg.disable_dead_letter
      then (ok none, h)
      else declare_dead_letter cfg queue_name routing_key h

  -- The rest of `declareQueueTopology`.
  unfoldable pub declare_queue : Config → Str → Str → Table → M (Unit {0})
  declare_queue cfg queue_name routing_key queue_args = do
    call channel (wrap_queue_declare_err quote queue_name)
        (queue_declare queue_name true false false false queue_args)
    call channel (doing (bytes "bind queue"))
        (queue_bind queue_name routing_key cfg.exchange false none)

  -- `declareQueueTopology`.
  unfoldable pub declare_queue_topology : Config → Str → Str → M (Unit {0})
  declare_queue_topology cfg queue_name routing_key = do
    queue_args ← declare_queue_args cfg queue_name routing_key
    declare_queue cfg queue_name routing_key queue_args

  -- `declareConsumerTopology`, up to the channels that it returns.
  unfoldable pub declare_consumer_topology : Config → Str → Str → M (Unit {0})
  unfolding declare_queue_topology
  declare_consumer_topology cfg queue_name routing_key = do
    declare_queue_topology cfg queue_name routing_key
    call channel (λ e. e) (consume queue_name [] false false false false none)

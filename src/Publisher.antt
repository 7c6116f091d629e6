-- ===== src/Publisher.antt =====
-- pkg/rabbitmq/publisher.go and pool.go: the state of a publisher, with the part of the AMQP client
-- that it drives. The client's channels and connections are numbers, with a table of those that are
-- open. What the client and the broker answer is a parameter.
pub mod Pool
pub mod Publish
pub mod Connection
pub mod History
pub mod Declare
pub mod Watching
pub mod Threads
use rabbitmq_go.Base.{
  ℕ, ◌+◌, Bool, true, false, not, Option, none, some, List, [], ◌∷◌, ◌++◌, Str, bytes, ◌==◌,
  if◌then◌else◌,
}
use rabbitmq_go.Errors.{GoError}
use rabbitmq_go.Amqp.{Table, Publishing, Return}
use rabbitmq_go.Config.{Config}

-- `pooledChannel`.
pub record PooledChannel : Type 0 where
  pub ch : ℕ
  pub created_at : ℕ

-- A publish on a channel, with its arguments.
pub record Sent : Type 0 where
  pub ch : ℕ
  pub exchange : Str
  pub routing_key : Str
  pub mandatory : Bool
  pub immediate : Bool
  pub publishing : Publishing

-- `PublishMessage`.
pub record PublishMessage : Type 0 where
  pub exchange : Str
  pub routing_key : Str
  pub body : Str
  pub headers : Table
  pub content_type : Str
  pub content_encoding : Str
  pub delivery_mode : ℕ
  pub priority : ℕ
  pub correlation_id : Str
  pub reply_to : Str
  pub expiration : Str
  pub message_id : Str
  pub timestamp : ℕ
  pub type : Str
  pub user_id : Str
  pub app_id : Str
  pub mandatory : Bool
  pub immediate : Bool
  pub wait_for_confirm : Bool

-- `ReturnedMessage`.
pub record ReturnedMessage : Type 0 where
  pub reply_code : ℕ
  pub reply_text : Str
  pub exchange : Str
  pub routing_key : Str
  pub message : Publishing

-- `PublishReturnedError.Error`, with the texts of a number under %d and of a string under %q.
unfoldable pub returned_error_text : (ℕ → Str) → (Str → Str) → ReturnedMessage → Str
returned_error_text decimal quote r =
    bytes "rabbitmq: mandatory publish returned unroutable: "
    ++ (decimal r.reply_code
        ++ (bytes " "
            ++ (r.reply_text
                ++ (bytes " (exchange "
                    ++ (quote r.exchange
                        ++ (bytes ", routing key " ++ (quote r.routing_key ++ bytes ")")))))))

-- The errors of a publish: `*PublishReturnedError`, and any other.
pub data PublishError : Type 0 where
  publish_returned : ReturnedMessage → PublishError
  failed : GoError → PublishError

-- The fields of `publisher`, and behind them the world: what is open, the clock, what was sent (the
-- latest first), and how many questions the client has answered.
pub record Publisher : Type 0 where
  pub cfg : Config
  pub instr_is_nop : Bool
  pub connection : Option ℕ
  -- the buffered Go channel, the oldest entry first; `none` is nil
  pub channel_pool : Option (List PooledChannel)
  pub channel_meta : ℕ → Option ℕ
  pub closed : Bool
  pub open_channel : ℕ → Bool
  pub next_channel : ℕ
  pub open_connection : ℕ → Bool
  pub next_connection : ℕ
  pub now : ℕ
  pub sent : List Sent
  pub questions : ℕ

-- How `createConfirmChannel` fares once there is a connection. After a timeout of the first step the
-- goroutine that still waits closes the channel if one comes.
pub data Opening : Type 0 where
  channel_error : Opening
  channel_timeout : Opening
  confirm_error : Opening
  confirm_timeout : Opening
  confirm_enabled : Opening

-- What a publish without a wait gives is an error or nil. With a wait there are these cases, as in
-- `publishOnChannel`: the publish fails, there is no confirmation to wait for, the wait fails, or
-- the broker answers.
pub data Confirmation : Type 0 where
  publish_failed : GoError → Confirmation
  no_confirmation : Confirmation
  wait_failed : GoError → Confirmation
  answered : Bool → Confirmation

-- What comes first after a mandatory publish: a returned message, the end of the wait, or the end of
-- the context, with its error.
pub data Returned : Type 0 where
  came_back : Return → Returned
  waited_out : Returned
  context_done : GoError → Returned

-- The AMQP client, the network and the broker. An answer may depend on the whole state.
pub record Client : Type 0 where
  pub opening : Publisher → Opening
  pub dial : Publisher → Option GoError
  pub declare_exchange : Publisher → Option GoError
  pub publish : Publisher → Sent → Option GoError
  pub publish_confirmed : Publisher → Sent → Confirmation
  pub returns : Publisher → Sent → Returned
  -- does the channel of a publish close before the publish is done, and how long does that take?
  pub closes : Publisher → Sent → Bool
  pub elapsed : Publisher → Sent → ℕ

-- A computation on the state.
abbrev pub M : Type 0 → Type 0
M A = Publisher → A × Publisher

-- ===== src/Consumer.antt =====
-- pkg/rabbitmq/consumer.go and the parts of instrumentation.go that it uses: the data of a consumer,
-- what it observes, and what its handler, the broker and the instrumentation see of it.
pub mod Handling
pub mod Setup
pub mod Loop
pub mod Session
pub mod Connection
pub mod Stopping
use rabbitmq_go.Base.{ℕ, ℤ, Bool, true, false, Option, none, some, List, Str}
use rabbitmq_go.Errors.{GoError}
use rabbitmq_go.Amqp.{Table, Publishing, Delivery}
use rabbitmq_go.Config.{Config, Instrumentation, nop, nop_pointer, custom}

-- `Message`, what a handler gets.
pub record Message : Type 0 where
  pub body : Str
  pub headers : Table
  pub content_type : Str
  pub content_encoding : Str
  pub delivery_mode : ℕ
  pub priority : ℕ
  pub correlation_id : Str
  pub reply_to : Str
  pub expiration : Str
  pub message_id : Str
  pub timestamp : ℕ
  pub type : Str
  pub user_id : Str
  pub app_id : Str
  pub routing_key : Str
  pub exchange : Str
  pub redelivered : Bool
  pub retry_count : ℤ

-- `DeliveryContext`.
pub record DeliveryContext : Type 0 where
  pub queue : Str
  pub routing_key : Str
  pub body_size : ℕ
  pub retry_count : ℤ
  pub headers : Table

-- `ConsumeResult`; the nil error is `none`.
pub record ConsumeResult : Type 0 where
  pub err : Option GoError
  pub dead_lettered : Bool
  pub non_retryable : Bool
  pub acked : Bool
  pub nacked : Bool
  pub requeued : Bool
  pub retried : Bool

-- The zero value.
abbrev pub zero_result : ConsumeResult
zero_result = record {
  err = none;
  dead_lettered = false;
  non_retryable = false;
  acked = false;
  nacked = false;
  requeued = false;
  retried = false;
}

-- `isNopInstrumentation`.
unfoldable pub is_nop_instrumentation : Instrumentation → Bool
is_nop_instrumentation nop = true
is_nop_instrumentation nop_pointer = true
is_nop_instrumentation (custom n) = false

-- What the handling of deliveries does that others see: the calls of the instrumentation, of the
-- handler and of the AMQP client, with their arguments.
pub data Event : Type 0 where
  started : DeliveryContext → Event
  handled : Message → Event
  -- `PublishWithDeferredConfirmWithContext(exchange, key, mandatory, immediate, publishing)`
  published : Str → Str → Bool → Bool → Publishing → Event
  -- `dc.WaitContext`
  waited : Event
  -- the `retryPublish` hook, with the routing key and the count
  hooked : Str → Delivery → ℤ → Event
  -- `Ack(multiple)` and `Nack(multiple, requeue)` of the delivery with a tag
  acked : ℕ → Bool → Event
  nacked : ℕ → Bool → Bool → Event
  ended : ConsumeResult → Event

-- The events so far, the latest first.
abbrev pub Trace : Type 0
Trace = List Event

-- How a handler ends: it returns an error or nil, or it panics with a value that prints as a text.
pub data HandlerOutcome : Type 0 where
  returned : Option GoError → HandlerOutcome
  panicked : Str → HandlerOutcome

-- What a publish with a deferred confirm gives: an error, a nil confirmation, or a confirmation.
pub data Deferred : Type 0 where
  refused : GoError → Deferred
  unconfirmed : Deferred
  deferred : Deferred

-- What the wait for a confirmation gives: an error, or whether the broker acknowledged.
pub data Waited : Type 0 where
  wait_failed : GoError → Waited
  confirmed : Bool → Waited

-- The handler and the AMQP client. What they answer may depend on all that happened before.
pub record Environment : Type 0 where
  pub handler : Trace → Message → HandlerOutcome
  pub publish_deferred : Trace → Str → Str → Publishing → Deferred
  pub wait : Trace → Waited

-- The fields of `Consumer` that the handling of a delivery reads.
pub record Consumer : Type 0 where
  pub cfg : Config
  pub instr_is_nop : Bool
  pub retry_publish : Option (Trace → Str → Delivery → ℤ → Option GoError)

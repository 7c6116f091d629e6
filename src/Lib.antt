-- ===== src/Lib.antt =====
-- A verification library of rabbitmq-go, a Go library over github.com/rabbitmq/amqp091-go: a publisher
-- with a pool of confirm channels, a consumer with bounded in-place retries and dead-lettering, and the
-- topology and the reconnects that both need.
--
-- The parts, and the files that model them:
--
--   pkg/rabbitmq/errors.go        Errors: `NonRetryableError` in a tree of wrapped errors, and the walk
--                                 of `errors.As` over it, with errors that have methods `As` and `Is`.
--                                 Errors/Chain: the walk against the relation "wraps".
--   internal/amqpx/retry.go       Amqpx/Retry: `ReadRetryCount`, `NextRetryHeaders`.
--                                 Amqpx/Retry/RoundTrip: one against the other.
--   internal/amqpx/connection.go  Amqpx/Dial: `Dial`, its goroutine and its timeout, as steps of two
--                                 threads; Amqpx/Dial/Late: what it returns, and a late connection.
--                                 Amqpx/MaskUrl: `MaskURL`; Amqpx/MaskUrl/Hidden: what it hides.
--                                 Amqpx/Options: the options of `Dial`. Amqpx/Exchange:
--                                 `DeclareExchange`.
--   pkg/rabbitmq/config.go        Config: `Config`, its defaults, `validate`, `normalize`, `logger`,
--                                 `instrumentation`. Config/Normal: what they establish.
--   pkg/rabbitmq/instrumentation.go
--                                 Instrumentation: the interface, `PublishContext`, `NopInstrumentation`.
--                                 Consumer: `DeliveryContext`, `ConsumeResult`, `isNopInstrumentation`.
--   pkg/rabbitmq/consumer.go      Consumer: `Message` and the fields of `Consumer` that the handling
--                                 reads. Consumer/Handling: `handleDelivery`, `callHandler`,
--                                 `handleHandlerError`, `publishRetry`, `republishWithRetry`,
--                                 `messageFromDelivery`. Below it Settlement, Outcome, Requeue and
--                                 Bounded: how a delivery is settled, why, and that retries end; and
--                                 Exhausted: how they end if nothing helps; and Measures:
--                                 what the handling adds to a trace. Consumer/Setup: what `consumeOnce`
--                                 and `consumeOnceConcurrent` do around their loops; below it Order
--                                 (the calls), Life (the channel) and Plain (the errors).
--                                 Consumer/Loop: the loop of `consumeOnce`, and `Consume`,
--                                 `ConsumeConcurrent` and their Body forms; below it Settled (what is
--                                 settled), Prefetch (the prefetch count that a concurrent session asks for)
--                                 and Restarts (when `Consume` returns). Consumer/Session: the
--                                 loop of `consumeOnceConcurrent` and its goroutines, as steps;
--                                 Consumer/Session/Drained: how many run, and what becomes of each
--                                 delivery. Consumer/Connection: `NewConsumer`, `connect`,
--                                 `watchConnection`, `Check`, `Close`, as steps of the watcher, the
--                                 broker and `Close`; below it Single, Started and Health (one
--                                 connection at most), Closing (what is open after `Close`) and Watching (when
--                                 the watcher ends). Consumer/Stopping: calls of `Consume` and `Close` as
--                                 threads, with the wait group and the context; below it Stopped (no
--                                 session after `Close`) and Returning (the calls end).
--   pkg/rabbitmq/pool.go          Publisher/Pool: all its functions. Publisher/Pool/Accounts and
--                                 Publisher/Pool/Filling: no open channel is lost or kept twice.
--                                 Publisher/Threads: the calls of the publisher as threads, from one lock
--                                 or `select` to the next; below it Moves (the steps of a thread), Counts
--                                 (the accounts of a channel), Sections (`connMu`), Listeners (channels
--                                 with a listener for returns), Runs (the steps of the whole), Exclusive
--                                 (who has a channel), Progress (no deadlock), Weights and Finishing (the
--                                 calls end), Alone and Atomic (a publish that runs alone, against
--                                 Publisher/Publish).
--   pkg/rabbitmq/publisher.go     Publisher: the state. Publisher/Publish: `Publish`, `PublishMessage`,
--                                 `publish`, `publishOnChannel`, `normalizePublishMessage`,
--                                 `returnedMessage`; below it Channels (what happens to the channels),
--                                 Sound (what success means) and Observed (with the hooks of an
--                                 instrumentation). Publisher/Connection: `connect`,
--                                 `establishConnection`, `Close`. Publisher/History: all of it as a
--                                 step relation; below it Leak, on `Close` and a late reconnect.
--                                 Publisher/Declare: `DeclareQueueTopology`. Publisher/Watching:
--                                 `NewPublisher` and `watchConnection`, as steps of the watcher among
--                                 the others; below it Frame (what users leave as it is), Lost (a loss that
--                                 the watcher does not see) and Stopped (the watcher after `Close`).
--                                 Reconnect: `reconnect`, which consumer.go has in the same form.
--                                 Reconnect/Backoff: how long it sleeps. Reconnect/Watcher: the places
--                                 of the goroutine that calls it.
--   pkg/rabbitmq/topology.go      Topology: `declareQueueTopology`, `declareConsumerTopology`,
--                                 `wrapQueueDeclareErr`. Topology/Order and Topology/DeadLetter: the
--                                 calls in their order, and where a dead letter goes.
--   pkg/rabbitmq/logging          Logging: the fields, `NopLogger` and `SlogLogger`.
--   pkg/otelrabbitmq              Otel: the options, `New`, the names of the instruments; Otel/Options:
--                                 which option counts. Otel/Carrier: `headerCarrier`;
--                                 Otel/Carrier/Retried: what retries carry. Otel/Spans: `StartPublish`
--                                 and `StartConsume`, and the bridge as an `Instrumentation`; below it
--                                 Metered (what the counters count), Published (the span of a publish, and
--                                 what a message carries) and Followed (the bridge in a session).
--
-- Amqp has the types of amqp091-go that these use, and Base what all modules share: byte strings, maps as
-- association lists, integers. Examples has concrete inputs, tests on them, and the theorems at them.
--
-- How the code is modelled. Text is a list of bytes. Go's `int` and `time.Duration` are integers with
-- 64-bit wrap-around where the code computes with them (`retryCount+1`, `backoff *= 2`); a header count
-- has the range of int32. A consumer function takes the trace of all that happened, the latest first, and
-- gives its result with the longer trace; handler, broker and hook are functions of the trace. A publisher
-- function takes and gives the state, in which channels and connections are numbers and the tables of the
-- open ones belong to the client; the client's answers are functions of the state. An error is a value.
-- In Consumer/Handling/Bounded a queue is handled until it is empty: a copy that was published for a delivery
-- comes back if the broker queues it, and a delivery comes back after a nack with requeue. That loop runs on
-- fuel: if the broker acknowledges every copy, more fuel than `MaxRetries - count` is enough, where `count` is
-- the count that the delivery comes with; if it does not, the original is requeued with its count, and the
-- library gives no bound. The other loops recurse on a list or a number.
--
-- A session of `Consume` is a function on the list of what arrives in it (that of `ConsumeConcurrent` takes
-- how its goroutines interleave as well; their steps are in Consumer/Session), and the restarts are a function
-- on the list of the sessions; a list that ends is a call that still waits. The connection of a consumer
-- is a state with steps in any order; what a listener is told that registers with `NotifyClose` on a
-- connection that is closed already is a parameter of the steps. A dial that its timeout overtook goes on in
-- the goroutine of `Dial`, and its connection may open later, out of the program's reach: such dials and
-- connections are counted apart from those that `Dial` returned. The OpenTelemetry bridge gives the list
-- of its calls of tracer, span, propagator and instruments; its callbacks are paired with their starts in
-- a session that handles one delivery at a time.
--
-- The calls of a publisher are modelled twice. In Publisher/Pool to Publisher/Watching a call is one step, with
-- all that it computes. In Publisher/Threads a step is one section under a lock, one `select`, one call of the
-- client or one test of a flag, and the messages, `channelMeta` and the backoff are left out. The watcher may
-- begin to reconnect there at any time, which includes the times at which it does. The number of moves that are
-- left bounds the runs there and in Consumer/Stopping, which need no fuel.
--
-- What is not modelled: the log lines of the library and contexts' values; the dial function that `Dial` hands
-- on; the order of the statements between two synchronisations of a thread; how long the sleeps between sessions
-- are; the floating point seconds of a duration; the broker, amqp091-go, log/slog and the OpenTelemetry
-- libraries, which are parameters.
pub mod Base
pub mod Errors
pub mod Amqp
pub mod Amqpx
pub mod Config
pub mod Consumer
pub mod Publisher
pub mod Topology
pub mod Reconnect
pub mod Instrumentation
pub mod Logging
pub mod Otel
pub mod Examples

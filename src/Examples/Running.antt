-- ===== src/Examples/Running.antt =====
-- A session that is set up, what arrives in it, and the restarts around it.
use rabbitmq_go.Base.{pos, true, false, Option, none, List, [], ◌∷◌, ◌≡◌, refl, Str, bytes, tally}
use rabbitmq_go.Errors.{GoError, canceled, is_canceled, in_chain}
use rabbitmq_go.Topology.{
  Calls, open_channel, close_channel, declare_queue_topology, declare_queue_args,
  declare_dead_letter, declare_queue, declare_consumer_topology,
}
use rabbitmq_go.Topology.Order.{calls_of}
use rabbitmq_go.Consumer.{Trace}
use rabbitmq_go.Consumer.Setup.{Link, enable_confirms, set_up, on_channel, in_session}
use rabbitmq_go.Consumer.Setup.Order.{session_plan}
use rabbitmq_go.Consumer.Setup.Life.{Life, in_session-Life}
use rabbitmq_go.Consumer.Loop.Prefetch.{is_qos, asks_for, prefetch_bounds}
use rabbitmq_go.Consumer.Loop.{
  Arrival, context_done, channel_closed, arrives, Turn, receive, ending, restarts, Schedule,
  consume_once_concurrent, consume_concurrent,
}
use rabbitmq_go.Consumer.Loop.Settled.{settled_tags, tags_of, receive_settles}
use rabbitmq_go.Consumer.Loop.Restarts.{sees_end, any, consume_concurrent_returns}
use rabbitmq_go.Examples.{raw_config, delivery, retried}
use rabbitmq_go.Examples.Setup.{quote, accepting}
use rabbitmq_go.Examples.Consuming.{consumer, failing}

abbrev pub queue : Str
queue = bytes "created"

abbrev pub key : Str
key = bytes "key"

abbrev link : Link
link = record { connected = true; channel = accepting }

abbrev lost_turn : Turn
lost_turn = record {
  stopped = false;
  link = link;
  arrivals = channel_closed none ∷ [];
  woke = true;
}

prefetch_bounds_example :
    let calls =
      (consume_once_concurrent consumer quote queue key (pos 8) (λ h. h) lost_turn []).1 in
    (tally is_qos calls ≡ 1)
    × (tally (asks_for (pos 8)) calls ≡ tally is_qos calls)
    × (tally (asks_for (pos 1)) calls ≡ tally is_qos calls)
prefetch_bounds_example = prefetch_bounds consumer quote queue key (pos 8) (λ h. h) lost_turn []

-- Two deliveries, the second one without a header, then the channel is closed.
abbrev pub arrivals : List Arrival
arrivals = arrives (retried (pos 1)) ∷ arrives (delivery none) ∷ channel_closed none ∷ []

receive_settles_example :
    (settled_tags (receive consumer failing queue key arrivals []).1
      ≡ tags_of arrivals (settled_tags []))
    × ((receive consumer failing queue key arrivals []).0 ≡ ending arrivals)
receive_settles_example = receive_settles consumer failing queue key arrivals []

abbrev stopping : Trace → Option GoError × Trace
stopping = receive consumer failing queue key (context_done ∷ [])

abbrev session_calls : Calls
session_calls =
    close_channel ∷ calls_of (session_plan quote raw_config (pos 1) queue key) (open_channel ∷ [])

in_session-Life_example :
    Life link quote raw_config (pos 1) queue key stopping [] canceled session_calls []
unfolding receive in_session on_channel set_up enable_confirms declare_consumer_topology
    declare_queue_topology declare_queue_args declare_dead_letter declare_queue
in_session-Life_example =
    in_session-Life link quote raw_config (pos 1) queue key stopping [] canceled session_calls []
      refl

-- The channel is closed in the first turn, the context ends in the loop of the second.
abbrev turns : List Turn
turns =
    record { stopped = false; link = link; arrivals = channel_closed none ∷ []; woke = true }
    ∷ record { stopped = false; link = link; arrivals = context_done ∷ []; woke = true }
    ∷ []

-- Goroutines that happen to work one after the other.
abbrev in_turn : Schedule
in_turn workers env t h = (receive consumer env queue key t.arrivals h).1

consume_concurrent_returns_example :
    (◌≡◌ {A = Option GoError} none none) × (any sees_end turns ≡ true)
unfolding consume_concurrent restarts consume_once_concurrent in_session on_channel set_up
    enable_confirms declare_consumer_topology declare_queue_topology declare_queue_args
    declare_dead_letter declare_queue receive is_canceled in_chain
consume_concurrent_returns_example =
    consume_concurrent_returns consumer failing quote queue key (pos 8) in_turn turns [] none
      (
        record { channel = λ _ _ _ v. absurd cc; arrivals = (tt, tt) },
        (record { channel = λ _ _ _ v. absurd cc; arrivals = (tt, tt) }, tt),
      )
      refl

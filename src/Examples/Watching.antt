-- ===== src/Examples/Watching.antt =====
-- A publisher whose connection is lost while a caller holds a channel.
use rabbitmq_go.Base.{true, false, none, some, ◌≡◌, refl, bytes}
use rabbitmq_go.Errors.{GoError, text, ok, err, amqp_error}
use rabbitmq_go.Config.{validate, normalize}
use rabbitmq_go.Reconnect.Watcher.{reading, in_round}
use rabbitmq_go.Publisher.Pool.{
  get_channel, borrow_channel, borrow_from, new_channel_or_error, create_pooled_channel,
  create_confirm_channel, warm, warm_one, store_warm, warm_channel_pool, drain, drain_channel_pool,
}
use rabbitmq_go.Publisher.Connection.{
  close, close_current, connect, establish_connection, swap_pool,
}
use rabbitmq_go.Publisher.History.{gets, new_publisher}
use rabbitmq_go.Publisher.Watching.{
  Watched, new_watched, place_at_top, place_registered, notice, check_closed, WatchReach, uses,
  reads, registers, notices, checks, wakes, attempts, loses, shuts, close_watched, here, next,
}
use rabbitmq_go.Publisher.Watching.Stopped.{closed_stays}
use rabbitmq_go.Publisher.Watching.Lost.{lost_unwatched}
use rabbitmq_go.Examples.{raw_config}
use rabbitmq_go.Examples.Sending.{client, connected, got}

abbrev started : Watched
started = record { state = connected; watcher = reading; reconnecting = false }

started_new : new_watched client raw_config ≡ ok started
unfolding new_watched validate connect establish_connection swap_pool drain warm_channel_pool warm
    warm_one create_pooled_channel create_confirm_channel store_warm new_publisher normalize
started_new = refl

abbrev lost : GoError
lost = amqp_error 320 (bytes "CONNECTION_FORCED")

-- A caller takes a channel, the connection is lost, and the watcher connects again.
abbrev reconnected : (s : Watched) × WatchReach client (λ _ t. t) none started s
unfolding place_at_top place_registered notice check_closed connect establish_connection swap_pool
    drain warm_channel_pool warm warm_one create_pooled_channel create_confirm_channel store_warm
    new_publisher normalize drain_channel_pool get_channel borrow_channel borrow_from
reconnected = (
  _,
  next
      (next
        (next
          (next
            (next (next (next (next here (uses (gets 0 got) refl)) (reads refl)) (registers 0 refl))
              (loses 0 lost refl))
            (notices 0 (some lost) refl))
          (checks refl))
        (wakes refl))
      (attempts refl),
)

-- The connection is lost and `Close` is called before the watcher tests `closed`; the watcher ends.
abbrev closing : (s : Watched) × WatchReach client (λ _ t. t) none started s
unfolding place_at_top place_registered notice check_closed connect establish_connection swap_pool
    drain warm_channel_pool warm warm_one create_pooled_channel create_confirm_channel store_warm
    new_publisher normalize drain_channel_pool close_watched close close_current
closing = (
  _,
  next
      (next (next (next (next here (reads refl)) (registers 0 refl)) (loses 0 lost refl))
        (notices 0 (some lost) refl))
      shuts,
)

abbrev stopped : (t : Watched) × WatchReach client (λ _ t. t) none closing.0 t
unfolding place_at_top place_registered notice check_closed connect establish_connection swap_pool
    drain warm_channel_pool warm warm_one create_pooled_channel create_confirm_channel store_warm
    new_publisher normalize drain_channel_pool close_watched close close_current
stopped = (_, next (next here (checks refl)) (reads refl))

closed_stays_example :
    (stopped.0.state.publisher.closed ≡ true)
    × (stopped.0.state.publisher.next_connection ≡ closing.0.state.publisher.next_connection)
    × (in_round stopped.0.watcher ≡ false)
unfolding place_at_top place_registered notice check_closed connect establish_connection swap_pool
    drain warm_channel_pool warm warm_one create_pooled_channel create_confirm_channel store_warm
    new_publisher normalize drain_channel_pool close_watched close close_current
closed_stays_example = closed_stays client (λ _ t. t) none closing.0 stopped.0 refl refl stopped.1

-- The connection is lost between the read of it and `NotifyClose`, and the watcher ends.
abbrev lost_early : (s : Watched) × WatchReach client (λ _ t. t) none started s
unfolding place_at_top connect establish_connection swap_pool drain warm_channel_pool warm warm_one
    create_pooled_channel create_confirm_channel store_warm new_publisher normalize
lost_early = (_, next (next here (reads refl)) (loses 0 lost refl))

abbrev gone : (t : Watched) × WatchReach client (λ _ t. t) none lost_early.0 t
unfolding place_at_top place_registered notice connect establish_connection swap_pool drain
    warm_channel_pool warm warm_one create_pooled_channel create_confirm_channel store_warm
    new_publisher normalize
gone = (_, next (next here (registers 0 refl)) (notices 0 none refl))

lost_unwatched_example :
    (gone.0.state.publisher.connection ≡ some 0)
    × (new_channel_or_error client (gone.0.state.publisher)
        ≡ (err (text (bytes "rabbitmq: failed to create channel")), gone.0.state.publisher))
unfolding place_at_top connect establish_connection swap_pool drain warm_channel_pool warm warm_one
    create_pooled_channel create_confirm_channel store_warm new_publisher normalize
lost_unwatched_example =
    lost_unwatched client (λ _ t. t) lost_early.0 gone.0 0 refl refl refl gone.1

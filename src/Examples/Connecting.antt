-- ===== src/Examples/Connecting.antt =====
-- A consumer that loses its connection and is closed.
use rabbitmq_go.Base.{ℕ, ◌+◌, ◌≤◌, ◌⊎◌, true, false, Option, none, some, ◌≡◌, ◌↔◌, refl, bytes}
use rabbitmq_go.Errors.{GoError, text, amqp_error}
use rabbitmq_go.Config.{validate, normalize}
use rabbitmq_go.Reconnect.Watcher.{ended}
use rabbitmq_go.Consumer.Connection.{
  State, Answer, connect, new_consumer, check, read_connection, register, notice, check_context,
  close_current, reads, registers, notices, checks, wakes, loses, cancels, Reach, here, next,
}
use rabbitmq_go.Consumer.Connection.Health.{one_connection}
use rabbitmq_go.Consumer.Connection.Closing.{close_leaves_nothing, close_can_leave_open}
use rabbitmq_go.Consumer.Connection.Watching.{lost_before_watch, watcher_ends}
use rabbitmq_go.Examples.{raw_config}

-- A broker that takes the connection and the exchange.
abbrev taking : Answer
taking = record { dial = none; is_late = false; declare_exchange = none }

abbrev started : State
started = (new_consumer taking raw_config false).1

abbrev lost : GoError
lost = amqp_error 320 (bytes "CONNECTION_FORCED")

-- The states that are reached when nothing, or an error, is told to a late listener.
abbrev Reached : Option GoError → Type 0
Reached late_notice = (s : State) × Reach late_notice started s

-- The watcher waits; it is in `connect` after a loss, and the context ends.
abbrev waiting_now : Reached none
unfolding new_consumer validate normalize connect read_connection register
waiting_now = (_, next (next here (reads refl)) (registers 0 refl))

abbrev in_connect : Reached none
unfolding new_consumer validate normalize connect read_connection register notice check_context
in_connect = (
  _,
  next
      (next
        (next (next (next waiting_now.1 (loses 0 lost refl)) (notices 0 (some lost) refl))
          (checks refl))
        (wakes refl))
      cancels,
)

abbrev canceled_now : Reached none
canceled_now = (_, next waiting_now.1 cancels)

one_connection_example :
    (waiting_now.0.open_connection 0 ≡ true)
    ↔ ((waiting_now.0.connection ≡ some 0) × (check (some waiting_now.0) ≡ none))
one_connection_example = one_connection none taking raw_config false waiting_now.0 0 waiting_now.1

close_leaves_nothing_example :
    ((i : ℕ) → (close_current canceled_now.0).open_connection i ≡ false)
    × ((close_current canceled_now.0).late + (close_current canceled_now.0).unowned
        ≤ canceled_now.0.late + canceled_now.0.unowned)
unfolding new_consumer validate normalize connect read_connection register
close_leaves_nothing_example =
    close_leaves_nothing none taking raw_config false canceled_now.0 (close_current canceled_now.0)
      canceled_now.1 refl refl here

close_can_leave_open_example :
    (t : State) × Reach none (close_current in_connect.0) t
    × (t.watcher ≡ ended)
    × (check (some t) ≡ none)
unfolding new_consumer validate normalize connect read_connection register notice check_context
close_can_leave_open_example =
    close_can_leave_open none taking raw_config false in_connect.0 in_connect.1 refl refl

-- The connection is lost between the read of it and `NotifyClose`.
abbrev lost_early : Reached none
unfolding new_consumer validate normalize connect read_connection
lost_early = (_, next (next here (reads refl)) (loses 0 lost refl))

-- The watcher ends.
abbrev gone : (t : State) × Reach none lost_early.0 t
unfolding new_consumer validate normalize connect read_connection register notice
gone = (_, next (next here (registers 0 refl)) (notices 0 none refl))

-- The same steps, from the start.
abbrev gone_late : Reached none
unfolding new_consumer validate normalize connect read_connection register notice
gone_late = (_, next (next lost_early.1 (registers 0 refl)) (notices 0 none refl))

lost_before_watch_example :
    (gone.0.connection ≡ some 0)
    × (check (some gone.0) ≡ some (text (bytes "rabbitmq: connection is closed")))
unfolding new_consumer validate normalize connect read_connection register notice
lost_before_watch_example = lost_before_watch lost_early.0 gone.0 0 refl refl refl gone.1

watcher_ends_example :
    (gone_late.0.is_done ≡ true)
    ⊎ ((◌≡◌ {A = Option GoError} none none)
        × (check (some gone_late.0) ≡ some (text (bytes "rabbitmq: connection is closed"))))
unfolding new_consumer validate normalize connect read_connection register gone_late
watcher_ends_example = watcher_ends none taking raw_config false gone_late.0 gone_late.1 refl

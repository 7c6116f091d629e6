-- ===== src/Publisher/Watching.antt =====
-- pkg/rabbitmq/publisher.go: `NewPublisher` and `watchConnection`, with the steps of the watcher among
-- the calls of the users and the losses of connections.
pub mod Frame
pub mod Lost
pub mod Stopped
use rabbitmq_go.Base.{ℕ, ◌==◌, Bool, true, false, Option, none, some, ◌≡◌, if◌then◌else◌}
use rabbitmq_go.Errors.{GoError, Result, ok, err}
use rabbitmq_go.Config.{Config, validate}
use rabbitmq_go.Reconnect.Watcher.{
  Watcher, reading, idle, registering, waiting, checking, sleeping, connecting, ended, notify,
}
use rabbitmq_go.Publisher.{Publisher, Client}
use rabbitmq_go.Publisher.Pool.{drain_channel_pool}
use rabbitmq_go.Publisher.Publish.{Injection}
use rabbitmq_go.Publisher.Connection.{connect, close, close_connection}
use rabbitmq_go.Publisher.History.{
  State, new_publisher, Step, gets, get_fails, puts_back, publishes, connects, drains, closes,
  loses_channel, loses_connection, waits,
}

-- A publisher in use, the place of its watcher, and whether `reconnect` is under way. `closeChan` is
-- closed if `closed` is set.
pub record Watched : Type 0 where
  pub state : State
  pub watcher : Watcher
  pub reconnecting : Bool

abbrev pub with_publisher : Publisher → Watched → Watched
with_publisher p s = record s { state = record (s.state) { publisher = p } }

-- The start of the watcher, by the error of `connect`.
abbrev pub start : Option GoError × Publisher → Result Watched
start (some e, p) = err e
start (none, p) = ok (record {
  state = record { publisher = p; lent = λ _. false };
  watcher = reading;
  reconnecting = false;
})

-- `NewPublisher`.
unfoldable pub new_watched : Client → Config → Result Watched
new_watched client cfg = elim (validate cfg) [
  | some e ↦ err e
  | none ↦ start (connect client (new_publisher cfg))
]

-- The top of the loop: the `select` with a default, and the read of `p.connection`.
unfoldable pub place_at_top : Publisher → Watcher
place_at_top p =
    if p.closed then ended else elim p.connection [ none ↦ idle | some conn ↦ registering conn ]

-- `conn.NotifyClose(make(chan *amqp.Error, 1))`.
unfoldable pub place_registered : Option GoError → ℕ → Publisher → Watcher
place_registered late_notice conn p =
    waiting conn (if p.open_connection conn then none else some late_notice)

-- The case of `closeErr`, up to the loop of `reconnect`.
unfoldable pub notice : Option GoError → Watched → Watched
notice none s = record s { watcher = ended }
notice (some e) s =
    let drained = with_publisher (drain_channel_pool s.state.publisher) s in
    if s.reconnecting
    then record drained { watcher = reading }
    else record drained { watcher = checking; reconnecting = true }

-- A return of `reconnect`.
abbrev pub leave_reconnect : Watched → Watched
leave_reconnect s = record s { watcher = reading; reconnecting = false }

-- The `select` with a default in `reconnect`.
unfoldable pub check_closed : Watched → Watched
check_closed s =
    if s.state.publisher.closed then leave_reconnect s else record s { watcher = sleeping }

-- `connect` in `reconnect`, and what follows it: a return, or the next round.
abbrev pub after_connect : Option GoError → Watched → Watched
after_connect none s = leave_reconnect s
after_connect (some e) s = record s { watcher = checking }

unfoldable pub attempt : Client → Watched → Watched
attempt client s =
    let (e, p) = connect client s.state.publisher in after_connect e (with_publisher p s)

-- `Close`, and what the watcher is told of it.
abbrev pub notify_current : Publisher → Watcher → Watcher
notify_current p w = elim p.connection [
  | none ↦ w
  | some conn ↦ if p.open_connection conn then notify conn none w else w
]

unfoldable pub close_watched : Watched → Watched
close_watched s = record (with_publisher (close s.state.publisher) s) {
  watcher =
      if s.state.publisher.closed then s.watcher else notify_current s.state.publisher s.watcher;
}

module _ (client : Client) (inject : Injection) where
  -- The steps of a history that users and the network make without the watcher or `Close`.
  abbrev pub is_use : {s t : State} → Step client inject s t → Bool
  is_use (gets ch e) = true
  is_use (get_fails e h) = true
  is_use (puts_back ch out) = true
  is_use (publishes msg) = true
  is_use connects = false
  is_use drains = false
  is_use closes = false
  is_use (loses_channel ch) = true
  is_use (loses_connection conn) = false
  is_use (waits n) = true

  -- The steps; `late_notice` is what a listener is told that registers on a closed connection.
  pub data WatchStep (late_notice : Option GoError) (s : Watched) : Watched → Type 0 where
    uses :
        {t : State} (st : Step client inject (s.state) t)
        → is_use st ≡ true
        → WatchStep late_notice s (record s { state = t })
    reads :
        s.watcher ≡ reading
        → WatchStep late_notice s (record s { watcher = place_at_top s.state.publisher })
    idles : s.watcher ≡ idle → WatchStep late_notice s (record s { watcher = reading })
    leaves_idle :
        s.watcher ≡ idle
        → s.state.publisher.closed ≡ true
        → WatchStep late_notice s (record s { watcher = ended })
    registers :
        (conn : ℕ)
        → s.watcher ≡ registering conn
        → WatchStep late_notice s
            (record s { watcher = place_registered late_notice conn s.state.publisher })
    leaves :
        (conn : ℕ) (n : Option (Option GoError))
        → s.watcher ≡ waiting conn n
        → s.state.publisher.closed ≡ true
        → WatchStep late_notice s (record s { watcher = ended })
    notices :
        (conn : ℕ) (n : Option GoError)
        → s.watcher ≡ waiting conn (some n)
        → WatchStep late_notice s (notice n s)
    checks : s.watcher ≡ checking → WatchStep late_notice s (check_closed s)
    wakes : s.watcher ≡ sleeping → WatchStep late_notice s (record s { watcher = connecting })
    gives_up :
        s.watcher ≡ sleeping
        → s.state.publisher.closed ≡ true
        → WatchStep late_notice s (leave_reconnect s)
    attempts : s.watcher ≡ connecting → WatchStep late_notice s (attempt client s)
    loses :
        (conn : ℕ) (e : GoError)
        → s.state.publisher.open_connection conn ≡ true
        → WatchStep late_notice s
            (record (with_publisher (close_connection conn s.state.publisher) s) {
              watcher = notify conn (some e) s.watcher;
            })
    shuts : WatchStep late_notice s (close_watched s)

  pub data WatchReach (late_notice : Option GoError) (s : Watched) : Watched → Type 0 where
    here : WatchReach late_notice s s
    next :
        {t u : Watched}
        → WatchReach late_notice s t
        → WatchStep late_notice t u
        → WatchReach late_notice s u

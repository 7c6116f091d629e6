-- ===== src/Consumer/Connection.antt =====
-- pkg/rabbitmq/consumer.go: `NewConsumer`, `connect`, `watchConnection`, `Check` and `Close`, with the
-- steps of the watcher and of the broker in any order. The log is left out, and so are the options of
-- the dial, which `connect` only hands on.
pub mod Single
pub mod Started
pub mod Health
pub mod Watching
pub mod Closing
use rabbitmq_go.Base.{
  ℕ, suc, ◌+◌, ◌==◌, Bool, true, false, Option, none, some, ◌≡◌, bytes, update, if◌then◌else◌,
}
use rabbitmq_go.Errors.{GoError, text}
use rabbitmq_go.Config.{Config, validate, normalize}
use rabbitmq_go.Reconnect.Watcher.{
  Watcher, not_started, reading, idle, registering, waiting, checking, sleeping, connecting, ended,
  notify,
}

-- The connection of a consumer, the connections that are open, and the end of its context.
pub record State : Type 0 where
  pub cfg : Config
  pub connection : Option ℕ
  pub open_connection : ℕ → Bool
  pub next_connection : ℕ
  pub reconnecting : Bool
  pub is_done : Bool
  pub watcher : Watcher
  -- the goroutines of `Dial` that still dial after its timeout, and the open connections that came
  -- from such goroutines, which nothing in the program can reach
  pub late : ℕ
  pub unowned : ℕ

-- How the broker answers one call of `connect`: the dial, with whether its error is the timeout
-- while the goroutine still dials, and the declaration of the exchange.
pub record Answer : Type 0 where
  pub dial : Option GoError
  pub is_late : Bool
  pub declare_exchange : Option GoError

abbrev pub lose : ℕ → Option GoError → State → State
lose conn why s = record s {
  open_connection = update s.open_connection conn false;
  watcher = notify conn why s.watcher;
}

-- `conn.Close()`: it tells the listeners no error, and does nothing to a closed connection.
abbrev pub close_connection : ℕ → State → State
close_connection conn s = if s.open_connection conn then lose conn none s else s

-- `c.connection = conn` for the connection that the dial gave.
abbrev pub dialed : State → State
dialed s = record s {
  connection = some s.next_connection;
  open_connection = update s.open_connection s.next_connection true;
  next_connection = s.next_connection + 1;
}

-- A dial that gave an error: after the timeout the goroutine of `Dial` goes on.
abbrev pub not_dialed : Answer → State → State
not_dialed a s = record s { late = if a.is_late then s.late + 1 else s.late }

-- `connect`; `none` is the nil error.
unfoldable pub connect : Answer → State → Option GoError × State
connect a s = elim a.dial [
  | some e ↦ (some e, not_dialed a s)
  | none ↦ if s.cfg.skip_exchange_declare then (none, dialed s) else elim a.declare_exchange [
    | some e ↦ (some e, close_connection s.next_connection (dialed s))
    | none ↦ (none, dialed s)
  ]
]

-- The consumer of `NewConsumer` before `connect`.
abbrev pub fresh : Config → Bool → State
fresh cfg done = record {
  cfg = cfg;
  connection = none;
  open_connection = λ _. false;
  next_connection = 0;
  reconnecting = false;
  is_done = done;
  watcher = not_started;
  late = 0;
  unowned = 0;
}

-- `cancel()` or `go c.watchConnection()`, by the error of `connect`.
abbrev pub start : Option GoError × State → Option GoError × State
start (some e, s) = (some e, record s { is_done = true })
start (none, s) = (none, record s { watcher = reading })

-- `NewConsumer`, with whether the context that it is given is done already.
unfoldable pub new_consumer : Answer → Config → Bool → Option GoError × State
unfolding connect
new_consumer a cfg done = elim (validate cfg) [
  | some e ↦ (some e, fresh cfg done)
  | none ↦ start (connect a (fresh (normalize cfg) done))
]

-- `Check`; the nil consumer is `none`.
unfoldable pub check : Option State → Option GoError
check none = some (text (bytes "rabbitmq: consumer is nil"))
check (some s) = elim s.connection [
  | none ↦ some (text (bytes "rabbitmq: connection is nil"))
  | some conn ↦
      if s.open_connection conn then none else some (text (bytes "rabbitmq: connection is closed"))
]

-- The read of `c.connection` at the top of the loop of `watchConnection`.
unfoldable pub read_connection : State → State
read_connection s = record s {
  watcher = elim s.connection [ none ↦ idle | some conn ↦ registering conn ];
}

-- `conn.NotifyClose(make(chan *amqp.Error, 1))`; `late_notice` is what a listener is told that
-- registers when the connection is closed already.
unfoldable pub register : Option GoError → ℕ → State → State
register late_notice conn s = record s {
  watcher = waiting conn (if s.open_connection conn then none else some late_notice);
}

-- The case of `closeErr`, up to the loop of `reconnect`.
unfoldable pub notice : Option GoError → State → State
notice none s = record s { watcher = ended }
notice (some e) s =
    if s.reconnecting
    then record s { watcher = reading }
    else record s { watcher = checking; reconnecting = true }

-- A return of `reconnect`.
abbrev pub leave_reconnect : State → State
leave_reconnect s = record s { watcher = reading; reconnecting = false }

-- The `select` with a default in `reconnect`.
unfoldable pub check_context : State → State
check_context s = if s.is_done then leave_reconnect s else record s { watcher = sleeping }

-- `connect` in `reconnect`, and what follows it: a return, or the next round.
abbrev pub after_connect : Option GoError × State → State
after_connect (none, s) = leave_reconnect s
after_connect (some e, s) = record s { watcher = checking }

unfoldable pub attempt : Answer → State → State
unfolding connect
attempt a s = after_connect (connect a s)

-- The end of `Close`, after `c.cancel()` and the wait for the sessions.
unfoldable pub close_current : State → State
close_current s = elim s.connection [ none ↦ s | some conn ↦ close_connection conn s ]

-- The steps of the watcher, of the broker, of the context's owner and of `Close`.
pub data Step (late_notice : Option GoError) (s : State) : State → Type 0 where
  reads : s.watcher ≡ reading → Step late_notice s (read_connection s)
  idles : s.watcher ≡ idle → Step late_notice s (record s { watcher = reading })
  leaves_idle :
      s.watcher ≡ idle → s.is_done ≡ true → Step late_notice s (record s { watcher = ended })
  registers :
      (conn : ℕ) → s.watcher ≡ registering conn → Step late_notice s (register late_notice conn s)
  leaves :
      (conn : ℕ) (n : Option (Option GoError))
      → s.watcher ≡ waiting conn n
      → s.is_done ≡ true
      → Step late_notice s (record s { watcher = ended })
  notices :
      (conn : ℕ) (n : Option GoError)
      → s.watcher ≡ waiting conn (some n)
      → Step late_notice s (notice n s)
  checks : s.watcher ≡ checking → Step late_notice s (check_context s)
  wakes : s.watcher ≡ sleeping → Step late_notice s (record s { watcher = connecting })
  gives_up : s.watcher ≡ sleeping → s.is_done ≡ true → Step late_notice s (leave_reconnect s)
  attempts : (a : Answer) → s.watcher ≡ connecting → Step late_notice s (attempt a s)
  -- the connection is lost
  loses :
      (conn : ℕ) (e : GoError)
      → s.open_connection conn ≡ true
      → Step late_notice s (lose conn (some e) s)
  cancels : Step late_notice s (record s { is_done = true })
  closes : s.is_done ≡ true → Step late_notice s (close_current s)
  -- a dial ends after its timeout, with a connection or without; such a connection is lost
  comes_late :
      (n : ℕ) → s.late ≡ suc n → Step late_notice s (record s { late = n; unowned = s.unowned + 1 })
  fails_late : (n : ℕ) → s.late ≡ suc n → Step late_notice s (record s { late = n })
  loses_late : (n : ℕ) → s.unowned ≡ suc n → Step late_notice s (record s { unowned = n })

pub data Reach (late_notice : Option GoError) (s : State) : State → Type 0 where
  here : Reach late_notice s s
  next : {t u : State} → Reach late_notice s t → Step late_notice t u → Reach late_notice s u

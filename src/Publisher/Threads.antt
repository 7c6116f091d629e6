-- ===== src/Publisher/Threads.antt =====
-- pkg/rabbitmq/pool.go and publisher.go: the calls of a publisher as threads that interleave. A step is
-- one section under a lock, one `select`, one call of the client, or one test of a flag. `connMu` is a
-- flag for its writers; the sections under `poolMu` are single steps. What is published, the log and
-- `channelMeta`, which only keeps times, are left out.

pub mod Moves
pub mod Counts
pub mod Sections
pub mod Listeners
pub mod Runs
pub mod Exclusive
pub mod Weights
pub mod Progress
pub mod Finishing
pub mod Alone
pub mod Atomic
use rabbitmq_go.Base.{
  update, ℕ, zero, suc, ◌+◌, ◌-◌, ◌<◌, ◌≤◌, ℤ, pos, ltb_ℤ, pos_part, Bool, true, false, not, ◌||◌,
  ◌&&◌, Option, none, some, List, [], ◌∷◌, ◌++◌, ◌≡◌, length, ◌==◌, if◌then◌else◌,
}
use rabbitmq_go.Config.{Config}
use rabbitmq_go.Publisher.{PooledChannel}

-- What the threads share.
pub record Shared : Type 0 where
  pub cfg : Config
  pub connection : Option ℕ
  -- `channelPool`, and what is left in the pools that it replaced
  pub pool : Option (List PooledChannel)
  pub retired : List PooledChannel
  pub closed : Bool
  pub conn_locked : Bool
  pub open_channel : ℕ → Bool
  -- the connection of a channel
  pub conn_of : ℕ → ℕ
  pub open_connection : ℕ → Bool
  -- the channels with a `NotifyReturn` listener
  pub listening : ℕ → Bool
  pub next_channel : ℕ
  pub next_connection : ℕ
  pub now : ℕ

-- Who borrows a channel: a publish, mandatory or not, or a caller of `GetChannel`.
pub data Caller : Type 0 where
  publishing : Bool → Caller
  lending : Caller

-- What a channel is opened for: a borrower, or the pool, in `warmChannelPool` with so many attempts after
-- this one.
pub data Job : Type 0 where
  borrowing : Caller → Job
  warming : ℕ → Job

-- Where a thread stands.
pub data Pc : Type 0 where
  -- `borrowChannel`: before the test of `closed`, before the `select`, and with an entry of the pool
  entering : Caller → Pc
  taking : Caller → Pc
  inspecting : Caller → PooledChannel → Pc
  -- `createConfirmChannel`: before the read of the connection, in `conn.Channel()`, in `ch.Confirm`
  opening : Job → Pc
  calling : Job → ℕ → Pc
  confirming : Job → ℕ → Pc
  -- its goroutine after the timeout
  late : ℕ → Pc
  -- with a borrowed channel, in `publish` or at the caller
  using : Caller → PooledChannel → Pc
  -- in `publish`, with a listener for returns on the channel
  heard : PooledChannel → Pc
  -- `returnPooled`: before its tests, before its `select`
  returning : PooledChannel → Pc
  storing : PooledChannel → Pc
  -- `warmChannelPool`, before its `select`
  warm_storing : ℕ → PooledChannel → Pc
  -- before `ch.Close()`, the last thing that it does
  discarding : ℕ → Pc
  -- the watcher: in `drainChannelPool`; in `reconnect`; in `establishConnection`, before the dial, after
  -- it, and in the drain of the old pool
  draining : Pc
  awaiting : Pc
  dialing : Pc
  dialed : Pc
  retiring : Pc
  -- `Close`: before the test of `closed`, before `connMu`, and in the drain
  closing : Pc
  close_waiting : Pc
  close_draining : Pc

abbrev pub idle : Shared → List PooledChannel
idle s = elim s.pool [ none ↦ [] | some l ↦ l ]

abbrev pub capacity : Shared → ℕ
capacity s = pos_part s.cfg.channel_pool_size

-- `conn == nil || conn.IsClosed()`.
abbrev pub is_disconnected : Shared → Bool
is_disconnected s = elim s.connection [ none ↦ true | some conn ↦ not (s.open_connection conn) ]

abbrev pub is_stale : Shared → PooledChannel → Bool
is_stale s pch =
    not (s.open_channel pch.ch) || ltb_ℤ s.cfg.max_channel_age (pos (s.now - pch.created_at))

abbrev pub close_channel : ℕ → Shared → Shared
close_channel ch s = record s { open_channel = update s.open_channel ch false }

-- The client opens a channel on a connection.
abbrev pub opened : ℕ → Shared → Shared
opened conn s = record s {
  open_channel = update s.open_channel s.next_channel true;
  conn_of = update s.conn_of s.next_channel conn;
  next_channel = s.next_channel + 1;
}

-- A connection is closed, by `Close` or from outside, and its channels with it.
abbrev pub shut_connection : ℕ → Shared → Shared
shut_connection conn s = record s {
  open_connection = update s.open_connection conn false;
  open_channel = λ i. s.open_channel i && not (s.conn_of i == conn);
}

abbrev pub connected : Shared → Shared
connected s = record s {
  connection = some s.next_connection;
  open_connection = update s.open_connection s.next_connection true;
  next_connection = s.next_connection + 1;
}

-- The next attempt of `warmChannelPool`, if there is one.
abbrev pub next_attempt : ℕ → List Pc
next_attempt zero = []
next_attempt (suc n) = opening (warming n) ∷ []

-- After `createConfirmChannel` returned nil: an error for the caller, or the next attempt.
abbrev pub after_failure : Job → List Pc
after_failure (warming n) = next_attempt n
after_failure (borrowing caller) = []

-- After it returned a channel.
abbrev pub after_creation : Job → PooledChannel → Pc
after_creation (warming n) pch = warm_storing n pch
after_creation (borrowing caller) pch = using caller pch

-- `conn.Close()` of a connection that may be missing.
abbrev pub shut_option : Option ℕ → Shared → Shared
shut_option none s = s
shut_option (some conn) s = shut_connection conn s

abbrev pub shut_current : Shared → Shared
shut_current s = shut_option s.connection s

-- ===== src/Publisher/Connection.antt =====
-- pkg/rabbitmq/publisher.go: `establishConnection`, `connect` and `Close`. The log is left out, and so
-- are the options of the dial, which it only hands on.
pub mod Accounts
use rabbitmq_go.Base.{
  update, ℕ, ◌+◌, Bool, true, false, Option, none, some, List, [], if◌then◌else◌,
}
use rabbitmq_go.Errors.{GoError}
use rabbitmq_go.Publisher.{PooledChannel, Publisher, Client, M}
use rabbitmq_go.Publisher.Pool.{drain, drain_channel_pool, warm_channel_pool}

-- `conn.Close()`.
abbrev pub close_connection : ℕ → Publisher → Publisher
close_connection conn p = record p { open_connection = update p.open_connection conn false }

-- `p.connection = conn` for the connection that the dial gave.
abbrev pub dialed : Publisher → Publisher
dialed p = record p {
  connection = some p.next_connection;
  open_connection = update p.open_connection p.next_connection true;
  next_connection = p.next_connection + 1;
  questions = p.questions + 1;
}

-- `drainPool(pool)`, where the publisher has another pool already.
abbrev pub drain_old : Option (List PooledChannel) → Publisher → Publisher
drain_old none p = p
drain_old (some pool) p = drain pool p

-- The new pool of `establishConnection`, and the drain of the old one.
unfoldable pub swap_pool : Publisher → Publisher
swap_pool p = drain_old p.channel_pool (record p { channel_pool = some [] })

-- `establishConnection`; `none` is the nil error.
unfoldable pub establish_connection : Client → M (Option GoError)
establish_connection client p = elim (client.dial p) [
  | some e ↦ (some e, record p { questions = p.questions + 1 })
  | none ↦
      let q = dialed p in
      if q.cfg.skip_exchange_declare
      then (none, swap_pool q)
      else elim (client.declare_exchange q) [
        | some e ↦ (some e, close_connection p.next_connection q)
        | none ↦ (none, swap_pool q)
      ]
]

-- `connect`.
unfoldable pub connect : Client → M (Option GoError)
connect client p =
    let (e, q) = establish_connection client p in
    elim e [ some e ↦ (some e, q) | none ↦ (none, warm_channel_pool client q) ]

-- The end of `Close`.
unfoldable pub close_current : Publisher → Publisher
close_current p = elim p.connection [ none ↦ p | some conn ↦ close_connection conn p ]

-- `Close`.
unfoldable pub close : Publisher → Publisher
close p = if p.closed then p else close_current (drain_channel_pool (record p { closed = true }))

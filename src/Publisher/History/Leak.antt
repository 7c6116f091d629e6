-- ===== src/Publisher/History/Leak.antt =====
-- pkg/rabbitmq/publisher.go: what `Close` releases, and what a reconnect that is under way opens again.
use rabbitmq_go.Base.{
  ℕ, zero, suc, ◌≤◌, true, false, none, some, List, [], ◌∷◌, ◌≡◌, refl, ap, ◌∙◌, arith, ◌⊎◌, inl,
  inr, Option-cases,
}
use rabbitmq_go.Publisher.{PooledChannel, Publisher, Client}
use rabbitmq_go.Publisher.Pool.{
  close_channel, forget, capacity, warm_one, warm, warm_channel_pool, drain, drain_channel_pool,
}
use rabbitmq_go.Publisher.Pool.Accounts.{one, Lent, Inv, idle}
use rabbitmq_go.Publisher.Pool.Filling.{drain_channel_pool_nil, drain_channel_pool_lem}
use rabbitmq_go.Publisher.Connection.{
  dialed, swap_pool, establish_connection, connect, close_current, close,
}
use rabbitmq_go.Publisher.Connection.Accounts.{
  close-Inv, close_closed, close_open, swap_pool_nil, swap_pool_lem,
}

-- The connection, its state and the mark of `Close` are the same.
pub record SameConnection (p q : Publisher) : Type 0 where
  pub connection : q.connection ≡ p.connection
  pub open_connection : q.open_connection ≡ p.open_connection
  pub closed : q.closed ≡ p.closed
  pub cfg : q.cfg ≡ p.cfg

trans : {p q r : Publisher} → SameConnection p q → SameConnection q r → SameConnection p r
trans a b = record {
  connection = b.connection ∙ a.connection;
  open_connection = b.open_connection ∙ a.open_connection;
  closed = b.closed ∙ a.closed;
  cfg = b.cfg ∙ a.cfg;
}

drain-SameConnection : (pool : List PooledChannel) (p : Publisher) → SameConnection p (drain pool p)
unfolding drain
drain-SameConnection [] p = record {
  connection = refl;
  open_connection = refl;
  closed = refl;
  cfg = refl;
}
drain-SameConnection (pch ∷ rest) p =
    let v = drain-SameConnection rest (forget pch.ch (close_channel pch.ch p)) in
    record {
      connection = v.connection;
      open_connection = v.open_connection;
      closed = v.closed;
      cfg = v.cfg;
    }

warm_one-SameConnection : (client : Client) (p : Publisher) → SameConnection p (warm_one client p)
unfolding warm_one
warm_one-SameConnection client p = ground arith

warm-SameConnection : (client : Client) (n : ℕ) (p : Publisher) → SameConnection p (warm client n p)
unfolding warm
warm-SameConnection client zero p = record {
  connection = refl;
  open_connection = refl;
  closed = refl;
  cfg = refl;
}
warm-SameConnection client (suc n) p =
    trans (warm_one-SameConnection client p) (warm-SameConnection client n (warm_one client p))

-- The pool of a drained publisher is empty.
drain-pool :
    (pool : List PooledChannel) (p : Publisher) → (drain pool p).channel_pool ≡ p.channel_pool
unfolding drain
drain-pool [] p = refl
drain-pool (pch ∷ rest) p = drain-pool rest (forget pch.ch (close_channel pch.ch p))

drain_channel_pool-idle : (p : Publisher) → idle (drain_channel_pool p) ≡ []
drain_channel_pool-idle p = elim (Option-cases p.channel_pool) [
  | inl nil ↦ rw (drain_channel_pool_nil p nil) (ground arith)
  | inr (pool, e) ↦
      rw (drain_channel_pool_lem p pool e)
        (ground (arith, drain-pool pool (record p { channel_pool = some [] })))
]

close_current-idle : (p : Publisher) → idle (close_current p) ≡ idle p
unfolding close_current
close_current-idle p = ground arith

close-idle : (p : Publisher) → p.closed ≡ false → idle (close p) ≡ []
close-idle p live =
    rw (close_open p live)
      (close_current-idle _ ∙ drain_channel_pool-idle (record p { closed = true }))

-- Let the accounts of a publisher that is not closed be in order. `Close` leaves its pool empty, and
-- a channel that is open then is one that a caller holds.
close_releases :
    (p : Publisher) (lent : Lent) (i : ℕ)
    → Inv p lent
    → p.closed ≡ false
    → (idle (close p) ≡ []) × (one ((close p).open_channel i) ≤ one (lent i))
close_releases p lent i v live =
    (close-idle p live, ground (arith, (close-Inv p lent v).accounted i, close-idle p live))

swap_pool-SameConnection : (p : Publisher) → SameConnection p (swap_pool p)
swap_pool-SameConnection p = elim (Option-cases p.channel_pool) [
  | inl nil ↦
      rw (swap_pool_nil p nil)
        (record { connection = refl; open_connection = refl; closed = refl; cfg = refl })
  | inr (pool, e) ↦
      let v = drain-SameConnection pool (record p { channel_pool = some [] }) in
      rw (swap_pool_lem p pool e) (record {
        connection = v.connection;
        open_connection = v.open_connection;
        closed = v.closed;
        cfg = v.cfg;
      })
]

-- The dial succeeds, and so does the declaration of the exchange, if there is one.
pub record Connects (client : Client) (p : Publisher) : Type 0 where
  pub dials : client.dial p ≡ none
  pub declares : (p.cfg.skip_exchange_declare ≡ true) ⊎ (client.declare_exchange (dialed p) ≡ none)

connect_succeeds :
    (client : Client) (p : Publisher)
    → Connects client p
    → connect client p ≡ (none, warm_channel_pool client (swap_pool (dialed p)))
unfolding connect establish_connection
connect_succeeds client p c = ground arith

-- Let a publisher be closed, and let the dial and the declaration of the exchange succeed. After
-- `connect`, as a reconnect calls it that tested `closeChan` before `Close`, the publisher is still
-- closed, it has a new connection, which is open, and `Close`, called again, changes nothing.
pub connect_after_close :
    (client : Client) (p : Publisher)
    → p.closed ≡ true
    → Connects client p
    → let q = (connect client p).1 in
      (q.closed ≡ true)
      × (q.connection ≡ some p.next_connection)
      × (q.open_connection p.next_connection ≡ true)
      × (close q ≡ q)
unfolding warm_channel_pool
connect_after_close client p shut c =
    let q = swap_pool (dialed p) in
    let v =
      trans (swap_pool-SameConnection (dialed p)) (warm-SameConnection client (capacity q) q) in
    rw (connect_succeeds client p c) (
      v.closed ∙ shut,
      v.connection,
      ap (λ f. f p.next_connection) v.open_connection ∙ ground arith,
      close_closed _ (v.closed ∙ shut),
    )

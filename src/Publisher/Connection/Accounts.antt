-- ===== src/Publisher/Connection/Accounts.antt =====
-- pkg/rabbitmq/publisher.go: connecting and closing keep the accounts of the channels.
use rabbitmq_go.Base.{
  ℕ, ◌+◌, Bool, true, false, none, some, List, [], ◌≡◌, refl, ap, arith, ◌⊎◌, inl, inr, Bool-cases,
  Option-cases,
}
use rabbitmq_go.Publisher.{PooledChannel, Publisher, Client}
use rabbitmq_go.Publisher.Pool.{capacity, drain, drain_channel_pool, warm_channel_pool}
use rabbitmq_go.Publisher.Pool.Accounts.{Lent, Inv}
use rabbitmq_go.Publisher.Pool.Filling.{drain-Inv, pool-Inv, drain_channel_pool-Inv, warm-Inv}
use rabbitmq_go.Publisher.Connection.{
  close_connection, dialed, swap_pool, establish_connection, connect, close_current, close,
}

-- The accounts are about the pool and the channels only.
same-Inv :
    (p q : Publisher) (lent : Lent)
    → q.channel_pool ≡ p.channel_pool
    → q.open_channel ≡ p.open_channel
    → q.next_channel ≡ p.next_channel
    → q.cfg ≡ p.cfg
    → Inv p lent
    → Inv q lent
same-Inv p q lent a b c d v = record {
  accounted = λ i. ground (arith, v.accounted i, ap (λ (f : ℕ → Bool). f i) b);
  bounded = ground (arith, v.bounded);
}

pub swap_pool_nil :
    (p : Publisher) → p.channel_pool ≡ none → swap_pool p ≡ record p { channel_pool = some [] }
unfolding swap_pool
swap_pool_nil p e = ground arith

pub swap_pool_lem :
    (p : Publisher) (pool : List PooledChannel)
    → p.channel_pool ≡ some pool
    → swap_pool p ≡ drain pool (record p { channel_pool = some [] })
unfolding swap_pool
swap_pool_lem p pool e = ground arith

first_pool-Inv :
    (p : Publisher) (lent : Lent)
    → p.channel_pool ≡ none
    → Inv p lent
    → Inv (record p { channel_pool = some [] }) lent
first_pool-Inv p lent e v = record {
  accounted = λ i. ground (arith, v.accounted i);
  bounded = omega arith;
}

swap_pool-Inv : (p : Publisher) (lent : Lent) → Inv p lent → Inv (swap_pool p) lent
swap_pool-Inv p lent v = elim (Option-cases p.channel_pool) [
  | inl nil ↦ rw (swap_pool_nil p nil) (first_pool-Inv p lent nil v)
  | inr (pool, e) ↦ rw (swap_pool_lem p pool e) (drain-Inv pool p lent (pool-Inv p lent pool e v))
]

-- The three states that `establishConnection` can leave.
establish_connection_cases :
    (client : Client) (p : Publisher)
    → ((establish_connection client p).1 ≡ record p { questions = p.questions + 1 })
      ⊎ ((establish_connection client p).1 ≡ close_connection p.next_connection (dialed p))
      ⊎ ((establish_connection client p).1 ≡ swap_pool (dialed p))
unfolding establish_connection
establish_connection_cases client p = ground arith

establish_connection-Inv :
    (client : Client) (p : Publisher) (lent : Lent)
    → Inv p lent
    → Inv (establish_connection client p).1 lent
establish_connection-Inv client p lent v = elim (establish_connection_cases client p) [
  | inl e ↦ rw e (same-Inv p _ lent refl refl refl refl v)
  | inr (inl e) ↦ rw e (same-Inv p _ lent refl refl refl refl v)
  | inr (inr e) ↦ rw e (swap_pool-Inv (dialed p) lent (same-Inv p _ lent refl refl refl refl v))
]

connect_cases :
    (client : Client) (p : Publisher)
    → ((connect client p).1 ≡ (establish_connection client p).1)
      ⊎ ((connect client p).1 ≡ warm_channel_pool client (establish_connection client p).1)
unfolding connect
connect_cases client p = ground arith

pub connect-Inv :
    (client : Client) (p : Publisher) (lent : Lent) → Inv p lent → Inv (connect client p).1 lent
unfolding warm_channel_pool
connect-Inv client p lent v =
    let v' = establish_connection-Inv client p lent v in
    elim (connect_cases client p) [
      | inl e ↦ rw e v'
      | inr e ↦ rw e (warm-Inv client (capacity (establish_connection client p).1) _ lent v')
    ]

pub close_current_nil : (p : Publisher) → p.connection ≡ none → close_current p ≡ p
unfolding close_current
close_current_nil p e = ground arith

pub close_current_lem :
    (p : Publisher) (conn : ℕ)
    → p.connection ≡ some conn
    → close_current p ≡ close_connection conn p
unfolding close_current
close_current_lem p conn e = ground arith

close_current-Inv : (p : Publisher) (lent : Lent) → Inv p lent → Inv (close_current p) lent
close_current-Inv p lent v = elim (Option-cases p.connection) [
  | inl nil ↦ rw (close_current_nil p nil) v
  | inr (conn, e) ↦ rw (close_current_lem p conn e) (same-Inv p _ lent refl refl refl refl v)
]

pub close_open :
    (p : Publisher)
    → p.closed ≡ false
    → close p ≡ close_current (drain_channel_pool (record p { closed = true }))
unfolding close
close_open p e = ground arith

pub close_closed : (p : Publisher) → p.closed ≡ true → close p ≡ p
unfolding close
close_closed p e = ground arith

pub close-Inv : (p : Publisher) (lent : Lent) → Inv p lent → Inv (close p) lent
close-Inv p lent v = elim (Bool-cases p.closed) [
  | inl shut ↦ rw (close_closed p shut) v
  | inr live ↦ rw (close_open p live) (
      close_current-Inv _ lent
        (drain_channel_pool-Inv _ lent (same-Inv p _ lent refl refl refl refl v)))
]

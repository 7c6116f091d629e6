-- ===== src/Publisher/Declare.antt =====
-- pkg/rabbitmq/publisher.go: `DeclareQueueTopology`, on a channel of the pool.
use rabbitmq_go.Base.{
  update, ℕ, Bool, true, false, not, ◌&&◌, Option, none, some, [], ◌≡◌, refl, ap, arith, Str,
}
use rabbitmq_go.Errors.{GoError, Result, ok, err}
use rabbitmq_go.Config.{Config}
use rabbitmq_go.Topology.{Calls, Channel, declare_queue_topology}
use rabbitmq_go.Topology.Order.{plan, carry, declare_queue_topology-carry}
use rabbitmq_go.Publisher.{PooledChannel, Publisher, Client}
use rabbitmq_go.Publisher.Pool.{borrow_channel, get_channel, return_channel}
use rabbitmq_go.Publisher.Pool.Accounts.{Lent, Inv, return_channel-Inv}
use rabbitmq_go.Publisher.Pool.Getting.{
  hold, get_channel_borrowed, get_channel_refused, get_channel-Inv,
}
use rabbitmq_go.Publisher.Publish.Channels.{same-Inv, Unlent, borrow_channel-Unlent}

abbrev pub error_of : {A : Type 0} → Result A → Option GoError
error_of (ok a) = none
error_of (err e) = some e

-- The broker may have closed the channel that the declarations ran on.
abbrev pub after_calls : Bool → ℕ → Publisher → Publisher
after_calls closes ch p = record p {
  open_channel = update p.open_channel ch (p.open_channel ch && not closes);
}

-- `DeclareQueueTopology` with the deferred `ReturnChannel`, where the channel answers the calls like
-- `channel`, and is closed in them or not.
unfoldable pub declare_topology :
    Client
    → Channel
    → (Str → Str)
    → Bool
    → Str
    → Str
    → Publisher
    → Option GoError × Calls × Publisher
declare_topology client channel quote closes queue_name routing_key p =
    let (r, q) = get_channel client p in
    elim r [
      | err e ↦ (some e, [], q)
      | ok ch ↦
          let (made, calls) =
            declare_queue_topology channel quote p.cfg queue_name routing_key [] in
          (error_of made, calls, return_channel (some ch) (after_calls closes ch q))
    ]

-- The error and the calls, by what `GetChannel` gave.
abbrev pub Declares :
    Channel → (Str → Str) → Config → Str → Str → Result ℕ → Option GoError → Calls → Type 0
Declares channel quote cfg queue_name routing_key (err why) e calls = (e ≡ some why) × (calls ≡ [])
Declares channel quote cfg queue_name routing_key (ok ch) e calls =
    let made = carry channel (plan quote cfg queue_name routing_key) [] in
    (e ≡ error_of made.0) × (calls ≡ made.1)

module _ (client : Client) (channel : Channel) (quote : Str → Str) (closes : Bool)
    (queue_name routing_key : Str) where
  declare_topology_refused :
      (p q : Publisher) (e : GoError)
      → get_channel client p ≡ (err e, q)
      → declare_topology client channel quote closes queue_name routing_key p ≡ (some e, [], q)
  unfolding declare_topology
  declare_topology_refused p q e h = ground arith

  declare_topology_lem :
      (p q : Publisher) (ch : ℕ)
      → get_channel client p ≡ (ok ch, q)
      → let made = declare_queue_topology channel quote p.cfg queue_name routing_key [] in
        declare_topology client channel quote closes queue_name routing_key p
        ≡ (error_of made.0, made.1, return_channel (some ch) (after_calls closes ch q))
  unfolding declare_topology
  declare_topology_lem p q ch h = ground arith

-- The channel that `GetChannel` gives was not held before.
abbrev Untaken : Lent → Result ℕ → Type 0
Untaken lent (ok ch) = lent ch ≡ false
Untaken lent (err e) = Unit {0}

get_from-Untaken :
    (client : Client) (p q : Publisher) (lent : Lent) (r : Result PooledChannel)
    → borrow_channel client p ≡ (r, q)
    → Unlent lent r
    → Untaken lent (get_channel client p).0
get_from-Untaken client p q lent (ok pch) e free = rw (get_channel_borrowed client p q pch e) free
get_from-Untaken client p q lent (err why) e free = rw (get_channel_refused client p q why e) tt

after_calls-Inv :
    (closes : Bool) (ch : ℕ) (p : Publisher) (lent : Lent)
    → Inv p lent
    → Inv (after_calls closes ch p) lent
after_calls-Inv closes ch p lent v = record {
  accounted = λ i. ground (arith, v.accounted i);
  bounded = v.bounded;
}

given_back-Inv :
    (closes : Bool) (ch : ℕ) (q : Publisher) (lent : Lent)
    → lent ch ≡ false
    → Inv q (update lent ch true)
    → Inv (return_channel (some ch) (after_calls closes ch q)) lent
given_back-Inv closes ch q lent free v =
    same-Inv _ _ lent (λ i. ground arith)
      (return_channel-Inv ch (after_calls closes ch q) (update lent ch true) (ground arith)
        (after_calls-Inv closes ch q (update lent ch true) v))

module _ (client : Client) (channel : Channel) (quote : Str → Str) (closes : Bool)
    (queue_name routing_key : Str) (p : Publisher) (lent : Lent) where
  abbrev made_by : Option GoError × Calls × Publisher
  made_by = declare_topology client channel quote closes queue_name routing_key p

  declare_from-Inv :
      (q : Publisher) (r : Result ℕ)
      → get_channel client p ≡ (r, q)
      → Untaken lent r
      → Inv q (hold lent r)
      → Inv made_by.2 lent
        × Declares channel quote p.cfg queue_name routing_key r made_by.0 made_by.1
  declare_from-Inv q (err why) e free v =
      rw (declare_topology_refused client channel quote closes queue_name routing_key p q why e)
        (v, (refl, refl))
  declare_from-Inv q (ok ch) e free v =
      let made = declare_queue_topology-carry channel quote p.cfg queue_name routing_key [] in
      rw (declare_topology_lem client channel quote closes queue_name routing_key p q ch e)
        (given_back-Inv closes ch q lent free v, (ap (λ m. error_of m.0) made, ap (λ m. m.1) made))

  -- `DeclareQueueTopology` keeps the accounts of the channels, with what callers hold as before: the
  -- channel that it borrows goes back to the pool or is closed, also when the broker closes it. If no
  -- channel can be had it makes no call and returns that error; else it makes the calls of the plan of
  -- the topology up to the first refusal, and returns that, or nil after all of them.
  declare_topology-Inv :
      Inv p lent
      → Inv made_by.2 lent
        × Declares channel quote p.cfg queue_name routing_key
            (get_channel client p).0
            made_by.0
            made_by.1
  declare_topology-Inv v =
      declare_from-Inv _ _ refl
        (get_from-Untaken client p _ lent _ refl (borrow_channel-Unlent client p lent v))
        (get_channel-Inv client p lent v)

-- ===== src/Publisher/History.antt =====
-- pkg/rabbitmq/publisher.go and pool.go: the histories of a publisher, as a step relation. The callers
-- call in any order; the broker and the network close channels and connections at any time; and the
-- watcher of the connection drains the pool and connects again. Each call is one step.
pub mod Leak
use rabbitmq_go.Base.{
  update, ℕ, ◌+◌, ◌≤◌, ℤ, Bool, true, false, Option, none, some, List, [], ◌∷◌, ◌≡◌, refl, subst,
  ap, sym, ◌∙◌, arith, length, tally, ◌==◌, if◌then◌else◌,
}
use rabbitmq_go.Errors.{GoError, Result, ok, err}
use rabbitmq_go.Config.{Config, normalize, instrumentation}
use rabbitmq_go.Consumer.{is_nop_instrumentation}
use rabbitmq_go.Publisher.{PooledChannel, PublishMessage, Publisher, Client}
use rabbitmq_go.Publisher.Pool.{
  borrow_channel, get_channel, return_channel, drain_channel_pool, capacity,
}
use rabbitmq_go.Publisher.Pool.Accounts.{
  Lent, Inv, Accounted, lend, idle, borrow_channel-Inv, return_channel-Inv,
}
use rabbitmq_go.Publisher.Pool.Getting.{hold, get_channel-Inv}
use rabbitmq_go.Publisher.Pool.Filling.{drain_channel_pool-Inv}
use rabbitmq_go.Publisher.Publish.{publish_message, Injection}
use rabbitmq_go.Publisher.Publish.Channels.{publish_message-Inv}
use rabbitmq_go.Publisher.Connection.{connect, close, close_connection}
use rabbitmq_go.Publisher.Connection.Accounts.{connect-Inv, close-Inv}

-- A publisher and the channels that callers hold through `GetChannel`.
pub record State : Type 0 where
  pub publisher : Publisher
  pub lent : Lent

-- The `publisher` of `NewPublisher` before its first `connect`.
unfoldable pub new_publisher : Config → Publisher
unfolding normalize instrumentation is_nop_instrumentation
new_publisher cfg = record {
  cfg = normalize cfg;
  instr_is_nop = is_nop_instrumentation (instrumentation (normalize cfg));
  connection = none;
  channel_pool = none;
  channel_meta = λ _. none;
  closed = false;
  open_channel = λ _. false;
  next_channel = 0;
  open_connection = λ _. false;
  next_connection = 0;
  now = 0;
  sent = [];
  questions = 0;
}

abbrev pub initial : Config → State
initial cfg = record { publisher = new_publisher cfg; lent = λ _. false }

module _ (client : Client) (inject : Injection) where
  pub data Step (s : State) : State → Type 0 where
    gets :
        (ch : ℕ)
        → (get_channel client s.publisher).0 ≡ ok ch
        → Step s (record {
          publisher = (get_channel client s.publisher).1;
          lent = update s.lent ch true;
        })
    get_fails :
        (e : GoError)
        → (get_channel client s.publisher).0 ≡ err e
        → Step s (record s { publisher = (get_channel client s.publisher).1 })
    -- a caller returns a channel that it holds
    puts_back :
        (ch : ℕ)
        → s.lent ch ≡ true
        → Step s (record {
          publisher = return_channel (some ch) s.publisher;
          lent = update s.lent ch false;
        })
    publishes :
        (msg : PublishMessage)
        → Step s (record s { publisher = (publish_message client inject msg s.publisher).1 })
    connects : Step s (record s { publisher = (connect client s.publisher).1 })
    drains : Step s (record s { publisher = drain_channel_pool s.publisher })
    closes : Step s (record s { publisher = close s.publisher })
    loses_channel :
        (ch : ℕ)
        → Step s (record s {
          publisher = record (s.publisher) {
            open_channel = update s.publisher.open_channel ch false;
          };
        })
    loses_connection :
        (conn : ℕ) → Step s (record s { publisher = close_connection conn s.publisher })
    waits : (n : ℕ) → Step s (record s { publisher = record (s.publisher) { now = n } })

  pub data Reach (s : State) : State → Type 0 where
    here : Reach s s
    next : {t u : State} → Reach s t → Step t u → Reach s u

  abbrev pub IsAccounted : State → Type 0
  IsAccounted s = Inv s.publisher s.lent

  Step-IsAccounted : {s t : State} → Step s t → IsAccounted s → IsAccounted t
  Step-IsAccounted {s} (gets ch e) v =
      subst (λ r. Inv (get_channel client s.publisher).1 (hold s.lent r)) e
        (get_channel-Inv client s.publisher s.lent v)
  Step-IsAccounted {s} (get_fails why e) v =
      subst (λ r. Inv (get_channel client s.publisher).1 (hold s.lent r)) e
        (get_channel-Inv client s.publisher s.lent v)
  Step-IsAccounted {s} (puts_back ch out) v = return_channel-Inv ch s.publisher s.lent out v
  Step-IsAccounted {s} (publishes msg) v =
      publish_message-Inv client inject msg s.publisher s.lent v
  Step-IsAccounted {s} connects v = connect-Inv client s.publisher s.lent v
  Step-IsAccounted {s} drains v = drain_channel_pool-Inv s.publisher s.lent v
  Step-IsAccounted {s} closes v = close-Inv s.publisher s.lent v
  Step-IsAccounted {s} (loses_channel ch) v = record {
    accounted = λ i. ground (arith, v.accounted i);
    bounded = v.bounded;
  }
  Step-IsAccounted {s} (loses_connection conn) v = record {
    accounted = λ i. ground (arith, v.accounted i);
    bounded = v.bounded;
  }
  Step-IsAccounted {s} (waits n) v = record {
    accounted = λ i. ground (arith, v.accounted i);
    bounded = v.bounded;
  }

  new_publisher-Inv : (cfg : Config) → IsAccounted (initial cfg)
  unfolding new_publisher
  new_publisher-Inv cfg = record { accounted = λ i. ground arith; bounded = omega arith }

  Reach-from : {s t : State} → IsAccounted s → Reach s t → IsAccounted t
  Reach-from v here = v
  Reach-from v (next r st) = Step-IsAccounted st (Reach-from v r)

  -- In every state that a new publisher can reach: each open channel is in the pool or held by a
  -- caller, none is in two places or twice in the pool, and the pool is within its capacity.
  pub Reach-IsAccounted : (cfg : Config) (s : State) → Reach (initial cfg) s → IsAccounted s
  Reach-IsAccounted cfg s r = Reach-from (new_publisher-Inv cfg) r

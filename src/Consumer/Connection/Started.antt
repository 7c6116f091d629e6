-- ===== src/Consumer/Connection/Started.antt =====
-- pkg/rabbitmq/consumer.go: what `NewConsumer` leaves.
use rabbitmq_go.Base.{Bool, none, some, ◌≡◌, refl, arith, inl, inr, Option-cases}
use rabbitmq_go.Errors.{GoError}
use rabbitmq_go.Config.{Config, validate, normalize}
use rabbitmq_go.Reconnect.Watcher.{not_started}
use rabbitmq_go.Consumer.Connection.{
  State, Answer, close_connection, dialed, not_dialed, connect, fresh, start, new_consumer,
}
use rabbitmq_go.Consumer.Connection.Single.{
  AllClosed, Knows, Single, connect_cases, dialed_only, redial-AllClosed,
}

idle-Knows : (s : State) → s.watcher ≡ not_started → Knows s.watcher s.connection s.open_connection
idle-Knows s e = rw e tt

start-Single :
    (a : Answer) (s : State)
    → s.watcher ≡ not_started
    → AllClosed s
    → Single (start (connect a s)).1
start-Single a s w v = elim (connect_cases a s) [
  | inl (e, r) ↦
      rw r (record {
        only = λ i o. absurd (ground (arith, v i));
        knows = idle-Knows (not_dialed a s) w;
      })
  | inr (inl r) ↦ rw r (record { only = dialed_only s v; knows = tt })
  | inr (inr (e, r)) ↦ rw r (record {
    only = λ i o. absurd (ground (arith, redial-AllClosed s v i));
    knows = idle-Knows (close_connection s.next_connection (dialed s)) (ground arith);
  })
]

fresh-Single : (cfg : Config) (done : Bool) → Single (fresh cfg done)
fresh-Single cfg done = record { only = λ i o. absurd cc; knows = tt }

pub new_consumer_refused :
    (a : Answer) (cfg : Config) (done : Bool) (e : GoError)
    → validate cfg ≡ some e
    → new_consumer a cfg done ≡ (some e, fresh cfg done)
unfolding new_consumer
new_consumer_refused a cfg done e h = ground arith

pub new_consumer_started :
    (a : Answer) (cfg : Config) (done : Bool)
    → validate cfg ≡ none
    → new_consumer a cfg done ≡ start (connect a (fresh (normalize cfg) done))
unfolding new_consumer
new_consumer_started a cfg done h = ground arith

pub new_consumer-Single :
    (a : Answer) (cfg : Config) (done : Bool) → Single (new_consumer a cfg done).1
new_consumer-Single a cfg done = elim (Option-cases (validate cfg)) [
  | inr (e, bad) ↦ rw (new_consumer_refused a cfg done e bad) (fresh-Single cfg done)
  | inl good ↦
      rw (new_consumer_started a cfg done good)
        (start-Single a (fresh (normalize cfg) done) refl (λ i. refl))
]

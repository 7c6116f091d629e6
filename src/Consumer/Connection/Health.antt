-- ===== src/Consumer/Connection/Health.antt =====
-- pkg/rabbitmq/consumer.go: what `Check` reports.
use rabbitmq_go.Base.{
  ℕ, Bool, true, false, Option, none, some, ◌≡◌, arith, inl, inr, ◌↔◌, bytes, Bool-cases,
}
use rabbitmq_go.Errors.{GoError, text}
use rabbitmq_go.Config.{Config}
use rabbitmq_go.Reconnect.Watcher.{}
use rabbitmq_go.Consumer.Connection.{State, Answer, new_consumer, check, Reach}
use rabbitmq_go.Consumer.Connection.Single.{Reach-Single}
use rabbitmq_go.Consumer.Connection.Started.{new_consumer-Single}

module _ (s : State) where
  pub check_open :
      (conn : ℕ) → s.connection ≡ some conn → s.open_connection conn ≡ true → check (some s) ≡ none
  unfolding check
  check_open conn e live = ground arith

  pub check_closed :
      (conn : ℕ)
      → s.connection ≡ some conn
      → s.open_connection conn ≡ false
      → check (some s) ≡ some (text (bytes "rabbitmq: connection is closed"))
  unfolding check
  check_closed conn e dead = ground arith

  current_if :
      check (some s) ≡ none → (conn : ℕ) → s.connection ≡ some conn → s.open_connection conn ≡ true
  current_if h conn e = elim (Bool-cases (s.open_connection conn)) [
    | inl live ↦ live
    | inr dead ↦ absurd (ground (arith, check_closed conn e dead))
  ]

-- In every state that a consumer can come to after `NewConsumer`, a connection that `Dial` has
-- returned to it is open if and only if it is the current one and `Check` returns nil. So at most one
-- of these is open; the connections that a dial makes after its timeout are not among them.
pub one_connection :
    (late_notice : Option GoError) (a : Answer) (cfg : Config) (done : Bool) (s : State) (i : ℕ)
    → Reach late_notice (new_consumer a cfg done).1 s
    → (s.open_connection i ≡ true) ↔ ((s.connection ≡ some i) × (check (some s) ≡ none))
one_connection late_notice a cfg done s i r =
    let v = Reach-Single (new_consumer-Single a cfg done) r in
    (
      λ live. (v.only i live, check_open s i (v.only i live) live),
      λ (e, fine). current_if s fine i e,
    )

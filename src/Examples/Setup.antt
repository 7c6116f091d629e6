-- ===== src/Examples/Setup.antt =====
-- Configurations, the topology of a queue, and reconnects.
use rabbitmq_go.Base.{
  ◌++◌, ◌*◌, pos, false, none, some, [], ◌∷◌, ◌≡◌, refl, arith, Str, bytes, true, length,
  if◌then◌else◌, ◌==◌,
}
use rabbitmq_go.Errors.{ok, amqp_error}
use rabbitmq_go.Amqp.{Table, get, string}
use rabbitmq_go.Config.{second}
use rabbitmq_go.Topology.{
  Channel, declare_queue_topology, declare_queue_args, declare_dead_letter, declare_queue,
}
use rabbitmq_go.Topology.Order.{plan, carry, declare_queue_topology-carry}
use rabbitmq_go.Topology.DeadLetter.{args_of, any, declares_direct, binds, dead_letter_route}
use rabbitmq_go.Reconnect.{fails, succeeds, connected, reconnect}
use rabbitmq_go.Reconnect.Backoff.{sleeps_of, failing, reconnect_sleeps}
use rabbitmq_go.Examples.{raw_config}

-- %q of a name with nothing to escape.
abbrev pub quote : Str → Str
quote s = bytes "\"" ++ (s ++ bytes "\"")

-- A broker that refuses each declaration after the first two calls.
abbrev pub refusing : Channel
refusing h c = if length h == 3 then some (amqp_error 406 (bytes "PRECONDITION_FAILED")) else none

declare_queue_topology-carry_example :
    declare_queue_topology refusing quote raw_config (bytes "created") (bytes "key") []
    ≡ carry refusing (plan quote raw_config (bytes "created") (bytes "key")) []
declare_queue_topology-carry_example =
    declare_queue_topology-carry refusing quote raw_config (bytes "created") (bytes "key") []

-- It stops at the queue itself, after four calls.
four_calls :
    length (declare_queue_topology refusing quote raw_config (bytes "created") (bytes "key") []).1
    ≡ 4
unfolding declare_queue_topology declare_queue_args declare_dead_letter declare_queue
four_calls = refl

abbrev pub accepting : Channel
accepting _ _ = none

dead_letter_route_example :
    let (r, calls) =
      declare_queue_topology accepting quote raw_config (bytes "created") (bytes "key") [] in
    (r ≡ ok tt)
    × ((args : Table) × (args_of (bytes "created") calls ≡ some args)
        × (get (bytes "x-dead-letter-exchange") args ≡ some (string (bytes "orders.dlx")))
        × (get (bytes "x-dead-letter-routing-key") args ≡ some (string (bytes "key"))))
    × (any (declares_direct (bytes "orders.dlx")) calls ≡ true)
    × (any (binds (bytes "created.dlq") (bytes "orders.dlx") (bytes "key")) calls ≡ true)
dead_letter_route_example =
    dead_letter_route accepting quote raw_config (bytes "created") (bytes "key") refl (λ _ _. refl)

reconnect_sleeps_example :
    (let sleeps = (reconnect (pos (3 * second)) false (fails ∷ fails ∷ [])).0 in
      sleeps ≡ sleeps_of (3 * second) second (length sleeps))
    × ((reconnect (pos (3 * second)) false (failing 2 (succeeds ∷ fails ∷ fails ∷ []))).1
        ≡ connected)
    × (length (reconnect (pos (3 * second)) false (failing 2 (succeeds ∷ fails ∷ fails ∷ []))).0
        ≡ 3)
reconnect_sleeps_example = reconnect_sleeps (3 * second) 2 (fails ∷ fails ∷ []) (omega arith)

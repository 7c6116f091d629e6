-- ===== src/Examples/Interleaving.antt =====
-- Calls of a publisher that interleave.
use rabbitmq_go.Base.{
  update, none, some, pos, ◌+◌, ◌*◌, ◌<◌, ◌≤◌, true, false, [], ◌∷◌, ◌≡◌, ◌⊎◌, refl, length, arith,
  tally,
}
use rabbitmq_go.Config.{Config}
use rabbitmq_go.Publisher.Threads.{
  opening, publishing, borrowing, warming, using, confirming, idle, capacity,
}
use rabbitmq_go.Publisher.Threads.Moves.{
  locks, dials, swaps, retired_all, reads, call_opens, confirms, warms, enters, takes, borrows,
  dial_fails, finds_none, listens,
}
use rabbitmq_go.Publisher.Threads.Counts.{holds, pooled}
use rabbitmq_go.Publisher.Threads.Runs.{
  System, initial, moves, begins, publishes, Reach, here, next,
}
use rabbitmq_go.Publisher.Threads.Exclusive.{exclusive, Kept, quiet, listener_alone}
use rabbitmq_go.Publisher.Threads.Listeners.{uses}
use rabbitmq_go.Publisher.Threads.Progress.{Progress}
use rabbitmq_go.Publisher.Threads.Finishing.{left, Moved, unmoved, moved, finishes}
use rabbitmq_go.Publisher.{Publisher}
use rabbitmq_go.Publisher.Publish.{publish_message}
use rabbitmq_go.Publisher.Threads.Alone.{Rest, shared_of}
use rabbitmq_go.Publisher.Threads.Atomic.{publish_message_runs}
use rabbitmq_go.Examples.{raw_config}
use rabbitmq_go.Examples.Sending.{client, order}

one_fits : 0 < 1
one_fits = omega arith

abbrev config : Config
config = record raw_config { channel_pool_size = pos 1; max_channel_age = pos 60 }

abbrev Reached : Type 0
Reached = (y : System) × Reach (initial config) y

-- `NewPublisher` has connected and is about to warm the pool.
abbrev dialed_now : Reached
unfolding initial
dialed_now = (
  _,
  next
      (next (next (next here (moves [] [] _ _ _ refl (locks refl))) (moves [] [] _ _ _ refl dials))
        (moves [] [] _ _ _ refl swaps))
      (moves [] [] _ _ _ refl (retired_all refl)),
)

-- The pool has its one channel, and no thread is left.
abbrev warmed : Reached
unfolding initial
warmed = (
  _,
  next
      (next
        (next (next dialed_now.1 (moves [] [] _ _ _ refl (reads (warming 0) 0 refl refl refl)))
          (moves [] [] _ _ _ refl (call_opens (warming 0) 0 refl)))
        (moves [] [] _ _ _ refl (confirms (warming 0) 0)))
      (moves [] [] _ _ _ refl (warms 0 _ [] refl one_fits)),
)

quiet_example :
    (warmed.0.shared.conn_locked ≡ false)
    × (warmed.0.shared.retired ≡ [])
    × (length (idle warmed.0.shared) ≤ capacity warmed.0.shared)
    × ((warmed.0.shared.open_channel 0 ≡ false) ⊎ Kept 0 warmed.0.shared)
unfolding initial
quiet_example = quiet config warmed.0 0 warmed.1 refl

-- A publish has borrowed that channel; another has found the pool empty and is opening a second one.
abbrev two_publish : Reached
unfolding initial
two_publish = (
  _,
  next
      (next
        (next
          (next
            (next
              (next
                (next
                  (next (next warmed.1 (begins _ (publishes false))) (begins _ (publishes true)))
                  (moves [] _ _ _ _ refl (enters (publishing true) refl)))
                (moves [] _ _ _ _ refl (takes (publishing true) _ [] refl)))
              (moves [] _ _ _ _ refl (borrows (publishing true) _ refl)))
            (moves (using (publishing true) _ ∷ []) [] _ _ _ refl (enters (publishing false) refl)))
          (moves (using (publishing true) _ ∷ []) [] _ _ _ refl
            (finds_none (publishing false) refl)))
        (moves (using (publishing true) _ ∷ []) [] _ _ _ refl
          (reads (borrowing (publishing false)) 0 refl refl refl)))
      (moves (using (publishing true) _ ∷ []) [] _ _ _ refl
        (call_opens (borrowing (publishing false)) 0 refl)),
)

exclusive_example :
    (tally (holds 0) (confirming (borrowing (publishing false)) 1 ∷ []) ≡ 0)
    × (pooled 0 two_publish.0.shared ≡ 0)
unfolding initial
exclusive_example =
    exclusive config two_publish.0 [] (confirming (borrowing (publishing false)) 1 ∷ []) _ 0
      two_publish.1 refl refl

-- The dial fails once, and connects then.
abbrev redialed : (z : System) × Moved (initial config) 4 1 z
unfolding initial
redialed = (
  _,
  moved [] [] _ _ _
      (moved [] [] _ _ _
        (moved [] [] _ _ _ (moved [] [] _ _ _ unmoved refl (locks refl)) refl dial_fails) refl
        (locks refl))
      refl dials,
)

finishes_example :
    (4 + left redialed.0 ≤ left (initial config) + 3 * 1)
    × ((redialed.0.threads ≡ []) ⊎ Progress redialed.0)
unfolding initial
finishes_example = finishes config (initial config) redialed.0 4 1 here redialed.1

-- The first of the two publishes has put a listener on its channel.
abbrev listened : Reached
unfolding initial
listened = (
  _,
  next two_publish.1
      (moves [] (confirming (borrowing (publishing false)) 1 ∷ []) _ _ _ refl (listens _)),
)

listener_alone_example : (pooled 0 listened.0.shared ≡ 0) × (tally (uses 0) listened.0.threads ≡ 0)
unfolding initial
listener_alone_example = listener_alone config listened.0 0 listened.1 refl

-- A publisher with a pool that is still empty: `NewPublisher` is about to warm it.
abbrev fresh : Publisher
fresh = record {
  cfg = config;
  instr_is_nop = true;
  connection = some 0;
  channel_pool = some [];
  channel_meta = λ _. none;
  closed = false;
  open_channel = λ _. false;
  next_channel = 0;
  open_connection = update (λ _. false) 0 true;
  next_connection = 1;
  now = 0;
  sent = [];
  questions = 0;
}

abbrev unlinked : Rest
unlinked = record { conn_of = λ _. 0; listening = λ _. false }

fresh_reached :
    Reach
      (initial config)
      (record { shared = shared_of unlinked fresh; threads = opening (warming 0) ∷ [] })
unfolding initial
fresh_reached = dialed_now.1

publish_message_runs_example :
    (w' : Rest) × Reach (initial config) (record {
      shared = shared_of w' (publish_message client (λ _ t. t) order fresh).1;
      threads = opening (warming 0) ∷ [];
    })
publish_message_runs_example =
    publish_message_runs client (λ _ t. t) config unlinked fresh order (opening (warming 0) ∷ [])
      fresh_reached

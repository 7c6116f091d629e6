-- ===== src/Examples/Stopping.antt =====
-- A call of `Consume` and a call of `Close`.
use rabbitmq_go.Base.{◌+◌, ◌≤◌, true, [], ◌∷◌, ◌≡◌, ◌⊎◌, refl, tally}
use rabbitmq_go.Consumer.Stopping.{
  waiting, serving, adds, starts, ends, leaves, cancels, passes, System, initial, moves, consumes,
  closes, Reach, here, next,
}
use rabbitmq_go.Consumer.Stopping.Stopped.{is_serving, close_stops}
use rabbitmq_go.Consumer.Stopping.Returning.{left, Moved, unmoved, moved, Progress, calls_return}

abbrev Reached : Type 0
Reached = (y : System) × Reach initial y

-- A session runs, and `Close` has canceled the context.
abbrev canceled_now : Reached
canceled_now = (
  _,
  next
      (next
        (next (next (next here consumes) (moves [] [] _ _ _ refl adds))
          (moves [] [] _ _ _ refl (starts refl)))
        closes)
      (moves [] (serving ∷ []) _ _ _ refl cancels),
)

abbrev waited_now : Reached
waited_now = (
  _,
  next
      (next (next canceled_now.1 (moves (waiting ∷ []) [] _ _ _ refl ends))
        (moves (waiting ∷ []) [] _ _ _ refl (leaves 0 refl)))
      (moves [] [] _ _ _ refl (passes refl)),
)

close_stops_example :
    (tally is_serving waited_now.0.threads ≡ 0) × (waited_now.0.shared.canceled ≡ true)
close_stops_example = close_stops waited_now.0 waited_now.1 refl

abbrev ended_now : (z : System) × Moved canceled_now.0 1 z
ended_now = (_, moved (waiting ∷ []) [] _ _ _ unmoved refl ends)

calls_return_example :
    (1 + left ended_now.0.threads ≤ left canceled_now.0.threads)
    × ((ended_now.0.threads ≡ []) ⊎ Progress ended_now.0)
calls_return_example = calls_return canceled_now.0 ended_now.0 1 canceled_now.1 refl ended_now.1

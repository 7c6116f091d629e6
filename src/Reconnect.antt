-- ===== src/Reconnect.antt =====
-- pkg/rabbitmq/publisher.go and consumer.go: the loop of `reconnect`, which both have in the same form.
-- Durations are 64-bit numbers of nanoseconds.
pub mod Backoff
pub mod Watcher
use rabbitmq_go.Base.{ℕ, zero, suc, ℤ, ltb_ℤ, double_int, Bool, List, [], ◌∷◌, if◌then◌else◌}
use rabbitmq_go.Config.{initial_reconnect_backoff}

-- What happens in one round of the loop: the client was stopped before it, or in its sleep, or it
-- tries to connect and fails or succeeds.
pub data Round : Type 0 where
  stopped : Round
  stopped_asleep : Round
  fails : Round
  succeeds : Round

-- How the loop ends; `unfinished` is the end of the rounds that are given.
pub data End : Type 0 where
  gave_up : End
  connected : End
  unfinished : End

-- `backoff *= 2`, capped.
unfoldable pub next_backoff : ℤ → ℤ → ℤ
next_backoff max backoff =
    let doubled = double_int backoff in if ltb_ℤ max doubled then max else doubled

-- The loop, from a backoff on: the sleeps that it asks for, and its end.
unfoldable pub loop : ℤ → ℤ → List Round → List ℤ × End
loop max backoff [] = ([], unfinished)
loop max backoff (stopped ∷ rounds) = ([], gave_up)
loop max backoff (stopped_asleep ∷ rounds) = (backoff ∷ [], gave_up)
loop max backoff (succeeds ∷ rounds) = (backoff ∷ [], connected)
loop max backoff (fails ∷ rounds) =
    let (sleeps, end) = loop max (next_backoff max backoff) rounds in (backoff ∷ sleeps, end)

-- `reconnect`, with `ReconnectMaxBackoff` and whether another call is under way.
unfoldable pub reconnect : ℤ → Bool → List Round → List ℤ × End
unfolding loop
reconnect max reconnecting rounds =
    if reconnecting then ([], gave_up) else loop max initial_reconnect_backoff rounds

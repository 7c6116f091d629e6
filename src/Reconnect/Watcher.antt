-- ===== src/Reconnect/Watcher.antt =====
-- pkg/rabbitmq/consumer.go and publisher.go: the places of the goroutine of `watchConnection`, which
-- both have in the same form.
use rabbitmq_go.Base.{
  ℕ, ◌==◌, Bool, true, false, Option, none, some, ◌≡◌, refl, arith, if◌then◌else◌,
}
use rabbitmq_go.Errors.{GoError}

-- Where the goroutine of `watchConnection` is. A watcher that waits has what is in the channel that it
-- gave `NotifyClose`: an error, or `some none` for a channel that was closed with no error in it.
pub data Watcher : Type 0 where
  not_started : Watcher
  reading : Watcher
  idle : Watcher
  registering : ℕ → Watcher
  waiting : ℕ → Option (Option GoError) → Watcher
  -- in `reconnect`: at the test of the context, in the sleep, and between the sleep and `connect`
  checking : Watcher
  sleeping : Watcher
  connecting : Watcher
  ended : Watcher

-- A connection is closed; its listeners are told why.
abbrev pub notify : ℕ → Option GoError → Watcher → Watcher
notify conn why (waiting c none) = if conn == c then waiting c (some why) else waiting c none
notify conn why w = w

-- A watcher that will be told nothing but that its channel is closed.
abbrev pub is_deaf : ℕ → Watcher → Bool
is_deaf conn (registering c) = c == conn
is_deaf conn (waiting c (some none)) = true
is_deaf conn ended = true
is_deaf conn _ = false

pub notify-is_deaf :
    (conn c : ℕ) (why : Option GoError) (w : Watcher)
    → is_deaf conn w ≡ true
    → is_deaf conn (notify c why w) ≡ true
notify-is_deaf conn c why (registering j) e = e
notify-is_deaf conn c why (waiting j none) e = absurd cc
notify-is_deaf conn c why (waiting j (some none)) e = refl
notify-is_deaf conn c why (waiting j (some (some n))) e = absurd cc
notify-is_deaf conn c why ended e = refl
notify-is_deaf conn c why reading e = absurd cc
notify-is_deaf conn c why idle e = absurd cc
notify-is_deaf conn c why checking e = absurd cc
notify-is_deaf conn c why sleeping e = absurd cc
notify-is_deaf conn c why connecting e = absurd cc
notify-is_deaf conn c why not_started e = absurd cc

-- Is the watcher in a round of `reconnect`, past the test of the context?
abbrev pub in_round : Watcher → Bool
in_round sleeping = true
in_round connecting = true
in_round _ = false

pub notify-in_round :
    (w : Watcher) (conn : ℕ) (why : Option GoError) → in_round (notify conn why w) ≡ in_round w
notify-in_round not_started conn why = refl
notify-in_round reading conn why = refl
notify-in_round idle conn why = refl
notify-in_round (registering c) conn why = refl
notify-in_round (waiting c none) conn why = ground arith
notify-in_round (waiting c (some n)) conn why = refl
notify-in_round checking conn why = refl
notify-in_round sleeping conn why = refl
notify-in_round connecting conn why = refl
notify-in_round ended conn why = refl

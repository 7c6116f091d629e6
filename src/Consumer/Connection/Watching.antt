-- ===== src/Consumer/Connection/Watching.antt =====
-- pkg/rabbitmq/consumer.go: when the watcher ends, and what a loss before it listens does.
use rabbitmq_go.Base.{
  ℕ, Bool, true, false, Option, none, some, ◌≡◌, refl, subst, ◌∙◌, arith, ◌⊎◌, inl, inr, bytes,
  Option-cases,
}
use rabbitmq_go.Errors.{GoError, text}
use rabbitmq_go.Config.{Config, validate, normalize}
use rabbitmq_go.Reconnect.Watcher.{
  Watcher, not_started, reading, idle, registering, waiting, checking, sleeping, connecting, ended,
  notify, is_deaf, notify-is_deaf,
}
use rabbitmq_go.Consumer.Connection.{
  State, Answer, lose, connect, fresh, start, new_consumer, check, read_connection, register,
  notice, check_context, attempt, close_current, Step, reads, idles, leaves_idle, registers, leaves,
  notices, checks, wakes, gives_up, attempts, loses, cancels, closes, comes_late, fails_late,
  loses_late, Reach, here, next,
}
use rabbitmq_go.Consumer.Connection.Single.{Single, connect_cases, at, Reach-Single}
use rabbitmq_go.Consumer.Connection.Started.{
  new_consumer_refused, new_consumer_started, new_consumer-Single,
}
use rabbitmq_go.Consumer.Connection.Health.{check_closed}

record Dead (conn : ℕ) (s : State) : Type 0 where
  current : s.connection ≡ some conn
  lost : s.open_connection conn ≡ false
  deaf : is_deaf conn s.watcher ≡ true

lose-Dead : (conn c : ℕ) (why : Option GoError) (s : State) → Dead conn s → Dead conn (lose c why s)
lose-Dead conn c why s v = record {
  current = v.current;
  lost = ground (arith, v.lost);
  deaf = notify-is_deaf conn c why s.watcher v.deaf;
}

close_current-Dead : (conn : ℕ) (s : State) → Dead conn s → Dead conn (close_current s)
unfolding close_current
close_current-Dead conn s v = subst (Dead conn) (ground (arith, v.current, v.lost)) v

register-Dead :
    (conn c : ℕ) (s : State)
    → s.watcher ≡ registering c
    → Dead conn s
    → Dead conn (register none c s)
unfolding register
register-Dead conn c s e v = record {
  current = v.current;
  lost = v.lost;
  deaf = ground (arith, v.deaf, v.lost);
}

notice-Dead :
    (conn c : ℕ) (n : Option GoError) (s : State)
    → s.watcher ≡ waiting c (some n)
    → Dead conn s
    → Dead conn (notice n s)
unfolding notice
notice-Dead conn c none s e v = record { current = v.current; lost = v.lost; deaf = refl }
notice-Dead conn c (some x) s e v = absurd (ground (arith, v.deaf))

Step-Dead : {conn : ℕ} {s t : State} → Dead conn s → Step none s t → Dead conn t
Step-Dead v (reads e) = absurd (ground (arith, v.deaf))
Step-Dead v (idles e) = absurd (ground (arith, v.deaf))
Step-Dead v (leaves_idle e d) = absurd (ground (arith, v.deaf))
Step-Dead {conn} {s} v (registers c e) = register-Dead conn c s e v
Step-Dead v (leaves c n e d) = record { current = v.current; lost = v.lost; deaf = refl }
Step-Dead {conn} {s} v (notices c n e) = notice-Dead conn c n s e v
Step-Dead v (checks e) = absurd (ground (arith, v.deaf))
Step-Dead v (wakes e) = absurd (ground (arith, v.deaf))
Step-Dead v (gives_up e d) = absurd (ground (arith, v.deaf))
Step-Dead v (attempts a e) = absurd (ground (arith, v.deaf))
Step-Dead {conn} {s} v (loses c e live) = lose-Dead conn c (some e) s v
Step-Dead v cancels = record { current = v.current; lost = v.lost; deaf = v.deaf }
Step-Dead {conn} {s} v (closes d) = close_current-Dead conn s v
Step-Dead v (comes_late n e) = record { current = v.current; lost = v.lost; deaf = v.deaf }
Step-Dead v (fails_late n e) = record { current = v.current; lost = v.lost; deaf = v.deaf }
Step-Dead v (loses_late n e) = record { current = v.current; lost = v.lost; deaf = v.deaf }

Reach-Dead : {conn : ℕ} {s t : State} → Dead conn s → Reach none s t → Dead conn t
Reach-Dead v here = v
Reach-Dead v (next r st) = Step-Dead (Reach-Dead v r) st

-- If `NotifyClose` on a closed connection only closes the channel that it is given, then a consumer
-- whose connection is lost before the watcher calls `NotifyClose` on it never connects again: `Check`
-- reports the closed connection in every later state.
pub lost_before_watch :
    (s t : State) (conn : ℕ)
    → s.watcher ≡ registering conn
    → s.connection ≡ some conn
    → s.open_connection conn ≡ false
    → Reach none s t
    → (t.connection ≡ some conn)
      × (check (some t) ≡ some (text (bytes "rabbitmq: connection is closed")))
lost_before_watch s t conn w current lost r =
    let start : Dead conn s = record { current = current; lost = lost; deaf = ground arith } in
    let v = Reach-Dead start r in (v.current, check_closed t conn v.current v.lost)

-- The watcher has ended, or has only its end to read.
abbrev pub at_end : Watcher → Bool
at_end (waiting c (some none)) = true
at_end ended = true
at_end _ = false

-- The current connection is there, and closed.
abbrev IsLost : State → Type 0
IsLost s = (conn : ℕ) × (s.connection ≡ some conn) × (s.open_connection conn ≡ false)

-- Only after the end of the context, or with a connection that is closed, if a late listener is told
-- no error.
abbrev EndsLast : Option GoError → State → Type 0
EndsLast late_notice s =
    at_end s.watcher ≡ true → (s.is_done ≡ true) ⊎ ((late_notice ≡ none) × IsLost s)

notify-at_end :
    (c : ℕ) (e : GoError) (w : Watcher) → at_end (notify c (some e) w) ≡ true → at_end w ≡ true
notify-at_end c e (waiting j none) h = ground arith
notify-at_end c e (waiting j (some none)) h = refl
notify-at_end c e (waiting j (some (some n))) h = absurd cc
notify-at_end c e ended h = refl
notify-at_end c e (registering j) h = absurd cc
notify-at_end c e reading h = absurd cc
notify-at_end c e idle h = absurd cc
notify-at_end c e checking h = absurd cc
notify-at_end c e sleeping h = absurd cc
notify-at_end c e connecting h = absurd cc
notify-at_end c e not_started h = absurd cc

lose-EndsLast :
    (late_notice : Option GoError) (c : ℕ) (e : GoError) (s : State)
    → EndsLast late_notice s
    → EndsLast late_notice (lose c (some e) s)
lose-EndsLast late_notice c e s v h = elim (v (notify-at_end c e s.watcher h)) [
  | inl done ↦ inl done
  | inr (silent, (conn, current, lost)) ↦ inr (silent, (conn, current, ground (arith, lost)))
]

read-EndsLast :
    (late_notice : Option GoError) (s : State) → EndsLast late_notice (read_connection s)
unfolding read_connection
read-EndsLast late_notice s h = absurd (ground arith)

register-EndsLast :
    (late_notice : Option GoError) (c : ℕ) (s : State)
    → s.connection ≡ some c
    → EndsLast late_notice (register late_notice c s)
unfolding register
register-EndsLast none c s current h = inr (refl, (c, current, ground arith))
register-EndsLast (some e) c s current h = absurd (ground arith)

notice-EndsLast :
    (late_notice : Option GoError) (c : ℕ) (n : Option GoError) (s : State)
    → s.watcher ≡ waiting c (some n)
    → EndsLast late_notice s
    → EndsLast late_notice (notice n s)
unfolding notice
notice-EndsLast late_notice c none s e v h = v (ground arith)
notice-EndsLast late_notice c (some x) s e v h = absurd (ground arith)

check_context-EndsLast :
    (late_notice : Option GoError) (s : State) → EndsLast late_notice (check_context s)
unfolding check_context
check_context-EndsLast late_notice s h = absurd (ground arith)

attempt-EndsLast :
    (late_notice : Option GoError) (a : Answer) (s : State) → EndsLast late_notice (attempt a s)
unfolding attempt
attempt-EndsLast late_notice a s h = elim (connect_cases a s) [
  | inl (e, r) ↦ absurd (ground (arith, h, r))
  | inr (inl r) ↦ absurd (ground (arith, h, r))
  | inr (inr (e, r)) ↦ absurd (ground (arith, h, r))
]

close_current-is_done : (s : State) → (close_current s).is_done ≡ s.is_done
unfolding close_current
close_current-is_done s = ground arith

Step-EndsLast :
    {late_notice : Option GoError} {s t : State}
    → Single s
    → EndsLast late_notice s
    → Step late_notice s t
    → EndsLast late_notice t
Step-EndsLast {late_notice} {s} k v (reads p) = read-EndsLast late_notice s
Step-EndsLast k v (idles p) = λ h. absurd cc
Step-EndsLast k v (leaves_idle p d) = λ h. inl d
Step-EndsLast {late_notice} {s} k v (registers c p) =
    register-EndsLast late_notice c s (at s (registering c) p k)
Step-EndsLast k v (leaves c n p d) = λ h. inl d
Step-EndsLast {late_notice} {s} k v (notices c n p) = notice-EndsLast late_notice c n s p v
Step-EndsLast {late_notice} {s} k v (checks p) = check_context-EndsLast late_notice s
Step-EndsLast k v (wakes p) = λ h. absurd cc
Step-EndsLast k v (gives_up p d) = λ h. absurd cc
Step-EndsLast {late_notice} {s} k v (attempts a p) = attempt-EndsLast late_notice a s
Step-EndsLast {late_notice} {s} k v (loses c x live) = lose-EndsLast late_notice c x s v
Step-EndsLast k v cancels = λ h. inl refl
Step-EndsLast {s = s} k v (closes d) = λ h. inl (close_current-is_done s ∙ d)
Step-EndsLast k v (comes_late n p) = v
Step-EndsLast k v (fails_late n p) = v
Step-EndsLast k v (loses_late n p) = v

Reach-EndsLast :
    {late_notice : Option GoError} {s t : State}
    → Single s
    → EndsLast late_notice s
    → Reach late_notice s t
    → EndsLast late_notice t
Reach-EndsLast k v here = v
Reach-EndsLast k v (next r st) = Step-EndsLast (Reach-Single k r) (Reach-EndsLast k v r) st

start-EndsLast :
    (late_notice : Option GoError) (a : Answer) (s : State)
    → s.watcher ≡ not_started
    → EndsLast late_notice (start (connect a s)).1
start-EndsLast late_notice a s w h = elim (connect_cases a s) [
  | inl (e, r) ↦ inl (rw r refl)
  | inr (inl r) ↦ absurd (ground (arith, h, r))
  | inr (inr (e, r)) ↦ inl (rw r refl)
]

new_consumer-EndsLast :
    (late_notice : Option GoError) (a : Answer) (cfg : Config) (done : Bool)
    → EndsLast late_notice (new_consumer a cfg done).1
new_consumer-EndsLast late_notice a cfg done = elim (Option-cases (validate cfg)) [
  | inr (e, bad) ↦ rw (new_consumer_refused a cfg done e bad) (λ h. absurd cc)
  | inl good ↦
      rw (new_consumer_started a cfg done good)
        (start-EndsLast late_notice a (fresh (normalize cfg) done) refl)
]

-- The watcher of a consumer ends only when the context is done; or, if a listener that registers on a
-- closed connection is told no error, when the current connection is closed, as `Check` reports.
pub watcher_ends :
    (late_notice : Option GoError) (a : Answer) (cfg : Config) (done : Bool) (s : State)
    → Reach late_notice (new_consumer a cfg done).1 s
    → s.watcher ≡ ended
    → (s.is_done ≡ true)
      ⊎ ((late_notice ≡ none)
          × (check (some s) ≡ some (text (bytes "rabbitmq: connection is closed"))))
watcher_ends late_notice a cfg done s r w =
    let k = new_consumer-Single a cfg done in
    elim (Reach-EndsLast k (new_consumer-EndsLast late_notice a cfg done) r (ground arith)) [
      | inl over ↦ inl over
      | inr (silent, (conn, current, lost)) ↦ inr (silent, check_closed s conn current lost)
    ]

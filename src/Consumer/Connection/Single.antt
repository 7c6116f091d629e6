-- ===== src/Consumer/Connection/Single.antt =====
-- pkg/rabbitmq/consumer.go: a consumer has one connection at most, and the watcher waits on it.
use rabbitmq_go.Base.{
  ℕ, Bool, true, false, Option, none, some, ◌≡◌, refl, sym, subst, ◌∙◌, arith, ◌⊎◌, inl, inr,
  update, Bool-cases, Option-cases,
}
use rabbitmq_go.Errors.{GoError}
use rabbitmq_go.Reconnect.Watcher.{
  Watcher, not_started, reading, idle, registering, waiting, checking, sleeping, connecting, ended,
  notify,
}
use rabbitmq_go.Consumer.Connection.{
  State, Answer, lose, close_connection, dialed, not_dialed, connect, read_connection, register,
  notice, leave_reconnect, check_context, attempt, close_current, Step, reads, idles, leaves_idle,
  registers, leaves, notices, checks, wakes, gives_up, attempts, loses, cancels, closes, comes_late,
  fails_late, loses_late, Reach, here, next,
}

-- All connections are closed.
abbrev pub AllClosed : State → Type 0
AllClosed s = (i : ℕ) → s.open_connection i ≡ false

-- What the place of the watcher says of the current connection and of the open ones.
abbrev pub Knows : Watcher → Option ℕ → (ℕ → Bool) → Type 0
Knows (registering conn) current live = current ≡ some conn
Knows (waiting conn none) current live = (current ≡ some conn) × (live conn ≡ true)
Knows (waiting conn (some n)) current live = (current ≡ some conn) × (live conn ≡ false)
Knows checking current live = (i : ℕ) → live i ≡ false
Knows sleeping current live = (i : ℕ) → live i ≡ false
Knows connecting current live = (i : ℕ) → live i ≡ false
Knows _ current live = Unit

-- Only the current connection can be open.
pub record Single (s : State) : Type 0 where
  pub only : (i : ℕ) → s.open_connection i ≡ true → s.connection ≡ some i
  pub knows : Knows s.watcher s.connection s.open_connection

-- The loss of an open connection.
lose-Knows :
    (w : Watcher) (s : State) (conn : ℕ) (why : Option GoError)
    → Knows w s.connection s.open_connection
    → Knows (notify conn why w) s.connection (update s.open_connection conn false)
lose-Knows not_started s conn why k = tt
lose-Knows reading s conn why k = tt
lose-Knows idle s conn why k = tt
lose-Knows (registering c) s conn why k = k
lose-Knows (waiting c none) s conn why k = ground arith
lose-Knows (waiting c (some n)) s conn why k = ground arith
lose-Knows checking s conn why k = λ i. ground (arith, k i)
lose-Knows sleeping s conn why k = λ i. ground (arith, k i)
lose-Knows connecting s conn why k = λ i. ground (arith, k i)
lose-Knows ended s conn why k = tt

lose-Single : (s : State) (conn : ℕ) (why : Option GoError) → Single s → Single (lose conn why s)
lose-Single s conn why v = record {
  only = λ i o. ground (arith, v.only i);
  knows = lose-Knows s.watcher s conn why v.knows;
}

-- The ways in which `connect` ends.
pub connect_cases :
    (a : Answer) (s : State)
    → ((e : GoError) × (connect a s ≡ (some e, not_dialed a s)))
      ⊎ (connect a s ≡ (none, dialed s))
      ⊎ ((e : GoError) × (connect a s ≡ (some e, close_connection s.next_connection (dialed s))))
unfolding connect
connect_cases a s = elim (Option-cases a.dial) [
  | inr (e, off) ↦ inl (e, ground arith)
  | inl on ↦ elim (Bool-cases s.cfg.skip_exchange_declare) [
    | inl skip ↦ inr (inl (ground arith))
    | inr asks ↦ elim (Option-cases a.declare_exchange) [
      | inl fine ↦ inr (inl (ground arith))
      | inr (e, refused) ↦ inr (inr (e, ground arith))
    ]
  ]
]

pub dialed_only :
    (s : State)
    → AllClosed s
    → (i : ℕ) → (dialed s).open_connection i ≡ true
    → (dialed s).connection ≡ some i
dialed_only s v i o = ground (arith, v i)

pub redial-AllClosed :
    (s : State) → AllClosed s → AllClosed (close_connection s.next_connection (dialed s))
redial-AllClosed s v i = ground (arith, v i)

close_connection-Single : (s : State) (conn : ℕ) → Single s → Single (close_connection conn s)
close_connection-Single s conn v = elim (Bool-cases (s.open_connection conn)) [
  | inl live ↦ subst Single (ground arith) (lose-Single s conn none v)
  | inr dead ↦ subst Single (ground arith) v
]

-- What `connect` leaves, where all connections are closed.
pub leave-Single :
    (s : State)
    → ((i : ℕ) → s.open_connection i ≡ true → s.connection ≡ some i)
    → Single (leave_reconnect s)
leave-Single s only = record { only = only; knows = tt }

again-Single : (s : State) → AllClosed s → Single (record s { watcher = checking })
again-Single s v = record { only = λ i o. absurd (ground (arith, v i)); knows = v }

attempt-Single : (a : Answer) (s : State) → AllClosed s → Single (attempt a s)
unfolding attempt
attempt-Single a s v = elim (connect_cases a s) [
  | inl (e, r) ↦ rw r (again-Single (not_dialed a s) v)
  | inr (inl r) ↦ rw r (leave-Single (dialed s) (dialed_only s v))
  | inr (inr (e, r)) ↦
      rw r (again-Single (close_connection s.next_connection (dialed s)) (redial-AllClosed s v))
]

read-Single : (s : State) → Single s → Single (read_connection s)
unfolding read_connection
read-Single s v = elim (Option-cases s.connection) [
  | inl nil ↦ record { only = v.only; knows = rw nil tt }
  | inr (conn, e) ↦ record { only = v.only; knows = rw e refl }
]

register-Single :
    (late_notice : Option GoError) (s : State) (conn : ℕ)
    → s.connection ≡ some conn
    → Single s
    → Single (register late_notice conn s)
unfolding register
register-Single late_notice s conn e v = elim (Bool-cases (s.open_connection conn)) [
  | inl live ↦ record { only = v.only; knows = rw live (e, live) }
  | inr dead ↦ record { only = v.only; knows = rw dead (e, dead) }
]

-- The connection that the watcher was told of is the only one that was open.
told-AllClosed :
    (s : State) (conn : ℕ)
    → s.connection ≡ some conn
    → s.open_connection conn ≡ false
    → Single s
    → AllClosed s
told-AllClosed s conn e dead v i = elim (Bool-cases (s.open_connection i)) [
  | inr shut ↦ shut
  | inl live ↦
      let same : ◌≡◌ {A = Option ℕ} (some i) (some conn) = sym (v.only i live) ∙ e in
      absurd (ground (arith, same))
]

notice-Single :
    (n : Option GoError) (s : State) (conn : ℕ)
    → Knows (waiting conn (some n)) s.connection s.open_connection
    → Single s
    → Single (notice n s)
unfolding notice
notice-Single none s conn k v = record { only = v.only; knows = tt }
notice-Single (some e) s conn k v = elim (Bool-cases s.reconnecting) [
  | inl busy ↦ rw busy (record { only = v.only; knows = tt })
  | inr free ↦ rw free (record { only = v.only; knows = told-AllClosed s conn k.0 k.1 v })
]

check_context-Single : (s : State) → AllClosed s → Single s → Single (check_context s)
unfolding check_context
check_context-Single s k v = elim (Bool-cases s.is_done) [
  | inl over ↦ subst Single (ground arith) (leave-Single s v.only)
  | inr on ↦
      let asleep : Single (record s { watcher = sleeping }) = record { only = v.only; knows = k } in
      subst Single (ground arith) asleep
]

close_current-Single : (s : State) → Single s → Single (close_current s)
unfolding close_current
close_current-Single s v = elim (Option-cases s.connection) [
  | inl nil ↦ subst Single (ground arith) v
  | inr (conn, e) ↦ subst Single (ground arith) (close_connection-Single s conn v)
]

pub at :
    (s : State) (w : Watcher) → s.watcher ≡ w → Single s → Knows w s.connection s.open_connection
at s w e v = subst (λ x. Knows x s.connection s.open_connection) e v.knows

pub Step-Single :
    {late_notice : Option GoError} {s t : State} → Single s → Step late_notice s t → Single t
Step-Single {s = s} v (reads e) = read-Single s v
Step-Single v (idles e) = record { only = v.only; knows = tt }
Step-Single v (leaves_idle e done) = record { only = v.only; knows = tt }
Step-Single {late_notice} {s} v (registers conn e) =
    register-Single late_notice s conn (at s (registering conn) e v) v
Step-Single v (leaves conn n e done) = record { only = v.only; knows = tt }
Step-Single {s = s} v (notices conn n e) =
    notice-Single n s conn (at s (waiting conn (some n)) e v) v
Step-Single {s = s} v (checks e) = check_context-Single s (at s checking e v) v
Step-Single {s = s} v (wakes e) = record { only = v.only; knows = at s sleeping e v }
Step-Single {s = s} v (gives_up e done) = leave-Single s v.only
Step-Single {s = s} v (attempts a e) = attempt-Single a s (at s connecting e v)
Step-Single {s = s} v (loses conn e live) = lose-Single s conn (some e) v
Step-Single v cancels = record { only = v.only; knows = v.knows }
Step-Single {s = s} v (closes done) = close_current-Single s v
Step-Single v (comes_late n e) = record { only = v.only; knows = v.knows }
Step-Single v (fails_late n e) = record { only = v.only; knows = v.knows }
Step-Single v (loses_late n e) = record { only = v.only; knows = v.knows }

pub Reach-Single :
    {late_notice : Option GoError} {s t : State} → Single s → Reach late_notice s t → Single t
Reach-Single v here = v
Reach-Single v (next r st) = Step-Single (Reach-Single v r) st

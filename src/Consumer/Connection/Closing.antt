-- ===== src/Consumer/Connection/Closing.antt =====
-- pkg/rabbitmq/consumer.go: what is open after `Close`.
use rabbitmq_go.Base.{
  ℕ, ◌+◌, ◌≤◌, Bool, true, false, Option, none, some, ◌≡◌, refl, subst, ◌∙◌, arith, inl, inr,
  Bool-cases, Option-cases,
}
use rabbitmq_go.Errors.{GoError}
use rabbitmq_go.Config.{Config}
use rabbitmq_go.Reconnect.Watcher.{connecting, ended, in_round, notify-in_round}
use rabbitmq_go.Consumer.Connection.{
  State, Answer, close_connection, dialed, connect, new_consumer, check, read_connection, register,
  notice, leave_reconnect, check_context, attempt, close_current, Step, reads, idles, leaves_idle,
  registers, leaves, notices, checks, wakes, gives_up, attempts, loses, cancels, closes, comes_late,
  fails_late, loses_late, Reach, here, next,
}
use rabbitmq_go.Consumer.Connection.Single.{AllClosed, Reach-Single, at}
use rabbitmq_go.Consumer.Connection.Started.{new_consumer-Single}
use rabbitmq_go.Consumer.Connection.Health.{check_open}

record Quiet (s : State) : Type 0 where
  done : s.is_done ≡ true
  shut : AllClosed s
  outside : in_round s.watcher ≡ false

close_connection-Quiet :
    (s : State) (conn : ℕ)
    → s.is_done ≡ true
    → in_round s.watcher ≡ false
    → ((i : ℕ) → s.open_connection i ≡ true → i ≡ conn)
    → Quiet (close_connection conn s)
close_connection-Quiet s conn done outside only = elim (Bool-cases (s.open_connection conn)) [
  | inl live ↦ record {
    done = ground arith;
    shut = λ i. ground (arith, only i);
    outside = ground (arith, notify-in_round s.watcher conn none);
  }
  | inr dead ↦ record {
    done = ground arith;
    shut = λ i. ground (arith, only i);
    outside = ground arith;
  }
]

close_current_unset : (s : State) → s.connection ≡ none → close_current s ≡ s
unfolding close_current
close_current_unset s e = ground arith

close_current_held :
    (s : State) (conn : ℕ) → s.connection ≡ some conn → close_current s ≡ close_connection conn s
unfolding close_current
close_current_held s conn e = ground arith

close_current-Quiet :
    (s : State)
    → ((i : ℕ) → s.open_connection i ≡ true → s.connection ≡ some i)
    → s.is_done ≡ true
    → in_round s.watcher ≡ false
    → Quiet (close_current s)
close_current-Quiet s only done outside = elim (Option-cases s.connection) [
  | inl nil ↦
      rw (close_current_unset s nil)
        (record { done = done; shut = λ i. ground (arith, only i); outside = outside })
  | inr (conn, e) ↦
      rw (close_current_held s conn e)
        (close_connection-Quiet s conn done outside (λ i live. ground (arith, only i live)))
]

read-Quiet : (s : State) → Quiet s → Quiet (read_connection s)
unfolding read_connection
read-Quiet s v = record { done = v.done; shut = v.shut; outside = ground arith }

register-Quiet :
    (late_notice : Option GoError) (conn : ℕ) (s : State)
    → Quiet s
    → Quiet (register late_notice conn s)
unfolding register
register-Quiet late_notice conn s v = record { done = v.done; shut = v.shut; outside = refl }

notice-Quiet : (n : Option GoError) (s : State) → Quiet s → Quiet (notice n s)
unfolding notice
notice-Quiet none s v = record { done = v.done; shut = v.shut; outside = refl }
notice-Quiet (some e) s v = elim (Bool-cases s.reconnecting) [
  | inl busy ↦ rw busy (record { done = v.done; shut = v.shut; outside = refl })
  | inr free ↦ rw free (record { done = v.done; shut = v.shut; outside = refl })
]

leave-Quiet : (s : State) → Quiet s → Quiet (leave_reconnect s)
leave-Quiet s v = record { done = v.done; shut = v.shut; outside = refl }

check_context_done : (s : State) → s.is_done ≡ true → check_context s ≡ leave_reconnect s
unfolding check_context
check_context_done s e = ground arith

Step-Quiet : {late_notice : Option GoError} {s t : State} → Quiet s → Step late_notice s t → Quiet t
Step-Quiet {s = s} v (reads e) = read-Quiet s v
Step-Quiet v (idles e) = record { done = v.done; shut = v.shut; outside = refl }
Step-Quiet v (leaves_idle e d) = record { done = v.done; shut = v.shut; outside = refl }
Step-Quiet {late_notice} {s} v (registers conn e) = register-Quiet late_notice conn s v
Step-Quiet v (leaves conn n e d) = record { done = v.done; shut = v.shut; outside = refl }
Step-Quiet {s = s} v (notices conn n e) = notice-Quiet n s v
Step-Quiet {s = s} v (checks e) = rw (check_context_done s v.done) (leave-Quiet s v)
Step-Quiet {s = s} v (wakes e) = absurd (ground (arith, v.outside))
Step-Quiet {s = s} v (gives_up e d) = leave-Quiet s v
Step-Quiet {s = s} v (attempts a e) = absurd (ground (arith, v.outside))
Step-Quiet {s = s} v (loses conn e live) = absurd (ground (arith, v.shut conn))
Step-Quiet v cancels = record { done = refl; shut = v.shut; outside = v.outside }
Step-Quiet {s = s} v (closes d) =
    close_current-Quiet s (λ i live. absurd (ground (arith, v.shut i))) v.done v.outside
Step-Quiet v (comes_late n e) = record { done = v.done; shut = v.shut; outside = v.outside }
Step-Quiet v (fails_late n e) = record { done = v.done; shut = v.shut; outside = v.outside }
Step-Quiet v (loses_late n e) = record { done = v.done; shut = v.shut; outside = v.outside }

Reach-Quiet :
    {late_notice : Option GoError} {s t : State} → Quiet s → Reach late_notice s t → Quiet t
Reach-Quiet v here = v
Reach-Quiet v (next r st) = Step-Quiet (Reach-Quiet v r) st

-- The connections that came late, and those that may yet come.
abbrev pub strays : State → ℕ
strays s = s.late + s.unowned

strays-close_current : (s : State) → strays (close_current s) ≡ strays s
unfolding close_current
strays-close_current s = ground arith

-- Only an attempt to connect makes new ones.
Step-strays :
    {late_notice : Option GoError} {s t : State}
    → Quiet s
    → Step late_notice s t
    → strays t ≤ strays s
unfolding read_connection register notice check_context
Step-strays v (reads e) = omega arith
Step-strays v (idles e) = omega arith
Step-strays v (leaves_idle e d) = omega arith
Step-strays v (registers conn e) = omega arith
Step-strays v (leaves conn n e d) = omega arith
Step-strays v (notices conn none e) = omega arith
Step-strays v (notices conn (some x) e) = ground arith
Step-strays v (checks e) = ground arith
Step-strays {s = s} v (wakes e) = absurd (ground (arith, v.outside))
Step-strays v (gives_up e d) = omega arith
Step-strays {s = s} v (attempts a e) = absurd (ground (arith, v.outside))
Step-strays v (loses conn e live) = omega arith
Step-strays v cancels = omega arith
Step-strays {s = s} v (closes d) = omega (arith, strays-close_current s)
Step-strays v (comes_late n e) = omega (arith, e)
Step-strays v (fails_late n e) = omega (arith, e)
Step-strays v (loses_late n e) = omega (arith, e)

Reach-strays :
    {late_notice : Option GoError} {s t : State}
    → Quiet s
    → Reach late_notice s t
    → strays t ≤ strays s
Reach-strays v here = omega arith
Reach-strays v (next r st) = omega (arith, Step-strays (Reach-Quiet v r) st, Reach-strays v r)

-- If `Close`, which has canceled the context, comes to close the connection while the watcher is not
-- in a round of `reconnect`, between its test of the context and the return of `connect`, then in every
-- later state all connections that `Dial` returned to the consumer are closed; and the connections that
-- come after a timeout of `Dial`, which nobody closes, are then not more than those that had come and
-- the dials that still ran.
pub close_leaves_nothing :
    (late_notice : Option GoError) (a : Answer) (cfg : Config) (done : Bool) (s t : State)
    → Reach late_notice (new_consumer a cfg done).1 s
    → s.is_done ≡ true
    → in_round s.watcher ≡ false
    → Reach late_notice (close_current s) t
    → ((i : ℕ) → t.open_connection i ≡ false) × (t.late + t.unowned ≤ s.late + s.unowned)
close_leaves_nothing late_notice a cfg done s t r over outside later =
    let v = Reach-Single (new_consumer-Single a cfg done) r in
    let q = close_current-Quiet s v.only over outside in
    ((Reach-Quiet q later).shut, omega (arith, Reach-strays q later, strays-close_current s))

-- The watcher, in `connect` after `Close`.
module _ (late_notice : Option GoError) (s : State) where
  abbrev taken : Answer
  taken = record { dial = none; is_late = false; declare_exchange = none }

  abbrev reopened : State
  reopened = leave_reconnect (dialed s)

  attempt_taken : attempt taken s ≡ reopened
  unfolding attempt connect
  attempt_taken = elim (Bool-cases s.cfg.skip_exchange_declare) [
    | inl skip ↦ ground arith
    | inr asks ↦ ground arith
  ]

  abbrev left : State
  left = record reopened { watcher = ended }

  left-Reach : s.is_done ≡ true → s.watcher ≡ connecting → Reach late_notice s left
  unfolding read_connection register
  left-Reach over busy =
      let tried : Reach late_notice s reopened =
        subst (Reach late_notice s) attempt_taken (next here (attempts taken busy)) in
      next (next (next tried (reads refl)) (registers s.next_connection refl))
        (leaves s.next_connection _ refl over)

close_connection_shut :
    (s : State) (conn : ℕ) → s.open_connection conn ≡ false → close_connection conn s ≡ s
close_connection_shut s conn e = ground arith

close_current_shut : (s : State) → AllClosed s → close_current s ≡ s
close_current_shut s shut = elim (Option-cases s.connection) [
  | inl nil ↦ close_current_unset s nil
  | inr (conn, e) ↦ close_current_held s conn e ∙ close_connection_shut s conn (shut conn)
]

-- If `Close` closes the connection while the watcher is in `reconnect` and past its sleep, then there
-- is a later state in which the watcher has ended, and a connection is open, as `Check` reports.
pub close_can_leave_open :
    (late_notice : Option GoError) (a : Answer) (cfg : Config) (done : Bool) (s : State)
    → Reach late_notice (new_consumer a cfg done).1 s
    → s.is_done ≡ true
    → s.watcher ≡ connecting
    → (t : State) × Reach late_notice (close_current s) t
      × (t.watcher ≡ ended)
      × (check (some t) ≡ none)
close_can_leave_open late_notice a cfg done s r over busy =
    let shut = at s connecting busy (Reach-Single (new_consumer-Single a cfg done) r) in
    let t = left late_notice s in
    rw (close_current_shut s shut) (
      (
        t,
        left-Reach late_notice s over busy,
        refl,
        check_open t s.next_connection refl (ground arith),
      ))

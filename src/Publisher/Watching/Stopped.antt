-- ===== src/Publisher/Watching/Stopped.antt =====
-- pkg/rabbitmq/publisher.go: the watcher of a publisher that is closed.
use rabbitmq_go.Base.{
  ℕ, true, false, Option, none, some, ◌≡◌, refl, ap, sym, subst, ◌∙◌, arith, inl, inr, Bool-cases,
}
use rabbitmq_go.Errors.{GoError}
use rabbitmq_go.Reconnect.Watcher.{in_round, notify-in_round}
use rabbitmq_go.Publisher.{Publisher, Client}
use rabbitmq_go.Publisher.Pool.{drain_channel_pool}
use rabbitmq_go.Publisher.Publish.{Injection}
use rabbitmq_go.Publisher.Watching.{
  Watched, place_at_top, place_registered, notice, leave_reconnect, check_closed, close_watched,
  WatchStep, uses, reads, idles, leaves_idle, registers, leaves, notices, checks, wakes, gives_up,
  attempts, loses, shuts, WatchReach, here, next,
}
use rabbitmq_go.Publisher.Connection.Accounts.{close_closed}
use rabbitmq_go.Publisher.Watching.Frame.{view-use}
use rabbitmq_go.Publisher.Watching.Lost.{view-drain_channel_pool}

-- The publisher is closed, so many connections were dialed, and the watcher is not in a round of
-- `reconnect`.
record Quiet (dials : ℕ) (s : Watched) : Type 0 where
  closed : s.state.publisher.closed ≡ true
  dialed : s.state.publisher.next_connection ≡ dials
  outside : in_round s.watcher ≡ false

read-outside : (p : Publisher) → in_round (place_at_top p) ≡ false
unfolding place_at_top
read-outside p = ground arith

register-outside :
    (late_notice : Option GoError) (conn : ℕ) (p : Publisher)
    → in_round (place_registered late_notice conn p) ≡ false
unfolding place_registered
register-outside late_notice conn p = ground arith

notice-Quiet :
    (dials : ℕ) (n : Option GoError) (s : Watched) → Quiet dials s → Quiet dials (notice n s)
unfolding notice
notice-Quiet dials none s v = record { closed = v.closed; dialed = v.dialed; outside = refl }
notice-Quiet dials (some e) s v =
    let same = view-drain_channel_pool s.state.publisher in
    let shut : (drain_channel_pool s.state.publisher).closed ≡ true =
      ap (λ x. x.2) same ∙ v.closed in
    let kept : (drain_channel_pool s.state.publisher).next_connection ≡ dials =
      ap (λ x. x.3) same ∙ v.dialed in
    elim (Bool-cases s.reconnecting) [
      | inl busy ↦ rw busy (record { closed = shut; dialed = kept; outside = refl })
      | inr free ↦ rw free (record { closed = shut; dialed = kept; outside = refl })
    ]

check_closed_shut :
    (s : Watched) → s.state.publisher.closed ≡ true → check_closed s ≡ leave_reconnect s
unfolding check_closed
check_closed_shut s e = ground arith

check_closed-Quiet : (dials : ℕ) (s : Watched) → Quiet dials s → Quiet dials (check_closed s)
check_closed-Quiet dials s v =
    let left : Quiet dials (leave_reconnect s) = record {
      closed = v.closed;
      dialed = v.dialed;
      outside = refl;
    } in
    subst (Quiet dials) (sym (check_closed_shut s v.closed)) left

close_watched-Quiet : (dials : ℕ) (s : Watched) → Quiet dials s → Quiet dials (close_watched s)
unfolding close_watched
close_watched-Quiet dials s v =
    let same = close_closed s.state.publisher v.closed in
    record {
      closed = ap (λ p. p.closed) same ∙ v.closed;
      dialed = ap (λ p. p.next_connection) same ∙ v.dialed;
      outside = ground (arith, v.closed, v.outside);
    }

module _ (client : Client) (inject : Injection) where
  Step-Quiet :
      {late_notice : Option GoError} {dials : ℕ} {s t : Watched}
      → Quiet dials s
      → WatchStep client inject late_notice s t
      → Quiet dials t
  Step-Quiet v (uses st u) =
      let same = view-use client inject st u in
      record {
        closed = ap (λ x. x.2) same ∙ v.closed;
        dialed = ap (λ x. x.3) same ∙ v.dialed;
        outside = v.outside;
      }
  Step-Quiet {s = s} v (reads e) = record {
    closed = v.closed;
    dialed = v.dialed;
    outside = read-outside s.state.publisher;
  }
  Step-Quiet v (idles e) = record { closed = v.closed; dialed = v.dialed; outside = refl }
  Step-Quiet v (leaves_idle e d) = record { closed = v.closed; dialed = v.dialed; outside = refl }
  Step-Quiet {late_notice} {s = s} v (registers c e) = record {
    closed = v.closed;
    dialed = v.dialed;
    outside = register-outside late_notice c s.state.publisher;
  }
  Step-Quiet v (leaves c n e d) = record { closed = v.closed; dialed = v.dialed; outside = refl }
  Step-Quiet {dials = dials} {s} v (notices c n e) = notice-Quiet dials n s v
  Step-Quiet {dials = dials} {s} v (checks e) = check_closed-Quiet dials s v
  Step-Quiet v (wakes e) = absurd (ground (arith, v.outside))
  Step-Quiet v (gives_up e d) = record { closed = v.closed; dialed = v.dialed; outside = refl }
  Step-Quiet v (attempts e) = absurd (ground (arith, v.outside))
  Step-Quiet {s = s} v (loses c e live) = record {
    closed = v.closed;
    dialed = v.dialed;
    outside = notify-in_round s.watcher c (some e) ∙ v.outside;
  }
  Step-Quiet {dials = dials} {s} v shuts = close_watched-Quiet dials s v

  Reach-Quiet :
      {late_notice : Option GoError} {dials : ℕ} {s t : Watched}
      → Quiet dials s
      → WatchReach client inject late_notice s t
      → Quiet dials t
  Reach-Quiet v here = v
  Reach-Quiet v (next r st) = Step-Quiet (Reach-Quiet v r) st

  -- Once a publisher is closed while its watcher is not in a round of `reconnect`, past its test of
  -- `closed`, it stays closed, its watcher begins no such round, and `Dial` gives it no further
  -- connection, whatever the watcher, the users, the network and further calls of `Close` do, and
  -- whatever a listener is told that registers late.
  pub closed_stays :
      (late_notice : Option GoError) (s t : Watched)
      → s.state.publisher.closed ≡ true
      → in_round s.watcher ≡ false
      → WatchReach client inject late_notice s t
      → (t.state.publisher.closed ≡ true)
        × (t.state.publisher.next_connection ≡ s.state.publisher.next_connection)
        × (in_round t.watcher ≡ false)
  closed_stays late_notice s t shut outside r =
      let first : Quiet (s.state.publisher.next_connection) s = record {
        closed = shut;
        dialed = refl;
        outside = outside;
      } in
      let v = Reach-Quiet first r in (v.closed, v.dialed, v.outside)

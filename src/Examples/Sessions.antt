-- ===== src/Examples/Sessions.antt =====
-- A session with two workers and two deliveries.
use rabbitmq_go.Base.{
  ◌==◌, Bool, true, false, none, [], ◌∷◌, ◌≡◌, refl, arith, ◌⊎◌, ◌+◌, ◌≤◌, length, pos, tally,
}
use rabbitmq_go.Errors.{canceled}
use rabbitmq_go.Amqp.{Delivery}
use rabbitmq_go.Consumer.Session.{
  Session, initial, ended, takes, spawns, drops, settles, releases, finishes, closes, Reach, here,
  next,
}
use rabbitmq_go.Consumer.Session.Drained.{session_bounded, session_conserves}
use rabbitmq_go.Examples.{delivery, retried}

-- The first delivery is handled, the second one is in hand when the context ends.
abbrev over : Session
over = record {
  loop = ended canceled;
  sem = 0;
  inflight = 0;
  handling = [];
  unreleased = 0;
  undone = 0;
  is_open = false;
  close_called = true;
  taken = delivery none ∷ retried (pos 1) ∷ [];
  settled = retried (pos 1) ∷ [];
  dropped = delivery none ∷ [];
}

started-Reach : Reach 2 initial (record initial {
  sem = 1;
  inflight = 1;
  handling = retried (pos 1) ∷ [];
  taken = retried (pos 1) ∷ [];
})
started-Reach =
    next (next here (takes (retried (pos 1)) refl)) (spawns (retried (pos 1)) refl (omega arith))

over-Reach : Reach 2 initial over
over-Reach =
    next
      (next
        (next
          (next
            (next (next started-Reach (takes (delivery none) refl)) (drops (delivery none) refl))
            (settles [] [] (retried (pos 1)) refl))
          (releases 0 refl))
        (finishes 0 refl))
      (closes canceled refl refl)

session_bounded_example :
    (length over.handling ≤ 2)
    × ((over.close_called ≡ false)
        ⊎ ((length over.handling ≡ 0) × (over.unreleased + over.undone ≡ 0)))
session_bounded_example = session_bounded 2 over over-Reach

abbrev has_tag_7 : Delivery → Bool
has_tag_7 d = d.delivery_tag == 7

session_conserves_example :
    (tally has_tag_7 over.taken ≡ tally has_tag_7 over.settled + tally has_tag_7 over.dropped)
    × (length over.dropped ≤ 1)
session_conserves_example = session_conserves has_tag_7 2 over canceled over-Reach refl

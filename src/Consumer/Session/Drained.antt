-- ===== src/Consumer/Session/Drained.antt =====
-- pkg/rabbitmq/consumer.go: at most so many handlers at a time, and none left when `ch.Close` is called; what
-- becomes of each delivery.
use rabbitmq_go.Base.{
  ℕ, ◌+◌, ◌≤◌, Bool, true, false, List, [], ◌∷◌, ◌++◌, ◌≡◌, refl, ap, arith, length, tally,
  tally-append, ◌⊎◌, if◌then◌else◌,
}
use rabbitmq_go.Errors.{GoError}
use rabbitmq_go.Amqp.{Delivery}
use rabbitmq_go.Consumer.Session.{
  Loop, selecting, holding, ended, Session, initial, Step, takes, spawns, leaves, drops,
  leaves_closed, drops_closed, loses_channel, settles, releases, finishes, closes, Reach, here,
  next,
}

abbrev pub is_ended : Loop → Bool
is_ended (ended e) = true
is_ended _ = false

-- The tokens in the semaphore and the counter of the wait group are those of the goroutines, and
-- `ch.Close` is not called as long as one has yet to call `Done`.
pub record Counted (workers : ℕ) (s : Session) : Type 0 where
  pub sem_is : s.sem ≡ length s.handling + s.unreleased
  pub inflight_is : s.inflight ≡ length s.handling + s.unreleased + s.undone
  pub bounded : s.sem ≤ workers
  pub close_is : s.close_called ≡ is_ended s.loop
  pub drained : (is_ended s.loop ≡ false) ⊎ (s.inflight ≡ 0)

abbrev pub is_inside : Loop → Bool
is_inside selecting = true
is_inside (holding d) = true
is_inside _ = false

length-remove :
    (before after : List Delivery) (d : Delivery)
    → length (before ++ d ∷ after) ≡ length (before ++ after) + 1
length-remove [] after d = omega arith
length-remove (x ∷ before) after d = omega (arith, length-remove before after d)

tally-remove :
    (p : Delivery → Bool) (before after : List Delivery) (d : Delivery)
    → tally p (before ++ d ∷ after) ≡ tally p (before ++ after) + tally p (d ∷ [])
tally-remove p before after d =
    omega (arith, tally-append p before (d ∷ after), tally-append p before after)

Step-Counted :
    {workers : ℕ} {s t : Session} → Counted workers s → Step workers s t → Counted workers t
Step-Counted v (takes d e) = ground arith
Step-Counted v (spawns d e room) = ground arith
Step-Counted v (leaves why e) = ground arith
Step-Counted v (drops d e) = ground arith
Step-Counted v (leaves_closed why e shut) = ground arith
Step-Counted v (drops_closed d why e shut) = ground arith
Step-Counted v (loses_channel live) = ground arith
Step-Counted {s = s} v (settles before after d e) =
    ground (arith, length-remove before after d, ap length e)
Step-Counted v (releases n e) = ground arith
Step-Counted v (finishes n e) = ground arith
Step-Counted v (closes why e done) = ground arith

Reach-Counted :
    {workers : ℕ} {s t : Session} → Counted workers s → Reach workers s t → Counted workers t
Reach-Counted v here = v
Reach-Counted v (next r st) = Step-Counted (Reach-Counted v r) st

initial-Counted : (workers : ℕ) → Counted workers initial
initial-Counted workers = ground arith

-- In every state that a session can reach, whether or not the broker has closed the channel: at most
-- `workers` deliveries are being handled; and if the session has called `ch.Close`, none is, and no
-- goroutine has anything left to do but return.
pub session_bounded :
    (workers : ℕ) (s : Session)
    → Reach workers initial s
    → (length s.handling ≤ workers)
      × ((s.close_called ≡ false) ⊎ ((length s.handling ≡ 0) × (s.unreleased + s.undone ≡ 0)))
session_bounded workers s r =
    let v = Reach-Counted (initial-Counted workers) r in
    (ground (arith, v.sem_is, v.bounded), ground (arith, v.close_is, v.drained, v.inflight_is))

-- How often deliveries of a kind are in hand.
abbrev pub in_hand : (Delivery → Bool) → Loop → ℕ
in_hand p (holding d) = tally p (d ∷ [])
in_hand p _ = 0

-- Of the deliveries of a kind, as many were taken as are in hand, handled, settled or dropped; and one
-- is dropped at most, and only when the loop has left.
pub record Conserved (p : Delivery → Bool) (s : Session) : Type 0 where
  pub all_kept :
      tally p s.taken
      ≡ in_hand p s.loop + tally p s.handling + tally p s.settled + tally p s.dropped
  pub one_dropped : length s.dropped ≤ (if is_inside s.loop then 0 else 1)

Step-Conserved :
    {p : Delivery → Bool} {workers : ℕ} {s t : Session}
    → Conserved p s
    → Step workers s t
    → Conserved p t
Step-Conserved v (takes d e) = ground arith
Step-Conserved v (spawns d e room) = ground arith
Step-Conserved v (leaves why e) = ground arith
Step-Conserved v (drops d e) = ground arith
Step-Conserved v (leaves_closed why e shut) = ground arith
Step-Conserved v (drops_closed d why e shut) = ground arith
Step-Conserved v (loses_channel live) = ground arith
Step-Conserved {p} v (settles before after d e) =
    ground (arith, tally-remove p before after d, ap (tally p) e)
Step-Conserved v (releases n e) = ground arith
Step-Conserved v (finishes n e) = ground arith
Step-Conserved v (closes why e done) = ground arith

Reach-Conserved :
    {p : Delivery → Bool} {workers : ℕ} {s t : Session}
    → Conserved p s
    → Reach workers s t
    → Conserved p t
Reach-Conserved v here = v
Reach-Conserved v (next r st) = Step-Conserved (Reach-Conserved v r) st

initial-Conserved : (p : Delivery → Bool) → Conserved p initial
initial-Conserved p = ground arith

tally_le_length : (p : Delivery → Bool) (xs : List Delivery) → tally p xs ≤ length xs
tally_le_length p [] = omega arith
tally_le_length p (x ∷ xs) = ground (arith, tally_le_length p xs)

nothing_in_hand : (p : Delivery → Bool) {l : Loop} (e : GoError) → l ≡ ended e → in_hand p l ≡ 0
nothing_in_hand p e h = rw h refl

no_handler :
    {workers : ℕ} (s : Session) (e : GoError)
    → Counted workers s
    → s.loop ≡ ended e
    → length s.handling ≡ 0
no_handler s e c at_end = ground (arith, c.drained, c.inflight_is, at_end)

-- When a session has ended: of the deliveries of any kind, each one that the loop received was handled
-- by a goroutine to its end, exactly as often as it was received, but for one at most, which the loop
-- had in hand when it left and which nobody settled.
pub session_conserves :
    (p : Delivery → Bool) (workers : ℕ) (s : Session) (e : GoError)
    → Reach workers initial s
    → s.loop ≡ ended e
    → (tally p s.taken ≡ tally p s.settled + tally p s.dropped) × (length s.dropped ≤ 1)
session_conserves p workers s e r at_end =
    let v = Reach-Conserved (initial-Conserved p) r in
    let c = Reach-Counted (initial-Counted workers) r in
    (
      omega (
        arith,
        v.all_kept,
        tally_le_length p s.handling,
        nothing_in_hand p e at_end,
        no_handler s e c at_end,
      ),
      ground (arith, v.one_dropped, at_end),
    )

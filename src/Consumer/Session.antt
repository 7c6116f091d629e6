-- ===== src/Consumer/Session.antt =====
-- pkg/rabbitmq/consumer.go: the loop of `consumeOnceConcurrent` and the goroutines that it starts, as a
-- step relation. What a goroutine does to its delivery is `handleDelivery`, modelled in Handling.
pub mod Drained
use rabbitmq_go.Base.{
  ℕ, suc, ◌+◌, ◌-◌, ◌<◌, Bool, true, false, Option, none, some, List, [], ◌∷◌, ◌++◌, ◌≡◌,
}
use rabbitmq_go.Errors.{GoError, canceled}
use rabbitmq_go.Amqp.{Delivery}

-- Where the loop stands: at the outer `select`; at the inner one, with a delivery in hand; in the
-- deferred `inflight.Wait`, with the error that it returns; or after the deferred `ch.Close`.
pub data Loop : Type 0 where
  selecting : Loop
  holding : Delivery → Loop
  draining : GoError → Loop
  ended : GoError → Loop

-- A goroutine handles its delivery, then takes its token out of the semaphore, then calls
-- `inflight.Done`: those of the first kind are in `handling`, the others are counted in `unreleased`
-- and `undone`. `taken`, `settled` and `dropped` record the deliveries that the loop received, that
-- a goroutine handled, and that were in hand when the loop left; the latest first. `is_open` tells whether
-- the channel is open, which the broker may close; `close_called` whether the deferred `ch.Close` ran.
pub record Session : Type 0 where
  pub loop : Loop
  pub sem : ℕ
  pub inflight : ℕ
  pub handling : List Delivery
  pub unreleased : ℕ
  pub undone : ℕ
  pub is_open : Bool
  pub close_called : Bool
  pub taken : List Delivery
  pub settled : List Delivery
  pub dropped : List Delivery

-- The state before the loop.
abbrev pub initial : Session
initial = record {
  loop = selecting;
  sem = 0;
  inflight = 0;
  handling = [];
  unreleased = 0;
  undone = 0;
  is_open = true;
  close_called = false;
  taken = [];
  settled = [];
  dropped = [];
}

-- The steps, for a semaphore with room for so many workers.
pub data Step (workers : ℕ) (s : Session) : Session → Type 0 where
  takes :
      (d : Delivery)
      → s.loop ≡ selecting
      → Step workers s (record s { loop = holding d; taken = d ∷ s.taken })
  -- `sem <- struct{}{}`, `inflight.Add(1)` and the start of the goroutine
  spawns :
      (d : Delivery)
      → s.loop ≡ holding d
      → s.sem < workers
      → Step workers s (record s {
        loop = selecting;
        sem = s.sem + 1;
        inflight = s.inflight + 1;
        handling = d ∷ s.handling;
      })
  -- the context is done, or the stream of deliveries is closed
  leaves : (e : GoError) → s.loop ≡ selecting → Step workers s (record s { loop = draining e })
  -- the context is done
  drops :
      (d : Delivery)
      → s.loop ≡ holding d
      → Step workers s (record s { loop = draining canceled; dropped = d ∷ s.dropped })
  -- the notice of the closed channel, at either `select`
  leaves_closed :
      (e : GoError)
      → s.loop ≡ selecting
      → s.is_open ≡ false
      → Step workers s (record s { loop = draining e })
  drops_closed :
      (d : Delivery) (e : GoError)
      → s.loop ≡ holding d
      → s.is_open ≡ false
      → Step workers s (record s { loop = draining e; dropped = d ∷ s.dropped })
  -- the broker closes the channel, or the connection is lost
  loses_channel : s.is_open ≡ true → Step workers s (record s { is_open = false })
  -- `handleDelivery` returns in a goroutine
  settles :
      (before after : List Delivery) (d : Delivery)
      → s.handling ≡ before ++ d ∷ after
      → Step workers s (record s {
        handling = before ++ after;
        unreleased = s.unreleased + 1;
        settled = d ∷ s.settled;
      })
  releases :
      (n : ℕ)
      → s.unreleased ≡ suc n
      → Step workers s (record s { unreleased = n; undone = s.undone + 1; sem = s.sem - 1 })
  finishes :
      (n : ℕ)
      → s.undone ≡ suc n
      → Step workers s (record s { undone = n; inflight = s.inflight - 1 })
  closes :
      (e : GoError)
      → s.loop ≡ draining e
      → s.inflight ≡ 0
      → Step workers s (record s { loop = ended e; is_open = false; close_called = true })

pub data Reach (workers : ℕ) (s : Session) : Session → Type 0 where
  here : Reach workers s s
  next : {t u : Session} → Reach workers s t → Step workers t u → Reach workers s u

-- ===== src/Consumer/Stopping.antt =====
-- pkg/rabbitmq/consumer.go: calls of `Consume` and `ConsumeConcurrent`, which have the same form, and of
-- `Close`, as threads that interleave: the wait group, the context, and where a call stands. What a session
-- does is modelled in Loop and Session, the connection in Connection.
pub mod Stopped
pub mod Returning
use rabbitmq_go.Base.{ℕ, suc, ◌+◌, Bool, true, false, List, [], ◌∷◌, ◌++◌, ◌≡◌}

pub data Pc : Type 0 where
  -- `Consume`: before `wg.Add`; before the `select` of a turn; in `consumeOnce`; in `sleepContext`;
  -- before the deferred `wg.Done`
  entered : Pc
  testing : Pc
  serving : Pc
  sleeping : Pc
  leaving : Pc
  -- `Close`: before `cancel`, in `wg.Wait`, before the close of the connection
  stopping : Pc
  waiting : Pc
  shutting : Pc

-- The shared part: is the context canceled, and the counter of the wait group. `waited` and `shut` record
-- that a `Close` has come past `wg.Wait`, and that it has closed the connection.
pub record Shared : Type 0 where
  pub canceled : Bool
  pub wg : ℕ
  pub waited : Bool
  pub shut : Bool

-- The steps of a thread, which they replace by none or by one.
pub data Move (s : Shared) : Pc → Shared → List Pc → Type 0 where
  adds : Move s entered (record s { wg = s.wg + 1 }) (testing ∷ [])
  stops : s.canceled ≡ true → Move s testing s (leaving ∷ [])
  starts : s.canceled ≡ false → Move s testing s (serving ∷ [])
  -- the session ends, with an error that is `context.Canceled` or with another
  ends : Move s serving s (leaving ∷ [])
  fails : Move s serving s (sleeping ∷ [])
  wakes : Move s sleeping s (testing ∷ [])
  is_woken : s.canceled ≡ true → Move s sleeping s (leaving ∷ [])
  leaves : (n : ℕ) → s.wg ≡ suc n → Move s leaving (record s { wg = n }) []
  cancels : Move s stopping (record s { canceled = true }) (waiting ∷ [])
  passes : s.wg ≡ 0 → Move s waiting (record s { waited = true }) (shutting ∷ [])
  shuts : Move s shutting (record s { shut = true }) []

pub record System : Type 0 where
  pub shared : Shared
  pub threads : List Pc

-- After `NewConsumer`.
abbrev pub initial : System
initial = record {
  shared = record { canceled = false; wg = 0; waited = false; shut = false };
  threads = [];
}

-- The caller may call `Consume` and `Close` at any time, and cancel the context that it gave.
pub data Step (y : System) : System → Type 0 where
  moves :
      (before after new : List Pc) (pc : Pc) (s : Shared)
      → y.threads ≡ before ++ pc ∷ after
      → Move y.shared pc s new
      → Step y (record { shared = s; threads = before ++ (new ++ after) })
  consumes : Step y (record y { threads = entered ∷ y.threads })
  closes : Step y (record y { threads = stopping ∷ y.threads })
  gives_up : Step y (record y { shared = record (y.shared) { canceled = true } })

pub data Reach (y : System) : System → Type 0 where
  here : Reach y y
  next : {z w : System} → Reach y z → Step z w → Reach y w

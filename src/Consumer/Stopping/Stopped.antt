-- ===== src/Consumer/Stopping/Stopped.antt =====
-- pkg/rabbitmq/consumer.go: no session runs after `Close`.
use rabbitmq_go.Base.{
  ℕ, ◌+◌, ◌≤◌, ◌||◌, Bool, true, false, List, [], ◌∷◌, ◌++◌, ◌≡◌, refl, sym, subst, tally,
  tally-pick, arith, if◌then◌else◌,
}
use rabbitmq_go.Consumer.Stopping.{
  Pc, testing, serving, sleeping, leaving, waiting, shutting, Shared, Move, adds, stops, starts,
  ends, fails, wakes, is_woken, leaves, cancels, passes, shuts, System, initial, Step, moves,
  consumes, closes, gives_up, Reach, here, next,
}

-- The calls that the wait group counts; those in a session; those of `Close` past `cancel`, and past
-- `wg.Wait`.
abbrev pub is_counted : Pc → Bool
is_counted testing = true
is_counted serving = true
is_counted sleeping = true
is_counted leaving = true
is_counted _ = false

abbrev pub is_serving : Pc → Bool
is_serving serving = true
is_serving _ = false

abbrev pub has_canceled : Pc → Bool
has_canceled waiting = true
has_canceled shutting = true
has_canceled _ = false

abbrev pub has_waited : Pc → Bool
has_waited shutting = true
has_waited _ = false

abbrev pub one_if : Bool → ℕ
one_if b = if b then 1 else 0

-- With the numbers of threads of each kind.
pub record Inv (s : Shared) (counted serve stop past : ℕ) : Type 0 where
  pub counts : s.wg ≡ counted
  -- a `Close` past `cancel` has canceled the context, and stays past it
  pub context : (if s.canceled then 0 else stop + one_if s.waited) ≡ 0
  pub over : (if s.waited then serve else past + one_if s.shut) ≡ 0

abbrev pub Holds : Shared → List Pc → Type 0
Holds s l =
    Inv s (tally is_counted l) (tally is_serving l) (tally has_canceled l) (tally has_waited l)

-- A move of one thread, with the numbers of the other threads of each kind.
Move-Inv :
    (c v t p : ℕ) {s s' : Shared} {pc : Pc} {new : List Pc}
    → Move s pc s' new
    → v ≤ c
    → Inv s
        (tally is_counted (pc ∷ []) + c)
        (tally is_serving (pc ∷ []) + v)
        (tally has_canceled (pc ∷ []) + t)
        (tally has_waited (pc ∷ []) + p)
    → Inv s'
        (tally is_counted new + c)
        (tally is_serving new + v)
        (tally has_canceled new + t)
        (tally has_waited new + p)
Move-Inv c v t p adds less i = record {
  counts = ground (arith, i.counts);
  context = ground (arith, i.context);
  over = ground (arith, i.counts, i.context, i.over);
}
Move-Inv c v t p (stops e) less i = record {
  counts = ground (arith, i.counts);
  context = ground (arith, i.context);
  over = ground (arith, i.counts, i.context, i.over);
}
Move-Inv c v t p (starts e) less i = record {
  counts = ground (arith, i.counts);
  context = ground (arith, i.context);
  over = ground (arith, i.counts, i.context, i.over);
}
Move-Inv c v t p ends less i = record {
  counts = ground (arith, i.counts);
  context = ground (arith, i.context);
  over = ground (arith, i.counts, i.context, i.over);
}
Move-Inv c v t p fails less i = record {
  counts = ground (arith, i.counts);
  context = ground (arith, i.context);
  over = ground (arith, i.counts, i.context, i.over);
}
Move-Inv c v t p wakes less i = record {
  counts = ground (arith, i.counts);
  context = ground (arith, i.context);
  over = ground (arith, i.counts, i.context, i.over);
}
Move-Inv c v t p (is_woken e) less i = record {
  counts = ground (arith, i.counts);
  context = ground (arith, i.context);
  over = ground (arith, i.counts, i.context, i.over);
}
Move-Inv c v t p (leaves n e) less i = record {
  counts = ground (arith, i.counts);
  context = ground (arith, i.context);
  over = ground (arith, i.counts, i.context, i.over);
}
Move-Inv c v t p cancels less i = record {
  counts = ground (arith, i.counts);
  context = ground (arith, i.context);
  over = ground (arith, i.counts, i.context, i.over);
}
Move-Inv c v t p (passes e) less i = record {
  counts = ground (arith, i.counts);
  context = ground (arith, i.context);
  over = ground (arith, i.counts, i.context, i.over);
}
Move-Inv c v t p shuts less i = record {
  counts = ground (arith, i.counts);
  context = ground (arith, i.context);
  over = ground (arith, i.counts, i.context, i.over);
}

serving_counted : (l : List Pc) → tally is_serving l ≤ tally is_counted l
serving_counted [] = omega arith
serving_counted (pc ∷ l) = ground (arith, serving_counted l)

same_numbers :
    {s : Shared} {c c' v v' t t' p p' : ℕ}
    → Inv s c v t p
    → c ≡ c'
    → v ≡ v'
    → t ≡ t'
    → p ≡ p'
    → Inv s c' v' t' p'
same_numbers i a b d e = record {
  counts = omega (arith, i.counts);
  context = ground (arith, i.context);
  over = ground (arith, i.over);
}

moved-Holds :
    (y : System) (before after new : List Pc) (pc : Pc) (s : Shared)
    → y.threads ≡ before ++ pc ∷ after
    → Move y.shared pc s new
    → Holds y.shared y.threads
    → Holds s (before ++ (new ++ after))
moved-Holds y before after new pc s at m i =
    let others : (Pc → Bool) → ℕ = λ q. tally q (before ++ after) in
    let split : (q : Pc → Bool) → tally q y.threads ≡ tally q (pc ∷ []) + others q = λ q.
      subst (λ l. tally q l ≡ tally q (pc ∷ []) + others q) (sym at)
        (tally-pick q before (pc ∷ []) after) in
    let joined : (q : Pc → Bool) → tally q new + others q ≡ tally q (before ++ (new ++ after)) =
      λ q. sym (tally-pick q before new after) in
    same_numbers
      (Move-Inv (others is_counted) (others is_serving) (others has_canceled) (others has_waited) m
        (serving_counted (before ++ after))
        (same_numbers i (split is_counted) (split is_serving) (split has_canceled)
          (split has_waited)))
      (joined is_counted) (joined is_serving) (joined has_canceled) (joined has_waited)

Step-Holds : {y z : System} → Step y z → Holds y.shared y.threads → Holds z.shared z.threads
Step-Holds {y} (moves before after new pc s at m) i = moved-Holds y before after new pc s at m i
Step-Holds consumes i = same_numbers i (omega arith) (omega arith) (omega arith) (omega arith)
Step-Holds closes i = same_numbers i (omega arith) (omega arith) (omega arith) (omega arith)
Step-Holds {y} gives_up i = record { counts = i.counts; context = refl; over = i.over }

pub Reach-Holds : {y : System} → Reach initial y → Holds y.shared y.threads
Reach-Holds here = record { counts = refl; context = refl; over = refl }
Reach-Holds (next path step) = Step-Holds step (Reach-Holds path)

-- However calls of `Consume`, calls of `Close` and the cancellation of the context interleave: once a
-- `Close` has come past `wg.Wait`, no call is in a session, then and ever after, though calls may still
-- begin; and the context is canceled. So the connection is closed by `Close` only when no session runs.
pub close_stops :
    (y : System)
    → Reach initial y
    → (y.shared.waited || y.shared.shut) ≡ true
    → (tally is_serving y.threads ≡ 0) × (y.shared.canceled ≡ true)
close_stops y path past =
    let i = Reach-Holds path in
    (ground (arith, i.over, past), ground (arith, i.over, i.context, past))

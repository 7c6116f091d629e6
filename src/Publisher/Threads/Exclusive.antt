-- ===== src/Publisher/Threads/Exclusive.antt =====
-- pkg/rabbitmq/pool.go and publisher.go: who has a channel, in a run whose calls interleave.
use rabbitmq_go.Base.{
  ℕ, ◌+◌, ◌≤◌, true, false, some, List, [], ◌∷◌, ◌++◌, ◌≡◌, ◌⊎◌, length, tally, tally-pick, ◌==◌,
  Bool-cases, inl, inr, if◌then◌else◌, arith, refl, subst, sym, ap,
}
use rabbitmq_go.Config.{Config}
use rabbitmq_go.Publisher.Threads.{Shared, Pc, idle, capacity}
use rabbitmq_go.Publisher.Threads.Counts.{
  in_hand, holds, in_section, is_retiring, pooled, Accounted, same_sum,
}
use rabbitmq_go.Publisher.Threads.Listeners.{uses}
use rabbitmq_go.Publisher.Threads.Sections.{same_counts}
use rabbitmq_go.Publisher.Threads.Runs.{System, initial, Reach, Reach-Inv}

-- However the calls interleave, a channel that a thread has in hand, to publish on it, to put it in
-- the pool or to close it, is in the hand of no other thread, and is neither in the pool nor in a pool
-- that is being drained.
pub exclusive :
    (cfg : Config) (y : System) (before after : List Pc) (pc : Pc) (ch : ℕ)
    → Reach (initial cfg) y
    → y.threads ≡ before ++ pc ∷ after
    → in_hand pc ≡ some ch
    → (tally (holds ch) (before ++ after) ≡ 0) × (pooled ch y.shared ≡ 0)
exclusive cfg y before after pc ch path at has =
    let v : Accounted ch y.shared (tally (holds ch) y.threads) =
      (Reach-Inv cfg path).accounted ch in
    let split : tally (holds ch) y.threads
        ≡ (if holds ch pc then 1 else 0) + 0 + tally (holds ch) (before ++ after) =
      subst
        (λ l.
          tally (holds ch) l
          ≡ (if holds ch pc then 1 else 0) + 0 + tally (holds ch) (before ++ after))
        (sym at) (tally-pick (holds ch) before (pc ∷ []) after) in
    ground (arith, v.placed, split)

is_empty : {A : Type 0} (l : List A) → (length l ≡ 0) ⊎ (1 ≤ 0) → l ≡ []
is_empty [] e = refl
is_empty (x ∷ l) e = absurd (ground (arith, e))

-- A channel that is open is in the pool once, and its connection is open.
abbrev pub Kept : ℕ → Shared → Type 0
Kept ch s =
    (s.open_channel ch ≡ true)
    × (tally (λ pch. pch.ch == ch) (idle s) ≡ 1)
    × (s.open_connection (s.conn_of ch) ≡ true)

kept :
    (ch : ℕ) (s : Shared)
    → s.retired ≡ []
    → Accounted ch s 0
    → (s.open_channel ch ≡ false) ⊎ Kept ch s
kept ch s gone a = elim (Bool-cases (s.open_channel ch)) [
  | inl is_open ↦
      inr (is_open, ground (arith, a.placed, a.reachable), ground (arith, a.carried, is_open))
  | inr is_shut ↦ inl is_shut
]

-- When no call is in progress, `connMu` is free, no old pool has channels left, the pool is within its
-- capacity, and each channel is closed, or it is in the pool once and its connection is open.
pub quiet :
    (cfg : Config) (y : System) (ch : ℕ)
    → Reach (initial cfg) y
    → y.threads ≡ []
    → (y.shared.conn_locked ≡ false)
      × (y.shared.retired ≡ [])
      × (length (idle y.shared) ≤ capacity y.shared)
      × ((y.shared.open_channel ch ≡ false) ⊎ Kept ch y.shared)
quiet cfg y ch path none_left =
    let v = Reach-Inv cfg path in
    let g =
      same_counts v.guarded (ap (λ l. tally in_section l) none_left)
        (ap (λ l. tally is_retiring l) none_left) in
    let gone = is_empty y.shared.retired g.emptied in
    (
      ground (arith, g.locked),
      gone,
      g.bounded,
      kept ch y.shared gone (same_sum (v.accounted ch) (ap (λ l. tally (holds ch) l) none_left)),
    )

-- However the calls interleave, a channel that a publish has put a listener for returns on is in no pool,
-- and no thread has it in hand to use it or to put it into the pool: only the publish itself, which
-- closes it.
pub listener_alone :
    (cfg : Config) (y : System) (ch : ℕ)
    → Reach (initial cfg) y
    → y.shared.listening ch ≡ true
    → (pooled ch y.shared ≡ 0) × (tally (uses ch) y.threads ≡ 0)
listener_alone cfg y ch path heard = ground (arith, ((Reach-Inv cfg path).unheard ch).unheard)

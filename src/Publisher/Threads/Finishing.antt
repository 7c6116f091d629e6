-- ===== src/Publisher/Threads/Finishing.antt =====
-- pkg/rabbitmq/pool.go and publisher.go: the calls in progress end. Each move of a thread uses up some
-- of what is left to do, but for a failed attempt to connect, after which the watcher tries again.
use rabbitmq_go.Base.{
  ℕ, suc, ◌+◌, ◌*◌, ◌≤◌, List, [], ◌∷◌, ◌++◌, ◌≡◌, ◌⊎◌, if◌then◌else◌, arith, refl, ap,
}
use rabbitmq_go.Config.{Config}
use rabbitmq_go.Publisher.Threads.{Shared, Pc, capacity}
use rabbitmq_go.Publisher.Threads.Moves.{Move}
use rabbitmq_go.Publisher.Threads.Runs.{System, moves, initial, Reach, next, Reach-Inv}
use rabbitmq_go.Publisher.Threads.Progress.{Progress, some_moves}
use rabbitmq_go.Publisher.Threads.Weights.{total, stock, fails, Move-capacity, Move-left}

unfoldable pub left : System → ℕ
left y = total (capacity y.shared) y.threads + stock y.shared

total-pick :
    (c : ℕ) (before middle after : List Pc)
    → total c (before ++ (middle ++ after)) ≡ total c middle + total c (before ++ after)
total-pick c [] [] after = omega arith
total-pick c [] (pc ∷ middle) after = omega (arith, total-pick c [] middle after)
total-pick c (pc ∷ before) middle after = omega (arith, total-pick c before middle after)

-- So many moves, so many of which are failed attempts to connect.
pub data Moved (y : System) : ℕ → ℕ → System → Type 0 where
  unmoved : Moved y 0 0 y
  moved :
      {n k : ℕ} {z : System} (before after new : List Pc) (pc : Pc) (s : Shared)
      → Moved y n k z
      → (at : z.threads ≡ before ++ pc ∷ after) → (m : Move z.shared pc s new)
      → Moved y
          (suc n)
          ((if fails m then 1 else 0) + k)
          (record { shared = s; threads = before ++ (new ++ after) })

Moved-Reach :
    (cfg : Config) {y z : System} {n k : ℕ}
    → Reach (initial cfg) y
    → Moved y n k z
    → Reach (initial cfg) z
Moved-Reach cfg path unmoved = path
Moved-Reach cfg path (moved before after new pc s further at m) =
    next (Moved-Reach cfg path further) (moves before after new pc s at m)

move-left :
    (z : System) (before after new : List Pc) (pc : Pc) (s : Shared)
    → z.threads ≡ before ++ pc ∷ after
    → (m : Move z.shared pc s new)
    → 1 + left (record { shared = s; threads = before ++ (new ++ after) })
      ≤ left z + (if fails m then 3 else 0)
unfolding left
move-left z before after new pc s at m =
    let c : ℕ = capacity z.shared in
    omega (
      arith,
      ap (λ c. total c (before ++ (new ++ after))) (Move-capacity m),
      ap (λ l. total c l) at,
      total-pick c before (pc ∷ []) after,
      total-pick c before new after,
      Move-left c m refl,
    )

Moved-left : {y z : System} {n k : ℕ} → Moved y n k z → n + left z ≤ left y + 3 * k
Moved-left unmoved = omega arith
Moved-left {y} (moved {n} {k} {z} before after new pc s further at m) =
    ground (arith, Moved-left further, move-left z before after new pc s at m)

-- The calls in progress end, however the threads are scheduled and whatever the client answers: with no
-- new calls, the threads can make at most `left` moves, and three more for each attempt to connect that
-- fails; and as long as a thread is left, some thread can move, so there is no deadlock.
pub finishes :
    (cfg : Config) (y z : System) (n k : ℕ)
    → Reach (initial cfg) y
    → Moved y n k z
    → (n + left z ≤ left y + 3 * k) × ((z.threads ≡ []) ⊎ Progress z)
finishes cfg y z n k path m =
    (Moved-left m, some_moves z (Reach-Inv cfg (Moved-Reach cfg path m)).guarded)

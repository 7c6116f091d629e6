-- ===== src/Consumer/Stopping/Returning.antt =====
-- pkg/rabbitmq/consumer.go: once the context is canceled, every call of `Consume` and of `Close` returns,
-- if each session ends, which its loop does when it sees the end of the context.
use rabbitmq_go.Base.{
  ℕ, zero, suc, ◌+◌, ◌≤◌, true, false, List, [], ◌∷◌, ◌++◌, ◌≡◌, ◌⊎◌, inl, inr, refl, ap, tally,
  found, List-cases, arith,
}
use rabbitmq_go.Consumer.Stopping.{
  Pc, entered, testing, serving, sleeping, leaving, stopping, waiting, shutting, Shared, Move, adds,
  stops, starts, ends, fails, wakes, is_woken, leaves, cancels, passes, shuts, System, initial,
  moves, Reach, next,
}
use rabbitmq_go.Consumer.Stopping.Stopped.{is_counted, Reach-Holds}

-- The moves that a thread may have before it, once the context is canceled.
unfoldable pub weight : Pc → ℕ
weight entered = 3
weight testing = 2
weight serving = 4
weight sleeping = 3
weight leaving = 1
weight stopping = 3
weight waiting = 2
weight shutting = 1

abbrev pub left : List Pc → ℕ
left [] = 0
left (pc ∷ l) = weight pc + left l

-- So many moves, with no new calls.
pub data Moved (y : System) : ℕ → System → Type 0 where
  unmoved : Moved y 0 y
  moved :
      {n : ℕ} {z : System} (before after new : List Pc) (pc : Pc) (s : Shared)
      → Moved y n z
      → z.threads ≡ before ++ pc ∷ after
      → Move z.shared pc s new
      → Moved y (suc n) (record { shared = s; threads = before ++ (new ++ after) })

Moved-Reach : {y z : System} {n : ℕ} → Reach initial y → Moved y n z → Reach initial z
Moved-Reach path unmoved = path
Moved-Reach path (moved before after new pc s further at m) =
    next (Moved-Reach path further) (moves before after new pc s at m)

left-append : (k l : List Pc) → left (k ++ l) ≡ left k + left l
left-append [] l = omega arith
left-append (pc ∷ k) l = omega (arith, left-append k l)

Move-canceled :
    {s s' : Shared} {pc : Pc} {new : List Pc}
    → Move s pc s' new
    → s.canceled ≡ true
    → s'.canceled ≡ true
Move-canceled adds e = e
Move-canceled (stops f) e = e
Move-canceled (starts f) e = e
Move-canceled ends e = e
Move-canceled fails e = e
Move-canceled wakes e = e
Move-canceled (is_woken f) e = e
Move-canceled (leaves n f) e = e
Move-canceled cancels e = refl
Move-canceled (passes f) e = e
Move-canceled shuts e = e

Move-left :
    {s s' : Shared} {pc : Pc} {new : List Pc}
    → Move s pc s' new
    → s.canceled ≡ true
    → suc (left new) ≤ weight pc
unfolding weight
Move-left adds e = omega arith
Move-left (stops f) e = omega arith
Move-left (starts f) e = absurd cc
Move-left ends e = omega arith
Move-left fails e = omega arith
Move-left wakes e = omega arith
Move-left (is_woken f) e = omega arith
Move-left (leaves n f) e = omega arith
Move-left cancels e = omega arith
Move-left (passes f) e = omega arith
Move-left shuts e = omega arith

Moved-left :
    {y z : System} {n : ℕ}
    → Moved y n z
    → y.shared.canceled ≡ true
    → (z.shared.canceled ≡ true) × (n + left z.threads ≤ left y.threads)
Moved-left unmoved e = (e, omega arith)
Moved-left {y} (moved {n} {z} before after new pc s further at m) e =
    let (still, less) = Moved-left further e in
    (
      Move-canceled m still,
      omega (
        arith,
        less,
        Move-left m still,
        ap left at,
        left-append before (pc ∷ after),
        left-append before (new ++ after),
        left-append new after,
      ),
    )

-- Some thread can move.
abbrev pub Progress : System → Type 0
Progress y =
    (before after : List Pc) × (pc : Pc) × (s : Shared) × (new : List Pc) × (y.threads
      ≡ before ++ pc ∷ after)
    × Move y.shared pc s new

counted_moves :
    (s : Shared) (pc : Pc) (n : ℕ)
    → is_counted pc ≡ true
    → s.canceled ≡ true
    → s.wg ≡ suc n
    → (s' : Shared) × (new : List Pc) × Move s pc s' new
counted_moves s testing n c e k = (_, _, stops e)
counted_moves s serving n c e k = (_, _, ends)
counted_moves s sleeping n c e k = (_, _, is_woken e)
counted_moves s leaving n c e k = (_, _, leaves n k)
counted_moves s entered n c e k = absurd cc
counted_moves s stopping n c e k = absurd cc
counted_moves s waiting n c e k = absurd cc
counted_moves s shutting n c e k = absurd cc

Nat-cases : (n : ℕ) → (n ≡ 0) ⊎ ((m : ℕ) × (n ≡ suc m))
Nat-cases zero = inl refl
Nat-cases (suc n) = inr (n, refl)

-- With nothing left in the wait group, the first thread can move.
first_moves :
    (s : Shared) (pc : Pc)
    → is_counted pc ≡ false
    → s.wg ≡ 0
    → (s' : Shared) × (new : List Pc) × Move s pc s' new
first_moves s entered c k = (_, _, adds)
first_moves s stopping c k = (_, _, cancels)
first_moves s waiting c k = (_, _, passes k)
first_moves s shutting c k = (_, _, shuts)
first_moves s testing c k = absurd cc
first_moves s serving c k = absurd cc
first_moves s sleeping c k = absurd cc
first_moves s leaving c k = absurd cc

some_moves :
    (y : System)
    → y.shared.wg ≡ tally is_counted y.threads
    → y.shared.canceled ≡ true
    → (y.threads ≡ []) ⊎ Progress y
some_moves y counts e = elim (List-cases y.threads) [
  | inl none_left ↦ inl none_left
  | inr (first, rest, at) ↦ elim (Nat-cases y.shared.wg) [
    | inr (n, k) ↦
        let (before, after, pc, here_it, c) =
          found is_counted y.threads (omega (arith, counts, k)) in
        let (s, new, m) = counted_moves y.shared pc n c e k in
        inr (before, after, pc, s, new, here_it, m)
    | inl k ↦
        let uncounted : is_counted first ≡ false =
          ground (arith, counts, k, ap (λ l. tally is_counted l) at) in
        let (s, new, m) = first_moves y.shared first uncounted k in
        inr ([], rest, first, s, new, at, m)
  ]
]

-- Once the context is canceled, by a `Close` or by the caller, the calls of `Consume` and `Close` in
-- progress return, however they interleave: with no new calls, at most `left` moves are possible, and as
-- long as a call is in progress some thread can move, where a session can end.
pub calls_return :
    (y z : System) (n : ℕ)
    → Reach initial y
    → y.shared.canceled ≡ true
    → Moved y n z
    → (n + left z.threads ≤ left y.threads) × ((z.threads ≡ []) ⊎ Progress z)
calls_return y z n path e m =
    let (still, less) = Moved-left m e in
    (less, some_moves z (Reach-Holds (Moved-Reach path m)).counts still)

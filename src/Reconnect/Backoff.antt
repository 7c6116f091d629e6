-- ===== src/Reconnect/Backoff.antt =====
-- pkg/rabbitmq/publisher.go and consumer.go: how long `reconnect` sleeps.
use rabbitmq_go.Base.{
  ℕ, zero, suc, ◌*◌, ◌^◌, ◌<◌, ltb, ℤ, pos, double_int, false, List, [], ◌∷◌, ◌≡◌, refl, ap, sym,
  ◌∙◌, arith, length, if◌then◌else◌,
}
use native.Mathlib.Nat.{pow-suc, mul_assoc}
use rabbitmq_go.Config.{second, initial_reconnect_backoff}
use rabbitmq_go.Reconnect.{
  Round, stopped, stopped_asleep, fails, succeeds, connected, next_backoff, loop, reconnect,
}

-- The smaller of a number and a bound.
abbrev pub at_most : ℕ → ℕ → ℕ
at_most m x = if ltb m x then m else x

-- The k-th doubling of a first backoff, capped by `m`.
abbrev pub capped : ℕ → ℕ → ℕ → ℕ
capped m b k = at_most m (b * 2 ^ k)

-- The backoffs of so many rounds.
abbrev pub backoffs : ℕ → ℕ → ℕ → ℕ → List ℤ
backoffs m b k zero = []
backoffs m b k (suc n) = pos (capped m b k) ∷ backoffs m b (suc k) n

double_pow : (b k : ℕ) → b * 2 ^ suc k ≡ b * 2 ^ k * 2
double_pow b k = ap (b *◌) (pow-suc 2 k) ∙ sym (mul_assoc b (2 ^ k) 2)

next_backoff_eq :
    (m x y : ℕ)
    → m < 2 ^ 62
    → y ≡ x * 2
    → next_backoff (pos m) (pos (at_most m x)) ≡ pos (at_most m y)
unfolding next_backoff double_int
next_backoff_eq m x y h e = ground arith

next_backoff-capped :
    (m b k : ℕ) → m < 2 ^ 62 → next_backoff (pos m) (pos (capped m b k)) ≡ pos (capped m b (suc k))
next_backoff-capped m b k h = next_backoff_eq m (b * 2 ^ k) (b * 2 ^ suc k) h (double_pow b k)

loop-backoffs :
    (m b k : ℕ) (rounds : List Round)
    → m < 2 ^ 62
    → let sleeps = (loop (pos m) (pos (capped m b k)) rounds).0 in
      sleeps ≡ backoffs m b k (length sleeps)
unfolding loop
loop-backoffs m b k [] h = refl
loop-backoffs m b k (stopped ∷ rounds) h = refl
loop-backoffs m b k (stopped_asleep ∷ rounds) h = refl
loop-backoffs m b k (succeeds ∷ rounds) h = refl
loop-backoffs m b k (fails ∷ rounds) h =
    cc (next_backoff-capped m b k h, loop-backoffs m b (suc k) rounds h)

-- The sleeps of so many rounds from the start: the first one is not capped.
abbrev pub sleeps_of : ℕ → ℕ → ℕ → List ℤ
sleeps_of m b zero = []
sleeps_of m b (suc n) = pos b ∷ backoffs m b 1 n

first_backoff :
    (m b : ℕ) → m < 2 ^ 62 → b < 2 ^ 62 → next_backoff (pos m) (pos b) ≡ pos (capped m b 1)
unfolding next_backoff double_int
first_backoff m b h h' = ground arith

loop-sleeps_of :
    (m b : ℕ) (rounds : List Round)
    → m < 2 ^ 62
    → b < 2 ^ 62
    → let sleeps = (loop (pos m) (pos b) rounds).0 in sleeps ≡ sleeps_of m b (length sleeps)
unfolding loop
loop-sleeps_of m b [] h h' = refl
loop-sleeps_of m b (stopped ∷ rounds) h h' = refl
loop-sleeps_of m b (stopped_asleep ∷ rounds) h h' = refl
loop-sleeps_of m b (succeeds ∷ rounds) h h' = refl
loop-sleeps_of m b (fails ∷ rounds) h h' = cc (first_backoff m b h h', loop-backoffs m b 1 rounds h)

-- So many rounds that fail.
abbrev pub failing : ℕ → List Round → List Round
failing zero rounds = rounds
failing (suc n) rounds = fails ∷ failing n rounds

loop-failing :
    (max backoff : ℤ) (n : ℕ) (rounds : List Round)
    → ((loop max backoff (failing n (succeeds ∷ rounds))).1 ≡ connected)
      × (length (loop max backoff (failing n (succeeds ∷ rounds))).0 ≡ suc n)
unfolding loop
loop-failing max backoff zero rounds = (refl, refl)
loop-failing max backoff (suc n) rounds = (
  (loop-failing max (next_backoff max backoff) n rounds).0,
  ap suc ((loop-failing max (next_backoff max backoff) n rounds).1),
)

-- Let `ReconnectMaxBackoff` be m with 0 ≤ m < 2^62 nanoseconds, and let no other reconnect be under
-- way. In any history of the rounds, the sleep before the first try is the initial backoff of one
-- second, also if m is less, and the k-th one after it is the least of 2^k seconds and m. If the
-- first n tries fail and the next one succeeds, with no stop, `reconnect` ends connected after n + 1
-- sleeps.
pub reconnect_sleeps :
    (m n : ℕ) (rounds : List Round)
    → m < 2 ^ 62
    → (let sleeps = (reconnect (pos m) false rounds).0 in
        sleeps ≡ sleeps_of m second (length sleeps))
      × ((reconnect (pos m) false (failing n (succeeds ∷ rounds))).1 ≡ connected)
      × (length (reconnect (pos m) false (failing n (succeeds ∷ rounds))).0 ≡ suc n)
unfolding reconnect
reconnect_sleeps m n rounds h = (
  loop-sleeps_of m second rounds h (omega arith),
  (loop-failing (pos m) initial_reconnect_backoff n rounds).0,
  (loop-failing (pos m) initial_reconnect_backoff n rounds).1,
)

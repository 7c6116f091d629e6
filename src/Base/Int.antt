-- ===== src/Base/Int.antt =====
-- Signed integers over the native numbers, and Go's 64-bit `int` with its wrap-around.
use Prim.Native.Nat.{ℕ, suc, ◌+◌, ◌-◌, ◌*◌, ◌%◌, ◌^◌, ◌≤◌, ◌<◌}
use mathlib.Core.Path.{◌≡◌}
use mathlib.Core.Bool.{Bool}
use native.Mathlib.Omega.{arith}
use rabbitmq_go.Base.Tests.{leb, ltb, if◌then◌else◌}

-- `negsuc n` is -(n + 1).
pub data ℤ : Type 0 where
  pos : ℕ → ℤ
  negsuc : ℕ → ℤ

abbrev pub pos_part : ℤ → ℕ
pos_part (pos n) = n
pos_part (negsuc n) = 0

abbrev pub neg_part : ℤ → ℕ
neg_part (pos n) = 0
neg_part (negsuc n) = suc n

infix 50 ◌≤ℤ◌ ◌<ℤ◌
abbrev pub ◌≤ℤ◌ : ℤ → ℤ → Type 0
a ≤ℤ b = pos_part a + neg_part b ≤ pos_part b + neg_part a

abbrev pub ◌<ℤ◌ : ℤ → ℤ → Type 0
a <ℤ b = pos_part a + neg_part b < pos_part b + neg_part a

abbrev pub leb_ℤ : ℤ → ℤ → Bool
leb_ℤ a b = leb (pos_part a + neg_part b) (pos_part b + neg_part a)

abbrev pub ltb_ℤ : ℤ → ℤ → Bool
ltb_ℤ a b = ltb (pos_part a + neg_part b) (pos_part b + neg_part a)

-- a + 1, with no bound.
abbrev pub suc_ℤ : ℤ → ℤ
suc_ℤ (pos n) = pos (n + 1)
suc_ℤ (negsuc n) = if leb 1 n then negsuc (n - 1) else pos 0

-- The `int` with the low 64 bits of an integer: a bit pattern read in two's complement.
abbrev pub of_pattern : ℕ → ℤ
of_pattern m = if ltb m (2 ^ 63) then pos m else negsuc (2 ^ 64 - 1 - m)

abbrev pub wrap_int : ℤ → ℤ
wrap_int (pos n) = of_pattern (n % 2 ^ 64)
wrap_int (negsuc n) = of_pattern (2 ^ 64 - 1 - n % 2 ^ 64)

-- Go's `n + 1` and `n * 2` on `int`.
unfoldable pub inc_int : ℤ → ℤ
inc_int n = wrap_int (suc_ℤ n)

unfoldable pub double_int : ℤ → ℤ
double_int (pos n) = wrap_int (pos (n * 2))
double_int (negsuc n) = wrap_int (negsuc (n * 2 + 1))

-- -2^63 ≤ n < 2^63, and the same with 2^31.
abbrev pub IsInt : ℤ → Type 0
IsInt n = (pos_part n < 2 ^ 63) × (neg_part n ≤ 2 ^ 63)

abbrev pub IsInt32 : ℤ → Type 0
IsInt32 n = (pos_part n < 2 ^ 31) × (neg_part n ≤ 2 ^ 31)

-- Below another `int` the successor does not wrap.
pub inc_int-eq-suc : (n m : ℤ) → IsInt n → IsInt m → n <ℤ m → inc_int n ≡ suc_ℤ n
unfolding inc_int
inc_int-eq-suc (pos n) m hn hm lt = ground (arith)
inc_int-eq-suc (negsuc n) m hn hm lt = ground (arith)

pub suc_ℤ-IsInt : (n m : ℤ) → IsInt n → IsInt m → n <ℤ m → IsInt (suc_ℤ n)
suc_ℤ-IsInt (pos n) m hn hm lt = ground arith
suc_ℤ-IsInt (negsuc n) m hn hm lt = ground arith

-- How far the first lies above the second, and 0 where it does not.
abbrev pub gap : ℤ → ℤ → ℕ
gap m n = (pos_part m + neg_part n) - (pos_part n + neg_part m)

pub gap-suc_ℤ : (m n : ℤ) → n <ℤ m → gap m (suc_ℤ n) + 1 ≡ gap m n
gap-suc_ℤ m (pos n) lt = ground arith
gap-suc_ℤ m (negsuc n) lt = ground arith

pub IsInt32-IsInt : (n : ℤ) → IsInt32 n → IsInt n
IsInt32-IsInt n h = omega arith

pub inc_int-IsInt32 : (n m : ℤ) → IsInt32 n → IsInt32 m → n <ℤ m → IsInt32 (inc_int n)
unfolding inc_int
inc_int-IsInt32 (pos n) m hn hm lt = ground arith
inc_int-IsInt32 (negsuc n) m hn hm lt = ground arith

-- Nothing lies above a number that is not below.
pub gap_zero : (m n : ℤ) → m ≤ℤ n → gap m n ≡ 0
gap_zero m n h = omega arith

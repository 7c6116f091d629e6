-- ===== src/Amqpx/Retry.antt =====
-- internal/amqpx/retry.go: the retry counter in the message headers.
pub mod RoundTrip
use rabbitmq_go.Base.{
  ℕ, ◌^◌, ◌-◌, ℤ, pos, negsuc, ltb_ℤ, Bool, ◌||◌, Option, none, some, List, [], ◌∷◌, Str, bytes,
  put, find, if◌then◌else◌,
}
use rabbitmq_go.Errors.{GoError, Result, ok, err, number}
use rabbitmq_go.Amqp.{Value, int32, int64, int, Table, entries, get}

-- `RetryCountHeader`.
abbrev pub retry_count_header : Str
retry_count_header = bytes "x-retry-count"

-- `math.MaxInt32` and `math.MinInt32`.
abbrev pub max_int32 : ℤ
max_int32 = pos (2 ^ 31 - 1)

abbrev pub min_int32 : ℤ
min_int32 = negsuc (2 ^ 31 - 1)

-- The type switch of `ReadRetryCount`; `int` has 64 bits, so no conversion changes the number.
unfoldable pub count_of_value : Value → ℤ
count_of_value (int32 v) = v
count_of_value (int64 v) = v
count_of_value (int v) = v
count_of_value _ = pos 0

-- `ReadRetryCount`.
unfoldable pub read_retry_count : Table → ℤ
unfolding count_of_value
read_retry_count none = pos 0
read_retry_count (some m) = elim (find retry_count_header m) [
  | none ↦ pos 0
  | some v ↦ count_of_value v
]

-- `NextRetryHeaders`. The original table is copied, so it is not changed.
unfoldable pub next_retry_headers : Table → ℤ → Result Table
next_retry_headers original count =
    if ltb_ℤ max_int32 count || ltb_ℤ count min_int32
    then err (number (bytes "rabbitmq: retry count out of int32 range: ") count)
    else ok (some (put retry_count_header (int32 count) (entries original)))

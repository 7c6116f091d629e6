-- ===== src/Amqpx/Retry/RoundTrip.antt =====
-- internal/amqpx/retry.go: what is written by `NextRetryHeaders` is read back by `ReadRetryCount`.
use rabbitmq_go.Base.{
  ℤ, pos_part, neg_part, IsInt32, some, ◌≡◌, ◌≢◌, refl, ◌⊎◌, Str, put, find-put_self, find-put_ne,
  bytes, arith, ◌^◌, ◌<◌, ◌≤◌,
}
use rabbitmq_go.Errors.{ok, err, number}
use rabbitmq_go.Amqp.{int32, Table, entries, get}
use rabbitmq_go.Amqpx.Retry.{retry_count_header, read_retry_count, next_retry_headers}

-- `NextRetryHeaders` gives a table exactly for a count that fits an `int32`.
pub next_retry_headers-IsInt32 :
    (original t : Table) (count : ℤ) → next_retry_headers original count ≡ ok t → IsInt32 count
unfolding next_retry_headers
next_retry_headers-IsInt32 original t count h = ground arith

pub next_retry_headers_total :
    (original : Table) (count : ℤ)
    → IsInt32 count
    → next_retry_headers original count
      ≡ ok (some (put retry_count_header (int32 count) (entries original)))
unfolding next_retry_headers
next_retry_headers_total original count h = ground arith

abbrev written : Table → ℤ → Table
written original count = some (put retry_count_header (int32 count) (entries original))

read_written : (original : Table) (count : ℤ) → read_retry_count (written original count) ≡ count
unfolding read_retry_count
read_written original count =
    rw (find-put_self retry_count_header (int32 count) (entries original), read_retry_count) refl

-- For a count that fits an `int32`, `NextRetryHeaders` succeeds with a table in which
-- `ReadRetryCount` reads that count and every key but the counter's has the value that it had.
pub read_retry_count-next_retry_headers :
    (original : Table) (count : ℤ) (key : Str)
    → IsInt32 count
    → key ≢ retry_count_header
    → (t : Table) × (next_retry_headers original count ≡ ok t)
      × (read_retry_count t ≡ count)
      × (get key t ≡ get key original)
read_retry_count-next_retry_headers original count key h ne = (
  written original count,
  next_retry_headers_total original count h,
  read_written original count,
  find-put_ne retry_count_header key (int32 count) (entries original) ne,
)

-- A count outside the `int32` range is refused, with the count in the error.
pub next_retry_headers_out_of_range :
    (original : Table) (count : ℤ)
    → (2 ^ 31 ≤ pos_part count) ⊎ (2 ^ 31 < neg_part count)
    → (text : Str) × (next_retry_headers original count ≡ err (number text count))
unfolding next_retry_headers
next_retry_headers_out_of_range original count h =
    (bytes "rabbitmq: retry count out of int32 range: ", ground arith)

-- What `NextRetryHeaders` returns with no error has the count that it was given.
pub read_retry_count_of_next :
    (original t : Table) (count : ℤ)
    → next_retry_headers original count ≡ ok t
    → (read_retry_count t ≡ count) × IsInt32 count
read_retry_count_of_next original t count e =
    let fits = next_retry_headers-IsInt32 original t count e in
    let made = next_retry_headers_total original count fits in
    let eq : t ≡ written original count = cc in (rw eq (read_written original count), fits)

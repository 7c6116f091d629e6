-- ===== src/Otel/Carrier/Retried.antt =====
-- pkg/otelrabbitmq/carrier.go and internal/amqpx/retry.go: a propagated context reaches the retries.
use rabbitmq_go.Base.{
  ℤ, Option, none, some, List, [], ◌∷◌, ◌≡◌, ◌≢◌, refl, ap, sym, ◌∙◌, arith, Str, str_eq, find, put,
  find-put, find-put_ne, if◌then◌else◌,
}
use rabbitmq_go.Errors.{ok}
use rabbitmq_go.Amqp.{Value, int32, string, Table}
use rabbitmq_go.Amqpx.Retry.{retry_count_header, read_retry_count, next_retry_headers}
use rabbitmq_go.Otel.Carrier.{carrier_get, carrier_set, inject}

-- The value of the last field with a key.
abbrev pub last_field : Str → List (Str × Str) → Option Str
last_field k [] = none
last_field k ((j, v) ∷ fields) = elim (last_field k fields) [
  | some w ↦ some w
  | none ↦ if str_eq j k then some v else none
]

-- The fields, put into the entries of a table.
abbrev put_all : List (Str × Str) → List (Str × Value) → List (Str × Value)
put_all [] m = m
put_all ((j, v) ∷ fields) m = put_all fields (put j (string v) m)

inject-put_all :
    (fields : List (Str × Str)) (m : List (Str × Value))
    → inject fields (some m) ≡ some (put_all fields m)
unfolding inject carrier_set
inject-put_all [] m = refl
inject-put_all ((j, v) ∷ fields) m = inject-put_all fields (put j (string v) m)

find-put_all :
    (k : Str) (fields : List (Str × Str)) (m : List (Str × Value))
    → find k (put_all fields m)
      ≡ elim (last_field k fields) [ some v ↦ some (string v) | none ↦ find k m ]
find-put_all k [] m = refl
find-put_all k ((j, v) ∷ fields) m =
    ground (arith, find-put_all k fields (put j (string v) m), find-put j k (string v) m)

retried_headers :
    (m : List (Str × Value)) (n : ℤ) (t : Table)
    → next_retry_headers (some m) n ≡ ok t
    → t ≡ some (put retry_count_header (int32 n) m)
unfolding next_retry_headers
retried_headers m n t h = ground arith

module _ (sprint : Value → Str) where
  carrier_get-put_all :
      (fields : List (Str × Str)) (m : List (Str × Value)) (k : Str)
      → carrier_get sprint (some (put_all fields m)) k
        ≡ elim (last_field k fields) [ some v ↦ v | none ↦ carrier_get sprint (some m) k ]
  unfolding carrier_get
  carrier_get-put_all fields m k = ground (arith, find-put_all k fields m)

  carrier_get_same :
      (m w : List (Str × Value)) (k : Str)
      → find k m ≡ find k w
      → carrier_get sprint (some m) k ≡ carrier_get sprint (some w) k
  unfolding carrier_get
  carrier_get_same m w k h = ground arith

read_retry_count_same :
    (m w : List (Str × Value))
    → find retry_count_header m ≡ find retry_count_header w
    → read_retry_count (some m) ≡ read_retry_count (some w)
unfolding read_retry_count
read_retry_count_same m w h = ground arith

-- What a carrier reads under a key after the injection of fields.
abbrev pub injected_text : (Value → Str) → List (Str × Str) → List (Str × Value) → Str → Str
injected_text sprint fields m k = elim (last_field k fields) [
  | some v ↦ v
  | none ↦ carrier_get sprint (some m) k
]

pub carrier_get-inject :
    (sprint : Value → Str) (fields : List (Str × Str)) (m : List (Str × Value)) (k : Str)
    → carrier_get sprint (inject fields (some m)) k ≡ injected_text sprint fields m k
carrier_get-inject sprint fields m k =
    ap (λ t. carrier_get sprint t k) (inject-put_all fields m)
    ∙ carrier_get-put_all sprint fields m k

-- Let a propagator inject fields, none of them named x-retry-count, into a header table, and let a
-- retry copy be made of it. Under every key but x-retry-count the carrier reads from the table and from
-- the retry copy the last field with this key, and if there is none, what it read before; and the
-- injection does not change the retry count.
pub context_reaches_retries :
    (sprint : Value → Str) (fields : List (Str × Str)) (m : List (Str × Value)) (n : ℤ) (t : Table)
    (k : Str)
    → last_field retry_count_header fields ≡ none
    → next_retry_headers (inject fields (some m)) n ≡ ok t
    → k ≢ retry_count_header
    → (carrier_get sprint (inject fields (some m)) k ≡ injected_text sprint fields m k)
      × (carrier_get sprint t k ≡ injected_text sprint fields m k)
      × (read_retry_count (inject fields (some m)) ≡ read_retry_count (some m))
context_reaches_retries sprint fields m n t k free h other =
    let all = put_all fields m in
    let made : inject fields (some m) ≡ some all = inject-put_all fields m in
    let copied : t ≡ some (put retry_count_header (int32 n) all) =
      retried_headers all n t (ap (λ c. next_retry_headers c n) (sym made) ∙ h) in
    let kept = find-put_ne retry_count_header k (int32 n) all other in
    let read = carrier_get-put_all sprint fields m k in
    rw made (
      rw copied (
        (
          read,
          carrier_get_same sprint _ all k kept ∙ read,
          read_retry_count_same all m (ground (arith, find-put_all retry_count_header fields m)),
        )))

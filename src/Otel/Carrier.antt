-- ===== src/Otel/Carrier.antt =====
-- pkg/otelrabbitmq/carrier.go: a header table as a carrier of text.
pub mod Retried
use rabbitmq_go.Base.{Option, none, some, List, [], ◌∷◌, map, Str, find, put}
use rabbitmq_go.Amqp.{Value, string, byte_slice, Table, entries}

-- The type switch of `headerCarrier.Get`; `sprint` is `fmt.Sprint` of the other values.
abbrev pub text_of : (Value → Str) → Value → Str
text_of sprint (string s) = s
text_of sprint (byte_slice s) = s
text_of sprint v = sprint v

-- `headerCarrier.Get`.
unfoldable pub carrier_get : (Value → Str) → Table → Str → Str
carrier_get sprint none key = []
carrier_get sprint (some m) key = elim (find key m) [ none ↦ [] | some v ↦ text_of sprint v ]

-- `headerCarrier.Set`.
unfoldable pub carrier_set : Str → Str → Table → Table
carrier_set key value none = none
carrier_set key value (some m) = some (put key (string value) m)

-- `headerCarrier.Keys`, in the order of the model's map.
unfoldable pub carrier_keys : Table → List Str
carrier_keys c = map (λ (e : Str × Value). e.0) (entries c)

-- What a propagator does to a carrier that it is given to inject into: it sets these fields.
unfoldable pub inject : List (Str × Str) → Table → Table
unfolding carrier_set
inject [] c = c
inject ((key, value) ∷ fields) c = inject fields (carrier_set key value c)

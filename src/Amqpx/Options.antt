-- ===== src/Amqpx/Options.antt =====
-- internal/amqpx/connection.go: the options of `Dial`, and what it makes of them for the client. The
-- dial function in them is left out.
use rabbitmq_go.Base.{
  ℕ, ℤ, Option, none, some, List, [], ◌≡◌, arith, Str, bytes, is_empty, str_eq, put, find-put,
  if◌then◌else◌,
}
use rabbitmq_go.Amqp.{Value, string, Table, get}
use rabbitmq_go.Config.{Config}

-- `DialOptions`.
pub record DialOptions : Type 0 where
  pub url : Str
  pub tls_client_config : Option ℕ
  pub heartbeat : ℤ
  pub locale : Str
  pub client_properties : Table
  pub connection_name : Str
  pub sasl : Option ℕ
  pub dial_timeout : ℤ
  pub connection_timeout : ℤ

-- The options that `connect` gives `Dial`.
unfoldable pub dial_options : Config → DialOptions
dial_options cfg = record {
  url = cfg.url;
  tls_client_config = cfg.tls_client_config;
  heartbeat = cfg.heartbeat;
  locale = cfg.locale;
  client_properties = cfg.client_properties;
  connection_name = cfg.connection_name;
  sasl = cfg.sasl;
  dial_timeout = cfg.dial_timeout;
  connection_timeout = cfg.connection_timeout;
}

-- `amqp.Config`, as far as `Dial` fills it.
pub record AmqpConfig : Type 0 where
  pub tls_client_config : Option ℕ
  pub heartbeat : ℤ
  pub locale : Str
  pub sasl : Option ℕ
  pub properties : Table

abbrev pub connection_name_key : Str
connection_name_key = bytes "connection_name"

abbrev pub named : Str → List (Str × Value) → List (Str × Value)
named name m = put connection_name_key (string name) m

-- The properties, and what is then in the map of `ClientProperties`, which is the same map.
unfoldable pub dial_properties : Table → Str → Table × Table
dial_properties none name = (if is_empty name then none else some (named name []), none)
dial_properties (some m) name =
    if is_empty name then (some m, some m) else (some (named name m), some (named name m))

-- The configuration of `Dial`, and what is then in the map of `ClientProperties`.
unfoldable pub dial_config : DialOptions → AmqpConfig × Table
unfolding dial_properties
dial_config opts =
    let (properties, client_properties) =
      dial_properties opts.client_properties opts.connection_name in
    (
      record {
        tls_client_config = opts.tls_client_config;
        heartbeat = opts.heartbeat;
        locale = opts.locale;
        sasl = opts.sasl;
        properties = properties;
      },
      client_properties,
    )

-- The caller's map, once the client has these properties: a nil map stays nil.
abbrev pub shared : Table → Table → Table
shared none properties = none
shared (some m) properties = properties

dial_properties_lem :
    (properties : Table) (name k : Str)
    → (get k (dial_properties properties name).0 ≡ (
        if is_empty name
        then get k properties
        else if str_eq connection_name_key k
        then some (string name)
        else get k properties))
      × ((dial_properties properties name).1
          ≡ shared properties (dial_properties properties name).0)
unfolding dial_properties
dial_properties_lem none name k = ground (arith, find-put connection_name_key k (string name) [])
dial_properties_lem (some m) name k = ground (arith, find-put connection_name_key k (string name) m)

-- The properties that `Dial` hands on for a `Config` have `ConnectionName` under connection_name, if it
-- is not empty, and every other property of `ClientProperties`; and if `ClientProperties` is not nil,
-- the map of the caller has them afterwards as well.
dial_config_lem :
    (cfg : Config) (k : Str)
    → let (sent, left) = dial_config (dial_options cfg) in
      (get k sent.properties ≡ (
        if is_empty cfg.connection_name
        then get k cfg.client_properties
        else if str_eq connection_name_key k
        then some (string cfg.connection_name)
        else get k cfg.client_properties))
      × (left ≡ shared cfg.client_properties sent.properties)
unfolding dial_config dial_options
dial_config_lem cfg k = dial_properties_lem cfg.client_properties cfg.connection_name k

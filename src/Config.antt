-- ===== src/Config.antt =====
-- pkg/rabbitmq/config.go: the configuration, its required fields and its defaults. Durations are
-- signed numbers of nanoseconds.
pub mod Normal
use rabbitmq_go.Base.{
  ℕ, ◌*◌, ℤ, pos, leb_ℤ, Bool, Option, none, some, Str, bytes, is_empty, if◌then◌else◌,
}
use rabbitmq_go.Errors.{GoError, Result, ok, err, text}
use rabbitmq_go.Amqp.{Table}

-- The values of the interface `Instrumentation`: `NopInstrumentation{}`, a pointer to one, and any
-- other implementation.
pub data Instrumentation : Type 0 where
  nop : Instrumentation
  nop_pointer : Instrumentation
  custom : ℕ → Instrumentation

-- `logging.NopLogger{}`, and any other implementation of `logging.Logger`.
pub data Logger : Type 0 where
  nop_logger : Logger
  custom_logger : ℕ → Logger

-- A TLS configuration and the SASL mechanisms are pointers that the library only hands on.
pub record Config : Type 0 where
  pub url : Str
  pub exchange : Str
  pub exchange_type : Str
  pub skip_exchange_declare : Bool
  pub channel_pool_size : ℤ
  pub max_channel_age : ℤ
  pub publish_confirm_timeout : ℤ
  pub default_content_type : Str
  pub prefetch_count : ℤ
  pub max_retries : ℤ
  pub disable_dead_letter : Bool
  pub dead_letter_exchange_suffix : Str
  pub dead_letter_queue_suffix : Str
  pub dial_timeout : ℤ
  pub tls_client_config : Option ℕ
  pub heartbeat : ℤ
  pub locale : Str
  pub client_properties : Table
  pub connection_name : Str
  pub sasl : Option ℕ
  pub connection_timeout : ℤ
  pub channel_create_timeout : ℤ
  pub confirm_enable_timeout : ℤ
  pub reconnect_max_backoff : ℤ
  pub logger : Option Logger
  pub instrumentation : Option Instrumentation

abbrev pub millisecond : ℕ
millisecond = 1_000_000

abbrev pub second : ℕ
second = 1_000_000_000

abbrev pub minute : ℕ
minute = 60 * second

abbrev pub default_exchange_type : Str
default_exchange_type = bytes "direct"

abbrev pub default_channel_pool_size : ℤ
default_channel_pool_size = pos 10

abbrev pub default_max_channel_age : ℤ
default_max_channel_age = pos (30 * minute)

abbrev pub default_publish_confirm_timeout : ℤ
default_publish_confirm_timeout = pos (5 * second)

abbrev pub default_content_type : Str
default_content_type = bytes "application/json"

abbrev pub default_dial_timeout : ℤ
default_dial_timeout = pos (10 * second)

abbrev pub default_connection_timeout : ℤ
default_connection_timeout = pos (15 * second)

abbrev pub default_channel_create_timeout : ℤ
default_channel_create_timeout = pos (5 * second)

abbrev pub default_confirm_enable_timeout : ℤ
default_confirm_enable_timeout = pos (5 * second)

abbrev pub default_reconnect_max_backoff : ℤ
default_reconnect_max_backoff = pos (30 * second)

abbrev pub default_dlx_suffix : Str
default_dlx_suffix = bytes ".dlx"

abbrev pub default_dlq_suffix : Str
default_dlq_suffix = bytes ".dlq"

-- `initialReconnectBackoff`, `reconnectIdleWait`, `consumerRestartSleep`, `deadLetterExchangeType`.
abbrev pub initial_reconnect_backoff : ℤ
initial_reconnect_backoff = pos second

abbrev pub dead_letter_exchange_type : Str
dead_letter_exchange_type = bytes "direct"

-- `Config.validate`; `none` is the nil error.
unfoldable pub validate : Config → Option GoError
validate c =
    if is_empty c.url
    then some (text (bytes "rabbitmq: Config.URL is required"))
    else if is_empty c.exchange
    then some (text (bytes "rabbitmq: Config.Exchange is required"))
    else none

-- `if field == "" { field = d }` and `if field <= 0 { field = d }`.
abbrev pub or_default : Str → Str → Str
or_default s d = if is_empty s then d else s

abbrev pub or_default_if_nonpos : ℤ → ℤ → ℤ
or_default_if_nonpos n d = if leb_ℤ n (pos 0) then d else n

-- `Config.normalize`.
unfoldable pub normalize : Config → Config
normalize c = record c {
  exchange_type = or_default c.exchange_type default_exchange_type;
  channel_pool_size = or_default_if_nonpos c.channel_pool_size default_channel_pool_size;
  max_channel_age = or_default_if_nonpos c.max_channel_age default_max_channel_age;
  publish_confirm_timeout =
      or_default_if_nonpos c.publish_confirm_timeout default_publish_confirm_timeout;
  default_content_type = or_default c.default_content_type default_content_type;
  dial_timeout = or_default_if_nonpos c.dial_timeout default_dial_timeout;
  connection_timeout = or_default_if_nonpos c.connection_timeout default_connection_timeout;
  channel_create_timeout =
      or_default_if_nonpos c.channel_create_timeout default_channel_create_timeout;
  confirm_enable_timeout =
      or_default_if_nonpos c.confirm_enable_timeout default_confirm_enable_timeout;
  reconnect_max_backoff =
      or_default_if_nonpos c.reconnect_max_backoff default_reconnect_max_backoff;
  dead_letter_exchange_suffix = or_default c.dead_letter_exchange_suffix default_dlx_suffix;
  dead_letter_queue_suffix = or_default c.dead_letter_queue_suffix default_dlq_suffix;
}

-- `Config.logger`.
unfoldable pub logger : Config → Logger
logger c = elim c.logger [ none ↦ nop_logger | some l ↦ l ]

-- `Config.instrumentation`.
unfoldable pub instrumentation : Config → Instrumentation
instrumentation c = elim c.instrumentation [ none ↦ nop | some i ↦ i ]

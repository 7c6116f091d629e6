-- ===== src/Examples.antt =====
-- Concrete inputs, the tests on them, and the theorems at them.
pub mod Connecting
pub mod Consuming
pub mod Dialing
pub mod Interleaving
pub mod Observing
pub mod Running
pub mod Sending
pub mod Sessions
pub mod Setup
pub mod Spanning
pub mod Stopping
pub mod Watching
use rabbitmq_go.Base.{ℤ, pos, false, none, some, [], ◌∷◌, bytes}
use rabbitmq_go.Amqp.{int32, string, Table, Publishing, Delivery}
use rabbitmq_go.Config.{Config}

-- A configuration in which only the required fields and the number of retries are set.
abbrev pub raw_config : Config
raw_config = record {
  url = bytes "amqp://localhost";
  exchange = bytes "orders";
  exchange_type = [];
  skip_exchange_declare = false;
  channel_pool_size = pos 0;
  max_channel_age = pos 0;
  publish_confirm_timeout = pos 0;
  default_content_type = [];
  prefetch_count = pos 1;
  max_retries = pos 2;
  disable_dead_letter = false;
  dead_letter_exchange_suffix = bytes ".dlx";
  dead_letter_queue_suffix = bytes ".dlq";
  dial_timeout = pos 0;
  tls_client_config = none;
  heartbeat = pos 0;
  locale = [];
  client_properties = none;
  connection_name = [];
  sasl = none;
  connection_timeout = pos 0;
  channel_create_timeout = pos 0;
  confirm_enable_timeout = pos 0;
  reconnect_max_backoff = pos 0;
  logger = none;
  instrumentation = none;
}

-- A delivery with these headers.
abbrev pub delivery : Table → Delivery
delivery headers = record {
  headers = headers;
  content_type = bytes "application/json";
  content_encoding = [];
  delivery_mode = 2;
  priority = 0;
  correlation_id = bytes "c-1";
  reply_to = [];
  expiration = [];
  message_id = bytes "m-1";
  timestamp = 0;
  type = [];
  user_id = [];
  app_id = [];
  delivery_tag = 7;
  redelivered = false;
  exchange = bytes "orders";
  routing_key = bytes "created";
  body = bytes "{}";
}

-- The delivery of a publishing, as the broker makes it.
abbrev pub delivered : Publishing → Delivery
delivered p = record (delivery p.headers) { body = p.body; content_type = p.content_type }

-- A delivery that was retried so often, by its header.
abbrev pub retried : ℤ → Delivery
retried n =
    delivery (some ((bytes "x-retry-count", int32 n) ∷ (bytes "trace", string (bytes "t")) ∷ []))

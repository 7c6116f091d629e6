-- ===== src/Amqp.antt =====
-- The types of github.com/rabbitmq/amqp091-go that the library reads and fills: header tables,
-- publishings, deliveries and returned messages. Only the fields that the library names are here.
-- Times are numbers of nanoseconds.
use rabbitmq_go.Base.{ℕ, ℤ, Bool, Option, none, some, List, [], Str, find}

-- A value of a header table, by its dynamic type; `other` is any type that the library does not name.
pub data Value : Type 0 where
  int32 : ℤ → Value
  int64 : ℤ → Value
  int : ℤ → Value
  string : Str → Value
  byte_slice : Str → Value
  other : ℕ → Value

-- `amqp.Table`, a map; `none` is the nil map.
abbrev pub Table : Type 0
Table = Option (List (Str × Value))

-- The entries of a table: the nil map has none.
abbrev pub entries : Table → List (Str × Value)
entries none = []
entries (some m) = m

-- `v, ok := t[key]`.
abbrev pub get : Str → Table → Option Value
get key t = find key (entries t)

-- `amqp.Persistent`.
abbrev pub persistent : ℕ
persistent = 2

-- `amqp.PreconditionFailed`.
abbrev pub precondition_failed : ℕ
precondition_failed = 406

pub record Publishing : Type 0 where
  pub headers : Table
  pub content_type : Str
  pub content_encoding : Str
  pub delivery_mode : ℕ
  pub priority : ℕ
  pub correlation_id : Str
  pub reply_to : Str
  pub expiration : Str
  pub message_id : Str
  pub timestamp : ℕ
  pub type : Str
  pub user_id : Str
  pub app_id : Str
  pub body : Str

pub record Delivery : Type 0 where
  pub headers : Table
  pub content_type : Str
  pub content_encoding : Str
  pub delivery_mode : ℕ
  pub priority : ℕ
  pub correlation_id : Str
  pub reply_to : Str
  pub expiration : Str
  pub message_id : Str
  pub timestamp : ℕ
  pub type : Str
  pub user_id : Str
  pub app_id : Str
  pub delivery_tag : ℕ
  pub redelivered : Bool
  pub exchange : Str
  pub routing_key : Str
  pub body : Str

-- A message that the broker returns as unroutable.
pub record Return : Type 0 where
  pub reply_code : ℕ
  pub reply_text : Str
  pub exchange : Str
  pub routing_key : Str
  pub headers : Table
  pub content_type : Str
  pub content_encoding : Str
  pub delivery_mode : ℕ
  pub priority : ℕ
  pub correlation_id : Str
  pub reply_to : Str
  pub expiration : Str
  pub message_id : Str
  pub timestamp : ℕ
  pub type : Str
  pub user_id : Str
  pub app_id : Str
  pub body : Str

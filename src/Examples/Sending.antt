-- ===== src/Examples/Sending.antt =====
-- A publisher, its pool and its connection.
use rabbitmq_go.Base.{
  true, false, none, some, [], ◌∷◌, ◌≡◌, refl, arith, ◌==◌, if◌then◌else◌, inr, bytes,
}
use rabbitmq_go.Errors.{ok}
use rabbitmq_go.Config.{normalize}
use rabbitmq_go.Publisher.{Publisher, PublishMessage, Client, confirm_enabled, answered, waited_out}
use rabbitmq_go.Publisher.Pool.{
  borrow_channel, get_channel, create_pooled_channel, borrow_from, create_confirm_channel, warm,
  warm_one, store_warm, warm_channel_pool, drain, drain_channel_pool,
}
use rabbitmq_go.Publisher.Pool.Accounts.{Lent, Inv}
use rabbitmq_go.Publisher.Publish.{
  publish_message, plain_message, confirm_error_of, publish_on_channel, await_return,
  publish_mandatory, publish, normalize_publish_message,
}
use rabbitmq_go.Publisher.Publish.Channels.{prepared}
use rabbitmq_go.Publisher.Publish.Sound.{Succeeds, publish_message_sound}
use rabbitmq_go.Publisher.Connection.{
  connect, close, establish_connection, swap_pool, close_current,
}
use rabbitmq_go.Publisher.History.{
  State, Reach, gets, connects, here, next, new_publisher, initial, Reach-IsAccounted,
}
use rabbitmq_go.Publisher.History.Leak.{Connects, connect_after_close}
use rabbitmq_go.Examples.{raw_config}

-- A client for which all goes well.
abbrev pub client : Client
client = record {
  opening = λ _. confirm_enabled;
  dial = λ _. none;
  declare_exchange = λ _. none;
  publish = λ _ _. none;
  publish_confirmed = λ _ _. answered true;
  returns = λ _ _. waited_out;
  closes = λ _ _. false;
  elapsed = λ _ _. 1;
}

-- A publisher with a connection, one channel in its pool, and no more.
abbrev pub publisher : Publisher
publisher = record {
  cfg = normalize raw_config;
  instr_is_nop = true;
  connection = some 0;
  channel_pool = some ((record { ch = 0; created_at = 0 }) ∷ []);
  channel_meta = λ _. none;
  closed = false;
  open_channel = λ i. i == 0;
  next_channel = 1;
  open_connection = λ i. i == 0;
  next_connection = 1;
  now = 5;
  sent = [];
  questions = 0;
}

abbrev nobody : Lent
nobody = λ _. false

publisher-Inv : Inv publisher nobody
unfolding normalize
publisher-Inv = record { accounted = λ i. ground arith; bounded = omega arith }

-- A mandatory message whose confirm is awaited.
abbrev pub order : PublishMessage
order = record (plain_message (bytes "orders") (bytes "created") (bytes "{}") true) {
  mandatory = true;
}

order_sent : (publish_message client (λ _ t. t) order publisher).0 ≡ none
unfolding publish_message publish borrow_channel borrow_from publish_mandatory publish_on_channel
    confirm_error_of await_return normalize_publish_message normalize plain_message
order_sent = refl

publish_message_sound_example :
    (false ≡ false)
    × Succeeds client
        (prepared (λ _ t. t) order publisher)
        publisher
        (publish_message client (λ _ t. t) order publisher).1
publish_message_sound_example = publish_message_sound client (λ _ t. t) order publisher order_sent

client-Connects : Connects client (close publisher)
client-Connects = record { dials = refl; declares = inr refl }

shut : (close publisher).closed ≡ true
unfolding close close_current drain_channel_pool drain
shut = refl

connect_after_close_example :
    let q = (connect client (close publisher)).1 in
    (q.closed ≡ true)
    × (q.connection ≡ some (close publisher).next_connection)
    × (q.open_connection (close publisher).next_connection ≡ true)
    × (close q ≡ q)
connect_after_close_example = connect_after_close client (close publisher) shut client-Connects

-- A new publisher connects, and a caller takes a channel of its warm pool.
abbrev pub connected : State
connected = record { publisher = (connect client (new_publisher raw_config)).1; lent = nobody }

abbrev took : State
took = record {
  publisher = (get_channel client connected.publisher).1;
  lent = λ i. if 0 == i then true else false;
}

pub got : (get_channel client connected.publisher).0 ≡ ok 0
unfolding get_channel borrow_channel borrow_from connect establish_connection swap_pool drain
    warm_channel_pool warm warm_one create_pooled_channel create_confirm_channel store_warm
    new_publisher normalize
got = refl

took-Reach : Reach client (λ _ t. t) (initial raw_config) took
took-Reach = next (next here connects) (gets 0 got)

Reach-IsAccounted_example : Inv took.publisher took.lent
Reach-IsAccounted_example = Reach-IsAccounted client (λ _ t. t) raw_config took took-Reach

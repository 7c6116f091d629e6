-- ===== src/Publisher/Publish.antt =====
-- pkg/rabbitmq/publisher.go: `Publish`, `PublishMessage`, `publish` and `publishOnChannel`. The
-- contexts' values and the log are left out.
pub mod Sound
pub mod Observed
pub mod Channels
use rabbitmq_go.Base.{
  update, ℕ, ◌+◌, Bool, true, false, not, ◌&&◌, Option, none, some, [], ◌∷◌, Str, bytes, is_empty,
  ◌==◌, if◌then◌else◌,
}
use rabbitmq_go.Errors.{GoError, text, is_deadline_exceeded, ok, err}
use rabbitmq_go.Amqp.{Publishing, Return, Table, persistent}
use rabbitmq_go.Config.{Config, or_default}
use rabbitmq_go.Publisher.{
  PooledChannel, Sent, PublishMessage, ReturnedMessage, PublishError, publish_returned, failed,
  Publisher, Confirmation, publish_failed, no_confirmation, wait_failed, answered, Returned,
  came_back, waited_out, context_done, Client, M,
}
use rabbitmq_go.Publisher.Pool.{close_channel, forget, borrow_channel, return_pooled}

-- The message that `Publish` hands to `PublishMessage`: the zero value but for four fields.
unfoldable pub plain_message : Str → Str → Str → Bool → PublishMessage
plain_message exchange routing_key body wait_for_confirm = record {
  exchange = exchange;
  routing_key = routing_key;
  body = body;
  headers = none;
  content_type = [];
  content_encoding = [];
  delivery_mode = 0;
  priority = 0;
  correlation_id = [];
  reply_to = [];
  expiration = [];
  message_id = [];
  timestamp = 0;
  type = [];
  user_id = [];
  app_id = [];
  mandatory = false;
  immediate = false;
  wait_for_confirm = wait_for_confirm;
}

-- `normalizePublishMessage`.
unfoldable pub normalize_publish_message : Publisher → PublishMessage → PublishMessage
normalize_publish_message p msg = record msg {
  exchange = or_default msg.exchange p.cfg.exchange;
  headers = elim msg.headers [
    | some m ↦ some m
    | none ↦ if not p.instr_is_nop then some [] else none
  ];
  content_type = or_default msg.content_type p.cfg.default_content_type;
  delivery_mode = if msg.delivery_mode == 0 then persistent else msg.delivery_mode;
}

-- The publishing that `publish` builds.
unfoldable pub publishing_of : PublishMessage → Publishing
publishing_of msg = record {
  headers = msg.headers;
  content_type = msg.content_type;
  content_encoding = msg.content_encoding;
  delivery_mode = msg.delivery_mode;
  priority = msg.priority;
  correlation_id = msg.correlation_id;
  reply_to = msg.reply_to;
  expiration = msg.expiration;
  message_id = msg.message_id;
  timestamp = msg.timestamp;
  type = msg.type;
  user_id = msg.user_id;
  app_id = msg.app_id;
  body = msg.body;
}

-- `returnedMessage`.
unfoldable pub returned_message : Return → ReturnedMessage
returned_message ret = record {
  reply_code = ret.reply_code;
  reply_text = ret.reply_text;
  exchange = ret.exchange;
  routing_key = ret.routing_key;
  message = record {
    headers = ret.headers;
    content_type = ret.content_type;
    content_encoding = ret.content_encoding;
    delivery_mode = ret.delivery_mode;
    priority = ret.priority;
    correlation_id = ret.correlation_id;
    reply_to = ret.reply_to;
    expiration = ret.expiration;
    message_id = ret.message_id;
    timestamp = ret.timestamp;
    type = ret.type;
    user_id = ret.user_id;
    app_id = ret.app_id;
    body = ret.body;
  };
}

-- What is handed to the client for a message on a channel.
abbrev pub sent_as : ℕ → PublishMessage → Sent
sent_as ch msg = record {
  ch = ch;
  exchange = msg.exchange;
  routing_key = msg.routing_key;
  mandatory = msg.mandatory;
  immediate = msg.immediate;
  publishing = publishing_of msg;
}

-- The end of a publish with a wait, in `publishOnChannel`.
unfoldable pub confirm_error_of : Confirmation → Option GoError
confirm_error_of (publish_failed e) = some e
confirm_error_of no_confirmation =
    some (text (bytes "rabbitmq: publisher confirms not enabled on channel"))
confirm_error_of (wait_failed e) =
    if is_deadline_exceeded e
    then some (text (bytes "rabbitmq: timeout waiting for publish confirmation"))
    else some e
confirm_error_of (answered true) = none
confirm_error_of (answered false) =
    some (text (bytes "rabbitmq: message was not acknowledged by broker"))

-- The state after a publish was handed to the client.
abbrev pub after_send : Client → Sent → Publisher → Publisher
after_send client s p = record p {
  sent = s ∷ p.sent;
  open_channel = update p.open_channel s.ch (p.open_channel s.ch && not (client.closes p s));
  now = p.now + client.elapsed p s;
  questions = p.questions + 1;
}

-- `publishOnChannel`.
unfoldable pub publish_on_channel : Client → ℕ → PublishMessage → M (Option GoError)
unfolding confirm_error_of
publish_on_channel client ch msg p =
    let s = sent_as ch msg in
    if not msg.wait_for_confirm
    then (client.publish p s, after_send client s p)
    else (confirm_error_of (client.publish_confirmed p s), after_send client s p)

-- The `select` of `publish` after a mandatory publish.
unfoldable pub await_return : Client → Sent → Publisher → Option PublishError
unfolding returned_message
await_return client s p = elim (client.returns p s) [
  | came_back ret ↦ some (publish_returned (returned_message ret))
  | waited_out ↦ none
  | context_done e ↦ some (failed e)
]

-- The two ways of `publish` on a borrowed channel, with the deferred clean-up: a channel that a
-- mandatory publish used is closed, any other is returned.
unfoldable pub publish_mandatory : Client → PooledChannel → PublishMessage → M (Option PublishError)
publish_mandatory client pch msg p =
    let (e, q) = publish_on_channel client pch.ch msg p in
    let r = forget pch.ch (close_channel pch.ch q) in
    elim e [
      | some e ↦ (some (failed e), r)
      | none ↦ (await_return client (sent_as pch.ch msg) q, r)
    ]

unfoldable pub publish_optional : Client → PooledChannel → PublishMessage → M (Option PublishError)
publish_optional client pch msg p =
    let (e, q) = publish_on_channel client pch.ch msg p in
    (elim e [ some e ↦ some (failed e) | none ↦ none ], return_pooled pch q)

-- `publish`.
unfoldable pub publish : Client → PublishMessage → M (Option PublishError)
publish client msg p =
    let (borrowed, q) = borrow_channel client p in
    elim borrowed [
      | err e ↦ (some (failed e), q)
      | ok pch ↦
          if msg.mandatory
          then publish_mandatory client pch msg q
          else publish_optional client pch msg q
    ]

-- What the instrumentation's `StartPublish` does to the headers, which it may change.
abbrev pub Injection : Type 0
Injection = Publisher → Table → Table

-- `PublishMessage`.
unfoldable pub publish_message : Client → Injection → PublishMessage → M (Option PublishError)
publish_message client inject msg p =
    if p.closed
    then (some (failed (text (bytes "rabbitmq: publisher is closed"))), p)
    else let m = normalize_publish_message p msg in
      publish client (if p.instr_is_nop then m else record m { headers = inject p m.headers }) p

-- `Publish`.
unfoldable pub publish_body : Client → Injection → Str → Str → Str → Bool → M (Option PublishError)
publish_body client inject exchange routing_key body wait_for_confirm =
    publish_message client inject (plain_message exchange routing_key body wait_for_confirm)

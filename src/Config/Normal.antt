-- ===== src/Config/Normal.antt =====
-- pkg/rabbitmq/config.go: what `normalize` and `validate` establish.
use rabbitmq_go.Base.{
  ℤ, pos, ◌<ℤ◌, false, none, [], Str, is_empty, ◌≡◌, ◌≢◌, refl, subst, ◌↔◌, arith,
}
use rabbitmq_go.Config.{Config, or_default, or_default_if_nonpos, normalize, validate}

-- Every field that has a default is set: a text that is not empty, a number above 0.
pub record IsNormal (c : Config) : Type 0 where
  pub exchange_type : is_empty c.exchange_type ≡ false
  pub channel_pool_size : pos 0 <ℤ c.channel_pool_size
  pub max_channel_age : pos 0 <ℤ c.max_channel_age
  pub publish_confirm_timeout : pos 0 <ℤ c.publish_confirm_timeout
  pub default_content_type : is_empty c.default_content_type ≡ false
  pub dial_timeout : pos 0 <ℤ c.dial_timeout
  pub connection_timeout : pos 0 <ℤ c.connection_timeout
  pub channel_create_timeout : pos 0 <ℤ c.channel_create_timeout
  pub confirm_enable_timeout : pos 0 <ℤ c.confirm_enable_timeout
  pub reconnect_max_backoff : pos 0 <ℤ c.reconnect_max_backoff
  pub dead_letter_exchange_suffix : is_empty c.dead_letter_exchange_suffix ≡ false
  pub dead_letter_queue_suffix : is_empty c.dead_letter_queue_suffix ≡ false

is_empty-or_default : (s d : Str) → is_empty d ≡ false → is_empty (or_default s d) ≡ false
is_empty-or_default s d h = ground arith

pos-or_default : (n d : ℤ) → pos 0 <ℤ d → pos 0 <ℤ or_default_if_nonpos n d
pos-or_default n d h = ground arith

normalize-IsNormal : (c : Config) → IsNormal (normalize c)
unfolding normalize
normalize-IsNormal c = record {
  exchange_type = is_empty-or_default c.exchange_type _ refl;
  channel_pool_size = pos-or_default c.channel_pool_size _ (omega arith);
  max_channel_age = pos-or_default c.max_channel_age _ (omega arith);
  publish_confirm_timeout = pos-or_default c.publish_confirm_timeout _ (omega arith);
  default_content_type = is_empty-or_default c.default_content_type _ refl;
  dial_timeout = pos-or_default c.dial_timeout _ (omega arith);
  connection_timeout = pos-or_default c.connection_timeout _ (omega arith);
  channel_create_timeout = pos-or_default c.channel_create_timeout _ (omega arith);
  confirm_enable_timeout = pos-or_default c.confirm_enable_timeout _ (omega arith);
  reconnect_max_backoff = pos-or_default c.reconnect_max_backoff _ (omega arith);
  dead_letter_exchange_suffix = is_empty-or_default c.dead_letter_exchange_suffix _ refl;
  dead_letter_queue_suffix = is_empty-or_default c.dead_letter_queue_suffix _ refl;
}

normalize_of_IsNormal : (c : Config) → IsNormal c → normalize c ≡ c
unfolding normalize
normalize_of_IsNormal c n = ground arith

-- `normalize` sets every field that has a default, whatever it is given, and it changes nothing of a
-- configuration exactly when all those fields are set already.
normalize_iff : (c : Config) → IsNormal (normalize c) × ((normalize c ≡ c) ↔ IsNormal c)
normalize_iff c =
    (normalize-IsNormal c, (λ e. subst IsNormal e (normalize-IsNormal c), normalize_of_IsNormal c))

-- `validate` passes a configuration exactly when its URL and its exchange are not empty, and
-- `normalize` does not change its verdict.
validate_iff :
    (c : Config)
    → ((validate c ≡ none) ↔ ((c.url ≢ []) × (c.exchange ≢ [])))
      × (validate (normalize c) ≡ validate c)
unfolding validate normalize
validate_iff c = ((λ h. ((λ e. ground arith), (λ e. ground arith)), λ h. ground arith), refl)

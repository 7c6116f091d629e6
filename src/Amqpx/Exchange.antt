-- ===== src/Amqpx/Exchange.antt =====
-- internal/amqpx/connection.go: `DeclareExchange`.
use rabbitmq_go.Base.{
  Bool, true, false, Option, none, some, [], ◌∷◌, ◌≡◌, arith, ◌⊎◌, ◌↔◌, Str, tally,
}
use rabbitmq_go.Errors.{GoError}
use rabbitmq_go.Topology.{Call, open_channel, close_channel, exchange_declare, Calls, Channel}

-- The call of `DeclareExchange`: a durable exchange.
abbrev pub durable_exchange : Str → Str → Call
durable_exchange name kind = exchange_declare name kind true false false false none

-- `DeclareExchange`, with the deferred `ch.Close`; `none` is the nil error.
unfoldable pub declare_exchange : Channel → Str → Str → Option GoError × Calls
declare_exchange channel name kind = elim (channel [] open_channel) [
  | some e ↦ (some e, open_channel ∷ [])
  | none ↦ (
    channel (open_channel ∷ []) (durable_exchange name kind),
    close_channel ∷ durable_exchange name kind ∷ open_channel ∷ [],
  )
]

abbrev pub is_open_call : Call → Bool
is_open_call open_channel = true
is_open_call _ = false

abbrev pub is_close_call : Call → Bool
is_close_call close_channel = true
is_close_call _ = false

-- `DeclareExchange` closes the channel that it opens, whatever the broker says of the exchange, and
-- returns nil if and only if the broker opens the channel and takes the exchange.
declare_exchange_lem :
    (channel : Channel) (name kind : Str)
    → let (e, calls) = declare_exchange channel name kind in
      (tally is_close_call calls ≡ 1
        ⊎ ((e ≡ channel [] open_channel) × (tally is_close_call calls ≡ 0)))
      × ((e ≡ none) ↔ (
          (channel [] open_channel ≡ none)
          × (channel (open_channel ∷ []) (durable_exchange name kind) ≡ none)))
unfolding declare_exchange
declare_exchange_lem channel name kind = ground arith

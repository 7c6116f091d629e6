-- ===== src/Publisher/Pool.antt =====
-- pkg/rabbitmq/pool.go: the cache of idle channels. Each function is one atomic step of the model.
pub mod Accounts
pub mod Filling
pub mod Getting
use rabbitmq_go.Base.{
  update, ℕ, zero, suc, ◌+◌, ◌-◌, ℤ, pos, pos_part, ltb_ℤ, ltb, Bool, true, false, not, ◌||◌,
  Option, none, some, List, [], ◌∷◌, ◌++◌, bytes, length, if◌then◌else◌,
}
use rabbitmq_go.Errors.{GoError, text, Result, ok, err}
use rabbitmq_go.Publisher.{
  PooledChannel, Publisher, Opening, channel_error, channel_timeout, confirm_error, confirm_timeout,
  confirm_enabled, Client, M,
}

-- `ch.Close()` and `p.channelMeta.Delete(ch)`.
abbrev pub close_channel : ℕ → Publisher → Publisher
close_channel ch p = record p { open_channel = update p.open_channel ch false }

abbrev pub forget : ℕ → Publisher → Publisher
forget ch p = record p { channel_meta = update p.channel_meta ch none }

-- `conn == nil || conn.IsClosed()`.
abbrev pub is_disconnected : Publisher → Bool
is_disconnected p = elim p.connection [ none ↦ true | some conn ↦ not (p.open_connection conn) ]

-- A channel of the client that is opened, and one that is opened and closed again.
abbrev pub opened : Publisher → Publisher
opened p = record p {
  open_channel = update p.open_channel p.next_channel true;
  next_channel = p.next_channel + 1;
  questions = p.questions + 1;
}

abbrev pub opened_and_closed : Publisher → Publisher
opened_and_closed p = close_channel p.next_channel (opened p)

-- `createConfirmChannel`; `none` is the nil channel.
unfoldable pub create_confirm_channel : Client → M (Option ℕ)
create_confirm_channel client p = if is_disconnected p then (none, p) else elim (client.opening p) [
  | channel_error ↦ (none, record p { questions = p.questions + 1 })
  | channel_timeout ↦ (none, opened_and_closed p)
  | confirm_error ↦ (none, opened_and_closed p)
  | confirm_timeout ↦ (none, opened_and_closed p)
  | confirm_enabled ↦ (some p.next_channel, opened p)
]

-- `createPooledChannel`.
unfoldable pub create_pooled_channel : Client → M (Option PooledChannel)
unfolding create_confirm_channel
create_pooled_channel client p =
    let (ch, q) = create_confirm_channel client p in
    elim ch [ none ↦ (none, q) | some ch ↦ (some (record { ch = ch; created_at = q.now }), q) ]

-- `newChannelOrError`.
unfoldable pub new_channel_or_error : Client → M (Result PooledChannel)
unfolding create_pooled_channel
new_channel_or_error client p =
    let (pch, q) = create_pooled_channel client p in
    elim pch [
      | none ↦ (err (text (bytes "rabbitmq: failed to create channel")), q)
      | some pch ↦ (ok pch, q)
    ]

-- `pch.ch.IsClosed() || time.Since(pch.createdAt) > p.cfg.MaxChannelAge`. The clock is monotonic.
abbrev pub is_stale : Publisher → PooledChannel → Bool
is_stale p pch =
    not (p.open_channel pch.ch) || ltb_ℤ p.cfg.max_channel_age (pos (p.now - pch.created_at))

-- The `select` of `borrowChannel`, on what the pool holds.
unfoldable pub borrow_from : Client → List PooledChannel → M (Result PooledChannel)
borrow_from client [] p = new_channel_or_error client p
borrow_from client (pch ∷ rest) p =
    let q = record p { channel_pool = some rest } in
    if is_stale q pch
    then new_channel_or_error client (forget pch.ch (close_channel pch.ch q))
    else (ok pch, q)

-- `borrowChannel`.
unfoldable pub borrow_channel : Client → M (Result PooledChannel)
unfolding borrow_from
borrow_channel client p =
    if p.closed
    then (err (text (bytes "rabbitmq: publisher is closed")), p)
    else elim p.channel_pool [
      | none ↦ new_channel_or_error client p
      | some pool ↦ borrow_from client pool p
    ]

-- `GetChannel`.
unfoldable pub get_channel : Client → M (Result ℕ)
unfolding borrow_channel
get_channel client p =
    let (borrowed, q) = borrow_channel client p in
    elim borrowed [
      | err e ↦ (err e, q)
      | ok pch ↦ (
        ok pch.ch,
        record q { channel_meta = update q.channel_meta pch.ch (some pch.created_at) },
      )
    ]

-- The capacity of the pool, `cap(p.channelPool)`.
abbrev pub capacity : Publisher → ℕ
capacity p = pos_part p.cfg.channel_pool_size

-- `returnPooled`.
unfoldable pub return_pooled : PooledChannel → Publisher → Publisher
return_pooled pch p =
    let discarded = forget pch.ch (close_channel pch.ch p) in
    if not (p.open_channel pch.ch) || p.closed then discarded else elim p.channel_pool [
      | none ↦ discarded
      | some pool ↦
          if ltb (length pool) (capacity p)
          then record p { channel_pool = some (pool ++ pch ∷ []) }
          else discarded
    ]

-- The creation time that `GetChannel` noted, else the present.
abbrev pub created_at_of : ℕ → Publisher → ℕ
created_at_of ch p = elim (p.channel_meta ch) [ none ↦ p.now | some t ↦ t ]

-- `ReturnChannel`; `none` is the nil channel.
unfoldable pub return_channel : Option ℕ → Publisher → Publisher
return_channel none p = p
return_channel (some ch) p =
    if not (p.open_channel ch)
    then forget ch p
    else return_pooled (record { ch = ch; created_at = created_at_of ch p }) p

-- The loop of `drainPool` over what a pool holds.
unfoldable pub drain : List PooledChannel → Publisher → Publisher
drain [] p = p
drain (pch ∷ rest) p = drain rest (forget pch.ch (close_channel pch.ch p))

-- `drainChannelPool`.
unfoldable pub drain_channel_pool : Publisher → Publisher
drain_channel_pool p = elim p.channel_pool [
  | none ↦ p
  | some pool ↦ drain pool (record p { channel_pool = some [] })
]

-- A channel made by `warmChannelPool` is stored if the pool has room, else closed.
unfoldable pub store_warm : PooledChannel → Publisher → Publisher
store_warm pch p = elim p.channel_pool [
  | none ↦ close_channel pch.ch p
  | some pool ↦
      if ltb (length pool) (capacity p)
      then record p { channel_pool = some (pool ++ pch ∷ []) }
      else close_channel pch.ch p
]

-- One attempt of `warmChannelPool`, and its loop.
unfoldable pub warm_one : Client → Publisher → Publisher
unfolding create_pooled_channel store_warm
warm_one client p =
    let (pch, q) = create_pooled_channel client p in
    elim pch [ none ↦ q | some pch ↦ store_warm pch q ]

unfoldable pub warm : Client → ℕ → Publisher → Publisher
warm client zero p = p
warm client (suc attempts) p = warm client attempts (warm_one client p)

-- `warmChannelPool`.
unfoldable pub warm_channel_pool : Client → Publisher → Publisher
unfolding warm
warm_channel_pool client p = warm client (capacity p) p

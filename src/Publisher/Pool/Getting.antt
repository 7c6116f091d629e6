-- ===== src/Publisher/Pool/Getting.antt =====
-- pkg/rabbitmq/pool.go: what `GetChannel` gives, and what its caller holds then.
use rabbitmq_go.Base.{update, ℕ, true, some, ◌≡◌, refl, arith}
use rabbitmq_go.Errors.{GoError, Result, ok, err}
use rabbitmq_go.Publisher.{PooledChannel, Publisher, Client}
use rabbitmq_go.Publisher.Pool.{borrow_channel, get_channel}
use rabbitmq_go.Publisher.Pool.Accounts.{Lent, Inv, lend, borrow_channel-Inv}

-- What a caller of `GetChannel` holds then.
abbrev pub hold : Lent → Result ℕ → Lent
hold lent (ok ch) = update lent ch true
hold lent (err e) = lent

module _ (client : Client) where
  pub get_channel_borrowed :
      (p q : Publisher) (pch : PooledChannel)
      → borrow_channel client p ≡ (ok pch, q)
      → get_channel client p ≡ (
        ok pch.ch,
        record q { channel_meta = update q.channel_meta pch.ch (some pch.created_at) },
      )
  unfolding get_channel
  get_channel_borrowed p q pch e = ground arith

  pub get_channel_refused :
      (p q : Publisher) (e : GoError)
      → borrow_channel client p ≡ (err e, q)
      → get_channel client p ≡ (err e, q)
  unfolding get_channel
  get_channel_refused p q e h = ground arith

  get_from-Inv :
      (p q : Publisher) (lent : Lent) (r : Result PooledChannel)
      → borrow_channel client p ≡ (r, q)
      → Inv q (lend lent r)
      → Inv (get_channel client p).1 (hold lent (get_channel client p).0)
  get_from-Inv p q lent (ok pch) e v =
      rw (get_channel_borrowed p q pch e)
        (record { accounted = λ i. ground (arith, v.accounted i); bounded = v.bounded })
  get_from-Inv p q lent (err why) e v = rw (get_channel_refused p q why e) v

  pub get_channel-Inv :
      (p : Publisher) (lent : Lent)
      → Inv p lent
      → Inv (get_channel client p).1 (hold lent (get_channel client p).0)
  get_channel-Inv p lent v = get_from-Inv p _ lent _ refl (borrow_channel-Inv client p lent v)

-- ===== src/Publisher/Pool/Filling.antt =====
-- pkg/rabbitmq/pool.go: the accounts of the pool when it is drained and when it is warmed.
use rabbitmq_go.Base.{
  update, ℕ, zero, suc, true, false, none, some, List, [], ◌∷◌, ◌≡◌, refl, arith, inl, inr,
  Option-cases, length-append, tally-append,
}
use rabbitmq_go.Publisher.{PooledChannel, Publisher, Client}
use rabbitmq_go.Publisher.Pool.{
  close_channel, forget, create_pooled_channel, drain, drain_channel_pool, store_warm, warm_one,
  warm,
}
use rabbitmq_go.Publisher.Pool.Accounts.{idle, Lent, Inv, is_channel, discard_first-Inv}

pub drain-Inv :
    (pool : List PooledChannel) (p : Publisher) (lent : Lent)
    → Inv (record p { channel_pool = some pool }) lent
    → Inv (drain pool (record p { channel_pool = some [] })) lent
unfolding drain
drain-Inv [] p lent v = v
drain-Inv (pch ∷ rest) p lent v =
    drain-Inv rest (forget pch.ch (close_channel pch.ch p)) lent
      (discard_first-Inv (record p { channel_pool = some (pch ∷ rest) }) lent pch rest refl v)

pub pool-Inv :
    (p : Publisher) (lent : Lent) (pool : List PooledChannel)
    → p.channel_pool ≡ some pool
    → Inv p lent
    → Inv (record p { channel_pool = some pool }) lent
pool-Inv p lent pool e v = record {
  accounted = λ i. ground (arith, v.accounted i);
  bounded = ground (arith, v.bounded);
}

pub drain_channel_pool_nil : (p : Publisher) → p.channel_pool ≡ none → drain_channel_pool p ≡ p
unfolding drain_channel_pool
drain_channel_pool_nil p e = ground arith

pub drain_channel_pool_lem :
    (p : Publisher) (pool : List PooledChannel)
    → p.channel_pool ≡ some pool
    → drain_channel_pool p ≡ drain pool (record p { channel_pool = some [] })
unfolding drain_channel_pool
drain_channel_pool_lem p pool e = ground arith

pub drain_channel_pool-Inv :
    (p : Publisher) (lent : Lent) → Inv p lent → Inv (drain_channel_pool p) lent
drain_channel_pool-Inv p lent v = elim (Option-cases p.channel_pool) [
  | inl nil ↦ rw (drain_channel_pool_nil p nil) v
  | inr (pool, e) ↦
      rw (drain_channel_pool_lem p pool e) (drain-Inv pool p lent (pool-Inv p lent pool e v))
]

create_pooled_channel-Inv :
    (client : Client) (p : Publisher) (lent : Lent)
    → Inv p lent
    → let q = create_pooled_channel client p in
      Inv q.1 (elim q.0 [ none ↦ lent | some pch ↦ update lent pch.ch true ])
unfolding create_pooled_channel
create_pooled_channel-Inv client p lent v = record {
  accounted = λ i. ground (arith, v.accounted i, v.accounted p.next_channel);
  bounded = ground (arith, v.bounded);
}

store_warm-Inv :
    (pch : PooledChannel) (p : Publisher) (lent : Lent)
    → lent pch.ch ≡ true
    → Inv p lent
    → Inv (store_warm pch p) (update lent pch.ch false)
unfolding store_warm
store_warm-Inv pch p lent out v = record {
  accounted = λ i. ground (arith, v.accounted i, tally-append (is_channel i) (idle p) (pch ∷ []));
  bounded = ground (arith, v.bounded, length-append (idle p) (pch ∷ []));
}

warm_one-Inv :
    (client : Client) (p : Publisher) (lent : Lent) → Inv p lent → Inv (warm_one client p) lent
unfolding warm_one
warm_one-Inv client p lent v =
    let pch : PooledChannel = record { ch = p.next_channel; created_at = p.now } in
    record {
      accounted = λ i. ground (
        arith,
        v.accounted i,
        v.accounted p.next_channel,
        tally-append (is_channel i) (idle p) (pch ∷ []),
      );
      bounded = ground (arith, v.bounded, length-append (idle p) (pch ∷ []));
    }

pub warm-Inv :
    (client : Client) (n : ℕ) (p : Publisher) (lent : Lent)
    → Inv p lent
    → Inv (warm client n p) lent
unfolding warm
warm-Inv client zero p lent v = v
warm-Inv client (suc n) p lent v =
    warm-Inv client n (warm_one client p) lent (warm_one-Inv client p lent v)

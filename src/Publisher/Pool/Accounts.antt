-- ===== src/Publisher/Pool/Accounts.antt =====
-- pkg/rabbitmq/pool.go: every open channel is in the pool or lent out, and in one place only.
use rabbitmq_go.Base.{
  update, ℕ, ◌+◌, ◌≤◌, Bool, true, false, none, some, List, [], ◌∷◌, ◌≡◌, arith, bytes, inl, inr,
  Bool-cases, Option-cases, tally, tally-append, length, length-append, ◌==◌, if◌then◌else◌,
}
use rabbitmq_go.Errors.{text, Result, ok, err}
use rabbitmq_go.Publisher.{PooledChannel, Publisher, Client}
use rabbitmq_go.Publisher.Pool.{
  close_channel, forget, is_stale, created_at_of, new_channel_or_error, borrow_from, borrow_channel,
  capacity, return_pooled, return_channel,
}

abbrev pub is_channel : ℕ → PooledChannel → Bool
is_channel i pch = pch.ch == i

-- What the pool holds; the nil pool holds nothing.
abbrev pub idle : Publisher → List PooledChannel
idle p = elim p.channel_pool [ none ↦ [] | some pool ↦ pool ]

-- How often a channel stands in the pool, and whether it is lent out, as a number.
abbrev pub pooled : ℕ → Publisher → ℕ
pooled i p = tally (is_channel i) (idle p)

abbrev pub one : Bool → ℕ
one b = if b then 1 else 0

-- The channels that callers hold.
abbrev pub Lent : Type 0
Lent = ℕ → Bool

-- Of channel `i`: it is in one place at most; if it is open it is in one place; and a number that
-- the client has not given yet is nowhere.
pub record Accounted (p : Publisher) (lent : Lent) (i : ℕ) : Type 0 where
  pub once : pooled i p + one (lent i) ≤ 1
  pub kept : one (p.open_channel i) ≤ pooled i p + one (lent i)
  pub fresh : p.next_channel ≤ i → pooled i p + one (lent i) ≡ 0

-- The accounts of a publisher are in order, and its pool is within its capacity.
pub record Inv (p : Publisher) (lent : Lent) : Type 0 where
  pub accounted : (i : ℕ) → Accounted p lent i
  pub bounded : length (idle p) ≤ capacity p

-- A channel made for a borrower is lent out; if none is made nothing changes.
abbrev pub lend : Lent → Result PooledChannel → Lent
lend lent (ok pch) = update lent pch.ch true
lend lent (err e) = lent

new_channel_or_error-Inv :
    (client : Client) (p : Publisher) (lent : Lent)
    → Inv p lent
    → let q = new_channel_or_error client p in Inv q.1 (lend lent q.0)
unfolding new_channel_or_error
new_channel_or_error-Inv client p lent v = record {
  accounted = λ i. ground (arith, v.accounted i, v.accounted p.next_channel);
  bounded = ground (arith, v.bounded);
}

-- The first entry of the pool is taken out: closed, or handed over.
pub discard_first-Inv :
    (p : Publisher) (lent : Lent) (pch : PooledChannel) (rest : List PooledChannel)
    → p.channel_pool ≡ some (pch ∷ rest)
    → Inv p lent
    → Inv (forget pch.ch (close_channel pch.ch (record p { channel_pool = some rest }))) lent
discard_first-Inv p lent pch rest e v = record {
  accounted = λ i. ground (arith, v.accounted i);
  bounded = ground (arith, v.bounded);
}

take_first-Inv :
    (p : Publisher) (lent : Lent) (pch : PooledChannel) (rest : List PooledChannel)
    → p.channel_pool ≡ some (pch ∷ rest)
    → Inv p lent
    → Inv (record p { channel_pool = some rest }) (update lent pch.ch true)
take_first-Inv p lent pch rest e v = record {
  accounted = λ i. ground (arith, v.accounted i);
  bounded = ground (arith, v.bounded);
}

borrow_from-Inv :
    (client : Client) (pool : List PooledChannel) (p : Publisher) (lent : Lent)
    → p.channel_pool ≡ some pool
    → Inv p lent
    → let q = borrow_from client pool p in Inv q.1 (lend lent q.0)
unfolding borrow_from
borrow_from-Inv client [] p lent e v = new_channel_or_error-Inv client p lent v
borrow_from-Inv client (pch ∷ rest) p lent e v =
    elim (Bool-cases (is_stale (record p { channel_pool = some rest }) pch)) [
      | inl stale ↦
          rw (stale, borrow_from)
            (new_channel_or_error-Inv client _ lent (discard_first-Inv p lent pch rest e v))
      | inr good ↦ rw (good, borrow_from) (take_first-Inv p lent pch rest e v)
    ]

pub borrow_channel_closed :
    (client : Client) (p : Publisher)
    → p.closed ≡ true
    → borrow_channel client p ≡ (err (text (bytes "rabbitmq: publisher is closed")), p)
unfolding borrow_channel
borrow_channel_closed client p e = ground arith

pub borrow_channel_nil :
    (client : Client) (p : Publisher)
    → p.closed ≡ false
    → p.channel_pool ≡ none
    → borrow_channel client p ≡ new_channel_or_error client p
unfolding borrow_channel
borrow_channel_nil client p e n = ground arith

pub borrow_channel_pool :
    (client : Client) (p : Publisher) (pool : List PooledChannel)
    → p.closed ≡ false
    → p.channel_pool ≡ some pool
    → borrow_channel client p ≡ borrow_from client pool p
unfolding borrow_channel
borrow_channel_pool client p pool e n = ground arith

-- `borrowChannel` keeps the accounts: a channel that it returns is now lent out, was in the pool or
-- is new, and no other channel is lost or stays open.
pub borrow_channel-Inv :
    (client : Client) (p : Publisher) (lent : Lent)
    → Inv p lent
    → let q = borrow_channel client p in Inv q.1 (lend lent q.0)
borrow_channel-Inv client p lent v = elim (Bool-cases p.closed) [
  | inl shut ↦ rw (borrow_channel_closed client p shut) v
  | inr live ↦ elim (Option-cases p.channel_pool) [
    | inl nil ↦ rw (borrow_channel_nil client p live nil) (new_channel_or_error-Inv client p lent v)
    | inr (pool, e) ↦
        rw (borrow_channel_pool client p pool live e) (borrow_from-Inv client pool p lent e v)
  ]
]

-- `returnPooled` of a channel that is lent out.
pub return_pooled-Inv :
    (pch : PooledChannel) (p : Publisher) (lent : Lent)
    → lent pch.ch ≡ true
    → Inv p lent
    → Inv (return_pooled pch p) (update lent pch.ch false)
unfolding return_pooled
return_pooled-Inv pch p lent out v = record {
  accounted = λ i. ground (arith, v.accounted i, tally-append (is_channel i) (idle p) (pch ∷ []));
  bounded = ground (arith, v.bounded, length-append (idle p) (pch ∷ []));
}

pub return_channel_shut :
    (ch : ℕ) (p : Publisher) → p.open_channel ch ≡ false → return_channel (some ch) p ≡ forget ch p
unfolding return_channel
return_channel_shut ch p e = ground arith

pub return_channel_open :
    (ch : ℕ) (p : Publisher)
    → p.open_channel ch ≡ true
    → return_channel (some ch) p
      ≡ return_pooled (record { ch = ch; created_at = created_at_of ch p }) p
unfolding return_channel
return_channel_open ch p e = ground arith

forget_lent-Inv :
    (ch : ℕ) (p : Publisher) (lent : Lent)
    → p.open_channel ch ≡ false
    → lent ch ≡ true
    → Inv p lent
    → Inv (forget ch p) (update lent ch false)
forget_lent-Inv ch p lent shut out v = record {
  accounted = λ i. ground (arith, v.accounted i);
  bounded = v.bounded;
}

-- `ReturnChannel` of a channel that is lent out.
pub return_channel-Inv :
    (ch : ℕ) (p : Publisher) (lent : Lent)
    → lent ch ≡ true
    → Inv p lent
    → Inv (return_channel (some ch) p) (update lent ch false)
return_channel-Inv ch p lent out v = elim (Bool-cases (p.open_channel ch)) [
  | inl live ↦ rw (return_channel_open ch p live) (return_pooled-Inv _ p lent out v)
  | inr shut ↦ rw (return_channel_shut ch p shut) (forget_lent-Inv ch p lent shut out v)
]

-- ===== src/Publisher/Threads/Alone.antt =====
-- pkg/rabbitmq/pool.go and publisher.go: a call that runs alone, from one synchronisation to the next,
-- against the function that models it as one step.
pub mod Borrowed
pub mod Returned
use rabbitmq_go.Base.{
  update, ℕ, zero, suc, ◌+◌, ◌-◌, ◌<◌, ◌≤◌, ltb, Bool, true, false, not, ◌||◌, ◌&&◌, Option, none,
  some, List, [], ◌∷◌, ◌++◌, ◌≡◌, refl, ap, sym, subst, append-nil, ◌∙◌, arith, inl, inr, length,
  bytes, Bool-cases, Option-cases, ◌==◌, if◌then◌else◌,
}
use rabbitmq_go.Errors.{text, Result, ok, err}
use rabbitmq_go.Publisher.{
  PooledChannel, Publisher, Client, Opening, channel_error, channel_timeout, confirm_error,
  confirm_timeout, confirm_enabled,
}
use rabbitmq_go.Publisher.Pool.{
  opened, opened_and_closed, is_disconnected, is_stale, forget, close_channel,
  create_confirm_channel, create_pooled_channel, new_channel_or_error, borrow_from, borrow_channel,
  return_pooled, capacity,
}
use rabbitmq_go.Publisher.Pool.Accounts.{
  borrow_channel_closed, borrow_channel_nil, borrow_channel_pool,
}
use rabbitmq_go.Publisher.Threads.{
  Shared, Caller, Job, borrowing, publishing, lending, warming, Pc, entering, taking, inspecting,
  opening, calling, confirming, late, using, heard, returning, storing, warm_storing, discarding,
  after_failure, after_creation, shut_connection,
}
use rabbitmq_go.Publisher.Threads.Moves.{
  Move, refuses, enters, finds_none, takes, replaces, borrows, is_offline, reads, call_fails,
  call_opens, times_out, late_opens, confirms, confirm_fails, published, listens, spoiled, rejects,
  passes, stores, no_pool, overflows, discards,
}

-- What the interleaved model has and the other not.
pub record Rest : Type 0 where
  pub conn_of : ℕ → ℕ
  pub listening : ℕ → Bool

-- The state of a publisher between its calls, as the threads share it.
abbrev pub shared_of : Rest → Publisher → Shared
shared_of w p = record {
  cfg = p.cfg;
  connection = p.connection;
  pool = p.channel_pool;
  retired = [];
  closed = p.closed;
  conn_locked = false;
  open_channel = p.open_channel;
  conn_of = w.conn_of;
  open_connection = p.open_connection;
  listening = w.listening;
  next_channel = p.next_channel;
  next_connection = p.next_connection;
  now = p.now;
}

-- Moves of the first of some threads, while time passes and channels are closed from outside.
pub data Course (s : Shared) (l : List Pc) : Shared → List Pc → Type 0 where
  stay : Course s l s l
  go :
      {t : Shared} {pc : Pc} {k : List Pc} (u : Shared) (new : List Pc)
      → Course s l t (pc ∷ k)
      → Move t pc u new
      → Course s l u (new ++ k)
  loses :
      {t : Shared} {k : List Pc} (ch : ℕ)
      → Course s l t k
      → Course s l (record t { open_channel = update t.open_channel ch false }) k
  waits : {t : Shared} {k : List Pc} (n : ℕ) → Course s l t k → Course s l (record t { now = n }) k

pub join :
    {s t : Shared} {k l : List Pc} {u : Shared} {m : List Pc}
    → Course s k t l
    → Course t l u m
    → Course s k u m
join a stay = a
join a (go u new b m) = go u new (join a b) m
join a (loses ch b) = loses ch (join a b)
join a (waits n b) = waits n (join a b)

pub last :
    {s t : Shared} {l : List Pc} {pc : Pc} (u : Shared) (new : List Pc)
    → Course s l t (pc ∷ [])
    → Move t pc u new
    → Course s l u new
last {s} {l = l} u new a m = subst (λ k. Course s l u k) (append-nil new) (go u new a m)

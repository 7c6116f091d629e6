-- ===== src/Publisher/Threads/Moves.antt =====
-- pkg/rabbitmq/pool.go and publisher.go: the steps of one thread. A move replaces the thread by none,
-- one or two others. What the client and the broker answer is free, as far as the connection is open.
-- The tests of one condition are one step: the connection is read and asked whether it is closed at once,
-- and a stale channel is closed at once, and so is an entry that a drain takes out.
use rabbitmq_go.Base.{
  update, ℕ, ◌<◌, ◌≤◌, true, false, not, ◌||◌, none, some, List, [], ◌∷◌, ◌++◌, ◌≡◌, length,
}
use rabbitmq_go.Publisher.{PooledChannel}
use rabbitmq_go.Publisher.Threads.{
  Shared, Caller, Job, borrowing, publishing, lending, Pc, entering, taking, inspecting, opening,
  calling, confirming, late, using, heard, returning, storing, warm_storing, discarding, draining,
  awaiting, dialing, dialed, retiring, closing, close_waiting, close_draining, idle, capacity,
  is_disconnected, is_stale, close_channel, opened, connected, next_attempt, after_failure,
  after_creation, shut_current,
}

pub data Move (s : Shared) : Pc → Shared → List Pc → Type 0 where
  -- `borrowChannel`
  refuses : (caller : Caller) → s.closed ≡ true → Move s (entering caller) s []
  enters : (caller : Caller) → s.closed ≡ false → Move s (entering caller) s (taking caller ∷ [])
  finds_none :
      (caller : Caller) → idle s ≡ [] → Move s (taking caller) s (opening (borrowing caller) ∷ [])
  takes :
      (caller : Caller) (pch : PooledChannel) (rest : List PooledChannel)
      → s.pool ≡ some (pch ∷ rest)
      → Move s (taking caller) (record s { pool = some rest }) (inspecting caller pch ∷ [])
  replaces :
      (caller : Caller) (pch : PooledChannel)
      → is_stale s pch ≡ true
      → Move s (inspecting caller pch) (close_channel pch.ch s) (opening (borrowing caller) ∷ [])
  borrows :
      (caller : Caller) (pch : PooledChannel)
      → is_stale s pch ≡ false
      → Move s (inspecting caller pch) s (using caller pch ∷ [])
  -- `createConfirmChannel`
  is_offline :
      (job : Job)
      → s.conn_locked ≡ false
      → is_disconnected s ≡ true
      → Move s (opening job) s (after_failure job)
  reads :
      (job : Job) (conn : ℕ)
      → s.conn_locked ≡ false
      → s.connection ≡ some conn
      → s.open_connection conn ≡ true
      → Move s (opening job) s (calling job conn ∷ [])
  call_fails : (job : Job) (conn : ℕ) → Move s (calling job conn) s (after_failure job)
  call_opens :
      (job : Job) (conn : ℕ)
      → s.open_connection conn ≡ true
      → Move s (calling job conn) (opened conn s) (confirming job s.next_channel ∷ [])
  times_out : (job : Job) (conn : ℕ) → Move s (calling job conn) s (late conn ∷ after_failure job)
  late_fails : (conn : ℕ) → Move s (late conn) s []
  late_opens :
      (conn : ℕ)
      → s.open_connection conn ≡ true
      → Move s (late conn) (opened conn s) (discarding s.next_channel ∷ [])
  confirms :
      (job : Job) (ch : ℕ)
      → Move s
          (confirming job ch)
          s
          (after_creation job (record { ch = ch; created_at = s.now }) ∷ [])
  -- `Confirm` fails or times out
  confirm_fails :
      (job : Job) (ch : ℕ) → Move s (confirming job ch) (close_channel ch s) (after_failure job)
  -- `publish`, which puts the channel back only if the message is not mandatory
  published : (pch : PooledChannel) → Move s (using (publishing false) pch) s (returning pch ∷ [])
  listens :
      (pch : PooledChannel)
      → Move s
          (using (publishing true) pch)
          (record s { listening = update s.listening pch.ch true })
          (heard pch ∷ [])
  spoiled : (pch : PooledChannel) → Move s (heard pch) s (discarding pch.ch ∷ [])
  -- `ReturnChannel`
  forgets : (pch : PooledChannel) → s.open_channel pch.ch ≡ false → Move s (using lending pch) s []
  gives_back :
      (pch : PooledChannel)
      → s.open_channel pch.ch ≡ true
      → Move s (using lending pch) s (returning pch ∷ [])
  -- `returnPooled`
  rejects :
      (pch : PooledChannel)
      → (not (s.open_channel pch.ch) || s.closed) ≡ true
      → Move s (returning pch) s (discarding pch.ch ∷ [])
  passes :
      (pch : PooledChannel)
      → (not (s.open_channel pch.ch) || s.closed) ≡ false
      → Move s (returning pch) s (storing pch ∷ [])
  stores :
      (pch : PooledChannel) (l : List PooledChannel)
      → s.pool ≡ some l
      → length l < capacity s
      → Move s (storing pch) (record s { pool = some (l ++ pch ∷ []) }) []
  no_pool : (pch : PooledChannel) → s.pool ≡ none → Move s (storing pch) s (discarding pch.ch ∷ [])
  overflows :
      (pch : PooledChannel) (l : List PooledChannel)
      → s.pool ≡ some l
      → capacity s ≤ length l
      → Move s (storing pch) s (discarding pch.ch ∷ [])
  -- `warmChannelPool`
  warms :
      (n : ℕ) (pch : PooledChannel) (l : List PooledChannel)
      → s.pool ≡ some l
      → length l < capacity s
      → Move s (warm_storing n pch) (record s { pool = some (l ++ pch ∷ []) }) (next_attempt n)
  warms_none :
      (n : ℕ) (pch : PooledChannel)
      → s.pool ≡ none
      → Move s (warm_storing n pch) (close_channel pch.ch s) (next_attempt n)
  warms_full :
      (n : ℕ) (pch : PooledChannel) (l : List PooledChannel)
      → s.pool ≡ some l
      → capacity s ≤ length l
      → Move s (warm_storing n pch) (close_channel pch.ch s) (next_attempt n)
  discards : (ch : ℕ) → Move s (discarding ch) (close_channel ch s) []
  -- the watcher
  drains_one :
      (pch : PooledChannel) (rest : List PooledChannel)
      → s.pool ≡ some (pch ∷ rest)
      → Move s draining (close_channel pch.ch (record s { pool = some rest })) (draining ∷ [])
  drained : idle s ≡ [] → Move s draining s (awaiting ∷ [])
  leaves : s.closed ≡ true → Move s awaiting s []
  locks : s.conn_locked ≡ false → Move s awaiting (record s { conn_locked = true }) (dialing ∷ [])
  dial_fails : Move s dialing (record s { conn_locked = false }) (awaiting ∷ [])
  dials : Move s dialing (connected s) (dialed ∷ [])
  declare_fails :
      s.cfg.skip_exchange_declare ≡ false
      → Move s dialed (record (shut_current s) { conn_locked = false }) (awaiting ∷ [])
  swaps : Move s dialed (record s { pool = some []; retired = idle s ++ s.retired }) (retiring ∷ [])
  retires_one :
      (pch : PooledChannel) (rest : List PooledChannel)
      → s.retired ≡ pch ∷ rest
      → Move s retiring (close_channel pch.ch (record s { retired = rest })) (retiring ∷ [])
  retired_all :
      s.retired ≡ []
      → Move s retiring (record s { conn_locked = false }) (next_attempt (capacity s))
  -- `Close`
  closes_again : s.closed ≡ true → Move s closing s []
  closes : s.closed ≡ false → Move s closing (record s { closed = true }) (close_waiting ∷ [])
  close_locks :
      s.conn_locked ≡ false
      → Move s close_waiting (record s { conn_locked = true }) (close_draining ∷ [])
  close_drains_one :
      (pch : PooledChannel) (rest : List PooledChannel)
      → s.pool ≡ some (pch ∷ rest)
      → Move s close_draining
          (close_channel pch.ch (record s { pool = some rest }))
          (close_draining ∷ [])
  close_ends :
      idle s ≡ [] → Move s close_draining (record (shut_current s) { conn_locked = false }) []

-- ===== src/Publisher/Threads/Progress.antt =====
-- pkg/rabbitmq/pool.go and publisher.go: no deadlock. A thread waits only for `connMu`; the calls of the
-- client are taken to return, and an open and a confirm are bounded by their timeouts.
use rabbitmq_go.Base.{
  ℕ, ◌<◌, ◌≤◌, true, false, not, ◌||◌, Option, none, some, List, [], ◌∷◌, ◌++◌, ◌≡◌, ◌⊎◌, length,
  tally, found, List-cases, arith, inl, inr, refl, Bool-cases, Option-cases,
}
use rabbitmq_go.Publisher.{PooledChannel}
use rabbitmq_go.Publisher.Threads.{
  Shared, Caller, Job, publishing, lending, Pc, entering, taking, inspecting, opening, calling,
  confirming, late, using, heard, returning, storing, warm_storing, discarding, draining, awaiting,
  dialing, dialed, retiring, closing, close_waiting, close_draining, capacity, is_stale,
}
use rabbitmq_go.Publisher.Threads.Moves.{
  Move, refuses, enters, finds_none, takes, replaces, borrows, is_offline, reads, call_fails,
  late_fails, confirms, published, listens, spoiled, forgets, gives_back, rejects, passes, stores,
  no_pool, overflows, warms, warms_none, warms_full, discards, drains_one, drained, locks,
  dial_fails, swaps, retires_one, retired_all, closes_again, closes, close_locks, close_drains_one,
  close_ends,
}
use rabbitmq_go.Publisher.Threads.Counts.{in_section, is_retiring}
use rabbitmq_go.Publisher.Threads.Sections.{Guarded}
use rabbitmq_go.Publisher.Threads.Runs.{System}

abbrev pub CanMove : Shared → Pc → Type 0
CanMove s pc = (s' : Shared) × (new : List Pc) × Move s pc s' new

pool_cases :
    (o : Option (List PooledChannel))
    → ((elim o [ none ↦ [] | some l ↦ l ]) ≡ [])
      ⊎ ((pch : PooledChannel) × (rest : List PooledChannel) × (o ≡ some (pch ∷ rest)))
pool_cases none = inl refl
pool_cases (some []) = inl refl
pool_cases (some (pch ∷ rest)) = inr (pch, rest, refl)

room : (l m : ℕ) → (l < m) ⊎ (m ≤ l)
room l m = ground arith

module _ (s : Shared) where
  entering_moves : (caller : Caller) → CanMove s (entering caller)
  entering_moves caller = elim (Bool-cases s.closed) [
    | inl e ↦ (_, _, refuses caller e)
    | inr e ↦ (_, _, enters caller e)
  ]

  taking_moves : (caller : Caller) → CanMove s (taking caller)
  taking_moves caller = elim (pool_cases s.pool) [
    | inl e ↦ (_, _, finds_none caller e)
    | inr (pch, rest, e) ↦ (_, _, takes caller pch rest e)
  ]

  inspecting_moves : (caller : Caller) (pch : PooledChannel) → CanMove s (inspecting caller pch)
  inspecting_moves caller pch = elim (Bool-cases (is_stale s pch)) [
    | inl e ↦ (_, _, replaces caller pch e)
    | inr e ↦ (_, _, borrows caller pch e)
  ]

  opening_moves : (job : Job) → s.conn_locked ≡ false → CanMove s (opening job)
  opening_moves job u = elim (Option-cases s.connection) [
    | inl e ↦ (_, _, is_offline job u (ground arith))
    | inr (conn, e) ↦ elim (Bool-cases (s.open_connection conn)) [
      | inl o ↦ (_, _, reads job conn u e o)
      | inr o ↦ (_, _, is_offline job u (ground arith))
    ]
  ]

  returning_moves : (pch : PooledChannel) → CanMove s (returning pch)
  returning_moves pch = elim (Bool-cases (not (s.open_channel pch.ch) || s.closed)) [
    | inl e ↦ (_, _, rejects pch e)
    | inr e ↦ (_, _, passes pch e)
  ]

  using_moves : (caller : Caller) (pch : PooledChannel) → CanMove s (using caller pch)
  using_moves (publishing false) pch = (_, _, published pch)
  using_moves (publishing true) pch = (_, _, listens pch)
  using_moves lending pch = elim (Bool-cases (s.open_channel pch.ch)) [
    | inl e ↦ (_, _, gives_back pch e)
    | inr e ↦ (_, _, forgets pch e)
  ]

  storing_moves : (pch : PooledChannel) → CanMove s (storing pch)
  storing_moves pch = elim (Option-cases s.pool) [
    | inl e ↦ (_, _, no_pool pch e)
    | inr (l, e) ↦ elim (room (length l) (capacity s)) [
      | inl r ↦ (_, _, stores pch l e r)
      | inr r ↦ (_, _, overflows pch l e r)
    ]
  ]

  warm_storing_moves : (n : ℕ) (pch : PooledChannel) → CanMove s (warm_storing n pch)
  warm_storing_moves n pch = elim (Option-cases s.pool) [
    | inl e ↦ (_, _, warms_none n pch e)
    | inr (l, e) ↦ elim (room (length l) (capacity s)) [
      | inl r ↦ (_, _, warms n pch l e r)
      | inr r ↦ (_, _, warms_full n pch l e r)
    ]
  ]

  draining_moves : CanMove s draining
  draining_moves = elim (pool_cases s.pool) [
    | inl e ↦ (_, _, drained e)
    | inr (pch, rest, e) ↦ (_, _, drains_one pch rest e)
  ]

  close_draining_moves : CanMove s close_draining
  close_draining_moves = elim (pool_cases s.pool) [
    | inl e ↦ (_, _, close_ends e)
    | inr (pch, rest, e) ↦ (_, _, close_drains_one pch rest e)
  ]

  retiring_moves : CanMove s retiring
  retiring_moves = elim (List-cases s.retired) [
    | inl e ↦ (_, _, retired_all e)
    | inr (pch, rest, e) ↦ (_, _, retires_one pch rest e)
  ]

  closing_moves : CanMove s closing
  closing_moves = elim (Bool-cases s.closed) [
    | inl e ↦ (_, _, closes_again e)
    | inr e ↦ (_, _, closes e)
  ]

  -- A thread that is in a section, and any thread when `connMu` is free, can move.
  thread_moves : (pc : Pc) → (in_section pc ≡ true) ⊎ (s.conn_locked ≡ false) → CanMove s pc
  thread_moves (entering caller) u = entering_moves caller
  thread_moves (taking caller) u = taking_moves caller
  thread_moves (inspecting caller pch) u = inspecting_moves caller pch
  thread_moves (opening job) (inl u) = absurd cc
  thread_moves (opening job) (inr u) = opening_moves job u
  thread_moves (calling job conn) u = (_, _, call_fails job conn)
  thread_moves (confirming job ch) u = (_, _, confirms job ch)
  thread_moves (late conn) u = (_, _, late_fails conn)
  thread_moves (using caller pch) u = using_moves caller pch
  thread_moves (heard pch) u = (_, _, spoiled pch)
  thread_moves (returning pch) u = returning_moves pch
  thread_moves (storing pch) u = storing_moves pch
  thread_moves (warm_storing n pch) u = warm_storing_moves n pch
  thread_moves (discarding ch) u = (_, _, discards ch)
  thread_moves draining u = draining_moves
  thread_moves awaiting (inl u) = absurd cc
  thread_moves awaiting (inr u) = (_, _, locks u)
  thread_moves dialing u = (_, _, dial_fails)
  thread_moves dialed u = (_, _, swaps)
  thread_moves retiring u = retiring_moves
  thread_moves closing u = closing_moves
  thread_moves close_waiting (inl u) = absurd cc
  thread_moves close_waiting (inr u) = (_, _, close_locks u)
  thread_moves close_draining u = close_draining_moves

-- Some thread can move.
abbrev pub Progress : System → Type 0
Progress y =
    (before after : List Pc) × (pc : Pc) × (y.threads ≡ before ++ pc ∷ after) × CanMove y.shared pc

pub some_moves :
    (y : System)
    → Guarded y.shared (tally in_section y.threads) (tally is_retiring y.threads)
    → (y.threads ≡ []) ⊎ Progress y
some_moves y v = elim (List-cases y.threads) [
  | inl e ↦ inl e
  | inr (pc, rest, e) ↦ elim (Bool-cases y.shared.conn_locked) [
    | inl busy ↦
        let (before, after, holder, at, inside) =
          found in_section y.threads (ground (arith, v.locked)) in
        inr (before, after, holder, at, thread_moves y.shared holder (inl inside))
    | inr free ↦ inr ([], rest, pc, e, thread_moves y.shared pc (inr free))
  ]
]

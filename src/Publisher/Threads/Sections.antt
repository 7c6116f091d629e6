-- ===== src/Publisher/Threads/Sections.antt =====
-- pkg/rabbitmq/pool.go and publisher.go: the sections under `connMu.Lock`, the pools that are replaced in
-- them, and the bound of the pool, when one thread moves.
pub mod Moved
use rabbitmq_go.Base.{
  update, ℕ, ◌+◌, zero, suc, ◌<◌, ◌≤◌, Bool, true, false, Option, none, some, List, [], ◌∷◌, ◌++◌,
  ◌≡◌, ◌⊎◌, length, length-append, if◌then◌else◌, tally, arith, ap, inl, inr, refl,
}
use rabbitmq_go.Publisher.{PooledChannel}
use rabbitmq_go.Publisher.Threads.{
  Shared, Job, borrowing, warming, Pc, opening, idle, capacity, next_attempt, after_failure,
  after_creation, shut_option,
}
use rabbitmq_go.Publisher.Threads.Moves.{
  Move, refuses, enters, finds_none, takes, replaces, borrows, is_offline, reads, call_fails,
  call_opens, times_out, late_fails, late_opens, confirms, confirm_fails, published, listens,
  spoiled, forgets, gives_back, rejects, passes, stores, no_pool, overflows, warms, warms_none,
  warms_full, discards, drains_one, drained, leaves, locks, dial_fails, dials, declare_fails, swaps,
  retires_one, retired_all, closes_again, closes, close_locks, close_drains_one, close_ends,
}
use rabbitmq_go.Publisher.Threads.Counts.{in_section, is_retiring}

-- With `k` threads in a section, and `m` of them in the drain of the old pool.
pub record Guarded (s : Shared) (k m : ℕ) : Type 0 where
  pub bounded : length (idle s) ≤ capacity s
  pub locked : k ≡ (if s.conn_locked then 1 else 0)
  pub emptied : (length s.retired ≡ 0) ⊎ (1 ≤ m)

pub same_counts : {s : Shared} {k k' m m' : ℕ} → Guarded s k m → k ≡ k' → m ≡ m' → Guarded s k' m'
same_counts v e e' = record {
  bounded = v.bounded;
  locked = omega (arith, v.locked);
  emptied = ground (arith, v.emptied);
}

module _ (p : Pc → Bool) (none_opens : (n : ℕ) → p (opening (warming n)) ≡ false) where
  pub attempt-clear : (n : ℕ) → tally p (next_attempt n) ≡ 0
  attempt-clear zero = refl
  attempt-clear (suc n) = ground (arith, none_opens n)

  pub failure-clear : (job : Job) → tally p (after_failure job) ≡ 0
  failure-clear (borrowing caller) = refl
  failure-clear (warming n) = attempt-clear n

pub creation-clear :
    (job : Job) (pch : PooledChannel)
    → (tally in_section (after_creation job pch ∷ []) ≡ 0)
      × (tally is_retiring (after_creation job pch ∷ []) ≡ 0)
creation-clear (borrowing caller) pch = (refl, refl)
creation-clear (warming n) pch = (refl, refl)

module _ {s : Shared} (k m : ℕ) where
  -- Nothing that this is about has changed.
  pub keeps-G :
      {s' : Shared}
      → idle s' ≡ idle s
      → s'.cfg ≡ s.cfg
      → s'.conn_locked ≡ s.conn_locked
      → s'.retired ≡ s.retired
      → Guarded s k m
      → Guarded s' k m
  keeps-G a b c d v = record {
    bounded = ground (arith, v.bounded);
    locked = ground (arith, v.locked);
    emptied = ground (arith, v.emptied);
  }

  pub shrinks-G :
      (pch : PooledChannel) (rest : List PooledChannel) (f : ℕ → Bool)
      → s.pool ≡ some (pch ∷ rest)
      → Guarded s k m
      → Guarded (record s { pool = some rest; open_channel = f }) k m
  shrinks-G pch rest f e v = record {
    bounded = ground (arith, v.bounded);
    locked = v.locked;
    emptied = v.emptied;
  }

  pub grows-G :
      (pch : PooledChannel) (l : List PooledChannel)
      → s.pool ≡ some l
      → length l < capacity s
      → Guarded s k m
      → Guarded (record s { pool = some (l ++ pch ∷ []) }) k m
  grows-G pch l e room v = record {
    bounded = omega (arith, length-append l (pch ∷ []));
    locked = v.locked;
    emptied = v.emptied;
  }

  pub locks-G :
      s.conn_locked ≡ false → Guarded s k m → Guarded (record s { conn_locked = true }) (1 + k) m
  locks-G e v = record {
    bounded = v.bounded;
    locked = ground (arith, v.locked);
    emptied = v.emptied;
  }

  -- A section ends, and `Close` or a failure may have closed a connection in it.
  pub unlocks-G :
      (o : Option ℕ)
      → Guarded s (1 + k) m
      → Guarded (record (shut_option o s) { conn_locked = false }) k m
  unlocks-G none v = record {
    bounded = v.bounded;
    locked = ground (arith, v.locked);
    emptied = v.emptied;
  }
  unlocks-G (some conn) v = record {
    bounded = v.bounded;
    locked = ground (arith, v.locked);
    emptied = v.emptied;
  }

  pub swaps-G :
      Guarded s k m → Guarded (record s { pool = some []; retired = idle s ++ s.retired }) k (suc m)
  swaps-G v = record { bounded = omega arith; locked = v.locked; emptied = inr (omega arith) }

  pub retires-G :
      (rest : List PooledChannel) (f : ℕ → Bool)
      → Guarded s k (suc m)
      → Guarded (record s { retired = rest; open_channel = f }) k (suc m)
  retires-G rest f v = record {
    bounded = v.bounded;
    locked = v.locked;
    emptied = inr (omega arith);
  }

  pub retired-G :
      s.retired ≡ [] → Guarded s (1 + k) (suc m) → Guarded (record s { conn_locked = false }) k m
  retired-G e v = record {
    bounded = v.bounded;
    locked = ground (arith, v.locked);
    emptied = inl (ap (λ l. length l) e);
  }

pub via :
    {s s' : Shared} {h h' k k' l l' m m' : ℕ}
    → (Guarded s h l → Guarded s' k m)
    → h' ≡ h
    → l' ≡ l
    → k ≡ k'
    → m ≡ m'
    → Guarded s h' l'
    → Guarded s' k' m'
via f a b c d v = same_counts (f (same_counts v a b)) c d

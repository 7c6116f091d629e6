-- ===== src/Publisher/Threads/Sections/Moved.antt =====
-- pkg/rabbitmq/pool.go and publisher.go: each move of a thread keeps the lock and the bound of the pool.
use rabbitmq_go.Base.{update, ℕ, ◌+◌, false, none, List, [], ◌∷◌, tally, arith, refl}
use rabbitmq_go.Publisher.Threads.{Shared, Pc, capacity}
use rabbitmq_go.Publisher.Threads.Moves.{
  Move, refuses, enters, finds_none, takes, replaces, borrows, is_offline, reads, call_fails,
  call_opens, times_out, late_fails, late_opens, confirms, confirm_fails, published, listens,
  spoiled, forgets, gives_back, rejects, passes, stores, no_pool, overflows, warms, warms_none,
  warms_full, discards, drains_one, drained, leaves, locks, dial_fails, dials, declare_fails, swaps,
  retires_one, retired_all, closes_again, closes, close_locks, close_drains_one, close_ends,
}
use rabbitmq_go.Publisher.Threads.Counts.{in_section, is_retiring}
use rabbitmq_go.Publisher.Threads.Sections.{
  same_counts, attempt-clear, failure-clear, creation-clear, keeps-G, shrinks-G, grows-G, locks-G,
  unlocks-G, swaps-G, retires-G, retired-G, via, Guarded,
}

-- A move of one thread, among `k` others in a section and `m` others in the drain of the old pool.
pub Move-Guarded :
    (k m : ℕ) {s s' : Shared} {pc : Pc} {new : List Pc}
    → Move s pc s' new
    → Guarded s (tally in_section (pc ∷ []) + k) (tally is_retiring (pc ∷ []) + m)
    → Guarded s' (tally in_section new + k) (tally is_retiring new + m)
Move-Guarded k m {s} (refuses job e) v = v
Move-Guarded k m {s} (enters job e) v = v
Move-Guarded k m {s} (finds_none job e) v = v
Move-Guarded k m {s} (borrows job pch e) v = v
Move-Guarded k m {s} (reads job conn u e o) v = v
Move-Guarded k m {s} (late_fails conn) v = v
Move-Guarded k m {s} (published pch) v = v
Move-Guarded k m {s} (listens pch) v =
    via (keeps-G k m refl refl refl refl) (omega arith) (omega arith) (omega arith) (omega arith) v
Move-Guarded k m {s} (spoiled pch) v = v
Move-Guarded k m {s} (leaves e) v = v
Move-Guarded k m {s} (forgets pch e) v = v
Move-Guarded k m {s} (gives_back pch e) v = v
Move-Guarded k m {s} (rejects pch e) v = v
Move-Guarded k m {s} (passes pch e) v = v
Move-Guarded k m {s} (no_pool pch e) v = v
Move-Guarded k m {s} (overflows pch l e full) v = v
Move-Guarded k m {s} (drained e) v = v
Move-Guarded k m {s} (closes_again e) v = v
Move-Guarded k m {s} (takes job pch rest e) v =
    via (shrinks-G k m pch rest s.open_channel e) (omega arith) (omega arith) (omega arith)
      (omega arith) v
Move-Guarded k m {s} (replaces job pch e) v =
    via (keeps-G k m refl refl refl refl) (omega arith) (omega arith) (omega arith) (omega arith) v
Move-Guarded k m {s} (call_opens job conn o) v =
    via (keeps-G k m refl refl refl refl) (omega arith) (omega arith) (omega arith) (omega arith) v
Move-Guarded k m {s} (late_opens conn o) v =
    via (keeps-G k m refl refl refl refl) (omega arith) (omega arith) (omega arith) (omega arith) v
Move-Guarded k m {s} (discards ch) v =
    via (keeps-G k m refl refl refl refl) (omega arith) (omega arith) (omega arith) (omega arith) v
Move-Guarded k m {s} dials v =
    via (keeps-G (1 + k) m refl refl refl refl) (omega arith) (omega arith) (omega arith)
      (omega arith) v
Move-Guarded k m {s} (closes e) v =
    via (keeps-G k m refl refl refl refl) (omega arith) (omega arith) (omega arith) (omega arith) v
Move-Guarded k m {s} (is_offline job u e) v =
    same_counts v (omega (arith, failure-clear in_section (λ n. refl) job))
      (omega (arith, failure-clear is_retiring (λ n. refl) job))
Move-Guarded k m {s} (call_fails job conn) v =
    same_counts v (omega (arith, failure-clear in_section (λ n. refl) job))
      (omega (arith, failure-clear is_retiring (λ n. refl) job))
Move-Guarded k m {s} (times_out job conn) v =
    same_counts v (omega (arith, failure-clear in_section (λ n. refl) job))
      (omega (arith, failure-clear is_retiring (λ n. refl) job))
Move-Guarded k m {s} (confirms job ch) v =
    same_counts v (omega (arith, (creation-clear job (record { ch = ch; created_at = s.now })).0))
      (omega (arith, (creation-clear job (record { ch = ch; created_at = s.now })).1))
Move-Guarded k m {s} (confirm_fails job ch) v =
    via (keeps-G k m refl refl refl refl) (omega arith) (omega arith)
      (omega (arith, failure-clear in_section (λ n. refl) job))
      (omega (arith, failure-clear is_retiring (λ n. refl) job)) v
Move-Guarded k m {s} (stores pch l e room) v =
    via (grows-G k m pch l e room) (omega arith) (omega arith) (omega arith) (omega arith) v
Move-Guarded k m {s} (warms n pch l e room) v =
    via (grows-G k m pch l e room) (omega arith) (omega arith)
      (omega (arith, attempt-clear in_section (λ n. refl) n))
      (omega (arith, attempt-clear is_retiring (λ n. refl) n)) v
Move-Guarded k m {s} (warms_none n pch e) v =
    via (keeps-G k m refl refl refl refl) (omega arith) (omega arith)
      (omega (arith, attempt-clear in_section (λ n. refl) n))
      (omega (arith, attempt-clear is_retiring (λ n. refl) n)) v
Move-Guarded k m {s} (warms_full n pch l e full) v =
    via (keeps-G k m refl refl refl refl) (omega arith) (omega arith)
      (omega (arith, attempt-clear in_section (λ n. refl) n))
      (omega (arith, attempt-clear is_retiring (λ n. refl) n)) v
Move-Guarded k m {s} (drains_one pch rest e) v =
    via (shrinks-G k m pch rest (update s.open_channel pch.ch false) e) (omega arith) (omega arith)
      (omega arith) (omega arith) v
Move-Guarded k m {s} (close_drains_one pch rest e) v =
    via (shrinks-G (1 + k) m pch rest (update s.open_channel pch.ch false) e) (omega arith)
      (omega arith) (omega arith) (omega arith) v
Move-Guarded k m {s} (locks e) v =
    via (locks-G k m e) (omega arith) (omega arith) (omega arith) (omega arith) v
Move-Guarded k m {s} (close_locks e) v =
    via (locks-G k m e) (omega arith) (omega arith) (omega arith) (omega arith) v
Move-Guarded k m {s} dial_fails v =
    via (unlocks-G k m none) (omega arith) (omega arith) (omega arith) (omega arith) v
Move-Guarded k m {s} (declare_fails e) v =
    via (unlocks-G k m s.connection) (omega arith) (omega arith) (omega arith) (omega arith) v
Move-Guarded k m {s} (close_ends e) v =
    via (unlocks-G k m s.connection) (omega arith) (omega arith) (omega arith) (omega arith) v
Move-Guarded k m {s} swaps v =
    via (swaps-G (1 + k) m) (omega arith) (omega arith) (omega arith) (omega arith) v
Move-Guarded k m {s} (retires_one pch rest e) v =
    via (retires-G (1 + k) m rest (update s.open_channel pch.ch false)) (omega arith) (omega arith)
      (omega arith) (omega arith) v
Move-Guarded k m {s} (retired_all e) v =
    via (retired-G k m e) (omega arith) (omega arith)
      (omega (arith, attempt-clear in_section (λ n. refl) (capacity s)))
      (omega (arith, attempt-clear is_retiring (λ n. refl) (capacity s))) v

-- ===== src/Publisher/Threads/Weights.antt =====
-- pkg/rabbitmq/pool.go and publisher.go: the moves that a thread may have before it.
use rabbitmq_go.Base.{
  ℕ, zero, suc, ◌+◌, ◌*◌, ◌≤◌, Bool, true, false, Option, none, some, List, [], ◌∷◌, ◌≡◌, length,
  length-append, if◌then◌else◌, arith, refl,
}
use rabbitmq_go.Publisher.{PooledChannel}
use rabbitmq_go.Publisher.Threads.{
  Shared, Job, borrowing, warming, Pc, entering, taking, inspecting, opening, calling, confirming,
  late, using, heard, returning, storing, warm_storing, discarding, draining, awaiting, dialing,
  dialed, retiring, closing, close_waiting, close_draining, idle, capacity, next_attempt,
  after_failure, after_creation, shut_option,
}
use rabbitmq_go.Publisher.Threads.Moves.{
  Move, refuses, enters, finds_none, takes, replaces, borrows, is_offline, reads, call_fails,
  call_opens, times_out, late_fails, late_opens, confirms, confirm_fails, published, listens,
  spoiled, forgets, gives_back, rejects, passes, stores, no_pool, overflows, warms, warms_none,
  warms_full, discards, drains_one, drained, leaves, locks, dial_fails, dials, declare_fails, swaps,
  retires_one, retired_all, closes_again, closes, close_locks, close_drains_one, close_ends,
}

-- The moves that a thread may have before it, where the pool has the capacity `c`.
abbrev job_weight : Job → ℕ
job_weight (borrowing caller) = 4
job_weight (warming n) = 5 * n + 2

unfoldable pub weight : ℕ → Pc → ℕ
weight c (entering caller) = 10
weight c (taking caller) = 9
weight c (inspecting caller pch) = 8
weight c (opening job) = job_weight job + 3
weight c (calling job conn) = job_weight job + 2
weight c (confirming job ch) = job_weight job + 1
weight c (late conn) = 2
weight c (using caller pch) = 4
weight c (heard pch) = 3
weight c (returning pch) = 3
weight c (storing pch) = 2
weight c (warm_storing n pch) = 5 * n + 2
weight c (discarding ch) = 1
weight c draining = 5 * c + 5
weight c awaiting = 5 * c + 4
weight c dialing = 5 * c + 3
weight c dialed = 5 * c + 2
weight c retiring = 5 * c + 1
weight c closing = 3
weight c close_waiting = 2
weight c close_draining = 1

abbrev pub total : ℕ → List Pc → ℕ
total c [] = 0
total c (pc ∷ l) = weight c pc + total c l

-- The channels that the watcher or `Close` may have to drain.
abbrev pub stock : Shared → ℕ
stock s = length (idle s) + length s.retired

-- Does the watcher fail to connect in this move?
abbrev pub fails : {s s' : Shared} {pc : Pc} {new : List Pc} → Move s pc s' new → Bool
fails dial_fails = true
fails (declare_fails e) = true
fails _ = false

attempt_weight : (c n : ℕ) → total c (next_attempt n) ≡ 5 * n
unfolding weight
attempt_weight c zero = refl
attempt_weight c (suc n) = omega arith

failure_weight : (c : ℕ) (job : Job) → total c (after_failure job) + 2 ≤ job_weight job
unfolding weight
failure_weight c (borrowing caller) = omega arith
failure_weight c (warming n) = omega (arith, attempt_weight c n)

creation_weight :
    (c : ℕ) (job : Job) (pch : PooledChannel) → weight c (after_creation job pch) ≡ job_weight job
unfolding weight
creation_weight c (borrowing caller) pch = refl
creation_weight c (warming n) pch = refl

same_stock : (o : Option ℕ) (s : Shared) → stock (shut_option o s) ≡ stock s
same_stock none s = refl
same_stock (some conn) s = refl

same_capacity : (o : Option ℕ) (s : Shared) → capacity (shut_option o s) ≡ capacity s
same_capacity none s = refl
same_capacity (some conn) s = refl

pub Move-capacity :
    {s s' : Shared} {pc : Pc} {new : List Pc} → Move s pc s' new → capacity s' ≡ capacity s
Move-capacity {s} (refuses caller e) = refl
Move-capacity {s} (enters caller e) = refl
Move-capacity {s} (finds_none caller e) = refl
Move-capacity {s} (takes caller pch rest e) = refl
Move-capacity {s} (replaces caller pch e) = refl
Move-capacity {s} (borrows caller pch e) = refl
Move-capacity {s} (is_offline job e f) = refl
Move-capacity {s} (reads job conn e f g) = refl
Move-capacity {s} (call_fails job conn) = refl
Move-capacity {s} (call_opens job conn e) = refl
Move-capacity {s} (times_out job conn) = refl
Move-capacity {s} (late_fails conn) = refl
Move-capacity {s} (late_opens conn e) = refl
Move-capacity {s} (confirms job ch) = refl
Move-capacity {s} (confirm_fails job ch) = refl
Move-capacity {s} (published pch) = refl
Move-capacity {s} (listens pch) = refl
Move-capacity {s} (spoiled pch) = refl
Move-capacity {s} (leaves e) = refl
Move-capacity {s} (forgets pch e) = refl
Move-capacity {s} (gives_back pch e) = refl
Move-capacity {s} (rejects pch e) = refl
Move-capacity {s} (passes pch e) = refl
Move-capacity {s} (stores pch l e f) = refl
Move-capacity {s} (no_pool pch e) = refl
Move-capacity {s} (overflows pch l e f) = refl
Move-capacity {s} (warms n pch l e f) = refl
Move-capacity {s} (warms_none n pch e) = refl
Move-capacity {s} (warms_full n pch l e f) = refl
Move-capacity {s} (discards ch) = refl
Move-capacity {s} (drains_one pch rest e) = refl
Move-capacity {s} (drained e) = refl
Move-capacity {s} (locks e) = refl
Move-capacity {s} dial_fails = refl
Move-capacity {s} dials = refl
Move-capacity {s} (declare_fails e) = same_capacity s.connection s
Move-capacity {s} swaps = refl
Move-capacity {s} (retires_one pch rest e) = refl
Move-capacity {s} (retired_all e) = refl
Move-capacity {s} (closes_again e) = refl
Move-capacity {s} (closes e) = refl
Move-capacity {s} (close_locks e) = refl
Move-capacity {s} (close_drains_one pch rest e) = refl
Move-capacity {s} (close_ends e) = same_capacity s.connection s

-- A move of one thread.
pub Move-left :
    (c : ℕ) {s s' : Shared} {pc : Pc} {new : List Pc} (m : Move s pc s' new)
    → c ≡ capacity s
    → 1 + (total c new + stock s') ≤ weight c pc + stock s + (if fails m then 3 else 0)
unfolding weight
Move-left c {s} (refuses caller e) k = ground (arith)
Move-left c {s} (enters caller e) k = ground (arith)
Move-left c {s} (finds_none caller e) k = ground (arith)
Move-left c {s} (takes caller pch rest e) k = ground (arith)
Move-left c {s} (replaces caller pch e) k = ground (arith)
Move-left c {s} (borrows caller pch e) k = ground (arith)
Move-left c {s} (is_offline job e f) k = ground (arith, failure_weight c job)
Move-left c {s} (reads job conn e f g) k = ground (arith)
Move-left c {s} (call_fails job conn) k = ground (arith, failure_weight c job)
Move-left c {s} (call_opens job conn e) k = ground (arith)
Move-left c {s} (times_out job conn) k = ground (arith, failure_weight c job)
Move-left c {s} (late_fails conn) k = ground (arith)
Move-left c {s} (late_opens conn e) k = ground (arith)
Move-left c {s} (confirms job ch) k =
    ground (arith, creation_weight c job (record { ch = ch; created_at = s.now }))
Move-left c {s} (confirm_fails job ch) k = ground (arith, failure_weight c job)
Move-left c {s} (published pch) k = ground (arith)
Move-left c {s} (listens pch) k = ground (arith)
Move-left c {s} (spoiled pch) k = ground (arith)
Move-left c {s} (leaves e) k = ground (arith)
Move-left c {s} (forgets pch e) k = ground (arith)
Move-left c {s} (gives_back pch e) k = ground (arith)
Move-left c {s} (rejects pch e) k = ground (arith)
Move-left c {s} (passes pch e) k = ground (arith)
Move-left c {s} (stores pch l e f) k = ground (arith, length-append l (pch ∷ []))
Move-left c {s} (no_pool pch e) k = ground (arith)
Move-left c {s} (overflows pch l e f) k = ground (arith)
Move-left c {s} (warms n pch l e f) k =
    ground (arith, attempt_weight c n, length-append l (pch ∷ []))
Move-left c {s} (warms_none n pch e) k = ground (arith, attempt_weight c n)
Move-left c {s} (warms_full n pch l e f) k = ground (arith, attempt_weight c n)
Move-left c {s} (discards ch) k = ground (arith)
Move-left c {s} (drains_one pch rest e) k = ground (arith)
Move-left c {s} (drained e) k = ground (arith)
Move-left c {s} (locks e) k = ground (arith)
Move-left c {s} dial_fails k = ground (arith)
Move-left c {s} dials k = ground (arith)
Move-left c {s} (declare_fails e) k = ground (arith, same_stock s.connection s)
Move-left c {s} swaps k = ground (arith, length-append (idle s) s.retired)
Move-left c {s} (retires_one pch rest e) k = ground (arith)
Move-left c {s} (retired_all e) k = ground (arith, attempt_weight c (capacity s))
Move-left c {s} (closes_again e) k = ground (arith)
Move-left c {s} (closes e) k = ground (arith)
Move-left c {s} (close_locks e) k = ground (arith)
Move-left c {s} (close_drains_one pch rest e) k = ground (arith)
Move-left c {s} (close_ends e) k = ground (arith, same_stock s.connection s)

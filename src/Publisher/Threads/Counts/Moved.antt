-- ===== src/Publisher/Threads/Counts/Moved.antt =====
-- pkg/rabbitmq/pool.go and publisher.go: each move of a thread keeps the accounts.
use rabbitmq_go.Base.{ℕ, ◌+◌, true, false, List, [], ◌∷◌, tally, arith}
use rabbitmq_go.Publisher.Threads.{Shared, Pc, capacity}
use rabbitmq_go.Publisher.Threads.Moves.{
  Move, refuses, enters, finds_none, takes, replaces, borrows, is_offline, reads, call_fails,
  call_opens, times_out, late_fails, late_opens, confirms, confirm_fails, published, listens,
  spoiled, forgets, gives_back, rejects, passes, stores, no_pool, overflows, warms, warms_none,
  warms_full, discards, drains_one, drained, leaves, locks, dial_fails, dials, declare_fails, swaps,
  retires_one, retired_all, closes_again, closes, close_locks, close_drains_one, close_ends,
}
use rabbitmq_go.Publisher.Threads.Counts.{
  holds, failure_holds, attempt_holds, creation_holds, same_sum, via, takes-A, opens-A, closes-A,
  loses-A, stores-A, drains-A, retires-A, swaps-A, relocked, connects-A, shuts-A, Accounted,
}

pub Move-Accounted :
    (i r : ℕ) {s s' : Shared} {pc : Pc} {new : List Pc}
    → Move s pc s' new
    → Accounted i s (tally (holds i) (pc ∷ []) + r)
    → Accounted i s' (tally (holds i) new + r)
Move-Accounted i r {s} (refuses job e) v = v
Move-Accounted i r {s} (enters job e) v = v
Move-Accounted i r {s} (finds_none job e) v = v
Move-Accounted i r {s} (takes job pch rest e) v =
    via (takes-A i r s job pch rest e) (ground arith) (ground arith) v
Move-Accounted i r {s} (replaces job pch e) v =
    via (closes-A i r s pch.ch) (ground arith) (ground arith) v
Move-Accounted i r {s} (borrows job pch e) v = v
Move-Accounted i r {s} (is_offline job u e) v = same_sum v (omega (arith, failure_holds i job))
Move-Accounted i r {s} (reads job conn u e o) v = v
Move-Accounted i r {s} (call_fails job conn) v = same_sum v (omega (arith, failure_holds i job))
Move-Accounted i r {s} (call_opens job conn o) v =
    via (opens-A i r s conn o) (ground arith) (ground arith) v
Move-Accounted i r {s} (times_out job conn) v = same_sum v (omega (arith, failure_holds i job))
Move-Accounted i r {s} (late_fails conn) v = v
Move-Accounted i r {s} (late_opens conn o) v =
    via (opens-A i r s conn o) (ground arith) (ground arith) v
Move-Accounted i r {s} (confirms job ch) v =
    same_sum v (ground (arith, creation_holds i job (record { ch = ch; created_at = s.now })))
Move-Accounted i r {s} (confirm_fails job ch) v =
    via (closes-A i r s ch) (ground arith) (omega (arith, failure_holds i job)) v
Move-Accounted i r {s} (published pch) v = v
Move-Accounted i r {s} (listens pch) v = record {
  placed = v.placed;
  reachable = v.reachable;
  carried = v.carried;
}
Move-Accounted i r {s} (spoiled pch) v = v
Move-Accounted i r {s} (leaves e) v = v
Move-Accounted i r {s} (forgets pch e) v =
    via (loses-A i r s pch.ch e) (ground arith) (ground arith) v
Move-Accounted i r {s} (gives_back pch e) v = v
Move-Accounted i r {s} (rejects pch e) v = v
Move-Accounted i r {s} (passes pch e) v = v
Move-Accounted i r {s} (stores pch l e room) v =
    via (stores-A i r s pch l e) (ground arith) (ground arith) v
Move-Accounted i r {s} (no_pool pch e) v = v
Move-Accounted i r {s} (overflows pch l e full) v = v
Move-Accounted i r {s} (warms n pch l e room) v =
    via (stores-A i r s pch l e) (ground arith) (omega (arith, attempt_holds i n)) v
Move-Accounted i r {s} (warms_none n pch e) v =
    via (closes-A i r s pch.ch) (ground arith) (omega (arith, attempt_holds i n)) v
Move-Accounted i r {s} (warms_full n pch l e full) v =
    via (closes-A i r s pch.ch) (ground arith) (omega (arith, attempt_holds i n)) v
Move-Accounted i r {s} (discards ch) v = via (closes-A i r s ch) (ground arith) (ground arith) v
Move-Accounted i r {s} (drains_one pch rest e) v =
    via (drains-A i r s pch rest e) (ground arith) (ground arith) v
Move-Accounted i r {s} (drained e) v = v
Move-Accounted i r {s} (locks e) v = via (relocked i r s true) (ground arith) (ground arith) v
Move-Accounted i r {s} (dial_fails) v = via (relocked i r s false) (ground arith) (ground arith) v
Move-Accounted i r {s} (dials) v = via (connects-A i r s) (ground arith) (ground arith) v
Move-Accounted i r {s} (declare_fails e) v =
    via (shuts-A i r s.connection s) (ground arith) (ground arith) v
Move-Accounted i r {s} (swaps) v = via (swaps-A i r s) (ground arith) (ground arith) v
Move-Accounted i r {s} (retires_one pch rest e) v =
    via (retires-A i r s pch rest e) (ground arith) (ground arith) v
Move-Accounted i r {s} (retired_all e) v =
    via (relocked i r s false) (ground arith) (omega (arith, attempt_holds i (capacity s))) v
Move-Accounted i r {s} (closes_again e) v = v
Move-Accounted i r {s} (closes e) v = record {
  placed = v.placed;
  reachable = v.reachable;
  carried = v.carried;
}
Move-Accounted i r {s} (close_locks e) v = via (relocked i r s true) (ground arith) (ground arith) v
Move-Accounted i r {s} (close_drains_one pch rest e) v =
    via (drains-A i r s pch rest e) (ground arith) (ground arith) v
Move-Accounted i r {s} (close_ends e) v =
    via (shuts-A i r s.connection s) (ground arith) (ground arith) v

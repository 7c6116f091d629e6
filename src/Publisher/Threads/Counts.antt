-- ===== src/Publisher/Threads/Counts.antt =====
-- pkg/rabbitmq/pool.go and publisher.go: what a thread holds, and how a move of one thread changes the
-- accounts of the channels, the bound of the pool, and the lock.
pub mod Moved
use rabbitmq_go.Base.{
  ℕ, ◌+◌, zero, suc, ◌≤◌, Bool, true, false, not, ◌&&◌, Option, none, some, List, [], ◌∷◌, ◌++◌,
  ◌≡◌, tally-append, ◌==◌, ltb, if◌then◌else◌, tally, arith, subst, Bool-cases, ==_iff, inl, inr,
  refl,
}
use rabbitmq_go.Publisher.{PooledChannel}
use rabbitmq_go.Publisher.Threads.{
  Shared, Caller, Job, borrowing, warming, Pc, inspecting, confirming, using, heard, returning,
  storing, warm_storing, discarding, dialing, dialed, retiring, close_draining, idle, capacity,
  close_channel, opened, shut_connection, connected, next_attempt, after_failure, after_creation,
  shut_option,
}
use rabbitmq_go.Publisher.Threads.Moves.{
  Move, refuses, enters, finds_none, takes, replaces, borrows, is_offline, reads, call_fails,
  call_opens, times_out, late_fails, late_opens, confirms, confirm_fails, published, listens,
  spoiled, forgets, gives_back, rejects, passes, stores, no_pool, overflows, warms, warms_none,
  warms_full, discards, drains_one, drained, leaves, locks, dial_fails, dials, declare_fails, swaps,
  retires_one, retired_all, closes_again, closes, close_locks, close_drains_one, close_ends,
}

-- The channel that a thread has in hand.
abbrev pub in_hand : Pc → Option ℕ
in_hand (inspecting job pch) = some pch.ch
in_hand (confirming job ch) = some ch
in_hand (using job pch) = some pch.ch
in_hand (heard pch) = some pch.ch
in_hand (returning pch) = some pch.ch
in_hand (storing pch) = some pch.ch
in_hand (warm_storing n pch) = some pch.ch
in_hand (discarding ch) = some ch
in_hand _ = none

abbrev pub holds : ℕ → Pc → Bool
holds i pc = elim (in_hand pc) [ none ↦ false | some ch ↦ ch == i ]

-- Is the thread in a section under `connMu.Lock`? In the drain of the old pool?
abbrev pub in_section : Pc → Bool
in_section dialing = true
in_section dialed = true
in_section retiring = true
in_section close_draining = true
in_section _ = false

abbrev pub is_retiring : Pc → Bool
is_retiring retiring = true
is_retiring _ = false

-- How often a channel is in the pool or in the pools before it.
abbrev pub pooled : ℕ → Shared → ℕ
pooled i s = tally (λ pch. pch.ch == i) (idle s) + tally (λ pch. pch.ch == i) s.retired

-- A channel with `h` threads that have it in hand.
pub record Accounted (i : ℕ) (s : Shared) (h : ℕ) : Type 0 where
  -- it has at most one place, and none before it exists
  pub placed : pooled i s + h ≤ (if ltb i s.next_channel then 1 else 0)
  -- an open one has a place, and its connection is open
  pub reachable : (if s.open_channel i then 1 else 0) ≤ pooled i s + h
  pub carried : (s.open_channel i && not (s.open_connection (s.conn_of i))) ≡ false

pub failure_holds : (i : ℕ) (job : Job) → tally (holds i) (after_failure job) ≡ 0
failure_holds i (borrowing caller) = refl
failure_holds i (warming zero) = refl
failure_holds i (warming (suc n)) = refl

pub attempt_holds : (i n : ℕ) → tally (holds i) (next_attempt n) ≡ 0
attempt_holds i zero = refl
attempt_holds i (suc n) = refl

pub creation_holds :
    (i : ℕ) (job : Job) (pch : PooledChannel)
    → tally (holds i) (after_creation job pch ∷ []) ≡ (if pch.ch == i then 1 else 0)
creation_holds i (borrowing caller) pch = ground arith
creation_holds i (warming n) pch = ground arith

pub same_sum : {i h h' : ℕ} {s : Shared} → Accounted i s h → h ≡ h' → Accounted i s h'
same_sum {i} {s = s} v e = subst (λ n. Accounted i s n) e v

-- The sums of a lemma and of a move are equal.
pub via :
    {i h h' k k' : ℕ} {s s' : Shared}
    → (Accounted i s h → Accounted i s' k)
    → h' ≡ h
    → k ≡ k'
    → Accounted i s h'
    → Accounted i s' k'
via f e e' v = same_sum (f (same_sum v e)) e'

pub takes-A :
    (i r : ℕ) (s : Shared) (caller : Caller) (pch : PooledChannel) (rest : List PooledChannel)
    → s.pool ≡ some (pch ∷ rest)
    → Accounted i s r
    → Accounted i (record s { pool = some rest }) (tally (holds i) (inspecting caller pch ∷ []) + r)
takes-A i r s caller pch rest e v = record {
  placed = ground (arith, v.placed);
  reachable = ground (arith, v.reachable);
  carried = v.carried;
}

pub opens-A :
    (i r : ℕ) (s : Shared) (conn : ℕ)
    → s.open_connection conn ≡ true
    → Accounted i s r
    → Accounted i (opened conn s) ((if s.next_channel == i then 1 else 0) + r)
opens-A i r s conn e v = record {
  placed = ground (arith, v.placed);
  reachable = ground (arith, v.reachable);
  carried = ground (arith, v.carried);
}

pub closes-A :
    (i r : ℕ) (s : Shared) (ch : ℕ)
    → Accounted i s ((if ch == i then 1 else 0) + r)
    → Accounted i (close_channel ch s) r
closes-A i r s ch v = record {
  placed = ground (arith, v.placed);
  reachable = ground (arith, v.placed, v.reachable);
  carried = ground (arith, v.carried);
}

-- A channel that is closed is forgotten.
pub loses-A :
    (i r : ℕ) (s : Shared) (ch : ℕ)
    → s.open_channel ch ≡ false
    → Accounted i s ((if ch == i then 1 else 0) + r)
    → Accounted i s r
loses-A i r s ch e v = record {
  placed = ground (arith, v.placed);
  reachable = elim (Bool-cases (ch == i)) [
    | inl p ↦
        let shut = subst (λ c. s.open_channel c ≡ false) ((==_iff ch i).0 p) e in
        ground (arith, shut)
    | inr p ↦ ground (arith, v.reachable)
  ];
  carried = v.carried;
}

pub stores-A :
    (i r : ℕ) (s : Shared) (pch : PooledChannel) (l : List PooledChannel)
    → s.pool ≡ some l
    → Accounted i s ((if pch.ch == i then 1 else 0) + r)
    → Accounted i (record s { pool = some (l ++ pch ∷ []) }) r
stores-A i r s pch l e v = record {
  placed = ground (arith, v.placed, tally-append (λ p. p.ch == i) l (pch ∷ []));
  reachable = ground (arith, v.reachable, tally-append (λ p. p.ch == i) l (pch ∷ []));
  carried = v.carried;
}

-- The head of the pool, or of what is left of an old one, is closed.
pub drains-A :
    (i r : ℕ) (s : Shared) (pch : PooledChannel) (rest : List PooledChannel)
    → s.pool ≡ some (pch ∷ rest)
    → Accounted i s r
    → Accounted i (close_channel pch.ch (record s { pool = some rest })) r
drains-A i r s pch rest e v = record {
  placed = ground (arith, v.placed);
  reachable = ground (arith, v.placed, v.reachable);
  carried = ground (arith, v.carried);
}

pub retires-A :
    (i r : ℕ) (s : Shared) (pch : PooledChannel) (rest : List PooledChannel)
    → s.retired ≡ pch ∷ rest
    → Accounted i s r
    → Accounted i (close_channel pch.ch (record s { retired = rest })) r
retires-A i r s pch rest e v = record {
  placed = ground (arith, v.placed);
  reachable = ground (arith, v.placed, v.reachable);
  carried = ground (arith, v.carried);
}

pub swaps-A :
    (i r : ℕ) (s : Shared)
    → Accounted i s r
    → Accounted i (record s { pool = some []; retired = idle s ++ s.retired }) r
swaps-A i r s v = record {
  placed = ground (arith, v.placed, tally-append (λ p. p.ch == i) (idle s) s.retired);
  reachable = ground (arith, v.reachable, tally-append (λ p. p.ch == i) (idle s) s.retired);
  carried = v.carried;
}

pub relocked :
    (i r : ℕ) (s : Shared) (b : Bool)
    → Accounted i s r
    → Accounted i (record s { conn_locked = b }) r
relocked i r s b v = record { placed = v.placed; reachable = v.reachable; carried = v.carried }

pub connects-A : (i r : ℕ) (s : Shared) → Accounted i s r → Accounted i (connected s) r
connects-A i r s v = record {
  placed = v.placed;
  reachable = v.reachable;
  carried = ground (arith, v.carried);
}

pub shut-A :
    (i r : ℕ) (s : Shared) (conn : ℕ) → Accounted i s r → Accounted i (shut_connection conn s) r
shut-A i r s conn v = record {
  placed = v.placed;
  reachable = ground (arith, v.reachable);
  carried = ground (arith, v.carried);
}

-- A channel is closed from outside.
pub loses_one-A :
    (i r : ℕ) (s : Shared) (ch : ℕ) → Accounted i s r → Accounted i (close_channel ch s) r
loses_one-A i r s ch v = record {
  placed = v.placed;
  reachable = ground (arith, v.reachable);
  carried = ground (arith, v.carried);
}

pub shuts-A :
    (i r : ℕ) (o : Option ℕ) (s : Shared)
    → Accounted i s r
    → Accounted i (record (shut_option o s) { conn_locked = false }) r
shuts-A i r none s v = relocked i r s false v
shuts-A i r (some conn) s v = relocked i r (shut_connection conn s) false (shut-A i r s conn v)

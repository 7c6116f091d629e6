-- ===== src/Publisher/Threads/Listeners.antt =====
-- pkg/rabbitmq/publisher.go: a channel with a `NotifyReturn` listener is not used again. Such a listener
-- cannot be taken off, and would take the returns of later publishes.
use rabbitmq_go.Base.{
  update, ℕ, zero, suc, ◌+◌, ◌≤◌, Bool, true, false, Option, none, some, List, [], ◌∷◌, ◌≡◌, tally,
  tally-append, ◌==◌, ltb, if◌then◌else◌, arith, refl, subst,
}
use rabbitmq_go.Publisher.{PooledChannel}
use rabbitmq_go.Publisher.Threads.{
  Shared, Job, borrowing, publishing, warming, Pc, entering, taking, inspecting, opening, calling,
  confirming, late, using, heard, returning, storing, warm_storing, discarding, draining, awaiting,
  dialing, dialed, retiring, closing, close_waiting, close_draining, idle, capacity, opened,
  next_attempt, after_failure, after_creation, shut_option,
}
use rabbitmq_go.Publisher.Threads.Moves.{
  Move, refuses, enters, finds_none, takes, replaces, borrows, is_offline, reads, call_fails,
  call_opens, times_out, late_fails, late_opens, confirms, confirm_fails, published, listens,
  spoiled, forgets, gives_back, rejects, passes, stores, no_pool, overflows, warms, warms_none,
  warms_full, discards, drains_one, drained, leaves, locks, dial_fails, dials, declare_fails, swaps,
  retires_one, retired_all, closes_again, closes, close_locks, close_drains_one, close_ends,
}
use rabbitmq_go.Publisher.Threads.Counts.{in_hand, holds, pooled, Accounted}

-- The channel that a thread has in hand to use it or to put it into the pool.
abbrev pub in_use : Pc → Option ℕ
in_use (heard pch) = none
in_use (discarding ch) = none
in_use pc = in_hand pc

abbrev pub uses : ℕ → Pc → Bool
uses i pc = elim (in_use pc) [ none ↦ false | some ch ↦ ch == i ]

-- A channel that `g` threads have in hand to use it.
pub record Unheard (i : ℕ) (s : Shared) (g : ℕ) : Type 0 where
  pub unheard : (if s.listening i then pooled i s + g else 0) ≡ 0
  pub known : (if s.listening i then 1 else 0) ≤ (if ltb i s.next_channel then 1 else 0)

pub same_uses : {i g g' : ℕ} {s : Shared} → Unheard i s g → g ≡ g' → Unheard i s g'
same_uses {i} {s = s} v e = subst (λ n. Unheard i s n) e v

module _ (i : ℕ) where
  attempt_uses : (n : ℕ) → tally (uses i) (next_attempt n) ≡ 0
  attempt_uses zero = refl
  attempt_uses (suc n) = refl

  failure_uses : (job : Job) → tally (uses i) (after_failure job) ≡ 0
  failure_uses (borrowing caller) = refl
  failure_uses (warming n) = attempt_uses n

  creation_uses :
      (job : Job) (pch : PooledChannel)
      → tally (uses i) (after_creation job pch ∷ []) ≡ (if pch.ch == i then 1 else 0)
  creation_uses (borrowing caller) pch = ground arith
  creation_uses (warming n) pch = ground arith

  -- The pool and the uses of the channel together only shrink.
  pub shrinks-U :
      {s s' : Shared} (g g' : ℕ)
      → s'.listening i ≡ s.listening i
      → s'.next_channel ≡ s.next_channel
      → pooled i s' + g' ≤ pooled i s + g
      → Unheard i s g
      → Unheard i s' g'
  shrinks-U g g' same later less v = record {
    unheard = ground (arith, v.unheard);
    known = ground (arith, v.known);
  }

  -- A new channel has no listener.
  opens-U :
      (g : ℕ) (s : Shared) (conn : ℕ)
      → Unheard i s g
      → Unheard i (opened conn s) ((if s.next_channel == i then 1 else 0) + g)
  opens-U g s conn v = record {
    unheard = ground (arith, v.unheard, v.known);
    known = ground (arith, v.known);
  }

  -- A thread that has the channel in hand is the only one.
  listens-U :
      (r q : ℕ) (s : Shared) (pch : PooledChannel)
      → q ≤ r
      → Accounted i s (tally (holds i) (using (publishing true) pch ∷ []) + r)
      → Unheard i s (tally (uses i) (using (publishing true) pch ∷ []) + q)
      → Unheard i (record s { listening = update s.listening pch.ch true }) q
  listens-U r q s pch less a v = record {
    unheard = ground (arith, v.unheard, a.placed);
    known = ground (arith, v.known, a.placed);
  }

shut-listening :
    (o : Option ℕ) (s : Shared) (i : ℕ)
    → ((shut_option o s).listening i ≡ s.listening i)
      × ((shut_option o s).next_channel ≡ s.next_channel)
      × (pooled i (shut_option o s) ≡ pooled i s)
shut-listening none s i = (refl, refl, refl)
shut-listening (some conn) s i = (refl, refl, refl)

pub Move-Unheard :
    (i r q : ℕ) {s s' : Shared} {pc : Pc} {new : List Pc}
    → Move s pc s' new
    → q ≤ r
    → Accounted i s (tally (holds i) (pc ∷ []) + r)
    → Unheard i s (tally (uses i) (pc ∷ []) + q)
    → Unheard i s' (tally (uses i) new + q)
Move-Unheard i r q {s} (refuses caller e) less a v = shrinks-U i _ _ refl refl (ground (arith)) v
Move-Unheard i r q {s} (enters caller e) less a v = shrinks-U i _ _ refl refl (ground (arith)) v
Move-Unheard i r q {s} (finds_none caller e) less a v = shrinks-U i _ _ refl refl (ground (arith)) v
Move-Unheard i r q {s} (takes caller pch rest e) less a v =
    shrinks-U i _ _ refl refl (ground (arith)) v
Move-Unheard i r q {s} (replaces caller pch e) less a v =
    shrinks-U i _ _ refl refl (ground (arith)) v
Move-Unheard i r q {s} (borrows caller pch e) less a v =
    shrinks-U i _ _ refl refl (ground (arith)) v
Move-Unheard i r q {s} (is_offline job e f) less a v =
    shrinks-U i _ _ refl refl (ground (arith, failure_uses i job)) v
Move-Unheard i r q {s} (reads job conn e f g) less a v =
    shrinks-U i _ _ refl refl (ground (arith)) v
Move-Unheard i r q {s} (call_fails job conn) less a v =
    shrinks-U i _ _ refl refl (ground (arith, failure_uses i job)) v
Move-Unheard i r q {s} (call_opens job conn e) less a v =
    same_uses (opens-U i q s conn (same_uses v (ground arith))) (ground arith)
Move-Unheard i r q {s} (times_out job conn) less a v =
    shrinks-U i _ _ refl refl (ground (arith, failure_uses i job)) v
Move-Unheard i r q {s} (late_fails conn) less a v = shrinks-U i _ _ refl refl (ground (arith)) v
Move-Unheard i r q {s} (late_opens conn e) less a v =
    shrinks-U i ((if s.next_channel == i then 1 else 0) + q)
      (tally (uses i) (discarding s.next_channel ∷ []) + q) refl refl (ground arith)
      (opens-U i q s conn (same_uses v (ground arith)))
Move-Unheard i r q {s} (confirms job ch) less a v =
    shrinks-U i _ _ refl refl
      (ground (arith, creation_uses i job (record { ch = ch; created_at = s.now }))) v
Move-Unheard i r q {s} (confirm_fails job ch) less a v =
    shrinks-U i _ _ refl refl (ground (arith, failure_uses i job)) v
Move-Unheard i r q {s} (published pch) less a v = shrinks-U i _ _ refl refl (ground (arith)) v
Move-Unheard i r q {s} (listens pch) less a v =
    same_uses (listens-U i r q s pch less a v) (ground arith)
Move-Unheard i r q {s} (spoiled pch) less a v = shrinks-U i _ _ refl refl (ground (arith)) v
Move-Unheard i r q {s} (forgets pch e) less a v = shrinks-U i _ _ refl refl (ground (arith)) v
Move-Unheard i r q {s} (gives_back pch e) less a v = shrinks-U i _ _ refl refl (ground (arith)) v
Move-Unheard i r q {s} (rejects pch e) less a v = shrinks-U i _ _ refl refl (ground (arith)) v
Move-Unheard i r q {s} (passes pch e) less a v = shrinks-U i _ _ refl refl (ground (arith)) v
Move-Unheard i r q {s} (stores pch l e f) less a v =
    shrinks-U i _ _ refl refl (ground (arith, tally-append (λ p. p.ch == i) l (pch ∷ []))) v
Move-Unheard i r q {s} (no_pool pch e) less a v = shrinks-U i _ _ refl refl (ground (arith)) v
Move-Unheard i r q {s} (overflows pch l e f) less a v = shrinks-U i _ _ refl refl (ground (arith)) v
Move-Unheard i r q {s} (warms n pch l e f) less a v =
    shrinks-U i _ _ refl refl
      (ground (arith, attempt_uses i n, tally-append (λ p. p.ch == i) l (pch ∷ []))) v
Move-Unheard i r q {s} (warms_none n pch e) less a v =
    shrinks-U i _ _ refl refl (ground (arith, attempt_uses i n)) v
Move-Unheard i r q {s} (warms_full n pch l e f) less a v =
    shrinks-U i _ _ refl refl (ground (arith, attempt_uses i n)) v
Move-Unheard i r q {s} (discards ch) less a v = shrinks-U i _ _ refl refl (ground (arith)) v
Move-Unheard i r q {s} (drains_one pch rest e) less a v =
    shrinks-U i _ _ refl refl (ground (arith)) v
Move-Unheard i r q {s} (drained e) less a v = shrinks-U i _ _ refl refl (ground (arith)) v
Move-Unheard i r q {s} (leaves e) less a v = shrinks-U i _ _ refl refl (ground (arith)) v
Move-Unheard i r q {s} (locks e) less a v = shrinks-U i _ _ refl refl (ground (arith)) v
Move-Unheard i r q {s} dial_fails less a v = shrinks-U i _ _ refl refl (ground (arith)) v
Move-Unheard i r q {s} dials less a v = shrinks-U i _ _ refl refl (ground (arith)) v
Move-Unheard i r q {s} (declare_fails e) less a v =
    (let (x, y, z) = shut-listening s.connection s i in shrinks-U i _ _ x y (ground (arith, z)) v)
Move-Unheard i r q {s} swaps less a v =
    shrinks-U i _ _ refl refl (ground (arith, tally-append (λ p. p.ch == i) (idle s) s.retired)) v
Move-Unheard i r q {s} (retires_one pch rest e) less a v =
    shrinks-U i _ _ refl refl (ground (arith)) v
Move-Unheard i r q {s} (retired_all e) less a v =
    shrinks-U i _ _ refl refl (ground (arith, attempt_uses i (capacity s))) v
Move-Unheard i r q {s} (closes_again e) less a v = shrinks-U i _ _ refl refl (ground (arith)) v
Move-Unheard i r q {s} (closes e) less a v = shrinks-U i _ _ refl refl (ground (arith)) v
Move-Unheard i r q {s} (close_locks e) less a v = shrinks-U i _ _ refl refl (ground (arith)) v
Move-Unheard i r q {s} (close_drains_one pch rest e) less a v =
    shrinks-U i _ _ refl refl (ground (arith)) v
Move-Unheard i r q {s} (close_ends e) less a v =
    (let (x, y, z) = shut-listening s.connection s i in shrinks-U i _ _ x y (ground (arith, z)) v)

one_uses : (i : ℕ) (pc : Pc) → (if uses i pc then 1 else 0) ≤ (if holds i pc then 1 else 0)
one_uses i (entering caller) = omega arith
one_uses i (taking caller) = omega arith
one_uses i (inspecting caller pch) = omega arith
one_uses i (opening job) = omega arith
one_uses i (calling job conn) = omega arith
one_uses i (confirming job ch) = omega arith
one_uses i (late conn) = omega arith
one_uses i (using caller pch) = omega arith
one_uses i (heard pch) = omega arith
one_uses i (returning pch) = omega arith
one_uses i (storing pch) = omega arith
one_uses i (warm_storing n pch) = omega arith
one_uses i (discarding ch) = omega arith
one_uses i draining = omega arith
one_uses i awaiting = omega arith
one_uses i dialing = omega arith
one_uses i dialed = omega arith
one_uses i retiring = omega arith
one_uses i closing = omega arith
one_uses i close_waiting = omega arith
one_uses i close_draining = omega arith

pub uses_bounded : (i : ℕ) (l : List Pc) → tally (uses i) l ≤ tally (holds i) l
uses_bounded i [] = omega arith
uses_bounded i (pc ∷ l) = omega (arith, one_uses i pc, uses_bounded i l)

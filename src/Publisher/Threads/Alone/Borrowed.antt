-- ===== src/Publisher/Threads/Alone/Borrowed.antt =====
-- pkg/rabbitmq/pool.go: `borrowChannel` that runs alone, against the function that models it as one step.
use rabbitmq_go.Base.{
  ℕ, ◌+◌, true, false, not, Option, none, some, List, [], ◌∷◌, ◌≡◌, refl, ap, sym, subst, arith,
  inl, inr, bytes, Bool-cases, Option-cases,
}
use rabbitmq_go.Errors.{text, Result, ok, err}
use rabbitmq_go.Publisher.{
  PooledChannel, Publisher, Client, Opening, channel_error, channel_timeout, confirm_error,
  confirm_timeout, confirm_enabled,
}
use rabbitmq_go.Publisher.Pool.{
  opened, opened_and_closed, is_disconnected, is_stale, create_confirm_channel,
  create_pooled_channel, new_channel_or_error, borrow_from, borrow_channel,
}
use rabbitmq_go.Publisher.Pool.Accounts.{
  borrow_channel_closed, borrow_channel_nil, borrow_channel_pool,
}
use rabbitmq_go.Publisher.Threads.{
  Shared, Caller, Job, borrowing, Pc, entering, taking, opening, using, after_failure,
  after_creation,
}
use rabbitmq_go.Publisher.Threads.Moves.{
  refuses, enters, finds_none, takes, replaces, borrows, is_offline, reads, call_fails, call_opens,
  times_out, late_opens, confirms, confirm_fails, discards,
}
use rabbitmq_go.Publisher.Threads.Alone.{Rest, shared_of, Course, stay, go, join, last}

module _ (client : Client) where
  -- Where a thread stands with what `createConfirmChannel` gives.
  abbrev after_create : Job → Option ℕ → Publisher → List Pc
  after_create job none q = after_failure job
  after_create job (some ch) q = after_creation job (record { ch = ch; created_at = q.now }) ∷ []

  abbrev Creates : Job → Rest → Publisher → Option ℕ × Publisher → Type 0
  Creates job w p r =
      (w' : Rest) × Course (shared_of w p) (opening job ∷ []) (shared_of w' r.1)
        (after_create job r.0 r.1)

  -- `createConfirmChannel` after the test of the connection.
  abbrev asked : Opening → Publisher → Option ℕ × Publisher
  asked channel_error p = (none, record p { questions = p.questions + 1 })
  asked channel_timeout p = (none, opened_and_closed p)
  asked confirm_error p = (none, opened_and_closed p)
  asked confirm_timeout p = (none, opened_and_closed p)
  asked confirm_enabled p = (some p.next_channel, opened p)

  create_offline :
      (p : Publisher) → is_disconnected p ≡ true → create_confirm_channel client p ≡ (none, p)
  unfolding create_confirm_channel
  create_offline p e = ground arith

  create_asked :
      (p : Publisher)
      → is_disconnected p ≡ false
      → create_confirm_channel client p ≡ asked (client.opening p) p
  unfolding create_confirm_channel
  create_asked p e =
      elim (client.opening p)
        as (λ o. create_confirm_channel (record client { opening = λ _. o }) p ≡ asked o p) [
          | channel_error ↦ ground arith
          | channel_timeout ↦ ground arith
          | confirm_error ↦ ground arith
          | confirm_timeout ↦ ground arith
          | confirm_enabled ↦ ground arith
        ]

  asked-Creates :
      (job : Job) (w : Rest) (p : Publisher) (conn : ℕ) (o : Opening)
      → p.connection ≡ some conn
      → p.open_connection conn ≡ true
      → Creates job w p (asked o p)
  asked-Creates job w p conn channel_error e f =
      (w, last _ _ (go _ _ stay (reads job conn refl e f)) (call_fails job conn))
  asked-Creates job w p conn channel_timeout e f = (
    _,
    go _ _
        (go _ _ (last _ _ (go _ _ stay (reads job conn refl e f)) (times_out job conn))
          (late_opens conn f))
        (discards p.next_channel),
  )
  asked-Creates job w p conn confirm_error e f = (
    _,
    last _ _ (go _ _ (go _ _ stay (reads job conn refl e f)) (call_opens job conn f))
        (confirm_fails job p.next_channel),
  )
  asked-Creates job w p conn confirm_timeout e f = (
    _,
    last _ _ (go _ _ (go _ _ stay (reads job conn refl e f)) (call_opens job conn f))
        (confirm_fails job p.next_channel),
  )
  asked-Creates job w p conn confirm_enabled e f = (
    _,
    go _ _ (go _ _ (go _ _ stay (reads job conn refl e f)) (call_opens job conn f))
        (confirms job p.next_channel),
  )

  -- A connection that is open is there.
  connection_open :
      (p : Publisher) (o : Option ℕ)
      → (elim o [ none ↦ true | some conn ↦ not (p.open_connection conn) ]) ≡ false
      → (conn : ℕ) × (o ≡ some conn) × (p.open_connection conn ≡ true)
  connection_open p none e = absurd cc
  connection_open p (some conn) e = (conn, refl, ground arith)

  create-Creates :
      (job : Job) (w : Rest) (p : Publisher) → Creates job w p (create_confirm_channel client p)
  create-Creates job w p = elim (Bool-cases (is_disconnected p)) [
    | inl e ↦
        subst (λ r. Creates job w p r) (sym (create_offline p e))
          (w, last _ _ stay (is_offline job refl e))
    | inr e ↦
        subst (λ r. Creates job w p r) (sym (create_asked p e))
          (let (conn, at, live) = connection_open p p.connection e in
            asked-Creates job w p conn (client.opening p) at live)
  ]

  abbrev Borrows : List Pc → Caller → Rest → Publisher → Result PooledChannel × Publisher → Type 0
  Borrows l caller w p r =
      (w' : Rest) × Course (shared_of w p) l (shared_of w' r.1)
        (elim r.0 [ err e ↦ [] | ok pch ↦ using caller pch ∷ [] ])

  -- `newChannelOrError`, from what `createConfirmChannel` gives.
  abbrev wrapped : Option ℕ × Publisher → Result PooledChannel × Publisher
  wrapped (none, q) = (err (text (bytes "rabbitmq: failed to create channel")), q)
  wrapped (some ch, q) = (ok (record { ch = ch; created_at = q.now }), q)

  new_channel_wrapped :
      (p : Publisher) (r : Option ℕ × Publisher)
      → create_confirm_channel client p ≡ r
      → new_channel_or_error client p ≡ wrapped r
  unfolding new_channel_or_error create_pooled_channel
  new_channel_wrapped p (none, q) e = ground (arith, e)
  new_channel_wrapped p (some ch, q) e = ground (arith, e)

  wrapped-Borrows :
      (caller : Caller) (w : Rest) (p : Publisher) (r : Option ℕ × Publisher)
      → Creates (borrowing caller) w p r
      → Borrows (opening (borrowing caller) ∷ []) caller w p (wrapped r)
  wrapped-Borrows caller w p (none, q) a = a
  wrapped-Borrows caller w p (some ch, q) a = a

  new_channel-Borrows :
      (caller : Caller) (w : Rest) (p : Publisher)
      → Borrows (opening (borrowing caller) ∷ []) caller w p (new_channel_or_error client p)
  new_channel-Borrows caller w p =
      subst (λ r. Borrows (opening (borrowing caller) ∷ []) caller w p r)
        (sym (new_channel_wrapped p _ refl))
        (wrapped-Borrows caller w p _ (create-Creates (borrowing caller) w p))

  -- After some moves that end at an opening.
  then_opens :
      {s : Shared} {l : List Pc} (caller : Caller) (w : Rest) (p : Publisher)
      → Course s l (shared_of w p) (opening (borrowing caller) ∷ [])
      → (w' : Rest) × Course s l
          (shared_of w' (new_channel_or_error client p).1)
          (elim (new_channel_or_error client p).0 [ err e ↦ [] | ok pch ↦ using caller pch ∷ [] ])
  then_opens caller w p a = let (w', b) = new_channel-Borrows caller w p in (w', join a b)

  borrow_from-Borrows :
      (caller : Caller) (w : Rest) (p : Publisher) (pool : List PooledChannel)
      → p.channel_pool ≡ some pool
      → Borrows (taking caller ∷ []) caller w p (borrow_from client pool p)
  unfolding borrow_from
  borrow_from-Borrows caller w p [] e =
      then_opens caller w p
        (go _ _ stay (finds_none caller (ap (λ o. elim o [ none ↦ [] | some l ↦ l ]) e)))
  borrow_from-Borrows caller w p (pch ∷ rest) e =
      let q : Publisher = record p { channel_pool = some rest } in
      elim (Bool-cases (is_stale q pch)) [
        | inl stale ↦ rw stale (
            then_opens caller w _
              (go _ _ (go _ _ stay (takes caller pch rest e)) (replaces caller pch stale)))
        | inr good ↦
            rw good (w, go _ _ (go _ _ stay (takes caller pch rest e)) (borrows caller pch good))
      ]

  -- `borrowChannel`.
  pub borrow_channel-Borrows :
      (caller : Caller) (w : Rest) (p : Publisher)
      → Borrows (entering caller ∷ []) caller w p (borrow_channel client p)
  borrow_channel-Borrows caller w p = elim (Bool-cases p.closed) [
    | inl shut ↦ rw (borrow_channel_closed client p shut) (w, go _ _ stay (refuses caller shut))
    | inr live ↦
        let entered : Course (shared_of w p) (entering caller ∷ []) (shared_of w p)
            (taking caller ∷ []) =
          go _ _ stay (enters caller live) in
        elim (Option-cases p.channel_pool) [
          | inl nil ↦ rw (borrow_channel_nil client p live nil) (
              then_opens caller w p (
                go _ _ entered
                  (finds_none caller (ap (λ o. elim o [ none ↦ [] | some l ↦ l ]) nil))))
          | inr (pool, e) ↦
              rw (borrow_channel_pool client p pool live e)
                (let (w', a) = borrow_from-Borrows caller w p pool e in (w', join entered a))
        ]
  ]

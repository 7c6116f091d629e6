-- ===== src/Publisher/Threads/Atomic.antt =====
-- pkg/rabbitmq/publisher.go: `PublishMessage` that runs alone, against the function that models it as one
-- step.
use rabbitmq_go.Base.{
  update, ℕ, ◌+◌, Bool, true, false, not, ◌&&◌, List, [], ◌∷◌, ◌++◌, ◌≡◌, refl, ap, sym, subst, ◌∙◌,
  arith, fun_ext, append_assoc, inl, inr, Bool-cases, ==_iff, ◌==◌, if◌then◌else◌,
}
use rabbitmq_go.Errors.{Result, ok, err}
use rabbitmq_go.Config.{Config}
use rabbitmq_go.Publisher.{PooledChannel, Sent, PublishMessage, Publisher, Client}
use rabbitmq_go.Publisher.Pool.{borrow_channel, return_pooled, forget, close_channel}
use rabbitmq_go.Publisher.Publish.{
  normalize_publish_message, sent_as, after_send, publish_on_channel, publish_mandatory,
  publish_optional, publish, publish_message, Injection,
}
use rabbitmq_go.Publisher.Publish.Channels.{
  publish_borrowed, publish_refused, publish_message_closed, publish_message_open, prepared,
}
use rabbitmq_go.Publisher.Threads.{Shared, publishing, Pc, entering, using}
use rabbitmq_go.Publisher.Threads.Moves.{refuses, published, listens, spoiled, discards}
use rabbitmq_go.Publisher.Threads.Runs.{
  System, Step, initial, Reach, next, moves, begins, publishes, loses_channel,
}
use rabbitmq_go.Publisher.Threads.Alone.Borrowed.{borrow_channel-Borrows}
use rabbitmq_go.Publisher.Threads.Alone.Returned.{return_pooled-Returns}
use rabbitmq_go.Publisher.Threads.Alone.{Rest, shared_of, Course, stay, go, loses, waits, join}

kept_at : (f : ℕ → Bool) (ch : ℕ) → f ch ≡ true → (j : ℕ) → update f ch true j ≡ f j
kept_at f ch e j = elim (Bool-cases (ch == j)) [
  | inl same ↦ ap (λ b. if b then true else f j) same ∙ sym (ap f (sym ((==_iff ch j).0 same)) ∙ e)
  | inr other ↦ ap (λ b. if b then true else f j) other
]

-- A test that is set to what it is.
kept : (f : ℕ → Bool) (ch : ℕ) → f ch ≡ true → update f ch true ≡ f
kept f ch e = fun_ext (kept_at f ch e)

module _ (client : Client) where
  -- While a publish is under way, time passes, and its channel may be closed.
  sending :
      {s : Shared} {l k : List Pc} (w : Rest) (p : Publisher) (x : Sent)
      → Course s l (shared_of w p) k
      → Course s l (shared_of w (after_send client x p)) k
  sending {s} {l} {k} w p x a =
      let stays = p.open_channel x.ch && not (client.closes p x) in
      let shared : (ℕ → Bool) → Shared =
        λ f. record (shared_of w p) { open_channel = f; now = p.now + client.elapsed p x } in
      elim (Bool-cases stays) [
        | inl on ↦
            let is_open : p.open_channel x.ch ≡ true = ground (arith, on) in
            subst (λ f. Course s l (shared f) k)
              (sym (ap (λ b. update p.open_channel x.ch b) on ∙ kept p.open_channel x.ch is_open))
              (waits (p.now + client.elapsed p x) a)
        | inr off ↦
            subst (λ b. Course s l (shared (update p.open_channel x.ch b)) k) (sym off)
              (waits (p.now + client.elapsed p x) (loses x.ch a))
      ]

  handed :
      (ch : ℕ) (msg : PublishMessage) (p : Publisher)
      → (publish_on_channel client ch msg p).1 ≡ after_send client (sent_as ch msg) p
  unfolding publish_on_channel
  handed ch msg p = ground arith

  optional_handed :
      (pch : PooledChannel) (msg : PublishMessage) (p : Publisher)
      → (publish_optional client pch msg p).1
        ≡ return_pooled pch (after_send client (sent_as pch.ch msg) p)
  unfolding publish_optional
  optional_handed pch msg p = ap (λ q. return_pooled pch q) (handed pch.ch msg p)

  mandatory_handed :
      (pch : PooledChannel) (msg : PublishMessage) (p : Publisher)
      → (publish_mandatory client pch msg p).1
        ≡ forget pch.ch (close_channel pch.ch (after_send client (sent_as pch.ch msg) p))
  unfolding publish_mandatory
  mandatory_handed pch msg p = ground (arith, handed pch.ch msg p)

  -- A publisher `q` that a call leaves, from the publisher `p`, with its thread at an end.
  abbrev Ends : List Pc → Rest → Publisher → Publisher → Type 0
  Ends l w p q = (w' : Rest) × Course (shared_of w p) l (shared_of w' q) []

  optional-Ends :
      (w : Rest) (pch : PooledChannel) (msg : PublishMessage) (p : Publisher)
      → Ends (using (publishing false) pch ∷ []) w p (publish_optional client pch msg p).1
  optional-Ends w pch msg p =
      subst (λ q. Ends (using (publishing false) pch ∷ []) w p q) (sym (optional_handed pch msg p))
        (
          w,
          join (go _ _ (sending w p (sent_as pch.ch msg) stay) (published pch))
              (return_pooled-Returns w (after_send client (sent_as pch.ch msg) p) pch),
        )

  mandatory-Ends :
      (w : Rest) (pch : PooledChannel) (msg : PublishMessage) (p : Publisher)
      → Ends (using (publishing true) pch ∷ []) w p (publish_mandatory client pch msg p).1
  mandatory-Ends w pch msg p =
      subst (λ q. Ends (using (publishing true) pch ∷ []) w p q) (sym (mandatory_handed pch msg p))
        (
          record w { listening = update w.listening pch.ch true },
          go _ _
              (go _ _
                (sending (record w { listening = update w.listening pch.ch true }) p
                  (sent_as pch.ch msg) (go _ _ stay (listens pch)))
                (spoiled pch))
              (discards pch.ch),
        )

  used-Ends :
      (w : Rest) (pch : PooledChannel) (msg : PublishMessage) (p : Publisher) (b : Bool)
      → Ends
          (using (publishing b) pch ∷ [])
          w
          p
          (if b then publish_mandatory client pch msg p else publish_optional client pch msg p).1
  used-Ends w pch msg p true = mandatory-Ends w pch msg p
  used-Ends w pch msg p false = optional-Ends w pch msg p

  borrowed-Ends :
      (w : Rest) (msg : PublishMessage) (p : Publisher) (r : Result PooledChannel × Publisher)
      → borrow_channel client p ≡ r
      → (w' : Rest) × Course
          (shared_of w p)
          (entering (publishing msg.mandatory) ∷ [])
          (shared_of w' r.1)
          (elim r.0 [ err e ↦ [] | ok pch ↦ using (publishing msg.mandatory) pch ∷ [] ])
      → Ends (entering (publishing msg.mandatory) ∷ []) w p (publish client msg p).1
  borrowed-Ends w msg p (err why, q) e (w', a) = rw (publish_refused client msg p q why e) (w', a)
  borrowed-Ends w msg p (ok pch, q) e (w', a) =
      rw (publish_borrowed client msg p q pch e)
        (let (w'', b) = used-Ends w' pch msg q msg.mandatory in (w'', join a b))

  publish-Ends :
      (w : Rest) (msg : PublishMessage) (p : Publisher)
      → Ends (entering (publishing msg.mandatory) ∷ []) w p (publish client msg p).1
  publish-Ends w msg p =
      borrowed-Ends w msg p _ refl (borrow_channel-Borrows client (publishing msg.mandatory) w p)

  -- The defaults and the hooks leave `Mandatory` as it is.
  same_mandatory :
      (inject : Injection) (msg : PublishMessage) (p : Publisher)
      → (prepared inject msg p).mandatory ≡ msg.mandatory
  unfolding normalize_publish_message
  same_mandatory inject msg p = elim (Bool-cases p.instr_is_nop) [
    | inl nop ↦ ground arith
    | inr real ↦ ground arith
  ]

  publish_message-Ends :
      (inject : Injection) (w : Rest) (msg : PublishMessage) (p : Publisher)
      → Ends (entering (publishing msg.mandatory) ∷ []) w p (publish_message client inject msg p).1
  publish_message-Ends inject w msg p = elim (Bool-cases p.closed) [
    | inl shut ↦
        rw (publish_message_closed client inject msg p shut)
          (w, go _ _ stay (refuses (publishing msg.mandatory) shut))
    | inr live ↦ rw (publish_message_open client inject msg p live) (
        subst
          (λ b.
            Ends (entering (publishing b) ∷ []) w p (publish client (prepared inject msg p) p).1)
          (same_mandatory inject msg p) (publish-Ends w (prepared inject msg p) p))
  ]

-- The moves of some threads among others.
embed :
    {y : System} {s : Shared} {l : List Pc} (after : List Pc) {t : Shared} {k : List Pc}
    → Reach y (record { shared = s; threads = l ++ after })
    → Course s l t k
    → Reach y (record { shared = t; threads = k ++ after })
embed after r stay = r
embed {y} after r (go {t} {pc} {k} u new a m) =
    subst (λ x. Reach y (record { shared = u; threads = x })) (sym (append_assoc new k after))
      (next (embed after r a) (moves [] (k ++ after) new pc u refl m))
embed after r (loses ch a) = next (embed after r a) (loses_channel ch)
embed after r (waits n a) = next (embed after r a) (Step.waits n)

-- What `PublishMessage` does as one step, it can do from one synchronisation to the next: if the threads
-- can come to the state of a publisher `p`, with `connMu` free, no old pool to drain, and other calls in
-- progress, then they can come to the state that the one step gives, with the same other calls in
-- progress. For every client, message and instrumentation.
pub publish_message_runs :
    (client : Client) (inject : Injection) (cfg : Config) (w : Rest) (p : Publisher)
    (msg : PublishMessage) (others : List Pc)
    → Reach (initial cfg) (record { shared = shared_of w p; threads = others })
    → (w' : Rest) × Reach
        (initial cfg)
        (record { shared = shared_of w' (publish_message client inject msg p).1; threads = others })
publish_message_runs client inject cfg w p msg others r =
    let (w', a) = publish_message-Ends client inject w msg p in
    (w', embed others (next r (begins _ (publishes msg.mandatory))) a)

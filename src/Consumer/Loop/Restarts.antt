-- ===== src/Consumer/Loop/Restarts.antt =====
-- pkg/rabbitmq/consumer.go: when `Consume` returns, and what it has settled by then.
use rabbitmq_go.Base.{
  ℤ, pos, leb_ℤ, Bool, true, false, not, ◌||◌, Option, none, some, List, [], ◌∷◌, ◌≡◌, refl, ap,
  sym, ◌∙◌, arith, inl, inr, Str, All, Bool-cases,
}
use rabbitmq_go.Errors.{GoError, text, is_canceled, in_chain}
use rabbitmq_go.Topology.{Calls, open_channel}
use rabbitmq_go.Consumer.{Trace, Environment, Consumer}
use rabbitmq_go.Consumer.Setup.Order.{session_plan, set_up-carry}
use rabbitmq_go.Consumer.Setup.Life.{Life, unconnected, refused, failed, served, in_session-Life}
use rabbitmq_go.Consumer.Loop.{
  Arrival, context_done, channel_closed, stream_closed, arrives, Turn, receive, consume_once, Run,
  running, returned, ending, Schedule, consume_concurrent, consume_once_concurrent, after_session,
  restarts, consume,
}
use rabbitmq_go.Consumer.Loop.Settled.{receive_settles}
use rabbitmq_go.Consumer.Setup.{max_ℤ}
use rabbitmq_go.Consumer.Setup.Plain.{IsPlainChannel, session_plan-All, carry-plain}

-- The client reports no error in whose chain `context.Canceled` is, in a turn.
abbrev pub IsPlainArrival : Arrival → Type 0
IsPlainArrival (channel_closed (some e)) = is_canceled e ≡ false
IsPlainArrival _ = Unit

pub record IsPlain (t : Turn) : Type 0 where
  pub channel : IsPlainChannel t.link.channel
  pub arrivals : All IsPlainArrival t.arrivals

-- Does the loop of a session see the end of the context? Does a turn?
abbrev pub ends_by_context : List Arrival → Bool
ends_by_context (context_done ∷ rest) = true
ends_by_context (arrives d ∷ rest) = ends_by_context rest
ends_by_context _ = false

abbrev pub sees_end : Turn → Bool
sees_end t = t.stopped || (ends_by_context t.arrivals || not t.woke)

abbrev pub any : (Turn → Bool) → List Turn → Bool
any p [] = false
any p (t ∷ turns) = p t || any p turns

text-plain : (s : Str) → is_canceled (text s) ≡ false
unfolding is_canceled in_chain
text-plain s = refl

clash :
    (x e : GoError)
    → ◌≡◌ {A = Option GoError} (some x) (some e)
    → is_canceled x ≡ false
    → is_canceled e ≡ true
    → ⊥
clash x e h f t = cc

-- Each session whose error is `context.Canceled` saw the end of the context.
abbrev pub SeesEnd : Run → Type 0
SeesEnd session =
    (t : Turn) (h h' : Trace) (e : GoError) (calls : Calls)
    → IsPlain t
    → session t h ≡ (some e, calls, h')
    → is_canceled e ≡ true
    → ends_by_context t.arrivals ≡ true

module _ (c : Consumer) (env : Environment) (quote : Str → Str) (queue_name routing_key : Str) where
  ending-plain :
      (arrivals : List Arrival) (e : GoError)
      → All IsPlainArrival arrivals
      → ending arrivals ≡ some e
      → is_canceled e ≡ true
      → ends_by_context arrivals ≡ true
  ending-plain [] e v h k = absurd cc
  ending-plain (context_done ∷ rest) e v h k = refl
  ending-plain (channel_closed none ∷ rest) e v h k = absurd (clash _ e h (text-plain _) k)
  ending-plain (channel_closed (some w) ∷ rest) e v h k = absurd (clash w e h v.0 k)
  ending-plain (stream_closed ∷ rest) e v h k = absurd (clash _ e h (text-plain _) k)
  ending-plain (arrives d ∷ rest) e v h k = ending-plain rest e v.1 h k

  Life-canceled :
      (prefetch : ℤ) (t : Turn) (loop : Trace → Option GoError × Trace) (s s' : Trace) (e : GoError)
      (calls : Calls)
      → IsPlain t
      → (loop s).0 ≡ ending t.arrivals
      → Life t.link quote c.cfg prefetch queue_name routing_key loop s e calls s'
      → is_canceled e ≡ true
      → ends_by_context t.arrivals ≡ true
  Life-canceled prefetch t loop s s' e calls v o (unconnected off same) k =
      absurd (clash _ e (ap (λ x. some x) (sym same)) (text-plain _) k)
  Life-canceled prefetch t loop s s' e calls v o (refused w) k =
      absurd (clash e e refl (v.channel [] open_channel e w) k)
  Life-canceled prefetch t loop s s' e calls v o (failed u w opens closes) k =
      let plan = session_plan quote c.cfg prefetch queue_name routing_key in
      let made =
        set_up-carry t.link.channel quote c.cfg queue_name routing_key prefetch
          (open_channel ∷ []) in
      absurd (
        clash e e refl
          (carry-plain t.link.channel plan (open_channel ∷ []) u e v.channel
            (session_plan-All quote c.cfg queue_name routing_key prefetch) (sym made ∙ w))
          k)
  Life-canceled prefetch t loop s s' e calls v o (served _ l) k =
      ending-plain t.arrivals e v.arrivals (sym o ∙ ap (λ r. r.0) l) k

  once-canceled : SeesEnd (consume_once c env quote queue_name routing_key)
  unfolding consume_once
  once-canceled t s s' e calls v r k =
      let prefetch = c.cfg.prefetch_count in
      let loop = receive c env queue_name routing_key t.arrivals in
      Life-canceled prefetch t loop s s' e calls v
        (receive_settles c env queue_name routing_key t.arrivals s).1
        (in_session-Life t.link quote c.cfg prefetch queue_name routing_key loop s e calls s' r) k

  concurrent-canceled :
      (workers : ℤ) (work : Turn → Trace → Trace)
      → SeesEnd (λ t. consume_once_concurrent c quote queue_name routing_key workers (work t) t)
  unfolding consume_once_concurrent
  concurrent-canceled workers work t s s' e calls v r k =
      let prefetch = max_ℤ c.cfg.prefetch_count workers in
      let loop : Trace → Option GoError × Trace = λ h. (ending t.arrivals, work t h) in
      Life-canceled prefetch t loop s s' e calls v refl
        (in_session-Life t.link quote c.cfg prefetch queue_name routing_key loop s e calls s' r) k

-- The steps of the restarts.
module _ (session : Run) (t : Turn) (turns : List Turn) (h h' : Trace) (calls : Calls) where
  restarts_stopped : t.stopped ≡ true → restarts session (t ∷ turns) h ≡ (returned none, h)
  unfolding restarts
  restarts_stopped s = ground arith

  restarts_running :
      t.stopped ≡ false
      → session t h ≡ (none, calls, h')
      → restarts session (t ∷ turns) h ≡ (running, h')
  unfolding restarts
  restarts_running s r = ground arith

  restarts_ended :
      (e : GoError)
      → t.stopped ≡ false
      → session t h ≡ (some e, calls, h')
      → restarts session (t ∷ turns) h ≡ after_session t e (restarts session turns) h'
  unfolding restarts
  restarts_ended e s r = ground arith

restarts_nothing : (session : Run) (h : Trace) → restarts session [] h ≡ (running, h)
unfolding restarts
restarts_nothing session h = refl

module _ (session : Run) (sees : SeesEnd session) where
  -- A return of nil, in one of the turns that sees the end of the context.
  abbrev EndsIn : List Turn → Option GoError → Type 0
  EndsIn turns r = (r ≡ none) × (any sees_end turns ≡ true)

  after-EndsIn :
      (t : Turn) (turns : List Turn) (h h' : Trace) (calls : Calls) (e : GoError)
      (r : Option GoError)
      → IsPlain t
      → session t h ≡ (some e, calls, h')
      → ((restarts session turns h').0 ≡ returned r → EndsIn turns r)
      → (after_session t e (restarts session turns) h').0 ≡ returned r
      → EndsIn (t ∷ turns) r
  after-EndsIn t turns h h' calls e r v p further q = elim (Bool-cases (is_canceled e)) [
    | inl at_end ↦ ground (arith, sees t h h' e calls v p at_end)
    | inr other ↦ elim (Bool-cases t.woke) [
      | inl on ↦ ground (arith, further (ground arith))
      | inr off ↦ ground arith
    ]
  ]

  session-EndsIn :
      (t : Turn) (turns : List Turn) (h : Trace) (r : Option GoError)
      (p : Option GoError × Calls × Trace)
      → IsPlain t
      → t.stopped ≡ false
      → session t h ≡ p
      → ((h' : Trace) → (restarts session turns h').0 ≡ returned r → EndsIn turns r)
      → (restarts session (t ∷ turns) h).0 ≡ returned r
      → EndsIn (t ∷ turns) r
  session-EndsIn t turns h r (none, calls, h') v go p further q =
      absurd (ground (arith, restarts_running session t turns h h' calls go p))
  session-EndsIn t turns h r (some e, calls, h') v go p further q =
      after-EndsIn t turns h h' calls e r v p (further h')
        (sym (ap (λ x. x.0) (restarts_ended session t turns h h' calls e go p)) ∙ q)

  restarts-EndsIn :
      (turns : List Turn) (h : Trace) (r : Option GoError)
      → All IsPlain turns
      → (restarts session turns h).0 ≡ returned r
      → EndsIn turns r
  restarts-EndsIn [] h r v q = absurd (ground (arith, restarts_nothing session h))
  restarts-EndsIn (t ∷ turns) h r v q = elim (Bool-cases t.stopped) [
    | inl over ↦ ground (arith, restarts_stopped session t turns h h [] over)
    | inr go ↦ session-EndsIn t turns h r _ v.0 go refl (λ h'. restarts-EndsIn turns h' r v.1) q
  ]

consume_returns :
    (c : Consumer) (env : Environment) (quote : Str → Str) (queue_name routing_key : Str)
    (turns : List Turn) (h : Trace) (r : Option GoError)
    → All IsPlain turns
    → (consume c quote queue_name routing_key (some env) turns h).0 ≡ returned r
    → (r ≡ none) × (any sees_end turns ≡ true)
unfolding consume
consume_returns c env quote queue_name routing_key turns h r v q =
    restarts-EndsIn (consume_once c env quote queue_name routing_key)
      (once-canceled c env quote queue_name routing_key) turns h r v q

-- If the client reports no error that is `context.Canceled`, `ConsumeConcurrent` with a handler, for any
-- number of workers and however they interleave, returns only nil, and only if in one of its turns the
-- context ends: before the session, in its loop, or in the sleep after it. With at most one worker the
-- call is `Consume`, so this holds for `Consume` too.
pub consume_concurrent_returns :
    (c : Consumer) (env : Environment) (quote : Str → Str) (queue_name routing_key : Str)
    (workers : ℤ) (schedule : Schedule) (turns : List Turn) (h : Trace) (r : Option GoError)
    → All IsPlain turns
    → (consume_concurrent c quote queue_name routing_key workers schedule (some env) turns h).0
      ≡ returned r
    → (r ≡ none) × (any sees_end turns ≡ true)
unfolding consume_concurrent
consume_concurrent_returns c env quote queue_name routing_key workers schedule turns h r v q =
    elim (Bool-cases (leb_ℤ workers (pos 1))) [
      | inl few ↦ consume_returns c env quote queue_name routing_key turns h r v (ground arith)
      | inr many ↦
          restarts-EndsIn _
            (concurrent-canceled c env quote queue_name routing_key workers (schedule workers env))
            turns h r v (ground arith)
    ]

-- ===== src/Consumer/Setup/Plain.antt =====
-- pkg/rabbitmq/consumer.go and topology.go: the errors of a set-up keep what the client reports.
use rabbitmq_go.Base.{
  ℤ, Bool, true, false, none, some, List, [], ◌∷◌, ◌++◌, ◌≡◌, refl, ◌∙◌, arith, inl, inr, Str,
  bytes, All, Option-cases, if◌then◌else◌,
}
use rabbitmq_go.Errors.{GoError, is_canceled, in_chain, err}
use rabbitmq_go.Amqp.{Table}
use rabbitmq_go.Config.{Config}
use rabbitmq_go.Topology.{
  Call, Calls, confirm, dead_letter_args, Channel, doing, wrap_queue_declare_err, queue_declare_err,
}
use rabbitmq_go.Topology.Order.{Planned, plan, queue_plan, dead_letter_plan, carry}
use rabbitmq_go.Consumer.Setup.Order.{session_plan, confirm_plan}

-- The client reports no error in whose chain `context.Canceled` is.
abbrev pub IsPlainChannel : Channel → Type 0
IsPlainChannel channel =
    (h : Calls) (c : Call) (e : GoError) → channel h c ≡ some e → is_canceled e ≡ false

-- A wrapper of errors adds no `context.Canceled` and hides none.
abbrev pub IsWrapper : Planned → Type 0
IsWrapper (c, wrapped) = (e : GoError) → is_canceled (wrapped e) ≡ is_canceled e

doing-IsWrapper : (what : Str) (e : GoError) → is_canceled (doing what e) ≡ is_canceled e
unfolding is_canceled in_chain
doing-IsWrapper what e = refl

declare_err-is_canceled :
    (quote : Str → Str) (queue_name : Str) (e : GoError) (b : Bool)
    → is_canceled (queue_declare_err quote queue_name e b) ≡ is_canceled e
unfolding is_canceled in_chain
declare_err-is_canceled quote queue_name e true = refl
declare_err-is_canceled quote queue_name e false = refl

declare-IsWrapper :
    (quote : Str → Str) (queue_name : Str) (e : GoError)
    → is_canceled (wrap_queue_declare_err quote queue_name e) ≡ is_canceled e
unfolding wrap_queue_declare_err
declare-IsWrapper quote queue_name e = declare_err-is_canceled quote queue_name e _

All-append : (ps qs : List Planned) → All IsWrapper ps → All IsWrapper qs → All IsWrapper (ps ++ qs)
All-append [] qs v w = w
All-append (p ∷ ps) qs v w = (v.0, All-append ps qs v.1 w)

module _ (quote : Str → Str) (cfg : Config) (queue_name routing_key : Str) where
  queue_plan-All : (args : Table) → All IsWrapper (queue_plan quote cfg queue_name routing_key args)
  queue_plan-All args =
      (declare-IsWrapper quote queue_name, (doing-IsWrapper (bytes "bind queue"), tt))

  plan-All :
      (b : Bool)
      → All IsWrapper (
          if b
          then queue_plan quote cfg queue_name routing_key none
          else dead_letter_plan cfg queue_name routing_key
            ++ queue_plan quote cfg queue_name routing_key (dead_letter_args cfg routing_key))
  plan-All true = queue_plan-All none
  plan-All false = (
    doing-IsWrapper (bytes "declare dead-letter exchange"),
    (
      doing-IsWrapper (bytes "declare dead-letter queue"),
      (
        doing-IsWrapper (bytes "bind dead-letter queue"),
        queue_plan-All (dead_letter_args cfg routing_key),
      ),
    ),
  )

  confirms-All :
      (b : Bool)
      → All IsWrapper (
          if b
          then (confirm false, doing (bytes "enable confirms for retry publisher")) ∷ []
          else [])
  confirms-All true = (doing-IsWrapper (bytes "enable confirms for retry publisher"), tt)
  confirms-All false = tt

  pub session_plan-All :
      (prefetch : ℤ) → All IsWrapper (session_plan quote cfg prefetch queue_name routing_key)
  session_plan-All prefetch = (
    (λ e. refl),
    All-append (confirm_plan cfg) _ (confirms-All _)
        (All-append (plan quote cfg queue_name routing_key) _ (plan-All _) ((λ e. refl), tt)),
  )

pub carry-plain :
    (channel : Channel) (ps : List Planned) (h u : Calls) (e : GoError)
    → IsPlainChannel channel
    → All IsWrapper ps
    → carry channel ps h ≡ (err e, u)
    → is_canceled e ≡ false
unfolding carry
carry-plain channel [] h u e plain w r = absurd (ground (arith, r))
carry-plain channel ((c, wrapped) ∷ ps) h u e plain w r = elim (Option-cases (channel h c)) [
  | inl fine ↦ carry-plain channel ps (c ∷ h) u e plain w.1 (ground (arith, r))
  | inr (why, refusal) ↦
      let same : wrapped why ≡ e = ground (arith, r) in
      rw (← same) (w.0 why ∙ plain h c why refusal)
]

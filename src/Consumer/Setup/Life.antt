-- ===== src/Consumer/Setup/Life.antt =====
-- pkg/rabbitmq/consumer.go: the life of a session's channel.
use rabbitmq_go.Base.{
  ℕ, ◌+◌, ℤ, Bool, true, false, Option, none, some, List, [], ◌∷◌, ◌≡◌, refl, ap, sym, subst, ◌∙◌,
  arith, inl, inr, Str, bytes, tally, Bool-cases, Option-cases, if◌then◌else◌,
}
use rabbitmq_go.Errors.{GoError, text, Result, ok, err}
use rabbitmq_go.Config.{Config}
use rabbitmq_go.Topology.{Call, open_channel, close_channel, Calls, Channel}
use rabbitmq_go.Topology.Order.{Planned, carry, calls_of}
use rabbitmq_go.Consumer.Setup.{set_up, Link, on_channel, in_session}
use rabbitmq_go.Consumer.Setup.Order.{session_plan, set_up-carry, carry_complete}

abbrev pub is_opening : Call → Bool
is_opening open_channel = true
is_opening _ = false

abbrev pub is_closing : Call → Bool
is_closing close_channel = true
is_closing _ = false

-- How many calls of a kind a plan has.
abbrev pub planned : (Call → Bool) → List Planned → ℕ
planned p [] = 0
planned p ((c, wrapped) ∷ ps) = (if p c then 1 else 0) + planned p ps

-- A plan with no call of a kind makes none.
pub tally-carry :
    (p : Call → Bool) (channel : Channel) (ps : List Planned) (h : Calls)
    → planned p ps ≡ 0
    → tally p (carry channel ps h).1 ≡ tally p h
unfolding carry
tally-carry p channel [] h e = refl
tally-carry p channel ((c, wrapped) ∷ ps) h e = ground (arith, tally-carry p channel ps (c ∷ h))

module _ {S : Type 0} (link : Link) (quote : Str → Str) (cfg : Config) (prefetch : ℤ)
    (queue_name routing_key : Str) (loop : S → Option GoError × S) where
  abbrev steps : List Planned
  steps = session_plan quote cfg prefetch queue_name routing_key

  -- How a session came to its error, with the calls on its channel, the latest first.
  pub data Life (s : S) (e : GoError) : Calls → S → Type 0 where
    unconnected :
        link.connected ≡ false
        → e ≡ text (bytes "rabbitmq: connection not available")
        → Life s e [] s
    refused : link.channel [] open_channel ≡ some e → Life s e (open_channel ∷ []) s
    failed :
        (u : Calls)
        → set_up link.channel quote cfg prefetch queue_name routing_key (open_channel ∷ [])
          ≡ (err e, u)
        → tally is_opening u ≡ 1
        → tally is_closing u ≡ 0
        → Life s e (close_channel ∷ u) s
    served :
        (s' : S)
        → loop s ≡ (some e, s')
        → Life s e (close_channel ∷ calls_of steps (open_channel ∷ [])) s'

  none_planned : (planned is_opening steps ≡ 0) × (planned is_closing steps ≡ 0)
  none_planned = ground arith

  tally-set_up :
      (p : Call → Bool)
      → planned p steps ≡ 0
      → tally p
          (set_up link.channel quote cfg prefetch queue_name routing_key (open_channel ∷ [])).1
        ≡ tally p (open_channel ∷ [])
  tally-set_up p e =
      ap (λ r. tally p r.1)
        (set_up-carry link.channel quote cfg queue_name routing_key prefetch (open_channel ∷ []))
      ∙ tally-carry p link.channel steps (open_channel ∷ []) e

  on_channel_failed :
      (s : S) (e : GoError) (u : Calls)
      → set_up link.channel quote cfg prefetch queue_name routing_key (open_channel ∷ [])
        ≡ (err e, u)
      → on_channel link quote cfg prefetch queue_name routing_key loop s
        ≡ (some e, close_channel ∷ u, s)
  unfolding on_channel
  on_channel_failed s e u h = ground arith

  on_channel_served :
      (s s' : S) (e : GoError) (u : Calls)
      → set_up link.channel quote cfg prefetch queue_name routing_key (open_channel ∷ [])
        ≡ (ok tt, u)
      → loop s ≡ (some e, s')
      → on_channel link quote cfg prefetch queue_name routing_key loop s
        ≡ (some e, close_channel ∷ u, s')
  unfolding on_channel
  on_channel_served s s' e u h l = ground arith

  on_channel_running :
      (s s' : S) (u : Calls)
      → set_up link.channel quote cfg prefetch queue_name routing_key (open_channel ∷ [])
        ≡ (ok tt, u)
      → loop s ≡ (none, s')
      → on_channel link quote cfg prefetch queue_name routing_key loop s ≡ (none, u, s')
  unfolding on_channel
  on_channel_running s s' u h l = ground arith

  moved-Life :
      (s : S) (w e : GoError) (u calls : Calls) (t s' : S)
      → Life s w u t
      → ◌≡◌ {A = Option GoError × Calls × S} (some w, u, t) (some e, calls, s')
      → Life s e calls s'
  moved-Life s w e u calls t s' v q =
      let same : w ≡ e = cc in
      subst (λ x. Life s x calls s') same
        (subst (λ x. Life s w x s') (ap (λ r. r.1) q)
          (subst (λ x. Life s w u x) (ap (λ r. r.2) q) v))

  served-Life :
      (s : S) (e : GoError) (u calls : Calls) (s' : S) (q : Option GoError × S)
      → set_up link.channel quote cfg prefetch queue_name routing_key (open_channel ∷ [])
        ≡ (ok tt, u)
      → loop s ≡ q
      → on_channel link quote cfg prefetch queue_name routing_key loop s ≡ (some e, calls, s')
      → Life s e calls s'
  served-Life s e u calls s' (none, t) h l r = absurd (ground (arith, on_channel_running s t u h l))
  served-Life s e u calls s' (some w, t) h l r =
      moved-Life s w e _ calls t s'
        (subst (λ x. Life s w (close_channel ∷ x) t)
          (sym (
            carry_complete link.channel steps (open_channel ∷ []) u (
              sym (
                set_up-carry link.channel quote cfg queue_name routing_key prefetch
                  (open_channel ∷ []))
              ∙ h)))
          (served t l))
        (sym (on_channel_served s t w u h l) ∙ r)

  on_channel-Life :
      (s : S) (e : GoError) (calls : Calls) (s' : S) (q : Result (Unit {0}) × Calls)
      → set_up link.channel quote cfg prefetch queue_name routing_key (open_channel ∷ []) ≡ q
      → on_channel link quote cfg prefetch queue_name routing_key loop s ≡ (some e, calls, s')
      → Life s e calls s'
  on_channel-Life s e calls s' (ok a, u) h r = served-Life s e u calls s' _ h refl r
  on_channel-Life s e calls s' (err w, u) h r =
      moved-Life s w e _ calls s s'
        (failed u h
          (sym (ap (λ q. tally is_opening q.1) h) ∙ (tally-set_up is_opening none_planned.0 ∙ refl))
          (sym (ap (λ q. tally is_closing q.1) h)
            ∙ (tally-set_up is_closing none_planned.1 ∙ refl)))
        (sym (on_channel_failed s w u h) ∙ r)

  in_session_unconnected :
      (s : S)
      → link.connected ≡ false
      → in_session link quote cfg prefetch queue_name routing_key loop s
        ≡ (some (text (bytes "rabbitmq: connection not available")), [], s)
  unfolding in_session
  in_session_unconnected s h = ground arith

  in_session_refused :
      (s : S) (e : GoError)
      → link.connected ≡ true
      → link.channel [] open_channel ≡ some e
      → in_session link quote cfg prefetch queue_name routing_key loop s
        ≡ (some e, open_channel ∷ [], s)
  unfolding in_session
  in_session_refused s e h k = ground arith

  in_session_open :
      (s : S)
      → link.connected ≡ true
      → link.channel [] open_channel ≡ none
      → in_session link quote cfg prefetch queue_name routing_key loop s
        ≡ on_channel link quote cfg prefetch queue_name routing_key loop s
  unfolding in_session
  in_session_open s h k = ground arith

  -- A session that ends with an error: there was no live connection; or no channel could be opened; or
  -- the set-up failed, then the channel was opened once and closed last, and no delivery was handled;
  -- or its loop ended, then before it all calls of the plan were made, in order, with the confirm mode
  -- before the deliveries if `MaxRetries` is above 0, and the channel was closed last.
  pub in_session-Life :
      (s : S) (e : GoError) (calls : Calls) (s' : S)
      → in_session link quote cfg prefetch queue_name routing_key loop s ≡ (some e, calls, s')
      → Life s e calls s'
  in_session-Life s e calls s' r = elim (Bool-cases link.connected) [
    | inr off ↦
        moved-Life s _ e [] calls s s' (unconnected off refl)
          (sym (in_session_unconnected s off) ∙ r)
    | inl on ↦ elim (Option-cases (link.channel [] open_channel)) [
      | inl can ↦ on_channel-Life s e calls s' _ refl (sym (in_session_open s on can) ∙ r)
      | inr (w, no_channel) ↦
          moved-Life s w e _ calls s s' (refused no_channel)
            (sym (in_session_refused s w on no_channel) ∙ r)
    ]
  ]

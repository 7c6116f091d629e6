-- ===== src/Publisher/Threads/Alone/Returned.antt =====
-- pkg/rabbitmq/pool.go: `returnPooled` that runs alone, against the function that models it as one step.
use rabbitmq_go.Base.{
  ltb, true, false, not, ◌||◌, none, some, List, [], ◌∷◌, ◌++◌, ◌≡◌, sym, subst, arith, inl, inr,
  length, Bool-cases, Option-cases,
}
use rabbitmq_go.Publisher.{PooledChannel, Publisher}
use rabbitmq_go.Publisher.Pool.{forget, close_channel, return_pooled, capacity}
use rabbitmq_go.Publisher.Threads.{returning, storing}
use rabbitmq_go.Publisher.Threads.Moves.{rejects, passes, stores, no_pool, overflows, discards}
use rabbitmq_go.Publisher.Threads.Alone.{Rest, shared_of, Course, stay, go}

module _ (p : Publisher) (pch : PooledChannel) where
  abbrev discarded : Publisher
  discarded = forget pch.ch (close_channel pch.ch p)

  return_bad : (not (p.open_channel pch.ch) || p.closed) ≡ true → return_pooled pch p ≡ discarded
  unfolding return_pooled
  return_bad e = ground arith

  module _ (good : (not (p.open_channel pch.ch) || p.closed) ≡ false) where
    return_nil : p.channel_pool ≡ none → return_pooled pch p ≡ discarded
    unfolding return_pooled
    return_nil nil = ground arith

    return_fits :
        (l : List PooledChannel)
        → p.channel_pool ≡ some l
        → ltb (length l) (capacity p) ≡ true
        → return_pooled pch p ≡ record p { channel_pool = some (l ++ pch ∷ []) }
    unfolding return_pooled
    return_fits l e fits = ground arith

    return_full :
        (l : List PooledChannel)
        → p.channel_pool ≡ some l
        → ltb (length l) (capacity p) ≡ false
        → return_pooled pch p ≡ discarded
    unfolding return_pooled
    return_full l e full = ground arith

module _ (w : Rest) (p : Publisher) (pch : PooledChannel) where
  abbrev Returns : Publisher → Type 0
  Returns q = Course (shared_of w p) (returning pch ∷ []) (shared_of w q) []

  store-Returns :
      (not (p.open_channel pch.ch) || p.closed) ≡ false
      → Course (shared_of w p) (returning pch ∷ []) (shared_of w p) (storing pch ∷ [])
      → Returns (return_pooled pch p)
  store-Returns good passed = elim (Option-cases p.channel_pool) [
    | inl nil ↦
        subst (λ q. Returns q) (sym (return_nil p pch good nil))
          (go _ _ (go _ _ passed (no_pool pch nil)) (discards pch.ch))
    | inr (l, e) ↦ elim (Bool-cases (ltb (length l) (capacity p))) [
      | inl fits ↦
          subst (λ q. Returns q) (sym (return_fits p pch good l e fits))
            (go _ _ passed (stores pch l e (ground (arith, fits))))
      | inr full ↦
          subst (λ q. Returns q) (sym (return_full p pch good l e full))
            (go _ _ (go _ _ passed (overflows pch l e (ground (arith, full)))) (discards pch.ch))
    ]
  ]

  -- `returnPooled`.
  pub return_pooled-Returns : Returns (return_pooled pch p)
  return_pooled-Returns = elim (Bool-cases (not (p.open_channel pch.ch) || p.closed)) [
    | inl bad ↦
        subst (λ q. Returns q) (sym (return_bad p pch bad))
          (go _ _ (go _ _ stay (rejects pch bad)) (discards pch.ch))
    | inr good ↦ store-Returns good (go _ _ stay (passes pch good))
  ]

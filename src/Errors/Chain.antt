-- ===== src/Errors/Chain.antt =====
-- pkg/rabbitmq/errors.go: `errors.As` and `errors.Is` against the relation "wraps".
use rabbitmq_go.Base.{Bool, true, List, [], ◌∷◌, ◌≡◌, refl, ◌⊎◌, inl, inr, ◌↔◌, arith, Bool-cases}
use rabbitmq_go.Errors.{GoError, wrap, join, non_retryable, unwrap, in_chain}

-- `d` is among the errors of a list.
abbrev pub Among : GoError → List GoError → Type 0
Among d [] = ⊥
Among d (e ∷ es) = (d ≡ e) ⊎ Among d es

-- `Unwrap`, called again and again, leads from the first error to the second.
pub data Wraps (d : GoError) : GoError → Type 0 where
  itself : Wraps d d
  inside : {c e : GoError} → Among c (unwrap e) → Wraps d c → Wraps d e

-- An error with a property, somewhere in the tree.
abbrev pub Contains : (GoError → Bool) → GoError → Type 0
Contains p e = (d : GoError) × Wraps d e × (p d ≡ true)

found_below :
    (p : GoError → Bool) {e : GoError} (c : GoError)
    → Among c (unwrap e)
    → Contains p c
    → Contains p e
found_below p c m (d, w, h) = (d, inside m w, h)

in_chain-Contains : (p : GoError → Bool) (e : GoError) → in_chain p e ≡ true → Contains p e
unfolding in_chain unwrap
in_chain-Contains p (wrap b e a) h = elim (Bool-cases (p (wrap b e a))) [
  | inl t ↦ (wrap b e a, itself, t)
  | inr f ↦ found_below p e (inl refl) (in_chain-Contains p e (rw f at h))
]
in_chain-Contains p (join a b) h = elim (Bool-cases (p (join a b))) [
  | inl t ↦ (join a b, itself, t)
  | inr f ↦ elim (Bool-cases (in_chain p a)) [
    | inl u ↦ found_below p a (inl refl) (in_chain-Contains p a u)
    | inr g ↦ found_below p b (inr (inl refl)) (in_chain-Contains p b (ground arith))
  ]
]
in_chain-Contains p (non_retryable e) h = elim (Bool-cases (p (non_retryable e))) [
  | inl t ↦ (non_retryable e, itself, t)
  | inr f ↦ found_below p e (inl refl) (in_chain-Contains p e (rw f at h))
]
in_chain-Contains p e h = (e, itself, h)

in_chain_self : (p : GoError → Bool) (e : GoError) → p e ≡ true → in_chain p e ≡ true
unfolding in_chain
in_chain_self p (join a b) h = rw h
in_chain_self p (wrap b e a) h = rw h
in_chain_self p (non_retryable e) h = rw h
in_chain_self p _ h = h

in_chain_below :
    (p : GoError → Bool) (c e : GoError)
    → Among c (unwrap e)
    → in_chain p c ≡ true
    → in_chain p e ≡ true
unfolding in_chain unwrap
in_chain_below p c (wrap b e a) m h = ground arith
in_chain_below p c (join a b) m h = ground arith
in_chain_below p c (non_retryable e) m h = ground arith
in_chain_below p c _ m h = ground arith

Contains-in_chain :
    (p : GoError → Bool) (d e : GoError) → Wraps d e → p d ≡ true → in_chain p e ≡ true
Contains-in_chain p d e itself h = in_chain_self p d h
Contains-in_chain p d e (inside {c} m w) h = in_chain_below p c e m (Contains-in_chain p d c w h)

-- The walk of `errors.As` and `errors.Is` finds an error with a property exactly when some chain of
-- `Unwrap` steps from the given error leads to one.
in_chain_iff : (p : GoError → Bool) (e : GoError) → (in_chain p e ≡ true) ↔ Contains p e
in_chain_iff p e = (in_chain-Contains p e, λ (d, w, h). Contains-in_chain p d e w h)

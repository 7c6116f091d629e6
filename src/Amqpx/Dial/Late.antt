-- ===== src/Amqpx/Dial/Late.antt =====
-- internal/amqpx/connection.go: what `Dial` returns, and what becomes of a connection that is made
-- after the timeout.
use rabbitmq_go.Base.{
  ℕ, Bool, true, false, Option, none, some, ◌≡◌, refl, ap, ◌∙◌, arith, ◌⊎◌, inl, inr,
}
use rabbitmq_go.Errors.{ok, err}
use rabbitmq_go.Amqpx.Dial.{
  Dialed, Dialer, dialing, offering, finished, Race, started, offer, timed_out, Step, dials,
  dial_fails, offers, receives, times_out, Reach, here, next,
}

abbrev pub is_ok : Dialed → Bool
is_ok (ok conn) = true
is_ok (err e) = false

-- Nothing was received: `Dial` waits, or it has returned the timeout.
abbrev pub Unreceived : Race → Type 0
Unreceived s = (s.returned ≡ none) ⊎ (s.returned ≡ some timed_out)

-- How far the result of `amqp.DialConfig` has come.
pub data Phase (s : Race) : Type 0 where
  awaited :
      s.dialer ≡ dialing
      → s.buffer ≡ none
      → s.given ≡ none
      → s.is_open ≡ false
      → Unreceived s
      → Phase s
  held :
      (r : Dialed)
      → s.dialer ≡ offering r
      → s.buffer ≡ none
      → s.given ≡ some r
      → s.is_open ≡ is_ok r
      → Unreceived s
      → Phase s
  buffered :
      (r : Dialed)
      → s.dialer ≡ finished
      → s.buffer ≡ some r
      → s.given ≡ some r
      → s.is_open ≡ is_ok r
      → Unreceived s
      → Phase s
  received :
      (r : Dialed)
      → s.dialer ≡ finished
      → s.buffer ≡ none
      → s.given ≡ some r
      → s.is_open ≡ is_ok r
      → s.returned ≡ some r
      → Phase s

offer_room :
    (r : Dialed) (s : Race)
    → s.buffer ≡ none
    → offer r s ≡ record s { dialer = finished; buffer = some r }
unfolding offer
offer_room r s e = ground arith

same_offer : {x : Dialer} {q r : Dialed} → x ≡ offering q → x ≡ offering r → q ≡ r
same_offer d e = cc

same_result : {x : Option Dialed} {q r : Dialed} → x ≡ some q → x ≡ some r → q ≡ r
same_result d e = cc

Step-Phase : {s t : Race} → Phase s → Step s t → Phase t
Step-Phase (awaited d b g o u) (dials conn e) = held (ok conn) refl b refl refl u
Step-Phase (awaited d b g o u) (dial_fails why e) = held (err why) refl b refl o u
Step-Phase (awaited d b g o u) (offers r e) = absurd cc
Step-Phase (awaited d b g o u) (receives r e f) = absurd cc
Step-Phase (awaited d b g o u) (times_out e) = awaited d b g o (inr refl)
Step-Phase (held q d b g o u) (dials conn e) = absurd cc
Step-Phase (held q d b g o u) (dial_fails why e) = absurd cc
Step-Phase {s} (held q d b g o u) (offers r e) =
    rw (offer_room r s b) (
      buffered r refl refl (g ∙ ap (λ x. some x) (same_offer d e)) (o ∙ ap is_ok (same_offer d e))
        u)
Step-Phase (held q d b g o u) (receives r e f) = absurd cc
Step-Phase (held q d b g o u) (times_out e) = held q d b g o (inr refl)
Step-Phase (buffered q d b g o u) (dials conn e) = absurd cc
Step-Phase (buffered q d b g o u) (dial_fails why e) = absurd cc
Step-Phase (buffered q d b g o u) (offers r e) = absurd cc
Step-Phase (buffered q d b g o u) (receives r e f) =
    let same = same_result b f in
    received r d refl (g ∙ ap (λ x. some x) same) (o ∙ ap is_ok same) refl
Step-Phase (buffered q d b g o u) (times_out e) = buffered q d b g o (inr refl)
Step-Phase (received q d b g o u) (dials conn e) = absurd cc
Step-Phase (received q d b g o u) (dial_fails why e) = absurd cc
Step-Phase (received q d b g o u) (offers r e) = absurd cc
Step-Phase (received q d b g o u) (receives r e f) = absurd cc
Step-Phase (received q d b g o u) (times_out e) = absurd cc

Reach-Phase : {s t : Race} → Phase s → Reach s t → Phase t
Reach-Phase v here = v
Reach-Phase v (next r st) = Step-Phase (Reach-Phase v r) st

started-Phase : Phase started
started-Phase = awaited refl refl refl refl (inl refl)

returned_ok :
    {s : Race} (conn : ℕ)
    → Phase s
    → s.returned ≡ some (ok conn)
    → (s.given ≡ some (ok conn)) × (s.is_open ≡ true)
returned_ok conn (awaited d b g o u) e = absurd (ground arith)
returned_ok conn (held q d b g o u) e = absurd (ground arith)
returned_ok conn (buffered q d b g o u) e = absurd (ground arith)
returned_ok conn (received q d b g o u) e =
    let same = same_result u e in (g ∙ ap (λ x. some x) same, o ∙ ap is_ok same)

open_of_given : {s : Race} (conn : ℕ) → Phase s → s.given ≡ some (ok conn) → s.is_open ≡ true
open_of_given conn (awaited d b g o u) e = absurd cc
open_of_given conn (held q d b g o u) e = o ∙ ap is_ok (same_result g e)
open_of_given conn (buffered q d b g o u) e = o ∙ ap is_ok (same_result g e)
open_of_given conn (received q d b g o u) e = o ∙ ap is_ok (same_result g e)

-- In every interleaving of the two threads: if `Dial` has returned a connection, it is the one that
-- `amqp.DialConfig` gave, and it is open.
pub dial_sound :
    (s : Race) (conn : ℕ)
    → Reach started s
    → s.returned ≡ some (ok conn)
    → (s.given ≡ some (ok conn)) × (s.is_open ≡ true)
dial_sound s conn r e = returned_ok conn (Reach-Phase started-Phase r) e

not_dialing : {s : Race} (r : Dialed) → Phase s → s.given ≡ some r → s.dialer ≡ dialing → ⊥
not_dialing r (awaited d b g o u) e f = cc
not_dialing r (held q d b g o u) e f = cc
not_dialing r (buffered q d b g o u) e f = cc
not_dialing r (received q d b g o u) e f = cc

-- `Dial` has returned the timeout, and there is a connection.
abbrev pub IsLate : ℕ → Race → Type 0
IsLate conn s = Phase s × (s.returned ≡ some timed_out) × (s.given ≡ some (ok conn))

offer_same :
    (r : Dialed) (s : Race) → ((offer r s).returned ≡ s.returned) × ((offer r s).given ≡ s.given)
unfolding offer
offer_same r s = ground arith

Step-IsLate : {s t : Race} (conn : ℕ) → IsLate conn s → Step s t → IsLate conn t
Step-IsLate conn (v, out, g) (dials c e) = absurd (not_dialing _ v g e)
Step-IsLate conn (v, out, g) (dial_fails why e) = absurd (not_dialing _ v g e)
Step-IsLate {s} conn (v, out, g) (offers r e) =
    (Step-Phase v (offers r e), (offer_same r s).0 ∙ out, (offer_same r s).1 ∙ g)
Step-IsLate conn (v, out, g) (receives r e f) = absurd cc
Step-IsLate conn (v, out, g) (times_out e) = absurd cc

Reach-IsLate : {s t : Race} (conn : ℕ) → IsLate conn s → Reach s t → IsLate conn t
Reach-IsLate conn v here = v
Reach-IsLate conn v (next r st) = Step-IsLate conn (Reach-IsLate conn v r) st

-- In every interleaving: if `Dial` has returned the timeout and `amqp.DialConfig` has given a
-- connection, then in every later state too the connection is open and `Dial` has returned the
-- timeout: nobody has the connection, and the branch of the `select` that closes it is never taken,
-- since the buffer has room.
pub late_connection_stays_open :
    (s t : Race) (conn : ℕ)
    → Reach started s
    → s.returned ≡ some timed_out
    → s.given ≡ some (ok conn)
    → Reach s t
    → (t.is_open ≡ true) × (t.returned ≡ some timed_out)
late_connection_stays_open s t conn r e g later =
    let (v, out, given) = Reach-IsLate conn (Reach-Phase started-Phase r, e, g) later in
    (open_of_given conn v given, out)

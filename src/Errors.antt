-- ===== src/Errors.antt =====
-- pkg/rabbitmq/errors.go: `NonRetryableError`, and the part of Go's `errors` package that the
-- library calls. An error is a tree: `fmt.Errorf` with %w has one child, `errors.Join` has several
-- (two here, nested for more).
pub mod Chain
use rabbitmq_go.Base.{ℕ, ℤ, Bool, true, false, ◌||◌, List, [], ◌∷◌, ◌++◌, Str, bytes}

pub data GoError : Type 0 where
  -- `fmt.Errorf("text%d", n)`
  number : Str → ℤ → GoError
  -- `errors.New`, `fmt.Errorf` with no %w, and errors of other packages that wrap nothing
  text : Str → GoError
  -- `fmt.Errorf("before%wafter", err)`
  wrap : Str → GoError → Str → GoError
  join : GoError → GoError → GoError
  -- `&NonRetryableError{Err: err}`, `&NonRetryableError{}` and `(*NonRetryableError)(nil)`
  non_retryable : GoError → GoError
  non_retryable_empty : GoError
  non_retryable_nil : GoError
  -- an error with methods `As` and `Is` of its own: its text, and whether they accept
  -- `*NonRetryableError`, `context.Canceled` and `context.DeadlineExceeded`; one that wraps another
  -- error as well is walked as `join` of the two
  custom : Str → Bool → Bool → Bool → GoError
  -- `context.Canceled` and `context.DeadlineExceeded`
  canceled : GoError
  deadline_exceeded : GoError
  -- `*amqp.Error` with its code and reason
  amqp_error : ℕ → Str → GoError

-- The texts that other code gives: of an AMQP error, and of a number under %d.
pub record Texts : Type 0 where
  pub amqp_text : ℕ → Str → Str
  pub decimal : ℤ → Str

-- `NonRetryableError.Error`, with the texts of the errors that it may wrap.
unfoldable pub error_text : Texts → GoError → Str
error_text t (non_retryable e) = error_text t e
error_text t non_retryable_empty = bytes "non-retryable error"
error_text t non_retryable_nil = bytes "non-retryable error"
error_text t (text s) = s
error_text t (number s n) = s ++ t.decimal n
error_text t (wrap before e after) = before ++ (error_text t e ++ after)
error_text t (join a b) = error_text t a ++ (b'\n' ∷ error_text t b)
error_text t (custom s as_target of_canceled of_deadline) = s
error_text t canceled = bytes "context canceled"
error_text t deadline_exceeded = bytes "context deadline exceeded"
error_text t (amqp_error code reason) = t.amqp_text code reason

-- The errors that `Unwrap` gives, in order.
unfoldable pub unwrap : GoError → List GoError
unwrap (wrap before e after) = e ∷ []
unwrap (join a b) = a ∷ b ∷ []
unwrap (non_retryable e) = e ∷ []
unwrap _ = []

-- The walk of `errors.As` and `errors.Is`: the error itself, then what it wraps, depth first.
unfoldable pub in_chain : (GoError → Bool) → GoError → Bool
in_chain p (wrap before e after) = p (wrap before e after) || in_chain p e
in_chain p (join a b) = p (join a b) || (in_chain p a || in_chain p b)
in_chain p (non_retryable e) = p (non_retryable e) || in_chain p e
in_chain p e = p e

-- Is the dynamic type of the error `*NonRetryableError`, or does its method `As` take that target?
abbrev pub is_non_retryable_type : GoError → Bool
is_non_retryable_type (non_retryable e) = true
is_non_retryable_type non_retryable_empty = true
is_non_retryable_type non_retryable_nil = true
is_non_retryable_type (custom s as_target of_canceled of_deadline) = as_target
is_non_retryable_type _ = false

abbrev pub is_canceled_value : GoError → Bool
is_canceled_value canceled = true
is_canceled_value (custom s as_target of_canceled of_deadline) = of_canceled
is_canceled_value _ = false

abbrev pub is_deadline_value : GoError → Bool
is_deadline_value deadline_exceeded = true
is_deadline_value (custom s as_target of_canceled of_deadline) = of_deadline
is_deadline_value _ = false

-- `NewNonRetryableError(err)` of an error that is not nil.
abbrev pub new_non_retryable_error : GoError → GoError
new_non_retryable_error e = non_retryable e

-- `IsNonRetryable`, which is `errors.As` at `*NonRetryableError`.
unfoldable pub is_non_retryable : GoError → Bool
unfolding in_chain
is_non_retryable e = in_chain is_non_retryable_type e

-- `errors.Is(err, context.Canceled)` and `errors.Is(err, context.DeadlineExceeded)`.
unfoldable pub is_canceled : GoError → Bool
unfolding in_chain
is_canceled e = in_chain is_canceled_value e

unfoldable pub is_deadline_exceeded : GoError → Bool
unfolding in_chain
is_deadline_exceeded e = in_chain is_deadline_value e

-- A pair `(value, err)` of Go in which one is given.
pub data Result {ℓ} (A : Type ℓ) : Type ℓ where
  ok : A → Result A
  err : GoError → Result A

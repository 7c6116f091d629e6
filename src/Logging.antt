-- ===== src/Logging.antt =====
-- pkg/rabbitmq/logging: fields, `NopLogger` and `SlogLogger`. What a `slog.Logger` writes is a list of
-- records; whether it is enabled for a level is a parameter. Contexts are left out.
use rabbitmq_go.Base.{
  ℕ, ℤ, Bool, false, Option, none, some, List, [], ◌∷◌, ◌++◌, map, append_assoc, append-nil, ◌≡◌,
  refl, ap, sym, ◌∙◌, Str, bytes, if◌then◌else◌,
}
use rabbitmq_go.Errors.{GoError}

-- The dynamic type of a field's value; `other_value` is any type that the constructors do not name.
pub data FieldValue : Type 0 where
  string_value : Str → FieldValue
  int_value : ℤ → FieldValue
  int64_value : ℤ → FieldValue
  bool_value : Bool → FieldValue
  duration_value : ℤ → FieldValue
  error_value : Option GoError → FieldValue
  other_value : ℕ → FieldValue

-- `Field`.
pub record Field : Type 0 where
  pub key : Str
  pub value : FieldValue

-- `String`, `Int`, `Int64`, `Bool`, `Duration`, `Any` and `Err`.
abbrev pub string_field : Str → Str → Field
string_field k v = record { key = k; value = string_value v }

abbrev pub int_field : Str → ℤ → Field
int_field k v = record { key = k; value = int_value v }

abbrev pub int64_field : Str → ℤ → Field
int64_field k v = record { key = k; value = int64_value v }

abbrev pub bool_field : Str → Bool → Field
bool_field k v = record { key = k; value = bool_value v }

abbrev pub duration_field : Str → ℤ → Field
duration_field k v = record { key = k; value = duration_value v }

abbrev pub any_field : Str → FieldValue → Field
any_field k v = record { key = k; value = v }

abbrev pub err_field : Option GoError → Field
err_field e = record { key = bytes "error"; value = error_value e }

-- The levels of `log/slog`.
pub data Level : Type 0 where
  level_debug : Level
  level_info : Level
  level_warn : Level
  level_error : Level

-- A record that a `slog.Logger` writes: `slog.Any(key, value)` for each field.
pub record Line : Type 0 where
  pub level : Level
  pub message : Str
  pub attrs : List (Str × FieldValue)

-- The loop of `log` over the fields, with what it has appended so far.
unfoldable pub append_attrs : List (Str × FieldValue) → List Field → List (Str × FieldValue)
append_attrs attrs [] = attrs
append_attrs attrs (f ∷ fields) = append_attrs (attrs ++ (f.key, f.value) ∷ []) fields

-- `SlogLogger.log`; the lines are the latest first.
unfoldable pub slog : (Level → Bool) → Level → Str → List Field → List Line → List Line
unfolding append_attrs
slog enabled level msg fields lines =
    if enabled level
    then record { level = level; message = msg; attrs = append_attrs [] fields } ∷ lines
    else lines

-- A call of `Debug`, `Info`, `Warn` or `Error`, by the level.
pub record LogCall : Type 0 where
  pub level : Level
  pub message : Str
  pub fields : List Field

-- `SlogLogger` on a sequence of calls, the first one first.
unfoldable pub slog_all : (Level → Bool) → List LogCall → List Line → List Line
unfolding slog
slog_all enabled [] lines = lines
slog_all enabled (c ∷ calls) lines =
    slog_all enabled calls (slog enabled c.level c.message c.fields lines)

-- `NopLogger` on a sequence of calls.
unfoldable pub nop_all : List LogCall → List Line → List Line
nop_all calls lines = lines

-- A logger: `NewSlogLogger` of a `slog.Logger` or of nil, for which it takes `slog.Default()`.
unfoldable pub new_slog_logger : {A : Type 0} → A → Option A → A
new_slog_logger default_logger none = default_logger
new_slog_logger default_logger (some l) = l

abbrev line_of : LogCall → Line
line_of c = record {
  level = c.level;
  message = c.message;
  attrs = map (λ (f : Field). (f.key, f.value)) c.fields;
}

-- The calls that a test keeps, as lines before the given ones, the last call first.
abbrev pub written : (Level → Bool) → List LogCall → List Line → List Line
written enabled [] lines = lines
written enabled (c ∷ calls) lines =
    written enabled calls (if enabled c.level then line_of c ∷ lines else lines)

append_attrs_lem :
    (attrs : List (Str × FieldValue)) (fields : List Field)
    → append_attrs attrs fields ≡ attrs ++ map (λ (f : Field). (f.key, f.value)) fields
unfolding append_attrs
append_attrs_lem attrs [] = sym (append-nil attrs)
append_attrs_lem attrs (f ∷ fields) =
    append_attrs_lem (attrs ++ (f.key, f.value) ∷ []) fields
    ∙ append_assoc attrs ((f.key, f.value) ∷ []) (map (λ (f : Field). (f.key, f.value)) fields)

slog_lem :
    (enabled : Level → Bool) (c : LogCall) (lines : List Line)
    → slog enabled c.level c.message c.fields lines
      ≡ (if enabled c.level then line_of c ∷ lines else lines)
unfolding slog
slog_lem enabled c lines = rw (append_attrs_lem [] c.fields) refl

-- `SlogLogger` writes one line for each call whose level is enabled, in the order of the calls, each
-- with all its fields in order, and nothing else; where no level is enabled it does what `NopLogger`
-- does.
slog_all_lem :
    (enabled : Level → Bool) (calls : List LogCall) (lines : List Line)
    → (slog_all enabled calls lines ≡ written enabled calls lines)
      × (slog_all (λ _. false) calls lines ≡ nop_all calls lines)
unfolding slog_all nop_all
slog_all_lem enabled [] lines = (refl, refl)
slog_all_lem enabled (c ∷ calls) lines = (
  ap (slog_all enabled calls) (slog_lem enabled c lines) ∙ (slog_all_lem enabled calls _).0,
  ap (slog_all (λ _. false) calls) (slog_lem (λ _. false) c lines)
      ∙ (slog_all_lem enabled calls lines).1,
)

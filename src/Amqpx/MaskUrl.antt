-- ===== src/Amqpx/MaskUrl.antt =====
-- internal/amqpx/connection.go: `MaskURL`. The functions of Go's package strings that it calls give
-- positions; here they give the two parts of the text at that position.
pub mod Hidden
use rabbitmq_go.Base.{
  ℕ, Bool, ◌||◌, ◌&&◌, Option, none, some, List, [], ◌∷◌, ◌++◌, Str, bytes, ◌==◌, if◌then◌else◌,
}

abbrev pub colon : ℕ
colon = 58

abbrev pub slash : ℕ
slash = 47

abbrev pub is_colon : ℕ → Bool
is_colon c = c == colon

abbrev pub is_at : ℕ → Bool
is_at c = c == 64

-- One of "/?#".
abbrev pub is_delimiter : ℕ → Bool
is_delimiter c = c == slash || (c == 63 || c == 35)

-- `schemeSep`, and what follows it, if a text starts with it.
abbrev pub scheme_sep : Str
scheme_sep = bytes "://"

unfoldable pub after_sep : Str → Option Str
after_sep (a ∷ b ∷ c ∷ s) = if a == colon && (b == slash && c == slash) then some s else none
after_sep _ = none

-- `strings.Index(raw, schemeSep)`: the text before the first separator, and the text after it.
unfoldable pub cut_scheme : Str → Option (Str × Str)
unfolding after_sep
cut_scheme [] = none
cut_scheme (c ∷ s) =
    let later = cut_scheme s in
    elim (after_sep (c ∷ s)) [
      | some rest ↦ some ([], rest)
      | none ↦ elim later [ none ↦ none | some (a, rest) ↦ some (c ∷ a, rest) ]
    ]

-- `strings.IndexAny(rest, "/?#")`: the text before the first of these bytes, and from it on.
unfoldable pub split_authority : Str → Str × Str
split_authority [] = ([], [])
split_authority (c ∷ s) =
    let (a, t) = split_authority s in if is_delimiter c then ([], c ∷ s) else (c ∷ a, t)

-- `strings.LastIndex(authority, "@")`: the text before the last '@', and from it on.
unfoldable pub split_userinfo : Str → Option (Str × Str)
split_userinfo [] = none
split_userinfo (c ∷ s) = elim (split_userinfo s) [
  | some (a, t) ↦ some (c ∷ a, t)
  | none ↦ if is_at c then some ([], c ∷ s) else none
]

-- `strings.Cut(userinfo, ":")`.
unfoldable pub cut_password : Str → Option (Str × Str)
cut_password [] = none
cut_password (c ∷ s) =
    let later = cut_password s in
    if is_colon c then some ([], s) else elim later [ none ↦ none | some (a, t) ↦ some (c ∷ a, t) ]

-- The part of `MaskURL` after the scheme was found: from the authority on, it gives what stands before
-- and after the password.
unfoldable pub around_password : Str → Option (Str × Str)
around_password rest =
    let (authority, tail) = split_authority rest in
    elim (split_userinfo authority) [
      | none ↦ none
      | some (userinfo, host) ↦ elim (cut_password userinfo) [
        | none ↦ none
        | some (username, password) ↦ some (username, host ++ tail)
      ]
    ]

-- `MaskURL`.
unfoldable pub mask_url : Str → Str
unfolding cut_scheme around_password
mask_url raw = elim (cut_scheme raw) [
  | none ↦ raw
  | some (scheme, rest) ↦ elim (around_password rest) [
    | none ↦ raw
    | some (username, host) ↦ scheme ++ (scheme_sep ++ (username ++ (bytes ":***" ++ host)))
  ]
]

-- ===== src/Amqpx/MaskUrl/Hidden.antt =====
-- internal/amqpx/connection.go: what `MaskURL` hides, and what it keeps.
use rabbitmq_go.Base.{
  ℕ, Bool, true, false, not, ◌&&◌, none, some, [], ◌∷◌, ◌++◌, ◌≡◌, refl, ap, sym, ◌∙◌, ◌⊎◌, inl,
  inr, arith, Str, bytes, append_assoc,
}
use rabbitmq_go.Amqpx.MaskUrl.{
  colon, is_colon, is_at, is_delimiter, scheme_sep, after_sep, cut_scheme, split_authority,
  split_userinfo, cut_password, around_password, mask_url,
}

-- No byte of a text has a property.
abbrev pub lacks : (ℕ → Bool) → Str → Bool
lacks p [] = true
lacks p (c ∷ s) = not (p c) && lacks p s

-- A text is empty or starts with a delimiter.
abbrev pub starts_delimited : Str → Bool
starts_delimited [] = true
starts_delimited (c ∷ s) = is_delimiter c

after_sep_other : (c : ℕ) (s : Str) → is_colon c ≡ false → after_sep (c ∷ s) ≡ none
unfolding after_sep
after_sep_other c [] h = refl
after_sep_other c (b ∷ []) h = refl
after_sep_other c (b ∷ d ∷ s) h = ground arith

cut_scheme_lem :
    (scheme rest : Str)
    → lacks is_colon scheme ≡ true
    → cut_scheme (scheme ++ (scheme_sep ++ rest)) ≡ some (scheme, rest)
unfolding cut_scheme after_sep
cut_scheme_lem [] rest h = refl
cut_scheme_lem (c ∷ s) rest h =
    ground (arith, after_sep_other c (s ++ (scheme_sep ++ rest)), cut_scheme_lem s rest)

split_tail : (t : Str) → starts_delimited t ≡ true → split_authority t ≡ ([], t)
unfolding split_authority
split_tail [] h = refl
split_tail (c ∷ s) h = ground arith

split_authority_lem :
    (a t : Str)
    → lacks is_delimiter a ≡ true
    → starts_delimited t ≡ true
    → split_authority (a ++ t) ≡ (a, t)
unfolding split_authority
split_authority_lem [] t h d = split_tail t d
split_authority_lem (c ∷ a) t h d = ground (arith, split_authority_lem a t)

no_userinfo : (s : Str) → lacks is_at s ≡ true → split_userinfo s ≡ none
unfolding split_userinfo
no_userinfo [] h = refl
no_userinfo (c ∷ s) h = ground (arith, no_userinfo s)

split_userinfo_lem :
    (u host : Str) → lacks is_at host ≡ true → split_userinfo (u ++ 64 ∷ host) ≡ some (u, 64 ∷ host)
unfolding split_userinfo
split_userinfo_lem [] host h = ground (arith, no_userinfo host)
split_userinfo_lem (c ∷ u) host h = ground (arith, split_userinfo_lem u host)

cut_password_lem :
    (u password : Str)
    → lacks is_colon u ≡ true
    → cut_password (u ++ colon ∷ password) ≡ some (u, password)
unfolding cut_password
cut_password_lem [] password h = ground arith
cut_password_lem (c ∷ u) password h = ground (arith, cut_password_lem u password)

lacks-append :
    (p : ℕ → Bool) (a b : Str) → lacks p a ≡ true → lacks p b ≡ true → lacks p (a ++ b) ≡ true
lacks-append p [] b h k = k
lacks-append p (c ∷ a) b h k = ground (arith, lacks-append p a b)

-- The authority of a URL with a password.
abbrev pub authority : Str → Str → Str → Str
authority user password host = (user ++ colon ∷ password) ++ 64 ∷ host

abbrev pub url : Str → Str → Str → Str
url scheme auth tail = scheme ++ (scheme_sep ++ (auth ++ tail))

-- The parts of a URL: the scheme and the user have no ':', the host has no '@', and the authority has
-- no '/', '?' or '#', one of which starts what follows it. A password may have ':' and '@'.
pub record Parts (scheme user host tail : Str) : Type 0 where
  pub scheme_is : lacks is_colon scheme ≡ true
  pub user_has_no_colon : lacks is_colon user ≡ true
  pub user_is : lacks is_delimiter user ≡ true
  pub host_has_no_at : lacks is_at host ≡ true
  pub host_is : lacks is_delimiter host ≡ true
  pub tail_is : starts_delimited tail ≡ true

authority_lem :
    (user password host : Str)
    → lacks is_delimiter user ≡ true
    → lacks is_delimiter password ≡ true
    → lacks is_delimiter host ≡ true
    → lacks is_delimiter (authority user password host) ≡ true
authority_lem user password host u p h =
    lacks-append is_delimiter (user ++ colon ∷ password) (64 ∷ host)
      (lacks-append is_delimiter user (colon ∷ password) u (ground (arith, p))) (ground (arith, h))

around_password_lem :
    (scheme user password host tail : Str)
    → Parts scheme user host tail
    → lacks is_delimiter password ≡ true
    → around_password (authority user password host ++ tail) ≡ some (user, 64 ∷ host ++ tail)
unfolding around_password
around_password_lem scheme user password host tail v p = ground (
  arith,
  split_authority_lem (authority user password host) tail
      (authority_lem user password host v.user_is p v.host_is) v.tail_is,
  split_userinfo_lem (user ++ colon ∷ password) host v.host_has_no_at,
  cut_password_lem user password v.user_has_no_colon,
)

masked :
    (scheme rest user host : Str)
    → lacks is_colon scheme ≡ true
    → around_password rest ≡ some (user, host)
    → mask_url (scheme ++ (scheme_sep ++ rest))
      ≡ scheme ++ (scheme_sep ++ (user ++ (bytes ":***" ++ host)))
unfolding mask_url
masked scheme rest user host s e = ground (arith, cut_scheme_lem scheme rest s, e)

masked_authority :
    (user host tail : Str)
    → user ++ (bytes ":***" ++ (64 ∷ host ++ tail)) ≡ authority user (bytes "***") host ++ tail
masked_authority user host tail = sym (
    append_assoc (user ++ bytes ":***") (64 ∷ host) tail
    ∙ append_assoc user (bytes ":***") (64 ∷ host ++ tail))

-- `MaskURL` of a URL with a password is the URL with the password "***", whatever the password is,
-- and with all else as it was. The scheme and the user have no ':', the host has no '@', no part of the
-- authority has '/', '?' or '#', and one of these starts what follows it, if anything does. The password
-- may have ':' and '@'.
pub mask_url_lem :
    (scheme user password host tail : Str)
    → Parts scheme user host tail
    → lacks is_delimiter password ≡ true
    → mask_url (url scheme (authority user password host) tail)
      ≡ url scheme (authority user (bytes "***") host) tail
mask_url_lem scheme user password host tail v p =
    masked scheme _ user _ v.scheme_is (around_password_lem scheme user password host tail v p)
    ∙ ap (λ r. scheme ++ (scheme_sep ++ r)) (masked_authority user host tail)

no_password : (u : Str) → lacks is_colon u ≡ true → cut_password u ≡ none
unfolding cut_password
no_password [] h = refl
no_password (c ∷ u) h = ground (arith, no_password u)

-- The authority has no user, or a user and no password.
abbrev pub IsPlain : Str → Type 0
IsPlain auth =
    (lacks is_at auth ≡ true)
    ⊎ ((user : Str) × (host : Str) × (auth ≡ user ++ 64 ∷ host)
        × (lacks is_colon user ≡ true)
        × (lacks is_at host ≡ true))

around_plain :
    (auth tail : Str)
    → IsPlain auth
    → lacks is_delimiter auth ≡ true
    → starts_delimited tail ≡ true
    → around_password (auth ++ tail) ≡ none
unfolding around_password
around_plain auth tail (inl no_at) d t =
    ground (arith, split_authority_lem auth tail d t, no_userinfo auth no_at)
around_plain auth tail (inr (user, host, e, c, a)) d t = ground (
  arith,
  split_authority_lem auth tail d t,
  split_userinfo_lem user host a,
  ap split_userinfo e,
  no_password user c,
)

unmasked :
    (scheme rest : Str)
    → lacks is_colon scheme ≡ true
    → around_password rest ≡ none
    → mask_url (scheme ++ (scheme_sep ++ rest)) ≡ scheme ++ (scheme_sep ++ rest)
unfolding mask_url
unmasked scheme rest s e = ground (arith, cut_scheme_lem scheme rest s, e)

-- `MaskURL` returns a URL with no user, or with a user and no password, as it is, also if what follows
-- the authority has ':' and '@'. The scheme and the user have no ':', the host has no '@', the authority
-- has no '/', '?' or '#', and one of these starts what follows it, if anything does.
mask_url_plain :
    (scheme auth tail : Str)
    → lacks is_colon scheme ≡ true
    → IsPlain auth
    → lacks is_delimiter auth ≡ true
    → starts_delimited tail ≡ true
    → mask_url (url scheme auth tail) ≡ url scheme auth tail
mask_url_plain scheme auth tail s plain d t =
    unmasked scheme (auth ++ tail) s (around_plain auth tail plain d t)

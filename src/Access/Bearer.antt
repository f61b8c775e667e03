-- ===== src/Access/Bearer.antt =====
-- `bearer_token` and `authenticate_bearer` of mneme_service/security.py. Texts are code points.
-- `secrets.compare_digest` raises a TypeError on texts that are not ASCII, which is an outcome.
use mneme_universal_context.Prelude.{
  ℕ, ◌+◌, ◌≡◌, ◌⊎◌, inl, inr, refl, Bool, true, false, not, ◌&&◌, ◌||◌, Option, none, some, List,
  [], ◌∷◌, arith, ltb, leb, ◌==◌, if◌then◌else◌, Bool-cases, Option-cases,
}
use mneme_universal_context.Prelude.Text.{Text, codes, same_text}
use mneme_universal_context.Access.Principal.{Principal, wildcard}

-- `scheme.lower()`: only ASCII letters have a lower-case letter of "bearer".
abbrev pub lower : Text → Text
lower [] = []
lower (c ∷ s) = (if leb 65 c && leb c 90 then c + 32 else c) ∷ lower s

-- `header.partition(" ")`: what stands before the first space, and behind it.
abbrev pub before_space : Text → Text
before_space [] = []
before_space (c ∷ s) = let rest = before_space s in if c == 32 then [] else c ∷ rest

abbrev pub after_space : Text → Text
after_space [] = []
after_space (c ∷ s) = let rest = after_space s in if c == 32 then s else rest

abbrev pub is_blank : Text → Bool
is_blank [] = true
is_blank (c ∷ s) = false

unfoldable pub bearer_token : Option Text → Option Text
bearer_token none = none
bearer_token (some header) =
    if is_blank header
    then none
    else if not (same_text (lower (before_space header)) (codes "bearer"))
        || is_blank (after_space header)
    then none
    else some (after_space header)

pub record StaticToken : Type 0 where
  pub token : Text
  pub name : ℕ
  pub role : ℕ
  pub project_scopes : List ℕ

-- No token is the empty text here; Python tests both for truth.
pub record AuthSettings : Type 0 where
  pub insecure_dev : Bool
  pub static_tokens : List StaticToken
  pub auth_token : Text

pub data Outcome : Type 0 where
  accepted : Principal → Outcome
  rejected : Outcome
  type_error : Outcome

abbrev pub is_ascii : Text → Bool
is_ascii [] = true
is_ascii (c ∷ s) = ltb c 128 && is_ascii s

-- `secrets.compare_digest(token, expected)` with what follows on either answer.
abbrev pub compare_digest : Text → Text → Outcome → Outcome → Outcome
compare_digest token expected same differ =
    if not (is_ascii token && is_ascii expected)
    then type_error
    else if same_text token expected
    then same
    else differ

abbrev pub owner : ℕ → ℕ → Principal
owner name role = record { name = name; role = role; project_scopes = wildcard ∷ [] }

-- The principal's name and role are numbers for "insecure-dev-owner" or "local-owner" and "OWNER".
abbrev pub check_owner : AuthSettings → Text → Outcome
check_owner s token =
    if is_blank s.auth_token
    then rejected
    else compare_digest token s.auth_token (accepted (owner 1 0)) rejected

abbrev pub check_static : AuthSettings → Text → List StaticToken → Outcome
check_static s token [] = check_owner s token
check_static s token (t ∷ ts) =
    let rest = check_static s token ts in
    let found =
      accepted (record { name = t.name; role = t.role; project_scopes = t.project_scopes }) in
    if is_blank t.token then rest else compare_digest token t.token found rest

abbrev pub check_token : AuthSettings → Option Text → Outcome
check_token s none = rejected
check_token s (some token) = check_static s token s.static_tokens

unfoldable pub authenticate_bearer : Option Text → AuthSettings → Outcome
unfolding bearer_token
authenticate_bearer header s =
    if s.insecure_dev then accepted (owner 0 0) else check_token s (bearer_token header)

pub same_text-eq : (s t : Text) → same_text s t ≡ true → s ≡ t
same_text-eq [] [] h = refl
same_text-eq [] (d ∷ t) h = cc
same_text-eq (c ∷ s) [] h = cc
same_text-eq (c ∷ s) (d ∷ t) h = ground (arith, same_text-eq s t)

-- A principal with the token, from the settings.
abbrev pub Granted : AuthSettings → Text → List StaticToken → Principal → Type 0
Granted s token [] p = (token ≡ s.auth_token) × (is_blank s.auth_token ≡ false) × (p ≡ owner 1 0)
Granted s token (t ∷ ts) p =
    ((token ≡ t.token)
      × (is_blank t.token ≡ false)
      × (p.project_scopes ≡ t.project_scopes)
      × (p.name ≡ t.name))
    ⊎ Granted s token ts p

check_static-Granted :
    (s : AuthSettings) (token : Text) (ts : List StaticToken) (p : Principal)
    → check_static s token ts ≡ accepted p
    → Granted s token ts p
check_static-Granted s token [] p h =
    (same_text-eq token s.auth_token (ground arith), ground arith, ground arith)
check_static-Granted s token (t ∷ ts) p h = elim (Bool-cases (is_blank t.token)) [
  | inl blank ↦ inr (check_static-Granted s token ts p (ground arith))
  | inr set ↦ elim (Bool-cases (same_text token t.token)) [
    | inl same ↦ inl (same_text-eq token t.token same, set, ground arith, ground arith)
    | inr differ ↦ inr (check_static-Granted s token ts p (ground arith))
  ]
]

-- Outside insecure development, a request is accepted only if its header is a bearer header whose
-- token is, letter for letter, a non-empty token of the settings, with that token's scopes.
pub authenticate_bearer-Granted :
    (header : Option Text) (s : AuthSettings) (p : Principal)
    → s.insecure_dev ≡ false
    → authenticate_bearer header s ≡ accepted p
    → (token : Text) × (bearer_token header ≡ some token) × Granted s token s.static_tokens p
unfolding authenticate_bearer
authenticate_bearer-Granted header s p off h = elim (Option-cases (bearer_token header)) [
  | inl e ↦ absurd (ground arith)
  | inr (token, e) ↦ (token, e, check_static-Granted s token s.static_tokens p (ground arith))
]

-- A bearer token with a character outside ASCII is not rejected: it raises a TypeError as soon as
-- the settings have an owner token and no static tokens.
pub authenticate_bearer_non_ascii :
    (header : Option Text) (s : AuthSettings) (token : Text)
    → s.insecure_dev ≡ false
    → s.static_tokens ≡ []
    → is_blank s.auth_token ≡ false
    → bearer_token header ≡ some token
    → is_ascii token ≡ false
    → authenticate_bearer header s ≡ type_error
unfolding authenticate_bearer
authenticate_bearer_non_ascii header s token off no_static set e bad =
    rw (off, e, no_static, set, bad) refl

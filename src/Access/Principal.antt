-- ===== src/Access/Principal.antt =====
-- `Principal` of mneme_service/security.py and `visible_project_keys` of mneme_service/app.py. A
-- project key is a number; 0 is the empty key, and the wildcard "*" is the key 1. `none` is
-- Python's `None`.
use mneme_universal_context.Prelude.{
  ℕ, ◌≡◌, ◌≢◌, Bool, true, false, Option, none, some, List, [], ◌∷◌, arith, ◌==◌, if◌then◌else◌,
  contains,
}

abbrev pub wildcard : ℕ
wildcard = 1

pub record Principal : Type 0 where
  pub name : ℕ
  pub role : ℕ
  pub project_scopes : List ℕ

unfoldable pub all_projects : Principal → Bool
all_projects p = contains wildcard p.project_scopes

unfoldable pub can_access_project : Principal → Option ℕ → Bool
unfolding all_projects
can_access_project p none = all_projects p
can_access_project p (some key) =
    if all_projects p then true else if key == 0 then false else contains key p.project_scopes

-- An error of `mneme_service/errors.py`, by its HTTP status.
pub data Failure : Type 0 where
  unauthenticated forbidden not_found conflict validation bad_request unsatisfiable
        payload_too_large unavailable :
      Failure

pub data Result {ℓ} (A : Type ℓ) : Type ℓ where
  ok : A → Result A
  err : Failure → Result A

infixl 5 ◌>>=◌
abbrev pub ◌>>=◌ {ℓ κ} : {A : Type ℓ} {B : Type κ} → Result A → (A → Result B) → Result B
ok a >>= f = f a
err e >>= f = err e

-- `none` in the result means all projects.
abbrev pub scopes_of : Principal → Option (List ℕ)
scopes_of p = if all_projects p then none else some p.project_scopes

unfoldable pub visible_project_keys : Principal → Option ℕ → Result (Option (List ℕ))
unfolding can_access_project
visible_project_keys p none = ok (scopes_of p)
visible_project_keys p (some key) =
    if key == 0
    then ok (scopes_of p)
    else if can_access_project p (some key)
    then ok (some (key ∷ []))
    else err forbidden

-- A key that a listing may show.
abbrev pub shows : Option (List ℕ) → ℕ → Bool
shows none key = true
shows (some keys) key = contains key keys

-- What a listing shows is what the principal may access: each shown non-empty key is accessible;
-- and without a requested key each accessible non-empty key is shown.
pub visible_project_keys_exact :
    (p : Principal) (requested : Option ℕ) (visible : Option (List ℕ)) (key : ℕ)
    → visible_project_keys p requested ≡ ok visible
    → key ≢ 0
    → (shows visible key ≡ true → can_access_project p (some key) ≡ true)
      × (requested ≡ none → can_access_project p (some key) ≡ true → shows visible key ≡ true)
unfolding visible_project_keys
visible_project_keys_exact p none visible key e n = (λ h. ground arith, λ q h. ground arith)
visible_project_keys_exact p (some r) visible key e n = (λ h. ground arith, λ q h. cc)

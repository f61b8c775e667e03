-- ===== src/Redaction.antt =====
-- The redaction of JSON values: `redact`, `redact_with_metadata` and `is_sensitive_key` of
-- mneme_service/security.py. The regular expressions of `redact_text` and the hash of a fact are
-- arguments, as are `str.lower` and the text of an index.
pub mod Agree
pub mod Clean
pub mod Reported
mod Tests
use mneme_universal_context.Prelude.{
  ℕ, zero, suc, ◌+◌, ◌-◌, ◌*◌, ◌/◌, ◌≤◌, ◌<◌, max, min, ◌≡◌, ◌≢◌, ◌↔◌, ◌⊎◌, inl, inr, refl, sym, ap,
  ◌∙◌, Bool, true, false, not, ◌&&◌, ◌||◌, Option, none, some, List, [], ◌∷◌, ◌++◌, map, reverse,
  arith, ltb, leb, ◌==◌, if◌then◌else◌, Bool-cases, Option-cases, length, get_elem?, take, drop,
  filter, any, All, last_n, length-append, length-take, length-drop, contains, count, add_new,
  IsDistinct,
}
use mneme_universal_context.Prelude.Text.{
  Text, codes, strip, is_space, same_text, starts_with, ends_with, is_in,
}

-- `other` has null, a Boolean or a number.
mutual
  pub data Value : Type 0 where
    other : ℕ → Value
    str : Text → Value
    arr : Items → Value
    obj : Fields → Value

  pub data Items : Type 0 where
    no_items : Items
    item : Value → Items → Items

  pub data Fields : Type 0 where
    no_fields : Fields
    field : Text → Value → Fields → Fields

pub record Patterns : Type 0 where
  pub redact_text : Text → Text
  pub lower : Text → Text
  pub index_text : ℕ → Text
  pub hash : Value → ℕ

abbrev pub redacted_mark : Text
redacted_mark = codes "[REDACTED]"

abbrev pub exact_keys : List Text
exact_keys =
    codes "authorization"
    ∷ codes "proxy_authorization"
    ∷ codes "password"
    ∷ codes "passwd"
    ∷ codes "pass"
    ∷ codes "token"
    ∷ codes "api_key"
    ∷ codes "apikey"
    ∷ codes "private_key"
    ∷ codes "credentials"
    ∷ codes "credential"
    ∷ codes "cookie"
    ∷ []

abbrev pub key_fragments : List Text
key_fragments =
    codes "_api_key"
    ∷ codes "_secret"
    ∷ codes "_password"
    ∷ codes "_passwd"
    ∷ codes "_private_key"
    ∷ codes "_cookie"
    ∷ []

abbrev pub key_suffixes : List Text
key_suffixes = codes "_token" ∷ codes "_credential" ∷ codes "_credentials" ∷ []

-- `replace("-", "_")`
abbrev pub underscored : Text → Text
underscored [] = []
underscored (c ∷ t) = (if c == 45 then 95 else c) ∷ underscored t

unfoldable pub is_sensitive_key : Patterns → Text → Bool
is_sensitive_key p key =
    let normalized = underscored (p.lower (strip is_space key)) in
    any (λ k. same_text normalized k) exact_keys
    || any (λ s. ends_with s normalized) key_suffixes
    || any (λ f. is_in f normalized) key_fragments

-- How many more checks of the deadline pass; `none` where there is no deadline.
abbrev pub Time : Type 0
Time = Option ℕ

-- `none` is a RedactionTimeoutError.
abbrev pub check_redaction_deadline : Time → Option Time
check_redaction_deadline none = some none
check_redaction_deadline (some zero) = none
check_redaction_deadline (some (suc n)) = some (some n)

abbrev pub after {ℓ κ} : {A : Type ℓ} {B : Type κ} → Option A → (A → Option B) → Option B
after none f = none
after (some a) f = f a

unfoldable mutual
  pub redact : Patterns → Value → Time → Option (Value × Time)
  redact p (other n) t = after (check_redaction_deadline t) (λ t1. some (other n, t1))
  redact p (str s) t =
      after (check_redaction_deadline t)
        (λ t1. after (check_redaction_deadline t1) (λ t2. some (str (p.redact_text s), t2)))
  redact p (arr xs) t =
      after (check_redaction_deadline t)
        (λ t1. after (redact_items p xs t1) (λ r. some (arr r.0, r.1)))
  redact p (obj fs) t =
      after (check_redaction_deadline t)
        (λ t1. after (redact_fields p fs t1) (λ r. some (obj r.0, r.1)))

  pub redact_items : Patterns → Items → Time → Option (Items × Time)
  redact_items p no_items t = some (no_items, t)
  redact_items p (item x xs) t = after (redact p x t) (λ r.
      after (check_redaction_deadline r.1)
        (λ t1. after (redact_items p xs t1) (λ q. some (item r.0 q.0, q.1))))

  pub redact_fields : Patterns → Fields → Time → Option (Fields × Time)
  redact_fields p no_fields t = some (no_fields, t)
  redact_fields p (field k v fs) t =
      after (if is_sensitive_key p k then some (str redacted_mark, t) else redact p v t) (λ r.
        after (check_redaction_deadline r.1)
          (λ t1. after (redact_fields p fs t1) (λ q. some (field k r.0 q.0, q.1))))

pub data FactKind : Type 0 where
  secret_pattern sensitive_key : FactKind

pub record Fact : Type 0 where
  pub kind : FactKind
  pub path : Text
  pub hash : ℕ

-- `_path or "$"`
abbrev pub or_root : Text → Text
or_root [] = codes "$"
or_root (c ∷ t) = c ∷ t

abbrev pub item_path : Patterns → Text → ℕ → Text
item_path p path i = path ++ codes "[" ++ p.index_text i ++ codes "]"

abbrev pub child_path : Text → Text → Text
child_path path key = if same_text path (codes "$") then key else path ++ codes "." ++ key

abbrev pub text_facts : Patterns → Text → Text → List Fact
text_facts p s path =
    if same_text (p.redact_text s) s
    then []
    else record { kind = secret_pattern; path = path; hash = p.hash (str s) } ∷ []

unfoldable mutual
  pub redact_with_metadata : Patterns → Text → Value → Time → Option ((Value × List Fact) × Time)
  redact_with_metadata p path (other n) t =
      after (check_redaction_deadline t) (λ t1. some ((other n, []), t1))
  redact_with_metadata p path (str s) t = after (check_redaction_deadline t) (λ t1.
      after (check_redaction_deadline t1)
        (λ t2. some ((str (p.redact_text s), text_facts p s (or_root path)), t2)))
  redact_with_metadata p path (arr xs) t = after (check_redaction_deadline t) (λ t1.
      after (items_with_metadata p (or_root path) 0 xs t1) (λ r. some ((arr r.0.0, r.0.1), r.1)))
  redact_with_metadata p path (obj fs) t = after (check_redaction_deadline t) (λ t1.
      after (fields_with_metadata p (or_root path) fs t1) (λ r. some ((obj r.0.0, r.0.1), r.1)))

  pub items_with_metadata : Patterns → Text → ℕ → Items → Time → Option ((Items × List Fact) × Time)
  items_with_metadata p path i no_items t = some ((no_items, []), t)
  items_with_metadata p path i (item x xs) t =
      after (redact_with_metadata p (item_path p path i) x t) (λ r.
        after (check_redaction_deadline r.1) (λ t1.
          after (items_with_metadata p path (i + 1) xs t1)
            (λ q. some ((item r.0.0 q.0.0, r.0.1 ++ q.0.1), q.1))))

  pub fields_with_metadata : Patterns → Text → Fields → Time → Option ((Fields × List Fact) × Time)
  fields_with_metadata p path no_fields t = some ((no_fields, []), t)
  fields_with_metadata p path (field k v fs) t =
      after
        (if is_sensitive_key p k
          then some (
            (
              str redacted_mark,
              record { kind = sensitive_key; path = child_path path k; hash = p.hash v } ∷ [],
            ),
            t,
          )
          else redact_with_metadata p (child_path path k) v t)
        (λ r. after (check_redaction_deadline r.1) (λ t1.
          after (fields_with_metadata p path fs t1)
            (λ q. some ((field k r.0.0 q.0.0, r.0.1 ++ q.0.1), q.1))))

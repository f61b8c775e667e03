-- ===== src/Redaction/Clean.antt =====
-- What redaction leaves, and what it reports.
use mneme_universal_context.Prelude.{
  ◌≡◌, inl, inr, refl, sym, Option, none, some, if◌then◌else◌, Bool-cases,
}
use mneme_universal_context.Prelude.Text.{Text}
use mneme_universal_context.Redaction.{
  Value, other, str, arr, obj, Items, no_items, item, Fields, no_fields, field, Patterns,
  is_sensitive_key, redacted_mark, Time, check_redaction_deadline, after, redact, redact_items,
  redact_fields,
}

-- At any depth, a sensitive key has the mark, and any other text is one that `redact_text` has
-- returned.
unfoldable mutual
  pub IsClean : Patterns → Value → Type 0
  IsClean p (other n) = Unit
  IsClean p (str s) = (original : Text) × (s ≡ p.redact_text original)
  IsClean p (arr xs) = AreClean p xs
  IsClean p (obj fs) = HasCleanFields p fs

  pub AreClean : Patterns → Items → Type 0
  AreClean p no_items = Unit
  AreClean p (item x xs) = IsClean p x × AreClean p xs

  pub HasCleanFields : Patterns → Fields → Type 0
  HasCleanFields p no_fields = Unit
  HasCleanFields p (field k v fs) =
      (if is_sensitive_key p k then v ≡ str redacted_mark else IsClean p v) × HasCleanFields p fs

pub after-some :
    {A B : Type 0} (m : Option A) (f : A → Option B) (b : B)
    → after m f ≡ some b
    → (a : A) × (m ≡ some a) × (f a ≡ some b)
after-some none f b e = cc
after-some (some a) f b e = (a, refl, e)

mutual
  unfolding redact IsClean

  pub redact-IsClean :
      (p : Patterns) (v w : Value) (t t' : Time) → redact p v t ≡ some (w, t') → IsClean p w
  redact-IsClean p (other n) w t t' e =
      let (t1, time, r) = after-some (check_redaction_deadline t) _ (w, t') e in
      let same : other n ≡ w = cc r in rw⁻¹ same tt
  redact-IsClean p (str s) w t t' e =
      let (t1, time, r) = after-some (check_redaction_deadline t) _ (w, t') e in
      let (t2, time2, r2) = after-some (check_redaction_deadline t1) _ (w, t') r in
      let same : str (p.redact_text s) ≡ w = cc r2 in rw⁻¹ same (s, refl)
  redact-IsClean p (arr xs) w t t' e =
      let (t1, time, r) = after-some (check_redaction_deadline t) _ (w, t') e in
      let (q, items, r2) = after-some (redact_items p xs t1) _ (w, t') r in
      let same : arr q.0 ≡ w = cc r2 in rw⁻¹ same (redact_items-AreClean p xs q.0 t1 q.1 items)
  redact-IsClean p (obj fs) w t t' e =
      let (t1, time, r) = after-some (check_redaction_deadline t) _ (w, t') e in
      let (q, fields, r2) = after-some (redact_fields p fs t1) _ (w, t') r in
      let same : obj q.0 ≡ w = cc r2 in
      rw⁻¹ same (redact_fields-HasCleanFields p fs q.0 t1 q.1 fields)

  redact_items-AreClean :
      (p : Patterns) (xs ys : Items) (t t' : Time)
      → redact_items p xs t ≡ some (ys, t')
      → AreClean p ys
  redact_items-AreClean p no_items ys t t' e = let same : no_items ≡ ys = cc e in rw⁻¹ same tt
  redact_items-AreClean p (item x xs) ys t t' e =
      let (a, first, r) = after-some (redact p x t) _ (ys, t') e in
      let (t1, time, r1) = after-some (check_redaction_deadline a.1) _ (ys, t') r in
      let (q, rest, r2) = after-some (redact_items p xs t1) _ (ys, t') r1 in
      let same : item a.0 q.0 ≡ ys = cc r2 in
      rw⁻¹ same (redact-IsClean p x a.0 t a.1 first, redact_items-AreClean p xs q.0 t1 q.1 rest)

  redact_fields-HasCleanFields :
      (p : Patterns) (fs gs : Fields) (t t' : Time)
      → redact_fields p fs t ≡ some (gs, t')
      → HasCleanFields p gs
  redact_fields-HasCleanFields p no_fields gs t t' e =
      let same : no_fields ≡ gs = cc e in rw⁻¹ same tt
  redact_fields-HasCleanFields p (field k v fs) gs t t' e =
      let (a, first, r) =
        after-some (if is_sensitive_key p k then some (str redacted_mark, t) else redact p v t) _
          (gs, t') e in
      let (t1, time, r1) = after-some (check_redaction_deadline a.1) _ (gs, t') r in
      let (q, rest, r2) = after-some (redact_fields p fs t1) _ (gs, t') r1 in
      let same : field k a.0 q.0 ≡ gs = cc r2 in
      rw⁻¹ same (
        elim (Bool-cases (is_sensitive_key p k)) [
          | inl secret ↦
              let marked : some (str redacted_mark, t) ≡ some a = rw secret at first in
              let mark : str redacted_mark ≡ a.0 = cc marked in rw secret (sym mark)
          | inr open_key ↦
              let redacted : redact p v t ≡ some a = rw open_key at first in
              rw open_key (redact-IsClean p v a.0 t a.1 redacted)
        ],
        redact_fields-HasCleanFields p fs q.0 t1 q.1 rest,
      )

-- ===== src/Redaction/Reported.antt =====
-- What redaction changes is reported.
use mneme_universal_context.Prelude.{
  ℕ, ◌+◌, ◌≡◌, ◌≢◌, inl, inr, refl, sym, ap, ◌∙◌, true, some, List, [], ◌∷◌, ◌++◌, arith,
  if◌then◌else◌, Bool-cases,
}
use mneme_universal_context.Prelude.Text.{Text, same_text}
use mneme_universal_context.Redaction.{
  Value, other, str, arr, obj, Items, no_items, item, Fields, no_fields, field, Patterns,
  is_sensitive_key, redacted_mark, Time, check_redaction_deadline, Fact, sensitive_key, text_facts,
  or_root, item_path, child_path, redact_with_metadata, items_with_metadata, fields_with_metadata,
}
use mneme_universal_context.Redaction.Agree.{drop_facts, redact_with_metadata-redact}
use mneme_universal_context.Redaction.Clean.{IsClean, after-some, redact-IsClean}

same_text_eq : (s t : Text) → same_text s t ≡ true → s ≡ t
same_text_eq [] [] h = refl
same_text_eq [] (d ∷ t) h = cc
same_text_eq (c ∷ s) [] h = cc
same_text_eq (c ∷ s) (d ∷ t) h =
    let head : c ≡ d = ground arith in rw (head, same_text_eq s t (ground arith)) refl

nothing_before : (xs ys : List Fact) → xs ++ ys ≡ [] → (xs ≡ []) × (ys ≡ [])
nothing_before [] ys h = (refl, h)
nothing_before (x ∷ xs) ys h = cc

unreported_text : (p : Patterns) (s path : Text) → text_facts p s path ≡ [] → p.redact_text s ≡ s
unreported_text p s path h = elim (Bool-cases (same_text (p.redact_text s) s)) [
  | inl same ↦ same_text_eq (p.redact_text s) s same
  | inr changed ↦ cc (rw changed at h)
]

-- A reported key is no empty report.
reported :
    (w : Value) (f : Fact) (t : Time) (a : (Value × List Fact) × Time)
    → some ((w, f ∷ []), t) ≡ some a
    → a.0.1 ≢ []
reported w f t a e h = let told : f ∷ [] ≡ a.0.1 = cc e in cc (told ∙ h)

mutual
  unfolding redact_with_metadata

  unreported :
      (p : Patterns) (path : Text) (v w : Value) (fs : List Fact) (t t' : Time)
      → redact_with_metadata p path v t ≡ some ((w, fs), t')
      → fs ≡ []
      → w ≡ v
  unreported p path (other n) w fs t t' e h =
      let (t1, time, r) = after-some (check_redaction_deadline t) _ ((w, fs), t') e in cc r
  unreported p path (str s) w fs t t' e h =
      let (t1, time, r) = after-some (check_redaction_deadline t) _ ((w, fs), t') e in
      let (t2, time2, r2) = after-some (check_redaction_deadline t1) _ ((w, fs), t') r in
      let value : str (p.redact_text s) ≡ w = cc r2 in
      let facts : text_facts p s (or_root path) ≡ fs = cc r2 in
      sym value ∙ ap str (unreported_text p s (or_root path) (facts ∙ h))
  unreported p path (arr xs) w fs t t' e h =
      let (t1, time, r) = after-some (check_redaction_deadline t) _ ((w, fs), t') e in
      let (q, items, r2) =
        after-some (items_with_metadata p (or_root path) 0 xs t1) _ ((w, fs), t') r in
      let value : arr q.0.0 ≡ w = cc r2 in
      let facts : q.0.1 ≡ fs = cc r2 in
      sym value
      ∙ ap arr (unreported_items p (or_root path) 0 xs q.0.0 q.0.1 t1 q.1 items (facts ∙ h))
  unreported p path (obj gs) w fs t t' e h =
      let (t1, time, r) = after-some (check_redaction_deadline t) _ ((w, fs), t') e in
      let (q, fields, r2) =
        after-some (fields_with_metadata p (or_root path) gs t1) _ ((w, fs), t') r in
      let value : obj q.0.0 ≡ w = cc r2 in
      let facts : q.0.1 ≡ fs = cc r2 in
      sym value
      ∙ ap obj (unreported_fields p (or_root path) gs q.0.0 q.0.1 t1 q.1 fields (facts ∙ h))

  unreported_items :
      (p : Patterns) (path : Text) (i : ℕ) (xs ys : Items) (fs : List Fact) (t t' : Time)
      → items_with_metadata p path i xs t ≡ some ((ys, fs), t')
      → fs ≡ []
      → ys ≡ xs
  unreported_items p path i no_items ys fs t t' e h = cc e
  unreported_items p path i (item x xs) ys fs t t' e h =
      let (a, first, r) =
        after-some (redact_with_metadata p (item_path p path i) x t) _ ((ys, fs), t') e in
      let (t1, time, r1) = after-some (check_redaction_deadline a.1) _ ((ys, fs), t') r in
      let (q, rest, r2) =
        after-some (items_with_metadata p path (i + 1) xs t1) _ ((ys, fs), t') r1 in
      let value : item a.0.0 q.0.0 ≡ ys = cc r2 in
      let facts : a.0.1 ++ q.0.1 ≡ fs = cc r2 in
      let (here, there) = nothing_before a.0.1 q.0.1 (facts ∙ h) in
      sym value
      ∙ rw
          (
            unreported p (item_path p path i) x a.0.0 a.0.1 t a.1 first here,
            unreported_items p path (i + 1) xs q.0.0 q.0.1 t1 q.1 rest there,
          )
          refl

  unreported_fields :
      (p : Patterns) (path : Text) (gs hs : Fields) (fs : List Fact) (t t' : Time)
      → fields_with_metadata p path gs t ≡ some ((hs, fs), t')
      → fs ≡ []
      → hs ≡ gs
  unreported_fields p path no_fields hs fs t t' e h = cc e
  unreported_fields p path (field k v gs) hs fs t t' e h =
      let fact : Fact = record {
        kind = sensitive_key;
        path = child_path path k;
        hash = p.hash v;
      } in
      let (a, first, r) =
        after-some
          (if is_sensitive_key p k
            then some ((str redacted_mark, fact ∷ []), t)
            else redact_with_metadata p (child_path path k) v t)
          _ ((hs, fs), t') e in
      let (t1, time, r1) = after-some (check_redaction_deadline a.1) _ ((hs, fs), t') r in
      let (q, rest, r2) = after-some (fields_with_metadata p path gs t1) _ ((hs, fs), t') r1 in
      let value : field k a.0.0 q.0.0 ≡ hs = cc r2 in
      let facts : a.0.1 ++ q.0.1 ≡ fs = cc r2 in
      let (here, there) = nothing_before a.0.1 q.0.1 (facts ∙ h) in
      elim (Bool-cases (is_sensitive_key p k)) [
        | inl secret ↦ absurd (reported (str redacted_mark) fact t a (rw secret at first) here)
        | inr open_key ↦
            let redacted : redact_with_metadata p (child_path path k) v t ≡ some a =
              rw open_key at first in
            sym value
            ∙ rw
                (
                  unreported p (child_path path k) v a.0.0 a.0.1 t a.1 redacted here,
                  unreported_fields p path gs q.0.0 q.0.1 t1 q.1 rest there,
                )
                refl
      ]

-- Whatever is redacted within the deadline: in the result each sensitive key, at any depth, has
-- the mark, and each other text is one that `redact_text` has returned; and where no fact is
-- reported, the result is the value.
pub redact_with_metadata_lem :
    (p : Patterns) (path : Text) (v w : Value) (fs : List Fact) (t t' : Time)
    → redact_with_metadata p path v t ≡ some ((w, fs), t')
    → IsClean p w × (fs ≡ [] → w ≡ v)
redact_with_metadata_lem p path v w fs t t' e = (
  redact-IsClean p v w t t' (sym (redact_with_metadata-redact p path v t) ∙ ap drop_facts e),
  unreported p path v w fs t t' e,
)

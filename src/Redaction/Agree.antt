-- ===== src/Redaction/Agree.antt =====
-- `redact_with_metadata` redacts as `redact` does.
use mneme_universal_context.Prelude.{
  ℕ, ◌+◌, ◌≡◌, inl, inr, refl, ap, ◌∙◌, Option, none, some, List, ◌++◌, Bool-cases, Option-cases,
}
use mneme_universal_context.Prelude.Text.{Text}
use mneme_universal_context.Redaction.{
  Value, other, str, arr, obj, Items, no_items, item, Fields, no_fields, field, Patterns,
  is_sensitive_key, Time, check_redaction_deadline, after, redact, redact_items, redact_fields,
  Fact, or_root, item_path, child_path, redact_with_metadata, items_with_metadata,
  fields_with_metadata,
}

-- A result without its facts.
abbrev pub drop_facts : {A : Type 0} → Option ((A × List Fact) × Time) → Option (A × Time)
drop_facts none = none
drop_facts (some r) = some (r.0.0, r.1)

drop-wrap :
    {A B : Type 0} (f : A → B) (m : Option ((A × List Fact) × Time))
    → drop_facts (after m (λ r. some ((f r.0.0, r.0.1), r.1)))
      ≡ after (drop_facts m) (λ r. some (f r.0, r.1))
drop-wrap f none = refl
drop-wrap f (some r) = refl

-- A value and what follows it.
drop-next :
    {B : Type 0} (k : Value → B → B) (m : Option ((Value × List Fact) × Time))
    (rest : Time → Option ((B × List Fact) × Time)) (rest' : Time → Option (B × Time))
    → ((t : Time) → drop_facts (rest t) ≡ rest' t)
    → drop_facts (
        after m (λ r.
          after
            (check_redaction_deadline r.1)
            (λ t1. after (rest t1) (λ q. some ((k r.0.0 q.0.0, r.0.1 ++ q.0.1), q.1)))))
      ≡ after (drop_facts m) (λ r.
        after (check_redaction_deadline r.1) (λ t1. after (rest' t1) (λ q. some (k r.0 q.0, q.1))))
drop-next k none rest rest' h = refl
drop-next k (some r) rest rest' h = elim (Option-cases (check_redaction_deadline r.1)) [
  | inl late ↦ rw late refl
  | inr (t1, time) ↦ elim (Option-cases (rest t1)) [
    | inl late ↦
        let same : none ≡ rest' t1 = rw late at (h t1) in
        rw (time, late) (ap (λ m. after m (λ q. some (k r.0.0 q.0, q.1))) same)
    | inr (q, found) ↦
        let same : some (q.0.0, q.1) ≡ rest' t1 = rw found at (h t1) in
        rw (time, found) (ap (λ m. after m (λ q. some (k r.0.0 q.0, q.1))) same)
  ]
]

mutual
  unfolding redact redact_with_metadata

  metadata_agrees :
      (p : Patterns) (path : Text) (v : Value) (t : Time)
      → drop_facts (redact_with_metadata p path v t) ≡ redact p v t
  metadata_agrees p path (other n) t = elim (Option-cases (check_redaction_deadline t)) [
    | inl late ↦ rw late refl
    | inr (t1, time) ↦ rw time refl
  ]
  metadata_agrees p path (str s) t = elim (Option-cases (check_redaction_deadline t)) [
    | inl late ↦ rw late refl
    | inr (t1, time) ↦ elim (Option-cases (check_redaction_deadline t1)) [
      | inl late ↦ rw (time, late) refl
      | inr (t2, time2) ↦ rw (time, time2) refl
    ]
  ]
  metadata_agrees p path (arr xs) t = elim (Option-cases (check_redaction_deadline t)) [
    | inl late ↦ rw late refl
    | inr (t1, time) ↦ rw time (
        drop-wrap arr (items_with_metadata p (or_root path) 0 xs t1)
        ∙ ap (λ m. after m (λ r. some (arr r.0, r.1))) (items_agree p (or_root path) 0 xs t1))
  ]
  metadata_agrees p path (obj fs) t = elim (Option-cases (check_redaction_deadline t)) [
    | inl late ↦ rw late refl
    | inr (t1, time) ↦ rw time (
        drop-wrap obj (fields_with_metadata p (or_root path) fs t1)
        ∙ ap (λ m. after m (λ r. some (obj r.0, r.1))) (fields_agree p (or_root path) fs t1))
  ]

  items_agree :
      (p : Patterns) (path : Text) (i : ℕ) (xs : Items) (t : Time)
      → drop_facts (items_with_metadata p path i xs t) ≡ redact_items p xs t
  items_agree p path i no_items t = refl
  items_agree p path i (item x xs) t =
      drop-next item (redact_with_metadata p (item_path p path i) x t)
        (items_with_metadata p path (i + 1) xs) (redact_items p xs)
        (λ t1. items_agree p path (i + 1) xs t1)
      ∙ ap
          (λ (m : Option (Value × Time)). after m (λ r.
            after (check_redaction_deadline r.1)
              (λ t1. after (redact_items p xs t1) (λ q. some (item r.0 q.0, q.1)))))
          (metadata_agrees p (item_path p path i) x t)

  fields_agree :
      (p : Patterns) (path : Text) (fs : Fields) (t : Time)
      → drop_facts (fields_with_metadata p path fs t) ≡ redact_fields p fs t
  fields_agree p path no_fields t = refl
  fields_agree p path (field k v fs) t =
      drop-next (λ w gs. field k w gs) _ (fields_with_metadata p path fs) (redact_fields p fs)
        (λ t1. fields_agree p path fs t1)
      ∙ ap
          (λ (m : Option (Value × Time)). after m (λ r.
            after (check_redaction_deadline r.1)
              (λ t1. after (redact_fields p fs t1) (λ q. some (field k r.0 q.0, q.1)))))
          (elim (Bool-cases (is_sensitive_key p k)) [
            | inl secret ↦ rw secret refl
            | inr open_key ↦ rw open_key (metadata_agrees p (child_path path k) v t)
          ])

-- Whatever deadline and path are given, `redact_with_metadata` returns the value that `redact`
-- returns and takes as many checks of the deadline, and the one is late where the other is.
pub redact_with_metadata-redact :
    (p : Patterns) (path : Text) (v : Value) (t : Time)
    → drop_facts (redact_with_metadata p path v t) ≡ redact p v t
redact_with_metadata-redact p path v t = metadata_agrees p path v t

-- ===== src/Redaction/Tests.antt =====
-- Tests of redaction.
use mneme_universal_context.Prelude.{◌≡◌, refl, some, List, [], ◌∷◌, ◌++◌, if◌then◌else◌}
use mneme_universal_context.Prelude.Text.{codes, same_text, strip, rstrip}
use mneme_universal_context.Redaction.{
  Value, other, str, arr, obj, no_items, item, no_fields, field, Patterns, Fact, sensitive_key,
  secret_pattern, redacted_mark, is_sensitive_key, redact, redact_with_metadata,
}
use mneme_universal_context.Redaction.Agree.{drop_facts, redact_with_metadata-redact}
use mneme_universal_context.Redaction.Clean.{IsClean}
use mneme_universal_context.Redaction.Reported.{redact_with_metadata_lem}

abbrev patterns : Patterns
patterns = record {
  redact_text = λ s. if same_text s (codes "sk-123456") then redacted_mark else s;
  lower = λ s. s;
  index_text = λ n. n ∷ [];
  hash = λ v. 7;
}

abbrev value : Value
value = obj (
    field (codes "x-api-key") (other 1) (
      field (codes "notes")
        (arr (item (str (codes "sk-123456")) (item (str (codes "fine")) no_items))) no_fields))

abbrev redacted : Value
redacted = obj (
    field (codes "x-api-key") (str redacted_mark) (
      field (codes "notes") (arr (item (str redacted_mark) (item (str (codes "fine")) no_items)))
        no_fields))

redacts : redact patterns value (some 20) ≡ some (redacted, some 10)
unfolding redact is_sensitive_key strip rstrip
redacts = refl

redact_with_metadata-redact_example :
    drop_facts (redact_with_metadata patterns [] value (some 20)) ≡ redact patterns value (some 20)
redact_with_metadata-redact_example = redact_with_metadata-redact patterns [] value (some 20)

abbrev facts : List Fact
facts =
    record { kind = sensitive_key; path = codes "x-api-key"; hash = 7 }
    ∷ record { kind = secret_pattern; path = codes "notes[" ++ (0 ∷ []) ++ codes "]"; hash = 7 }
    ∷ []

redact_with_metadata_lem_example : IsClean patterns redacted × (facts ≡ [] → redacted ≡ value)
unfolding redact_with_metadata is_sensitive_key strip rstrip
redact_with_metadata_lem_example =
    redact_with_metadata_lem patterns [] value redacted facts (some 20) (some 10) refl

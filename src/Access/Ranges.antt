-- ===== src/Access/Ranges.antt =====
-- `parse_blob_range` of mneme_service/app.py. A header is Latin-1 text, so its code points are
-- below 256, where `str.isdigit` holds of the ten digits and of the superscripts 1, 2 and 3,
-- which `int` refuses with a ValueError. Python's limit on the digits that `int` reads is not
-- modelled.
use mneme_universal_context.Prelude.{
  ℕ, ◌+◌, ◌-◌, ◌*◌, ◌≤◌, ◌<◌, min, ◌≡◌, inl, inr, refl, Bool, true, false, not, ◌&&◌, ◌||◌, Option,
  none, some, [], ◌∷◌, ◌++◌, arith, ltb, leb, ◌==◌, if◌then◌else◌, Bool-cases,
}
use mneme_universal_context.Prelude.Text.{Text, codes, is_space, strip}

pub data RangeError : Type 0 where
  bad_request range_not_satisfiable value_error : RangeError

-- No range, a range of bytes from the first to the last, or an error.
pub data ByteRange : Type 0 where
  whole : ByteRange
  part : ℕ → ℕ → ByteRange
  failed : RangeError → ByteRange

abbrev pub is_decimal : ℕ → Bool
is_decimal c = leb 48 c && leb c 57

abbrev pub is_digit : ℕ → Bool
is_digit c = is_decimal c || c == 178 || c == 179 || c == 185

abbrev pub all_chars : (ℕ → Bool) → Text → Bool
all_chars p [] = true
all_chars p (c ∷ s) = p c && all_chars p s

abbrev pub is_empty_text : Text → Bool
is_empty_text [] = true
is_empty_text (c ∷ s) = false

-- `text.isdigit()` is false of the empty text.
abbrev pub isdigit : Text → Bool
isdigit s = not (is_empty_text s) && all_chars is_digit s

-- `int(text)` of a text of digits; `none` is a ValueError.
abbrev pub int_from : ℕ → Text → Option ℕ
int_from n [] = some n
int_from n (c ∷ s) =
    let rest = int_from (n * 10 + (c - 48)) s in if is_decimal c then rest else none

-- `value.removeprefix(prefix)`, or `none` where the text does not start with it.
abbrev pub strip_prefix : Text → Text → Option Text
strip_prefix [] s = some s
strip_prefix (p ∷ ps) [] = none
strip_prefix (p ∷ ps) (c ∷ s) = let rest = strip_prefix ps s in if p == c then rest else none

-- `spec.partition("-")`, or `none` where there is no separator.
abbrev pub partition_dash : Text → Option (Text × Text)
partition_dash [] = none
partition_dash (c ∷ s) =
    let rest = partition_dash s in
    if c == 45 then some ([], s) else elim rest [ none ↦ none | some (a, b) ↦ some (c ∷ a, b) ]

abbrev pub bounded : ℕ → Option ℕ → Option ℕ → ByteRange
bounded size none e = failed value_error
bounded size (some s) none = failed value_error
bounded size (some s) (some e) =
    if leb size s || ltb e s then failed range_not_satisfiable else part s (min e (size - 1))

abbrev pub parse_parts : ℕ → Option (Text × Text) → ByteRange
parse_parts size none = failed bad_request
parse_parts size (some (s, e)) =
    if not (isdigit s) || (not (is_empty_text e) && not (isdigit e))
    then failed bad_request
    else bounded size (int_from 0 s) (if is_empty_text e then some (size - 1) else int_from 0 e)

abbrev pub parse_spec : ℕ → Option Text → ByteRange
parse_spec size none = failed bad_request
parse_spec size (some spec) =
    if not (all_chars (λ c. not (c == 44)) spec)
    then failed range_not_satisfiable
    else parse_parts size (partition_dash spec)

unfoldable pub parse_blob_range : Option Text → ℕ → ByteRange
parse_blob_range none size = whole
parse_blob_range (some header) size =
    parse_spec size (strip_prefix (codes "bytes=") (strip is_space header))

-- A range that is accepted is not empty and lies within the blob.
bounded_lem :
    (size : ℕ) (s e : Option ℕ) (first last : ℕ)
    → bounded size s e ≡ part first last
    → (first ≤ last) × (last < size)
bounded_lem size none e first last h = cc
bounded_lem size (some s) none first last h = cc
bounded_lem size (some s) (some e) first last h = ground arith

parse_parts_lem :
    (size : ℕ) (p : Option (Text × Text)) (first last : ℕ)
    → parse_parts size p ≡ part first last
    → (first ≤ last) × (last < size)
parse_parts_lem size none first last h = cc
parse_parts_lem size (some (s, e)) first last h =
    elim (Bool-cases (not (isdigit s) || (not (is_empty_text e) && not (isdigit e)))) [
      | inl bad ↦ absurd (ground arith)
      | inr good ↦ bounded_lem size _ _ first last (rw good at h)
    ]

parse_spec_lem :
    (size : ℕ) (o : Option Text) (first last : ℕ)
    → parse_spec size o ≡ part first last
    → (first ≤ last) × (last < size)
parse_spec_lem size none first last h = cc
parse_spec_lem size (some spec) first last h =
    elim (Bool-cases (not (all_chars (λ c. not (c == 44)) spec))) [
      | inl bad ↦ absurd (ground arith)
      | inr good ↦ parse_parts_lem size (partition_dash spec) first last (rw good at h)
    ]

int_from-none : (n : ℕ) (s : Text) → all_chars is_decimal s ≡ false → int_from n s ≡ none
int_from-none n [] h = cc
int_from-none n (c ∷ s) h = ground (arith, int_from-none (n * 10 + (c - 48)) s)

-- An accepted range is not empty and ends within the blob, whatever the header is.
pub parse_blob_range_bounds :
    (header : Option Text) (size first last : ℕ)
    → parse_blob_range header size ≡ part first last
    → (first ≤ last) × (last < size)
unfolding parse_blob_range
parse_blob_range_bounds none size first last h = cc
parse_blob_range_bounds (some header) size first last h =
    parse_spec_lem size (strip_prefix (codes "bytes=") (strip is_space header)) first last h

no_comma :
    (s : Text) → all_chars is_digit s ≡ true → all_chars (λ c. not (c == 44)) (s ++ 45 ∷ []) ≡ true
no_comma [] h = refl
no_comma (c ∷ s) h = ground (arith, no_comma s)

partition_digits :
    (s : Text) → all_chars is_digit s ≡ true → partition_dash (s ++ 45 ∷ []) ≡ some (s, [])
partition_digits [] h = refl
partition_digits (c ∷ s) h = ground (arith, partition_digits s)

and_parts : (a b : Bool) → (a && b) ≡ true → (a ≡ true) × (b ≡ true)
and_parts a b h = (ground arith, ground arith)

-- A range header "bytes=S-" whose start S is a text of digits, one of them a superscript, is not
-- refused as malformed: it raises a ValueError.
pub parse_blob_range_superscript :
    (header s : Text) (size : ℕ)
    → strip is_space header ≡ codes "bytes=" ++ s ++ 45 ∷ []
    → isdigit s ≡ true
    → all_chars is_decimal s ≡ false
    → parse_blob_range (some header) size ≡ failed value_error
unfolding parse_blob_range
parse_blob_range_superscript header s size e d n =
    let digits = (and_parts (not (is_empty_text s)) (all_chars is_digit s) d).1 in
    rw (e, no_comma s digits, partition_digits s digits, d, int_from-none 0 s n) refl

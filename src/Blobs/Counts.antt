-- ===== src/Blobs/Counts.antt =====
-- The reference counts of the blobs are the numbers of their references, whatever is done.
use mneme_universal_context.Prelude.{
  ℕ, ◌+◌, ◌≡◌, inl, inr, refl, ◌∙◌, Bool, true, false, not, ◌||◌, List, [], ◌∷◌, ◌++◌, arith, ◌==◌,
  if◌then◌else◌, Bool-cases, filter, any, All,
}
use mneme_universal_context.Blobs.{ids_of, Blob, Reference, Tables, is_reference, update_ref_count}

-- How many references name the blob.
abbrev pub refs_to : ℕ → List Reference → ℕ
refs_to k [] = 0
refs_to k (r ∷ rs) = (if r.blob_id == k then 1 else 0) + refs_to k rs

abbrev pub Counts : List Reference → Blob → Type 0
Counts rs b = b.ref_count ≡ refs_to b.blob_id rs

abbrev pub IsOf : Blob → Reference → Type 0
IsOf b r = r.blob_id ≡ b.blob_id → r.session_id ≡ b.session_id

-- The primary key of the references.
abbrev pub IsUnique : List Reference → Type 0
IsUnique [] = Unit
IsUnique (r ∷ rs) = (any (is_reference r.blob_id r.session_id r.event_id) rs ≡ false) × IsUnique rs

pub record IsValid (t : Tables) : Type 0 where
  -- each count is the number of references
  pub counted : All (Counts t.blob_references) t.blobs
  -- a reference is of the session that its blob is of
  pub scoped : All (λ b. All (IsOf b) t.blob_references) t.blobs
  pub unique : IsUnique t.blob_references

module _ {ℓ} {A : Type ℓ} where
  pub All-filter {κ} :
      (P : A → Type κ) (p : A → Bool) (xs : List A) → All P xs → All P (filter p xs)
  All-filter P p [] h = tt
  All-filter P p (x ∷ xs) h = elim (Bool-cases (p x)) [
    | inl e ↦ rw e (h.0, All-filter P p xs h.1)
    | inr e ↦ rw e (All-filter P p xs h.1)
  ]

  pub All-filter_with {κ ν} :
      (P : A → Type κ) (Q : A → Type ν) (p : A → Bool) (xs : List A)
      → ((x : A) → p x ≡ true → P x → Q x)
      → All P xs
      → All Q (filter p xs)
  All-filter_with P Q p [] f h = tt
  All-filter_with P Q p (x ∷ xs) f h = elim (Bool-cases (p x)) [
    | inl e ↦ rw e (f x e h.0, All-filter_with P Q p xs f h.1)
    | inr e ↦ rw e (All-filter_with P Q p xs f h.1)
  ]

  pub All-both {κ ν} :
      (P : A → Type κ) (Q : A → Type ν) (xs : List A)
      → All P xs
      → All Q xs
      → All (λ x. P x × Q x) xs
  All-both P Q [] h k = tt
  All-both P Q (x ∷ xs) h k = ((h.0, k.0), All-both P Q xs h.1 k.1)

  pub any-filter-false :
      (q p : A → Bool) (xs : List A) → any q xs ≡ false → any q (filter p xs) ≡ false
  any-filter-false q p [] h = refl
  any-filter-false q p (x ∷ xs) h = ground (arith, any-filter-false q p xs)

  pub filter-eq_of_none :
      (q : A → Bool) (xs : List A) → any q xs ≡ false → filter (λ x. not (q x)) xs ≡ xs
  filter-eq_of_none q [] h = refl
  filter-eq_of_none q (x ∷ xs) h = ground (arith, filter-eq_of_none q xs)

pub IsUnique-filter :
    (p : Reference → Bool) (rs : List Reference) → IsUnique rs → IsUnique (filter p rs)
IsUnique-filter p [] h = tt
IsUnique-filter p (r ∷ rs) h = elim (Bool-cases (p r)) [
  | inl e ↦ rw e (
    any-filter-false (is_reference r.blob_id r.session_id r.event_id) p rs h.0,
    IsUnique-filter p rs h.1,
  )
  | inr e ↦ rw e (IsUnique-filter p rs h.1)
]

pub refs_to-snoc :
    (k : ℕ) (rs : List Reference) (r : Reference)
    → refs_to k (rs ++ r ∷ []) ≡ refs_to k rs + (if r.blob_id == k then 1 else 0)
refs_to-snoc k [] r = omega arith
refs_to-snoc k (x ∷ rs) r = omega (arith, refs_to-snoc k rs r)

any-append_one :
    (q : Reference → Bool) (rs : List Reference) (r : Reference)
    → any q (rs ++ r ∷ []) ≡ (any q rs || q r)
any-append_one q [] r = ground arith
any-append_one q (x ∷ rs) r = ground (arith, any-append_one q rs r)

pub IsUnique-snoc :
    (rs : List Reference) (r : Reference)
    → any (is_reference r.blob_id r.session_id r.event_id) rs ≡ false
    → IsUnique rs
    → IsUnique (rs ++ r ∷ [])
IsUnique-snoc [] r h u = (refl, tt)
IsUnique-snoc (x ∷ rs) r h u = (
  any-append_one (is_reference x.blob_id x.session_id x.event_id) rs r ∙ ground arith,
  IsUnique-snoc rs r (ground arith) u.1,
)

pub All-update_ref_count {κ ν} :
    (P : Blob → Type κ) (Q : Blob → Type ν) (k : ℕ) (f : ℕ → ℕ) (bs : List Blob)
    → ((b : Blob) → P b → Q (if b.blob_id == k then record b { ref_count = f b.ref_count } else b))
    → All P bs
    → All Q (update_ref_count k f bs)
All-update_ref_count P Q k f [] step h = tt
All-update_ref_count P Q k f (b ∷ bs) step h =
    (step b h.0, All-update_ref_count P Q k f bs step h.1)

pub ids_of-counted :
    (k : ℕ) (f : ℕ → ℕ) (bs : List Blob) → ids_of (update_ref_count k f bs) ≡ ids_of bs
ids_of-counted k f [] = refl
ids_of-counted k f (b ∷ bs) = elim (Bool-cases (b.blob_id == k)) [
  | inl e ↦ rw (e, ids_of-counted k f bs) refl
  | inr e ↦ rw (e, ids_of-counted k f bs) refl
]

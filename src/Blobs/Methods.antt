-- ===== src/Blobs/Methods.antt =====
-- Every method that writes the tables keeps them valid.
use mneme_universal_context.Prelude.{
  ℕ, ◌+◌, ◌-◌, ◌≡◌, inl, inr, refl, sym, ◌∙◌, false, not, ◌&&◌, List, [], ◌∷◌, ◌++◌, arith, ltb,
  ◌==◌, if◌then◌else◌, Bool-cases, Option-cases, filter, any, All, All-append,
}
use mneme_universal_context.Blobs.{
  Blob, Reference, Tables, is_reference, put_blob, attach_blob_reference, detach_blob_reference,
  delete_blob, find_blob, delete_session_blobs,
}
use mneme_universal_context.Blobs.Counts.{
  refs_to, Counts, IsOf, IsUnique, IsValid, All-filter, All-filter_with, filter-eq_of_none,
  IsUnique-filter, refs_to-snoc, IsUnique-snoc, All-update_ref_count, All-both,
}

-- The session of the blob, if it is there.
abbrev pub OfSession : ℕ → ℕ → Blob → Type 0
OfSession blob session b = b.blob_id ≡ blob → b.session_id ≡ session

module _ (blob session event : ℕ) where
  refs_to-remove :
      (k : ℕ) (rs : List Reference)
      → IsUnique rs
      → refs_to k (filter (λ r. not (is_reference blob session event r)) rs)
          + (if any (is_reference blob session event) rs && blob == k then 1 else 0)
        ≡ refs_to k rs
  refs_to-remove k [] u = omega arith
  refs_to-remove k (r ∷ rs) u = elim (Bool-cases (is_reference blob session event r)) [
    | inl e ↦
        let eb : blob ≡ r.blob_id = ground arith in
        let es : session ≡ r.session_id = ground arith in
        let ee : event ≡ r.event_id = ground arith in
        let gone : any (is_reference blob session event) rs ≡ false = rw (eb, es, ee) u.0 in
        ground (arith, filter-eq_of_none (is_reference blob session event) rs gone)
    | inr e ↦ ground (arith, refs_to-remove k rs u.1)
  ]

  abbrev new_reference : Reference
  new_reference = record { blob_id = blob; session_id = session; event_id = event }

  scoped_new :
      (rs : List Reference) (b : Blob)
      → All (IsOf b) rs × OfSession blob session b
      → All
          (IsOf (if b.blob_id == blob then record b { ref_count = b.ref_count + 1 } else b))
          (rs ++ new_reference ∷ [])
  scoped_new rs b (h, own) = elim (Bool-cases (b.blob_id == blob)) [
    | inl e ↦
        rw e (All-append (IsOf b) rs (new_reference ∷ []) h (λ p. sym (own (ground arith)), tt))
    | inr e ↦
        rw e (All-append (IsOf b) rs (new_reference ∷ []) h (λ p. sym (own (ground arith)), tt))
  ]

  -- Adding a reference keeps the tables valid, if the blob is of the reference's session.
  pub attach_blob_reference-IsValid :
      (t : Tables)
      → All (OfSession blob session) t.blobs
      → IsValid t
      → IsValid (attach_blob_reference blob session event t).0
  unfolding attach_blob_reference
  attach_blob_reference-IsValid t own v =
      elim (Bool-cases (any (is_reference blob session event) t.blob_references)) [
        | inl old ↦ rw old v
        | inr new ↦ rw new (record {
          counted =
              All-update_ref_count (Counts t.blob_references)
                (Counts (t.blob_references ++ new_reference ∷ [])) blob (λ n. n + 1) t.blobs
                (λ b c. ground (arith, refs_to-snoc b.blob_id t.blob_references new_reference))
                v.counted;
          scoped =
              All-update_ref_count (λ b. All (IsOf b) t.blob_references × OfSession blob session b)
                (λ b. All (IsOf b) (t.blob_references ++ new_reference ∷ [])) blob (λ n. n + 1)
                t.blobs (scoped_new t.blob_references)
                (All-both (λ b. All (IsOf b) t.blob_references) (OfSession blob session) t.blobs
                  v.scoped own);
          unique = IsUnique-snoc t.blob_references new_reference new v.unique;
        })
      ]

  -- Removing a reference keeps the tables valid, whether the reference is there or not.
  pub detach_blob_reference-IsValid :
      (t : Tables) → IsValid t → IsValid (detach_blob_reference blob session event t).0
  unfolding detach_blob_reference
  detach_blob_reference-IsValid t v =
      elim (Bool-cases (any (is_reference blob session event) t.blob_references)) [
        | inl found ↦
            let left = filter (λ r. not (is_reference blob session event r)) t.blob_references in
            rw found (record {
              counted =
                  All-update_ref_count (Counts t.blob_references) (Counts left) blob (λ n. n - 1)
                    t.blobs
                    (λ b c. ground (arith, refs_to-remove b.blob_id t.blob_references v.unique))
                    v.counted;
              scoped =
                  All-update_ref_count (λ b. All (IsOf b) t.blob_references)
                    (λ b. All (IsOf b) left) blob (λ n. n - 1) t.blobs
                    (scoped_left t.blob_references) v.scoped;
              unique =
                  IsUnique-filter (λ r. not (is_reference blob session event r)) t.blob_references
                    v.unique;
            })
        | inr missing ↦ rw missing v
      ]
    where
      scoped_left :
          (rs : List Reference) (b : Blob)
          → All (IsOf b) rs
          → All
              (IsOf (if b.blob_id == blob then record b { ref_count = b.ref_count - 1 } else b))
              (filter (λ r. not (is_reference blob session event r)) rs)
      scoped_left rs b h = elim (Bool-cases (b.blob_id == blob)) [
        | inl e ↦ rw e (All-filter (IsOf b) (λ r. not (is_reference blob session event r)) rs h)
        | inr e ↦ rw e (All-filter (IsOf b) (λ r. not (is_reference blob session event r)) rs h)
      ]

-- A new blob, under an identifier that no reference names, keeps the tables valid.
pub put_blob-IsValid :
    (blob session project : ℕ) (t : Tables)
    → refs_to blob t.blob_references ≡ 0
    → IsValid t
    → IsValid (put_blob blob session project t)
unfolding put_blob
put_blob-IsValid blob session project t fresh v = record {
  counted = All-append (Counts t.blob_references) t.blobs _ v.counted (sym fresh, tt);
  scoped =
      All-append (λ b. All (IsOf b) t.blob_references) t.blobs _ v.scoped
        (unnamed t.blob_references fresh, tt);
  unique = v.unique;
}
  where
    unnamed :
        (rs : List Reference)
        → refs_to blob rs ≡ 0
        → All (λ r. r.blob_id ≡ blob → r.session_id ≡ session) rs
    unnamed [] h = tt
    unnamed (r ∷ rs) h = (λ e. absurd (ground arith), unnamed rs (omega arith))

-- Deleting a blob keeps the tables valid.
pub delete_blob-IsValid : (blob : ℕ) (t : Tables) → IsValid t → IsValid (delete_blob blob t).0
unfolding delete_blob
delete_blob-IsValid blob t v = elim (Option-cases (find_blob blob t.blobs)) [
  | inl e ↦ rw (e, delete_blob) v
  | inr (b, e) ↦ elim (Bool-cases (ltb 0 b.ref_count)) [
    | inl used ↦ rw (e, delete_blob) (rw used v)
    | inr free ↦
        rw (e, delete_blob, free)
          (record {
            counted =
                All-filter (Counts t.blob_references) (λ (x : Blob). not (x.blob_id == blob))
                  t.blobs v.counted;
            scoped =
                All-filter (λ b. All (IsOf b) t.blob_references)
                  (λ (x : Blob). not (x.blob_id == blob)) t.blobs v.scoped;
            unique = v.unique;
          })
  ]
]

-- The references of one session say nothing of the blobs of another.
refs_to-other_session :
    (session : ℕ) (b : Blob) (rs : List Reference)
    → All (IsOf b) rs
    → (b.session_id == session) ≡ false
    → refs_to b.blob_id (filter (λ (r : Reference). not (r.session_id == session)) rs)
      ≡ refs_to b.blob_id rs
refs_to-other_session session b [] h e = refl
refs_to-other_session session b (r ∷ rs) (h, hs) e = elim (Bool-cases (r.blob_id == b.blob_id)) [
  | inl same ↦
      let s : r.session_id ≡ b.session_id = h (ground arith) in
      ground (arith, refs_to-other_session session b rs hs e)
  | inr other ↦ ground (arith, refs_to-other_session session b rs hs e)
]

-- Deleting the blobs and the references of a session keeps the tables valid.
pub delete_session_blobs-IsValid :
    (session : ℕ) (t : Tables) → IsValid t → IsValid (delete_session_blobs session t)
unfolding delete_session_blobs
delete_session_blobs-IsValid session t v = record {
  counted =
      All-filter_with (λ b. Counts t.blob_references b × All (IsOf b) t.blob_references)
        (Counts (filter (λ (r : Reference). not (r.session_id == session)) t.blob_references))
        (λ (b : Blob). not (b.session_id == session)) t.blobs
        (λ b e h. h.0 ∙ sym (refs_to-other_session session b t.blob_references h.1 (ground arith)))
        (All-both (Counts t.blob_references) (λ b. All (IsOf b) t.blob_references) t.blobs v.counted
          v.scoped);
  scoped =
      All-filter_with (λ b. All (IsOf b) t.blob_references)
        (λ b.
          All (IsOf b)
            (filter (λ (r : Reference). not (r.session_id == session)) t.blob_references))
        (λ (b : Blob). not (b.session_id == session)) t.blobs
        (λ b e h.
          All-filter (IsOf b) (λ (r : Reference). not (r.session_id == session)) t.blob_references
            h)
        v.scoped;
  unique =
      IsUnique-filter (λ (r : Reference). not (r.session_id == session)) t.blob_references v.unique;
}

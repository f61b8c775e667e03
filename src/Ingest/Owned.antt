-- ===== src/Ingest/Owned.antt =====
-- The blobs that the events of a batch refer to, in `check_content` and `attach_refs`.
use mneme_universal_context.Prelude.{
  ℕ, ◌+◌, ◌≡◌, inl, inr, refl, ◌∙◌, true, false, ◌||◌, some, List, [], ◌∷◌, arith, ltb, ◌==◌,
  Bool-cases, Option-cases, any, All, contains, IsDistinct,
}
use mneme_universal_context.Access.Principal.{Principal, can_access_project, ok}
use mneme_universal_context.Blobs.{
  Blob, Tables, find_blob, attach_blob_reference, is_reference, ids_of,
}
use mneme_universal_context.Blobs.Counts.{IsValid, All-update_ref_count, ids_of-counted}
use mneme_universal_context.Blobs.Methods.{OfSession, attach_blob_reference-IsValid}
use mneme_universal_context.Ingest.{
  BytesRef, Content, inline, bytes_ref, Services, same_described, check_blob, check_content,
  validate_bytes_ref_content,
}
use mneme_universal_context.Ingest.Commit.{attach_refs}

attached-owned :
    (k j session s e : ℕ) (t : Tables)
    → All (OfSession k session) t.blobs
    → All (OfSession k session) (attach_blob_reference j s e t).0.blobs
unfolding attach_blob_reference
attached-owned k j session s e t own =
    elim (Bool-cases (any (is_reference j s e) t.blob_references)) [
      | inl old ↦ rw old own
      | inr new ↦ rw new (
          All-update_ref_count (OfSession k session) (OfSession k session) j (λ n. n + 1) t.blobs
            (λ b h. elim (Bool-cases (b.blob_id == j)) [ inl e1 ↦ rw e1 h | inr e1 ↦ rw e1 h ]) own)
    ]

All-attached-owned :
    (ks : List ℕ) (j session s e : ℕ) (t : Tables)
    → All (λ k. All (OfSession k session) t.blobs) ks
    → All (λ k. All (OfSession k session) (attach_blob_reference j s e t).0.blobs) ks
All-attached-owned [] j session s e t h = tt
All-attached-owned (k ∷ ks) j session s e t h =
    (attached-owned k j session s e t h.0, All-attached-owned ks j session s e t h.1)

-- What holds of blobs and is kept when a reference is attached is kept when all are.
pub attach_refs-IsValid :
    (session e : ℕ) (bs : List ℕ) (t : Tables)
    → All (λ k. All (OfSession k session) t.blobs) bs
    → IsValid t
    → IsValid (attach_refs session e bs t)
attach_refs-IsValid session e [] t own v = v
attach_refs-IsValid session e (b ∷ bs) t own v =
    attach_refs-IsValid session e bs (attach_blob_reference b session e t).0
      (All-attached-owned bs b session session e t own.1)
      (attach_blob_reference-IsValid b session e t own.0 v)

pub attach_refs-owned :
    (session e : ℕ) (bs ks : List ℕ) (t : Tables)
    → All (λ k. All (OfSession k session) t.blobs) ks
    → All (λ k. All (OfSession k session) (attach_refs session e bs t).blobs) ks
attach_refs-owned session e [] ks t own = own
attach_refs-owned session e (b ∷ bs) ks t own =
    attach_refs-owned session e bs ks (attach_blob_reference b session e t).0
      (All-attached-owned ks b session session e t own)

pub attach_refs-ids :
    (session e : ℕ) (bs : List ℕ) (t : Tables)
    → ids_of (attach_refs session e bs t).blobs ≡ ids_of t.blobs
unfolding attach_blob_reference
attach_refs-ids session e [] t = refl
attach_refs-ids session e (b ∷ bs) t =
    attach_refs-ids session e bs (attach_blob_reference b session e t).0
    ∙ elim (Bool-cases (any (is_reference b session e) t.blob_references)) [
      | inl old ↦ rw old refl
      | inr new ↦ rw new (ids_of-counted b (λ n. n + 1) t.blobs)
    ]

-- A blob that is not there is of every session.
pub absent-owned :
    (k session : ℕ) (bs : List Blob) → contains k (ids_of bs) ≡ false → All (OfSession k session) bs
absent-owned k session [] h = tt
absent-owned k session (b ∷ bs) h = (
  λ same. let self : (k == b.blob_id) ≡ true = ground arith in cc (rw self at h),
  absent-owned k session bs (ground arith),
)

found-owned :
    (k session : ℕ) (b : Blob) (bs : List Blob)
    → IsDistinct (ids_of bs)
    → find_blob k bs ≡ some b
    → b.session_id ≡ session
    → All (OfSession k session) bs
found-owned k session b [] d e own = cc
found-owned k session b (x ∷ bs) d e own = elim (Bool-cases (x.blob_id == k)) [
  | inl same ↦
      let here : x ≡ b = cc (rw same at e) in
      let same_id : x.blob_id ≡ k = ground arith in
      (λ id. rw here own, absent-owned k session bs (rw⁻¹ same_id d.0))
  | inr other ↦ (
    λ id. let self : (x.blob_id == k) ≡ true = ground arith in cc (self, other),
    found-owned k session b bs d.1 (rw other at e) own,
  )
]

check_blob-owned :
    (sv : Services) (p : Principal) (session : ℕ) (c : BytesRef) (refs : List ℕ) (bs : List Blob)
    → IsDistinct (ids_of bs)
    → check_blob sv p session c (find_blob c.blob_id bs) ≡ ok refs
    → All (λ k. All (OfSession k session) bs) refs
check_blob-owned sv p session c refs bs d e = elim (Option-cases (find_blob c.blob_id bs)) [
  | inl missing ↦ cc (rw missing at e)
  | inr (b, found) ↦ elim (Bool-cases (can_access_project p (some b.project_isolation_key))) [
    | inr denied ↦ cc (rw (found, denied) at e)
    | inl allowed ↦ elim (Bool-cases (b.session_id == session)) [
      | inr other ↦ cc (rw (found, allowed, other) at e)
      | inl own ↦ elim (Bool-cases (same_described c.described (sv.blob_described c.blob_id))) [
        | inr unlike ↦ cc (rw (found, allowed, own, unlike) at e)
        | inl alike ↦
            let refs_eq : c.blob_id ∷ [] ≡ refs = cc (rw (found, allowed, own, alike) at e) in
            rw⁻¹ refs_eq (found-owned c.blob_id session b bs d found (ground arith), tt)
      ]
    ]
  ]
]

pub check_content-owned :
    (sv : Services) (p : Principal) (session : ℕ) (t : Tables) (c : Content) (refs : List ℕ)
    → IsDistinct (ids_of t.blobs)
    → check_content sv p session t c ≡ ok refs
    → All (λ k. All (OfSession k session) t.blobs) refs
unfolding check_content validate_bytes_ref_content
check_content-owned sv p session t (inline size) refs d e =
    elim (Bool-cases (ltb sv.max_event_content_bytes size)) [
      | inl large ↦ cc (rw large at e)
      | inr fits ↦ let refs_eq : [] ≡ refs = cc (rw fits at e) in rw⁻¹ refs_eq tt
    ]
check_content-owned sv p session t (bytes_ref c) refs d e = elim (Bool-cases c.has_server_uri) [
  | inr foreign ↦ cc (rw foreign at e)
  | inl uri ↦ elim (Bool-cases c.storage_owner_is_server) [
    | inr foreign ↦ cc (rw (uri, foreign) at e)
    | inl owner ↦ elim (Bool-cases (c.blob_id == 0 || c.blob_id_has_slash)) [
      | inl bad ↦ cc (rw (uri, owner, bad) at e)
      | inr good ↦ check_blob-owned sv p session c refs t.blobs d (rw (uri, owner, good) at e)
    ]
  ]
]

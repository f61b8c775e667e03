-- ===== src/Ingest/Written.antt =====
-- What `ingest_events` writes, and what it leaves as it was.
use mneme_universal_context.Prelude.{
  ℕ, ◌+◌, ◌≡◌, inl, inr, refl, sym, ap, ◌∙◌, none, some, List, [], ◌∷◌, ◌++◌, arith, ◌==◌,
  Bool-cases, Option-cases, any, All,
}
use mathlib.Core.List.{append_assoc, append-nil}
use mneme_universal_context.Access.Principal.{Principal}
use mneme_universal_context.Blobs.{
  Blob, Tables, find_blob, update_ref_count, attach_blob_reference, is_reference,
}
use mneme_universal_context.Ingest.{
  BytesRef, Content, inline, bytes_ref, StoredEvent, Services, Store, Prepared, Pending, hash_in,
  hashes_of, check_blob, check_content, validate_bytes_ref_content,
}
use mneme_universal_context.Ingest.Commit.{stored_row, attach_refs, store_event, store_events}
use mneme_universal_context.Ingest.Prepare.{hash_in-append, keys_of, known}
use mneme_universal_context.Ingest.Sound.{IsNew}

abbrev pub rows_of : List Prepared → List StoredEvent
rows_of [] = []
rows_of (p ∷ ps) = stored_row p ∷ rows_of ps

pub store_events-events :
    (sv : Services) (session : ℕ) (ps : List Prepared) (s : Store)
    → (store_events sv session ps s).events ≡ s.events ++ rows_of ps
unfolding store_events
store_events-events sv session [] s = sym (append-nil s.events)
store_events-events sv session (p ∷ ps) s =
    store_events-events sv session ps (store_event sv session p s)
    ∙ append_assoc s.events (stored_row p ∷ []) (rows_of ps)

pub hashes_of-rows :
    (es : List StoredEvent) (ps : List Prepared)
    → hashes_of (es ++ rows_of ps) ≡ hashes_of es ++ keys_of ps
hashes_of-rows [] [] = refl
hashes_of-rows [] (p ∷ ps) =
    ap (λ l. (p.event.event_id, p.immutable_hash) ∷ l) (hashes_of-rows [] ps)
hashes_of-rows (e ∷ es) ps = ap (λ l. (e.event_id, e.immutable_hash) ∷ l) (hashes_of-rows es ps)

not_stored :
    (stored batch : List (ℕ × ℕ)) (k b : ℕ)
    → All (λ e. IsNew stored e) batch
    → hash_in k batch ≡ some b
    → hash_in k stored ≡ none
not_stored stored [] k b new e = cc
not_stored stored ((j, h) ∷ hs) k b (here, there) e = elim (Bool-cases (j == k)) [
  | inl same ↦ let eq : j ≡ k = ground arith in rw eq at here
  | inr other ↦ not_stored stored hs k b there (rw other at e)
]

-- What was known at the end of the first loop is in the table afterwards.
pub known-stored :
    (stored : List (ℕ × ℕ)) (p : Pending) (k h : ℕ)
    → All (λ e. IsNew stored e) p.batch_hashes
    → known k stored p ≡ some h
    → hash_in k (stored ++ p.batch_hashes) ≡ some h
known-stored stored p k h new e = elim (Option-cases (hash_in k p.batch_hashes)) [
  | inl none_yet ↦ rw (hash_in-append k stored p.batch_hashes, rw none_yet at e) refl
  | inr (b, found) ↦
      rw
        (
          hash_in-append k stored p.batch_hashes,
          not_stored stored p.batch_hashes k b new found,
          found,
        )
        (rw found at e)
]

-- A changed count changes no check of a blob.
check_blob-counted :
    (sv : Services) (p : Principal) (session j k : ℕ) (c : BytesRef) (bs : List Blob)
    → check_blob sv p session c (find_blob k (update_ref_count j (λ n. n + 1) bs))
      ≡ check_blob sv p session c (find_blob k bs)
check_blob-counted sv p session j k c [] = refl
check_blob-counted sv p session j k c (b ∷ bs) = elim (Bool-cases (b.blob_id == j)) [
  | inl same ↦ elim (Bool-cases (b.blob_id == k)) [
    | inl e ↦ rw (same, e) refl
    | inr e ↦ rw (same, e) (check_blob-counted sv p session j k c bs)
  ]
  | inr other ↦ elim (Bool-cases (b.blob_id == k)) [
    | inl e ↦ rw (other, e) refl
    | inr e ↦ rw (other, e) (check_blob-counted sv p session j k c bs)
  ]
]

check_blob-attached :
    (sv : Services) (p : Principal) (session j s e k : ℕ) (c : BytesRef) (t : Tables)
    → check_blob sv p session c (find_blob k (attach_blob_reference j s e t).0.blobs)
      ≡ check_blob sv p session c (find_blob k t.blobs)
unfolding attach_blob_reference
check_blob-attached sv p session j s e k c t =
    elim (Bool-cases (any (is_reference j s e) t.blob_references)) [
      | inl old ↦ rw old refl
      | inr new ↦ rw new (check_blob-counted sv p session j k c t.blobs)
    ]

check_content-attached :
    (sv : Services) (p : Principal) (session j s e : ℕ) (t : Tables) (d : Content)
    → check_content sv p session (attach_blob_reference j s e t).0 d
      ≡ check_content sv p session t d
unfolding check_content validate_bytes_ref_content
check_content-attached sv p session j s e t (inline size) = refl
check_content-attached sv p session j s e t (bytes_ref c) =
    rw (check_blob-attached sv p session j s e c.blob_id c t) refl

check_content-refs :
    (sv : Services) (p : Principal) (session e : ℕ) (bs : List ℕ) (t : Tables) (d : Content)
    → check_content sv p session (attach_refs session e bs t) d ≡ check_content sv p session t d
check_content-refs sv p session e [] t d = refl
check_content-refs sv p session e (b ∷ bs) t d =
    check_content-refs sv p session e bs (attach_blob_reference b session e t).0 d
    ∙ check_content-attached sv p session b session e t d

-- What is written changes no check of a content.
pub check_content-stored :
    (sv : Services) (p : Principal) (session : ℕ) (ps : List Prepared) (s : Store) (d : Content)
    → check_content sv p session (store_events sv session ps s).tables d
      ≡ check_content sv p session s.tables d
unfolding store_events
check_content-stored sv p session [] s d = refl
check_content-stored sv p session (x ∷ ps) s d =
    check_content-stored sv p session ps (store_event sv session x s) d
    ∙ check_content-refs sv p session x.event.event_id x.blob_ref_ids s.tables d

-- ===== src/Retention/Referring.antt =====
-- `cleanup_retention` keeps the counts of the blobs right, and leaves no reference to a deleted
-- event.
use mneme_universal_context.Prelude.{
  ℕ, ◌+◌, ◌-◌, ◌≡◌, inl, inr, refl, ◌∙◌, Bool, true, false, not, ◌&&◌, List, [], ◌∷◌, arith, ◌==◌,
  if◌then◌else◌, Bool-cases, length, filter, any, All, contains,
}
use mneme_universal_context.Prelude.{keys, All-map_weaken}
use mneme_universal_context.Prelude.Text.{Text}
use mneme_universal_context.Blobs.{Blob, Reference, Tables, update_ref_count, ids_of}
use mneme_universal_context.Retention.Exact.{ids_of-subtract_counts}
use mneme_universal_context.Blobs.Counts.{
  refs_to, Counts, IsOf, IsValid, All-filter, All-filter_with, IsUnique-filter,
  All-update_ref_count,
}
use mneme_universal_context.Retention.{
  ref_counts, Event, Embedding, Store, delete_where, count_one, count_all, subtract_counts,
  is_event, is_embedded, is_referring, expired_ids, delete_expired, cleanup_retention,
}

-- What the counts take from a blob.
abbrev total : ℕ → List (ℕ × ℕ) → ℕ
total k [] = 0
total k ((j, n) ∷ cs) = (if j == k then n else 0) + total k cs

total-count_one :
    (k j : ℕ) (cs : List (ℕ × ℕ))
    → total k (count_one j cs) ≡ (if j == k then 1 else 0) + total k cs
total-count_one k j [] = omega arith
total-count_one k j ((i, n) ∷ cs) = elim (Bool-cases (i == j)) [
  | inl same ↦ ground arith
  | inr other ↦ rw other (omega (arith, total-count_one k j cs))
]

total-count_all :
    (k : ℕ) (rs : List Reference) (cs : List (ℕ × ℕ))
    → total k (count_all (keys (λ (r : Reference). r.blob_id) rs) cs) ≡ refs_to k rs + total k cs
total-count_all k [] cs = omega arith
total-count_all k (r ∷ rs) cs =
    total-count_all k rs (count_one r.blob_id cs) ∙ omega (arith, total-count_one k r.blob_id cs)

-- A blob from which the counts are taken.
abbrev reduced : List (ℕ × ℕ) → Blob → Blob
reduced cs b = record b { ref_count = b.ref_count - total b.blob_id cs }

reduced_nothing : (b : Blob) → reduced [] b ≡ b
reduced_nothing b = let zero_less : b.ref_count - 0 ≡ b.ref_count = omega arith in rw zero_less refl

reduced_more :
    (k n : ℕ) (cs : List (ℕ × ℕ)) (b : Blob)
    → reduced cs (if b.blob_id == k then record b { ref_count = b.ref_count - n } else b)
      ≡ reduced ((k, n) ∷ cs) b
reduced_more k n cs b = elim (Bool-cases (b.blob_id == k)) [
  | inl same ↦
      let flipped : (k == b.blob_id) ≡ true = ground arith in
      let less : b.ref_count - n - total b.blob_id cs ≡ b.ref_count - (n + total b.blob_id cs) =
        omega arith in
      rw (same, flipped, less) refl
  | inr other ↦
      let flipped : (k == b.blob_id) ≡ false = ground arith in
      let less : b.ref_count - (0 + total b.blob_id cs) ≡ b.ref_count - total b.blob_id cs =
        omega arith in
      rw (other, flipped, less) refl
]

All-reduced {κ} :
    (P : Blob → Type κ) (Q : Blob → Type κ) (cs : List (ℕ × ℕ)) (bs : List Blob)
    → ((b : Blob) → P b → Q (reduced cs b))
    → All P bs
    → All Q (subtract_counts cs bs)
All-reduced P Q [] bs f h = All-map_weaken P Q (λ b p. rw⁻¹ (reduced_nothing b) (f b p)) bs h
All-reduced P Q ((k, n) ∷ cs) bs f h =
    All-reduced (λ b. Q (reduced cs b)) Q cs (update_ref_count k (λ c. c - n) bs) (λ b q. q)
      (All-update_ref_count P (λ b. Q (reduced cs b)) k (λ c. c - n) bs
        (λ b p. rw (reduced_more k n cs b) (f b p)) h)

refs_to-split :
    (k : ℕ) (p : Reference → Bool) (rs : List Reference)
    → refs_to k (filter p rs) + refs_to k (delete_where p rs) ≡ refs_to k rs
refs_to-split k p [] = omega arith
refs_to-split k p (r ∷ rs) = elim (Bool-cases (p r)) [
  | inl e ↦ rw e (omega (arith, refs_to-split k p rs))
  | inr e ↦ rw e (omega (arith, refs_to-split k p rs))
]

-- Deleting references and taking their counts from the blobs.
deleted-IsValid :
    (p : Reference → Bool) (t : Tables)
    → IsValid t
    → IsValid (record {
      blobs =
          subtract_counts
            (count_all (keys (λ (r : Reference). r.blob_id) (filter p t.blob_references)) [])
            t.blobs;
      blob_references = delete_where p t.blob_references;
    })
deleted-IsValid p t v =
    let cs = count_all (keys (λ (r : Reference). r.blob_id) (filter p t.blob_references)) [] in
    record {
      counted =
          All-reduced (Counts t.blob_references) (Counts (delete_where p t.blob_references)) cs
            t.blobs
            (λ b c. omega (
              arith,
              c,
              refs_to-split b.blob_id p t.blob_references,
              total-count_all b.blob_id (filter p t.blob_references) [],
            ))
            v.counted;
      scoped =
          All-reduced (λ b. All (IsOf b) t.blob_references)
            (λ b. All (IsOf b) (delete_where p t.blob_references)) cs t.blobs
            (λ b h. All-filter (IsOf b) (λ r. not (p r)) t.blob_references h) v.scoped;
      unique = IsUnique-filter (λ r. not (p r)) t.blob_references v.unique;
    }

-- The tables of blobs alone.
pub cleanup_retention-tables :
    (text_of : ℕ → Text) (session cutoff : ℕ) (dry_run : Bool) (s : Store)
    → IsValid s.tables
    → IsValid (cleanup_retention text_of session cutoff dry_run s).0.tables
      × (ids_of (cleanup_retention text_of session cutoff dry_run s).0.tables.blobs
          ≡ ids_of s.tables.blobs)
unfolding cleanup_retention delete_expired
cleanup_retention-tables text_of session cutoff dry_run s v =
    elim (Bool-cases (length (expired_ids session cutoff s) == 0)) [
      | inl nothing ↦ rw nothing (v, refl)
      | inr some_ids ↦ elim (Bool-cases dry_run) [
        | inl dry ↦ rw (some_ids, dry) (v, refl)
        | inr run ↦
            rw (some_ids, run)
              (
                deleted-IsValid (is_referring session (expired_ids session cutoff s)) s.tables v,
                ids_of-subtract_counts (ref_counts session (expired_ids session cutoff s) s.tables)
                    s.tables.blobs,
              )
      ]
    ]

abbrev pub is_row : ℕ → ℕ → Event → Bool
is_row session k e = e.session_id == session && e.event_id == k

-- The event that a reference names is in the table, and the event that an embedding is of.
pub record IsReferring (s : Store) : Type 0 where
  pub tables : IsValid s.tables
  pub references :
      All (λ r. any (is_row r.session_id r.event_id) s.events ≡ true) s.tables.blob_references
  pub embeddings :
      All
        (λ (x : Embedding). contains x.event_id (keys (λ (e : Event). e.event_id) s.events) ≡ true)
        s.embedding_index

event_stays :
    (session : ℕ) (ids : List ℕ) (r : Reference) (es : List Event)
    → not (is_referring session ids r) ≡ true
    → any (is_row r.session_id r.event_id) es ≡ true
    → any (is_row r.session_id r.event_id) (delete_where (is_event session ids) es) ≡ true
event_stays session ids r [] left h = h
event_stays session ids r (e ∷ es) left h = elim (Bool-cases (is_row r.session_id r.event_id e)) [
  | inl here ↦
      let same_session : e.session_id ≡ r.session_id = ground arith in
      let same_id : e.event_id ≡ r.event_id = ground arith in
      let kept : is_event session ids e ≡ false = rw (same_session, same_id) (ground arith) in
      rw (kept, here) refl
  | inr other ↦
      let later = event_stays session ids r es left (rw other at h) in
      elim (Bool-cases (is_event session ids e)) [
        | inl gone ↦ rw gone later
        | inr kept ↦ rw (kept, other) later
      ]
]

embedded_stays :
    (session : ℕ) (ids : List ℕ) (x : Embedding) (es : List Event)
    → not (is_embedded ids x) ≡ true
    → contains x.event_id (keys (λ (e : Event). e.event_id) es) ≡ true
    → contains x.event_id
        (keys (λ (e : Event). e.event_id) (delete_where (is_event session ids) es))
      ≡ true
embedded_stays session ids x [] left h = h
embedded_stays session ids x (e ∷ es) left h = elim (Bool-cases (x.event_id == e.event_id)) [
  | inl here ↦
      let same_id : x.event_id ≡ e.event_id = ground arith in
      let kept : is_event session ids e ≡ false = rw⁻¹ same_id (ground arith) in
      rw (kept, here) refl
  | inr other ↦
      let later = embedded_stays session ids x es left (rw other at h) in
      elim (Bool-cases (is_event session ids e)) [
        | inl gone ↦ rw gone later
        | inr kept ↦ rw (kept, other) later
      ]
]

delete_expired-IsReferring :
    (text_of : ℕ → Text) (session cutoff : ℕ) (ids : List ℕ) (s : Store)
    → IsReferring s
    → IsReferring (delete_expired text_of session cutoff ids s).0
unfolding delete_expired
delete_expired-IsReferring text_of session cutoff ids s v = record {
  tables = deleted-IsValid (is_referring session ids) s.tables v.tables;
  references =
      All-filter_with (λ r. any (is_row r.session_id r.event_id) s.events ≡ true)
        (λ r.
          any (is_row r.session_id r.event_id) (delete_where (is_event session ids) s.events)
          ≡ true)
        (λ r. not (is_referring session ids r)) s.tables.blob_references
        (λ r left h. event_stays session ids r s.events left h) v.references;
  embeddings =
      All-filter_with
        (λ (x : Embedding). contains x.event_id (keys (λ (e : Event). e.event_id) s.events) ≡ true)
        (λ (x : Embedding).
          contains x.event_id
            (keys (λ (e : Event). e.event_id) (delete_where (is_event session ids) s.events))
          ≡ true)
        (λ x. not (is_embedded ids x)) s.embedding_index
        (λ x left h. embedded_stays session ids x s.events left h) v.embeddings;
}

-- If each blob's count is the number of its references, and each reference and embedding names
-- an event of the table (a reference one of its session), then this is so after a cleanup, dry
-- or not.
pub cleanup_retention-IsReferring :
    (text_of : ℕ → Text) (session cutoff : ℕ) (dry_run : Bool) (s : Store)
    → IsReferring s
    → IsReferring (cleanup_retention text_of session cutoff dry_run s).0
unfolding cleanup_retention
cleanup_retention-IsReferring text_of session cutoff dry_run s v =
    elim (Bool-cases (length (expired_ids session cutoff s) == 0)) [
      | inl nothing ↦ rw nothing v
      | inr some_ids ↦ elim (Bool-cases dry_run) [
        | inl dry ↦ rw (some_ids, dry) v
        | inr run ↦
            rw (some_ids, run)
              (delete_expired-IsReferring text_of session cutoff (expired_ids session cutoff s) s v)
      ]
    ]

-- ===== src/Blobs/History.antt =====
-- Any history of the writes to blobs and references.
use mneme_universal_context.Prelude.{
  ℕ, ◌-◌, ◌≡◌, inl, inr, Bool, Option, List, [], ◌∷◌, Option-cases, ltb, Bool-cases, ◌||◌, ◌==◌,
  length, filter, any, All, IsDistinct,
}
use mneme_universal_context.Prelude.Text.{Text}
use mneme_universal_context.Access.Principal.{Principal, ok}
use mneme_universal_context.Blobs.{
  Blob, Tables, put_blob, detach_blob_reference, delete_blob, garbage_collect_blobs,
  delete_session_blobs, ids_of, is_reference, find_blob, is_candidate,
}
use mneme_universal_context.Blobs.Counts.{IsValid, ids_of-counted}
use mneme_universal_context.Blobs.Methods.{
  detach_blob_reference-IsValid, put_blob-IsValid, delete_blob-IsValid,
  delete_session_blobs-IsValid,
}
use mneme_universal_context.Blobs.Collect.{garbage_collect_blobs-IsValid, not_among}
use mneme_universal_context.Ingest
use mneme_universal_context.Ingest.{RawEvent, Services}
use mneme_universal_context.Ingest.Commit.{Response, ingest_events}
use mneme_universal_context.Ingest.Stored.{ingest_events-tables}
use mneme_universal_context.Ingest.Multipart.{
  EventRecord, put_blob_records_and_events, IsFresh, AreFresh, IsPassed, put_blob-IsDistinct,
  put_blob_records_and_events-IsValid,
}
use mneme_universal_context.Retention
use mneme_universal_context.Retention.{cleanup_retention}
use mneme_universal_context.Retention.Referring.{cleanup_retention-tables}

-- A write of a route or a method: an upload and a multipart batch make blobs with identifiers of
-- their own; `ingest` is a batch of JSON that is accepted, and in a multipart batch each event
-- passed the tests of the route.
pub data Step : Tables → Tables → Type 0 where
  put :
      (blob session project : ℕ) (t : Tables)
      → IsFresh blob t
      → Step t (put_blob blob session project t)
  ingest :
      (sv : Services) (p : Principal) (session : ℕ) (events : List RawEvent) (s : Ingest.Store)
      (r : Response) (s' : Ingest.Store)
      → ingest_events sv p session events s ≡ ok (r, s')
      → Step s.tables s'.tables
  ingest_multipart :
      (sv : Services) (p : Principal) (session project : ℕ) (blobs : List ℕ)
      (records : List EventRecord) (t : Tables)
      → AreFresh session project blobs t
      → All (IsPassed sv p session blobs t) records
      → Step t (put_blob_records_and_events session project blobs records t)
  detach :
      (blob session event : ℕ) (t : Tables) → Step t (detach_blob_reference blob session event t).0
  delete : (blob : ℕ) (t : Tables) → Step t (delete_blob blob t).0
  collect :
      (project session : Option ℕ) (dry_run : Bool) (t : Tables)
      → Step t (garbage_collect_blobs project session dry_run t).0
  clean_up :
      (text_of : ℕ → Text) (session cutoff : ℕ) (dry_run : Bool) (s : Retention.Store)
      → Step s.tables (cleanup_retention text_of session cutoff dry_run s).0.tables
  end_session : (session : ℕ) (t : Tables) → Step t (delete_session_blobs session t)

pub data History : Tables → Type 0 where
  empty : History (record { blobs = []; blob_references = [] })
  next : {t t' : Tables} → History t → Step t t' → History t'

IsDistinct-filter :
    (f : Blob → Bool) (bs : List Blob) → IsDistinct (ids_of bs) → IsDistinct (ids_of (filter f bs))
IsDistinct-filter f [] d = d
IsDistinct-filter f (b ∷ bs) d = elim (Bool-cases (f b)) [
  | inl e ↦ rw e (not_among b.blob_id f bs d.0, IsDistinct-filter f bs d.1)
  | inr e ↦ rw e (IsDistinct-filter f bs d.1)
]

detached-IsDistinct :
    (blob session event : ℕ) (t : Tables)
    → IsDistinct (ids_of t.blobs)
    → IsDistinct (ids_of (detach_blob_reference blob session event t).0.blobs)
unfolding detach_blob_reference
detached-IsDistinct blob session event t d =
    elim (Bool-cases (any (is_reference blob session event) t.blob_references)) [
      | inl there ↦ rw (there, ids_of-counted blob (λ n. n - 1) t.blobs) d
      | inr absent ↦ rw absent d
    ]

deleted-IsDistinct :
    (blob : ℕ) (t : Tables)
    → IsDistinct (ids_of t.blobs)
    → IsDistinct (ids_of (delete_blob blob t).0.blobs)
unfolding delete_blob
deleted-IsDistinct blob t d = elim (Option-cases (find_blob blob t.blobs)) [
  | inl missing ↦ rw (missing, delete_blob) d
  | inr (b, found) ↦ elim (Bool-cases (ltb 0 b.ref_count)) [
    | inl used ↦ rw (found, delete_blob) (rw used d)
    | inr unused ↦ rw (found, delete_blob, unused) (IsDistinct-filter _ t.blobs d)
  ]
]

collected-IsDistinct :
    (project session : Option ℕ) (dry_run : Bool) (t : Tables)
    → IsDistinct (ids_of t.blobs)
    → IsDistinct (ids_of (garbage_collect_blobs project session dry_run t).0.blobs)
unfolding garbage_collect_blobs
collected-IsDistinct project session dry_run t d =
    elim (Bool-cases
      (length (ids_of (filter (is_candidate project session) t.blobs)) == 0 || dry_run)) [
        | inl nothing ↦ rw nothing d
        | inr run ↦ rw run (IsDistinct-filter _ t.blobs d)
      ]

ended-IsDistinct :
    (session : ℕ) (t : Tables)
    → IsDistinct (ids_of t.blobs)
    → IsDistinct (ids_of (delete_session_blobs session t).blobs)
unfolding delete_session_blobs
ended-IsDistinct session t d = IsDistinct-filter _ t.blobs d

Step-IsValid :
    {t t' : Tables}
    → Step t t'
    → IsValid t
    → IsDistinct (ids_of t.blobs)
    → IsValid t' × IsDistinct (ids_of t'.blobs)
Step-IsValid (put blob session project t fresh) v d = (
  put_blob-IsValid blob session project t fresh.1 v,
  put_blob-IsDistinct blob session project t fresh.0 d,
)
Step-IsValid (ingest sv p session events s r s' e) v d =
    let (valid, ids) = ingest_events-tables sv p session events s r s' d v e in (valid, rw ids d)
Step-IsValid (ingest_multipart sv p session project blobs records t fresh passed) v d =
    put_blob_records_and_events-IsValid sv p session project blobs records t fresh passed v d
Step-IsValid (detach blob session event t) v d = (
  detach_blob_reference-IsValid blob session event t v,
  detached-IsDistinct blob session event t d,
)
Step-IsValid (delete blob t) v d = (delete_blob-IsValid blob t v, deleted-IsDistinct blob t d)
Step-IsValid (collect project session dry_run t) v d = (
  garbage_collect_blobs-IsValid project session dry_run t v,
  collected-IsDistinct project session dry_run t d,
)
Step-IsValid (clean_up text_of session cutoff dry_run s) v d =
    let (valid, ids) = cleanup_retention-tables text_of session cutoff dry_run s v in
    (valid, rw ids d)
Step-IsValid (end_session session t) v d =
    (delete_session_blobs-IsValid session t v, ended-IsDistinct session t d)

-- After any history, from empty tables and each step after the one before it, of uploads, accepted
-- batches of JSON, multipart batches whose events passed the route's tests, detachings, deletions,
-- garbage collections, retention cleanups and ended sessions, in which a new blob's identifier is
-- one that no blob and no reference has: each blob's count is the number of its references, a
-- reference is of its blob's session, no reference stands twice, and the blobs have distinct
-- identifiers.
pub History-IsValid : {t : Tables} → History t → IsValid t × IsDistinct (ids_of t.blobs)
History-IsValid empty = (record { counted = tt; scoped = tt; unique = tt }, tt)
History-IsValid (next h s) = let ih = History-IsValid h in Step-IsValid s ih.0 ih.1

-- ===== src/Ingest/Stored.antt =====
-- The tables of blobs after `ingest_events`.
use mneme_universal_context.Prelude.{ℕ, ◌≡◌, refl, ◌∙◌, List, [], ◌∷◌, All, IsDistinct}
use mneme_universal_context.Access.Principal.{Principal, ok}
use mneme_universal_context.Blobs.{Tables, ids_of}
use mneme_universal_context.Blobs.Counts.{IsValid}
use mneme_universal_context.Blobs.Methods.{OfSession}
use mneme_universal_context.Ingest.{RawEvent, Services, Store, Prepared, hashes_of, check_content}
use mneme_universal_context.Ingest.Commit.{
  nothing_pending, Response, store_event, store_events, ingest_events,
}
use mneme_universal_context.Ingest.Sound.{HasRefs, prepare_events-IsSound}
use mneme_universal_context.Ingest.Repeat.{nothing_pending-IsSound, ingest_events-Ingested}
use mneme_universal_context.Ingest.Owned.{
  attach_refs-IsValid, attach_refs-owned, attach_refs-ids, check_content-owned,
}

module _ (sv : Services) (p : Principal) (session : ℕ) where
  All-refs-owned :
      (x : Prepared) (ps : List Prepared) (s : Store)
      → All (λ x. All (λ k. All (OfSession k session) s.tables.blobs) x.blob_ref_ids) ps
      → All
          (λ y.
            All
              (λ k. All (OfSession k session) (store_event sv session x s).tables.blobs)
              y.blob_ref_ids)
          ps
  unfolding store_event
  All-refs-owned x [] s h = tt
  All-refs-owned x (y ∷ ps) s h = (
    attach_refs-owned session x.event.event_id x.blob_ref_ids y.blob_ref_ids s.tables h.0,
    All-refs-owned x ps s h.1,
  )

  store_events-tables :
      (ps : List Prepared) (s : Store)
      → All (λ x. All (λ k. All (OfSession k session) s.tables.blobs) x.blob_ref_ids) ps
      → IsValid s.tables
      → IsValid (store_events sv session ps s).tables
        × (ids_of (store_events sv session ps s).tables.blobs ≡ ids_of s.tables.blobs)
  unfolding store_events
  store_events-tables [] s own v = (v, refl)
  store_events-tables (x ∷ ps) s own v =
      let (valid, ids) =
        store_events-tables ps (store_event sv session x s) (All-refs-owned x ps s own.1)
          (attach_refs-IsValid session x.event.event_id x.blob_ref_ids s.tables own.0 v) in
      (valid, ids ∙ attach_refs-ids session x.event.event_id x.blob_ref_ids s.tables)

referred-owned :
    (sv : Services) (p : Principal) (session : ℕ) (t : Tables) (ps : List Prepared)
    → IsDistinct (ids_of t.blobs)
    → All (λ x. HasRefs (check_content sv p session t) x) ps
    → All (λ x. All (λ k. All (OfSession k session) t.blobs) x.blob_ref_ids) ps
referred-owned sv p session t [] d h = tt
referred-owned sv p session t (x ∷ ps) d ((c, e), h) =
    (check_content-owned sv p session t c x.blob_ref_ids d e, referred-owned sv p session t ps d h)

-- The tables of blobs alone.
pub ingest_events-tables :
    (sv : Services) (p : Principal) (session : ℕ) (events : List RawEvent) (s : Store)
    (r : Response) (s' : Store)
    → IsDistinct (ids_of s.tables.blobs)
    → IsValid s.tables
    → ingest_events sv p session events s ≡ ok (r, s')
    → IsValid s'.tables × (ids_of s'.tables.blobs ≡ ids_of s.tables.blobs)
ingest_events-tables sv p session events s r s' d v e =
    let i = ingest_events-Ingested sv p session events s r s' e in
    let q = i.pending in
    let check = check_content sv p session s.tables in
    let sound =
      prepare_events-IsSound sv.hash check session (hashes_of s.events) events nothing_pending q
        i.first_loop (nothing_pending-IsSound check (hashes_of s.events)) in
    let own = referred-owned sv p session s.tables q.prepared d sound.referring in
    rw i.store (store_events-tables sv p session q.prepared s own v)

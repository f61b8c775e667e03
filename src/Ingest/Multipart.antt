-- ===== src/Ingest/Multipart.antt =====
-- The writes of a multipart batch to the tables of blobs: `put_blob_records_and_events` of
-- mneme_service/storage.py, with what `ingest_events` of mneme_service/app.py gives it.
use mneme_universal_context.Prelude.{
  ℕ, ◌≡◌, ◌⊎◌, inl, inr, refl, sym, ap, ◌∙◌, true, false, List, [], ◌∷◌, ◌++◌, arith, ◌==◌,
  Bool-cases, All, contains, IsDistinct, All-append, IsDistinct-snoc,
}
use mathlib.Core.Path.{subst}
use mneme_universal_context.Access.Principal.{Principal, ok}
use mneme_universal_context.Blobs.{Blob, Tables, put_blob, ids_of}
use mneme_universal_context.Blobs.Counts.{refs_to, IsValid}
use mneme_universal_context.Blobs.Methods.{OfSession, put_blob-IsValid}
use mneme_universal_context.Ingest.{Content, Services, check_content}
use mneme_universal_context.Ingest.Commit.{attach_refs}
use mneme_universal_context.Ingest.Owned.{
  attach_refs-IsValid, attach_refs-owned, attach_refs-ids, check_content-owned, absent-owned,
}

-- What is read of an event record here.
pub record EventRecord : Type 0 where
  pub event_id : ℕ
  pub session_id : ℕ
  pub blob_ref_ids : List ℕ

abbrev pub put_blob_records : ℕ → ℕ → List ℕ → Tables → Tables
put_blob_records session project [] t = t
put_blob_records session project (b ∷ bs) t =
    put_blob_records session project bs (put_blob b session project t)

abbrev pub attach_event_records : List EventRecord → Tables → Tables
attach_event_records [] t = t
attach_event_records (r ∷ rs) t =
    attach_event_records rs (attach_refs r.session_id r.event_id r.blob_ref_ids t)

-- The blobs of one request are of its session and project.
unfoldable pub put_blob_records_and_events : ℕ → ℕ → List ℕ → List EventRecord → Tables → Tables
put_blob_records_and_events session project blobs records t =
    attach_event_records records (put_blob_records session project blobs t)

-- No row and no reference has the identifier.
abbrev pub IsFresh : ℕ → Tables → Type 0
IsFresh blob t = (contains blob (ids_of t.blobs) ≡ false) × (refs_to blob t.blob_references ≡ 0)

-- Each identifier is fresh when its row is inserted.
abbrev pub AreFresh : ℕ → ℕ → List ℕ → Tables → Type 0
AreFresh session project [] t = Unit
AreFresh session project (b ∷ bs) t =
    IsFresh b t × AreFresh session project bs (put_blob b session project t)

-- The route plans the blob with the batch or it passes the test of contents; its session is the
-- batch's.
abbrev pub IsPassed : Services → Principal → ℕ → List ℕ → Tables → EventRecord → Type 0
IsPassed sv p session blobs t r =
    (r.session_id ≡ session)
    × (((k : ℕ) × (r.blob_ref_ids ≡ k ∷ []) × (contains k blobs ≡ true))
        ⊎ ((c : Content) × (check_content sv p session t c ≡ ok r.blob_ref_ids)))

ids_of-append : (xs ys : List Blob) → ids_of (xs ++ ys) ≡ ids_of xs ++ ids_of ys
ids_of-append [] ys = refl
ids_of-append (x ∷ xs) ys = ap (λ l. x.blob_id ∷ l) (ids_of-append xs ys)

pub put_blob-IsDistinct :
    (blob session project : ℕ) (t : Tables)
    → contains blob (ids_of t.blobs) ≡ false
    → IsDistinct (ids_of t.blobs)
    → IsDistinct (ids_of (put_blob blob session project t).blobs)
unfolding put_blob
put_blob-IsDistinct blob session project t fresh d =
    rw (ids_of-append t.blobs _) (IsDistinct-snoc blob (ids_of t.blobs) fresh d)

put_blob-owned :
    (k blob session project : ℕ) (t : Tables)
    → All (OfSession k session) t.blobs
    → All (OfSession k session) (put_blob blob session project t).blobs
unfolding put_blob
put_blob-owned k blob session project t own =
    All-append (OfSession k session) t.blobs _ own (λ e. refl, tt)

module _ (session project : ℕ) where
  put_blob_records-owned :
      (k : ℕ) (bs : List ℕ) (t : Tables)
      → All (OfSession k session) t.blobs
      → All (OfSession k session) (put_blob_records session project bs t).blobs
  put_blob_records-owned k [] t own = own
  put_blob_records-owned k (b ∷ bs) t own =
      put_blob_records-owned k bs (put_blob b session project t)
        (put_blob-owned k b session project t own)

  planned-owned :
      (k : ℕ) (bs : List ℕ) (t : Tables)
      → contains k bs ≡ true
      → AreFresh session project bs t
      → All (OfSession k session) (put_blob_records session project bs t).blobs
  planned-owned k [] t h fresh = cc h
  planned-owned k (b ∷ bs) t h fresh = elim (Bool-cases (k == b)) [
    | inl same ↦
        let eq : k ≡ b = ground arith in
        put_blob_records-owned k bs (put_blob b session project t)
          (put_blob-owned k b session project t (absent-owned k session t.blobs (rw eq fresh.0.0)))
    | inr other ↦ planned-owned k bs (put_blob b session project t) (rw other at h) fresh.1
  ]

  put_blob_records-IsValid :
      (bs : List ℕ) (t : Tables)
      → AreFresh session project bs t
      → IsValid t
      → IsDistinct (ids_of t.blobs)
      → IsValid (put_blob_records session project bs t)
        × IsDistinct (ids_of (put_blob_records session project bs t).blobs)
  put_blob_records-IsValid [] t fresh v d = (v, d)
  put_blob_records-IsValid (b ∷ bs) t fresh v d =
      put_blob_records-IsValid bs (put_blob b session project t) fresh.1
        (put_blob-IsValid b session project t fresh.0.1 v)
        (put_blob-IsDistinct b session project t fresh.0.0 d)

-- The record is of the session, as are the blobs that it refers to.
abbrev IsOwned : ℕ → Tables → EventRecord → Type 0
IsOwned session t r =
    (r.session_id ≡ session) × All (λ k. All (OfSession k session) t.blobs) r.blob_ref_ids

All-IsOwned :
    (session : ℕ) (r : EventRecord) (rs : List EventRecord) (t : Tables)
    → All (IsOwned session t) rs
    → All (IsOwned session (attach_refs session r.event_id r.blob_ref_ids t)) rs
All-IsOwned session r [] t h = tt
All-IsOwned session r (x ∷ rs) t h = (
  (h.0.0, attach_refs-owned session r.event_id r.blob_ref_ids x.blob_ref_ids t h.0.1),
  All-IsOwned session r rs t h.1,
)

attach_event_records-IsValid :
    (session : ℕ) (rs : List EventRecord) (t : Tables)
    → All (IsOwned session t) rs
    → IsValid t
    → IsValid (attach_event_records rs t)
      × (ids_of (attach_event_records rs t).blobs ≡ ids_of t.blobs)
attach_event_records-IsValid session [] t h v = (v, refl)
attach_event_records-IsValid session (r ∷ rs) t h v =
    let t' = attach_refs session r.event_id r.blob_ref_ids t in
    let later =
      attach_event_records-IsValid session rs t' (All-IsOwned session r rs t h.1)
        (attach_refs-IsValid session r.event_id r.blob_ref_ids t h.0.1 v) in
    let ids = attach_refs-ids session r.event_id r.blob_ref_ids t in
    subst
      (λ s.
        IsValid (attach_event_records rs (attach_refs s r.event_id r.blob_ref_ids t))
        × (ids_of (attach_event_records rs (attach_refs s r.event_id r.blob_ref_ids t)).blobs
            ≡ ids_of t.blobs))
      (sym h.0.0) (later.0, later.1 ∙ ids)

passed-IsOwned :
    (sv : Services) (p : Principal) (session project : ℕ) (bs : List ℕ) (t : Tables)
    (r : EventRecord)
    → AreFresh session project bs t
    → IsDistinct (ids_of t.blobs)
    → IsPassed sv p session bs t r
    → IsOwned session (put_blob_records session project bs t) r
passed-IsOwned sv p session project bs t r fresh d (own, inl (k, one, planned)) = (
  own,
  subst
      (λ ks. All (λ k. All (OfSession k session) (put_blob_records session project bs t).blobs) ks)
      (sym one) (planned-owned session project k bs t planned fresh, tt),
)
passed-IsOwned sv p session project bs t r fresh d (own, inr (c, passes)) =
    (own, each r.blob_ref_ids (check_content-owned sv p session t c r.blob_ref_ids d passes))
  where
    each :
        (ks : List ℕ)
        → All (λ k. All (OfSession k session) t.blobs) ks
        → All (λ k. All (OfSession k session) (put_blob_records session project bs t).blobs) ks
    each [] h = tt
    each (k ∷ ks) h = (put_blob_records-owned session project k bs t h.0, each ks h.1)

all_passed-IsOwned :
    (sv : Services) (p : Principal) (session project : ℕ) (bs : List ℕ) (t : Tables)
    (rs : List EventRecord)
    → AreFresh session project bs t
    → IsDistinct (ids_of t.blobs)
    → All (IsPassed sv p session bs t) rs
    → All (IsOwned session (put_blob_records session project bs t)) rs
all_passed-IsOwned sv p session project bs t [] fresh d h = tt
all_passed-IsOwned sv p session project bs t (r ∷ rs) fresh d h = (
  passed-IsOwned sv p session project bs t r fresh d h.0,
  all_passed-IsOwned sv p session project bs t rs fresh d h.1,
)

pub put_blob_records_and_events-IsValid :
    (sv : Services) (p : Principal) (session project : ℕ) (bs : List ℕ) (rs : List EventRecord)
    (t : Tables)
    → AreFresh session project bs t
    → All (IsPassed sv p session bs t) rs
    → IsValid t
    → IsDistinct (ids_of t.blobs)
    → IsValid (put_blob_records_and_events session project bs rs t)
      × IsDistinct (ids_of (put_blob_records_and_events session project bs rs t).blobs)
unfolding put_blob_records_and_events
put_blob_records_and_events-IsValid sv p session project bs rs t fresh h v d =
    let put = put_blob_records-IsValid session project bs t fresh v d in
    let done =
      attach_event_records-IsValid session rs (put_blob_records session project bs t)
        (all_passed-IsOwned sv p session project bs t rs fresh d h) put.0 in
    (done.0, rw done.1 put.1)

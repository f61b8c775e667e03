-- ===== src/Ingest/Consistent.antt =====
-- The tables and the segments after `ingest_events`.
use mneme_universal_context.Prelude.{
  ℕ, suc, ◌≡◌, inl, inr, refl, sym, ap, ◌∙◌, false, if◌then◌else◌, none, List, [], ◌∷◌, ◌++◌, arith,
  ◌==◌, Bool-cases, length, map, true, All, contains, IsDistinct,
}
use mathlib.Core.Path.{subst}
use mathlib.Core.List.{append_assoc, append-nil}
use mneme_universal_context.Prelude.{contains-append}
use mneme_universal_context.Access.Principal.{Principal, ok}
use mneme_universal_context.Blobs.{ids_of}
use mneme_universal_context.Blobs.Counts.{IsValid}
use mneme_universal_context.Session.Segments.{AreSegments, anchors}
use mneme_universal_context.Session.Segments.Partition.{update_segment_for_event-AreSegments}
use mneme_universal_context.Ingest.{
  Immutable, CleanEvent, RawEvent, StoredEvent, Services, Store, Prepared, hash_in, hashes_of,
  check_content,
}
use mneme_universal_context.Ingest.Commit.{
  nothing_pending, respond, Response, event_ids, store_event, segment_event, store_events,
  ingest_events,
}
use mneme_universal_context.Ingest.Stored.{ingest_events-tables}
use mneme_universal_context.Ingest.Sound.{IsNew, prepare_events-IsSound}
use mneme_universal_context.Ingest.Prepare.{keys_of}
use mneme_universal_context.Ingest.Accepted.{
  own_events, new_events, row_of, user_messages_of, events_of, IsHashed, is_known,
  prepare_events-IsPrepared,
}
use mneme_universal_context.Ingest.Written.{rows_of, store_events-events}
use mneme_universal_context.Ingest.Repeat.{nothing_pending-IsSound, ingest_events-Ingested}

abbrev pub ids_of_events : List StoredEvent → List ℕ
ids_of_events [] = []
ids_of_events (e ∷ es) = e.event_id ∷ ids_of_events es

-- The primary keys of events and blobs, the counts of the blobs, and the segments.
pub record IsConsistent (s : Store) : Type 0 where
  pub events : IsDistinct (ids_of_events s.events)
  pub blobs : IsDistinct (ids_of s.tables.blobs)
  pub tables : IsValid s.tables
  pub segments : AreSegments s.segments

-- The user messages among the prepared events.
abbrev pub prepared_user_messages : List Prepared → List ℕ
prepared_user_messages [] = []
prepared_user_messages (p ∷ ps) =
    let rest = prepared_user_messages ps in
    if p.event.is_user_message then p.event.event_id ∷ rest else rest

module _ (sv : Services) (p : Principal) (session : ℕ) where
  store_events-segments :
      (ps : List Prepared) (s : Store)
      → AreSegments s.segments
      → AreSegments (store_events sv session ps s).segments
        × (anchors (store_events sv session ps s).segments
            ≡ anchors s.segments ++ prepared_user_messages ps)
  unfolding store_events
  store_events-segments [] s h = (h, sym (append-nil (anchors s.segments)))
  store_events-segments (x ∷ ps) s h =
      let e = segment_event x.event (sv.classify x.event s.state s.segments) in
      let (now, one) = update_segment_for_event-AreSegments e s.segments h in
      let (later, rest) = store_events-segments ps (store_event sv session x s) now in
      (
        later,
        rest ∙ elim (Bool-cases x.event.is_user_message) [
          | inl user ↦
              rw (one, user)
                (append_assoc (anchors s.segments) (x.event.event_id ∷ [])
                  (prepared_user_messages ps))
          | inr other ↦
              rw (one, other)
                (ap (λ l. l ++ prepared_user_messages ps) (append-nil (anchors s.segments)))
        ],
      )

rows_ids :
    (es : List StoredEvent) (ps : List Prepared)
    → ids_of_events (es ++ rows_of ps) ≡ ids_of_events es ++ event_ids ps
rows_ids [] [] = refl
rows_ids [] (p ∷ ps) = ap (λ l. p.event.event_id ∷ l) (rows_ids [] ps)
rows_ids (e ∷ es) ps = ap (λ l. e.event_id ∷ l) (rows_ids es ps)

not_among :
    (x : ℕ) (xs ys : List ℕ) → All (λ y. contains y (x ∷ xs) ≡ false) ys → contains x ys ≡ false
not_among x xs [] h = refl
not_among x xs (y ∷ ys) h = ground (arith, not_among x xs ys)

IsDistinct-append :
    (xs ys : List ℕ)
    → IsDistinct xs
    → IsDistinct ys
    → All (λ y. contains y xs ≡ false) ys
    → IsDistinct (xs ++ ys)
IsDistinct-append [] ys d e apart = e
IsDistinct-append (x ∷ xs) ys d e apart = (
  rw (contains-append x xs ys, d.0, not_among x xs ys apart) refl,
  IsDistinct-append xs ys d.1 e (All-weaken ys apart),
)
  where
    All-weaken :
        (zs : List ℕ)
        → All (λ y. contains y (x ∷ xs) ≡ false) zs
        → All (λ y. contains y xs ≡ false) zs
    All-weaken [] h = tt
    All-weaken (z ∷ zs) h = (ground (arith, h.0), All-weaken zs h.1)

new_id :
    (k : ℕ) (es : List StoredEvent)
    → hash_in k (hashes_of es) ≡ none
    → contains k (ids_of_events es) ≡ false
new_id k [] h = refl
new_id k (e ∷ es) h = elim (Bool-cases (e.event_id == k)) [
  | inl same ↦ cc (rw same at h)
  | inr other ↦
      let flipped : (k == e.event_id) ≡ false = ground arith in
      rw (flipped, new_id k es (rw other at h)) refl
]

new_ids :
    (es : List StoredEvent) (ps : List Prepared)
    → All (λ e. IsNew (hashes_of es) e) (keys_of ps)
    → All (λ k. contains k (ids_of_events es) ≡ false) (event_ids ps)
new_ids es [] h = tt
new_ids es (p ∷ ps) h = (new_id p.event.event_id es h.0, new_ids es ps h.1)

-- The events that a batch adds to a table: the first of its session's with each new identifier.
abbrev pub added_events : ℕ → List RawEvent → Store → List CleanEvent
added_events session events s = new_events (ids_of_events s.events) (own_events session events)

-- What an accepted batch adds: the rows of the events, in the order of the response, and the
-- anchors of the user messages among them.
pub record IsAdded (hash : Immutable → ℕ) (cs : List CleanEvent) (r : Response) (s s' : Store)
    : Type 0 where
  pub named : r.stored_event_ids ≡ map (λ c. c.event_id) cs
  pub counted : r.accepted ≡ length cs
  pub rows : s'.events ≡ s.events ++ map (row_of hash) cs
  pub anchored : anchors s'.segments ≡ anchors s.segments ++ user_messages_of cs

knows_stored :
    (es : List StoredEvent) (k : ℕ)
    → contains k (ids_of_events es) ≡ is_known (hash_in k (hashes_of es))
knows_stored [] k = refl
knows_stored (e ∷ es) k = elim (Bool-cases (e.event_id == k)) [
  | inl same ↦ let flipped : (k == e.event_id) ≡ true = ground arith in rw (same, flipped) refl
  | inr other ↦
      let flipped : (k == e.event_id) ≡ false = ground arith in
      rw (other, flipped) (knows_stored es k)
]

rows_of-events :
    (hash : Immutable → ℕ) (ps : List Prepared)
    → All (IsHashed hash) ps
    → rows_of ps ≡ map (row_of hash) (events_of ps)
rows_of-events hash [] h = refl
rows_of-events hash (p ∷ ps) h = simp (h.0, rows_of-events hash ps h.1) refl

event_ids-events : (ps : List Prepared) → event_ids ps ≡ map (λ c. c.event_id) (events_of ps)
event_ids-events [] = refl
event_ids-events (p ∷ ps) = ap (λ l. p.event.event_id ∷ l) (event_ids-events ps)

length-events : (ps : List Prepared) → length ps ≡ length (events_of ps)
length-events [] = refl
length-events (p ∷ ps) = ap suc (length-events ps)

prepared_user_messages-events :
    (ps : List Prepared) → prepared_user_messages ps ≡ user_messages_of (events_of ps)
prepared_user_messages-events [] = refl
prepared_user_messages-events (p ∷ ps) =
    ap (λ l. if p.event.is_user_message then p.event.event_id ∷ l else l)
      (prepared_user_messages-events ps)

-- A batch that is accepted leaves a consistent store consistent: no event identifier is stored
-- twice, the blobs keep their identifiers and their counts are right, and the segments are as
-- they should be. It adds, in the order of the batch, the first of its redacted events with each
-- identifier that is of the session and not yet stored: the response names and counts these, their
-- rows with the hashes of their immutable fields follow those of the table, and the user messages
-- among them become the last anchors of the segments.
pub ingest_events-IsConsistent :
    (sv : Services) (p : Principal) (session : ℕ) (events : List RawEvent) (s : Store)
    (r : Response) (s' : Store)
    → IsConsistent s
    → ingest_events sv p session events s ≡ ok (r, s')
    → IsConsistent s' × IsAdded sv.hash (added_events session events s) r s s'
ingest_events-IsConsistent sv p session events s r s' con e =
    let i = ingest_events-Ingested sv p session events s r s' e in
    let q = i.pending in
    let check = check_content sv p session s.tables in
    let sound =
      prepare_events-IsSound sv.hash check session (hashes_of s.events) events nothing_pending q
        i.first_loop (nothing_pending-IsSound check (hashes_of s.events)) in
    let first =
      prepare_events-IsPrepared sv.hash check session (hashes_of s.events) events
        (ids_of_events s.events) nothing_pending q i.first_loop (knows_stored s.events) in
    let (valid, ids) =
      rw i.store at (ingest_events-tables sv p session events s r s' con.blobs con.tables e) in
    let (segments, anchored) = store_events-segments sv p session q.prepared s con.segments in
    let rows = store_events-events sv session q.prepared s in
    let fresh = new_ids s.events q.prepared (rw sound.keyed sound.fresh) in
    let distinct =
      IsDistinct-append (ids_of_events s.events) (event_ids q.prepared) con.events sound.distinct
        fresh in
    rw (i.response, i.store)
      (
        record {
          events = rw (rows, rows_ids s.events q.prepared) distinct;
          blobs = rw ids con.blobs;
          tables = valid;
          segments = segments;
        },
        subst (λ cs. IsAdded sv.hash cs (respond q) s (store_events sv session q.prepared s))
            first.events
            (record {
              named = event_ids-events q.prepared;
              counted = length-events q.prepared;
              rows =
                  rows
                  ∙ ap (λ l. s.events ++ l) (rows_of-events sv.hash q.prepared (first.hashed tt));
              anchored =
                  anchored
                  ∙ ap (λ l. anchors s.segments ++ l) (prepared_user_messages-events q.prepared);
            }),
      )

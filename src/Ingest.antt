-- ===== src/Ingest.antt =====
-- The ingestion of a batch of events: `ingest_events` of mneme_service/app.py for a JSON body, with
-- `normalize_event`, `event_immutable_hash` and `validate_bytes_ref_content`, over the table
-- `events` of mneme_service/storage.py, the tables of blobs, and the session's state and segments.
-- The hash of the immutable fields, the classifier and the enricher are arguments.
pub mod Prepare
pub mod Commit
pub mod Sound
pub mod Again
pub mod Written
pub mod Repeat
pub mod Owned
pub mod Stored
pub mod Accepted
pub mod Multipart
pub mod Consistent
mod Tests
use mneme_universal_context.Prelude.{
  ℕ, zero, suc, ◌+◌, ◌-◌, ◌*◌, ◌/◌, ◌≤◌, ◌<◌, max, min, ◌≡◌, ◌≢◌, ◌↔◌, ◌⊎◌, inl, inr, refl, sym, ap,
  ◌∙◌, Bool, true, false, not, ◌&&◌, ◌||◌, Option, none, some, List, [], ◌∷◌, ◌++◌, map, reverse,
  arith, ltb, leb, ◌==◌, if◌then◌else◌, Bool-cases, Option-cases, length, get_elem?, take, drop,
  filter, any, All, last_n, length-append, length-take, length-drop, contains, count, add_new,
  IsDistinct,
}
use mneme_universal_context.Access.Principal.{
  Principal, can_access_project, Failure, forbidden, not_found, conflict, validation,
  payload_too_large, Result, ok, err, ◌>>=◌,
}
use mneme_universal_context.Blobs.{Blob, Tables, find_blob, attach_blob_reference}
use mneme_universal_context.Session.State
use mneme_universal_context.Session.State.{Extract, ExecutionState, apply_event_to_state}
use mneme_universal_context.Session.Segments
use mneme_universal_context.Session.Segments.{Segment, Intent, update_segment_for_event}

-- What `event_immutable_hash` hashes; texts are numbers, since they are only hashed.
pub record Immutable : Type 0 where
  pub session_id : ℕ
  pub turn_id : ℕ
  pub agent_id : ℕ
  pub runtime : ℕ
  pub role : ℕ
  pub event_type : ℕ
  pub timestamp : ℕ
  pub content_hash : ℕ
  pub tool_name : ℕ
  pub tool_call_id : ℕ
  pub parent_event_ids : List ℕ

-- An event after `redact_event_foreground`, with what the state reads of it.
pub record CleanEvent : Type 0 where
  pub event_id : ℕ
  pub immutable : Immutable
  pub body : State.Event
  pub is_user_message : Bool
  pub token_estimate : ℕ
  pub text_tokens : ℕ

-- The description of the bytes that a content refers to.
pub record Described : Type 0 where
  pub content_hash : ℕ
  pub size_bytes : ℕ
  pub media_type : ℕ

-- A content with format BYTES_REF: `blob_id` is what follows "mneme-blob://" in its URI, 0 for
-- nothing.
pub record BytesRef : Type 0 where
  pub has_server_uri : Bool
  pub storage_owner_is_server : Bool
  pub blob_id : ℕ
  pub blob_id_has_slash : Bool
  pub described : Described

pub data Content : Type 0 where
  inline : ℕ → Content
  bytes_ref : BytesRef → Content

-- `redacted` is `none` where the redaction times out.
pub record RawEvent : Type 0 where
  pub event_id : ℕ
  pub session_id : ℕ
  pub has_required_fields : Bool
  pub importance_is_known : Bool
  pub content : Content
  pub redacted : Option CleanEvent

pub record StoredEvent : Type 0 where
  pub event_id : ℕ
  pub session_id : ℕ
  pub immutable_hash : ℕ

-- What the classifier says of an event.
pub record Classification : Type 0 where
  pub intent : Intent
  pub tool_domain_shift_trusted : Bool

pub record Services : Type 0 where
  pub max_batch_events : ℕ
  pub max_event_content_bytes : ℕ
  pub hash : Immutable → ℕ
  pub blob_described : ℕ → Described
  pub extract : Extract
  pub classify : CleanEvent → ExecutionState → List Segment → Classification
  pub enrich : CleanEvent → ExecutionState → ExecutionState

-- The tables, and the state and the segments of the session of the batch.
pub record Store : Type 0 where
  pub events : List StoredEvent
  pub tables : Tables
  pub state : ExecutionState
  pub segments : List Segment

abbrev pub guard {ℓ} : {A : Type ℓ} → Bool → Failure → A → Result A
guard true e a = ok a
guard false e a = err e

-- `normalize_event`, as far as it refuses.
unfoldable pub normalize_event : RawEvent → Result (Unit {0})
normalize_event r =
    if not r.has_required_fields
    then err validation
    else if not r.importance_is_known
    then err validation
    else ok tt

abbrev pub same_described : Described → Described → Bool
same_described a b =
    a.content_hash == b.content_hash && a.size_bytes == b.size_bytes && a.media_type == b.media_type

abbrev pub check_blob : Services → Principal → ℕ → BytesRef → Option Blob → Result (List ℕ)
check_blob sv p session c none = err not_found
check_blob sv p session c (some b) =
    if not (can_access_project p (some b.project_isolation_key))
    then err forbidden
    else if not (b.session_id == session)
    then err forbidden
    else if not (same_described c.described (sv.blob_described c.blob_id))
    then err validation
    else ok (c.blob_id ∷ [])

unfoldable pub validate_bytes_ref_content :
    Services → Principal → ℕ → Tables → BytesRef → Result (List ℕ)
validate_bytes_ref_content sv p session t c =
    if not c.has_server_uri
    then err validation
    else if not c.storage_owner_is_server
    then err validation
    else if c.blob_id == 0 || c.blob_id_has_slash
    then err validation
    else check_blob sv p session c (find_blob c.blob_id t.blobs)

-- The blobs that the event refers to, or the refusal of its content.
unfoldable pub check_content : Services → Principal → ℕ → Tables → Content → Result (List ℕ)
unfolding validate_bytes_ref_content
check_content sv p session t (inline size) =
    if ltb sv.max_event_content_bytes size then err payload_too_large else ok []
check_content sv p session t (bytes_ref c) = validate_bytes_ref_content sv p session t c

pub record Prepared : Type 0 where
  pub event : CleanEvent
  pub immutable_hash : ℕ
  pub blob_ref_ids : List ℕ

-- The variables of the first loop.
pub record Pending : Type 0 where
  pub duplicates : ℕ
  pub rejected : List ℕ
  pub prepared : List Prepared
  pub batch_hashes : List (ℕ × ℕ)

abbrev pub hash_in : ℕ → List (ℕ × ℕ) → Option ℕ
hash_in k [] = none
hash_in k ((j, h) ∷ hs) = if j == k then some h else hash_in k hs

-- The table's event identifiers with their hashes, for `get_event_hash`.
abbrev pub hashes_of : List StoredEvent → List (ℕ × ℕ)
hashes_of [] = []
hashes_of (e ∷ es) = (e.event_id, e.immutable_hash) ∷ hashes_of es

abbrev pub count_duplicate : ℕ → ℕ → Pending → Result Pending
count_duplicate known h p =
    if not (known == h) then err conflict else ok (record p { duplicates = p.duplicates + 1 })

abbrev pub or_else : Option ℕ → (ℕ → Result Pending) → Result Pending → Result Pending
or_else none f r = r
or_else (some k) f r = f k

-- The end of a round, for an event that is not refused.
unfoldable pub note_event : List (ℕ × ℕ) → CleanEvent → ℕ → List ℕ → Pending → Result Pending
note_event stored c h refs p =
    or_else (hash_in c.event_id p.batch_hashes) (λ known. count_duplicate known h p)
      (or_else (hash_in c.event_id stored) (λ known. count_duplicate known h p)
        (ok (record p {
          prepared =
              p.prepared ++ record { event = c; immutable_hash = h; blob_ref_ids = refs } ∷ [];
          batch_hashes = p.batch_hashes ++ (c.event_id, h) ∷ [];
        })))

abbrev pub of_option : Option CleanEvent → Result CleanEvent
of_option none = err validation
of_option (some c) = ok c

-- A round of the first loop; `check` is `check_content` for the event's content.
unfoldable pub prepare_event :
    (Immutable → ℕ)
    → (Content → Result (List ℕ))
    → ℕ
    → List (ℕ × ℕ)
    → RawEvent
    → Pending
    → Result Pending
unfolding normalize_event note_event
prepare_event hash check session stored r p =
    if not (r.session_id == session)
    then ok (record p { rejected = p.rejected ++ r.event_id ∷ [] })
    else do
      _ ← normalize_event r
      refs ← check r.content
      c ← of_option r.redacted
      note_event stored c (hash c.immutable) refs p

unfoldable pub prepare_events :
    (Immutable → ℕ)
    → (Content → Result (List ℕ))
    → ℕ
    → List (ℕ × ℕ)
    → List RawEvent
    → Pending
    → Result Pending
unfolding prepare_event
prepare_events hash check session stored [] p = ok p
prepare_events hash check session stored (r ∷ rs) p =
    prepare_event hash check session stored r p >>= λ p'.
    prepare_events hash check session stored rs p'

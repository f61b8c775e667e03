-- ===== src/Ingest/Commit.antt =====
-- The second loop of `ingest_events`, which writes the prepared events, and its response.
use mneme_universal_context.Prelude.{ℕ, List, [], ◌∷◌, ◌++◌, ltb, if◌then◌else◌, length}
use mneme_universal_context.Access.Principal.{Principal, payload_too_large, Result, ok, err, ◌>>=◌}
use mneme_universal_context.Blobs.{Tables, attach_blob_reference}
use mneme_universal_context.Session.State.{apply_event_to_state}
use mneme_universal_context.Session.Segments
use mneme_universal_context.Session.Segments.{Segment, update_segment_for_event}
use mneme_universal_context.Ingest.{
  CleanEvent, RawEvent, StoredEvent, Classification, Services, Store, Prepared, Pending, hashes_of,
  check_content, prepare_events,
}

abbrev pub stored_row : Prepared → StoredEvent
stored_row p = record {
  event_id = p.event.event_id;
  session_id = p.event.immutable.session_id;
  immutable_hash = p.immutable_hash;
}

-- `attach_blob_reference` for each blob that the event refers to.
abbrev pub attach_refs : ℕ → ℕ → List ℕ → Tables → Tables
attach_refs session event [] t = t
attach_refs session event (b ∷ bs) t =
    attach_refs session event bs (attach_blob_reference b session event t).0

abbrev pub segment_event : CleanEvent → Classification → Segments.Event
segment_event c k = record {
  is_user_message = c.is_user_message;
  event_id = c.event_id;
  token_estimate = c.token_estimate;
  text_tokens = c.text_tokens;
  intent = k.intent;
  tool_domain_shift_trusted = k.tool_domain_shift_trusted;
}

-- A round of the second loop. The classifier reads the state and the segments before the event.
unfoldable pub store_event : Services → ℕ → Prepared → Store → Store
store_event sv session p s =
    let c = p.event in
    record {
      events = s.events ++ stored_row p ∷ [];
      tables = attach_refs session c.event_id p.blob_ref_ids s.tables;
      state = sv.enrich c (apply_event_to_state sv.extract s.state c.body);
      segments =
          update_segment_for_event (segment_event c (sv.classify c s.state s.segments)) s.segments;
    }

unfoldable pub store_events : Services → ℕ → List Prepared → Store → Store
unfolding store_event
store_events sv session [] s = s
store_events sv session (p ∷ ps) s = store_events sv session ps (store_event sv session p s)

pub record Response : Type 0 where
  pub accepted : ℕ
  pub duplicates : ℕ
  pub rejected : List ℕ
  pub stored_event_ids : List ℕ

abbrev pub event_ids : List Prepared → List ℕ
event_ids [] = []
event_ids (p ∷ ps) = p.event.event_id ∷ event_ids ps

abbrev pub respond : Pending → Response
respond p = record {
  accepted = length p.prepared;
  duplicates = p.duplicates;
  rejected = p.rejected;
  stored_event_ids = event_ids p.prepared;
}

abbrev pub nothing_pending : Pending
nothing_pending = record { duplicates = 0; rejected = []; prepared = []; batch_hashes = [] }

-- An error leaves the store as it is: nothing is written before all events are prepared.
unfoldable pub ingest_events :
    Services → Principal → ℕ → List RawEvent → Store → Result (Response × Store)
unfolding prepare_events store_events check_content
ingest_events sv p session events s =
    if ltb sv.max_batch_events (length events) then err payload_too_large else do
      pending ←
          prepare_events sv.hash (check_content sv p session s.tables) session (hashes_of s.events)
            events nothing_pending
      ok (respond pending, store_events sv session pending.prepared s)

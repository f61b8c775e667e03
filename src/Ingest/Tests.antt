-- ===== src/Ingest/Tests.antt =====
-- Tests of the ingestion of a batch.
use mneme_universal_context.Prelude.{
  ℕ, ◌+◌, ◌*◌, ◌≡◌, refl, true, false, none, some, List, [], ◌∷◌, length,
}
use mneme_universal_context.Prelude.Text.{Text, codes, strip}
use mneme_universal_context.Access.Principal.{Principal, can_access_project, ok}
use mneme_universal_context.Blobs.{attach_blob_reference}
use mneme_universal_context.Session.State.{
  default_execution_state, user_message, apply_event_to_state,
}
use mneme_universal_context.Session.Segments.{
  other_intent, active, session_start, update_segment_for_event,
}
use mneme_universal_context.Ingest.{
  Described, bytes_ref, inline, CleanEvent, RawEvent, Services, Store, Content,
}
use mneme_universal_context.Ingest.Commit.{Response, ingest_events}
use mneme_universal_context.Ingest.Repeat.{duplicate_response, ingest_events_again}
use mneme_universal_context.Ingest.Consistent.{
  IsConsistent, IsAdded, added_events, ingest_events-IsConsistent,
}

abbrev described : Described
described = record { content_hash = 91; size_bytes = 2048; media_type = 3 }

abbrev services : Services
services = record {
  max_batch_events = 10;
  max_event_content_bytes = 1000;
  hash = λ i. i.timestamp * 100 + i.content_hash;
  blob_described = λ b. described;
  extract = λ t es. [];
  classify = λ c s ss. record { intent = other_intent; tool_domain_shift_trusted = false };
  enrich = λ c s. s;
}

abbrev sender : Principal
sender = record { name = 4; role = 2; project_scopes = 7 ∷ [] }

abbrev clean : ℕ → Text → CleanEvent
clean n t = record {
  event_id = n;
  immutable = record {
    session_id = 5;
    turn_id = 0;
    agent_id = 0;
    runtime = 0;
    role = 1;
    event_type = 1;
    timestamp = n;
    content_hash = length t;
    tool_name = 0;
    tool_call_id = 0;
    parent_event_ids = [];
  };
  body = record {
    event_type = user_message;
    event_id = n;
    timestamp = n;
    content_text = t;
    tool_name = none;
    rationale = none;
  };
  is_user_message = true;
  token_estimate = 0;
  text_tokens = 2;
}

abbrev raw : ℕ → ℕ → Content → Text → RawEvent
raw session n c t = record {
  event_id = n;
  session_id = session;
  has_required_fields = true;
  importance_is_known = true;
  content = c;
  redacted = some (clean n t);
}

abbrev blob_content : Content
blob_content = bytes_ref (record {
  has_server_uri = true;
  storage_owner_is_server = true;
  blob_id = 30;
  blob_id_has_slash = false;
  described = described;
})

-- A message, the same again, one of another session, and one that refers to a blob.
abbrev batch : List RawEvent
batch =
    raw 5 1 (inline 2) (codes "hi")
    ∷ raw 5 1 (inline 2) (codes "hi")
    ∷ raw 6 2 (inline 2) (codes "hi")
    ∷ raw 5 3 blob_content (codes "see it")
    ∷ []

abbrev store_before : Store
store_before = record {
  events = [];
  tables = record {
    blobs = record { blob_id = 30; session_id = 5; project_isolation_key = 7; ref_count = 0 } ∷ [];
    blob_references = [];
  };
  state = default_execution_state;
  segments = [];
}

abbrev store_after : Store
store_after = record {
  events =
      record { event_id = 1; session_id = 5; immutable_hash = 102 }
      ∷ record { event_id = 3; session_id = 5; immutable_hash = 306 }
      ∷ [];
  tables = record {
    blobs = record { blob_id = 30; session_id = 5; project_isolation_key = 7; ref_count = 1 } ∷ [];
    blob_references = record { blob_id = 30; session_id = 5; event_id = 3 } ∷ [];
  };
  state = record default_execution_state {
    goal = codes "hi";
    current_step = codes "see it";
    turn_count = 2;
  };
  segments =
      record {
        segment_number = 1;
        status = active;
        event_count = 2;
        token_estimate = 2;
        anchor_event_ids = 1 ∷ 3 ∷ [];
        drift_reason = session_start;
      }
      ∷ [];
}

abbrev response : Response
response = record { accepted = 2; duplicates = 1; rejected = 2 ∷ []; stored_event_ids = 1 ∷ 3 ∷ [] }

ingested : ingest_events services sender 5 batch store_before ≡ ok (response, store_after)
unfolding ingest_events apply_event_to_state default_execution_state update_segment_for_event
    attach_blob_reference can_access_project strip
ingested = refl

ingest_events_again_example :
    ingest_events services sender 5 batch store_after
    ≡ ok (duplicate_response response, store_after)
ingest_events_again_example =
    ingest_events_again services sender 5 batch store_before response store_after ingested

store_before-IsConsistent : IsConsistent store_before
store_before-IsConsistent = record {
  events = tt;
  blobs = (refl, tt);
  tables = record { counted = (refl, tt); scoped = (tt, tt); unique = tt };
  segments = tt;
}

ingest_events-IsConsistent_example :
    IsConsistent store_after
    × IsAdded services.hash (added_events 5 batch store_before) response store_before store_after
ingest_events-IsConsistent_example =
    ingest_events-IsConsistent services sender 5 batch store_before response store_after
      store_before-IsConsistent ingested

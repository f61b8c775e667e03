-- ===== src/Turns.antt =====
-- The completion of a turn: the route `complete_turn` of mneme_service/app.py without an
-- idempotency key, with `turn_segment_ids` and `store_turn_complete_event`, over `get_turn` and
-- `put_turn` of mneme_service/storage.py and the stored execution states. Texts that are only
-- compared are numbers, 0 for the empty one.
pub mod Linked
pub mod Recorded
pub mod Complete
mod Tests
use mneme_universal_context.Prelude.{
  ℕ, zero, suc, ◌+◌, ◌-◌, ◌*◌, ◌/◌, ◌≤◌, ◌<◌, max, min, ◌≡◌, ◌≢◌, ◌↔◌, ◌⊎◌, inl, inr, refl, sym, ap,
  ◌∙◌, Bool, true, false, not, ◌&&◌, ◌||◌, Option, none, some, List, [], ◌∷◌, ◌++◌, map, reverse,
  arith, ltb, leb, ◌==◌, if◌then◌else◌, Bool-cases, Option-cases, length, get_elem?, take, drop,
  filter, any, All, last_n, length-append, length-take, length-drop, contains, count, add_new,
  IsDistinct,
}
use mneme_universal_context.Access.Principal.{
  Failure, not_found, conflict, validation, Result, ok, err, ◌>>=◌,
}
use mneme_universal_context.Ingest.{Immutable, StoredEvent, hash_in, hashes_of}
use mneme_universal_context.Session.History
use mneme_universal_context.Session.History.{patch, update_execution_state}

pub data TurnStatus : Type 0 where
  completed failed interrupted cancelled : TurnStatus

-- A turn after redaction; `summary` is that of its outcome, and `error` the message or code of
-- its error.
pub record Turn : Type 0 where
  pub status : TurnStatus
  pub agent_id : ℕ
  pub runtime : ℕ
  pub event_ids : List ℕ
  pub summary : Option ℕ
  pub error : Option ℕ
  pub completed_at : Option ℕ
  pub usage : Option ℕ
  pub others : ℕ

-- A row of `segments`.
pub record TurnSegment : Type 0 where
  pub segment_id : ℕ
  pub session_id : ℕ
  pub is_active : Bool
  pub anchor_event_ids : List ℕ
  pub summary : ℕ
  pub last_turn_id : Option ℕ
  pub last_turn_status : Option TurnStatus
  pub last_turn_completed_at : Option ℕ
  pub last_turn_usage : Option ℕ

-- A row of `turns`.
pub record TurnRow : Type 0 where
  pub session_id : ℕ
  pub turn_id : ℕ
  pub turn : Turn

-- The segments are those of all sessions, the one created last first.
pub record Store : Type 0 where
  pub turns : List TurnRow
  pub segments : List TurnSegment
  pub states : History.Tables
  pub events : List StoredEvent

-- What is read of texts: the JSON of a turn, the names that the code makes, the hash of an event
-- after redaction, and the segment that an event lies in by its place among the session's
-- events.
pub record Texts : Type 0 where
  pub canonical_json : Turn → ℕ
  pub turn_event_id : ℕ → ℕ
  pub session_segment : ℕ → ℕ
  pub turn_step : ℕ → TurnStatus → ℕ
  pub turn_intent : TurnStatus → ℕ
  pub turn_summary : ℕ → TurnStatus → ℕ
  pub status_text : TurnStatus → ℕ
  pub recorded_activity : ℕ
  pub truncated : ℕ → ℕ
  pub sha256_text : ℕ → ℕ
  pub hash : Immutable → ℕ
  pub state_hash : History.State → ℕ
  pub role_runtime : ℕ
  pub type_turn_complete : ℕ
  pub located : List TurnSegment → ℕ → ℕ → Option ℕ

abbrev pub get_turn : ℕ → ℕ → List TurnRow → Option Turn
get_turn session turn [] = none
get_turn session turn (r ∷ rows) =
    if r.session_id == session && r.turn_id == turn then some r.turn else get_turn session turn rows

-- INSERT OR REPLACE, where the row is not there.
abbrev pub insert_turn : ℕ → ℕ → Turn → List TurnRow → List TurnRow
insert_turn session turn body rows =
    rows ++ record { session_id = session; turn_id = turn; turn = body } ∷ []

abbrev pub find_segment : ℕ → List TurnSegment → Option TurnSegment
find_segment k [] = none
find_segment k (s ∷ ss) = if s.segment_id == k then some s else find_segment k ss

abbrev pub replace_segment : TurnSegment → List TurnSegment → List TurnSegment
replace_segment t [] = []
replace_segment t (s ∷ ss) = (if s.segment_id == t.segment_id then t else s) ∷ replace_segment t ss

abbrev pub or_keep : Option ℕ → Option ℕ → Option ℕ
or_keep none old = old
or_keep (some k) old = some k

abbrev pub summarized : Texts → Option ℕ → ℕ → ℕ
summarized x none old = old
summarized x (some k) old = x.truncated k

abbrev pub new_segment : Texts → ℕ → ℕ → TurnSegment
new_segment x session k = record {
  segment_id = k;
  session_id = session;
  is_active = true;
  anchor_event_ids = [];
  summary = x.recorded_activity;
  last_turn_id = none;
  last_turn_status = none;
  last_turn_completed_at = none;
  last_turn_usage = none;
}

-- The segment with what it says of its last turn.
abbrev pub linked : Texts → ℕ → ℕ → Turn → TurnSegment → TurnSegment
linked x session turn body s = record s {
  session_id = session;
  summary = summarized x body.summary s.summary;
  last_turn_id = some turn;
  last_turn_status = some body.status;
  last_turn_completed_at = or_keep body.completed_at s.last_turn_completed_at;
  last_turn_usage = or_keep body.usage s.last_turn_usage;
}

abbrev pub link_found :
    Texts → ℕ → ℕ → Turn → ℕ → Option TurnSegment → List TurnSegment → List TurnSegment
link_found x session turn body k none ss = linked x session turn body (new_segment x session k) ∷ ss
link_found x session turn body k (some s) ss = replace_segment (linked x session turn body s) ss

abbrev pub link_segments : Texts → ℕ → ℕ → Turn → List ℕ → List TurnSegment → List TurnSegment
link_segments x session turn body [] ss = ss
link_segments x session turn body (k ∷ ks) ss =
    link_segments x session turn body ks (link_found x session turn body k (find_segment k ss) ss)

-- `list(dict.fromkeys(xs))`
abbrev pub from_keys : List ℕ → List ℕ → List ℕ
from_keys kept [] = kept
from_keys kept (k ∷ ks) = from_keys (add_new k kept) ks

abbrev pub or_session_segment : Texts → ℕ → List ℕ → List ℕ
or_session_segment x session [] = x.session_segment session ∷ []
or_session_segment x session (k ∷ ks) = k ∷ ks

unfoldable pub put_turn : Texts → ℕ → ℕ → Turn → List ℕ → Store → Store
put_turn x session turn body segment_ids s = record s {
  turns = insert_turn session turn body s.turns;
  segments =
      link_segments x session turn body (from_keys [] (or_session_segment x session segment_ids))
        s.segments;
}

abbrev pub of_session : ℕ → List TurnSegment → List TurnSegment
of_session session = filter (λ (s : TurnSegment). s.session_id == session)

abbrev pub anchored_in : ℕ → List TurnSegment → Option ℕ
anchored_in event [] = none
anchored_in event (s ∷ ss) =
    if contains event s.anchor_event_ids then some s.segment_id else anchored_in event ss

abbrev pub or_located : Option ℕ → Option ℕ → Option ℕ
or_located none k = k
or_located (some j) k = some j

-- The segments are read by rising time of creation, so from the last of the list.
unfoldable pub segment_id_for_event : Texts → ℕ → ℕ → List TurnSegment → Option ℕ
segment_id_for_event x session event ss =
    or_located (anchored_in event (reverse (of_session session ss))) (x.located ss session event)

abbrev pub event_segments : Texts → ℕ → List ℕ → List TurnSegment → List ℕ
event_segments x session [] ss = []
event_segments x session (e ∷ es) ss = elim (segment_id_for_event x session e ss) [
  | none ↦ event_segments x session es ss
  | some k ↦ k ∷ event_segments x session es ss
]

abbrev pub latest_active : List TurnSegment → List ℕ
latest_active [] = []
latest_active (s ∷ ss) = if s.is_active then s.segment_id ∷ [] else latest_active ss

abbrev pub or_active : List ℕ → List ℕ → List ℕ
or_active [] active_ids = active_ids
or_active (k ∷ ks) active_ids = k ∷ ks

unfoldable pub turn_segment_ids : Texts → ℕ → Turn → List TurnSegment → List ℕ
unfolding segment_id_for_event
turn_segment_ids x session body ss = from_keys [] (
    or_session_segment x session (
      or_active (event_segments x session body.event_ids ss)
        (latest_active (of_session session ss))))

abbrev pub event_summary : Texts → ℕ → Turn → Option ℕ → Option ℕ → ℕ
event_summary x turn body (some k) failure = k
event_summary x turn body none (some k) = k
event_summary x turn body none none = x.turn_summary turn body.status

abbrev pub or_now : ℕ → Option ℕ → ℕ
or_now now none = now
or_now now (some t) = t

unfoldable pub turn_event_hash : Texts → ℕ → ℕ → ℕ → Turn → ℕ
turn_event_hash x now session turn body = x.hash (record {
  session_id = session;
  turn_id = turn;
  agent_id = body.agent_id;
  runtime = body.runtime;
  role = x.role_runtime;
  event_type = x.type_turn_complete;
  timestamp = or_now now body.completed_at;
  content_hash = x.sha256_text (event_summary x turn body body.summary body.error);
  tool_name = 0;
  tool_call_id = 0;
  parent_event_ids = body.event_ids;
})

-- Where the identifier is known, the event is not written again.
abbrev pub store_event_if : Option ℕ → StoredEvent → Store → Store × Result (Unit {0})
store_event_if none e s = (record s { events = s.events ++ e ∷ [] }, ok tt)
store_event_if (some known) e s =
    if not (known == e.immutable_hash) then (s, err conflict) else (s, ok tt)

unfoldable pub store_turn_complete_event :
    Texts → ℕ → ℕ → ℕ → Turn → Store → Store × Result (Unit {0})
unfolding turn_event_hash
store_turn_complete_event x now session turn body s =
    store_event_if (hash_in (x.turn_event_id turn) (hashes_of s.events))
      (record {
        event_id = x.turn_event_id turn;
        session_id = session;
        immutable_hash = turn_event_hash x now session turn body;
      })
      s

pub record TurnResponse : Type 0 where
  pub session_id : ℕ
  pub turn_id : ℕ
  pub status : TurnStatus
  pub segment_ids : List ℕ

abbrev pub turn_complete_response : ℕ → ℕ → Turn → List ℕ → TurnResponse
turn_complete_response session turn body segment_ids = record {
  session_id = session;
  turn_id = turn;
  status = body.status;
  segment_ids = segment_ids;
}

abbrev pub state_patch : Texts → ℕ → Turn → History.Patch
state_patch x turn body = record {
  goal = none;
  current_step = some (x.turn_step turn body.status);
  enrichment = some (some (x.turn_intent body.status), []);
  decision_stack = none;
  others = none;
}

-- The writes for a turn that is not there yet: each is a transaction of its own.
unfoldable pub complete_new_turn : Texts → ℕ → ℕ → ℕ → Turn → Store → Store × Result TurnResponse
unfolding put_turn turn_segment_ids store_turn_complete_event
complete_new_turn x now session turn body s =
    let segment_ids = turn_segment_ids x session body s.segments in
    let s1 = put_turn x session turn body segment_ids s in
    let states =
      (update_execution_state x.state_hash session now patch (state_patch x turn body)
        s1.states).0 in
    let (s2, stored) =
      store_turn_complete_event x now session turn body (record s1 { states = states }) in
    (s2, stored >>= λ u. ok (turn_complete_response session turn body segment_ids))

abbrev pub complete_with :
    Texts → ℕ → ℕ → ℕ → Turn → Option Turn → Store → Store × Result TurnResponse
complete_with x now session turn body none s = complete_new_turn x now session turn body s
complete_with x now session turn body (some existing) s =
    if not (x.canonical_json existing == x.canonical_json body) then (s, err conflict) else (
      s,
      ok (
          turn_complete_response session turn existing
            (turn_segment_ids x session existing s.segments)),
    )

-- `allowed` is what `require_session_access` answers; `none` for the turn is a status that is
-- not known.
unfoldable pub complete_turn :
    Texts → ℕ → Result (Unit {0}) → ℕ → ℕ → Option Turn → Store → Store × Result TurnResponse
unfolding complete_new_turn
complete_turn x now (err e) session turn payload s = (s, err e)
complete_turn x now (ok u) session turn none s = (s, err validation)
complete_turn x now (ok u) session turn (some body) s =
    complete_with x now session turn body (get_turn session turn s.turns) s

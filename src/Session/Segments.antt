-- ===== src/Session/Segments.antt =====
-- The segments of a session: `update_segment_for_event` of mneme_service/segments.py, over
-- `latest_active_segment`, `segment_count` and `put_segment` of mneme_service/storage.py. The list
-- has the segments of one session, the one created last first; titles, summaries and time stamps
-- are left out.
pub mod Partition
use mneme_universal_context.Prelude.{
  ℕ, zero, suc, ◌+◌, ◌-◌, ◌*◌, ◌/◌, ◌≤◌, ◌<◌, max, min, ◌≡◌, ◌≢◌, ◌↔◌, ◌⊎◌, inl, inr, refl, sym, ap,
  ◌∙◌, Bool, true, false, not, ◌&&◌, ◌||◌, Option, none, some, List, [], ◌∷◌, ◌++◌, map, reverse,
  arith, ltb, leb, ◌==◌, if◌then◌else◌, Bool-cases, Option-cases, length, get_elem?, take, drop,
  filter, any, All, last_n, length-append, length-take, length-drop, contains, count, add_new,
  IsDistinct,
}

pub data SegmentStatus : Type 0 where
  active closed : SegmentStatus

pub data DriftReason : Type 0 where
  session_start explicit_switch tool_domain_shift embedding_drift : DriftReason

pub data Intent : Type 0 where
  switch new_task other_intent : Intent

-- `segment_number` is the number in the id, which has the session too.
pub record Segment : Type 0 where
  pub segment_number : ℕ
  pub status : SegmentStatus
  pub event_count : ℕ
  pub token_estimate : ℕ
  pub anchor_event_ids : List ℕ
  pub drift_reason : DriftReason

-- An event with what the classifier says of it; `text_tokens` is the estimate of its text, and
-- `token_estimate` is 0 where the event has none.
pub record Event : Type 0 where
  pub is_user_message : Bool
  pub event_id : ℕ
  pub token_estimate : ℕ
  pub text_tokens : ℕ
  pub intent : Intent
  pub tool_domain_shift_trusted : Bool

abbrev pub is_active : SegmentStatus → Bool
is_active active = true
is_active closed = false

unfoldable pub latest_active_segment : List Segment → Option Segment
latest_active_segment [] = none
latest_active_segment (s ∷ ss) =
    let rest = latest_active_segment ss in if is_active s.status then some s else rest

abbrev has_segment : ℕ → List Segment → Bool
has_segment n [] = false
has_segment n (s ∷ ss) = s.segment_number == n || has_segment n ss

abbrev replace_segment : Segment → List Segment → List Segment
replace_segment t [] = []
replace_segment t (s ∷ ss) =
    (if s.segment_number == t.segment_number then t else s) ∷ replace_segment t ss

-- INSERT OR REPLACE, which keeps the time of creation.
unfoldable pub put_segment : Segment → List Segment → List Segment
put_segment s ss = if has_segment s.segment_number ss then replace_segment s ss else s ∷ ss

unfoldable pub new_segment : List Segment → Event → DriftReason → Segment
new_segment ss e reason = record {
  segment_number = length ss + 1;
  status = active;
  event_count = 1;
  token_estimate = if e.token_estimate == 0 then e.text_tokens else e.token_estimate;
  anchor_event_ids = e.event_id ∷ [];
  drift_reason = reason;
}

abbrev pub reason_of : Event → DriftReason
reason_of e = elim e.intent [
  | switch ↦ explicit_switch
  | _ ↦ if e.tool_domain_shift_trusted then tool_domain_shift else embedding_drift
]

abbrev pub is_break : Intent → Bool
is_break switch = true
is_break new_task = true
is_break other_intent = false

unfoldable pub close_segment : Segment → Segment
close_segment s = record s { status = closed }

unfoldable pub extend_segment : Segment → Event → Segment
extend_segment s e = record s {
  event_count = s.event_count + 1;
  token_estimate = s.token_estimate + e.token_estimate;
  anchor_event_ids = s.anchor_event_ids ++ e.event_id ∷ [];
}

unfoldable pub update_from : Option Segment → Event → List Segment → List Segment
unfolding new_segment put_segment close_segment extend_segment
update_from none e ss = put_segment (new_segment ss e session_start) ss
update_from (some current) e ss =
    let closed_first = put_segment (close_segment current) ss in
    if is_break e.intent && ltb 0 current.event_count
    then put_segment (new_segment closed_first e (reason_of e)) closed_first
    else put_segment (extend_segment current e) ss

unfoldable pub update_segment_for_event : Event → List Segment → List Segment
unfolding update_from latest_active_segment
update_segment_for_event e ss =
    if e.is_user_message then update_from (latest_active_segment ss) e ss else ss

-- The events of a session, one after the other.
unfoldable pub update_segments : List Event → List Segment → List Segment
unfolding update_segment_for_event
update_segments [] ss = ss
update_segments (e ∷ es) ss = update_segments es (update_segment_for_event e ss)

-- The segments that are not the last: numbered from 1, closed, with as many anchors as events.
abbrev pub AreClosed : List Segment → Type 0
AreClosed [] = Unit
AreClosed (s ∷ ss) =
    (s.segment_number ≡ suc (length ss))
    × (s.status ≡ closed)
    × (s.event_count ≡ length s.anchor_event_ids)
    × AreClosed ss

-- Only the last segment is active, and it has events.
abbrev pub AreSegments : List Segment → Type 0
AreSegments [] = Unit
AreSegments (s ∷ ss) =
    (s.segment_number ≡ suc (length ss))
    × (s.status ≡ active)
    × (s.event_count ≡ length s.anchor_event_ids)
    × (0 < s.event_count)
    × AreClosed ss

-- All anchors, in the order of the segments.
abbrev pub anchors : List Segment → List ℕ
anchors [] = []
anchors (s ∷ ss) = anchors ss ++ s.anchor_event_ids

-- The user messages of a session.
abbrev pub user_messages : List Event → List ℕ
user_messages [] = []
user_messages (e ∷ es) =
    let rest = user_messages es in if e.is_user_message then e.event_id ∷ rest else rest

fresh_number : (n : ℕ) (ss : List Segment) → length ss < n → AreClosed ss → has_segment n ss ≡ false
fresh_number n [] h c = refl
fresh_number n (s ∷ ss) h (number, _, _, c) = ground (arith, fresh_number n ss)

replace_older :
    (t : Segment) (ss : List Segment)
    → length ss < t.segment_number
    → AreClosed ss
    → replace_segment t ss ≡ ss
replace_older t [] h c = refl
replace_older t (s ∷ ss) h (number, _, _, c) =
    let other : (s.segment_number == t.segment_number) ≡ false = ground arith in
    rw (other, replace_older t ss (omega arith) c) refl

pub put_segment_new :
    (t : Segment) (ss : List Segment)
    → t.segment_number ≡ length ss + 1
    → AreClosed ss
    → put_segment t ss ≡ t ∷ ss
unfolding put_segment
put_segment_new t ss h c = rw (fresh_number t.segment_number ss (omega arith) c) refl

pub put_segment_last :
    (t s : Segment) (ss : List Segment)
    → t.segment_number ≡ s.segment_number
    → s.segment_number ≡ suc (length ss)
    → AreClosed ss
    → put_segment t (s ∷ ss) ≡ t ∷ ss
unfolding put_segment
put_segment_last t s ss same h c =
    let found : (s.segment_number == t.segment_number) ≡ true = ground arith in
    rw (found, replace_older t ss (omega arith) c) refl

-- ===== src/Turns/Tests.antt =====
-- Tests of the completion of turns.
use mneme_universal_context.Prelude.{ℕ, true, List, ◌+◌, ◌≡◌, refl, ap, none, some, [], ◌∷◌, arith}
use mneme_universal_context.Access.Principal.{ok, err, conflict}
use mneme_universal_context.Session.History.{update_execution_state, history_row}
use mneme_universal_context.Turns.{
  completed, Turn, TurnSegment, Store, Texts, TurnResponse, get_turn, put_turn, turn_segment_ids,
  segment_id_for_event, turn_event_hash, store_turn_complete_event, complete_new_turn,
  complete_turn,
}
use mneme_universal_context.Turns.Complete.{
  IsRecorded, complete_turn-IsRecorded, complete_turn_partly,
}

abbrev texts : Texts
texts = record {
  canonical_json = λ t. t.others;
  turn_event_id = λ n. 1000 + n;
  session_segment = λ n. 2000 + n;
  turn_step = λ n s. 3000 + n;
  turn_intent = λ s. 51;
  turn_summary = λ n s. 4000 + n;
  status_text = λ s. 52;
  recorded_activity = 53;
  truncated = λ t. t;
  sha256_text = λ t. t;
  hash = λ i. i.session_id;
  state_hash = λ s. s.goal;
  role_runtime = 54;
  type_turn_complete = 55;
  located = λ ss session event. none;
}

abbrev body : Turn
body = record {
  status = completed;
  agent_id = 1;
  runtime = 2;
  event_ids = 11 ∷ 12 ∷ [];
  summary = some 60;
  error = none;
  completed_at = some 70;
  usage = none;
  others = 80;
}

abbrev empty_store : Store
empty_store = record {
  turns = [];
  segments = [];
  states = record { execution_state = []; state_history = [] };
  events = [];
}

abbrev answer : TurnResponse
answer = record { session_id = 5; turn_id = 3; status = completed; segment_ids = 2005 ∷ [] }

is_answered : (complete_turn texts 90 (ok tt) 5 3 (some body) empty_store).1 ≡ ok answer
unfolding complete_turn complete_new_turn put_turn turn_segment_ids segment_id_for_event
    store_turn_complete_event turn_event_hash update_execution_state history_row
is_answered = refl

-- The event 11 is an anchor of two segments, of which the second row is the older.
abbrev anchored : ℕ → TurnSegment
anchored k = record {
  segment_id = k;
  session_id = 5;
  is_active = true;
  anchor_event_ids = 11 ∷ [];
  summary = 0;
  last_turn_id = none;
  last_turn_status = none;
  last_turn_completed_at = none;
  last_turn_usage = none;
}

abbrev twice_anchored : List TurnSegment
twice_anchored = anchored 32 ∷ anchored 31 ∷ []

is_in_the_oldest : segment_id_for_event texts 5 11 twice_anchored ≡ some 31
unfolding segment_id_for_event
is_in_the_oldest = refl

complete_turn-IsRecorded_example :
    IsRecorded texts 90 5 3 body empty_store
      (complete_turn texts 90 (ok tt) 5 3 (some body) empty_store).0
      answer
complete_turn-IsRecorded_example =
    complete_turn-IsRecorded texts 90 5 3 body empty_store
      (complete_turn texts 90 (ok tt) 5 3 (some body) empty_store).0 answer refl
      (ap (λ r. ((complete_turn texts 90 (ok tt) 5 3 (some body) empty_store).0, r)) is_answered)

-- The session 6 has a turn with the same identifier.
abbrev shared : Store
shared = record empty_store {
  events = record { event_id = 1003; session_id = 6; immutable_hash = 6 } ∷ [];
}

complete_turn_partly_example :
    (s' : Store) × (complete_turn texts 90 (ok tt) 5 3 (some body) shared ≡ (s', err conflict))
    × (get_turn 5 3 s'.turns ≡ some body)
    × (s'.events ≡ shared.events)
    × ((r : TurnResponse) × (complete_turn texts 99 (ok tt) 5 3 (some body) s' ≡ (s', ok r)))
unfolding turn_event_hash
complete_turn_partly_example =
    complete_turn_partly texts 90 99 5 3 6 body shared refl refl (λ e. omega (arith, e))

-- ===== src/Session/Tests.antt =====
-- Tests of the state and the segments of a session.
use mneme_universal_context.Prelude.{
  ℕ, ◌≡◌, true, false, none, List, [], ◌∷◌, arith, length, filter,
}
use mneme_universal_context.Prelude.Text.{Text, codes}
use mneme_universal_context.Session.State.{
  add, user_message, Event, Extract, default_execution_state, replay,
}
use mneme_universal_context.Session.State.Bounds.{IsBounded, replay-IsBounded}
use mneme_universal_context.Session.State.Turns.{is_turn, first_goal, replay_turns_and_goal}
use mneme_universal_context.Session.Start.{
  Metadata, FillEvent, starts, packs, context_fill_required, apply_fills, is_due,
  context_fill_required_lem,
}
use mneme_universal_context.Session.Segments
use mneme_universal_context.Session.Segments.{
  Intent, switch, other_intent, update_segments, AreSegments, anchors, user_messages,
}
use mneme_universal_context.Session.Segments.Partition.{update_segments_partition}
use mneme_universal_context.Prelude.{some, reverse, take, refl}
use mneme_universal_context.Session.History
use mneme_universal_context.Session.History.{
  patch, default_state, goal_rows, history_row, commit_execution_state, update_execution_state,
  recover_execution_state_from_history, get_recent_unique_goals,
}
use mneme_universal_context.Session.History.Recovery.{
  Call, commit, update, call, calls, no_rows, recover_execution_state-calls,
}
use mneme_universal_context.Session.History.Goals.{first_rows, get_recent_unique_goals_lem}

abbrev metadata : Metadata
metadata = record { resume = true; lifecycle = []; lineage = none ∷ [] }

abbrev fills : List FillEvent
fills = starts 1 metadata 0 0 0 0 ∷ starts 2 metadata 0 0 3 1 ∷ packs 1 true ∷ packs 2 false ∷ []

context_fill_required_lem_example :
    context_fill_required 2 (apply_fills fills []) ≡ is_due 2 (context_fill_required 2 []) fills
context_fill_required_lem_example = context_fill_required_lem 2 fills []

-- Finds the entity 5 in every text.
abbrev extract : Extract
extract text entities = record { modifier_type = add; entity = 5; value = none } ∷ []

abbrev said : Text → Event
said t = record {
  event_type = user_message;
  event_id = 1;
  timestamp = 10;
  content_text = t;
  tool_name = none;
  rationale = none;
}

abbrev events : List Event
events = said (codes "  ") ∷ said (codes "write a parser") ∷ said (codes "test it") ∷ []

replay-IsBounded_example : IsBounded (replay extract default_execution_state events)
unfolding default_execution_state
replay-IsBounded_example =
    replay-IsBounded extract default_execution_state events
      (omega arith, omega arith, tt, omega arith, omega arith, tt)

replay_turns_and_goal_example :
    ((replay extract default_execution_state events).turn_count ≡ length (filter is_turn events))
    × ((replay extract default_execution_state events).goal ≡ first_goal events)
replay_turns_and_goal_example = replay_turns_and_goal extract events

abbrev message : ℕ → Intent → Segments.Event
message n intent = record {
  is_user_message = true;
  event_id = n;
  token_estimate = 4;
  text_tokens = 4;
  intent = intent;
  tool_domain_shift_trusted = false;
}

abbrev messages : List Segments.Event
messages = message 1 other_intent ∷ message 2 other_intent ∷ message 3 switch ∷ []

update_segments_partition_example :
    AreSegments (update_segments messages [])
    × (anchors (update_segments messages []) ≡ 1 ∷ 2 ∷ 3 ∷ [])
update_segments_partition_example = update_segments_partition messages [] tt

abbrev calls_made : List Call
calls_made =
    commit 1 10 (record default_state { goal = 4; current_step = 5 })
    ∷ update 1 20 patch (record {
      goal = none;
      current_step = some 6;
      enrichment = some (some 9, []);
      decision_stack = none;
      others = none;
    })
    ∷ commit 2 30 (record default_state { goal = 8 })
    ∷ []

abbrev stored_state : History.State
stored_state = record default_state { goal = 4; current_step = 6; intent_label = some 9 }

recover_execution_state-calls_example :
    let r = recover_execution_state_from_history 1 (calls (λ s. s.goal) calls_made no_rows) in
    (r.goal ≡ 4) × (r.current_step ≡ 6) × (r.intent_label ≡ some 9)
unfolding calls call commit_execution_state update_execution_state history_row
recover_execution_state-calls_example =
    recover_execution_state-calls (λ s. s.goal) calls_made 1 stored_state refl

get_recent_unique_goals_lem_example :
    get_recent_unique_goals 1 2 (calls (λ s. s.goal) calls_made no_rows)
    ≡ reverse (
        take 2 (
          first_rows (
            goal_rows
              (filter (History.is_of 1) (calls (λ s. s.goal) calls_made no_rows).state_history))))
get_recent_unique_goals_lem_example =
    get_recent_unique_goals_lem 1 2 (calls (λ s. s.goal) calls_made no_rows)

-- ===== src/Session/State.antt =====
-- The execution state of a session: `apply_event_to_state` and `apply_entity_modifiers` of
-- mneme_service/state.py. The words that `extract_entity_modifiers` finds are an argument.
pub mod Bounds
pub mod Turns
use mneme_universal_context.Prelude.{
  ℕ, zero, suc, ◌+◌, ◌-◌, ◌*◌, ◌/◌, ◌≤◌, ◌<◌, max, min, ◌≡◌, ◌≢◌, ◌↔◌, ◌⊎◌, inl, inr, refl, sym, ap,
  ◌∙◌, Bool, true, false, not, ◌&&◌, ◌||◌, Option, none, some, List, [], ◌∷◌, ◌++◌, map, reverse,
  arith, ltb, leb, ◌==◌, if◌then◌else◌, Bool-cases, Option-cases, length, get_elem?, take, drop,
  filter, any, All, last_n, length-append, length-take, length-drop, contains, count, add_new,
  IsDistinct,
}
use mneme_universal_context.Prelude.Text.{Text, codes, is_space, strip}

pub record Decision : Type 0 where
  pub event_id : ℕ
  pub timestamp : ℕ
  pub decision : Text
  pub rationale : Option Text

pub data ModifierType : Type 0 where
  add remove replace other_modifier : ModifierType

-- A `value` that is missing or the empty string is `none`.
pub record Modifier : Type 0 where
  pub modifier_type : ModifierType
  pub entity : ℕ
  pub value : Option ℕ

pub record TraceEntry : Type 0 where
  pub event_id : ℕ
  pub timestamp : ℕ
  pub modifier : Modifier

pub record ExecutionState : Type 0 where
  pub goal : Text
  pub current_step : Text
  pub last_tool : Option ℕ
  pub last_tool_output_summary : Option Text
  pub decision_stack : List Decision
  pub active_entities : List ℕ
  pub turn_count : ℕ
  pub entity_modifiers : List TraceEntry

pub data EventType : Type 0 where
  user_message assistant_message tool_call tool_output decision_event other_event : EventType

-- `tool_name` and `rationale` are `none` where the event has an empty one.
pub record Event : Type 0 where
  pub event_type : EventType
  pub event_id : ℕ
  pub timestamp : ℕ
  pub content_text : Text
  pub tool_name : Option ℕ
  pub rationale : Option Text

unfoldable pub default_execution_state : ExecutionState
default_execution_state = record {
  goal = [];
  current_step = [];
  last_tool = none;
  last_tool_output_summary = none;
  decision_stack = [];
  active_entities = [];
  turn_count = 0;
  entity_modifiers = [];
}

abbrev pub is_empty_text : Text → Bool
is_empty_text [] = true
is_empty_text (c ∷ s) = false

abbrev pub replace_all : ℕ → ℕ → List ℕ → List ℕ
replace_all entity value [] = []
replace_all entity value (x ∷ xs) = (if x == entity then value else x) ∷ replace_all entity value xs

-- The loop that keeps the first of equal entries.
abbrev pub dedupe_into : List ℕ → List ℕ → List ℕ
dedupe_into deduped [] = deduped
dedupe_into deduped (x ∷ xs) = dedupe_into (add_new x deduped) xs

abbrev pub replace_entity : ℕ → Option ℕ → List ℕ → List ℕ
replace_entity entity none entities = entities
replace_entity entity (some value) entities = dedupe_into [] (replace_all entity value entities)

unfoldable pub modify : ModifierType → ℕ → Option ℕ → List ℕ → List ℕ
modify add entity value entities = add_new entity entities
modify remove entity value entities = filter (λ x. not (x == entity)) entities
modify replace entity value entities = replace_entity entity value entities
modify other_modifier entity value entities = entities

unfoldable pub apply_modifiers : List Modifier → List ℕ → List ℕ
unfolding modify
apply_modifiers [] entities = entities
apply_modifiers (m ∷ ms) entities =
    apply_modifiers ms (modify m.modifier_type m.entity m.value entities)

abbrev pub trace_of : Event → List Modifier → List TraceEntry
trace_of e [] = []
trace_of e (m ∷ ms) =
    record { event_id = e.event_id; timestamp = e.timestamp; modifier = m } ∷ trace_of e ms

abbrev pub is_nil : List Modifier → Bool
is_nil [] = true
is_nil (m ∷ ms) = false

abbrev pub Extract : Type 0
Extract = Text → List ℕ → List Modifier

unfoldable pub apply_entity_modifiers : Extract → ExecutionState → Event → Text → ExecutionState
unfolding apply_modifiers
apply_entity_modifiers extract s e text =
    let active = filter (λ x. not (x == 0)) s.active_entities in
    let modifiers = extract text active in
    if is_nil modifiers then s else record s {
      active_entities = apply_modifiers modifiers active;
      entity_modifiers = last_n 20 (s.entity_modifiers ++ trace_of e modifiers);
    }

abbrev pub note_tool : Option ℕ → ExecutionState → ExecutionState
note_tool none s = s
note_tool (some name) s = record s { last_tool = some name }

abbrev pub first_500 : Option Text → Option Text
first_500 none = none
first_500 (some t) = some (take 500 t)

-- `text[:100] + ("..." if len(text) > 100 else "")`
abbrev pub summarize : Text → Text
summarize text = take 100 text ++ (if ltb 100 (length text) then codes "..." else [])

abbrev pub decide : ExecutionState → Event → Text → ExecutionState
decide s e text = record s {
  decision_stack = last_n 20 (
      s.decision_stack
      ++ record {
        event_id = e.event_id;
        timestamp = e.timestamp;
        decision = take 500 text;
        rationale = first_500 e.rationale;
      }
        ∷ []);
}

abbrev pub user_turn : ExecutionState → Text → ExecutionState
user_turn s text = record s {
  turn_count = s.turn_count + 1;
  goal = if is_empty_text s.goal then take 500 text else s.goal;
  current_step = take 300 text;
}

unfoldable pub apply_typed : EventType → Extract → ExecutionState → Event → Text → ExecutionState
unfolding apply_entity_modifiers
apply_typed user_message extract s e text =
    if is_empty_text text then s else apply_entity_modifiers extract (user_turn s text) e text
apply_typed tool_call extract s e text = note_tool e.tool_name s
apply_typed tool_output extract s e text =
    if is_empty_text text
    then note_tool e.tool_name s
    else record (note_tool e.tool_name s) { last_tool_output_summary = some (summarize text) }
apply_typed assistant_message extract s e text =
    if is_empty_text text then s else record s { current_step = take 200 text }
apply_typed decision_event extract s e text = if is_empty_text text then s else decide s e text
apply_typed other_event extract s e text = s

unfoldable pub apply_event_to_state : Extract → ExecutionState → Event → ExecutionState
unfolding apply_typed
apply_event_to_state extract s e =
    apply_typed e.event_type extract s e (strip is_space e.content_text)

-- `apply_event_to_state` for each event, as `ingest_events` does it.
unfoldable pub replay : Extract → ExecutionState → List Event → ExecutionState
unfolding apply_event_to_state
replay extract s [] = s
replay extract s (e ∷ es) = replay extract (apply_event_to_state extract s e) es

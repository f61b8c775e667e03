-- ===== src/Session/State/Bounds.antt =====
-- The bounds that the execution state of a session keeps.
use mneme_universal_context.Prelude.{
  ℕ, ◌≤◌, ◌≡◌, inl, inr, refl, Bool, true, false, not, Option, none, some, List, [], ◌∷◌, ◌++◌,
  arith, ltb, ◌==◌, if◌then◌else◌, Bool-cases, length, take, filter, last_n, length-append,
  length-take, contains, add_new, IsDistinct,
}
use mneme_universal_context.Prelude.Text.{Text, codes, is_space, strip}
use mneme_universal_context.Prelude.{length-last_n, add_new-IsDistinct}
use mneme_universal_context.Session.State.{
  Decision, ModifierType, add, remove, replace, other_modifier, Modifier, ExecutionState, EventType,
  user_message, assistant_message, tool_call, tool_output, decision_event, other_event, Event,
  is_empty_text, replace_all, dedupe_into, replace_entity, modify, apply_modifiers, Extract,
  apply_entity_modifiers, apply_typed, user_turn, apply_event_to_state, replay, summarize,
  note_tool, first_500, TraceEntry, trace_of, is_nil,
}

abbrev pub IsShort : Option Text → Type 0
IsShort none = Unit
IsShort (some t) = length t ≤ 103

abbrev pub HasBounds : Decision → Type 0
HasBounds d = length d.decision ≤ 500

-- The bounds of the code, and no active entity twice.
abbrev pub IsBounded : ExecutionState → Type 0
IsBounded s =
    (length s.goal ≤ 500)
    × (length s.current_step ≤ 300)
    × IsShort s.last_tool_output_summary
    × (length s.decision_stack ≤ 20)
    × (length s.entity_modifiers ≤ 20)
    × IsDistinct s.active_entities

dedupe_into-IsDistinct :
    (deduped xs : List ℕ) → IsDistinct deduped → IsDistinct (dedupe_into deduped xs)
dedupe_into-IsDistinct deduped [] d = d
dedupe_into-IsDistinct deduped (x ∷ xs) d =
    dedupe_into-IsDistinct (add_new x deduped) xs (add_new-IsDistinct x deduped d)

contains-filter :
    (p : ℕ → Bool) (k : ℕ) (xs : List ℕ) → contains k xs ≡ false → contains k (filter p xs) ≡ false
contains-filter p k [] h = refl
contains-filter p k (x ∷ xs) h = ground (arith, contains-filter p k xs)

filter-IsDistinct : (p : ℕ → Bool) (xs : List ℕ) → IsDistinct xs → IsDistinct (filter p xs)
filter-IsDistinct p [] d = tt
filter-IsDistinct p (x ∷ xs) d = ground (arith, contains-filter p x xs, filter-IsDistinct p xs)

replace_entity-IsDistinct :
    (entity : ℕ) (value : Option ℕ) (xs : List ℕ)
    → IsDistinct xs
    → IsDistinct (replace_entity entity value xs)
replace_entity-IsDistinct entity none xs d = d
replace_entity-IsDistinct entity (some value) xs d =
    dedupe_into-IsDistinct [] (replace_all entity value xs) tt

modify-IsDistinct :
    (t : ModifierType) (entity : ℕ) (value : Option ℕ) (xs : List ℕ)
    → IsDistinct xs
    → IsDistinct (modify t entity value xs)
unfolding modify
modify-IsDistinct add entity value xs d = add_new-IsDistinct entity xs d
modify-IsDistinct remove entity value xs d = filter-IsDistinct (λ x. not (x == entity)) xs d
modify-IsDistinct replace entity value xs d = replace_entity-IsDistinct entity value xs d
modify-IsDistinct other_modifier entity value xs d = d

apply_modifiers-IsDistinct :
    (ms : List Modifier) (xs : List ℕ) → IsDistinct xs → IsDistinct (apply_modifiers ms xs)
unfolding apply_modifiers
apply_modifiers-IsDistinct [] xs d = d
apply_modifiers-IsDistinct (m ∷ ms) xs d =
    apply_modifiers-IsDistinct ms (modify m.modifier_type m.entity m.value xs)
      (modify-IsDistinct m.modifier_type m.entity m.value xs d)

modified-IsBounded :
    (b : Bool) (s : ExecutionState) (entities : List ℕ) (trace : List TraceEntry)
    → IsBounded s
    → IsDistinct entities
    → IsBounded (
        if b
        then s
        else record s { active_entities = entities; entity_modifiers = last_n 20 trace })
modified-IsBounded true s entities trace h d = h
modified-IsBounded false s entities trace (g, c, o, k, t, a) d =
    (g, c, o, k, length-last_n 20 trace, d)

apply_entity_modifiers-IsBounded :
    (extract : Extract) (s : ExecutionState) (e : Event) (text : Text)
    → IsBounded s
    → IsBounded (apply_entity_modifiers extract s e text)
unfolding apply_entity_modifiers
apply_entity_modifiers-IsBounded extract s e text h =
    let active = filter (λ x. not (x == 0)) s.active_entities in
    let modifiers = extract text active in
    modified-IsBounded (is_nil modifiers) s (apply_modifiers modifiers active)
      (s.entity_modifiers ++ trace_of e modifiers) h
      (apply_modifiers-IsDistinct modifiers active
        (filter-IsDistinct (λ x. not (x == 0)) s.active_entities h.5))

note_tool-IsBounded :
    (name : Option ℕ) (s : ExecutionState) → IsBounded s → IsBounded (note_tool name s)
note_tool-IsBounded none s h = h
note_tool-IsBounded (some n) s h = h

length-summarize : (text : Text) → length (summarize text) ≤ 103
length-summarize text = elim (Bool-cases (ltb 100 (length text))) [
  | inl e ↦ rw e (omega (arith, length-take 100 text, length-append (take 100 text) (codes "...")))
  | inr e ↦ rw e (omega (arith, length-take 100 text, length-append (take 100 text) []))
]

length-goal :
    (goal text : Text)
    → length goal ≤ 500
    → length (if is_empty_text goal then take 500 text else goal) ≤ 500
length-goal [] text h = omega (arith, length-take 500 text)
length-goal (c ∷ s) text h = h

user_turn-IsBounded :
    (s : ExecutionState) (text : Text) → IsBounded s → IsBounded (user_turn s text)
user_turn-IsBounded s text (g, c, o, k, t, a) =
    (length-goal s.goal text g, omega (arith, length-take 300 text), o, k, t, a)

abbrev decide_stack : ExecutionState → Event → Text → List Decision
decide_stack s e text =
    s.decision_stack
    ++ record {
      event_id = e.event_id;
      timestamp = e.timestamp;
      decision = take 500 text;
      rationale = first_500 e.rationale;
    }
      ∷ []

apply_typed-IsBounded :
    (t : EventType) (extract : Extract) (s : ExecutionState) (e : Event) (text : Text)
    → IsBounded s
    → IsBounded (apply_typed t extract s e text)
unfolding apply_typed
apply_typed-IsBounded user_message extract s e [] h = h
apply_typed-IsBounded user_message extract s e (c ∷ cs) h =
    apply_entity_modifiers-IsBounded extract (user_turn s (c ∷ cs)) e (c ∷ cs)
      (user_turn-IsBounded s (c ∷ cs) h)
apply_typed-IsBounded tool_call extract s e text h = note_tool-IsBounded e.tool_name s h
apply_typed-IsBounded tool_output extract s e [] h = note_tool-IsBounded e.tool_name s h
apply_typed-IsBounded tool_output extract s e (c ∷ cs) h =
    let (g, step, _, k, t, a) = note_tool-IsBounded e.tool_name s h in
    (g, step, length-summarize (c ∷ cs), k, t, a)
apply_typed-IsBounded assistant_message extract s e [] h = h
apply_typed-IsBounded assistant_message extract s e (c ∷ cs) (g, step, o, k, t, a) =
    (g, omega (arith, length-take 200 (c ∷ cs)), o, k, t, a)
apply_typed-IsBounded decision_event extract s e [] h = h
apply_typed-IsBounded decision_event extract s e (c ∷ cs) (g, step, o, k, t, a) =
    (g, step, o, length-last_n 20 (decide_stack s e (c ∷ cs)), t, a)
apply_typed-IsBounded other_event extract s e text h = h

-- From a state within its bounds, whatever the events are and whatever words are extracted, the
-- state of a session stays within them: a goal of at most 500 characters, a step of 300, a summary
-- of 103, 20 decisions and 20 modifiers, and no active entity twice.
pub replay-IsBounded :
    (extract : Extract) (s : ExecutionState) (es : List Event)
    → IsBounded s
    → IsBounded (replay extract s es)
unfolding replay apply_event_to_state
replay-IsBounded extract s [] h = h
replay-IsBounded extract s (e ∷ es) h =
    let text = strip is_space e.content_text in
    replay-IsBounded extract (apply_typed e.event_type extract s e text) es
      (apply_typed-IsBounded e.event_type extract s e text h)

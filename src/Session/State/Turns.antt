-- ===== src/Session/State/Turns.antt =====
-- The turns and the goal of a session, as its execution state has them.
use mneme_universal_context.Prelude.{
  ℕ, suc, ◌+◌, ◌≡◌, inl, inr, refl, sym, ap, ◌∙◌, Bool, true, false, not, Option, none, some, List,
  [], ◌∷◌, arith, ◌==◌, if◌then◌else◌, Bool-cases, length, take, filter,
}
use mneme_universal_context.Prelude.Text.{Text, is_space, strip}
use mneme_universal_context.Session.State.{
  ExecutionState, EventType, user_message, assistant_message, tool_call, tool_output,
  decision_event, other_event, Event, default_execution_state, is_empty_text, Extract,
  apply_entity_modifiers, apply_typed, user_turn, apply_event_to_state, replay, note_tool, is_nil,
}

abbrev pub has_turn : EventType → Text → Bool
has_turn user_message text = not (is_empty_text text)
has_turn _ text = false

abbrev pub is_turn : Event → Bool
is_turn e = has_turn e.event_type (strip is_space e.content_text)

-- The first words of the first turn.
abbrev pub first_goal : List Event → Text
first_goal [] = []
first_goal (e ∷ es) =
    let rest = first_goal es in if is_turn e then take 500 (strip is_space e.content_text) else rest

abbrev goal_or : Text → Text → Text
goal_or [] t = t
goal_or (c ∷ s) t = c ∷ s

goal_or-twice : (g : Text) (c : ℕ) (t r : Text) → goal_or (goal_or g (c ∷ t)) r ≡ goal_or g (c ∷ t)
goal_or-twice [] c t r = refl
goal_or-twice (d ∷ g) c t r = refl

Turned : EventType → ExecutionState → Text → ExecutionState → Type 0
Turned user_message s [] s' = (s'.turn_count ≡ s.turn_count) × (s'.goal ≡ s.goal)
Turned user_message s (c ∷ cs) s' =
    (s'.turn_count ≡ s.turn_count + 1) × (s'.goal ≡ goal_or s.goal (take 500 (c ∷ cs)))
Turned _ s text s' = (s'.turn_count ≡ s.turn_count) × (s'.goal ≡ s.goal)

apply_entity_modifiers-keeps :
    (extract : Extract) (s : ExecutionState) (e : Event) (text : Text)
    → ((apply_entity_modifiers extract s e text).turn_count ≡ s.turn_count)
      × ((apply_entity_modifiers extract s e text).goal ≡ s.goal)
unfolding apply_entity_modifiers
apply_entity_modifiers-keeps extract s e text =
    elim (Bool-cases (is_nil (extract text (filter (λ x. not (x == 0)) s.active_entities)))) [
      | inl nil ↦ rw nil (refl, refl)
      | inr more ↦ rw more (refl, refl)
    ]

goal_if : (goal t : Text) → (if is_empty_text goal then t else goal) ≡ goal_or goal t
goal_if [] t = refl
goal_if (c ∷ s) t = refl

note_tool-keeps :
    (name : Option ℕ) (s : ExecutionState)
    → ((note_tool name s).turn_count ≡ s.turn_count) × ((note_tool name s).goal ≡ s.goal)
note_tool-keeps none s = (refl, refl)
note_tool-keeps (some n) s = (refl, refl)

apply_typed-Turned :
    (t : EventType) (extract : Extract) (s : ExecutionState) (e : Event) (text : Text)
    → Turned t s text (apply_typed t extract s e text)
unfolding Turned apply_typed
apply_typed-Turned user_message extract s e [] = (refl, refl)
apply_typed-Turned user_message extract s e (c ∷ cs) =
    let (turns, goal) = apply_entity_modifiers-keeps extract (user_turn s (c ∷ cs)) e (c ∷ cs) in
    (turns, goal ∙ goal_if s.goal (take 500 (c ∷ cs)))
apply_typed-Turned assistant_message extract s e [] = (refl, refl)
apply_typed-Turned assistant_message extract s e (c ∷ cs) = (refl, refl)
apply_typed-Turned tool_call extract s e text = note_tool-keeps e.tool_name s
apply_typed-Turned tool_output extract s e [] = note_tool-keeps e.tool_name s
apply_typed-Turned tool_output extract s e (c ∷ cs) = note_tool-keeps e.tool_name s
apply_typed-Turned decision_event extract s e [] = (refl, refl)
apply_typed-Turned decision_event extract s e (c ∷ cs) = (refl, refl)
apply_typed-Turned other_event extract s e text = (refl, refl)

-- The types and words of an event that is a turn, and of one that is not.
Turned-sum :
    (t : EventType) (s s' : ExecutionState) (text rest_goal : Text) (rest : ℕ)
    → Turned t s text s'
    → let turn = has_turn t text in
      (s'.turn_count + rest ≡ s.turn_count + (if turn then suc rest else rest))
      × (goal_or s'.goal rest_goal ≡ goal_or s.goal (if turn then take 500 text else rest_goal))
unfolding Turned
Turned-sum user_message s s' [] r n (h, k) = (omega arith, rw k refl)
Turned-sum user_message s s' (c ∷ cs) r n (h, k) =
    (omega arith, rw k (goal_or-twice s.goal c (take 499 cs) r))
Turned-sum assistant_message s s' text r n (h, k) = (omega arith, rw k refl)
Turned-sum tool_call s s' text r n (h, k) = (omega arith, rw k refl)
Turned-sum tool_output s s' text r n (h, k) = (omega arith, rw k refl)
Turned-sum decision_event s s' text r n (h, k) = (omega arith, rw k refl)
Turned-sum other_event s s' text r n (h, k) = (omega arith, rw k refl)

length-filter_if :
    (b : Bool) (e : Event) (es : List Event)
    → length (if b then e ∷ es else es) ≡ (if b then suc (length es) else length es)
length-filter_if true e es = refl
length-filter_if false e es = refl

replay_from :
    (extract : Extract) (s : ExecutionState) (es : List Event)
    → ((replay extract s es).turn_count ≡ s.turn_count + length (filter is_turn es))
      × (goal_or (replay extract s es).goal [] ≡ goal_or s.goal (first_goal es))
unfolding replay apply_event_to_state
replay_from extract s [] = (omega arith, refl)
replay_from extract s (e ∷ es) =
    let text = strip is_space e.content_text in
    let s' = apply_typed e.event_type extract s e text in
    let (turns, goal) = replay_from extract s' es in
    let (sum, goal') =
      Turned-sum e.event_type s s' text (first_goal es) (length (filter is_turn es))
        (apply_typed-Turned e.event_type extract s e text) in
    (
      turns
          ∙ sum
          ∙ ap (λ n. s.turn_count + n) (sym (length-filter_if (is_turn e) e (filter is_turn es))),
      goal ∙ goal',
    )

goal_or_none : (t : Text) → goal_or t [] ≡ t
goal_or_none [] = refl
goal_or_none (c ∷ s) = refl

-- From the state of a new session, the turns that are counted are the user messages that have
-- more than white space, and the goal is the first of them, its first 500 characters.
pub replay_turns_and_goal :
    (extract : Extract) (es : List Event)
    → ((replay extract default_execution_state es).turn_count ≡ length (filter is_turn es))
      × ((replay extract default_execution_state es).goal ≡ first_goal es)
unfolding default_execution_state
replay_turns_and_goal extract es =
    let (turns, goal) = replay_from extract default_execution_state es in
    (
      turns ∙ omega arith,
      sym (goal_or_none (replay extract default_execution_state es).goal) ∙ goal,
    )

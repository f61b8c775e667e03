-- ===== src/Budget/Tests.antt =====
-- Tests of the packing under token budgets.
use mneme_universal_context.Prelude.{
  ℕ, ◌-◌, ◌≤◌, ◌<◌, ◌≡◌, refl, true, false, some, List, [], ◌∷◌, length, get_elem?, suc, ◌≢◌, ◌==◌,
  ◌||◌, leb, ◌++◌, ◌+◌,
}
use mneme_universal_context.Prelude.Text.{Text, codes}
use mneme_universal_context.Budget.Tail.{
  Message, user, assistant, protected_tail_messages, latest_user_message_index, is_user, is_user_at,
  candidates, system_messages, tokens_at,
}
use mneme_universal_context.Budget.Tail.Kept.{Holds, at_test, latest_user_message_protected}
use mneme_universal_context.Budget.Tail.Selected.{tokens_between}
use mneme_universal_context.Budget.Retrieved.{
  RetrievedEvent, pack_retrieved_events, tokens_of, Divides, pack_retrieved_events_greedy,
}

abbrev question : Message
question = record { role = user; content = codes "why?" }

abbrev long_answer : Message
long_answer = record { role = assistant; content = codes "because of all this" }

abbrev messages : List Message
messages = question ∷ long_answer ∷ long_answer ∷ []

latest_user_message_protected_example :
    let (kept, used) = protected_tail_messages messages 7 true (some 0) in
    (m : Message) × (get_elem? messages 0 ≡ some m)
    × (is_user m.role ≡ true)
    × ((j : ℕ) → 0 < j → j < length messages → is_user_at messages j ≡ false)
    × Holds m kept
    × ((p : ℕ) × (cut : ℕ) × (get_elem? (candidates true messages) p ≡ some m)
        × (kept
            ≡ system_messages true messages
              ++ at_test (λ j. j == p || leb cut j) 0 (candidates true messages))
        × (used
            ≡ tokens_between
                (candidates true messages)
                p
                cut
                (length (candidates true messages) - cut))
        × (used ≤ 7)
        × ((k : ℕ) → cut ≡ suc k → (k ≢ p) × (7 < used + tokens_at (candidates true messages) k)))
unfolding latest_user_message_index
latest_user_message_protected_example = latest_user_message_protected messages 7 true 0 refl

abbrev events : List RetrievedEvent
events =
    record { event_id = 1; wrapper = codes "first event" }
    ∷ record { event_id = 2; wrapper = codes "a much longer second event" }
    ∷ record { event_id = 3; wrapper = codes "three" }
    ∷ []

pack_retrieved_events_greedy_example :
    let p = pack_retrieved_events events 6 in
    (p.used_tokens ≡ tokens_of p.selected)
    × (p.used_tokens ≤ 6)
    × Divides (6 - p.used_tokens) events p.selected p.dropped
pack_retrieved_events_greedy_example = pack_retrieved_events_greedy events 6

abbrev snippets : List Text
snippets = codes "one" ∷ codes "two and more" ∷ codes "three" ∷ []

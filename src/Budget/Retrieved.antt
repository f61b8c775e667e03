-- ===== src/Budget/Retrieved.antt =====
-- `pack_retrieved_events` of mneme_service/app.py: the events, best first, that fit the budget
-- for retrieved evidence. `wrapper` is the text that `retrieved_event_wrapper` builds for the
-- event. A negative budget acts like the budget 0, for no wrapper is empty.
use mneme_universal_context.Prelude.{
  ℕ, ◌+◌, ◌-◌, ◌≤◌, ◌<◌, ◌≡◌, ◌⊎◌, inl, inr, refl, Bool, true, false, List, [], ◌∷◌, arith, leb,
  if◌then◌else◌,
}
use mneme_universal_context.Prelude.Text.{Text}
use mneme_universal_context.Budget.Estimate.{token_estimate}

pub record RetrievedEvent : Type 0 where
  pub event_id : ℕ
  pub wrapper : Text

abbrev pub event_tokens : RetrievedEvent → ℕ
event_tokens e = token_estimate e.wrapper

pub record Packed : Type 0 where
  pub selected : List RetrievedEvent
  pub dropped : List ℕ
  pub used_tokens : ℕ

-- The loop; the lists are built from the front, so its results stand in the order of the events.
pub pack_from : ℕ → ℕ → List RetrievedEvent → Packed
pack_from budget used [] = record { selected = []; dropped = []; used_tokens = used }
pack_from budget used (e ∷ events) =
    let with_event = pack_from budget (used + event_tokens e) events in
    let without = pack_from budget used events in
    if leb (event_tokens e) (budget - used)
    then record with_event { selected = e ∷ with_event.selected }
    else record without { dropped = e.event_id ∷ without.dropped }

pub pack_retrieved_events : List RetrievedEvent → ℕ → Packed
unfolding pack_from
pack_retrieved_events events budget = pack_from budget 0 events

abbrev pub tokens_of : List RetrievedEvent → ℕ
tokens_of [] = 0
tokens_of (e ∷ es) = event_tokens e + tokens_of es

-- Each event is selected or dropped, in order, and what is dropped has more tokens than are left.
abbrev pub Divides : ℕ → List RetrievedEvent → List RetrievedEvent → List ℕ → Type 0
Divides left [] selected dropped = (selected ≡ []) × (dropped ≡ [])
Divides left (e ∷ events) selected dropped =
    ((rest : List RetrievedEvent) × (selected ≡ e ∷ rest) × Divides left events rest dropped)
    ⊎ ((rest : List ℕ) × (dropped ≡ e.event_id ∷ rest)
        × (left < event_tokens e)
        × Divides left events selected rest)

Divides-weaken :
    (l l' : ℕ) (events selected : List RetrievedEvent) (dropped : List ℕ)
    → l' ≤ l
    → Divides l events selected dropped
    → Divides l' events selected dropped
Divides-weaken l l' [] selected dropped h s = s
Divides-weaken l l' (e ∷ events) selected dropped h (inl (rest, p, s)) =
    inl (rest, p, Divides-weaken l l' events rest dropped h s)
Divides-weaken l l' (e ∷ events) selected dropped h (inr (rest, p, q, s)) =
    inr (rest, p, omega arith, Divides-weaken l l' events selected rest h s)

abbrev pub IsGreedy : ℕ → ℕ → List RetrievedEvent → Packed → Type 0
IsGreedy budget used events p =
    (p.used_tokens ≡ used + tokens_of p.selected)
    × (p.used_tokens ≤ budget)
    × Divides (budget - p.used_tokens) events p.selected p.dropped

IsGreedy-select :
    (budget used : ℕ) (e : RetrievedEvent) (events : List RetrievedEvent) (p : Packed)
    → IsGreedy budget (used + event_tokens e) events p
    → IsGreedy budget used (e ∷ events) (record p { selected = e ∷ p.selected })
IsGreedy-select budget used e events p (c, w, s) = (omega arith, w, inl (p.selected, refl, s))

IsGreedy-drop :
    (budget used : ℕ) (e : RetrievedEvent) (events : List RetrievedEvent) (p : Packed)
    → leb (event_tokens e) (budget - used) ≡ false
    → IsGreedy budget used events p
    → IsGreedy budget used (e ∷ events) (record p { dropped = e.event_id ∷ p.dropped })
IsGreedy-drop budget used e events p over (c, w, s) = (c, w, inr (p.dropped, refl, ground arith, s))

IsGreedy-if :
    (budget used : ℕ) (events : List RetrievedEvent) (b : Bool) (p q : Packed)
    → (b ≡ true → IsGreedy budget used events p)
    → (b ≡ false → IsGreedy budget used events q)
    → IsGreedy budget used events (if b then p else q)
IsGreedy-if budget used events true p q hp hq = hp refl
IsGreedy-if budget used events false p q hp hq = hq refl

pack_from-IsGreedy :
    (budget used : ℕ) (events : List RetrievedEvent)
    → used ≤ budget
    → IsGreedy budget used events (pack_from budget used events)
unfolding pack_from
pack_from-IsGreedy budget used [] h = (omega arith, h, (refl, refl))
pack_from-IsGreedy budget used (e ∷ events) h =
    IsGreedy-if budget used (e ∷ events) (leb (event_tokens e) (budget - used)) _ _
      (λ fits.
        IsGreedy-select budget used e events (pack_from budget (used + event_tokens e) events)
          (pack_from-IsGreedy budget (used + event_tokens e) events (ground arith)))
      (λ over.
        IsGreedy-drop budget used e events (pack_from budget used events) over
          (pack_from-IsGreedy budget used events h))

-- The selected events' tokens are within the budget, every event is selected or dropped, in
-- order, and no dropped event would fit into what the budget has left at the end.
pub pack_retrieved_events_greedy :
    (events : List RetrievedEvent) (budget : ℕ)
    → let p = pack_retrieved_events events budget in
      (p.used_tokens ≡ tokens_of p.selected)
      × (p.used_tokens ≤ budget)
      × Divides (budget - p.used_tokens) events p.selected p.dropped
unfolding pack_retrieved_events
pack_retrieved_events_greedy events budget =
    let r = pack_from-IsGreedy budget 0 events (omega arith) in (omega (arith, r.0), r.1, r.2)

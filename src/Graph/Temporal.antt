-- ===== src/Graph/Temporal.antt =====
-- The expansion by time: `expand_temporal` of mneme_service/app.py, on the events of a session
-- sorted by their time stamps and identifiers. The boost, 1.0 for all, and the warnings are left
-- out.
use mneme_universal_context.Prelude.{
  ℕ, zero, suc, ◌+◌, ◌-◌, ◌<◌, ◌≡◌, refl, ap, ◌∙◌, Bool, false, Option, none, some, List, [], ◌∷◌,
  ◌++◌, reverse, arith, ltb, ◌==◌, if◌then◌else◌, length-reverse, length, get_elem?, take, drop,
  length-append, length-take, contains,
}

pub record Event : Type 0 where
  pub event_id : ℕ
  pub event_type : ℕ

pub data Edge : Type 0 where
  seed_edge previous_edge next_edge : Edge

pub record Found : Type 0 where
  pub event_id : ℕ
  pub event_type : ℕ
  pub edge : Edge
  pub depth : ℕ

pub record Expansion : Type 0 where
  pub events : List Found
  pub truncated : Bool
  pub dropped_count : ℕ
  pub queued : ℕ
  pub visited : ℕ

abbrev pub found_as : Edge → ℕ → Event → Found
found_as edge depth e = record {
  event_id = e.event_id;
  event_type = e.event_type;
  edge = edge;
  depth = depth;
}

-- `enumerate(..., start=depth)`
abbrev pub numbered : Edge → ℕ → List Event → List Found
numbered edge depth [] = []
numbered edge depth (e ∷ es) = found_as edge depth e ∷ numbered edge (depth + 1) es

-- The index of the first event with the seed's identifier.
unfoldable pub seed_index : ℕ → List Event → Option ℕ
seed_index seed_id [] = none
seed_index seed_id (e ∷ es) =
    let rest = seed_index seed_id es in
    if e.event_id == seed_id then some 0 else elim rest [ none ↦ none | some i ↦ some (suc i) ]

abbrev pub nothing : Expansion
nothing = record { events = []; truncated = false; dropped_count = 0; queued = 0; visited = 0 }

unfoldable pub candidates : List Event → ℕ → List Found
candidates events i =
    numbered previous_edge 1 (reverse (take i events)) ++ numbered next_edge 1 (drop (suc i) events)

unfoldable pub around : List Event → ℕ → ℕ → Option Event → Expansion
unfolding candidates
around events max_events i none = nothing
around events max_events i (some seed) =
    let near = candidates events i in
    let output = found_as seed_edge 0 seed ∷ take (max_events - 1) near in
    let dropped = length near - (max_events - 1) in
    record {
      events = take max_events output;
      truncated = ltb 0 dropped;
      dropped_count = dropped;
      queued = dropped;
      visited = length (take max_events output);
    }

unfoldable pub expand_from : List Event → ℕ → Option ℕ → Expansion
unfolding around
expand_from events max_events none = nothing
expand_from events max_events (some i) = around events max_events i (get_elem? events i)

unfoldable pub expand_temporal : List Event → ℕ → ℕ → Expansion
unfolding expand_from seed_index
expand_temporal events seed_id max_events =
    expand_from events max_events (seed_index seed_id events)

abbrev pub event_ids : List Event → List ℕ
event_ids [] = []
event_ids (e ∷ es) = e.event_id ∷ event_ids es

seed_index-first :
    (before after : List Event) (e : Event)
    → contains e.event_id (event_ids before) ≡ false
    → seed_index e.event_id (before ++ e ∷ after) ≡ some (length before)
unfolding seed_index
seed_index-first [] after e h = ground arith
seed_index-first (x ∷ before) after e h =
    let other : (x.event_id == e.event_id) ≡ false = ground arith in
    rw (other, seed_index-first before after e (ground arith)) refl

get_elem?-middle :
    (before after : List Event) (e : Event)
    → get_elem? (before ++ e ∷ after) (length before) ≡ some e
get_elem?-middle [] after e = refl
get_elem?-middle (x ∷ before) after e = get_elem?-middle before after e

take-middle : (before rest : List Event) → take (length before) (before ++ rest) ≡ before
take-middle [] [] = refl
take-middle [] (x ∷ rest) = refl
take-middle (x ∷ before) rest = ap (λ l. x ∷ l) (take-middle before rest)

drop-middle :
    (before after : List Event) (e : Event)
    → drop (suc (length before)) (before ++ e ∷ after) ≡ after
drop-middle [] after e = refl
drop-middle (x ∷ before) after e = drop-middle before after e

length-numbered : (edge : Edge) (n : ℕ) (es : List Event) → length (numbered edge n es) ≡ length es
length-numbered edge n [] = refl
length-numbered edge n (e ∷ es) = ap (λ k. suc k) (length-numbered edge (n + 1) es)

take-take : (n : ℕ) (xs : List Found) → take n (take n xs) ≡ take n xs
take-take zero xs = refl
take-take (suc n) [] = refl
take-take (suc n) (x ∷ xs) = ap (λ l. x ∷ l) (take-take n xs)

-- For a positive `max_events`, around the first event with the seed's identifier, at most
-- `max_events` events are returned: the seed, then the events before it, the nearest first, then
-- those after it, each with its distance; all events of the session are returned or counted as
-- dropped, and `truncated` says whether there are more than were asked for.
pub expand_temporal_lem :
    (before after : List Event) (e : Event) (max_events : ℕ)
    → 0 < max_events
    → contains e.event_id (event_ids before) ≡ false
    → let all = before ++ e ∷ after in
      let r = expand_temporal all e.event_id max_events in
      (r.events
        ≡ take max_events (
            found_as seed_edge 0 e
            ∷ (numbered previous_edge 1 (reverse before) ++ numbered next_edge 1 after)))
      × (length r.events + r.dropped_count ≡ length all)
      × (r.truncated ≡ ltb max_events (length all))
unfolding expand_temporal expand_from around candidates
expand_temporal_lem before after e zero h new = absurd (omega arith)
expand_temporal_lem before after e (suc n) h new =
    let m : suc n - 1 ≡ n = omega arith in
    let near : List Found =
      numbered previous_edge 1 (reverse before) ++ numbered next_edge 1 after in
    let size : length near ≡ length before + length after =
      length-append (numbered previous_edge 1 (reverse before)) (numbered next_edge 1 after)
      ∙ (omega (
        arith,
        length-numbered previous_edge 1 (reverse before),
        length-numbered next_edge 1 after,
        length-reverse before,
      )) in
    let all_size = length-append before (e ∷ after) in
    rw
      (
        seed_index-first before after e new,
        get_elem?-middle before after e,
        m,
        take-middle before (e ∷ after),
        drop-middle before after e,
        take-take n near,
      )
      (refl, omega (arith, length-take n near, size, all_size), ground (arith, size, all_size))

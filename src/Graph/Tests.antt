-- ===== src/Graph/Tests.antt =====
-- Tests of the expansion of the event graph.
use mneme_universal_context.Prelude.{
  ℕ, ◌+◌, ◌≡◌, refl, none, some, [], ◌∷◌, ◌++◌, reverse, arith, ltb, ◌==◌, if◌then◌else◌, length,
  take,
}
use mneme_universal_context.Graph.Temporal
use mneme_universal_context.Graph.{memory_read, other_type, Graph, Limits, State, expand_graph}
use mneme_universal_context.Graph.Reached.{AreFound}
use mneme_universal_context.Graph.Sound.{expand_graph-AreFound}
use mneme_universal_context.Graph.Terminates.{times, expand_graph-ends}

abbrev at_time : ℕ → Temporal.Event
at_time n = record { event_id = n; event_type = 1 }

expand_temporal_lem_example :
    let all = at_time 1 ∷ at_time 2 ∷ at_time 3 ∷ at_time 4 ∷ [] in
    let r = Temporal.expand_temporal all 3 3 in
    (r.events
      ≡ take 3 (
          Temporal.found_as Temporal.seed_edge 0 (at_time 3)
          ∷ (Temporal.numbered Temporal.previous_edge 1 (reverse (at_time 1 ∷ at_time 2 ∷ []))
              ++ Temporal.numbered Temporal.next_edge 1 (at_time 4 ∷ []))))
    × (length r.events + r.dropped_count ≡ length all)
    × (r.truncated ≡ ltb 3 (length all))
expand_temporal_lem_example =
    Temporal.expand_temporal_lem (at_time 1 ∷ at_time 2 ∷ []) (at_time 4 ∷ []) (at_time 3) 3
      (omega arith) refl

-- Three events in a row, the second a memory read.
abbrev chain : Graph
chain = record {
  get_event =
      λ k. if k == 2 then some memory_read else if ltb k 4 then some (other_type 1) else none;
  neighbors =
      λ k. record { event_id = k + 1; edge = 1 } ∷ record { event_id = k + 2; edge = 2 } ∷ [];
}

abbrev limits : Limits
limits = record {
  depth = 2;
  max_events = 10;
  max_traversal_steps = 20;
  max_frontier_size = 10;
  max_branching_factor = 5;
}

abbrev result : State
result = record {
  seen = 3 ∷ 2 ∷ 1 ∷ [];
  queue = [];
  output =
      record { event_id = 1; event_type = other_type 1; edge = 0; depth = 0 }
      ∷ record { event_id = 3; event_type = other_type 1; edge = 2; depth = 1 }
      ∷ [];
  truncation_reason = none;
  dropped_count = 0;
  visited_count = 3;
}

expand_graph-AreFound_example : AreFound chain limits 1 result
unfolding expand_graph
expand_graph-AreFound_example = expand_graph-AreFound 6 chain limits 1 result refl

expand_graph-ends_example : (s : State) × (expand_graph (times 20 6 + 2) chain limits 1 ≡ some s)
expand_graph-ends_example = expand_graph-ends chain limits 1

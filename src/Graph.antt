-- ===== src/Graph.antt =====
-- The expansion of the event graph: `expand_graph` of mneme_service/app.py. The events and, for the
-- mode asked for, the sorted neighbours are a `Graph`. The floating-point boost is left out.
pub mod Reached
pub mod Sound
pub mod Terminates
pub mod Temporal
mod Tests
use mneme_universal_context.Prelude.{
  ℕ, zero, suc, ◌+◌, ◌-◌, ◌*◌, ◌/◌, ◌≤◌, ◌<◌, max, min, ◌≡◌, ◌≢◌, ◌↔◌, ◌⊎◌, inl, inr, refl, sym, ap,
  ◌∙◌, Bool, true, false, not, ◌&&◌, ◌||◌, Option, none, some, List, [], ◌∷◌, ◌++◌, map, reverse,
  arith, ltb, leb, ◌==◌, if◌then◌else◌, Bool-cases, Option-cases, length, get_elem?, take, drop,
  filter, any, All, last_n, length-append, length-take, length-drop, contains, count, add_new,
  IsDistinct,
}

pub data NodeType : Type 0 where
  memory_read : NodeType
  other_type : ℕ → NodeType

pub record Neighbor : Type 0 where
  pub event_id : ℕ
  pub edge : ℕ

-- `store.get_event` and `graph_neighbors_for_expand`.
pub record Graph : Type 0 where
  pub get_event : ℕ → Option NodeType
  pub neighbors : ℕ → List Neighbor

pub record Limits : Type 0 where
  pub depth : ℕ
  pub max_events : ℕ
  pub max_traversal_steps : ℕ
  pub max_frontier_size : ℕ
  pub max_branching_factor : ℕ

pub record Item : Type 0 where
  pub event_id : ℕ
  pub edge : ℕ
  pub distance : ℕ

pub record Found : Type 0 where
  pub event_id : ℕ
  pub event_type : NodeType
  pub edge : ℕ
  pub depth : ℕ

pub data Truncation : Type 0 where
  at_max_events at_max_traversal_steps at_depth_limit at_max_branching_factor at_max_frontier_size :
      Truncation

pub record State : Type 0 where
  pub seen : List ℕ
  pub queue : List Item
  pub output : List Found
  pub truncation_reason : Option Truncation
  pub dropped_count : ℕ
  pub visited_count : ℕ

-- One turn of the loop leaves it or goes on.
pub data Turn : Type 0 where
  stop go_on : State → Turn

-- `truncation_reason or reason`
abbrev pub or_else : Option Truncation → Truncation → Option Truncation
or_else none reason = some reason
or_else (some t) reason = some t

abbrev pub is_new : State → Neighbor → Bool
is_new s n = not (contains n.event_id s.seen)

-- The loop over the neighbours, which is left when the queue overflows.
unfoldable pub enqueue : Limits → ℕ → List Neighbor → State → State
enqueue l distance [] s = s
enqueue l distance (n ∷ ns) s =
    let queue' =
      s.queue ++ record { event_id = n.event_id; edge = n.edge; distance = distance } ∷ [] in
    let skipped = enqueue l distance ns s in
    let added = enqueue l distance ns (record s { queue = queue' }) in
    if not (is_new s n)
    then skipped
    else if ltb l.max_frontier_size (length queue')
    then record s {
      queue = take l.max_frontier_size queue';
      truncation_reason = or_else s.truncation_reason at_max_frontier_size;
    }
    else added

-- The end of a turn, with the event in the output.
unfoldable pub expand : Graph → Limits → Item → State → State
unfolding enqueue
expand g l item s =
    let neighbors = g.neighbors item.event_id in
    let fresh = filter (is_new s) neighbors in
    if leb l.depth item.distance
    then if any (is_new s) neighbors
      then record s { truncation_reason = or_else s.truncation_reason at_depth_limit }
      else s
    else if ltb l.max_branching_factor (length fresh)
    then enqueue l (item.distance + 1) (take l.max_branching_factor fresh)
        (record s { truncation_reason = or_else s.truncation_reason at_max_branching_factor })
    else enqueue l (item.distance + 1) fresh s

-- An event that is seen for the first time.
unfoldable pub found : Graph → Limits → Item → NodeType → State → State
unfolding expand
found g l item memory_read s = s
found g l item (other_type t) s = expand g l item (record s {
  output =
      s.output
      ++ record {
        event_id = item.event_id;
        event_type = other_type t;
        edge = item.edge;
        depth = item.distance;
      }
        ∷ [];
})

unfoldable pub visit : Graph → Limits → Item → Option NodeType → State → Turn
unfolding found
visit g l item none s = go_on s
visit g l item (some t) s =
    if leb l.max_traversal_steps s.visited_count
    then stop (record s { truncation_reason = some at_max_traversal_steps })
    else go_on (
        found g l item t
          (record s { visited_count = s.visited_count + 1; seen = item.event_id ∷ s.seen }))

unfoldable pub turn_on : Graph → Limits → List Item → State → Turn
unfolding visit
turn_on g l [] s = stop s
turn_on g l (item ∷ rest) s =
    if leb l.max_events (length s.output)
    then stop (record s { truncation_reason = some at_max_events; dropped_count = length s.queue })
    else if contains item.event_id s.seen
    then go_on (record s { queue = rest })
    else visit g l item (g.get_event item.event_id) (record s { queue = rest })

unfoldable pub turn : Graph → Limits → State → Turn
unfolding turn_on
turn g l s = turn_on g l s.queue s

-- The loop, with fuel.
unfoldable pub run : ℕ → Graph → Limits → State → Option State
unfolding turn
run zero g l s = none
run (suc n) g l s = elim (turn g l s) [ stop s' ↦ some s' | go_on s' ↦ run n g l s' ]

abbrev pub seed_edge : ℕ
seed_edge = 0

unfoldable pub start : ℕ → State
start seed_id = record {
  seen = [];
  queue = record { event_id = seed_id; edge = seed_edge; distance = 0 } ∷ [];
  output = [];
  truncation_reason = none;
  dropped_count = 0;
  visited_count = 0;
}

unfoldable pub expand_graph : ℕ → Graph → Limits → ℕ → Option State
unfolding run start
expand_graph fuel g l seed_id = run fuel g l (start seed_id)

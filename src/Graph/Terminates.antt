-- ===== src/Graph/Terminates.antt =====
-- The expansion ends: each turn uses up what may still be visited or shortens the queue.
use mneme_universal_context.Prelude.{
  ℕ, zero, suc, ◌+◌, ◌-◌, ◌≤◌, ◌<◌, ◌≡◌, inl, inr, refl, sym, not, Option, none, some, List, [],
  ◌∷◌, ◌++◌, arith, ltb, leb, Bool-cases, length, take, filter, any, length-append, length-take,
  contains,
}
use mneme_universal_context.Graph.{
  NodeType, memory_read, other_type, Neighbor, Graph, Limits, Item, at_max_branching_factor, State,
  Turn, stop, go_on, or_else, is_new, enqueue, expand, found, visit, turn_on, turn, run, start,
  expand_graph,
}

-- `n` times `k`.
pub times : ℕ → ℕ → ℕ
times zero k = 0
times (suc n) k = k + times n k

pub measure : Limits → State → ℕ
unfolding times
measure l s =
    times (l.max_traversal_steps - s.visited_count) (suc l.max_branching_factor) + length s.queue

length-enqueue :
    (l : Limits) (distance : ℕ) (ns : List Neighbor) (s : State)
    → (length (enqueue l distance ns s).queue ≤ length s.queue + length ns)
      × ((enqueue l distance ns s).visited_count ≡ s.visited_count)
unfolding enqueue
length-enqueue l distance [] s = (omega arith, refl)
length-enqueue l distance (n ∷ ns) s =
    let item : Item = record { event_id = n.event_id; edge = n.edge; distance = distance } in
    let longer = length-append s.queue (item ∷ []) in
    let (skip, skip') = length-enqueue l distance ns s in
    let (add, add') = length-enqueue l distance ns (record s { queue = s.queue ++ item ∷ [] }) in
    elim (Bool-cases (not (is_new s n))) [
      | inl old ↦ rw old (omega arith, skip')
      | inr new ↦ elim (Bool-cases (ltb l.max_frontier_size (length (s.queue ++ item ∷ [])))) [
        | inl full ↦
            rw (new, full)
              (omega (arith, length-take l.max_frontier_size (s.queue ++ item ∷ [])), refl)
        | inr room ↦ rw (new, room) (omega arith, add')
      ]
    ]

length-expand :
    (g : Graph) (l : Limits) (item : Item) (s : State)
    → (length (expand g l item s).queue ≤ length s.queue + l.max_branching_factor)
      × ((expand g l item s).visited_count ≡ s.visited_count)
unfolding expand
length-expand g l item s =
    let fresh = filter (is_new s) (g.neighbors item.event_id) in
    let cut = record s {
      truncation_reason = or_else s.truncation_reason at_max_branching_factor;
    } in
    let (some_of, some_of') =
      length-enqueue l (item.distance + 1) (take l.max_branching_factor fresh) cut in
    let (all_of, all_of') = length-enqueue l (item.distance + 1) fresh s in
    elim (Bool-cases (leb l.depth item.distance)) [
      | inl deep ↦ elim (Bool-cases (any (is_new s) (g.neighbors item.event_id))) [
        | inl more ↦ rw (deep, more) (omega arith, refl)
        | inr no_more ↦ rw (deep, no_more) (omega arith, refl)
      ]
      | inr shallow ↦ elim (Bool-cases (ltb l.max_branching_factor (length fresh))) [
        | inl wide ↦
            rw (shallow, wide) (omega (arith, length-take l.max_branching_factor fresh), some_of')
        | inr narrow ↦
            let few : length fresh ≤ l.max_branching_factor = ground arith in
            rw (shallow, narrow) (omega arith, all_of')
      ]
    ]

length-found :
    (g : Graph) (l : Limits) (item : Item) (t : NodeType) (s : State)
    → (length (found g l item t s).queue ≤ length s.queue + l.max_branching_factor)
      × ((found g l item t s).visited_count ≡ s.visited_count)
unfolding found
length-found g l item memory_read s = (omega arith, refl)
length-found g l item (other_type t) s = length-expand g l item (record s {
  output =
      s.output
      ++ record {
        event_id = item.event_id;
        event_type = other_type t;
        edge = item.edge;
        depth = item.distance;
      }
        ∷ [];
})

-- A turn stops, or leaves less to do.
Smaller : Limits → ℕ → Turn → Type 0
Smaller l n (stop s) = Unit
Smaller l n (go_on s) = measure l s < n

times-less : (m v k : ℕ) → v < m → times (m - v) k ≡ k + times (m - (v + 1)) k
unfolding times
times-less m v k h = let e : m - v ≡ suc (m - (v + 1)) = omega arith in rw e refl

visit-Smaller :
    (g : Graph) (l : Limits) (item : Item) (o : Option NodeType) (s : State)
    → Smaller l (suc (measure l s)) (visit g l item o s)
unfolding Smaller visit measure
visit-Smaller g l item none s = omega arith
visit-Smaller g l item (some t) s =
    let s' = record s { visited_count = s.visited_count + 1; seen = item.event_id ∷ s.seen } in
    let (queue, visited) = length-found g l item t s' in
    elim (Bool-cases (leb l.max_traversal_steps s.visited_count)) [
      | inl full ↦ rw full tt
      | inr room ↦
          rw (room, visited)
            (omega (
              arith,
              times-less l.max_traversal_steps s.visited_count (suc l.max_branching_factor)
                  (ground arith),
              queue,
            ))
    ]

turn_on-Smaller :
    (g : Graph) (l : Limits) (q : List Item) (s : State)
    → q ≡ s.queue
    → Smaller l (measure l s) (turn_on g l q s)
unfolding Smaller turn_on measure
turn_on-Smaller g l [] s h = tt
turn_on-Smaller g l (item ∷ rest) s h =
    let size : length s.queue ≡ suc (length rest) = rw⁻¹ h refl in
    elim (Bool-cases (leb l.max_events (length s.output))) [
      | inl full ↦ rw full tt
      | inr room ↦ elim (Bool-cases (contains item.event_id s.seen)) [
        | inl old ↦ rw (room, old) (omega arith)
        | inr new ↦
            let e : suc (measure l (record s { queue = rest })) ≡ measure l s = omega arith in
            rw (room, new, sym e)
              (visit-Smaller g l item (g.get_event item.event_id) (record s { queue = rest }))
      ]
    ]

run-ends :
    (fuel : ℕ) (g : Graph) (l : Limits) (s : State)
    → measure l s < fuel
    → (s' : State) × (run fuel g l s ≡ some s')
unfolding run turn Smaller
run-ends zero g l s h = absurd (omega arith)
run-ends (suc n) g l s h =
    after (turn_on g l s.queue s) (turn_on-Smaller g l s.queue s refl) (λ s' k. run-ends n g l s' k)
  where
    after :
        (t : Turn)
        → Smaller l (measure l s) t
        → ((s' : State) → measure l s' < n → (s'' : State) × (run n g l s' ≡ some s''))
        → (s'' : State) × (Path
            (Option State)
            (elim t [ stop s' ↦ some s' | go_on s' ↦ run n g l s' ])
            (some s''))
    after (stop s') k r = (s', refl)
    after (go_on s') k r = r s' (omega arith)

-- An expansion ends within as many turns as the traversal limit times one more than the branching
-- limit, and two.
pub expand_graph-ends :
    (g : Graph) (l : Limits) (seed_id : ℕ)
    → let fuel = times l.max_traversal_steps (suc l.max_branching_factor) + 2 in
      (s : State) × (expand_graph fuel g l seed_id ≡ some s)
unfolding expand_graph measure start
expand_graph-ends g l seed_id =
    let all : l.max_traversal_steps - 0 ≡ l.max_traversal_steps = omega arith in
    run-ends (times l.max_traversal_steps (suc l.max_branching_factor) + 2) g l (start seed_id)
      (rw all (omega arith))

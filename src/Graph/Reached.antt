-- ===== src/Graph/Reached.antt =====
-- The events that an expansion queues are reached along neighbours, within the depth.
use mneme_universal_context.Prelude.{
  ℕ, zero, suc, ◌+◌, ◌≤◌, ◌<◌, ◌≡◌, ◌≢◌, inl, inr, Bool, true, not, some, List, [], ◌∷◌, ◌++◌,
  arith, ltb, leb, ◌==◌, Bool-cases, length, take, filter, any, All, contains, IsDistinct,
}
use mneme_universal_context.Graph.{
  memory_read, Neighbor, Graph, Limits, Item, Found, at_max_branching_factor, State, or_else,
  is_new, enqueue, expand,
}
use mneme_universal_context.Prelude.{All-append, All-map_weaken}

-- `Reached g seed k d`: `k` is `d` steps along neighbours away from `seed`.
pub data Reached (g : Graph) (seed : ℕ) : ℕ → ℕ → Type 0 where
  from_seed : Reached g seed seed 0
  along :
      (k d : ℕ) (n : Neighbor)
      → Reached g seed k d
      → any (λ (m : Neighbor). m.event_id == n.event_id) (g.neighbors k) ≡ true
      → Reached g seed n.event_id (d + 1)

abbrev pub found_ids : List Found → List ℕ
found_ids [] = []
found_ids (f ∷ fs) = f.event_id ∷ found_ids fs

abbrev pub IsQueued : Graph → Limits → ℕ → Item → Type 0
IsQueued g l seed i = Reached g seed i.event_id i.distance × (i.distance ≤ l.depth)

abbrev pub IsFound : Graph → Limits → ℕ → Found → Type 0
IsFound g l seed f =
    Reached g seed f.event_id f.depth
    × (f.depth ≤ l.depth)
    × (g.get_event f.event_id ≡ some f.event_type)
    × (f.event_type ≢ memory_read)

-- The events found so far.
abbrev pub AreFound : Graph → Limits → ℕ → State → Type 0
AreFound g l seed s =
    All (λ f. IsFound g l seed f) s.output
    × IsDistinct (found_ids s.output)
    × (length s.output ≤ l.max_events)
    × (length s.output ≤ s.visited_count)
    × (s.visited_count ≤ l.max_traversal_steps)

abbrev pub IsGood : Graph → Limits → ℕ → State → Type 0
IsGood g l seed s =
    AreFound g l seed s
    × All (λ i. IsQueued g l seed i) s.queue
    × All (λ (f : Found). contains f.event_id s.seen ≡ true) s.output

All-take : (P : Item → Type 0) (n : ℕ) (xs : List Item) → All P xs → All P (take n xs)
All-take P zero xs h = tt
All-take P (suc n) [] h = tt
All-take P (suc n) (x ∷ xs) h = (h.0, All-take P n xs h.1)

AreNeighbors : Graph → ℕ → List Neighbor → Type 0
AreNeighbors g k ns =
    All (λ (n : Neighbor). any (λ (m : Neighbor). m.event_id == n.event_id) (g.neighbors k) ≡ true)
      ns

all_in :
    (g : Graph) (k : ℕ) (p : Neighbor → Bool) (ns : List Neighbor)
    → AreNeighbors g k ns
    → AreNeighbors g k (filter p ns)
unfolding AreNeighbors
all_in g k p [] h = tt
all_in g k p (n ∷ ns) (here, there) = elim (Bool-cases (p n)) [
  | inl kept ↦ rw kept (here, all_in g k p ns there)
  | inr gone ↦ rw gone (all_in g k p ns there)
]

all_taken :
    (g : Graph) (k b : ℕ) (ns : List Neighbor) → AreNeighbors g k ns → AreNeighbors g k (take b ns)
unfolding AreNeighbors
all_taken g k zero ns h = tt
all_taken g k (suc b) [] h = tt
all_taken g k (suc b) (n ∷ ns) (here, there) = (here, all_taken g k b ns there)

self_in :
    (ns : List Neighbor)
    → All (λ (n : Neighbor). any (λ (m : Neighbor). m.event_id == n.event_id) ns ≡ true) ns
self_in [] = tt
self_in (x ∷ ns) = (
  ground arith,
  All-map_weaken (λ (n : Neighbor). any (λ (m : Neighbor). m.event_id == n.event_id) ns ≡ true)
      (λ (n : Neighbor). any (λ (m : Neighbor). m.event_id == n.event_id) (x ∷ ns) ≡ true)
      (λ n h. ground arith) ns (self_in ns),
)

enqueue-IsGood :
    (g : Graph) (l : Limits) (seed k d : ℕ) (ns : List Neighbor) (s : State)
    → Reached g seed k d
    → d < l.depth
    → AreNeighbors g k ns
    → IsGood g l seed s
    → IsGood g l seed (enqueue l (d + 1) ns s)
unfolding enqueue AreNeighbors
enqueue-IsGood g l seed k d [] s r h a good = good
enqueue-IsGood g l seed k d (n ∷ ns) s r h (here, there) (fs, qs, old) =
    let item : Item = record { event_id = n.event_id; edge = n.edge; distance = d + 1 } in
    let queued : IsQueued g l seed item = (along k d n r here, omega arith) in
    let longer : All (λ i. IsQueued g l seed i) (s.queue ++ item ∷ []) =
      All-append (λ i. IsQueued g l seed i) s.queue (item ∷ []) qs (queued, tt) in
    elim (Bool-cases (not (is_new s n))) [
      | inl skip ↦ rw skip (enqueue-IsGood g l seed k d ns s r h there (fs, qs, old))
      | inr new ↦ elim (Bool-cases (ltb l.max_frontier_size (length (s.queue ++ item ∷ [])))) [
        | inl full ↦
            rw (new, full)
              (
                fs,
                All-take (λ i. IsQueued g l seed i) l.max_frontier_size (s.queue ++ item ∷ [])
                    longer,
                old,
              )
        | inr room ↦
            rw (new, room)
              (enqueue-IsGood g l seed k d ns (record s { queue = s.queue ++ item ∷ [] }) r h there
                (fs, longer, old))
      ]
    ]

pub expand-IsGood :
    (g : Graph) (l : Limits) (seed : ℕ) (item : Item) (s : State)
    → IsQueued g l seed item
    → IsGood g l seed s
    → IsGood g l seed (expand g l item s)
unfolding expand AreNeighbors
expand-IsGood g l seed item s (r, h) good =
    let k = item.event_id in
    let ns = g.neighbors k in
    let fresh = filter (is_new s) ns in
    let near : AreNeighbors g k fresh = all_in g k (is_new s) ns (self_in ns) in
    let cut = record s {
      truncation_reason = or_else s.truncation_reason at_max_branching_factor;
    } in
    elim (Bool-cases (leb l.depth item.distance)) [
      | inl deep ↦ elim (Bool-cases (any (is_new s) ns)) [
        | inl more ↦ rw (deep, more) good
        | inr no_more ↦ rw (deep, no_more) good
      ]
      | inr shallow ↦
          let d : item.distance < l.depth = ground arith in
          elim (Bool-cases (ltb l.max_branching_factor (length fresh))) [
            | inl wide ↦
                rw (shallow, wide)
                  (enqueue-IsGood g l seed k item.distance (take l.max_branching_factor fresh) cut r
                    d (all_taken g k l.max_branching_factor fresh near) good)
            | inr narrow ↦
                rw (shallow, narrow) (enqueue-IsGood g l seed k item.distance fresh s r d near good)
          ]
    ]

-- ===== src/Graph/Sound.antt =====
-- What an expansion returns: events reached along neighbours, each once, within the limits.
use mneme_universal_context.Prelude.{
  ℕ, zero, suc, ◌+◌, ◌<◌, ◌≡◌, inl, inr, refl, sym, ap, true, false, Option, none, some, List, [],
  ◌∷◌, ◌++◌, arith, leb, ◌==◌, Bool-cases, length, All, length-append, contains,
}
use mathlib.Core.Path.{subst}
use mathlib.Core.Option.{some-injective}
use mneme_universal_context.Graph.{
  NodeType, memory_read, other_type, Graph, Limits, Item, Found, State, Turn, stop, go_on, found,
  visit, turn_on, turn, run, start, expand_graph,
}
use mneme_universal_context.Prelude.{All-append, All-map_weaken, IsDistinct-snoc}
use mneme_universal_context.Graph.Reached.{
  from_seed, found_ids, IsQueued, IsFound, AreFound, IsGood, expand-IsGood,
}

found_ids-append : (fs gs : List Found) → found_ids (fs ++ gs) ≡ found_ids fs ++ found_ids gs
found_ids-append [] gs = refl
found_ids-append (f ∷ fs) gs = ap (λ l. f.event_id ∷ l) (found_ids-append fs gs)

unseen :
    (k : ℕ) (seen : List ℕ) (fs : List Found)
    → All (λ (f : Found). contains f.event_id seen ≡ true) fs
    → contains k seen ≡ false
    → contains k (found_ids fs) ≡ false
unseen k seen [] h e = refl
unseen k seen (f ∷ fs) (here, there) e = elim (Bool-cases (k == f.event_id)) [
  | inl same ↦
      let eq : k ≡ f.event_id = ground arith in
      absurd (ground (arith, subst (λ x. contains x seen ≡ true) (sym eq) here))
  | inr other ↦ rw (other, unseen k seen fs there e) refl
]

seen_more :
    (k : ℕ) (seen : List ℕ) (fs : List Found)
    → All (λ (f : Found). contains f.event_id seen ≡ true) fs
    → All (λ (f : Found). contains f.event_id (k ∷ seen) ≡ true) fs
seen_more k seen fs h =
    All-map_weaken (λ (f : Found). contains f.event_id seen ≡ true)
      (λ (f : Found). contains f.event_id (k ∷ seen) ≡ true) (λ f e. ground arith) fs h

IsGoodTurn : Graph → Limits → ℕ → Turn → Type 0
IsGoodTurn g l seed (stop s) = AreFound g l seed s
IsGoodTurn g l seed (go_on s) = IsGood g l seed s

found-IsGood :
    (g : Graph) (l : Limits) (seed : ℕ) (item : Item) (t : NodeType) (s : State)
    → IsQueued g l seed item
    → g.get_event item.event_id ≡ some t
    → contains item.event_id s.seen ≡ false
    → length s.output < l.max_events
    → s.visited_count < l.max_traversal_steps
    → IsGood g l seed s
    → IsGood g l seed (
        found g l item t
          (record s { visited_count = s.visited_count + 1; seen = item.event_id ∷ s.seen }))
unfolding found
found-IsGood g l seed item memory_read s q e new room more ((fs, d, n, v, m), qs, old) =
    ((fs, d, n, omega arith, omega arith), qs, seen_more item.event_id s.seen s.output old)
found-IsGood g l seed item (other_type t) s q e new room more ((fs, d, n, v, m), qs, old) =
    let f : Found = record {
      event_id = item.event_id;
      event_type = other_type t;
      edge = item.edge;
      depth = item.distance;
    } in
    let ids = found_ids-append s.output (f ∷ []) in
    let size = length-append s.output (f ∷ []) in
    expand-IsGood g l seed item
      (record s {
        visited_count = s.visited_count + 1;
        seen = item.event_id ∷ s.seen;
        output = s.output ++ f ∷ [];
      })
      q
      (
        (
          All-append (λ x. IsFound g l seed x) s.output (f ∷ []) fs ((q.0, q.1, e, λ eq. cc), tt),
          rw ids (
              IsDistinct-snoc item.event_id (found_ids s.output)
                (unseen item.event_id s.seen s.output old new) d),
          omega arith,
          omega arith,
          omega arith,
        ),
        qs,
        All-append (λ (x : Found). contains x.event_id (item.event_id ∷ s.seen) ≡ true) s.output
            (f ∷ []) (seen_more item.event_id s.seen s.output old) (ground arith, tt),
      )

visit-IsGoodTurn :
    (g : Graph) (l : Limits) (seed : ℕ) (item : Item) (o : Option NodeType) (s : State)
    → o ≡ g.get_event item.event_id
    → IsQueued g l seed item
    → contains item.event_id s.seen ≡ false
    → length s.output < l.max_events
    → IsGood g l seed s
    → IsGoodTurn g l seed (visit g l item o s)
unfolding IsGoodTurn visit
visit-IsGoodTurn g l seed item none s e q new room good = good
visit-IsGoodTurn g l seed item (some t) s e q new room good =
    elim (Bool-cases (leb l.max_traversal_steps s.visited_count)) [
      | inl full ↦ rw full good.0
      | inr more ↦ rw more (found-IsGood g l seed item t s q (sym e) new room (ground arith) good)
    ]

turn_on-IsGoodTurn :
    (g : Graph) (l : Limits) (seed : ℕ) (queue : List Item) (s : State)
    → s.queue ≡ queue
    → IsGood g l seed s
    → IsGoodTurn g l seed (turn_on g l queue s)
unfolding IsGoodTurn turn_on
turn_on-IsGoodTurn g l seed [] s e good = good.0
turn_on-IsGoodTurn g l seed (item ∷ rest) s e (fs, qs, old) =
    let (here, there) = subst (λ xs. All (λ i. IsQueued g l seed i) xs) e qs in
    elim (Bool-cases (leb l.max_events (length s.output))) [
      | inl full ↦ rw full fs
      | inr room ↦ elim (Bool-cases (contains item.event_id s.seen)) [
        | inl again ↦ rw (room, again) (fs, there, old)
        | inr new ↦
            rw (room, new)
              (visit-IsGoodTurn g l seed item (g.get_event item.event_id)
                (record s { queue = rest }) refl here new (ground arith) (fs, there, old))
      ]
    ]

run-AreFound :
    (fuel : ℕ) (g : Graph) (l : Limits) (seed : ℕ) (s s' : State)
    → IsGood g l seed s
    → run fuel g l s ≡ some s'
    → AreFound g l seed s'
unfolding run turn IsGoodTurn
run-AreFound zero g l seed s s' good e = absurd cc
run-AreFound (suc n) g l seed s s' good e =
    after (turn_on g l s.queue s) (turn_on-IsGoodTurn g l seed s.queue s refl good)
      (λ t k e'. run-AreFound n g l seed t s' k e') e
  where
    after :
        (t : Turn)
        → IsGoodTurn g l seed t
        → ((t' : State) → IsGood g l seed t' → run n g l t' ≡ some s' → AreFound g l seed s')
        → Path (Option State) (elim t [ stop t' ↦ some t' | go_on t' ↦ run n g l t' ]) (some s')
        → AreFound g l seed s'
    after (stop t') k r e = subst (λ x. AreFound g l seed x) (some-injective t' s' e) k
    after (go_on t') k r e = r t' k e

-- The events of an expansion that has ended are each once in it and none is a memory read; each is
-- reached from the seed by as many steps as its depth says, at most the depth limit, and has the
-- type that the store has for it; and there are at most `max_events` of them, found in at most
-- `max_traversal_steps` visits.
pub expand_graph-AreFound :
    (fuel : ℕ) (g : Graph) (l : Limits) (seed_id : ℕ) (s : State)
    → expand_graph fuel g l seed_id ≡ some s
    → AreFound g l seed_id s
unfolding expand_graph start
expand_graph-AreFound fuel g l seed_id s e =
    run-AreFound fuel g l seed_id (start seed_id) s
      ((tt, tt, omega arith, omega arith, omega arith), ((from_seed, omega arith), tt), tt) e

-- ===== src/Lineage/Walk.antt =====
-- The breadth-first walk of `Store.lineage_session_ids` in mneme_service/storage.py, for one of its
-- two loops: `rows` gives the sessions that the query returns for a session. `seen` and `ordered`
-- hold the same identifiers, so one list stands for both.
pub mod Reached
pub mod Closed
use mneme_universal_context.Prelude.{
  ℕ, zero, suc, ◌+◌, ◌-◌, ◌*◌, ◌/◌, ◌≤◌, ◌<◌, max, min, ◌≡◌, ◌≢◌, ◌⊎◌, inl, inr, refl, sym, ap, ◌∙◌,
  Bool, true, false, not, ◌&&◌, ◌||◌, Option, none, some, List, [], ◌∷◌, ◌++◌, map, reverse, arith,
  ltb, leb, ◌==◌, if◌then◌else◌, Bool-cases, Option-cases, length, get_elem?, take, drop, filter,
  any, All, last_n, length-append, length-take, length-drop, contains, count, add_new, IsDistinct,
}

module _ (rows : ℕ → List ℕ) where
  -- `for row in rows`: the identifiers in order, and the next frontier.
  unfoldable pub visit : List ℕ → List ℕ → List ℕ → List ℕ × List ℕ
  visit [] ordered next = (ordered, next)
  visit (a ∷ bs) ordered next =
      let new = not (a == 0) && not (contains a ordered) in
      visit bs (if new then ordered ++ a ∷ [] else ordered) (if new then next ++ a ∷ [] else next)

  pub visit-new :
      (a : ℕ) (bs ordered next : List ℕ)
      → (not (a == 0) && not (contains a ordered)) ≡ true
      → visit (a ∷ bs) ordered next ≡ visit bs (ordered ++ a ∷ []) (next ++ a ∷ [])
  unfolding visit
  visit-new a bs ordered next h =
      ap
        (λ (b : Bool).
          visit bs (if b then ordered ++ a ∷ [] else ordered) (if b then next ++ a ∷ [] else next))
        h

  pub visit-old :
      (a : ℕ) (bs ordered next : List ℕ)
      → (not (a == 0) && not (contains a ordered)) ≡ false
      → visit (a ∷ bs) ordered next ≡ visit bs ordered next
  unfolding visit
  visit-old a bs ordered next h =
      ap
        (λ (b : Bool).
          visit bs (if b then ordered ++ a ∷ [] else ordered) (if b then next ++ a ∷ [] else next))
        h

  pub visit-nil : (ordered next : List ℕ) → visit [] ordered next ≡ (ordered, next)
  unfolding visit
  visit-nil ordered next = refl

  -- `for current in frontier`
  abbrev pub visit_frontier : List ℕ → List ℕ → List ℕ → List ℕ × List ℕ
  visit_frontier [] ordered next = (ordered, next)
  visit_frontier (c ∷ cs) ordered next =
      let (ordered', next') = visit (rows c) ordered next in visit_frontier cs ordered' next'

  -- `while frontier`, with fuel.
  unfoldable pub walk : ℕ → List ℕ → List ℕ → List ℕ
  walk zero frontier ordered = ordered
  walk (suc fuel) [] ordered = ordered
  walk (suc fuel) (c ∷ cs) ordered =
      let (ordered', next) = visit_frontier (c ∷ cs) ordered [] in walk fuel next ordered'

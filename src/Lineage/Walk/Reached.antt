-- ===== src/Lineage/Walk/Reached.antt =====
-- What the walk reaches: it adds only what a predicate that the rows preserve allows, keeps the
-- identifiers distinct, and keeps what was there in front.
use mneme_universal_context.Prelude.{
  ℕ, zero, suc, ◌≡◌, ◌≢◌, inl, inr, true, not, ◌&&◌, List, [], ◌∷◌, ◌++◌, arith, ◌==◌, Bool-cases,
  All, contains, IsDistinct,
}
use mneme_universal_context.Prelude.{All-append, IsDistinct-snoc, contains-append}
use mneme_universal_context.Lineage.Walk.{
  visit, visit-new, visit-old, visit-nil, visit_frontier, walk,
}

module _ (rows : ℕ → List ℕ) where
  -- The frontiers satisfy `P`, and what is listed satisfies the weaker `Q`.
  module _ (P Q : ℕ → Type 0) (weaken : (x : ℕ) → P x → Q x) where
    visit-All :
        (bs ordered next : List ℕ)
        → All (λ a. a ≢ 0 → P a) bs
        → All Q ordered
        → All P next
        → All Q (visit rows bs ordered next).0 × All P (visit rows bs ordered next).1
    visit-All [] ordered next h o n = rw (visit-nil rows ordered next) (o, n)
    visit-All (a ∷ bs) ordered next (p, h) o n =
        elim (Bool-cases (not (a == 0) && not (contains a ordered))) [
          | inl new ↦
              let pa : P a = p (ground arith) in
              rw (visit-new rows a bs ordered next new) (
                visit-All bs (ordered ++ a ∷ []) (next ++ a ∷ []) h
                  (All-append Q ordered (a ∷ []) o (weaken a pa, tt))
                  (All-append P next (a ∷ []) n (pa, tt)))
          | inr old ↦ rw (visit-old rows a bs ordered next old) (visit-All bs ordered next h o n)
        ]

    module _ (step : (c : ℕ) → P c → All (λ a. a ≢ 0 → P a) (rows c)) where
      visit_frontier-All :
          (cs ordered next : List ℕ)
          → All P cs
          → All Q ordered
          → All P next
          → All Q (visit_frontier rows cs ordered next).0
            × All P (visit_frontier rows cs ordered next).1
      visit_frontier-All [] ordered next f o n = (o, n)
      visit_frontier-All (c ∷ cs) ordered next (p, f) o n =
          let v = visit-All (rows c) ordered next (step c p) o n in
          visit_frontier-All cs (visit rows (rows c) ordered next).0
            (visit rows (rows c) ordered next).1 f v.0 v.1

      -- All that the frontiers reach satisfies a predicate that the rows preserve.
      pub walk-All :
          (fuel : ℕ) (frontier ordered : List ℕ)
          → All P frontier
          → All Q ordered
          → All Q (walk rows fuel frontier ordered)
      unfolding walk
      walk-All zero frontier ordered f o = o
      walk-All (suc fuel) [] ordered f o = o
      walk-All (suc fuel) (c ∷ cs) ordered f o =
          let v = visit_frontier-All (c ∷ cs) ordered [] f o tt in
          walk-All fuel (visit_frontier rows (c ∷ cs) ordered []).1
            (visit_frontier rows (c ∷ cs) ordered []).0 v.1 v.0

  visit-IsDistinct :
      (bs ordered next : List ℕ) → IsDistinct ordered → IsDistinct (visit rows bs ordered next).0
  visit-IsDistinct [] ordered next d = rw (visit-nil rows ordered next) d
  visit-IsDistinct (a ∷ bs) ordered next d =
      elim (Bool-cases (not (a == 0) && not (contains a ordered))) [
        | inl new ↦ rw (visit-new rows a bs ordered next new) (
            visit-IsDistinct bs (ordered ++ a ∷ []) (next ++ a ∷ [])
              (IsDistinct-snoc a ordered (ground arith) d))
        | inr old ↦ rw (visit-old rows a bs ordered next old) (visit-IsDistinct bs ordered next d)
      ]

  visit_frontier-IsDistinct :
      (cs ordered next : List ℕ)
      → IsDistinct ordered
      → IsDistinct (visit_frontier rows cs ordered next).0
  visit_frontier-IsDistinct [] ordered next d = d
  visit_frontier-IsDistinct (c ∷ cs) ordered next d =
      visit_frontier-IsDistinct cs (visit rows (rows c) ordered next).0
        (visit rows (rows c) ordered next).1 (visit-IsDistinct (rows c) ordered next d)

  -- No identifier is listed twice.
  pub walk-IsDistinct :
      (fuel : ℕ) (frontier ordered : List ℕ)
      → IsDistinct ordered
      → IsDistinct (walk rows fuel frontier ordered)
  unfolding walk
  walk-IsDistinct zero frontier ordered d = d
  walk-IsDistinct (suc fuel) [] ordered d = d
  walk-IsDistinct (suc fuel) (c ∷ cs) ordered d =
      walk-IsDistinct fuel (visit_frontier rows (c ∷ cs) ordered []).1
        (visit_frontier rows (c ∷ cs) ordered []).0
        (visit_frontier-IsDistinct (c ∷ cs) ordered [] d)

  visit-keeps :
      (bs ordered next : List ℕ) (x : ℕ)
      → contains x ordered ≡ true
      → contains x (visit rows bs ordered next).0 ≡ true
  visit-keeps [] ordered next x h = rw (visit-nil rows ordered next) h
  visit-keeps (a ∷ bs) ordered next x h =
      elim (Bool-cases (not (a == 0) && not (contains a ordered))) [
        | inl new ↦ rw (visit-new rows a bs ordered next new) (
            visit-keeps bs (ordered ++ a ∷ []) (next ++ a ∷ []) x
              (ground (arith, contains-append x ordered (a ∷ []))))
        | inr old ↦ rw (visit-old rows a bs ordered next old) (visit-keeps bs ordered next x h)
      ]

  visit_frontier-keeps :
      (cs ordered next : List ℕ) (x : ℕ)
      → contains x ordered ≡ true
      → contains x (visit_frontier rows cs ordered next).0 ≡ true
  visit_frontier-keeps [] ordered next x h = h
  visit_frontier-keeps (c ∷ cs) ordered next x h =
      visit_frontier-keeps cs (visit rows (rows c) ordered next).0
        (visit rows (rows c) ordered next).1 x (visit-keeps (rows c) ordered next x h)

  -- What is listed stays listed.
  pub walk-keeps :
      (fuel : ℕ) (frontier ordered : List ℕ) (x : ℕ)
      → contains x ordered ≡ true
      → contains x (walk rows fuel frontier ordered) ≡ true
  unfolding walk
  walk-keeps zero frontier ordered x h = h
  walk-keeps (suc fuel) [] ordered x h = h
  walk-keeps (suc fuel) (c ∷ cs) ordered x h =
      walk-keeps fuel (visit_frontier rows (c ∷ cs) ordered []).1
        (visit_frontier rows (c ∷ cs) ordered []).0 x (visit_frontier-keeps (c ∷ cs) ordered [] x h)

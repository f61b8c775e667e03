-- ===== src/Ranking.antt =====
-- The order that a reranker gives to the results of a search: `reranked_results` of
-- mneme_service/app.py. Scores are numbers; an index is `none` where it is negative.
mod Tests
use mathlib.Core.Option.{some-injective}
use mathlib.Core.Path.{subst}
use mneme_universal_context.Prelude.{
  ℕ, zero, suc, ◌+◌, ◌-◌, ◌*◌, ◌/◌, ◌≤◌, ◌<◌, max, min, ◌≡◌, ◌≢◌, ◌↔◌, ◌⊎◌, inl, inr, refl, sym, ap,
  ◌∙◌, Bool, true, false, not, ◌&&◌, ◌||◌, Option, none, some, List, [], ◌∷◌, ◌++◌, map, reverse,
  arith, ltb, leb, ◌==◌, if◌then◌else◌, Bool-cases, Option-cases, length, get_elem?, take, drop,
  filter, any, All, last_n, length-append, length-take, length-drop, contains, count, add_new,
  IsDistinct,
}

pub record Item : Type 0 where
  pub event_id : ℕ
  pub score : ℕ
  pub is_reranked : Bool

pub record Score : Type 0 where
  pub index : Option ℕ
  pub score : ℕ

-- The items whose index, counted from `i`, is not used.
abbrev pub unused : List ℕ → ℕ → List Item → List Item
unused used i [] = []
unused used i (x ∷ xs) =
    let rest = unused used (suc i) xs in if contains i used then rest else x ∷ rest

abbrev pub rescored : ℕ → Item → Item
rescored score x = record x { score = score; is_reranked = true }

-- The loop over the scores, and the items that are left.
unfoldable pub rerank_from : List Item → List ℕ → List Score → List Item
rerank_from items used [] = unused used 0 items
rerank_from items used (s ∷ ss) =
    let skipped = rerank_from items used ss in
    elim s.index [
      | none ↦ skipped
      | some i ↦
          let taken = rerank_from items (i ∷ used) ss in
          if contains i used
          then skipped
          else elim (get_elem? items i) [ none ↦ skipped | some x ↦ rescored s.score x ∷ taken ]
    ]

unfoldable pub reranked_results : List Item → List Score → List Item
unfolding rerank_from
reranked_results items scores = rerank_from items [] scores

abbrev pub event_ids : List Item → List ℕ
event_ids [] = []
event_ids (x ∷ xs) = x.event_id ∷ event_ids xs

unused-later :
    (used : List ℕ) (j i : ℕ) (xs : List Item) → j < i → unused (j ∷ used) i xs ≡ unused used i xs
unused-later used j i [] h = refl
unused-later used j i (x ∷ xs) h =
    let other : (i == j) ≡ false = ground arith in
    rw (other, unused-later used j (suc i) xs (omega arith)) refl

-- To use the item at an index takes it out of the items that are not used.
count-unused :
    (k : ℕ) (used : List ℕ) (i m j : ℕ) (xs : List Item) (x : Item)
    → j ≡ i + m
    → get_elem? xs m ≡ some x
    → contains j used ≡ false
    → count k (event_ids (unused used i xs))
      ≡ (if k == x.event_id then 1 else 0) + count k (event_ids (unused (j ∷ used) i xs))
count-unused k used i m j [] x p e h = cc
count-unused k used i zero j (y ∷ ys) x p e h =
    let here : i ≡ j = omega arith in
    let free : contains i used ≡ false = subst (λ n. contains n used ≡ false) (sym here) h in
    let self : (i == j) ≡ true = ground arith in
    let same : y ≡ x = some-injective y x e in
    rw (free, self, unused-later used j (suc i) ys (omega arith), same) refl
count-unused k used i (suc m) j (y ∷ ys) x p e h =
    let other : (i == j) ≡ false = ground arith in
    let rest = count-unused k used (suc i) m j ys x (omega arith) e h in
    elim (Bool-cases (contains i used)) [
      | inl old ↦ rw (other, old) rest
      | inr new ↦ rw (other, new) (omega (arith, rest))
    ]

rerank_from-count :
    (k : ℕ) (items : List Item) (used : List ℕ) (ss : List Score)
    → count k (event_ids (rerank_from items used ss)) ≡ count k (event_ids (unused used 0 items))
unfolding rerank_from
rerank_from-count k items used [] = refl
rerank_from-count k items used (s ∷ ss) =
    let skip = rerank_from-count k items used ss in
    elim (Option-cases s.index) [
      | inl negative ↦ rw negative skip
      | inr (i, e) ↦ elim (Bool-cases (contains i used)) [
        | inl old ↦ rw (e, old) skip
        | inr new ↦ elim (Option-cases (get_elem? items i)) [
          | inl outside ↦ rw (e, new, outside) skip
          | inr (x, found) ↦
              rw (e, new, found)
                (omega (
                  arith,
                  rerank_from-count k items (i ∷ used) ss,
                  count-unused k used 0 i i items x (omega arith) found new,
                ))
        ]
      ]
    ]

unused_none : (i : ℕ) (xs : List Item) → unused [] i xs ≡ xs
unused_none i [] = refl
unused_none i (x ∷ xs) = ap (λ l. x ∷ l) (unused_none (suc i) xs)

-- Whatever scores the reranker answers, with indices that are out of range, negative or repeated,
-- each event is as often in the results as it was.
pub reranked_results-count :
    (items : List Item) (scores : List Score) (k : ℕ)
    → count k (event_ids (reranked_results items scores)) ≡ count k (event_ids items)
unfolding reranked_results
reranked_results-count items scores k =
    rerank_from-count k items [] scores ∙ ap (λ l. count k (event_ids l)) (unused_none 0 items)

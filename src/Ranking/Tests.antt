-- ===== src/Ranking/Tests.antt =====
-- Tests of the order of reranked results.
use mneme_universal_context.Prelude.{ℕ, ◌≡◌, refl, false, none, some, List, [], ◌∷◌, count}
use mneme_universal_context.Ranking.{
  Item, Score, reranked_results, event_ids, reranked_results-count,
}

abbrev item : ℕ → Item
item n = record { event_id = n; score = 0; is_reranked = false }

abbrev items : List Item
items = item 10 ∷ item 11 ∷ item 12 ∷ []

abbrev scores : List Score
scores =
    record { index = some 2; score = 9 }
    ∷ record { index = some 2; score = 8 }
    ∷ record { index = some 7; score = 5 }
    ∷ record { index = none; score = 4 }
    ∷ record { index = some 0; score = 3 }
    ∷ []

reranked_results-count_example :
    count 12 (event_ids (reranked_results items scores)) ≡ count 12 (event_ids items)
reranked_results-count_example = reranked_results-count items scores 12

reranked_order : event_ids (reranked_results items scores) ≡ 12 ∷ 10 ∷ 11 ∷ []
unfolding reranked_results
reranked_order = refl

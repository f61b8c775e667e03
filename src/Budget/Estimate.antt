-- ===== src/Budget/Estimate.antt =====
-- Token estimates and the cut of a text to a budget: `token_estimate` of mneme_service/utils.py and
-- `truncate_to_token_budget` of mneme_service/app.py. A negative budget cuts like the budget 0.
use mneme_universal_context.Prelude.{
  ℕ, ◌+◌, ◌*◌, ◌/◌, ◌≤◌, max, ◌≡◌, refl, [], ◌∷◌, arith, leb, ◌==◌, if◌then◌else◌, length, take,
  length-take,
}
use mneme_universal_context.Prelude.Text.{Text, is_space, rstrip, length-rstrip-le}

unfoldable pub token_estimate : Text → ℕ
token_estimate [] = 0
token_estimate (c ∷ s) = max 1 ((length (c ∷ s) + 3) / 4)

unfoldable pub truncate_to_token_budget : Text → ℕ → Text
truncate_to_token_budget text budget_tokens =
    let max_chars = budget_tokens * 4 in
    if leb budget_tokens 0
    then []
    else if max_chars == 0
    then []
    else rstrip is_space (take max_chars text)

-- The estimate is the length in quarters, rounded up, also at the empty text.
pub token_estimate-length : (s : Text) → token_estimate s ≡ (length s + 3) / 4
unfolding token_estimate
token_estimate-length [] = refl
token_estimate-length (c ∷ s) = omega arith

-- A text that is cut to a budget is estimated within that budget.
pub token_estimate-truncate-le :
    (s : Text) (b : ℕ) → token_estimate (truncate_to_token_budget s b) ≤ b
unfolding truncate_to_token_budget
token_estimate-truncate-le s b =
    rw token_estimate-length
      (ground (arith, length-rstrip-le is_space (take (b * 4) s), length-take (b * 4) s))

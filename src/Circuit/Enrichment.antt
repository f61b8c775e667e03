-- ===== src/Circuit/Enrichment.antt =====
-- `HttpLLMEnrichmentProvider.enrich` of mneme_service/enrichment.py. The HTTP call is an argument:
-- the updates that `parse_enrichment_response` makes of the response, as a number of changed
-- fields, or `none` where the call or the parse raises an error that the method catches.
use mneme_universal_context.Prelude.{
  ℕ, ◌≤◌, ◌<◌, ◌≡◌, ◌≢◌, refl, Bool, true, false, not, ◌||◌, Option, none, some, List, [], arith,
  if◌then◌else◌,
}
use mneme_universal_context.Circuit.{
  Limits, threshold, Breaker, closed, circuit_open, after_cooldown, record_success, record_failure,
}

pub record EnrichmentResult : Type 0 where
  pub updates : List ℕ
  pub degraded : Bool

abbrev pub unavailable : EnrichmentResult
unavailable = record { updates = []; degraded = true }

abbrev pub enrich_answer : Limits → Breaker → ℕ → Option (List ℕ) → EnrichmentResult × Breaker
enrich_answer l b now none = (unavailable, record_failure l b now)
enrich_answer l b now (some updates) =
    (record { updates = updates; degraded = false }, record_success b)

-- The clock is read for the open test, the cooldown test and the failure.
pub enrich :
    Limits → Bool → Bool → Option (List ℕ) → ℕ → ℕ → ℕ → Breaker → EnrichmentResult × Breaker
enrich l endpoint_set model_set answer at_test at_cooldown at_failure b =
    if circuit_open b at_test
    then (unavailable, b)
    else let b' = after_cooldown b at_cooldown in
      if not endpoint_set || not model_set
      then (unavailable, record_failure l b' at_failure)
      else enrich_answer l b' at_failure answer

-- Once the cooldown has passed, with a threshold above one and the endpoint and the model set, a
-- call is made again and the count starts anew: success closes the
-- circuit, and a failure is the first of a new count; and a degraded result never has updates.
pub enrich_after_cooldown :
    (l : Limits) (answer : Option (List ℕ)) (at_test at_cooldown at_failure : ℕ) (b : Breaker)
    → b.open_until ≤ at_test
    → at_test ≤ at_cooldown
    → b.open_until ≢ 0
    → 1 < threshold l
    → let (r, b') = enrich l true true answer at_test at_cooldown at_failure b in
      (b'.open_until ≡ 0)
      × ((answer ≢ none) → b' ≡ closed)
      × ((answer ≡ none) → b'.consecutive_failures ≡ 1)
      × ((r.degraded ≡ true) → r.updates ≡ [])
unfolding enrich after_cooldown record_success record_failure
enrich_after_cooldown l none at_test at_cooldown at_failure b h k z t =
    (ground arith, λ n. absurd (n refl), λ e. ground arith, λ e. ground arith)
enrich_after_cooldown l (some u) at_test at_cooldown at_failure b h k z t =
    (ground arith, λ n. ground arith, λ e. cc, λ e. ground arith)

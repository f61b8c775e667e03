-- ===== src/Circuit/Tests.antt =====
-- Tests of the circuit breakers.
use mneme_universal_context.Prelude.{◌+◌, ◌≡◌, inl, refl, Bool, true, false, none, List, [], ◌∷◌}
use mneme_universal_context.Circuit.{Limits, Breaker, closed}
use mneme_universal_context.Circuit.Reranker.{
  RerankCall, Readings, rerank, rerank_calls, failures_open_circuit,
}

abbrev limits : Limits
limits = record { failure_threshold = 2; cooldown = 30 }

abbrev opened : Breaker
opened = record { consecutive_failures = 2; open_until = 40 }

abbrev failing : RerankCall
failing = record {
  query_blank = false;
  no_documents = false;
  endpoint_set = true;
  model_set = true;
  answer = none;
}

abbrev at_20 : Readings
at_20 = record { at_test = 20; at_cooldown = 20; at_failure = 21 }

failures_open_circuit_example :
    ((rerank_calls limits ((failing, at_20) ∷ []) closed).open_until ≡ 0)
    × ((rerank_calls limits ((failing, at_20) ∷ []) closed).consecutive_failures
        ≡ closed.consecutive_failures + 1)
    × ((rerank limits failing at_20
          (rerank_calls limits ((failing, at_20) ∷ []) closed)).1.open_until
        ≡ 51)
failures_open_circuit_example =
    failures_open_circuit limits ((failing, at_20) ∷ []) failing at_20 closed
      ((refl, refl, inl refl), tt) (refl, refl, inl refl) refl refl

abbrev inputs : List Bool
inputs = true ∷ false ∷ true ∷ []

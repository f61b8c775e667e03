-- ===== src/Circuit/Reranker.antt =====
-- `HttpRerankerProvider.rerank` of mneme_service/reranker.py. The HTTP call is an argument: what
-- `parse_rerank_scores` makes of the response, or `none` where the call raises an error that the
-- method catches. Scores are only compared, so numbers stand for them; the fallback reason is the
-- same on every degraded result.
use mneme_universal_context.Prelude.{
  ℕ, ◌+◌, ◌<◌, ◌≡◌, ◌≢◌, ◌⊎◌, inl, inr, refl, Bool, true, false, not, ◌||◌, Option, none, some,
  List, [], ◌∷◌, arith, if◌then◌else◌, length, All,
}
use mneme_universal_context.Circuit.{
  Limits, threshold, Breaker, circuit_open, after_cooldown, record_success, record_failure,
  IsCounting, record_failure-IsCounting, after_cooldown-IsCounting,
}

pub record Score : Type 0 where
  pub index : ℕ
  pub score : ℕ

pub record RerankResult : Type 0 where
  pub scores : List Score
  pub degraded : Bool

abbrev pub unavailable : RerankResult
unavailable = record { scores = []; degraded = true }

-- One call: its inputs, the provider's settings and the answer that the endpoint would give.
pub record RerankCall : Type 0 where
  pub query_blank : Bool
  pub no_documents : Bool
  pub endpoint_set : Bool
  pub model_set : Bool
  pub answer : Option (List Score)

-- Three readings of the clock: for the open test, the cooldown test and the failure.
pub record Readings : Type 0 where
  pub at_test : ℕ
  pub at_cooldown : ℕ
  pub at_failure : ℕ

abbrev pub rerank_answer : Limits → Breaker → ℕ → Option (List Score) → RerankResult × Breaker
rerank_answer l b now none = (unavailable, record_failure l b now)
rerank_answer l b now (some []) = (unavailable, record_failure l b now)
rerank_answer l b now (some (s ∷ ss)) =
    (record { scores = s ∷ ss; degraded = false }, record_success b)

-- The last part says whether the request was sent.
pub rerank : Limits → RerankCall → Readings → Breaker → RerankResult × Breaker × Bool
rerank l c t b =
    if c.query_blank || c.no_documents
    then (record { scores = []; degraded = false }, b, false)
    else if circuit_open b t.at_test
    then (unavailable, b, false)
    else let b' = after_cooldown b t.at_cooldown in
      let (r, b'') = rerank_answer l b' t.at_failure c.answer in
      if not c.endpoint_set || not c.model_set
      then (unavailable, record_failure l b' t.at_failure, false)
      else (r, b'', true)

-- With a positive cooldown, a call keeps the failure counter below the threshold as long as the
-- circuit has not been opened.
pub rerank-IsCounting :
    (l : Limits) (c : RerankCall) (t : Readings) (b : Breaker)
    → 0 < l.cooldown
    → IsCounting l b
    → IsCounting l (rerank l c t b).1
unfolding rerank record_success
rerank-IsCounting l c t b h k = grind (
  arith,
  record_failure-IsCounting l (after_cooldown b t.at_cooldown) t.at_failure h
      (after_cooldown-IsCounting l b t.at_cooldown k),
)

-- While the circuit is open nothing is sent, the state stays, and a call with a query and
-- documents is answered as degraded with no score.
pub rerank_open :
    (l : Limits) (c : RerankCall) (t : Readings) (b : Breaker)
    → b.open_until ≢ 0
    → t.at_test < b.open_until
    → ((rerank l c t b).2 ≡ false)
      × ((rerank l c t b).1 ≡ b)
      × ((c.query_blank ≡ false) → (c.no_documents ≡ false) → (rerank l c t b).0 ≡ unavailable)
unfolding rerank
rerank_open l c t b h k = (ground arith, ground arith, λ q d. ground arith)

-- A call that must fail: it is made, and the endpoint is not set or gives no score.
abbrev pub Fails : RerankCall → Type 0
Fails c =
    (c.query_blank ≡ false) × (c.no_documents ≡ false) × ((c.answer ≡ none) ⊎ (c.answer ≡ some []))

pub rerank_calls : Limits → List (RerankCall × Readings) → Breaker → Breaker
rerank_calls l [] b = b
rerank_calls l ((c, t) ∷ rest) b = rerank_calls l rest (rerank l c t b).1

rerank_failing :
    (l : Limits) (c : RerankCall) (t : Readings) (b : Breaker)
    → Fails c
    → b.open_until ≡ 0
    → (rerank l c t b).1 ≡ record_failure l b t.at_failure
unfolding rerank after_cooldown
rerank_failing l c t b (q, d, inl a) z = rw a (ground arith)
rerank_failing l c t b (q, d, inr a) z = rw a (ground arith)

-- From a circuit that is not open, when the failures counted before, the failing calls `cs` and
-- one more make up the threshold: after `cs` each is counted and the circuit is still not open,
-- and one more failing call opens it until its clock reading plus the cooldown.
pub failures_open_circuit :
    (l : Limits) (cs : List (RerankCall × Readings)) (c : RerankCall) (t : Readings) (b : Breaker)
    → All (λ x. Fails x.0) cs
    → Fails c
    → b.open_until ≡ 0
    → b.consecutive_failures + length cs + 1 ≡ threshold l
    → ((rerank_calls l cs b).open_until ≡ 0)
      × ((rerank_calls l cs b).consecutive_failures ≡ b.consecutive_failures + length cs)
      × ((rerank l c t (rerank_calls l cs b)).1.open_until ≡ t.at_failure + l.cooldown)
unfolding rerank_calls
failures_open_circuit l [] c t b h f z e =
    rw (rerank_failing l c t b f z) (unfold record_failure in (z, omega arith, ground arith))
failures_open_circuit l ((c', t') ∷ cs) c t b (f', h) f z e =
    let step = rerank_failing l c' t' b f' z in
    let z' : (rerank l c' t' b).1.open_until ≡ 0 =
      rw step (unfold record_failure in ground arith) in
    let n' : (rerank l c' t' b).1.consecutive_failures ≡ b.consecutive_failures + 1 =
      rw step (unfold record_failure in refl) in
    let ih = failures_open_circuit l cs c t (rerank l c' t' b).1 h f z' (omega arith) in
    (ih.0, omega (arith, ih.1), ih.2)

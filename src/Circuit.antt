-- ===== src/Circuit.antt =====
-- The circuit breaker that the three HTTP providers share (mneme_service/reranker.py,
-- mneme_service/enrichment.py, mneme_service/embeddings.py), and the health record of
-- mneme_service/app.py. The clock is read in ticks, a number for each reading; `open_until` is 0
-- when the code has not set it, which Python takes for false.
pub mod Reranker
pub mod Enrichment
pub mod Embeddings
pub mod Health
mod Tests
use mneme_universal_context.Prelude.{
  ℕ, zero, suc, ◌+◌, ◌-◌, ◌*◌, ◌/◌, ◌≤◌, ◌<◌, max, min, ◌≡◌, ◌≢◌, ◌⊎◌, inl, inr, refl, sym, ap, ◌∙◌,
  Bool, true, false, not, ◌&&◌, ◌||◌, Option, none, some, List, [], ◌∷◌, ◌++◌, map, reverse, arith,
  ltb, leb, ◌==◌, if◌then◌else◌, Bool-cases, Option-cases, length, get_elem?, take, drop, filter,
  any, All, last_n, length-append, length-take, length-drop, contains, count, add_new, IsDistinct,
}

pub record Limits : Type 0 where
  pub failure_threshold : ℕ
  pub cooldown : ℕ

-- `max(1, failure_threshold)` of the constructors.
abbrev pub threshold : Limits → ℕ
threshold l = max 1 l.failure_threshold

pub record Breaker : Type 0 where
  pub consecutive_failures : ℕ
  pub open_until : ℕ

abbrev pub closed : Breaker
closed = record { consecutive_failures = 0; open_until = 0 }

abbrev pub circuit_open : Breaker → ℕ → Bool
circuit_open b now = not (b.open_until == 0) && ltb now b.open_until

-- What a call does before it looks at the endpoint: the cooldown may have passed.
unfoldable pub after_cooldown : Breaker → ℕ → Breaker
after_cooldown b now = if not (b.open_until == 0) && leb b.open_until now then closed else b

unfoldable pub record_success : Breaker → Breaker
record_success b = closed

unfoldable pub record_failure : Limits → Breaker → ℕ → Breaker
record_failure l b now =
    let failures = b.consecutive_failures + 1 in
    record {
      consecutive_failures = failures;
      open_until = if leb (threshold l) failures then now + l.cooldown else b.open_until;
    }

-- While the circuit has not been opened, fewer failures are counted than open it.
abbrev pub IsCounting : Limits → Breaker → Type 0
IsCounting l b = b.open_until ≡ 0 → b.consecutive_failures < threshold l

pub closed-IsCounting : (l : Limits) → IsCounting l closed
closed-IsCounting l e = omega arith

pub record_failure-IsCounting :
    (l : Limits) (b : Breaker) (now : ℕ)
    → 0 < l.cooldown
    → IsCounting l b
    → IsCounting l (record_failure l b now)
unfolding record_failure
record_failure-IsCounting l b now h c e = ground (arith, c)

pub after_cooldown-IsCounting :
    (l : Limits) (b : Breaker) (now : ℕ) → IsCounting l b → IsCounting l (after_cooldown b now)
unfolding after_cooldown
after_cooldown-IsCounting l b now c e = ground (arith, c)

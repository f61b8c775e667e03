-- ===== src/Circuit/Health.antt =====
-- `ProviderHealthState` and the three wrappers that track a provider's health, in
-- mneme_service/app.py. A provider call is its outcome, `none` where it raised an error, which
-- the wrapper raises again; its fallback reason is always set when it is degraded.
use mneme_universal_context.Prelude.{
  ℕ, ◌+◌, ◌<◌, ◌≡◌, ◌≢◌, refl, Bool, true, false, not, ◌&&◌, Option, none, some, arith,
  if◌then◌else◌,
}

pub data Status : Type 0 where
  unknown available degraded : Status

pub record HealthState : Type 0 where
  pub status : Status
  pub checked_at_ms : Option ℕ
  pub failure_count : ℕ
  pub last_error_code : Option ℕ

abbrev pub initial : HealthState
initial = record {
  status = unknown;
  checked_at_ms = none;
  failure_count = 0;
  last_error_code = none;
}

pub record_success : ℕ → HealthState → HealthState
record_success now h = record {
  status = available;
  checked_at_ms = some now;
  failure_count = 0;
  last_error_code = none;
}

pub record_failure : ℕ → ℕ → HealthState → HealthState
record_failure code now h = record {
  status = degraded;
  checked_at_ms = some now;
  failure_count = h.failure_count + 1;
  last_error_code = some code;
}

-- `HealthTrackingEmbeddingProvider.embed_texts`: whether a text has something to embed, and
-- whether an embedding came back, or `none`.
pub tracked_embed : ℕ → Bool → Option Bool → ℕ → HealthState → HealthState
unfolding record_failure record_success
tracked_embed code has_text none now h = record_failure code now h
tracked_embed code has_text (some any_embedding) now h =
    if has_text && not any_embedding then record_failure code now h else record_success now h

-- `HealthTrackingRerankerProvider.rerank`: whether there is a query and a document, and whether
-- the result is degraded, with its reason.
pub tracked_rerank : ℕ → Bool → Option (Option ℕ) → ℕ → HealthState → HealthState
unfolding record_failure record_success
tracked_rerank code asked none now h = record_failure code now h
tracked_rerank code asked (some (some reason)) now h = record_failure reason now h
tracked_rerank code asked (some none) now h = if asked then record_success now h else h

-- `HealthTrackingEnrichmentProvider.enrich`.
pub tracked_enrich : ℕ → Option (Option ℕ) → ℕ → HealthState → HealthState
unfolding record_failure record_success
tracked_enrich code none now h = record_failure code now h
tracked_enrich code (some (some reason)) now h = record_failure reason now h
tracked_enrich code (some none) now h = record_success now h

-- The status, the count and the error code agree.
pub record IsConsistent (h : HealthState) : Type 0 where
  pub when_available : h.status ≡ available → (h.failure_count ≡ 0) × (h.last_error_code ≡ none)
  pub when_degraded : h.status ≡ degraded → (0 < h.failure_count) × (h.last_error_code ≢ none)
  pub when_unknown : h.status ≡ unknown → (h.failure_count ≡ 0) × (h.checked_at_ms ≡ none)

pub initial-IsConsistent : IsConsistent initial
initial-IsConsistent = record {
  when_available = λ e. cc;
  when_degraded = λ e. cc;
  when_unknown = λ e. (refl, refl);
}

success-IsConsistent : (now : ℕ) (h : HealthState) → IsConsistent (record_success now h)
unfolding record_success
success-IsConsistent now h = record {
  when_available = λ e. (refl, refl);
  when_degraded = λ e. cc;
  when_unknown = λ e. cc;
}

failure-IsConsistent : (code now : ℕ) (h : HealthState) → IsConsistent (record_failure code now h)
unfolding record_failure
failure-IsConsistent code now h = record {
  when_available = λ e. cc;
  when_degraded = λ e. (omega arith, λ n. cc);
  when_unknown = λ e. cc;
}

-- What happens to a provider, one call at a time.
pub data Tracked : HealthState → HealthState → Type 0 where
  embed :
      (code : ℕ) (has_text : Bool) (r : Option Bool) (now : ℕ) (h : HealthState)
      → Tracked h (tracked_embed code has_text r now h)
  rerank :
      (code : ℕ) (asked : Bool) (r : Option (Option ℕ)) (now : ℕ) (h : HealthState)
      → Tracked h (tracked_rerank code asked r now h)
  enrich :
      (code : ℕ) (r : Option (Option ℕ)) (now : ℕ) (h : HealthState)
      → Tracked h (tracked_enrich code r now h)

-- Every tracked call keeps the health record consistent.
pub Tracked-IsConsistent : {h h' : HealthState} → Tracked h h' → IsConsistent h → IsConsistent h'
unfolding tracked_embed tracked_rerank tracked_enrich
Tracked-IsConsistent (embed code has_text none now h) v = failure-IsConsistent code now h
Tracked-IsConsistent (embed code true (some false) now h) v = failure-IsConsistent code now h
Tracked-IsConsistent (embed code true (some true) now h) v = success-IsConsistent now h
Tracked-IsConsistent (embed code false (some b) now h) v = success-IsConsistent now h
Tracked-IsConsistent (rerank code asked none now h) v = failure-IsConsistent code now h
Tracked-IsConsistent (rerank code asked (some (some r)) now h) v = failure-IsConsistent r now h
Tracked-IsConsistent (rerank code true (some none) now h) v = success-IsConsistent now h
Tracked-IsConsistent (rerank code false (some none) now h) v = v
Tracked-IsConsistent (enrich code none now h) v = failure-IsConsistent code now h
Tracked-IsConsistent (enrich code (some (some r)) now h) v = failure-IsConsistent r now h
Tracked-IsConsistent (enrich code (some none) now h) v = success-IsConsistent now h

-- ===== src/Retention/Exact.antt =====
-- What `cleanup_retention` deletes and reports.
use mneme_universal_context.Prelude.{
  ℕ, suc, ◌-◌, if◌then◌else◌, ◌≡◌, inl, inr, refl, sym, ap, ◌∙◌, Bool, true, false, not, List, [],
  ◌∷◌, arith, ◌==◌, Bool-cases, length, filter, All, contains, IsDistinct,
}
use mneme_universal_context.Prelude.{
  keys, length-keys, All-among, filter-among, All-map_weaken, filter_cong,
}
use mneme_universal_context.Prelude.Text.{Text}
use mneme_universal_context.Blobs.{Blob, update_ref_count, ids_of}
use mneme_universal_context.Blobs.Counts.{ids_of-counted}
use mneme_universal_context.Retention.Counted.{IsCounted, cleanup_retention-IsCounted}
use mneme_universal_context.Retention.{
  ref_counts, is_embedded, is_edge, is_old, is_referring, subtract_counts, Event, Trace, Store,
  no_candidates, none_deleted, delete_where, count_where, is_expired, is_event, is_trace,
  expired_ids, delete_expired, cleanup_retention,
}

pub none_selected {ℓ} :
    {A : Type ℓ} (p : A → Bool) (xs : List A) → length (filter p xs) ≡ 0 → delete_where p xs ≡ xs
none_selected p [] h = refl
none_selected p (x ∷ xs) h = elim (Bool-cases (p x)) [
  | inl e ↦ absurd (omega (arith, rw e at h))
  | inr e ↦ rw (e, none_selected p xs (rw e at h)) refl
]

pub none_left {ℓ} : {A : Type ℓ} (p : A → Bool) (xs : List A) → filter p (delete_where p xs) ≡ []
none_left p [] = refl
none_left p (x ∷ xs) = elim (Bool-cases (p x)) [
  | inl e ↦ rw e (none_left p xs)
  | inr e ↦ rw (e, none_left p xs) (rw e refl)
]

not_cong {ℓ} :
    {A : Type ℓ} (f g : A → Bool) (xs : List A)
    → All (λ x. f x ≡ g x) xs
    → All (λ x. not (f x) ≡ not (g x)) xs
not_cong f g [] h = tt
not_cong f g (x ∷ xs) h = (ap not h.0, not_cong f g xs h.1)

-- What a cleanup reports of what it deletes, where the dry run before it reports the candidates.
pub IsReported : (ℕ → Text) → ℕ → ℕ → Store → Type 0
IsReported text_of session cutoff s =
    let dry = cleanup_retention text_of session cutoff true s in
    let run = cleanup_retention text_of session cutoff false s in
    (dry.0 ≡ s)
    × (dry.1.candidate_counts ≡ run.1.candidate_counts)
    × (dry.1.deleted_counts ≡ none_deleted)
    × (run.1.deleted_counts.events ≡ dry.1.candidate_counts.events)
    × (run.1.deleted_counts.derived_records ≡ dry.1.candidate_counts.derived_records)

module _ (text_of : ℕ → Text) (session cutoff : ℕ) (s : Store)
    (distinct : IsDistinct (keys (λ (e : Event). e.event_id) s.events)) where
  abbrev ids : List ℕ
  ids = expired_ids session cutoff s

  -- The events that are deleted are the expired ones.
  is_event_expired : All (λ e. is_event session ids e ≡ is_expired session cutoff e) s.events
  is_event_expired =
      All-map_weaken _ _ (λ e h. rw h (ground arith)) s.events
        (All-among (λ (e : Event). e.event_id) (is_expired session cutoff) s.events distinct)

  deleted_events :
      delete_where (is_event session ids) s.events
      ≡ delete_where (is_expired session cutoff) s.events
  deleted_events = filter_cong _ _ s.events (not_cong _ _ s.events is_event_expired)

  counted_events : count_where (is_event session ids) s.events ≡ length ids
  counted_events =
      ap (λ l. length l) (filter_cong _ _ s.events is_event_expired)
      ∙ sym (length-keys (λ (e : Event). e.event_id) (filter (is_expired session cutoff) s.events))

  pub cleanup_retention-events :
      (cleanup_retention text_of session cutoff false s).0.events
      ≡ delete_where (is_expired session cutoff) s.events
  unfolding cleanup_retention delete_expired
  cleanup_retention-events = elim (Bool-cases (length ids == 0)) [
    | inl nothing ↦ rw nothing (
        sym (
          none_selected (is_expired session cutoff) s.events (
            sym (
              length-keys (λ (e : Event). e.event_id) (filter (is_expired session cutoff) s.events))
            ∙ ground arith)))
    | inr some_ids ↦ rw some_ids deleted_events
  ]

  counted_traces :
      IsDistinct (keys (λ (t : Trace). t.trace_id) s.traces)
      → let found =
          keys (λ (t : Trace). t.trace_id) (filter (is_trace text_of session ids) s.traces) in
        count_where (λ (t : Trace). contains t.trace_id found) s.traces ≡ length found
  counted_traces d =
      ap (λ l. length l)
        (filter-among (λ (t : Trace). t.trace_id) (is_trace text_of session ids) s.traces d)
      ∙ sym
          (length-keys (λ (t : Trace). t.trace_id) (filter (is_trace text_of session ids) s.traces))

  cleanup_retention-IsReported :
      IsDistinct (keys (λ (t : Trace). t.trace_id) s.traces) → IsReported text_of session cutoff s
  unfolding cleanup_retention delete_expired IsReported
  cleanup_retention-IsReported d = elim (Bool-cases (length ids == 0)) [
    | inl nothing ↦ rw nothing (refl, refl, refl, refl, refl)
    | inr some_ids ↦ rw some_ids (refl, refl, refl, counted_events, rw (counted_traces d) refl)
  ]

nothing_expired :
    (text_of : ℕ → Text) (session cutoff : ℕ) (dry_run : Bool) (s : Store)
    → filter (is_expired session cutoff) s.events ≡ []
    → cleanup_retention text_of session cutoff dry_run s
      ≡ (s, record { candidate_counts = no_candidates; deleted_counts = none_deleted })
unfolding cleanup_retention
nothing_expired text_of session cutoff dry_run s h = rw h refl

-- What is left of the tables after a cleanup: without the derived records and the references of
-- the expired events and, if there is one, the session's state history before the cutoff.
pub record IsCleaned (text_of : ℕ → Text) (session cutoff : ℕ) (s s' : Store) : Type 0 where
  pub events : s'.events ≡ delete_where (is_expired session cutoff) s.events
  pub embedding_index :
      s'.embedding_index
      ≡ delete_where (is_embedded (expired_ids session cutoff s)) s.embedding_index
  pub event_graph_edges :
      s'.event_graph_edges
      ≡ delete_where (is_edge session (expired_ids session cutoff s)) s.event_graph_edges
  pub traces :
      s'.traces ≡ delete_where (is_trace text_of session (expired_ids session cutoff s)) s.traces
  pub state_history : s'.state_history ≡ (
      if length (expired_ids session cutoff s) == 0
      then s.state_history
      else delete_where (is_old session cutoff) s.state_history)
  pub blob_references :
      s'.tables.blob_references
      ≡ delete_where (is_referring session (expired_ids session cutoff s)) s.tables.blob_references
  pub blobs : ids_of s'.tables.blobs ≡ ids_of s.tables.blobs

pub ids_of-subtract_counts :
    (cs : List (ℕ × ℕ)) (bs : List Blob) → ids_of (subtract_counts cs bs) ≡ ids_of bs
ids_of-subtract_counts [] bs = refl
ids_of-subtract_counts ((k, n) ∷ cs) bs =
    ids_of-subtract_counts cs (update_ref_count k (λ c. c - n) bs)
    ∙ ids_of-counted k (λ c. c - n) bs

nothing_deleted {ℓ} :
    {A : Type ℓ} (p : A → Bool) (xs : List A) → ((x : A) → p x ≡ false) → xs ≡ delete_where p xs
nothing_deleted p [] h = refl
nothing_deleted p (x ∷ xs) h = rw (h x) (ap (λ l. x ∷ l) (nothing_deleted p xs h))

no_ids : (ks : List ℕ) → (length ks == 0) ≡ true → ks ≡ []
no_ids [] e = refl
no_ids (k ∷ ks) e = let more : (suc (length ks) == 0) ≡ false = ground arith in cc (e, more)

cleanup_retention-IsCleaned :
    (text_of : ℕ → Text) (session cutoff : ℕ) (s : Store)
    → IsDistinct (keys (λ (e : Event). e.event_id) s.events)
    → IsDistinct (keys (λ (t : Trace). t.trace_id) s.traces)
    → IsCleaned text_of session cutoff s (cleanup_retention text_of session cutoff false s).0
unfolding cleanup_retention delete_expired
cleanup_retention-IsCleaned text_of session cutoff s d dt =
    let left = cleanup_retention-events text_of session cutoff s d in
    let ids = expired_ids session cutoff s in
    elim (Bool-cases (length (expired_ids session cutoff s) == 0)) [
      | inl nothing ↦
          let e : expired_ids session cutoff s ≡ [] = no_ids ids nothing in
          rw nothing (record {
            events = rw nothing at left;
            embedding_index = nothing_deleted _ s.embedding_index (λ x. rw e refl);
            event_graph_edges = nothing_deleted _ s.event_graph_edges (λ x. rw e (ground arith));
            traces = nothing_deleted _ s.traces (λ x. rw e (ground arith));
            state_history = rw nothing refl;
            blob_references = nothing_deleted _ s.tables.blob_references (λ x. rw e (ground arith));
            blobs = refl;
          })
      | inr some_ids ↦ rw some_ids (record {
        events = rw some_ids at left;
        embedding_index = refl;
        event_graph_edges = refl;
        traces = filter_cong _ _ s.traces (
            not_cong _ _ s.traces (
              All-among (λ (t : Trace). t.trace_id)
                (is_trace text_of session (expired_ids session cutoff s)) s.traces dt));
        state_history = rw some_ids refl;
        blob_references = refl;
        blobs = ids_of-subtract_counts (ref_counts session ids s.tables) s.tables.blobs;
      })
    ]

-- In tables whose events and traces have distinct identifiers, a dry run changes nothing and
-- reports the candidates that the cleanup then reports; the cleanup deletes as many events and as
-- many derived records as these say. It deletes exactly the session's events that are no memory
-- reads and are older than the cutoff, the embeddings of them, the session's edges at them, its
-- traces whose text mentions one of them, its references of them and, if there is such an event,
-- its state history before the cutoff; no blob is deleted. The numbers that it reports as deleted
-- are those of the rows that the tables have lost. A second cleanup, dry or not, finds nothing and
-- changes nothing.
pub cleanup_retention_exact :
    (text_of : ℕ → Text) (session cutoff : ℕ) (s : Store)
    → IsDistinct (keys (λ (e : Event). e.event_id) s.events)
    → IsDistinct (keys (λ (t : Trace). t.trace_id) s.traces)
    → let s' = (cleanup_retention text_of session cutoff false s).0 in
      IsReported text_of session cutoff s
      × IsCleaned text_of session cutoff s s'
      × IsCounted s s' (cleanup_retention text_of session cutoff false s).1.deleted_counts
      × ((dry_run : Bool)
          → cleanup_retention text_of session cutoff dry_run s'
            ≡ (s', record { candidate_counts = no_candidates; deleted_counts = none_deleted }))
cleanup_retention_exact text_of session cutoff s events traces =
    let s' = (cleanup_retention text_of session cutoff false s).0 in
    let left = cleanup_retention-events text_of session cutoff s events in
    (
      cleanup_retention-IsReported text_of session cutoff s events traces,
      cleanup_retention-IsCleaned text_of session cutoff s events traces,
      cleanup_retention-IsCounted text_of session cutoff s,
      λ dry_run.
          nothing_expired text_of session cutoff dry_run s'
            (rw left (none_left (is_expired session cutoff) s.events)),
    )

-- ===== src/Retention/Tests.antt =====
-- Tests of the retention and of the deletion of a session.
use mneme_universal_context.Prelude.{
  ℕ, ◌+◌, ◌*◌, ◌≡◌, refl, Bool, true, false, none, some, List, [], ◌∷◌, ◌++◌, arith, filter,
}
use mneme_universal_context.Prelude.Text.{Text}
use mneme_universal_context.Blobs.{Tables}
use mneme_universal_context.Retention
use mneme_universal_context.Retention.{
  Event, Trace, no_candidates, none_deleted, delete_where, is_expired, expired_ids,
  cleanup_retention, delete_expired,
}
use mneme_universal_context.Retention.Counted.{IsCounted}
use mneme_universal_context.Retention.Exact.{IsReported, IsCleaned, cleanup_retention_exact}
use mneme_universal_context.Retention.Referring.{IsReferring, cleanup_retention-IsReferring}
use mneme_universal_context.Retention.Forget
use mneme_universal_context.Retention.Forget.{
  Hashing, is_forensic, is_about, AuditRow, memory_read, other_action, whole, told, delete_session,
}
use mneme_universal_context.Retention.Forgotten.{IsForgotten, AreAnchors, delete_session_forgets}

abbrev text_of : ℕ → Text
text_of n = n ∷ []

abbrev event : ℕ → ℕ → Event
event n time = record { event_id = n; session_id = 5; timestamp = time; is_memory_read = false }

abbrev tables : Tables
tables = record {
  blobs = record { blob_id = 30; session_id = 5; project_isolation_key = 7; ref_count = 2 } ∷ [];
  blob_references =
      record { blob_id = 30; session_id = 5; event_id = 1 }
      ∷ record { blob_id = 30; session_id = 5; event_id = 2 }
      ∷ [];
}

abbrev kept : Retention.Store
kept = record {
  events = event 1 10 ∷ event 2 40 ∷ [];
  embedding_index =
      record { event_id = 1; session_id = 5 } ∷ record { event_id = 2; session_id = 5 } ∷ [];
  event_graph_edges = record { source_event_id = 2; target_event_id = 1; session_id = 5 } ∷ [];
  traces = record { trace_id = 8; session_id = 5; json = 9 ∷ 1 ∷ [] } ∷ [];
  state_history = record { session_id = 5; timestamp = 10 } ∷ [];
  tables = tables;
}

cleaned : (cleanup_retention text_of 5 20 false kept).1.deleted_counts ≡ record {
  events = 1;
  derived_records = 4;
  traces = 1;
  state_history = 1;
  graph_edges = 1;
  blobs = 0;
}
unfolding cleanup_retention delete_expired
cleaned = refl

cleanup_retention_exact_example :
    let s' = (cleanup_retention text_of 5 20 false kept).0 in
    IsReported text_of 5 20 kept
    × IsCleaned text_of 5 20 kept s'
    × IsCounted kept s' (cleanup_retention text_of 5 20 false kept).1.deleted_counts
    × ((dry_run : Bool)
        → cleanup_retention text_of 5 20 dry_run s'
          ≡ (s', record { candidate_counts = no_candidates; deleted_counts = none_deleted }))
cleanup_retention_exact_example =
    cleanup_retention_exact text_of 5 20 kept (refl, (refl, tt)) (refl, tt)

kept-IsReferring : IsReferring kept
kept-IsReferring = record {
  tables = record {
    counted = (refl, tt);
    scoped = ((λ e. refl, (λ e. refl, tt)), tt);
    unique = (refl, (refl, tt));
  };
  references = (refl, (refl, tt));
  embeddings = (refl, (refl, tt));
}

cleanup_retention-IsReferring_example : IsReferring (cleanup_retention text_of 5 20 false kept).0
cleanup_retention-IsReferring_example =
    cleanup_retention-IsReferring text_of 5 20 false kept kept-IsReferring

abbrev hashing : Hashing
hashing = record {
  sha256 = λ salt value. salt * 100 + value;
  token_hex = λ row. row.audit_id;
  deleted_session = λ hash. 1000;
  deleted_project = λ hash. hash;
}

abbrev audited : ℕ → Forget.Action → AuditRow
audited n a = record {
  audit_id = n;
  session_id = 5;
  project_isolation_key = some 7;
  action = a;
  tool = 3;
  event_ids = 1 ∷ [];
  trace_id = none;
  principal = whole 4 2 (7 ∷ []);
  request = some 6;
  result = told 9;
  created_at_ms = n;
}

abbrev held : Forget.Store
held = record {
  sessions = 5 ∷ 6 ∷ [];
  audit_records = audited 1 memory_read ∷ audited 2 (other_action 4) ∷ [];
  blob_tables = tables;
  tables = record {
    events = record { session_id = 5; content = 1 } ∷ record { session_id = 6; content = 2 } ∷ [];
    turns = record { session_id = 5; content = 3 } ∷ [];
    traces = [];
    segments = [];
    event_graph_edges = [];
    embedding_index = [];
    embedding_metrics = [];
    reranker_metrics = [];
    enrichment_metrics = [];
    execution_state = [];
    state_history = [];
    session_context_fill = [];
  };
  reindex_jobs = record { job_id = 1; session_id = some 5 } ∷ [];
  session_lineage = record { old_session_id = 5; new_session_id = 6 } ∷ [];
}

existed : (delete_session hashing 5 held).1 ≡ true
unfolding delete_session
existed = refl

delete_session_forgets_example :
    let s' = (delete_session hashing 5 held).0 in
    IsForgotten 5 s'
    × ((added : List AuditRow) × (s'.audit_records
          ≡ delete_where (is_about 5) held.audit_records ++ added)
        × AreAnchors hashing
            (filter (λ row. is_forensic row.action) (filter (is_about 5) held.audit_records))
            added)
    × (s'.reindex_jobs ≡ held.reindex_jobs)
    × (delete_session hashing 5 s' ≡ (s', false))
delete_session_forgets_example = delete_session_forgets hashing 5 held (λ hash e. omega (arith, e))

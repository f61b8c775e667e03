-- ===== src/Reindex/Tests.antt =====
-- Tests of the reindex job.
use mneme_universal_context.Prelude.{
  ℕ, ◌+◌, ◌*◌, ◌≤◌, ◌<◌, max, min, ◌≡◌, refl, Bool, true, false, not, ◌&&◌, none, List, [], ◌∷◌,
  ◌++◌, arith, ltb, leb, if◌then◌else◌, length, take, drop, filter, last_n,
}
use mneme_universal_context.Reindex.Circuit.{
  Settings, closed_circuit, record_outcome, record_outcomes, failures, successes,
  record_outcome_window,
}
use mneme_universal_context.Reindex.{
  Row, pending, all_scope, Query, is_candidate, count_reindex_candidates, list_reindex_candidates,
  list_reindex_candidates_window,
}
use mneme_universal_context.Reindex.Run.{
  queued, running, completed, Job, run_reindex_job_once, is_terminal, run_reindex_job_once_lem,
}
use mneme_universal_context.Reindex.Skipped.{healthy, run_calls, reindex_leaves_candidates}
use mneme_universal_context.Prelude.{none, some, refl, ◌≡◌, true, false}
use mneme_universal_context.Access.Principal.{Principal, can_access_project, not_found, ok}
use mneme_universal_context.Reindex.Run.{queued, cancelled}
use mneme_universal_context.Reindex.Jobs.{
  session_name, pending_name, failed_name, Payload, ReindexJob, World, Given, create_reindex_job,
  require_reindex_job_access, cancel_reindex_job,
}
use mneme_universal_context.Reindex.Jobs.Granted.{IsGranted, create_reindex_job-IsGranted}
use mneme_universal_context.Reindex.Jobs.Cancelled.{
  IsCancelled, require_reindex_job_access_hides, cancel_reindex_job-IsCancelled,
}

abbrev settings : Settings
settings = record {
  min_calls = 2;
  open_ticks = 30;
  reaches_ratio = λ failed total. leb total (failed * 2);
}

abbrev outcomes : List (Bool × ℕ)
outcomes = (true, 1) ∷ (false, 2) ∷ []

record_outcome_window_example :
    let c = record_outcomes settings outcomes closed_circuit in
    let c' = record_outcome settings false 3 c in
    let judged = last_n (max 1 2) (successes outcomes ++ false ∷ []) in
    (c'.recent_outcomes ≡ judged)
    × (c'.open_until ≡ (
        if not (ltb (length judged) (max 1 2))
          && settings.reaches_ratio (failures judged) (length judged)
        then 3 + 30
        else c.open_until))
record_outcome_window_example = record_outcome_window settings outcomes false 3

abbrev query : Query
query = record { scope = all_scope; want_pending = true; want_failed = true; force = false }

abbrev row : ℕ → Row
row n = record {
  event_id = n;
  session_id = 1;
  project_key = none;
  embedding_status = pending;
  has_embedding = false;
}

abbrev three_rows : List Row
three_rows = row 1 ∷ row 2 ∷ row 3 ∷ []

list_reindex_candidates_window_example :
    (list_reindex_candidates query 1 1 three_rows
      ≡ take (max 1 1) (drop 1 (filter (is_candidate query) three_rows)))
    × (count_reindex_candidates query 1 three_rows
        ≡ min (max 1 1) (length (filter (is_candidate query) three_rows)))
list_reindex_candidates_window_example = list_reindex_candidates_window query 1 1 three_rows

abbrev queued_job : Job
queued_job = record {
  status = queued;
  query = query;
  candidate_count = 3;
  processed_count = 0;
  failed_count = 0;
}

run_reindex_job_once_lem_example :
    let (j', rows') = run_reindex_job_once (healthy 2) queued_job three_rows in
    (is_terminal queued_job.status ≡ true → (j' ≡ queued_job) × (rows' ≡ three_rows))
    × (queued_job.processed_count ≤ j'.processed_count)
    × (queued_job.failed_count ≤ j'.failed_count)
    × (is_terminal queued_job.status ≡ false → j'.status ≡ completed → j'.failed_count ≡ 0)
    × (j'.status ≡ running → j'.processed_count + j'.failed_count < j'.candidate_count)
    × (j'.query ≡ queued_job.query)
    × (j'.candidate_count ≡ queued_job.candidate_count)
run_reindex_job_once_lem_example = run_reindex_job_once_lem (healthy 2) queued_job three_rows

reindex_leaves_candidates_example :
    let (j, rows') = run_calls (healthy 2) 5 (queued_job, three_rows) in
    (j.status ≡ completed)
    × (j.processed_count ≡ 2)
    × (filter (is_candidate query) rows' ≡ drop 2 (filter (is_candidate query) three_rows))
    × (0 < length (filter (is_candidate query) rows'))
unfolding is_candidate
reindex_leaves_candidates_example =
    reindex_leaves_candidates query 2 3 three_rows refl (omega arith) (refl, (refl, (refl, tt)))
      (omega arith) (omega arith)

abbrev member : Principal
member = record { name = 4; role = 2; project_scopes = 7 ∷ [] }

abbrev world : World
world = record { sessions = (5, some 7) ∷ (6, some 8) ∷ []; is_id = λ s. true }

abbrev given : Given
given = record {
  job_id = 90;
  has_provider = true;
  may_wait = false;
  limit = 100;
  count_candidates = λ t ss n. n;
}

abbrev payload : Payload
payload = record {
  scope = session_name;
  keys_are_texts = true;
  project_isolation_key = none;
  session_id = some 5;
  statuses = [];
  max_job_events = some 30;
}

abbrev made : ReindexJob
made = record {
  job_id = 90;
  target = record { scope = session_name; project_isolation_key = some 7; session_id = some 5 };
  statuses = pending_name ∷ failed_name ∷ [];
  status = queued;
  completed_at = none;
  candidate_count = 30;
}

created : create_reindex_job world member given payload [] ≡ ok (made, made ∷ [])
unfolding create_reindex_job can_access_project
created = refl

create_reindex_job-IsGranted_example :
    IsGranted world member made.target
    × (require_reindex_job_access world member (made ∷ []) 90 ≡ ok made)
create_reindex_job-IsGranted_example =
    create_reindex_job-IsGranted world member given payload [] made (made ∷ []) refl created

abbrev foreigner : Principal
foreigner = record { name = 5; role = 2; project_scopes = 8 ∷ [] }

require_reindex_job_access_hides_example :
    require_reindex_job_access world foreigner (made ∷ []) 90
    ≡ require_reindex_job_access world foreigner [] 90
unfolding require_reindex_job_access can_access_project
require_reindex_job_access_hides_example =
    require_reindex_job_access_hides world foreigner (made ∷ []) 90 not_found (refl, tt) refl

cancel_reindex_job-IsCancelled_example :
    IsCancelled world member 50 90
      (made ∷ [])
      (record made { status = cancelled; completed_at = some 50 })
      (record made { status = cancelled; completed_at = some 50 } ∷ [])
unfolding cancel_reindex_job can_access_project
cancel_reindex_job-IsCancelled_example =
    cancel_reindex_job-IsCancelled world member 50 90 (made ∷ [])
      (record made { status = cancelled; completed_at = some 50 })
      (record made { status = cancelled; completed_at = some 50 } ∷ []) refl

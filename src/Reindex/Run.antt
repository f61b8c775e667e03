-- ===== src/Reindex/Run.antt =====
-- `run_reindex_job_once` of mneme_service/app.py: one call for a job, with the provider's circuit.
-- The time stamps that the job keeps are left out.
use mneme_universal_context.Prelude.{
  ℕ, ◌+◌, ◌-◌, ◌≤◌, ◌<◌, max, ◌≡◌, Bool, true, false, not, ◌&&◌, List, [], ◌∷◌, arith, leb, ◌==◌,
  if◌then◌else◌, length, filter, any,
}
use mneme_universal_context.Reindex.{Row, EmbeddingStatus, Query, list_reindex_candidates}

pub data JobStatus : Type 0 where
  queued running waiting_for_provider completed failed cancelled : JobStatus

pub record Job : Type 0 where
  pub status : JobStatus
  pub query : Query
  pub candidate_count : ℕ
  pub processed_count : ℕ
  pub failed_count : ℕ

pub record Stats : Type 0 where
  pub embedding_items : ℕ
  pub embedding_failures : ℕ

-- What a call meets: the clock, the settings, other requests, and `index_events` with the effect
-- that it has on the rows.
pub record Environment : Type 0 where
  pub index_present : Bool
  pub wait_expired : Bool
  pub cancelled_before_listing : Bool
  pub circuit_allows : Bool
  pub cancelled_while_indexing : Bool
  pub max_events_per_transaction : ℕ
  pub has_record : Row → Bool
  pub index_events : List Row → Stats
  pub index_effect : List Row → List Row → List Row

abbrev pub is_terminal : JobStatus → Bool
is_terminal completed = true
is_terminal failed = true
is_terminal cancelled = true
is_terminal _ = false

abbrev pub finished : Job → Job
finished j = record j { status = if j.failed_count == 0 then completed else failed }

-- `update_event_embedding_status(..., "FAILED")` for each record.
abbrev pub mark_failed : List Row → List Row → List Row
mark_failed records [] = []
mark_failed records (r ∷ rs) =
    (if any (λ (x : Row). x.event_id == r.event_id && x.session_id == r.session_id) records
      then record r { embedding_status = EmbeddingStatus.failed }
      else r)
    ∷ mark_failed records rs

-- The end of the call, after `index_events`.
unfoldable pub settle : Job → List Row → Stats → List Row → Job × List Row
settle j records stats rows =
    let j' = record j {
      processed_count = j.processed_count + stats.embedding_items;
      failed_count =
          j.failed_count + max stats.embedding_failures (length records - stats.embedding_items);
    } in
    let rows' =
      if not (stats.embedding_failures == 0) && stats.embedding_items == 0
      then mark_failed records rows
      else rows in
    (
      if leb j.candidate_count (j'.processed_count + j'.failed_count)
          then finished j'
          else record j' { status = running },
      rows',
    )

abbrev pub cancel : Job → Job
cancel j = record j { status = cancelled }

-- The batch of a running job. `records` are the candidates that have something to embed.
unfoldable pub run_batch : Environment → Job → List Row → Job × List Row
unfolding settle
run_batch e j rows =
    let candidates =
      list_reindex_candidates j.query (j.processed_count + j.failed_count)
        e.max_events_per_transaction rows in
    let records = filter e.has_record candidates in
    let rows' = e.index_effect records rows in
    if e.cancelled_before_listing
    then (cancel j, rows)
    else if length records == 0
    then (finished j, rows)
    else if not e.circuit_allows
    then (record j { status = waiting_for_provider }, rows)
    else if e.cancelled_while_indexing
    then (cancel j, rows')
    else settle j records (e.index_events records) rows'

unfoldable pub run_reindex_job_once : Environment → Job → List Row → Job × List Row
unfolding run_batch
run_reindex_job_once e j rows =
    let j' = record j { status = running } in
    if is_terminal j.status
    then (j, rows)
    else if not e.index_present
    then (record j { status = if e.wait_expired then failed else waiting_for_provider }, rows)
    else if leb j.candidate_count (j.processed_count + j.failed_count)
    then (finished j', rows)
    else run_batch e j' rows

-- A job that has ended stays as it is, and its rows too; a job that is not ended by the call has
-- not been counted to its end; a call never lowers the counts; and a completed job has no failure.
pub run_reindex_job_once_lem :
    (e : Environment) (j : Job) (rows : List Row)
    → let (j', rows') = run_reindex_job_once e j rows in
      (is_terminal j.status ≡ true → (j' ≡ j) × (rows' ≡ rows))
      × (j.processed_count ≤ j'.processed_count)
      × (j.failed_count ≤ j'.failed_count)
      × (is_terminal j.status ≡ false → j'.status ≡ completed → j'.failed_count ≡ 0)
      × (j'.status ≡ running → j'.processed_count + j'.failed_count < j'.candidate_count)
      × (j'.query ≡ j.query)
      × (j'.candidate_count ≡ j.candidate_count)
unfolding run_reindex_job_once
run_reindex_job_once_lem e j rows = (
  λ h. (ground arith, ground arith),
  ground arith,
  ground arith,
  λ h k. ground arith,
  λ h. ground arith,
  ground arith,
  ground arith,
)

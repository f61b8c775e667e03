-- ===== src/Reindex/Skipped.antt =====
-- A reindex job that is not forced passes over candidates: each batch that is indexed leaves the
-- candidates, and the next call still skips as many candidates as have been processed.
use mneme_universal_context.Prelude.{
  ℕ, zero, suc, ◌+◌, ◌≤◌, ◌<◌, max, ◌≡◌, inl, inr, refl, ap, ◌∙◌, Bool, true, false, not, ◌&&◌,
  List, [], ◌∷◌, arith, if◌then◌else◌, Bool-cases, length, take, drop, filter, All, length-take,
  length-drop, contains, IsDistinct,
}
use mneme_universal_context.Prelude.{filter_cong}
use mneme_universal_context.Reindex.{
  Row, indexed, Query, is_candidate, list_reindex_candidates, list_reindex_candidates_window,
}
use mneme_universal_context.Reindex.Run.{
  JobStatus, queued, running, completed, Job, Environment, run_reindex_job_once, run_batch, settle,
  is_terminal,
}

abbrev ids_of : List Row → List ℕ
ids_of [] = []
ids_of (r ∷ rs) = r.event_id ∷ ids_of rs

-- `put_embedding` and the status INDEXED, for the rows of some events.
abbrev mark_indexed : List ℕ → List Row → List Row
mark_indexed ids [] = []
mark_indexed ids (r ∷ rs) =
    (if contains r.event_id ids
      then record r { embedding_status = indexed; has_embedding = true }
      else r)
    ∷ mark_indexed ids rs

-- A provider that embeds all it is given, with no other request in between.
abbrev pub healthy : ℕ → Environment
healthy limit = record {
  index_present = true;
  wait_expired = false;
  cancelled_before_listing = false;
  circuit_allows = true;
  cancelled_while_indexing = false;
  max_events_per_transaction = limit;
  has_record = λ r. true;
  index_events = λ records. record { embedding_items = length records; embedding_failures = 0 };
  index_effect = λ records. mark_indexed (ids_of records);
}

filter_all : (rs : List Row) → filter (λ r. true) rs ≡ rs
filter_all [] = refl
filter_all (r ∷ rs) = ap (λ l. r ∷ l) (filter_all rs)

module _ (q : Query) (unforced : q.force ≡ false) where
  -- An indexed row is no candidate, and the other rows are as they were.
  marked_candidates :
      (ids : List ℕ) (rows : List Row)
      → filter (is_candidate q) (mark_indexed ids rows)
        ≡ filter (λ r. is_candidate q r && not (contains r.event_id ids)) rows
  unfolding is_candidate
  marked_candidates ids [] = refl
  marked_candidates ids (r ∷ rs) = elim (Bool-cases (contains r.event_id ids)) [
    | inl e ↦ rw (e, unforced) (ground (arith, marked_candidates ids rs))
    | inr e ↦ rw e (ground (arith, marked_candidates ids rs))
  ]

filter-filter :
    (f g : Row → Bool) (rs : List Row) → filter (λ r. f r && g r) rs ≡ filter g (filter f rs)
filter-filter f g [] = refl
filter-filter f g (r ∷ rs) = ground (arith, filter-filter f g rs)

others :
    (k : ℕ) (ids : List ℕ) (rs : List Row)
    → contains k (ids_of rs) ≡ false
    → All (λ r. not (contains r.event_id (k ∷ ids)) ≡ not (contains r.event_id ids)) rs
others k ids [] h = tt
others k ids (r ∷ rs) h = (ground arith, others k ids rs (ground arith))

keep_all : (rs : List Row) → filter (λ (r : Row). not (contains r.event_id [])) rs ≡ rs
keep_all [] = refl
keep_all (r ∷ rs) = ap (λ l. r ∷ l) (keep_all rs)

-- Without the events of its first rows, a list with distinct events is the rest.
without_taken :
    (b : ℕ) (rs : List Row)
    → IsDistinct (ids_of rs)
    → filter (λ (r : Row). not (contains r.event_id (ids_of (take b rs)))) rs ≡ drop b rs
without_taken zero rs d = keep_all rs
without_taken (suc b) [] d = refl
without_taken (suc b) (r ∷ rs) (new, d) =
    let self : contains r.event_id (ids_of (take (suc b) (r ∷ rs))) ≡ true = ground arith in
    let rest =
      filter_cong (λ (x : Row). not (contains x.event_id (r.event_id ∷ ids_of (take b rs))))
        (λ (x : Row). not (contains x.event_id (ids_of (take b rs)))) rs
        (others r.event_id (ids_of (take b rs)) rs new) in
    rw self (rest ∙ without_taken b rs d)

module _ (q : Query) (unforced : q.force ≡ false) (limit : ℕ) (rows : List Row)
    (h : 0 < limit) where
  abbrev found : List Row
  found = filter (is_candidate q) rows

  abbrev first_batch : List Row
  first_batch = take limit found

  abbrev rows_after : List Row
  rows_after = mark_indexed (ids_of first_batch) rows

  candidates_after :
      IsDistinct (ids_of found) → filter (is_candidate q) rows_after ≡ drop limit found
  candidates_after d =
      marked_candidates q unforced (ids_of first_batch) rows
      ∙ filter-filter (is_candidate q) (λ (r : Row). not (contains r.event_id (ids_of first_batch)))
          rows
      ∙ without_taken limit found d

  listed :
      (offset : ℕ) (rs : List Row)
      → list_reindex_candidates q offset limit rs
        ≡ take limit (drop offset (filter (is_candidate q) rs))
  listed offset rs =
      let e : max 1 limit ≡ limit = omega arith in
      (list_reindex_candidates_window q offset limit rs).0
      ∙ ap (λ m. take m (drop offset (filter (is_candidate q) rs))) e

  abbrev job_at : JobStatus → ℕ → Job
  job_at s done = record {
    status = s;
    query = q;
    candidate_count = length found;
    processed_count = done;
    failed_count = 0;
  }

  run_batch_first :
      limit < length found
      → run_batch (healthy limit) (job_at running 0) rows ≡ (job_at running limit, rows_after)
  unfolding run_batch settle
  run_batch_first more =
      rw (listed 0 rows, filter_all first_batch) (ground (arith, length-take limit found))

  drop_all : (n : ℕ) (xs : List Row) → length xs ≤ n → drop n xs ≡ []
  drop_all zero [] k = refl
  drop_all (suc n) [] k = refl
  drop_all zero (x ∷ xs) k = absurd (omega arith)
  drop_all (suc n) (x ∷ xs) k = drop_all n xs (omega arith)

  window_empty : (n : ℕ) (xs : List Row) → xs ≡ [] → take n xs ≡ []
  window_empty zero xs e = refl
  window_empty (suc n) xs e = rw e refl

  nothing_listed :
      IsDistinct (ids_of found)
      → length found ≤ limit + limit
      → list_reindex_candidates q (limit + 0) limit rows_after ≡ []
  nothing_listed d k =
      let z : limit + 0 ≡ limit = omega arith in
      listed (limit + 0) rows_after
      ∙ window_empty limit (drop (limit + 0) (filter (is_candidate q) rows_after)) (
          rw (z, candidates_after d)
            (drop_all limit (drop limit found) (omega (arith, length-drop limit found))))

  run_batch_second :
      IsDistinct (ids_of found)
      → length found ≤ limit + limit
      → run_batch (healthy limit) (job_at running limit) rows_after
        ≡ (job_at completed limit, rows_after)
  unfolding run_batch
  run_batch_second d k = rw (nothing_listed d k) refl

  first_call :
      limit < length found
      → run_reindex_job_once (healthy limit) (job_at queued 0) rows
        ≡ (job_at running limit, rows_after)
  unfolding run_reindex_job_once
  first_call more = ground (arith, run_batch_first more)

  second_call :
      IsDistinct (ids_of found)
      → limit < length found
      → length found ≤ limit + limit
      → run_reindex_job_once (healthy limit) (job_at running limit) rows_after
        ≡ (job_at completed limit, rows_after)
  unfolding run_reindex_job_once
  second_call d more k = ground (arith, run_batch_second d k)

-- The calls of a job until it has ended, at most `n`.
pub run_calls : Environment → ℕ → Job × List Row → Job × List Row
run_calls e zero (j, rows) = (j, rows)
run_calls e (suc n) (j, rows) = run_calls e n (run_reindex_job_once e j rows)

terminal_call :
    (e : Environment) (j : Job) (rows : List Row)
    → is_terminal j.status ≡ true
    → run_reindex_job_once e j rows ≡ (j, rows)
unfolding run_reindex_job_once
terminal_call e j rows h = rw h refl

terminal_stays :
    (e : Environment) (n : ℕ) (j : Job) (rows : List Row)
    → is_terminal j.status ≡ true
    → run_calls e n (j, rows) ≡ (j, rows)
unfolding run_calls
terminal_stays e zero j rows h = refl
terminal_stays e (suc n) j rows h = rw (terminal_call e j rows h) (terminal_stays e n j rows h)

two_calls :
    (e : Environment) (n : ℕ) (j j' j'' : Job) (rows rows' rows'' : List Row)
    → run_reindex_job_once e j rows ≡ (j', rows')
    → run_reindex_job_once e j' rows' ≡ (j'', rows'')
    → is_terminal j''.status ≡ true
    → run_calls e (suc (suc n)) (j, rows) ≡ (j'', rows'')
unfolding run_calls
two_calls e n j j' j'' rows rows' rows'' first second ended =
    rw (first, second) (terminal_stays e n j'' rows'' ended)

-- With a provider that embeds everything and nothing in between, a job that is not forced, with
-- more candidates, of distinct events, than a batch takes and at most twice as many, is
-- completed by its second call and stays so, though only the first batch is indexed: the other
-- candidates are candidates still.
pub reindex_leaves_candidates :
    (q : Query) (limit n : ℕ) (rows : List Row)
    → q.force ≡ false
    → 0 < limit
    → IsDistinct (ids_of (filter (is_candidate q) rows))
    → limit < length (filter (is_candidate q) rows)
    → length (filter (is_candidate q) rows) ≤ limit + limit
    → let (j, rows') = run_calls (healthy limit) (suc (suc n)) (
      record {
        status = queued;
        query = q;
        candidate_count = length (filter (is_candidate q) rows);
        processed_count = 0;
        failed_count = 0;
      },
      rows,
    ) in
      (j.status ≡ completed)
      × (j.processed_count ≡ limit)
      × (filter (is_candidate q) rows' ≡ drop limit (filter (is_candidate q) rows))
      × (0 < length (filter (is_candidate q) rows'))
reindex_leaves_candidates q limit n rows u h d more k =
    let found_left = candidates_after q u limit rows h d in
    let calls =
      two_calls (healthy limit) n (job_at q u limit rows h queued 0)
        (job_at q u limit rows h running limit) (job_at q u limit rows h completed limit) rows
        (rows_after q u limit rows h) (rows_after q u limit rows h)
        (first_call q u limit rows h more) (second_call q u limit rows h d more k) refl in
    rw (calls, found_left)
      (refl, refl, refl, omega (arith, length-drop limit (filter (is_candidate q) rows)))

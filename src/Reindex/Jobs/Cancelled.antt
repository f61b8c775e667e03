-- ===== src/Reindex/Jobs/Cancelled.antt =====
-- The cancelling of reindex jobs, and jobs that a principal may not see.
use mneme_universal_context.Prelude.{
  ℕ, ◌≡◌, ◌⊎◌, inl, inr, refl, sym, ap, ◌∙◌, true, false, Option, none, some, List, [], ◌∷◌, arith,
  ◌==◌, if◌then◌else◌, Bool-cases, Option-cases, All,
}
use mathlib.Core.Path.{subst}
use mneme_universal_context.Access.Principal.{
  Principal, all_projects, can_access_project, Failure, not_found, Result, ok, err,
}
use mneme_universal_context.Reindex.Run.{cancelled}
use mneme_universal_context.Reindex.Jobs.{
  ScopeName, all_name, project_name, session_name, unknown_name, Target, ReindexJob, World,
  find_session, require_project_access, is_other_key, require_found, require_session_access,
  find_job, hidden, access_to, require_reindex_job_access, has_ended, update_reindex_job,
  cancel_found, cancel_reindex_job,
}
use mneme_universal_context.Reindex.Jobs.Granted.{ok_after, HasId, granted_job}

hidden_project :
    (p : Principal) (key : Option ℕ) (e : Failure)
    → hidden (require_project_access p key) ≡ err e
    → e ≡ not_found
unfolding require_project_access
hidden_project p key e h = elim (Bool-cases (can_access_project p key)) [
  | inl allowed ↦ cc (rw allowed at h)
  | inr denied ↦ cc (rw denied at h)
]

hidden_found :
    (p : Principal) (requested : Option ℕ) (o : Option (Option ℕ)) (e : Failure)
    → hidden (require_found p requested o) ≡ err e
    → e ≡ not_found
hidden_found p requested none e h = cc h
hidden_found p requested (some key) e h = elim (Bool-cases (is_other_key requested key)) [
  | inl differs ↦ cc (rw differs at h)
  | inr same ↦ hidden_project p key e (rw same at h)
]

hidden_session :
    (w : World) (p : Principal) (s : ℕ) (requested : Option ℕ) (e : Failure)
    → w.is_id s ≡ true
    → hidden (require_session_access w p s requested) ≡ err e
    → e ≡ not_found
unfolding require_session_access
hidden_session w p s requested e id h =
    hidden_found p requested (find_session s w.sessions) e (rw id at h)

hidden_target :
    (w : World) (p : Principal) (t : Target) (n : ScopeName) (s : Option ℕ) (e : Failure)
    → HasId w s
    → access_to w p n t s ≡ err e
    → e ≡ not_found
hidden_target w p t all_name s e id h = elim (Bool-cases (all_projects p)) [
  | inl allowed ↦ cc (rw allowed at h)
  | inr denied ↦ cc (rw denied at h)
]
hidden_target w p t project_name none e id h = hidden_project p t.project_isolation_key e h
hidden_target w p t session_name none e id h = hidden_project p t.project_isolation_key e h
hidden_target w p t unknown_name none e id h = hidden_project p t.project_isolation_key e h
hidden_target w p t project_name (some s) e id h = elim (Bool-cases (s == 0)) [
  | inl empty ↦ hidden_project p t.project_isolation_key e (rw empty at h)
  | inr given ↦ hidden_session w p s t.project_isolation_key e id (rw given at h)
]
hidden_target w p t session_name (some s) e id h = elim (Bool-cases (s == 0)) [
  | inl empty ↦ hidden_project p t.project_isolation_key e (rw empty at h)
  | inr given ↦ hidden_session w p s t.project_isolation_key e id (rw given at h)
]
hidden_target w p t unknown_name (some s) e id h = elim (Bool-cases (s == 0)) [
  | inl empty ↦ hidden_project p t.project_isolation_key e (rw empty at h)
  | inr given ↦ hidden_session w p s t.project_isolation_key e id (rw given at h)
]

access-cases : (m : Result (Unit {0})) → (m ≡ ok tt) ⊎ ((e : Failure) × (m ≡ err e))
access-cases (ok u) = inl refl
access-cases (err e) = inr (e, refl)

job_id_of :
    (w : World) (k : ℕ) (jobs : List ReindexJob) (j : ReindexJob)
    → All (λ i. HasId w i.target.session_id) jobs
    → find_job k jobs ≡ some j
    → HasId w j.target.session_id
job_id_of w k [] j h e = cc
job_id_of w k (i ∷ jobs) j h e = elim (Bool-cases (i.job_id == k)) [
  | inl same ↦ let eq : i ≡ j = cc (rw same at e) in rw⁻¹ eq h.0
  | inr other ↦ job_id_of w k jobs j h.1 (rw other at e)
]

refused_as_missing :
    (w : World) (p : Principal) (jobs : List ReindexJob) (k : ℕ) (e : Failure)
    → All (λ j. HasId w j.target.session_id) jobs
    → require_reindex_job_access w p jobs k ≡ err e
    → e ≡ not_found
unfolding require_reindex_job_access
refused_as_missing w p jobs k e ids h = elim (Option-cases (find_job k jobs)) [
  | inl missing ↦ cc (rw missing at h)
  | inr (j, found) ↦
      elim (access-cases (access_to w p j.target.scope j.target j.target.session_id)) [
        | inl allowed ↦ cc (rw (found, allowed) at h)
        | inr (f, denied) ↦
            let same : f ≡ e = cc (rw (found, denied) at h) in
            sym same
            ∙ hidden_target w p j.target j.target.scope j.target.session_id f
                (job_id_of w k jobs j ids found) denied
      ]
]

-- Where the sessions of the jobs have valid identifiers, a job that is there and that the
-- principal may not see is refused just as a job that is not there.
pub require_reindex_job_access_hides :
    (w : World) (p : Principal) (jobs : List ReindexJob) (k : ℕ) (e : Failure)
    → All (λ j. HasId w j.target.session_id) jobs
    → require_reindex_job_access w p jobs k ≡ err e
    → require_reindex_job_access w p jobs k ≡ require_reindex_job_access w p [] k
require_reindex_job_access_hides w p jobs k e ids h =
    h ∙ ap err (refused_as_missing w p jobs k e ids h) ∙ (unfold require_reindex_job_access in refl)

seen_job :
    (w : World) (p : Principal) (jobs : List ReindexJob) (k : ℕ) (j : ReindexJob)
    → require_reindex_job_access w p jobs k ≡ ok j
    → (find_job k jobs ≡ some j)
      × (access_to w p j.target.scope j.target j.target.session_id ≡ ok tt)
unfolding require_reindex_job_access
seen_job w p jobs k j e = elim (Option-cases (find_job k jobs)) [
  | inl missing ↦ cc (rw missing at e)
  | inr (i, found) ↦
      elim (access-cases (access_to w p i.target.scope i.target i.target.session_id)) [
        | inr (f, denied) ↦ cc (rw (found, denied) at e)
        | inl allowed ↦
            let same : i ≡ j = cc (rw (found, allowed) at e) in
            subst
              (λ x.
                (find_job k jobs ≡ some x)
                × (access_to w p x.target.scope x.target x.target.session_id ≡ ok tt))
              same (found, allowed)
      ]
]

found_job_id :
    (k : ℕ) (jobs : List ReindexJob) (j : ReindexJob) → find_job k jobs ≡ some j → j.job_id ≡ k
found_job_id k [] j e = cc
found_job_id k (i ∷ jobs) j e = elim (Bool-cases (i.job_id == k)) [
  | inl same ↦ let eq : i ≡ j = cc (rw same at e) in rw⁻¹ eq (ground arith)
  | inr other ↦ found_job_id k jobs j (rw other at e)
]

find-update :
    (t j : ReindexJob) (jobs : List ReindexJob) (k : ℕ)
    → t.job_id ≡ k
    → find_job k jobs ≡ some j
    → find_job k (update_reindex_job t jobs) ≡ some t
find-update t j [] k id e = cc
find-update t j (i ∷ jobs) k id e = elim (Bool-cases (i.job_id == k)) [
  | inl same ↦
      let replaced : (i.job_id == t.job_id) ≡ true = ground (arith, id) in
      let self : (t.job_id == k) ≡ true = ground (arith, id) in rw (replaced, self) refl
  | inr other ↦
      let kept : (i.job_id == t.job_id) ≡ false = ground (arith, id) in
      rw (kept, other) (find-update t j jobs k id (rw other at e))
]

find-update_other :
    (t : ReindexJob) (jobs : List ReindexJob) (k i : ℕ)
    → t.job_id ≡ k
    → (k == i) ≡ false
    → find_job i (update_reindex_job t jobs) ≡ find_job i jobs
find-update_other t [] k i id h = refl
find-update_other t (j ∷ jobs) k i id h = elim (Bool-cases (j.job_id == t.job_id)) [
  | inl same ↦
      let new : (t.job_id == i) ≡ false = ground (arith, id) in
      let old : (j.job_id == i) ≡ false = ground (arith, id) in
      rw (same, new, old) (find-update_other t jobs k i id h)
  | inr kept ↦ elim (Bool-cases (j.job_id == i)) [
    | inl e ↦ rw (kept, e) refl
    | inr e ↦ rw (kept, e) (find-update_other t jobs k i id h)
  ]
]

-- The job `i` as cancelling answers it, with its table.
abbrev pub cancelled_job : ℕ → ReindexJob → ReindexJob
cancelled_job now i = if has_ended i.status then i else record {
  job_id = i.job_id;
  target = i.target;
  statuses = i.statuses;
  status = cancelled;
  completed_at = some now;
  candidate_count = i.candidate_count;
}

-- The job `before` and the table `jobs`, and what they are after the cancelling: `j` and `jobs'`.
pub record IsCancelled (w : World) (p : Principal) (now k : ℕ) (jobs : List ReindexJob)
    (j : ReindexJob) (jobs' : List ReindexJob) : Type 0 where
  pub before : ReindexJob
  pub was_there : find_job k jobs ≡ some before
  pub answered : j ≡ cancelled_job now before
  pub kept_if_ended : has_ended before.status ≡ true → jobs' ≡ jobs
  pub ended : has_ended j.status ≡ true
  pub found : find_job k jobs' ≡ some j
  pub others : (i : ℕ) → (k == i) ≡ false → find_job i jobs' ≡ find_job i jobs
  pub again : (later : ℕ) → cancel_reindex_job w p later k jobs' ≡ ok (j, jobs')

ended_stays :
    (w : World) (p : Principal) (later k : ℕ) (jobs : List ReindexJob) (j : ReindexJob)
    → find_job k jobs ≡ some j
    → access_to w p j.target.scope j.target j.target.session_id ≡ ok tt
    → has_ended j.status ≡ true
    → cancel_reindex_job w p later k jobs ≡ ok (j, jobs)
unfolding cancel_reindex_job
ended_stays w p later k jobs j found access ended =
    rw (granted_job w p jobs k j found access, ended) refl

cancel_found-IsCancelled :
    (w : World) (p : Principal) (now k : ℕ) (jobs : List ReindexJob) (i : ReindexJob)
    → find_job k jobs ≡ some i
    → access_to w p i.target.scope i.target i.target.session_id ≡ ok tt
    → (j : ReindexJob) (jobs' : List ReindexJob) → cancel_found now jobs i ≡ ok (j, jobs')
    → IsCancelled w p now k jobs j jobs'
cancel_found-IsCancelled w p now k jobs i found access j jobs' e =
    elim (Bool-cases (has_ended i.status)) [
      | inl ended ↦
          let both : ok (i, jobs) ≡ ok (j, jobs') = rw ended at e in
          let i_eq : i ≡ j = cc both in
          let jobs_eq : jobs ≡ jobs' = cc both in
          subst (λ x. IsCancelled w p now k jobs j x) jobs_eq
            (subst (λ x. IsCancelled w p now k jobs x jobs) i_eq
              (record {
                before = i;
                was_there = found;
                answered = rw ended refl;
                kept_if_ended = λ h. refl;
                ended = ended;
                found = found;
                others = λ o h. refl;
                again = λ later. ended_stays w p later k jobs i found access ended;
              }))
      | inr active ↦
          let t : ReindexJob = record i { status = cancelled; completed_at = some now } in
          let id = found_job_id k jobs i found in
          let both : ok (t, update_reindex_job t jobs) ≡ ok (j, jobs') = rw active at e in
          let t_eq : t ≡ j = cc both in
          let jobs_eq : update_reindex_job t jobs ≡ jobs' = cc both in
          let now_found = find-update t i jobs k id found in
          subst (λ x. IsCancelled w p now k jobs j x) jobs_eq
            (subst (λ x. IsCancelled w p now k jobs x (update_reindex_job t jobs)) t_eq
              (record {
                before = i;
                was_there = found;
                answered = rw active refl;
                kept_if_ended = λ h. cc;
                ended = refl;
                found = now_found;
                others = λ o h. find-update_other t jobs k o id h;
                again = λ later.
                    ended_stays w p later k (update_reindex_job t jobs) t now_found access refl;
              }))
    ]

-- A cancelling that is answered answers the job that was in the table: if it had ended, as it was,
-- and the table is unchanged; otherwise with the status CANCELLED and the time, and nothing else
-- of it changed. The table then has the job as answered and every other job as it was; and to
-- cancel the job again at any time changes nothing and is answered the same.
pub cancel_reindex_job-IsCancelled :
    (w : World) (p : Principal) (now k : ℕ) (jobs : List ReindexJob) (j : ReindexJob)
    (jobs' : List ReindexJob)
    → cancel_reindex_job w p now k jobs ≡ ok (j, jobs')
    → IsCancelled w p now k jobs j jobs'
unfolding cancel_reindex_job
cancel_reindex_job-IsCancelled w p now k jobs j jobs' e =
    let (i, access, rest) = ok_after (require_reindex_job_access w p jobs k) _ (j, jobs') e in
    let (found, allowed) = seen_job w p jobs k i access in
    cancel_found-IsCancelled w p now k jobs i found allowed j jobs' rest

-- ===== src/Reindex/Jobs.antt =====
-- The routes of reindex jobs in mneme_service/app.py, without idempotency keys:
-- `create_reindex_job`, `get_reindex_job` and `cancel_reindex_job`, with the checks that they
-- make, over the table `reindex_jobs` of mneme_service/storage.py. Audit records are left out.
pub mod Granted
pub mod Cancelled
use mneme_universal_context.Prelude.{
  ℕ, zero, suc, ◌+◌, ◌-◌, ◌*◌, ◌/◌, ◌≤◌, ◌<◌, max, min, ◌≡◌, ◌≢◌, ◌↔◌, ◌⊎◌, inl, inr, refl, sym, ap,
  ◌∙◌, Bool, true, false, not, ◌&&◌, ◌||◌, Option, none, some, List, [], ◌∷◌, ◌++◌, map, reverse,
  arith, ltb, leb, ◌==◌, if◌then◌else◌, Bool-cases, Option-cases, length, get_elem?, take, drop,
  filter, any, All, last_n, length-append, length-take, length-drop, contains, count, add_new,
  IsDistinct,
}
use mneme_universal_context.Access.Principal.{
  Principal, all_projects, can_access_project, Failure, forbidden, not_found, conflict, validation,
  unavailable, Result, ok, err, ◌>>=◌,
}
use mneme_universal_context.Reindex.Run.{
  JobStatus, queued, running, waiting_for_provider, completed, failed, cancelled,
}

pub data ScopeName : Type 0 where
  all_name project_name session_name unknown_name : ScopeName

pub data StatusName : Type 0 where
  pending_name failed_name blank other_name : StatusName

-- `keys_are_texts` is false where a key is neither a text nor missing; `max_job_events` is
-- `none` where it is no integer, and 0 where it is not positive.
pub record Payload : Type 0 where
  pub scope : ScopeName
  pub keys_are_texts : Bool
  pub project_isolation_key : Option ℕ
  pub session_id : Option ℕ
  pub statuses : List StatusName
  pub max_job_events : Option ℕ

pub record Target : Type 0 where
  pub scope : ScopeName
  pub project_isolation_key : Option ℕ
  pub session_id : Option ℕ

pub record ReindexJob : Type 0 where
  pub job_id : ℕ
  pub target : Target
  pub statuses : List StatusName
  pub status : JobStatus
  pub completed_at : Option ℕ
  pub candidate_count : ℕ

-- `sessions` has the project key of each session; `is_id` is `validate_session_id`.
pub record World : Type 0 where
  pub sessions : List (ℕ × Option ℕ)
  pub is_id : ℕ → Bool

abbrev pub find_session : ℕ → List (ℕ × Option ℕ) → Option (Option ℕ)
find_session k [] = none
find_session k ((j, key) ∷ ss) = if j == k then some key else find_session k ss

unfoldable pub require_project_access : Principal → Option ℕ → Result (Unit {0})
require_project_access p key = if can_access_project p key then ok tt else err forbidden

-- Whether a key is requested that is not the session's.
abbrev pub is_other_key : Option ℕ → Option ℕ → Bool
is_other_key none key = false
is_other_key (some k) none = not (k == 0)
is_other_key (some k) (some j) = not (k == 0) && not (j == k)

abbrev pub require_found : Principal → Option ℕ → Option (Option ℕ) → Result (Unit {0})
require_found p requested none = err not_found
require_found p requested (some key) =
    if is_other_key requested key then err forbidden else require_project_access p key

unfoldable pub require_session_access : World → Principal → ℕ → Option ℕ → Result (Unit {0})
unfolding require_project_access
require_session_access w p session requested =
    if not (w.is_id session)
    then err validation
    else require_found p requested (find_session session w.sessions)

abbrev pub key_of : Option (Option ℕ) → Option ℕ
key_of none = none
key_of (some key) = key

abbrev pub project_target : Principal → Option ℕ → Result Target
project_target p none = err validation
project_target p (some k) =
    if k == 0
    then err validation
    else if not (can_access_project p (some k))
    then err forbidden
    else ok (record { scope = project_name; project_isolation_key = some k; session_id = none })

abbrev pub session_target : World → Principal → Option ℕ → Option ℕ → Result Target
session_target w p requested none = err validation
session_target w p requested (some s) = if s == 0 then err validation else do
  _ ← require_session_access w p s requested
  ok (record {
    scope = session_name;
    project_isolation_key = key_of (find_session s w.sessions);
    session_id = some s;
  })

abbrev pub target_of : World → Principal → ScopeName → Payload → Result Target
target_of w p unknown_name r = err validation
target_of w p all_name r =
    if not (all_projects p)
    then err forbidden
    else ok (record { scope = all_name; project_isolation_key = none; session_id = none })
target_of w p project_name r = project_target p r.project_isolation_key
target_of w p session_name r = session_target w p r.project_isolation_key r.session_id

abbrev pub is_unknown : ScopeName → Bool
is_unknown unknown_name = true
is_unknown _ = false

unfoldable pub normalize_reindex_scope : World → Principal → Payload → Result Target
unfolding require_session_access
normalize_reindex_scope w p r =
    if is_unknown r.scope
    then err validation
    else if not r.keys_are_texts
    then err validation
    else target_of w p r.scope r

abbrev pub is_blank : StatusName → Bool
is_blank blank = true
is_blank _ = false

abbrev pub is_other_name : StatusName → Bool
is_other_name other_name = true
is_other_name _ = false

abbrev pub or_default : List StatusName → List StatusName
or_default [] = pending_name ∷ failed_name ∷ []
or_default (s ∷ ss) = s ∷ ss

unfoldable pub normalize_reindex_statuses : List StatusName → Result (List StatusName)
normalize_reindex_statuses raw =
    let statuses = filter (λ s. not (is_blank s)) (or_default raw) in
    if length statuses == 0
    then err validation
    else if any is_other_name statuses
    then err validation
    else ok statuses

unfoldable pub normalize_reindex_max_job_events : ℕ → Option ℕ → Result ℕ
normalize_reindex_max_job_events limit none = err validation
normalize_reindex_max_job_events limit (some n) =
    if n == 0 then err validation else ok (min n limit)

abbrev pub find_job : ℕ → List ReindexJob → Option ReindexJob
find_job k [] = none
find_job k (j ∷ js) = if j.job_id == k then some j else find_job k js

-- 403 and 404 are answered as 404.
abbrev pub hidden : Result (Unit {0}) → Result (Unit {0})
hidden (ok u) = ok u
hidden (err forbidden) = err not_found
hidden (err not_found) = err not_found
hidden (err e) = err e

abbrev pub access_to : World → Principal → ScopeName → Target → Option ℕ → Result (Unit {0})
access_to w p all_name t s = if not (all_projects p) then err not_found else ok tt
access_to w p _ t none = hidden (require_project_access p t.project_isolation_key)
access_to w p _ t (some s) =
    if s == 0
    then hidden (require_project_access p t.project_isolation_key)
    else hidden (require_session_access w p s t.project_isolation_key)

abbrev pub access_job : World → Principal → Option ReindexJob → Result ReindexJob
access_job w p none = err not_found
access_job w p (some j) = do _ ← access_to w p j.target.scope j.target j.target.session_id; ok j

unfoldable pub require_reindex_job_access :
    World → Principal → List ReindexJob → ℕ → Result ReindexJob
unfolding require_session_access
require_reindex_job_access w p jobs k = access_job w p (find_job k jobs)

-- What the route is given: the identifier that it makes, whether there is a provider, whether a
-- job may wait for one, and the counting of candidates.
pub record Given : Type 0 where
  pub job_id : ℕ
  pub has_provider : Bool
  pub may_wait : Bool
  pub limit : ℕ
  pub count_candidates : Target → List StatusName → ℕ → ℕ

abbrev pub new_job : Given → Target → List StatusName → ℕ → ReindexJob
new_job g target statuses max_job_events = record {
  job_id = g.job_id;
  target = target;
  statuses = statuses;
  status = if g.has_provider then queued else waiting_for_provider;
  completed_at = none;
  candidate_count = g.count_candidates target statuses max_job_events;
}

-- The rest of the route, for a request that is accepted.
unfoldable pub put_reindex_job :
    Given → List ReindexJob → Target → List StatusName → ℕ → Result (ReindexJob × List ReindexJob)
put_reindex_job g jobs target statuses max_job_events =
    let job = new_job g target statuses max_job_events in
    if not g.has_provider && not g.may_wait then err unavailable else ok (job, jobs ++ job ∷ [])

unfoldable pub create_reindex_job :
    World → Principal → Given → Payload → List ReindexJob → Result (ReindexJob × List ReindexJob)
unfolding normalize_reindex_scope normalize_reindex_statuses normalize_reindex_max_job_events
    put_reindex_job
create_reindex_job w p g r jobs = normalize_reindex_scope w p r >>= λ target.
    normalize_reindex_statuses r.statuses >>= λ statuses.
    normalize_reindex_max_job_events g.limit r.max_job_events >>= λ max_job_events.
    put_reindex_job g jobs target statuses max_job_events

abbrev pub has_ended : JobStatus → Bool
has_ended completed = true
has_ended failed = true
has_ended cancelled = true
has_ended _ = false

abbrev pub update_reindex_job : ReindexJob → List ReindexJob → List ReindexJob
update_reindex_job t [] = []
update_reindex_job t (j ∷ js) = (if j.job_id == t.job_id then t else j) ∷ update_reindex_job t js

abbrev pub cancel_found : ℕ → List ReindexJob → ReindexJob → Result (ReindexJob × List ReindexJob)
cancel_found now jobs j =
    let t = record j { status = cancelled; completed_at = some now } in
    if has_ended j.status then ok (j, jobs) else ok (t, update_reindex_job t jobs)

unfoldable pub cancel_reindex_job :
    World → Principal → ℕ → ℕ → List ReindexJob → Result (ReindexJob × List ReindexJob)
unfolding require_reindex_job_access
cancel_reindex_job w p now k jobs =
    require_reindex_job_access w p jobs k >>= λ j. cancel_found now jobs j

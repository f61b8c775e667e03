-- ===== src/Reindex/Jobs/Granted.antt =====
-- Who may create, read and cancel a reindex job.
use mneme_universal_context.Prelude.{
  ℕ, ◌≡◌, inl, inr, refl, true, false, not, ◌&&◌, Option, none, some, List, [], ◌∷◌, ◌++◌, arith,
  ◌==◌, Bool-cases,
}
use mathlib.Core.Path.{subst}
use mneme_universal_context.Access.Principal.{
  Principal, all_projects, can_access_project, Result, ok, err, ◌>>=◌,
}
use mneme_universal_context.Reindex.Jobs.{
  ScopeName, all_name, project_name, session_name, unknown_name, StatusName, Payload, Target,
  ReindexJob, World, find_session, require_project_access, is_other_key, require_found,
  require_session_access, project_target, session_target, target_of, is_unknown,
  normalize_reindex_scope, normalize_reindex_statuses, normalize_reindex_max_job_events, find_job,
  access_to, require_reindex_job_access, Given, new_job, put_reindex_job, create_reindex_job,
}

pub ok_after {ℓ κ} :
    {A : Type ℓ} {B : Type κ} (m : Result A) (f : A → Result B) (b : B)
    → (m >>= f) ≡ ok b
    → (a : A) × (m ≡ ok a) × (f a ≡ ok b)
ok_after (ok a) f b e = (a, refl, e)
ok_after (err x) f b e = cc

-- The scope is one that the principal may have.
abbrev pub MayHave : Principal → ScopeName → Target → Type 0
MayHave p all_name t = all_projects p ≡ true
MayHave p project_name t = can_access_project p t.project_isolation_key ≡ true
MayHave p session_name t = can_access_project p t.project_isolation_key ≡ true
MayHave p unknown_name t = ⊥

abbrev pub HasId : World → Option ℕ → Type 0
HasId w none = Unit
HasId w (some s) = w.is_id s ≡ true

pub record IsGranted (w : World) (p : Principal) (t : Target) : Type 0 where
  pub access : access_to w p t.scope t t.session_id ≡ ok tt
  pub may : MayHave p t.scope t
  pub id : HasId w t.session_id

project_target-IsGranted :
    (w : World) (p : Principal) (o : Option ℕ) (t : Target)
    → project_target p o ≡ ok t
    → IsGranted w p t
unfolding require_project_access
project_target-IsGranted w p none t e = cc
project_target-IsGranted w p (some k) t e = elim (Bool-cases (k == 0)) [
  | inl empty ↦ cc (rw empty at e)
  | inr given ↦ elim (Bool-cases (can_access_project p (some k))) [
    | inr denied ↦ cc (rw (given, denied) at e)
    | inl allowed ↦
        let eq : record { scope = project_name; project_isolation_key = some k; session_id = none }
            ≡ t =
          cc (rw (given, allowed) at e) in
        subst (λ x. IsGranted w p x) eq
          (record { access = rw allowed refl; may = allowed; id = tt })
  ]
]

own_key : (o : Option ℕ) → is_other_key o o ≡ false
own_key none = refl
own_key (some k) = ground arith

require_found-some :
    (p : Principal) (requested : Option ℕ) (o : Option (Option ℕ))
    → require_found p requested o ≡ ok tt
    → (key : Option ℕ) × (o ≡ some key) × (can_access_project p key ≡ true)
unfolding require_project_access
require_found-some p requested none e = cc
require_found-some p requested (some key) e = elim (Bool-cases (is_other_key requested key)) [
  | inl differs ↦ cc (rw differs at e)
  | inr same ↦ elim (Bool-cases (can_access_project p key)) [
    | inl allowed ↦ (key, refl, allowed)
    | inr denied ↦ cc (rw (same, denied) at e)
  ]
]

session_target-IsGranted :
    (w : World) (p : Principal) (requested o : Option ℕ) (t : Target)
    → session_target w p requested o ≡ ok t
    → IsGranted w p t
unfolding require_session_access require_project_access
session_target-IsGranted w p requested none t e = cc
session_target-IsGranted w p requested (some s) t e = elim (Bool-cases (s == 0)) [
  | inl empty ↦ cc (rw empty at e)
  | inr given ↦
      let (u, required, made) =
        ok_after (require_session_access w p s requested) _ t (rw given at e) in
      elim (Bool-cases (w.is_id s)) [
        | inr bad ↦ cc (rw bad at required)
        | inl is_id ↦
            let (key, found, allowed) =
              require_found-some p requested (find_session s w.sessions) (rw is_id at required) in
            let eq : record {
              scope = session_name;
              project_isolation_key = key;
              session_id = some s;
            }
                ≡ t =
              cc (rw found at made) in
            subst (λ x. IsGranted w p x) eq
              (record {
                access = rw (given, is_id, found, own_key key, allowed) refl;
                may = allowed;
                id = is_id;
              })
      ]
]

target_of-IsGranted :
    (w : World) (p : Principal) (n : ScopeName) (r : Payload) (t : Target)
    → target_of w p n r ≡ ok t
    → IsGranted w p t
target_of-IsGranted w p unknown_name r t e = cc
target_of-IsGranted w p project_name r t e =
    project_target-IsGranted w p r.project_isolation_key t e
target_of-IsGranted w p session_name r t e =
    session_target-IsGranted w p r.project_isolation_key r.session_id t e
target_of-IsGranted w p all_name r t e = elim (Bool-cases (all_projects p)) [
  | inr denied ↦ cc (rw denied at e)
  | inl allowed ↦
      let eq : record { scope = all_name; project_isolation_key = none; session_id = none } ≡ t =
        cc (rw allowed at e) in
      subst (λ x. IsGranted w p x) eq (record { access = rw allowed refl; may = allowed; id = tt })
]

pub normalize_reindex_scope-IsGranted :
    (w : World) (p : Principal) (r : Payload) (t : Target)
    → normalize_reindex_scope w p r ≡ ok t
    → IsGranted w p t
unfolding normalize_reindex_scope
normalize_reindex_scope-IsGranted w p r t e = elim (Bool-cases (is_unknown r.scope)) [
  | inl unknown ↦ cc (rw unknown at e)
  | inr known ↦ elim (Bool-cases r.keys_are_texts) [
    | inl texts ↦ target_of-IsGranted w p r.scope r t (simp (known, texts) at e)
    | inr wrong ↦ cc (simp (known, wrong) at e)
  ]
]

find_new :
    (jobs : List ReindexJob) (j : ReindexJob)
    → find_job j.job_id jobs ≡ none
    → find_job j.job_id (jobs ++ j ∷ []) ≡ some j
find_new [] j h = let self : (j.job_id == j.job_id) ≡ true = ground arith in rw self refl
find_new (i ∷ jobs) j h = elim (Bool-cases (i.job_id == j.job_id)) [
  | inl e ↦ cc (rw e at h)
  | inr e ↦ rw e (find_new jobs j (rw e at h))
]

pub granted_job :
    (w : World) (p : Principal) (jobs : List ReindexJob) (k : ℕ) (j : ReindexJob)
    → find_job k jobs ≡ some j
    → access_to w p j.target.scope j.target j.target.session_id ≡ ok tt
    → require_reindex_job_access w p jobs k ≡ ok j
unfolding require_reindex_job_access
granted_job w p jobs k j found access = rw (found, access) refl

put_reindex_job_lem :
    (g : Given) (jobs : List ReindexJob) (t : Target) (ss : List StatusName) (n : ℕ)
    (j : ReindexJob) (jobs' : List ReindexJob)
    → put_reindex_job g jobs t ss n ≡ ok (j, jobs')
    → (new_job g t ss n ≡ j) × (jobs ++ new_job g t ss n ∷ [] ≡ jobs')
unfolding put_reindex_job
put_reindex_job_lem g jobs t ss n j jobs' e =
    elim (Bool-cases (not g.has_provider && not g.may_wait)) [
      | inl late ↦ cc (rw late at e)
      | inr ready ↦
          let both : ok (new_job g t ss n, jobs ++ new_job g t ss n ∷ []) ≡ ok (j, jobs') =
            rw ready at e in
          (cc both, cc both)
    ]

put_reindex_job-IsGranted :
    (w : World) (p : Principal) (g : Given) (jobs : List ReindexJob) (t : Target)
    (ss : List StatusName) (n : ℕ) (j : ReindexJob) (jobs' : List ReindexJob)
    → find_job g.job_id jobs ≡ none
    → IsGranted w p t
    → put_reindex_job g jobs t ss n ≡ ok (j, jobs')
    → IsGranted w p j.target × (require_reindex_job_access w p jobs' g.job_id ≡ ok j)
put_reindex_job-IsGranted w p g jobs t ss n j jobs' new granted e =
    let (job_eq, jobs_eq) = put_reindex_job_lem g jobs t ss n j jobs' e in
    subst (λ x. IsGranted w p x.target × (require_reindex_job_access w p jobs' g.job_id ≡ ok x))
      job_eq
      (subst
        (λ x. IsGranted w p t × (require_reindex_job_access w p x g.job_id ≡ ok (new_job g t ss n)))
        jobs_eq
        (
          granted,
          granted_job w p (jobs ++ new_job g t ss n ∷ []) g.job_id (new_job g t ss n)
              (find_new jobs (new_job g t ss n) new) granted.access,
        ))

-- A job that is created under an identifier that is new is one the same principal may then read,
-- and its scope is one that the principal may have: all projects with the wildcard only, a
-- project or a session only of a project that it may access.
pub create_reindex_job-IsGranted :
    (w : World) (p : Principal) (g : Given) (r : Payload) (jobs : List ReindexJob) (j : ReindexJob)
    (jobs' : List ReindexJob)
    → find_job g.job_id jobs ≡ none
    → create_reindex_job w p g r jobs ≡ ok (j, jobs')
    → IsGranted w p j.target × (require_reindex_job_access w p jobs' g.job_id ≡ ok j)
unfolding create_reindex_job
create_reindex_job-IsGranted w p g r jobs j jobs' new e =
    let (t, scope, e1) = ok_after (normalize_reindex_scope w p r) _ (j, jobs') e in
    let (ss, statuses, e2) = ok_after (normalize_reindex_statuses r.statuses) _ (j, jobs') e1 in
    let (n, limit, e3) =
      ok_after (normalize_reindex_max_job_events g.limit r.max_job_events) _ (j, jobs') e2 in
    put_reindex_job-IsGranted w p g jobs t ss n j jobs' new
      (normalize_reindex_scope-IsGranted w p r t scope) e3

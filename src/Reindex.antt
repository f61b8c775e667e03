-- ===== src/Reindex.antt =====
-- The reindex job: `count_reindex_candidates` and `list_reindex_candidates` of
-- mneme_service/storage.py, and `run_reindex_job_once` of mneme_service/app.py. The rows are those
-- of the query over `events` and `sessions`, in its order, whose JSON is readable.
pub mod Run
pub mod Skipped
pub mod Jobs
pub mod Circuit
mod Tests
use mneme_universal_context.Prelude.{
  ℕ, zero, suc, ◌+◌, ◌-◌, ◌*◌, ◌/◌, ◌≤◌, ◌<◌, max, min, ◌≡◌, ◌≢◌, ◌↔◌, ◌⊎◌, inl, inr, refl, sym, ap,
  ◌∙◌, Bool, true, false, not, ◌&&◌, ◌||◌, Option, none, some, List, [], ◌∷◌, ◌++◌, map, reverse,
  arith, ltb, leb, ◌==◌, if◌then◌else◌, Bool-cases, Option-cases, length, get_elem?, take, drop,
  filter, any, All, last_n, length-append, length-take, length-drop, contains, count, add_new,
  IsDistinct,
}

pub data EmbeddingStatus : Type 0 where
  pending failed indexed other_status : EmbeddingStatus

pub record Row : Type 0 where
  pub event_id : ℕ
  pub session_id : ℕ
  pub project_key : Option ℕ
  pub embedding_status : EmbeddingStatus
  -- whether `embedding_index` has the event for the active model
  pub has_embedding : Bool

pub data Scope : Type 0 where
  all_scope : Scope
  project_scope : Option ℕ → Scope
  session_scope : ℕ → Scope

-- The requested statuses, a subset of PENDING and FAILED.
pub record Query : Type 0 where
  pub scope : Scope
  pub want_pending : Bool
  pub want_failed : Bool
  pub force : Bool

abbrev pub same_key : Option ℕ → Option ℕ → Bool
same_key none none = true
same_key none (some k) = false
same_key (some j) none = false
same_key (some j) (some k) = j == k

abbrev pub in_scope : Scope → Row → Bool
in_scope all_scope r = true
in_scope (project_scope k) r = same_key r.project_key k
in_scope (session_scope s) r = r.session_id == s

abbrev pub is_requested : Query → EmbeddingStatus → Bool
is_requested q pending = q.want_pending
is_requested q failed = q.want_failed
is_requested q indexed = false
is_requested q other_status = false

-- The tests of the loops, up to their `continue`.
unfoldable pub is_candidate : Query → Row → Bool
is_candidate q r =
    in_scope q.scope r
    && (q.force || is_requested q r.embedding_status || (q.want_pending && not r.has_embedding))

-- The counting loop, which stops at the limit.
pub count_from : Query → ℕ → ℕ → List Row → ℕ
count_from q limit count [] = count
count_from q limit count (r ∷ rs) =
    let rest = count_from q limit (count + 1) rs in
    let skip = count_from q limit count rs in
    if not (is_candidate q r) then skip else if leb limit (count + 1) then count + 1 else rest

pub count_reindex_candidates : Query → ℕ → List Row → ℕ
unfolding count_from
count_reindex_candidates q max_job_events rows = count_from q (max 1 max_job_events) 0 rows

-- The listing loop: `offset` counts down what is still skipped, `room` what may still be added.
pub list_from : Query → ℕ → ℕ → List Row → List Row
list_from q offset room [] = []
list_from q offset room (r ∷ rs) =
    let pass = list_from q offset room rs in
    let skipped = list_from q (offset - 1) room rs in
    let added = list_from q 0 (room - 1) rs in
    if not (is_candidate q r)
    then pass
    else if ltb 0 offset
    then skipped
    else if leb room 1
    then r ∷ []
    else r ∷ added

pub list_reindex_candidates : Query → ℕ → ℕ → List Row → List Row
unfolding list_from
list_reindex_candidates q offset limit rows = list_from q offset (max 1 limit) rows

count_from_lem :
    (q : Query) (limit count : ℕ) (rows : List Row)
    → count < limit
    → count_from q limit count rows ≡ min limit (count + length (filter (is_candidate q) rows))
unfolding count_from
count_from_lem q limit count [] h = omega arith
count_from_lem q limit count (r ∷ rs) h = elim (Bool-cases (is_candidate q r)) [
  | inr no_candidate ↦ rw no_candidate (ground (arith, count_from_lem q limit count rs h))
  | inl candidate ↦ elim (Bool-cases (leb limit (count + 1))) [
    | inl full ↦ rw (candidate, full) (ground arith)
    | inr room ↦
        rw (candidate, room) (count_from_lem q limit (count + 1) rs (ground arith) ∙ ground arith)
  ]
]

list_from_lem :
    (q : Query) (offset room : ℕ) (rows : List Row)
    → 0 < room
    → list_from q offset room rows ≡ take room (drop offset (filter (is_candidate q) rows))
unfolding list_from
list_from_lem q zero (suc n) [] h = refl
list_from_lem q (suc k) (suc n) [] h = refl
list_from_lem q zero zero rows h = absurd (omega arith)
list_from_lem q (suc k) zero rows h = absurd (omega arith)
list_from_lem q zero (suc zero) (r ∷ rs) h = elim (Bool-cases (is_candidate q r)) [
  | inr no_candidate ↦ rw no_candidate (list_from_lem q zero (suc zero) rs h)
  | inl candidate ↦ rw candidate refl
]
list_from_lem q zero (suc (suc n)) (r ∷ rs) h = elim (Bool-cases (is_candidate q r)) [
  | inr no_candidate ↦ rw no_candidate (list_from_lem q zero (suc (suc n)) rs h)
  | inl candidate ↦
      let e : suc (suc n) - 1 ≡ suc n = omega arith in
      rw (candidate, e) (ground (arith, list_from_lem q zero (suc n) rs (omega arith)))
]
list_from_lem q (suc k) (suc n) (r ∷ rs) h = elim (Bool-cases (is_candidate q r)) [
  | inr no_candidate ↦ rw no_candidate (list_from_lem q (suc k) (suc n) rs h)
  | inl candidate ↦
      let e : suc k - 1 ≡ k = omega arith in
      rw (candidate, e) (ground (arith, list_from_lem q k (suc n) rs h))
]

-- The listing is a window of the candidates, and the count is their number, within the limits.
pub list_reindex_candidates_window :
    (q : Query) (offset limit : ℕ) (rows : List Row)
    → (list_reindex_candidates q offset limit rows
        ≡ take (max 1 limit) (drop offset (filter (is_candidate q) rows)))
      × (count_reindex_candidates q limit rows
          ≡ min (max 1 limit) (length (filter (is_candidate q) rows)))
unfolding list_reindex_candidates count_reindex_candidates
list_reindex_candidates_window q offset limit rows = (
  list_from_lem q offset (max 1 limit) rows (omega arith),
  count_from_lem q (max 1 limit) 0 rows (omega arith) ∙ ground arith,
)

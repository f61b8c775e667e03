-- ===== src/Blobs.antt =====
-- The tables `blobs` and `blob_references` and the methods of `class Store` in
-- mneme_service/storage.py that write them. Each method is one transaction, so it is a function
-- on the tables. Identifiers are numbers; columns that no query reads are left out.
pub mod Counts
pub mod Methods
pub mod Collect
pub mod History
mod Tests
use mneme_universal_context.Prelude.{
  ℕ, zero, suc, ◌+◌, ◌-◌, ◌*◌, ◌/◌, ◌≤◌, ◌<◌, max, min, ◌≡◌, ◌≢◌, ◌⊎◌, inl, inr, refl, sym, ap, ◌∙◌,
  Bool, true, false, not, ◌&&◌, ◌||◌, Option, none, some, List, [], ◌∷◌, ◌++◌, map, reverse, arith,
  ltb, leb, ◌==◌, if◌then◌else◌, Bool-cases, Option-cases, length, get_elem?, take, drop, filter,
  any, All, last_n, length-append, length-take, length-drop, contains, count, add_new, IsDistinct,
}

pub record Blob : Type 0 where
  pub blob_id : ℕ
  pub session_id : ℕ
  pub project_isolation_key : ℕ
  pub ref_count : ℕ

pub record Reference : Type 0 where
  pub blob_id : ℕ
  pub session_id : ℕ
  pub event_id : ℕ

pub record Tables : Type 0 where
  pub blobs : List Blob
  pub blob_references : List Reference

-- The row with a primary key.
abbrev pub find_blob : ℕ → List Blob → Option Blob
find_blob k [] = none
find_blob k (b ∷ bs) = if b.blob_id == k then some b else find_blob k bs

abbrev pub is_reference : ℕ → ℕ → ℕ → Reference → Bool
is_reference blob session event r =
    r.blob_id == blob && r.session_id == session && r.event_id == event

-- `UPDATE blobs SET ref_count = f(ref_count) WHERE blob_id = k`
abbrev pub update_ref_count : ℕ → (ℕ → ℕ) → List Blob → List Blob
update_ref_count k f [] = []
update_ref_count k f (b ∷ bs) =
    (if b.blob_id == k then record b { ref_count = f b.ref_count } else b) ∷ update_ref_count k f bs

-- `INSERT INTO blobs`; the identifier is fresh, and a new blob has no reference.
unfoldable pub put_blob : ℕ → ℕ → ℕ → Tables → Tables
put_blob blob session project t = record t {
  blobs =
      t.blobs
      ++ record {
        blob_id = blob;
        session_id = session;
        project_isolation_key = project;
        ref_count = 0;
      }
        ∷ [];
}

-- `INSERT OR IGNORE` ignores a reference that is there; then nothing is counted.
unfoldable pub attach_blob_reference : ℕ → ℕ → ℕ → Tables → Tables × Bool
attach_blob_reference blob session event t =
    if any (is_reference blob session event) t.blob_references then (t, false) else (
      record {
        blobs = update_ref_count blob (λ n. n + 1) t.blobs;
        blob_references =
            t.blob_references
            ++ record { blob_id = blob; session_id = session; event_id = event } ∷ [];
      },
      true,
    )

-- `MAX(ref_count - 1, 0)` is the subtraction of ℕ.
pub detach_blob_reference : ℕ → ℕ → ℕ → Tables → Tables × Bool
detach_blob_reference blob session event t =
    if any (is_reference blob session event) t.blob_references
    then (
      record {
        blobs = update_ref_count blob (λ n. n - 1) t.blobs;
        blob_references = filter (λ r. not (is_reference blob session event r)) t.blob_references;
      },
      true,
    )
    else (t, false)

abbrev pub without_blob : ℕ → List Blob → List Blob
without_blob k = filter (λ (b : Blob). not (b.blob_id == k))

pub delete_blob : ℕ → Tables → Tables × Bool
delete_blob blob t = elim (find_blob blob t.blobs) [
  | none ↦ (t, false)
  | some b ↦
      if ltb 0 b.ref_count
      then (t, false)
      else (record t { blobs = without_blob blob t.blobs }, true)
]

-- An optional filter of a query, `column = ?`.
abbrev pub matches : Option ℕ → ℕ → Bool
matches none v = true
matches (some k) v = v == k

abbrev pub is_candidate : Option ℕ → Option ℕ → Blob → Bool
is_candidate project session b =
    b.ref_count == 0 && matches project b.project_isolation_key && matches session b.session_id

abbrev pub ids_of : List Blob → List ℕ
ids_of [] = []
ids_of (b ∷ bs) = b.blob_id ∷ ids_of bs

pub record Collected : Type 0 where
  pub candidate_count : ℕ
  pub deleted_count : ℕ

-- The deletions go by the identifiers of the candidates.
pub garbage_collect_blobs : Option ℕ → Option ℕ → Bool → Tables → Tables × Collected
garbage_collect_blobs project session dry_run t =
    let candidates = ids_of (filter (is_candidate project session) t.blobs) in
    let kept = filter (λ (b : Blob). not (contains b.blob_id candidates)) t.blobs in
    if length candidates == 0 || dry_run
    then (t, record { candidate_count = length candidates; deleted_count = 0 })
    else (
      record {
        blobs = kept;
        blob_references =
            filter (λ (r : Reference). not (contains r.blob_id candidates)) t.blob_references;
      },
      record { candidate_count = length candidates; deleted_count = length t.blobs - length kept },
    )

-- The part of `delete_session` that deletes from these two tables.
unfoldable pub delete_session_blobs : ℕ → Tables → Tables
delete_session_blobs session t = record {
  blobs = filter (λ (b : Blob). not (b.session_id == session)) t.blobs;
  blob_references = filter (λ (r : Reference). not (r.session_id == session)) t.blob_references;
}

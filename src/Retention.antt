-- ===== src/Retention.antt =====
-- The retention of a session's events: `cleanup_retention` of mneme_service/storage.py over the
-- tables that it reads and writes. Time stamps are numbers, in the order of their texts; columns
-- that the method does not read are left out. It is one transaction, so a function on the tables.
pub mod Counted
pub mod Exact
pub mod Referring
pub mod Forget
pub mod Forgotten
mod Tests
use mneme_universal_context.Prelude.{
  ℕ, zero, suc, ◌+◌, ◌-◌, ◌*◌, ◌/◌, ◌≤◌, ◌<◌, max, min, ◌≡◌, ◌≢◌, ◌↔◌, ◌⊎◌, inl, inr, refl, sym, ap,
  ◌∙◌, Bool, true, false, not, ◌&&◌, ◌||◌, Option, none, some, List, [], ◌∷◌, ◌++◌, map, reverse,
  arith, ltb, leb, ◌==◌, if◌then◌else◌, Bool-cases, Option-cases, length, get_elem?, take, drop,
  filter, any, All, last_n, length-append, length-take, length-drop, contains, count, keys, add_new,
  IsDistinct,
}
use mneme_universal_context.Prelude.Text.{Text, is_in}
use mneme_universal_context.Blobs.{Blob, Reference, Tables, update_ref_count}

pub record Event : Type 0 where
  pub event_id : ℕ
  pub session_id : ℕ
  pub timestamp : ℕ
  pub is_memory_read : Bool

pub record Embedding : Type 0 where
  pub event_id : ℕ
  pub session_id : ℕ

pub record Edge : Type 0 where
  pub source_event_id : ℕ
  pub target_event_id : ℕ
  pub session_id : ℕ

pub record Trace : Type 0 where
  pub trace_id : ℕ
  pub session_id : ℕ
  -- the column `data`
  pub json : Text

pub record HistoryRow : Type 0 where
  pub session_id : ℕ
  pub timestamp : ℕ

pub record Store : Type 0 where
  pub events : List Event
  pub embedding_index : List Embedding
  pub event_graph_edges : List Edge
  pub traces : List Trace
  pub state_history : List HistoryRow
  pub tables : Tables

pub record Candidates : Type 0 where
  pub events : ℕ
  pub derived_records : ℕ
  pub blobs : ℕ

pub record Deleted : Type 0 where
  pub events : ℕ
  pub derived_records : ℕ
  pub traces : ℕ
  pub state_history : ℕ
  pub graph_edges : ℕ
  pub blobs : ℕ

pub record Cleanup : Type 0 where
  pub candidate_counts : Candidates
  pub deleted_counts : Deleted

abbrev pub no_candidates : Candidates
no_candidates = record { events = 0; derived_records = 0; blobs = 0 }

abbrev pub none_deleted : Deleted
none_deleted = record {
  events = 0;
  derived_records = 0;
  traces = 0;
  state_history = 0;
  graph_edges = 0;
  blobs = 0;
}

-- `DELETE FROM … WHERE p`, and how many rows it deletes.
abbrev pub delete_where {ℓ} : {A : Type ℓ} → (A → Bool) → List A → List A
delete_where p = filter (λ x. not (p x))

abbrev pub count_where {ℓ} : {A : Type ℓ} → (A → Bool) → List A → ℕ
count_where p xs = length (filter p xs)

abbrev pub is_expired : ℕ → ℕ → Event → Bool
is_expired session cutoff e =
    e.session_id == session && not e.is_memory_read && ltb e.timestamp cutoff

-- `text_of` is the text of an identifier.
abbrev pub mentions_any : (ℕ → Text) → List ℕ → Trace → Bool
mentions_any text_of [] t = false
mentions_any text_of (k ∷ ks) t = is_in (text_of k) t.json || mentions_any text_of ks t

-- A round of the loop that fills `blob_ref_counts`, and the loop.
abbrev pub count_one : ℕ → List (ℕ × ℕ) → List (ℕ × ℕ)
count_one k [] = (k, 1) ∷ []
count_one k ((j, n) ∷ cs) = if j == k then (j, n + 1) ∷ cs else (j, n) ∷ count_one k cs

abbrev pub count_all : List ℕ → List (ℕ × ℕ) → List (ℕ × ℕ)
count_all [] cs = cs
count_all (k ∷ ks) cs = count_all ks (count_one k cs)

-- `UPDATE blobs SET ref_count = MAX(ref_count - ?, 0)`, for each count.
abbrev pub subtract_counts : List (ℕ × ℕ) → List Blob → List Blob
subtract_counts [] bs = bs
subtract_counts ((k, n) ∷ cs) bs = subtract_counts cs (update_ref_count k (λ c. c - n) bs)

abbrev pub is_embedded : List ℕ → Embedding → Bool
is_embedded ids e = contains e.event_id ids

abbrev pub is_edge : ℕ → List ℕ → Edge → Bool
is_edge session ids e =
    e.session_id == session && (contains e.source_event_id ids || contains e.target_event_id ids)

abbrev pub is_trace : (ℕ → Text) → ℕ → List ℕ → Trace → Bool
is_trace text_of session ids t = t.session_id == session && mentions_any text_of ids t

abbrev pub is_old : ℕ → ℕ → HistoryRow → Bool
is_old session cutoff r = r.session_id == session && ltb r.timestamp cutoff

abbrev pub is_referring : ℕ → List ℕ → Reference → Bool
is_referring session ids r = r.session_id == session && contains r.event_id ids

abbrev pub is_event : ℕ → List ℕ → Event → Bool
is_event session ids e = e.session_id == session && contains e.event_id ids

abbrev pub expired_ids : ℕ → ℕ → Store → List ℕ
expired_ids session cutoff s =
    keys (λ (e : Event). e.event_id) (filter (is_expired session cutoff) s.events)

abbrev pub ref_counts : ℕ → List ℕ → Tables → List (ℕ × ℕ)
ref_counts session ids t =
    count_all
      (keys (λ (r : Reference). r.blob_id) (filter (is_referring session ids) t.blob_references)) []

abbrev pub candidates : (ℕ → Text) → ℕ → ℕ → List ℕ → Store → Candidates
candidates text_of session cutoff ids s = record {
  events = length ids;
  derived_records =
      count_where (is_embedded ids) s.embedding_index
      + count_where (is_edge session ids) s.event_graph_edges
      + length (keys (λ (t : Trace). t.trace_id) (filter (is_trace text_of session ids) s.traces))
      + count_where (is_old session cutoff) s.state_history;
  blobs = length (ref_counts session ids s.tables);
}

-- The deletions; a trace goes by its identifier, and without one to delete the statement is left
-- out.
unfoldable pub delete_expired : (ℕ → Text) → ℕ → ℕ → List ℕ → Store → Store × Deleted
delete_expired text_of session cutoff ids s =
    let found = keys (λ (t : Trace). t.trace_id) (filter (is_trace text_of session ids) s.traces) in
    let embeddings = count_where (is_embedded ids) s.embedding_index in
    let edges = count_where (is_edge session ids) s.event_graph_edges in
    let traces = count_where (λ (t : Trace). contains t.trace_id found) s.traces in
    let history = count_where (is_old session cutoff) s.state_history in
    (
      record {
        events = delete_where (is_event session ids) s.events;
        embedding_index = delete_where (is_embedded ids) s.embedding_index;
        event_graph_edges = delete_where (is_edge session ids) s.event_graph_edges;
        traces = delete_where (λ (t : Trace). contains t.trace_id found) s.traces;
        state_history = delete_where (is_old session cutoff) s.state_history;
        tables = record {
          blobs = subtract_counts (ref_counts session ids s.tables) s.tables.blobs;
          blob_references = delete_where (is_referring session ids) s.tables.blob_references;
        };
      },
      record {
        events = count_where (is_event session ids) s.events;
        derived_records = embeddings + edges + traces + history;
        traces = traces;
        state_history = history;
        graph_edges = edges;
        blobs = 0;
      },
    )

unfoldable pub cleanup_retention : (ℕ → Text) → ℕ → ℕ → Bool → Store → Store × Cleanup
unfolding delete_expired
cleanup_retention text_of session cutoff dry_run s =
    let ids = expired_ids session cutoff s in
    let found = candidates text_of session cutoff ids s in
    let (s', deleted) = delete_expired text_of session cutoff ids s in
    if length ids == 0
    then (s, record { candidate_counts = no_candidates; deleted_counts = none_deleted })
    else if dry_run
    then (s, record { candidate_counts = found; deleted_counts = none_deleted })
    else (s', record { candidate_counts = found; deleted_counts = deleted })

-- ===== src/Retention/Forget.antt =====
-- The deletion of a session: `delete_session` of mneme_service/storage.py, with
-- `forensic_anchor_from_audit_row` and `salted_hash`. Of the other tables
-- of the loop a row is its session and what else it has. The table `reindex_jobs` has a column for
-- the session too, and is not in the loop.
use mneme_universal_context.Prelude.{
  ℕ, Bool, true, false, ◌||◌, Option, none, some, List, [], ◌∷◌, ◌++◌, ◌==◌, if◌then◌else◌, length,
  filter, contains,
}
use mneme_universal_context.Blobs.{Tables, delete_session_blobs}
use mneme_universal_context.Lineage
use mneme_universal_context.Retention.{delete_where}

pub record Row : Type 0 where
  pub session_id : ℕ
  pub content : ℕ

-- The actions of FORENSIC_AUDIT_ACTIONS, and the others.
pub data Action : Type 0 where
  memory_read session_export session_delete auth_failure retention_cleanup
        maintenance_system_sweep :
      Action
  other_action : ℕ → Action

abbrev pub is_forensic : Action → Bool
is_forensic (other_action n) = false
is_forensic _ = true

-- An anchor has the class of a principal only.
pub data AuditPrincipal : Type 0 where
  whole : ℕ → ℕ → List ℕ → AuditPrincipal
  class : ℕ → Bool → AuditPrincipal

pub record AnchorResult : Type 0 where
  pub session_hash : Option ℕ
  pub project_hash : Option ℕ
  pub event_id_hashes : List ℕ
  pub trace_id_hash : Option ℕ
  pub event_count : ℕ

pub data AuditResult : Type 0 where
  told : ℕ → AuditResult
  forensic_anchor : AnchorResult → AuditResult

-- `request` is `none` for an empty object, and `project_isolation_key` and `trace_id` for NULL.
pub record AuditRow : Type 0 where
  pub audit_id : ℕ
  pub session_id : ℕ
  pub project_isolation_key : Option ℕ
  pub action : Action
  pub tool : ℕ
  pub event_ids : List ℕ
  pub trace_id : Option ℕ
  pub principal : AuditPrincipal
  pub request : Option ℕ
  pub result : AuditResult
  pub created_at_ms : ℕ

-- SHA-256 of the salt and the text; the salt drawn for a row; and the names "deleted-session:…"
-- and "deleted-project:…".
pub record Hashing : Type 0 where
  pub sha256 : ℕ → ℕ → ℕ
  pub token_hex : AuditRow → ℕ
  pub deleted_session : Option ℕ → ℕ
  pub deleted_project : ℕ → ℕ

unfoldable pub salted_hash : Hashing → Option ℕ → ℕ → Option ℕ
salted_hash h none salt = none
salted_hash h (some value) salt = if value == 0 then none else some (h.sha256 salt value)

abbrev pub hashes : Hashing → List ℕ → ℕ → List ℕ
hashes h [] salt = []
hashes h (k ∷ ks) salt = if k == 0 then hashes h ks salt else h.sha256 salt k ∷ hashes h ks salt

abbrev pub deleted_key : Hashing → Option ℕ → Option ℕ
deleted_key h none = none
deleted_key h (some hash) = some (h.deleted_project hash)

abbrev pub class_of : AuditPrincipal → AuditPrincipal
class_of (whole name role scopes) = class role (contains 1 scopes)
class_of (class role all_projects) = class role false

unfoldable pub forensic_anchor_from_audit_row : Hashing → AuditRow → AuditRow
unfolding salted_hash
forensic_anchor_from_audit_row h row =
    let salt = h.token_hex row in
    let session_hash = salted_hash h (some row.session_id) salt in
    let project_hash = salted_hash h row.project_isolation_key salt in
    record {
      audit_id = row.audit_id;
      session_id = h.deleted_session session_hash;
      project_isolation_key = deleted_key h project_hash;
      action = row.action;
      tool = row.tool;
      event_ids = [];
      trace_id = none;
      principal = class_of row.principal;
      request = none;
      result = forensic_anchor (record {
        session_hash = session_hash;
        project_hash = project_hash;
        event_id_hashes = hashes h row.event_ids salt;
        trace_id_hash = salted_hash h row.trace_id salt;
        event_count = length row.event_ids;
      });
      created_at_ms = row.created_at_ms;
    }

-- The tables of the loop other than `audit_records` and `sessions`.
pub record SessionTables : Type 0 where
  pub events : List Row
  pub turns : List Row
  pub traces : List Row
  pub segments : List Row
  pub event_graph_edges : List Row
  pub embedding_index : List Row
  pub embedding_metrics : List Row
  pub reranker_metrics : List Row
  pub enrichment_metrics : List Row
  pub execution_state : List Row
  pub state_history : List Row
  pub session_context_fill : List Row

-- A job is of no session where its scope is another.
pub record JobRow : Type 0 where
  pub job_id : ℕ
  pub session_id : Option ℕ

pub record Store : Type 0 where
  pub sessions : List ℕ
  pub audit_records : List AuditRow
  pub blob_tables : Tables
  pub tables : SessionTables
  pub reindex_jobs : List JobRow
  pub session_lineage : List Lineage.Edge

abbrev pub is_about : ℕ → AuditRow → Bool
is_about session row = row.session_id == session

abbrev pub anchors : Hashing → List AuditRow → List AuditRow
anchors h [] = []
anchors h (row ∷ rows) =
    let rest = anchors h rows in
    if is_forensic row.action then forensic_anchor_from_audit_row h row ∷ rest else rest

abbrev pub is_of : ℕ → Row → Bool
is_of session r = r.session_id == session

abbrev pub delete_rows : ℕ → SessionTables → SessionTables
delete_rows session ts = record {
  events = delete_where (is_of session) ts.events;
  turns = delete_where (is_of session) ts.turns;
  traces = delete_where (is_of session) ts.traces;
  segments = delete_where (is_of session) ts.segments;
  event_graph_edges = delete_where (is_of session) ts.event_graph_edges;
  embedding_index = delete_where (is_of session) ts.embedding_index;
  embedding_metrics = delete_where (is_of session) ts.embedding_metrics;
  reranker_metrics = delete_where (is_of session) ts.reranker_metrics;
  enrichment_metrics = delete_where (is_of session) ts.enrichment_metrics;
  execution_state = delete_where (is_of session) ts.execution_state;
  state_history = delete_where (is_of session) ts.state_history;
  session_context_fill = delete_where (is_of session) ts.session_context_fill;
}

abbrev pub is_lineage : ℕ → Lineage.Edge → Bool
is_lineage session e = e.old_session_id == session || e.new_session_id == session

unfoldable pub delete_session : Hashing → ℕ → Store → Store × Bool
unfolding forensic_anchor_from_audit_row
delete_session h session s = (
  record {
    sessions = delete_where (λ k. k == session) s.sessions;
    audit_records =
        delete_where (is_about session) s.audit_records
        ++ anchors h (filter (is_about session) s.audit_records);
    blob_tables = delete_session_blobs session s.blob_tables;
    tables = delete_rows session s.tables;
    reindex_jobs = s.reindex_jobs;
    session_lineage = delete_where (is_lineage session) s.session_lineage;
  },
  contains session s.sessions,
)

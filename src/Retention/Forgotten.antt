-- ===== src/Retention/Forgotten.antt =====
-- What is left of a session after `delete_session`.
use mneme_universal_context.Prelude.{
  ℕ, some, map, not, length, ◌≡◌, ◌≢◌, inl, inr, refl, Bool, false, Option, none, List, [], ◌∷◌,
  ◌++◌, arith, ◌==◌, Bool-cases, filter, All, contains,
}
use mathlib.Core.List.{append-nil}
use mneme_universal_context.Prelude.{All-append}
use mneme_universal_context.Blobs.{Blob, Reference, delete_session_blobs}
use mneme_universal_context.Retention.{delete_where}
use mneme_universal_context.Retention.Forget.{
  Row, SessionTables, AnchorResult, forensic_anchor, salted_hash, deleted_key, hashes, is_forensic,
  AuditPrincipal, whole, class, class_of, AuditRow, Hashing, forensic_anchor_from_audit_row, Store,
  is_about, anchors, is_of, delete_rows, is_lineage, delete_session,
}

all_deleted {ℓ} :
    {A : Type ℓ} (p : A → Bool) (xs : List A) → All (λ x. p x ≡ false) (delete_where p xs)
all_deleted p [] = tt
all_deleted p (x ∷ xs) = elim (Bool-cases (p x)) [
  | inl e ↦ rw e (all_deleted p xs)
  | inr e ↦ rw e (e, all_deleted p xs)
]

delete_nothing {ℓ} :
    {A : Type ℓ} (p : A → Bool) (xs : List A) → All (λ x. p x ≡ false) xs → delete_where p xs ≡ xs
delete_nothing p [] h = refl
delete_nothing p (x ∷ xs) h = rw (h.0, delete_nothing p xs h.1) refl

find_nothing {ℓ} :
    {A : Type ℓ} (p : A → Bool) (xs : List A) → All (λ x. p x ≡ false) xs → filter p xs ≡ []
find_nothing p [] h = refl
find_nothing p (x ∷ xs) h = rw (h.0, find_nothing p xs h.1) refl

-- The tables that `delete_rows` deletes from.
abbrev pub tables_of : SessionTables → List (List Row)
tables_of ts =
    ts.events ∷ ts.turns ∷ ts.traces ∷ ts.segments ∷ ts.event_graph_edges ∷ ts.embedding_index
    ∷ ts.embedding_metrics ∷ ts.reranker_metrics ∷ ts.enrichment_metrics ∷ ts.execution_state
    ∷ ts.state_history ∷ ts.session_context_fill ∷ []

-- No row is of the session, but in `reindex_jobs`.
pub record IsForgotten (session : ℕ) (s : Store) : Type 0 where
  pub sessions : All (λ k. (k == session) ≡ false) s.sessions
  pub audit_records : All (λ row. is_about session row ≡ false) s.audit_records
  pub blobs : All (λ (b : Blob). (b.session_id == session) ≡ false) s.blob_tables.blobs
  pub references :
      All (λ (r : Reference). (r.session_id == session) ≡ false) s.blob_tables.blob_references
  pub tables : All (λ t. All (λ r. is_of session r ≡ false) t) (tables_of s.tables)
  pub lineage : All (λ e. is_lineage session e ≡ false) s.session_lineage

-- Not the empty text.
abbrev pub is_given : ℕ → Bool
is_given k = not (k == 0)

-- What an anchor tells of a record: hashes under one salt, and the number of its events.
abbrev pub told_of : Hashing → AuditRow → AnchorResult
told_of h row =
    let salt = h.token_hex row in
    record {
      session_hash = salted_hash h (some row.session_id) salt;
      project_hash = salted_hash h row.project_isolation_key salt;
      event_id_hashes = map (h.sha256 salt) (filter is_given row.event_ids);
      trace_id_hash = salted_hash h row.trace_id salt;
      event_count = length row.event_ids;
    }

-- What is known of an audited request after its session is deleted.
pub record IsAnchorOf (h : Hashing) (row anchor : AuditRow) : Type 0 where
  pub session_id : anchor.session_id ≡ h.deleted_session (told_of h row).session_hash
  pub project_isolation_key :
      anchor.project_isolation_key ≡ deleted_key h (told_of h row).project_hash
  pub result : anchor.result ≡ forensic_anchor (told_of h row)
  pub audit_id : anchor.audit_id ≡ row.audit_id
  pub action : anchor.action ≡ row.action
  pub tool : anchor.tool ≡ row.tool
  pub created_at_ms : anchor.created_at_ms ≡ row.created_at_ms
  pub event_ids : anchor.event_ids ≡ []
  pub trace_id : anchor.trace_id ≡ none
  pub request : anchor.request ≡ none
  pub principal :
      (role : ℕ) × ((all_projects : Bool) × (anchor.principal ≡ class role all_projects))

-- One anchor for each row, in their order.
abbrev pub AreAnchors : Hashing → List AuditRow → List AuditRow → Type 0
AreAnchors h [] [] = Unit
AreAnchors h [] (a ∷ rest) = ⊥
AreAnchors h (r ∷ rows) [] = ⊥
AreAnchors h (r ∷ rows) (a ∷ rest) = IsAnchorOf h r a × AreAnchors h rows rest

class_of_class :
    (p : AuditPrincipal)
    → (role : ℕ) × ((all_projects : Bool) × (class_of p ≡ class role all_projects))
class_of_class (whole name role scopes) = (role, (contains 1 scopes, refl))
class_of_class (class role all_projects) = (role, (false, refl))

hashes-eq :
    (h : Hashing) (salt : ℕ) (ks : List ℕ)
    → hashes h ks salt ≡ map (h.sha256 salt) (filter is_given ks)
hashes-eq h salt [] = refl
hashes-eq h salt (k ∷ ks) = elim (Bool-cases (k == 0)) [
  | inl e ↦ rw e (hashes-eq h salt ks)
  | inr e ↦ rw (e, hashes-eq h salt ks) refl
]

anchor-IsAnchorOf :
    (h : Hashing) (row : AuditRow) → IsAnchorOf h row (forensic_anchor_from_audit_row h row)
unfolding forensic_anchor_from_audit_row
anchor-IsAnchorOf h row = record {
  session_id = refl;
  project_isolation_key = refl;
  result = rw (hashes-eq h (h.token_hex row) row.event_ids) refl;
  audit_id = refl;
  action = refl;
  tool = refl;
  created_at_ms = refl;
  event_ids = refl;
  trace_id = refl;
  request = refl;
  principal = class_of_class row.principal;
}

anchors-AreAnchors :
    (h : Hashing) (rows : List AuditRow)
    → AreAnchors h (filter (λ row. is_forensic row.action) rows) (anchors h rows)
anchors-AreAnchors h [] = tt
anchors-AreAnchors h (row ∷ rows) = elim (Bool-cases (is_forensic row.action)) [
  | inl e ↦ rw e (anchor-IsAnchorOf h row, anchors-AreAnchors h rows)
  | inr e ↦ rw e (anchors-AreAnchors h rows)
]

different : (j k : ℕ) → j ≢ k → (j == k) ≡ false
different j k h = ground (arith, h)

anchors_renamed :
    (h : Hashing) (session : ℕ) (rows : List AuditRow)
    → ((hash : Option ℕ) → h.deleted_session hash ≢ session)
    → All (λ row. is_about session row ≡ false) (anchors h rows)
unfolding forensic_anchor_from_audit_row
anchors_renamed h session [] other = tt
anchors_renamed h session (row ∷ rows) other = elim (Bool-cases (is_forensic row.action)) [
  | inl e ↦ rw e (different _ session (other _), anchors_renamed h session rows other)
  | inr e ↦ rw e (anchors_renamed h session rows other)
]

each_deleted :
    (session : ℕ) (ts : List (List Row))
    → All (λ t. All (λ r. is_of session r ≡ false) t) (map (delete_where (is_of session)) ts)
each_deleted session [] = tt
each_deleted session (t ∷ ts) = (all_deleted (is_of session) t, each_deleted session ts)

all_rows_deleted :
    (session : ℕ) (ts : SessionTables)
    → All (λ t. All (λ r. is_of session r ≡ false) t) (tables_of (delete_rows session ts))
all_rows_deleted session ts = each_deleted session (tables_of ts)

delete_no_rows :
    (session : ℕ) (ts : SessionTables)
    → All (λ t. All (λ r. is_of session r ≡ false) t) (tables_of ts)
    → delete_rows session ts ≡ ts
delete_no_rows session ts h =
    rw
      (
        delete_nothing (is_of session) ts.events h.0,
        delete_nothing (is_of session) ts.turns h.1.0,
        delete_nothing (is_of session) ts.traces h.1.1.0,
        delete_nothing (is_of session) ts.segments h.1.1.1.0,
        delete_nothing (is_of session) ts.event_graph_edges h.1.1.1.1.0,
        delete_nothing (is_of session) ts.embedding_index h.1.1.1.1.1.0,
        delete_nothing (is_of session) ts.embedding_metrics h.1.1.1.1.1.1.0,
        delete_nothing (is_of session) ts.reranker_metrics h.1.1.1.1.1.1.1.0,
        delete_nothing (is_of session) ts.enrichment_metrics h.1.1.1.1.1.1.1.1.0,
        delete_nothing (is_of session) ts.execution_state h.1.1.1.1.1.1.1.1.1.0,
        delete_nothing (is_of session) ts.state_history h.1.1.1.1.1.1.1.1.1.1.0,
        delete_nothing (is_of session) ts.session_context_fill h.1.1.1.1.1.1.1.1.1.1.1.0,
      )
      refl

absent : (k : ℕ) (ks : List ℕ) → All (λ j. (j == k) ≡ false) ks → contains k ks ≡ false
absent k [] h = refl
absent k (j ∷ ks) h =
    let flipped : (k == j) ≡ false = ground (arith, h.0) in rw (flipped, absent k ks h.1) refl

delete_session-IsForgotten :
    (h : Hashing) (session : ℕ) (s : Store)
    → ((hash : Option ℕ) → h.deleted_session hash ≢ session)
    → IsForgotten session (delete_session h session s).0
unfolding delete_session delete_session_blobs
delete_session-IsForgotten h session s other = record {
  sessions = all_deleted _ s.sessions;
  audit_records =
      All-append _ (delete_where (is_about session) s.audit_records) _
        (all_deleted (is_about session) s.audit_records)
        (anchors_renamed h session (filter (is_about session) s.audit_records) other);
  blobs = all_deleted (λ (b : Blob). b.session_id == session) s.blob_tables.blobs;
  references =
      all_deleted (λ (r : Reference). r.session_id == session) s.blob_tables.blob_references;
  tables = all_rows_deleted session s.tables;
  lineage = all_deleted (is_lineage session) s.session_lineage;
}

forgotten_stays :
    (h : Hashing) (session : ℕ) (s : Store)
    → IsForgotten session s
    → delete_session h session s ≡ (s, false)
unfolding delete_session delete_session_blobs
forgotten_stays h session s f =
    rw
      (
        delete_nothing _ s.sessions f.sessions,
        delete_nothing _ s.audit_records f.audit_records,
        find_nothing (is_about session) s.audit_records f.audit_records,
        append-nil s.audit_records,
        delete_nothing _ s.blob_tables.blobs f.blobs,
        delete_nothing _ s.blob_tables.blob_references f.references,
        delete_no_rows session s.tables f.tables,
        delete_nothing _ s.session_lineage f.lineage,
        absent session s.sessions f.sessions,
      )
      refl

-- Where no name of a deleted session is the session's, its deletion leaves no row of the session
-- in the tables that it deletes from, all those with a session but `reindex_jobs`, whose rows all
-- stay. The audit records are those of other sessions and then one anchor for each of the
-- session's records of a forensic action, in their order: with its identifier, action, tool and
-- time, with its session, project, trace and events as hashes only, the number of its events, and
-- the class of its principal, and without its request and events. A second deletion finds no
-- session and changes nothing.
pub delete_session_forgets :
    (h : Hashing) (session : ℕ) (s : Store)
    → ((hash : Option ℕ) → h.deleted_session hash ≢ session)
    → let s' = (delete_session h session s).0 in
      IsForgotten session s'
      × ((added : List AuditRow) × (s'.audit_records
            ≡ delete_where (is_about session) s.audit_records ++ added)
          × AreAnchors h
              (filter (λ row. is_forensic row.action) (filter (is_about session) s.audit_records))
              added)
      × (s'.reindex_jobs ≡ s.reindex_jobs)
      × (delete_session h session s' ≡ (s', false))
delete_session_forgets h session s other =
    let f = delete_session-IsForgotten h session s other in
    (
      f,
      (
        anchors h (filter (is_about session) s.audit_records),
        (unfold delete_session in refl),
        anchors-AreAnchors h (filter (is_about session) s.audit_records),
      ),
      (unfold delete_session in refl),
      forgotten_stays h session (delete_session h session s).0 f,
    )

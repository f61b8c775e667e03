-- ===== src/Lib.antt =====
-- Mneme is a service that keeps the events of agents' sessions in SQLite and packs context for
-- language models. Its code is the Python package mneme_service: app.py has the routes and the
-- packing, storage.py the tables, and smaller modules the providers, the security and the state of
-- a session. The routes authenticate a request, replay an answered one by its key, write through
-- the writers' lane of the store, fold each event into the session's state and segments, and read
-- the tables back under token budgets.
--
-- The parts, and the files that model them:
-- - Budget: the token estimate of mneme_service/utils.py and the packing of mneme_service/app.py:
--   `truncate_to_token_budget`, `protected_tail_messages`, `latest_user_message_index`,
--   `pack_retrieved_events`, `pack_events_under_token_limit`. A message is its role and its text.
-- - Blobs: the tables `blobs` and `blob_references` of mneme_service/storage.py as lists of rows,
--   with `put_blob`, `attach_blob_reference`, `detach_blob_reference`, `delete_blob`,
--   `garbage_collect_blobs` and the part of `delete_session` on them; Blobs/History has any sequence
--   of the writes to them as a step relation, those of Ingest and Retention too.
-- - Circuit: the circuit breakers of `HttpRerankerProvider` (mneme_service/reranker.py),
--   `HttpLLMEnrichmentProvider` (mneme_service/enrichment.py) and `OpenAICompatibleEmbeddingProvider`
--   (mneme_service/embeddings.py), and `ProviderHealthState` with its wrappers of
--   mneme_service/app.py. The HTTP call and what the parsers make of its answer are arguments, as
--   are the readings of the clock.
-- - Lineage: `lineage_session_ids` and `put_session_lineage` of mneme_service/storage.py. Each walk
--   has one more unit of fuel than there are rows; every round but the last sees a new session
--   that some row names, so this is enough.
-- - Access: `Principal`, `bearer_token` and `authenticate_bearer` of mneme_service/security.py, and
--   `visible_project_keys`, the idempotent replay and `parse_blob_range` of mneme_service/app.py.
-- - Concurrency: `WriterLane` of mneme_service/storage.py as a step relation on the numbers of
--   threads in each place, and `InFlightReadTracker` of mneme_service/app.py.
-- - Reindex: `count_reindex_candidates` and `list_reindex_candidates` of mneme_service/storage.py and
--   `run_reindex_job_once` of mneme_service/app.py; what a call meets (provider, clock, other
--   requests) is a record. Reindex/Circuit has the circuit of its provider, and Reindex/Jobs the
--   routes that create, read and cancel a job.
-- - Session: `apply_event_to_state` and `apply_entity_modifiers` of mneme_service/state.py, and
--   `update_segment_for_event` of mneme_service/segments.py over the segments' table; Session/Start
--   has `classify_session_start` of mneme_service/session_drift.py and the context fill's table, with
--   the guard of context prepare that marks it;
--   Session/History has the stored states and their history in mneme_service/storage.py.
-- - Ingest: `ingest_events` of mneme_service/app.py for a JSON body without an idempotency key, in a
--   store without an embeddings index: both of its loops, with `normalize_event` and
--   `validate_bytes_ref_content`. The hash of the immutable fields, the redaction of each event, the
--   classifier and the enricher are arguments, and functions: redaction is taken to answer the
--   same each time.
--   Ingest/Multipart has the writes of a multipart batch to the tables of blobs,
--   `put_blob_records_and_events`; the parse of its body is not modelled.
-- - Redaction: `redact`, `redact_with_metadata` and `is_sensitive_key` of mneme_service/security.py
--   over JSON values. The deadline is the number of its checks that pass.
-- - Repair: `_repair_truncated_json` of mneme_service/enrichment.py.
-- - Retention: `cleanup_retention` and `delete_session` of mneme_service/storage.py over the tables
--   that they read and write, with `forensic_anchor_from_audit_row`; hashes and salts are arguments.
-- - Turns: `complete_turn` of mneme_service/app.py with `put_turn` of mneme_service/storage.py. The
--   place of an event that no segment names is an argument, as are names, hashes and JSON texts.
-- - Graph: `expand_graph` of mneme_service/app.py. Its loop runs on fuel; the traversal limit times
--   one more than the branching limit, and two, is enough. Graph/Temporal has `expand_temporal`.
-- - Ranking: `reranked_results` of mneme_service/app.py.
-- - Prelude: Boolean tests, lists, identifiers and texts that the parts share.
--
-- Identifiers are numbers, 0 for the empty one; texts are lists of code points; a table is a list
-- of its rows in the order of the queries. Each method of the store is one transaction.
--
-- Not modelled: SQLite, the schema and its migrations, the HTTP routes, request schemas and error
-- bodies, time stamps that nothing compares, floating-point scores, the regular expressions of the
-- classifier and of the redaction, and the command line, the client and the MCP adapter.
pub mod Access
pub mod Blobs
pub mod Budget
pub mod Circuit
pub mod Concurrency
pub mod Graph
pub mod Ingest
pub mod Lineage
pub mod Prelude
pub mod Ranking
pub mod Redaction
pub mod Reindex
pub mod Repair
pub mod Retention
pub mod Session
pub mod Turns

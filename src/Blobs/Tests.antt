-- ===== src/Blobs/Tests.antt =====
-- Tests of the tables of blobs.
use mneme_universal_context.Prelude.{
  ℕ, inl, IsDistinct, ◌≡◌, refl, true, false, not, none, some, [], ◌∷◌, arith, length, filter, All,
}
use mneme_universal_context.Blobs.{
  Blob, Tables, put_blob, attach_blob_reference, detach_blob_reference, garbage_collect_blobs,
  ids_of, is_candidate,
}
use mneme_universal_context.Blobs.Counts.{refs_to, IsValid}
use mneme_universal_context.Blobs.Collect.{garbage_collect_blobs_exact}
use mneme_universal_context.Blobs.History.{
  History, empty, next, ingest_multipart, detach, History-IsValid,
}
use mneme_universal_context.Session.Segments.{other_intent}
use mneme_universal_context.Access.Principal.{Principal}
use mneme_universal_context.Ingest.{Services}
use mneme_universal_context.Ingest.Multipart.{EventRecord, put_blob_records_and_events}

abbrev used : Tables
used = record {
  blobs = record { blob_id = 7; session_id = 1; project_isolation_key = 3; ref_count = 1 } ∷ [];
  blob_references = record { blob_id = 7; session_id = 1; event_id = 20 } ∷ [];
}

abbrev unused : Blob
unused = record { blob_id = 8; session_id = 1; project_isolation_key = 3; ref_count = 0 }

abbrev stored : Tables
stored = record used { blobs = unused ∷ used.blobs }

abbrev services : Services
services = record {
  max_batch_events = 10;
  max_event_content_bytes = 1000;
  hash = λ i. i.timestamp;
  blob_described = λ b. record { content_hash = b; size_bytes = 1; media_type = 1 };
  extract = λ t es. [];
  classify = λ c s ss. record { intent = other_intent; tool_domain_shift_trusted = false };
  enrich = λ c s. s;
}

abbrev sender : Principal
sender = record { name = 4; role = 2; project_scopes = 3 ∷ [] }

-- An event of the session 1 that refers to the blob 7 of its batch.
abbrev referring : ℕ → EventRecord
referring n = record { event_id = n; session_id = 1; blob_ref_ids = 7 ∷ [] }

used-History : History used
unfolding put_blob attach_blob_reference detach_blob_reference put_blob_records_and_events
used-History =
    next
      (next empty (
        ingest_multipart services sender 1 3 (7 ∷ []) (referring 20 ∷ referring 21 ∷ []) _
          ((refl, refl), tt) ((refl, inl (7, refl, refl)), ((refl, inl (7, refl, refl)), tt))))
      (detach 7 1 21 _)

History-IsValid_example : IsValid used × IsDistinct (ids_of used.blobs)
History-IsValid_example = History-IsValid used-History

stored-IsValid : IsValid stored
stored-IsValid = record {
  counted = (refl, (refl, tt));
  scoped = ((λ e. absurd (ground arith), tt), ((λ e. refl, tt), tt));
  unique = (refl, tt);
}

garbage_collect_blobs_exact_example :
    let (t', c) = garbage_collect_blobs none (some 1) false stored in
    let (t'', d) = garbage_collect_blobs none (some 1) true stored in
    (t'.blob_references ≡ stored.blob_references)
    × (t'.blobs ≡ filter (λ b. not (is_candidate none (some 1) b)) stored.blobs)
    × All
        (λ b. is_candidate none (some 1) b ≡ true → refs_to b.blob_id stored.blob_references ≡ 0)
        stored.blobs
    × (c.candidate_count ≡ length (ids_of (filter (is_candidate none (some 1)) stored.blobs)))
    × (d.candidate_count ≡ c.candidate_count)
    × (t'' ≡ stored)
garbage_collect_blobs_exact_example =
    garbage_collect_blobs_exact none (some 1) stored stored-IsValid (refl, (refl, tt))

only_used_is_kept : (garbage_collect_blobs none (some 1) false stored).0 ≡ used
unfolding garbage_collect_blobs
only_used_is_kept = refl

-- ===== src/Ingest/Sound.antt =====
-- The events that the first loop of `ingest_events` prepares are new, each once, and may refer
-- to their blobs.
use mneme_universal_context.Prelude.{
  ℕ, ◌≡◌, inl, inr, refl, ap, ◌∙◌, false, none, List, [], ◌∷◌, ◌++◌, arith, ◌==◌, Bool-cases, All,
  contains, IsDistinct,
}
use mathlib.Core.Path.{subst}
use mneme_universal_context.Prelude.{IsDistinct-snoc, All-append}
use mneme_universal_context.Access.Principal.{Result, ok}
use mneme_universal_context.Ingest.{
  Immutable, CleanEvent, Content, RawEvent, Prepared, Pending, hash_in, prepare_events,
}
use mneme_universal_context.Ingest.Commit.{event_ids}
use mneme_universal_context.Ingest.Prepare.{
  keys_of, Noted, again, new, Round, refused, taken, prepare_event_lem, prepare_events-first,
}

-- An event is new to the table.
abbrev pub IsNew : List (ℕ × ℕ) → ℕ × ℕ → Type 0
IsNew stored (k, h) = hash_in k stored ≡ none

abbrev pub HasRefs : (Content → Result (List ℕ)) → Prepared → Type 0
HasRefs check p = (c : Content) × (check c ≡ ok p.blob_ref_ids)

pub record IsSound (check : Content → Result (List ℕ)) (stored : List (ℕ × ℕ)) (p : Pending)
    : Type 0 where
  pub keyed : keys_of p.prepared ≡ p.batch_hashes
  pub fresh : All (λ e. IsNew stored e) p.batch_hashes
  pub distinct : IsDistinct (event_ids p.prepared)
  pub referring : All (λ x. HasRefs check x) p.prepared

keys_of-append : (xs ys : List Prepared) → keys_of (xs ++ ys) ≡ keys_of xs ++ keys_of ys
keys_of-append [] ys = refl
keys_of-append (x ∷ xs) ys =
    ap (λ l. (x.event.event_id, x.immutable_hash) ∷ l) (keys_of-append xs ys)

event_ids-append : (xs ys : List Prepared) → event_ids (xs ++ ys) ≡ event_ids xs ++ event_ids ys
event_ids-append [] ys = refl
event_ids-append (x ∷ xs) ys = ap (λ l. x.event.event_id ∷ l) (event_ids-append xs ys)

-- An identifier that is not hashed is not among those prepared.
not_prepared :
    (k : ℕ) (ps : List Prepared) → hash_in k (keys_of ps) ≡ none → contains k (event_ids ps) ≡ false
not_prepared k [] h = refl
not_prepared k (p ∷ ps) h = elim (Bool-cases (p.event.event_id == k)) [
  | inl same ↦ cc (rw same at h)
  | inr other ↦
      let flipped : (k == p.event.event_id) ≡ false = ground arith in
      rw (flipped, not_prepared k ps (rw other at h)) refl
]

Noted-IsSound :
    (check : Content → Result (List ℕ)) (stored : List (ℕ × ℕ)) (d : Content) (c : CleanEvent)
    (h : ℕ) (refs : List ℕ) (p p' : Pending)
    → check d ≡ ok refs
    → Noted stored c h refs p p'
    → IsSound check stored p
    → IsSound check stored p'
Noted-IsSound check stored d c h refs p p' fits (again e eq) s =
    rw eq
      (record { keyed = s.keyed; fresh = s.fresh; distinct = s.distinct; referring = s.referring })
Noted-IsSound check stored d c h refs p p' fits (new not_batch not_table eq) s =
    let added : Prepared = record { event = c; immutable_hash = h; blob_ref_ids = refs } in
    rw eq (record {
      keyed = keys_of-append p.prepared (added ∷ []) ∙ ap (λ l. l ++ (c.event_id, h) ∷ []) s.keyed;
      fresh =
          All-append (λ e. IsNew stored e) p.batch_hashes ((c.event_id, h) ∷ []) s.fresh
            (not_table, tt);
      distinct = rw (event_ids-append p.prepared (added ∷ [])) (
          IsDistinct-snoc c.event_id (event_ids p.prepared)
            (not_prepared c.event_id p.prepared (rw s.keyed not_batch)) s.distinct);
      referring =
          All-append (λ x. HasRefs check x) p.prepared (added ∷ []) s.referring ((d, fits), tt);
    })

module _ (hash : Immutable → ℕ) (check : Content → Result (List ℕ)) (session : ℕ)
    (stored : List (ℕ × ℕ)) where
  Round-IsSound :
      (r : RawEvent) (p p' : Pending)
      → Round hash check session stored r p p'
      → IsSound check stored p
      → IsSound check stored p'
  Round-IsSound r p p' (refused other eq) s =
      rw eq (record {
        keyed = s.keyed;
        fresh = s.fresh;
        distinct = s.distinct;
        referring = s.referring;
      })
  Round-IsSound r p p' (taken refs c own good fits clean noted) s =
      Noted-IsSound check stored r.content c (hash c.immutable) refs p p' fits noted s

  pub prepare_events-IsSound :
      (rs : List RawEvent) (p p' : Pending)
      → prepare_events hash check session stored rs p ≡ ok p'
      → IsSound check stored p
      → IsSound check stored p'
  prepare_events-IsSound [] p p' e s =
      let same : p ≡ p' = (unfold prepare_events in cc e) in
      subst (λ x. IsSound check stored x) same s
  prepare_events-IsSound (r ∷ rs) p p' e s =
      let (p1, first, rest) = prepare_events-first hash check session stored r rs p p' e in
      prepare_events-IsSound rs p1 p' rest
        (Round-IsSound r p p1 (prepare_event_lem hash check session stored r p p1 first) s)

-- ===== src/Ingest/Again.antt =====
-- A batch that is ingested again.
use mneme_universal_context.Prelude.{
  ℕ, ◌+◌, ◌≡◌, refl, sym, ap, ◌∙◌, true, some, List, [], ◌∷◌, ◌++◌, arith, ◌==◌, length,
  length-append,
}
use mathlib.Core.List.{append_assoc, append-nil}
use mneme_universal_context.Access.Principal.{Result, ok}
use mneme_universal_context.Ingest.{
  Immutable, CleanEvent, Content, RawEvent, Prepared, Pending, hash_in, note_event, prepare_event,
  prepare_events,
}
use mneme_universal_context.Ingest.Prepare.{
  known, Noted, again, new, Noted-known, Round, refused, taken, prepare_event_lem,
  prepare_events-first, prepare_events-step, prepare_events-keeps,
}

note_event-duplicate :
    (stored : List (ℕ × ℕ)) (c : CleanEvent) (h : ℕ) (refs : List ℕ) (q : Pending)
    → q.batch_hashes ≡ []
    → hash_in c.event_id stored ≡ some h
    → note_event stored c h refs q ≡ ok (record q { duplicates = q.duplicates + 1 })
unfolding note_event
note_event-duplicate stored c h refs q empty found =
    let self : (h == h) ≡ true = ground arith in rw (empty, found, self) refl

Noted-counts :
    (stored : List (ℕ × ℕ)) (c : CleanEvent) (h : ℕ) (refs : List ℕ) (p p' : Pending)
    → Noted stored c h refs p p'
    → p'.duplicates + length p'.prepared ≡ p.duplicates + length p.prepared + 1
Noted-counts stored c h refs p p' (again e eq) = rw eq (omega arith)
Noted-counts stored c h refs p p' (new not_batch not_table eq) =
    let added : Prepared = record { event = c; immutable_hash = h; blob_ref_ids = refs } in
    rw eq (omega (arith, length-append p.prepared (added ∷ [])))

Noted-rejected :
    (stored : List (ℕ × ℕ)) (c : CleanEvent) (h : ℕ) (refs : List ℕ) (p p' : Pending)
    → Noted stored c h refs p p'
    → p'.rejected ≡ p.rejected
Noted-rejected stored c h refs p p' (again e eq) = rw eq refl
Noted-rejected stored c h refs p p' (new not_batch not_table eq) = rw eq refl

-- The rounds `q` to `q'` against a table that has all events of the rounds `p` to `p'`.
pub record IsAgain (p p' q q' : Pending) : Type 0 where
  pub same_prepared : q'.prepared ≡ q.prepared
  pub same_hashes : q'.batch_hashes ≡ []
  pub all_duplicates :
      q'.duplicates + p.duplicates + length p.prepared
      ≡ q.duplicates + p'.duplicates + length p'.prepared
  pub refusals : List ℕ
  pub refused_then : p'.rejected ≡ p.rejected ++ refusals
  pub refused_again : q'.rejected ≡ q.rejected ++ refusals

module _ (hash : Immutable → ℕ) (check : Content → Result (List ℕ)) (session : ℕ)
    (stored stored' : List (ℕ × ℕ)) where
  prepare_event-IsAgain :
      (r : RawEvent) (p p1 q : Pending)
      → q.batch_hashes ≡ []
      → ((k h : ℕ) → known k stored p1 ≡ some h → hash_in k stored' ≡ some h)
      → Round hash check session stored r p p1
      → (q1 : Pending) × (prepare_event hash check session stored' r q ≡ ok q1) × IsAgain p p1 q q1
  unfolding prepare_event
  prepare_event-IsAgain r p p1 q empty all (refused other eq) = (
    record q { rejected = q.rejected ++ r.event_id ∷ [] },
    rw other refl,
    record {
      same_prepared = refl;
      same_hashes = empty;
      all_duplicates = rw eq (omega arith);
      refusals = r.event_id ∷ [];
      refused_then = rw eq refl;
      refused_again = refl;
    },
  )
  prepare_event-IsAgain r p p1 q empty all (taken refs c own good fits clean noted) = (
    record q { duplicates = q.duplicates + 1 },
    rw (own, good, fits, clean)
        (note_event-duplicate stored' c (hash c.immutable) refs q empty (
          all c.event_id (hash c.immutable)
            (Noted-known stored c (hash c.immutable) refs p p1 noted))),
    record {
      same_prepared = refl;
      same_hashes = empty;
      all_duplicates = omega (arith, Noted-counts stored c (hash c.immutable) refs p p1 noted);
      refusals = [];
      refused_then =
          Noted-rejected stored c (hash c.immutable) refs p p1 noted ∙ sym (append-nil p.rejected);
      refused_again = sym (append-nil q.rejected);
    },
  )

  pub prepare_events-IsAgain :
      (rs : List RawEvent) (p p' q : Pending)
      → q.batch_hashes ≡ []
      → ((k h : ℕ) → known k stored p' ≡ some h → hash_in k stored' ≡ some h)
      → prepare_events hash check session stored rs p ≡ ok p'
      → (q' : Pending) × (prepare_events hash check session stored' rs q ≡ ok q')
        × IsAgain p p' q q'
  prepare_events-IsAgain [] p p' q empty all e =
      let same : p ≡ p' = (unfold prepare_events in cc e) in
      (
        q,
        (unfold prepare_events in refl),
        record {
          same_prepared = refl;
          same_hashes = empty;
          all_duplicates = rw same (omega arith);
          refusals = [];
          refused_then = rw same (sym (append-nil p'.rejected));
          refused_again = sym (append-nil q.rejected);
        },
      )
  prepare_events-IsAgain (r ∷ rs) p p' q empty all e =
      let (p1, first, rest) = prepare_events-first hash check session stored r rs p p' e in
      let (q1, first', a) =
        prepare_event-IsAgain r p p1 q empty
          (λ k h was.
            all k h (prepare_events-keeps hash check session stored rs p1 p' k h rest was))
          (prepare_event_lem hash check session stored r p p1 first) in
      let (q', rest', b) = prepare_events-IsAgain rs p1 p' q1 a.same_hashes all rest in
      (
        q',
        prepare_events-step hash check session stored' r rs q q1 q' first' rest',
        record {
          same_prepared = b.same_prepared ∙ a.same_prepared;
          same_hashes = b.same_hashes;
          all_duplicates = omega (arith, a.all_duplicates, b.all_duplicates);
          refusals = a.refusals ++ b.refusals;
          refused_then =
              b.refused_then
              ∙ ap (λ l. l ++ b.refusals) a.refused_then
              ∙ append_assoc p.rejected a.refusals b.refusals;
          refused_again =
              b.refused_again
              ∙ ap (λ l. l ++ b.refusals) a.refused_again
              ∙ append_assoc q.rejected a.refusals b.refusals;
        },
      )

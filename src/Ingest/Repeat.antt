-- ===== src/Ingest/Repeat.antt =====
-- A batch that `ingest_events` accepts may be sent again.
use mneme_universal_context.Prelude.{
  ℕ, ◌+◌, ◌≡◌, inl, inr, refl, sym, ap, ◌∙◌, false, List, [], ◌++◌, arith, ltb, Bool-cases, length,
}
use std.Path.{fun_ext}
use mneme_universal_context.Access.Principal.{Principal, Result, ok}
use mneme_universal_context.Ingest.{
  Content, RawEvent, Services, Store, Pending, hashes_of, check_content, prepare_events,
}
use mneme_universal_context.Ingest.Commit.{
  Response, respond, nothing_pending, store_events, ingest_events,
}
use mneme_universal_context.Ingest.Prepare.{keys_of, Pending-cases}
use mneme_universal_context.Ingest.Sound.{IsSound, prepare_events-IsSound}
use mneme_universal_context.Ingest.Again.{IsAgain, prepare_events-IsAgain}
use mneme_universal_context.Ingest.Written.{
  store_events-events, hashes_of-rows, known-stored, check_content-stored,
}

pub nothing_pending-IsSound :
    (check : Content → Result (List ℕ)) (stored : List (ℕ × ℕ))
    → IsSound check stored nothing_pending
nothing_pending-IsSound check stored = record {
  keyed = refl;
  fresh = tt;
  distinct = tt;
  referring = tt;
}

-- What the first loop returned, and what was then written.
pub record Ingested (sv : Services) (p : Principal) (session : ℕ) (events : List RawEvent)
    (s : Store) (r : Response) (s' : Store) : Type 0 where
  pub pending : Pending
  pub fits : ltb sv.max_batch_events (length events) ≡ false
  pub first_loop :
      prepare_events sv.hash
        (check_content sv p session s.tables)
        session
        (hashes_of s.events)
        events
        nothing_pending
      ≡ ok pending
  pub response : r ≡ respond pending
  pub store : s' ≡ store_events sv session pending.prepared s

pub ingest_events-Ingested :
    (sv : Services) (p : Principal) (session : ℕ) (events : List RawEvent) (s : Store)
    (r : Response) (s' : Store)
    → ingest_events sv p session events s ≡ ok (r, s')
    → Ingested sv p session events s r s'
unfolding ingest_events
ingest_events-Ingested sv p session events s r s' e =
    elim (Bool-cases (ltb sv.max_batch_events (length events))) [
      | inl long ↦ cc (rw long at e)
      | inr fits ↦
          elim (Pending-cases (
            prepare_events sv.hash (check_content sv p session s.tables) session
              (hashes_of s.events) events nothing_pending)) [
                | inr (f, bad) ↦ cc (rw (fits, bad) at e)
                | inl (q, good) ↦
                    let same : ok (respond q, store_events sv session q.prepared s) ≡ ok (r, s') =
                      rw (fits, good) at e in
                    record {
                      pending = q;
                      fits = fits;
                      first_loop = good;
                      response = cc same;
                      store = cc same;
                    }
              ]
    ]

-- The table of events after the second loop, with what the first loop knew of it.
hashes_after :
    (sv : Services) (session : ℕ) (q : Pending) (s : Store)
    → keys_of q.prepared ≡ q.batch_hashes
    → hashes_of (store_events sv session q.prepared s).events ≡ hashes_of s.events ++ q.batch_hashes
hashes_after sv session q s keyed =
    ap (λ es. hashes_of es) (store_events-events sv session q.prepared s)
    ∙ hashes_of-rows s.events q.prepared
    ∙ ap (λ ks. hashes_of s.events ++ ks) keyed

ingest_prepared :
    (sv : Services) (p : Principal) (session : ℕ) (events : List RawEvent) (s : Store) (q : Pending)
    → ltb sv.max_batch_events (length events) ≡ false
    → prepare_events sv.hash
        (check_content sv p session s.tables)
        session
        (hashes_of s.events)
        events
        nothing_pending
      ≡ ok q
    → ingest_events sv p session events s ≡ ok (respond q, store_events sv session q.prepared s)
unfolding ingest_events
ingest_prepared sv p session events s q fits loop = rw (fits, loop) refl

again_written :
    (sv : Services) (session : ℕ) (q : Pending) (s : Store)
    → q.prepared ≡ []
    → store_events sv session q.prepared s ≡ s
unfolding store_events
again_written sv session q s none_prepared = rw none_prepared refl

-- The response to a batch that was accepted with the given response before.
abbrev pub duplicate_response : Response → Response
duplicate_response r = record {
  accepted = 0;
  duplicates = r.accepted + r.duplicates;
  rejected = r.rejected;
  stored_event_ids = [];
}

again_respond :
    (q q' : Pending)
    → IsAgain nothing_pending q nothing_pending q'
    → respond q' ≡ duplicate_response (respond q)
again_respond q q' again =
    let counted : q'.duplicates ≡ length q.prepared + q.duplicates =
      omega (arith, again.all_duplicates) in
    rw (again.same_prepared, counted, again.refused_again, again.refused_then) refl

-- A batch that is accepted is accepted when the same principal sends it again to the store that
-- it left: no event is accepted then, those accepted before and the duplicates before are
-- duplicates, the same events are rejected, and the store stays as it is.
pub ingest_events_again :
    (sv : Services) (p : Principal) (session : ℕ) (events : List RawEvent) (s : Store)
    (r : Response) (s' : Store)
    → ingest_events sv p session events s ≡ ok (r, s')
    → ingest_events sv p session events s' ≡ ok (duplicate_response r, s')
ingest_events_again sv p session events s r s' e =
    let i = ingest_events-Ingested sv p session events s r s' e in
    let q = i.pending in
    let check = check_content sv p session s.tables in
    let same_check : check_content sv p session s'.tables ≡ check =
      fun_ext (λ d. rw i.store (check_content-stored sv p session q.prepared s d)) in
    let sound =
      prepare_events-IsSound sv.hash check session (hashes_of s.events) events nothing_pending q
        i.first_loop (nothing_pending-IsSound check (hashes_of s.events)) in
    let hashes : hashes_of s'.events ≡ hashes_of s.events ++ q.batch_hashes =
      rw i.store (hashes_after sv session q s sound.keyed) in
    let (q', loop, again) =
      prepare_events-IsAgain sv.hash check session (hashes_of s.events) (hashes_of s'.events) events
        nothing_pending q nothing_pending refl
        (λ k h was. rw hashes (known-stored (hashes_of s.events) q k h sound.fresh was))
        i.first_loop in
    ingest_prepared sv p session events s' q' i.fits (rw same_check loop)
    ∙ ap (λ out. ok out)
        (rw (again_written sv session q' s' again.same_prepared) (
          ap (λ a. (a, s'))
            (again_respond q q' again ∙ ap (λ a. duplicate_response a) (sym i.response))))

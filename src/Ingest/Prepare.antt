-- ===== src/Ingest/Prepare.antt =====
-- What the first loop of `ingest_events` prepares.
use mneme_universal_context.Prelude.{
  ℕ, ◌+◌, ◌≡◌, ◌⊎◌, inl, inr, refl, true, false, Option, none, some, List, [], ◌∷◌, ◌++◌, arith,
  ◌==◌, Bool-cases, Option-cases,
}
use mneme_universal_context.Access.Principal.{Failure, Result, ok, err}
use mneme_universal_context.Ingest.{
  Immutable, CleanEvent, Content, RawEvent, Prepared, Pending, hash_in, count_duplicate,
  normalize_event, note_event, prepare_event, prepare_events,
}

-- The first of two answers.
abbrev pub first_of : Option ℕ → Option ℕ → Option ℕ
first_of none o = o
first_of (some h) o = some h

pub hash_in-append :
    (k : ℕ) (xs ys : List (ℕ × ℕ)) → hash_in k (xs ++ ys) ≡ first_of (hash_in k xs) (hash_in k ys)
hash_in-append k [] ys = refl
hash_in-append k ((j, h) ∷ xs) ys = elim (Bool-cases (j == k)) [
  | inl e ↦ rw e refl
  | inr e ↦ rw e (hash_in-append k xs ys)
]

abbrev pub keys_of : List Prepared → List (ℕ × ℕ)
keys_of [] = []
keys_of (p ∷ ps) = (p.event.event_id, p.immutable_hash) ∷ keys_of ps

-- What is known of an identifier in the course of the first loop.
abbrev pub known : ℕ → List (ℕ × ℕ) → Pending → Option ℕ
known k stored p = first_of (hash_in k p.batch_hashes) (hash_in k stored)

-- An event that is refused by no test leaves its hash known, and counts as prepared or duplicate.
pub data Noted (stored : List (ℕ × ℕ)) (c : CleanEvent) (h : ℕ) (refs : List ℕ) (p p' : Pending)
    : Type 0 where
  again :
      known c.event_id stored p ≡ some h
      → p' ≡ record p { duplicates = p.duplicates + 1 }
      → Noted stored c h refs p p'
  new :
      hash_in c.event_id p.batch_hashes ≡ none
      → hash_in c.event_id stored ≡ none
      → p' ≡ record p {
        prepared = p.prepared ++ record { event = c; immutable_hash = h; blob_ref_ids = refs } ∷ [];
        batch_hashes = p.batch_hashes ++ (c.event_id, h) ∷ [];
      }
      → Noted stored c h refs p p'

count_duplicate_lem :
    (known h : ℕ) (p p' : Pending)
    → count_duplicate known h p ≡ ok p'
    → (known ≡ h) × (p' ≡ record p { duplicates = p.duplicates + 1 })
count_duplicate_lem known h p p' e = elim (Bool-cases (known == h)) [
  | inl same ↦ (ground arith, ground arith)
  | inr other ↦ cc (rw other at e)
]

pub note_event_lem :
    (stored : List (ℕ × ℕ)) (c : CleanEvent) (h : ℕ) (refs : List ℕ) (p p' : Pending)
    → note_event stored c h refs p ≡ ok p'
    → Noted stored c h refs p p'
unfolding note_event
note_event_lem stored c h refs p p' e = elim (Option-cases (hash_in c.event_id p.batch_hashes)) [
  | inr (k, in_batch) ↦
      let (same, eq) = count_duplicate_lem k h p p' (rw in_batch at e) in
      again (rw (in_batch, same) refl) eq
  | inl not_batch ↦ elim (Option-cases (hash_in c.event_id stored)) [
    | inr (k, in_table) ↦
        let (same, eq) = count_duplicate_lem k h p p' (rw (not_batch, in_table) at e) in
        again (rw (not_batch, in_table, same) refl) eq
    | inl not_table ↦ new not_batch not_table (cc (rw (not_batch, not_table) at e))
  ]
]

-- An event of another session is rejected; any other is accepted by all tests.
pub data Round (hash : Immutable → ℕ) (check : Content → Result (List ℕ)) (session : ℕ)
    (stored : List (ℕ × ℕ)) (r : RawEvent) (p p' : Pending) : Type 0 where
  refused :
      (r.session_id == session) ≡ false
      → p' ≡ record p { rejected = p.rejected ++ r.event_id ∷ [] }
      → Round hash check session stored r p p'
  taken :
      (refs : List ℕ) (c : CleanEvent)
      → (r.session_id == session) ≡ true
      → normalize_event r ≡ ok tt
      → check r.content ≡ ok refs
      → r.redacted ≡ some c
      → Noted stored c (hash c.immutable) refs p p'
      → Round hash check session stored r p p'

Unit-cases : (m : Result (Unit {0})) → (m ≡ ok tt) ⊎ ((e : Failure) × (m ≡ err e))
Unit-cases (ok x) = inl refl
Unit-cases (err e) = inr (e, refl)

Result-cases : (m : Result (List ℕ)) → ((a : List ℕ) × (m ≡ ok a)) ⊎ ((e : Failure) × (m ≡ err e))
Result-cases (ok a) = inl (a, refl)
Result-cases (err e) = inr (e, refl)

pub prepare_event_lem :
    (hash : Immutable → ℕ) (check : Content → Result (List ℕ)) (session : ℕ) (stored : List (ℕ × ℕ))
    (r : RawEvent) (p p' : Pending)
    → prepare_event hash check session stored r p ≡ ok p'
    → Round hash check session stored r p p'
unfolding prepare_event
prepare_event_lem hash check session stored r p p' e = elim (Bool-cases (r.session_id == session)) [
  | inr other ↦ refused other (cc (rw other at e))
  | inl own ↦ elim (Unit-cases (normalize_event r)) [
    | inr (f, bad) ↦ cc (rw (own, bad) at e)
    | inl good ↦ elim (Result-cases (check r.content)) [
      | inr (f, bad) ↦ cc (rw (own, good, bad) at e)
      | inl (refs, fits) ↦ elim (Option-cases r.redacted) [
        | inl late ↦ cc (rw (own, good, fits, late) at e)
        | inr (c, clean) ↦ taken refs c own good fits clean (
            note_event_lem stored c (hash c.immutable) refs p p' (rw (own, good, fits, clean) at e))
      ]
    ]
  ]
]

pub Pending-cases :
    (m : Result Pending) → ((a : Pending) × (m ≡ ok a)) ⊎ ((e : Failure) × (m ≡ err e))
Pending-cases (ok a) = inl (a, refl)
Pending-cases (err e) = inr (e, refl)

pub Noted-known :
    (stored : List (ℕ × ℕ)) (c : CleanEvent) (h : ℕ) (refs : List ℕ) (p p' : Pending)
    → Noted stored c h refs p p'
    → known c.event_id stored p' ≡ some h
Noted-known stored c h refs p p' (again e eq) = rw eq e
Noted-known stored c h refs p p' (new not_batch not_table eq) =
    let self : (c.event_id == c.event_id) ≡ true = ground arith in
    rw (eq, hash_in-append c.event_id p.batch_hashes ((c.event_id, h) ∷ []), not_batch, self) refl

-- What is known stays known.
pub Noted-keeps :
    (stored : List (ℕ × ℕ)) (c : CleanEvent) (h : ℕ) (refs : List ℕ) (p p' : Pending) (k g : ℕ)
    → Noted stored c h refs p p'
    → known k stored p ≡ some g
    → known k stored p' ≡ some g
Noted-keeps stored c h refs p p' k g (again e eq) was = rw eq was
Noted-keeps stored c h refs p p' k g (new not_batch not_table eq) was =
    elim (Option-cases (hash_in k p.batch_hashes)) [
      | inr (b, found) ↦
          rw (eq, hash_in-append k p.batch_hashes ((c.event_id, h) ∷ []), found) (rw found at was)
      | inl none_yet ↦
          let in_table : hash_in k stored ≡ some g = rw none_yet at was in
          elim (Bool-cases (c.event_id == k)) [
            | inl same ↦
                let k_eq : c.event_id ≡ k = ground arith in cc (in_table, rw k_eq at not_table)
            | inr other ↦
                rw (eq, hash_in-append k p.batch_hashes ((c.event_id, h) ∷ []), none_yet, other)
                  in_table
          ]
    ]

module _ (hash : Immutable → ℕ) (check : Content → Result (List ℕ)) (session : ℕ)
    (stored : List (ℕ × ℕ)) where
  Round-keeps :
      (r : RawEvent) (p p' : Pending) (k g : ℕ)
      → Round hash check session stored r p p'
      → known k stored p ≡ some g
      → known k stored p' ≡ some g
  Round-keeps r p p' k g (refused other eq) was = rw eq was
  Round-keeps r p p' k g (taken refs c own good fits clean noted) was =
      Noted-keeps stored c (hash c.immutable) refs p p' k g noted was

  -- The first round of a loop that succeeds, and the rest.
  pub prepare_events-first :
      (r : RawEvent) (rs : List RawEvent) (p p' : Pending)
      → prepare_events hash check session stored (r ∷ rs) p ≡ ok p'
      → (p1 : Pending) × (prepare_event hash check session stored r p ≡ ok p1)
        × (prepare_events hash check session stored rs p1 ≡ ok p')
  unfolding prepare_events
  prepare_events-first r rs p p' e =
      elim (Pending-cases (prepare_event hash check session stored r p)) [
        | inl (p1, first) ↦ (p1, first, rw first at e)
        | inr (f, bad) ↦ cc (rw bad at e)
      ]

  pub prepare_events-step :
      (r : RawEvent) (rs : List RawEvent) (p p1 p' : Pending)
      → prepare_event hash check session stored r p ≡ ok p1
      → prepare_events hash check session stored rs p1 ≡ ok p'
      → prepare_events hash check session stored (r ∷ rs) p ≡ ok p'
  unfolding prepare_events
  prepare_events-step r rs p p1 p' first rest = rw first rest

  pub prepare_events-keeps :
      (rs : List RawEvent) (p p' : Pending) (k g : ℕ)
      → prepare_events hash check session stored rs p ≡ ok p'
      → known k stored p ≡ some g
      → known k stored p' ≡ some g
  prepare_events-keeps [] p p' k g e was =
      let same : p ≡ p' = (unfold prepare_events in cc e) in rw⁻¹ same was
  prepare_events-keeps (r ∷ rs) p p' k g e was =
      let (p1, first, rest) = prepare_events-first r rs p p' e in
      prepare_events-keeps rs p1 p' k g rest
        (Round-keeps r p p1 k g (prepare_event_lem hash check session stored r p p1 first) was)

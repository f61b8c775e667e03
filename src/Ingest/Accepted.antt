-- ===== src/Ingest/Accepted.antt =====
-- The events of a batch that `ingest_events` stores, told from the batch and the table.
use mneme_universal_context.Prelude.{
  ℕ, ◌≡◌, inl, inr, refl, sym, ap, ◌∙◌, Bool, true, false, ◌||◌, if◌then◌else◌, Option, none, some,
  List, [], ◌∷◌, ◌++◌, arith, ◌==◌, Bool-cases, All, contains,
}
use mathlib.Core.List.{append_assoc, append-nil}
use mathlib.Core.Path.{subst}
use mneme_universal_context.Prelude.{All-append}
use mneme_universal_context.Access.Principal.{Result, ok}
use mneme_universal_context.Ingest.{
  Immutable, CleanEvent, Content, RawEvent, StoredEvent, Prepared, Pending, hash_in, prepare_events,
}
use mneme_universal_context.Ingest.Prepare.{
  first_of, known, Noted, again, new, Round, refused, taken, hash_in-append, prepare_event_lem,
  prepare_events-first,
}

abbrev pub with_clean : Option CleanEvent → List CleanEvent → List CleanEvent
with_clean none cs = cs
with_clean (some c) cs = c ∷ cs

-- The events of the batch that are of its session, redacted.
abbrev pub own_events : ℕ → List RawEvent → List CleanEvent
own_events session [] = []
own_events session (r ∷ rs) =
    let rest = own_events session rs in
    if r.session_id == session then with_clean r.redacted rest else rest

-- The first of the events with each identifier that is not among `seen`.
abbrev pub new_events : List ℕ → List CleanEvent → List CleanEvent
new_events seen [] = []
new_events seen (c ∷ cs) =
    let rest = new_events (c.event_id ∷ seen) cs in
    if contains c.event_id seen then rest else c ∷ rest

-- The row of an event.
abbrev pub row_of : (Immutable → ℕ) → CleanEvent → StoredEvent
row_of hash c = record {
  event_id = c.event_id;
  session_id = c.immutable.session_id;
  immutable_hash = hash c.immutable;
}

abbrev pub user_messages_of : List CleanEvent → List ℕ
user_messages_of [] = []
user_messages_of (c ∷ cs) =
    let rest = user_messages_of cs in if c.is_user_message then c.event_id ∷ rest else rest

abbrev pub events_of : List Prepared → List CleanEvent
events_of [] = []
events_of (p ∷ ps) = p.event ∷ events_of ps

abbrev pub IsHashed : (Immutable → ℕ) → Prepared → Type 0
IsHashed hash p = p.immutable_hash ≡ hash p.event.immutable

abbrev pub is_known : Option ℕ → Bool
is_known none = false
is_known (some h) = true

-- The list has the identifiers that are stored or prepared.
abbrev pub Knows : List ℕ → List (ℕ × ℕ) → Pending → Type 0
Knows seen stored p = (k : ℕ) → contains k seen ≡ is_known (known k stored p)

events_of-append : (xs ys : List Prepared) → events_of (xs ++ ys) ≡ events_of xs ++ events_of ys
events_of-append [] ys = refl
events_of-append (x ∷ xs) ys = ap (λ l. x.event ∷ l) (events_of-append xs ys)

Knows-again :
    (seen : List ℕ) (stored : List (ℕ × ℕ)) (k h : ℕ) (p : Pending)
    → known k stored p ≡ some h
    → Knows seen stored p
    → Knows (k ∷ seen) stored p
Knows-again seen stored k h p e knows i = elim (Bool-cases (i == k)) [
  | inl same ↦ let eq : i ≡ k = ground arith in rw same (rw eq (rw e refl))
  | inr other ↦ rw other (knows i)
]

known_added :
    (b : Bool) (h : ℕ) (o stored : Option ℕ)
    → is_known (first_of (first_of o (if b then some h else none)) stored)
      ≡ (b || is_known (first_of o stored))
known_added true h none stored = refl
known_added true h (some j) stored = refl
known_added false h none stored = refl
known_added false h (some j) stored = refl

Knows-new :
    (seen : List ℕ) (stored : List (ℕ × ℕ)) (k h : ℕ) (p p' : Pending)
    → p'.batch_hashes ≡ p.batch_hashes ++ (k, h) ∷ []
    → Knows seen stored p
    → Knows (k ∷ seen) stored p'
Knows-new seen stored k h p p' e knows i =
    simp (e, hash_in-append i p.batch_hashes ((k, h) ∷ []))
      (sym (
        known_added (k == i) h (hash_in i p.batch_hashes) (hash_in i stored)
        ∙ flipped (k == i) (i == k) (ground arith) (knows i)))
  where
    flipped :
        (a b : Bool)
        → a ≡ b
        → contains i seen ≡ is_known (known i stored p)
        → (a || is_known (known i stored p)) ≡ (b || contains i seen)
    flipped a b e h = rw (e, h) refl

not_seen :
    (seen : List ℕ) (stored : List (ℕ × ℕ)) (k : ℕ) (p : Pending)
    → hash_in k p.batch_hashes ≡ none
    → hash_in k stored ≡ none
    → Knows seen stored p
    → contains k seen ≡ false
not_seen seen stored k p not_batch not_table knows = knows k ∙ rw (not_batch, not_table) refl

seen_again :
    (seen : List ℕ) (stored : List (ℕ × ℕ)) (k h : ℕ) (p : Pending)
    → known k stored p ≡ some h
    → Knows seen stored p
    → contains k seen ≡ true
seen_again seen stored k h p e knows = knows k ∙ rw e refl

-- From `p` on, the loop over `cs` ends in `p'`.
pub record IsPrepared (hash : Immutable → ℕ) (seen : List ℕ) (cs : List CleanEvent) (p p' : Pending)
    : Type 0 where
  pub events : events_of p'.prepared ≡ events_of p.prepared ++ new_events seen cs
  pub hashed : All (IsHashed hash) p.prepared → All (IsHashed hash) p'.prepared

Noted-IsPrepared :
    (hash : Immutable → ℕ) (seen : List ℕ) (stored : List (ℕ × ℕ)) (c : CleanEvent)
    (cs : List CleanEvent) (refs : List ℕ) (p p1 p' : Pending)
    → Noted stored c (hash c.immutable) refs p p1
    → Knows seen stored p
    → (Knows (c.event_id ∷ seen) stored p1 → IsPrepared hash (c.event_id ∷ seen) cs p1 p')
    → IsPrepared hash seen (c ∷ cs) p p'
Noted-IsPrepared hash seen stored c cs refs p p1 p' (again e eq) knows rest =
    let kept : Knows (c.event_id ∷ seen) stored p1 =
      subst (λ x. Knows (c.event_id ∷ seen) stored x) (sym eq)
        (Knows-again seen stored c.event_id (hash c.immutable) p e knows) in
    let later = rest kept in
    let old = seen_again seen stored c.event_id (hash c.immutable) p e knows in
    record {
      events =
          rw old
            (later.events ∙ ap (λ q. events_of q.prepared ++ new_events (c.event_id ∷ seen) cs) eq);
      hashed = λ h. later.hashed (subst (λ x. All (IsHashed hash) x.prepared) (sym eq) h);
    }
Noted-IsPrepared hash seen stored c cs refs p p1 p' (new not_batch not_table eq) knows rest =
    let added : Prepared = record {
      event = c;
      immutable_hash = hash c.immutable;
      blob_ref_ids = refs;
    } in
    let kept =
      Knows-new seen stored c.event_id (hash c.immutable) p p1 (ap (λ q. q.batch_hashes) eq)
        knows in
    let later = rest kept in
    let fresh = not_seen seen stored c.event_id p not_batch not_table knows in
    record {
      events = rw fresh (
          later.events
          ∙ ap (λ q. events_of q.prepared ++ new_events (c.event_id ∷ seen) cs) eq
          ∙ ap (λ l. l ++ new_events (c.event_id ∷ seen) cs)
              (events_of-append p.prepared (added ∷ []))
          ∙ append_assoc (events_of p.prepared) (c ∷ []) (new_events (c.event_id ∷ seen) cs));
      hashed = λ h. later.hashed (
          subst (λ x. All (IsHashed hash) x.prepared) (sym eq)
            (All-append (IsHashed hash) p.prepared (added ∷ []) h (refl, tt)));
    }

module _ (hash : Immutable → ℕ) (check : Content → Result (List ℕ)) (session : ℕ)
    (stored : List (ℕ × ℕ)) where
  Round-IsPrepared :
      (r : RawEvent) (rs : List RawEvent) (seen : List ℕ) (p p1 p' : Pending)
      → Round hash check session stored r p p1
      → Knows seen stored p
      → ((seen1 : List ℕ)
          → Knows seen1 stored p1
          → IsPrepared hash seen1 (own_events session rs) p1 p')
      → IsPrepared hash seen (own_events session (r ∷ rs)) p p'
  Round-IsPrepared r rs seen p p1 p' (refused other eq) knows rest =
      let later = rest seen (subst (λ x. Knows seen stored x) (sym eq) knows) in
      rw other (record {
        events =
            later.events
            ∙ ap (λ q. events_of q.prepared ++ new_events seen (own_events session rs)) eq;
        hashed = λ h. later.hashed (subst (λ x. All (IsHashed hash) x.prepared) (sym eq) h);
      })
  Round-IsPrepared r rs seen p p1 p' (taken refs c own good fits clean noted) knows rest =
      rw (own, clean)
        (Noted-IsPrepared hash seen stored c (own_events session rs) refs p p1 p' noted knows
          (rest (c.event_id ∷ seen)))

  pub prepare_events-IsPrepared :
      (rs : List RawEvent) (seen : List ℕ) (p p' : Pending)
      → prepare_events hash check session stored rs p ≡ ok p'
      → Knows seen stored p
      → IsPrepared hash seen (own_events session rs) p p'
  prepare_events-IsPrepared [] seen p p' e knows =
      let same : p ≡ p' = (unfold prepare_events in cc e) in
      subst (λ x. IsPrepared hash seen [] p x) same
        (record { events = sym (append-nil (events_of p.prepared)); hashed = λ h. h })
  prepare_events-IsPrepared (r ∷ rs) seen p p' e knows =
      let (p1, first, rest) = prepare_events-first hash check session stored r rs p p' e in
      Round-IsPrepared r rs seen p p1 p' (prepare_event_lem hash check session stored r p p1 first)
        knows (λ seen1 k. prepare_events-IsPrepared rs seen1 p1 p' rest k)

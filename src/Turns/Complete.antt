-- ===== src/Turns/Complete.antt =====
-- A turn that is completed, refused, or completed again.
use mneme_universal_context.Prelude.{
  ℕ, ◌≡◌, ◌≢◌, inl, inr, refl, sym, ap, ◌∙◌, true, false, none, some, List, [], ◌∷◌, ◌++◌, arith,
  ◌==◌, Bool-cases, Option-cases, All, contains,
}
use mathlib.Core.Path.{subst}
use mneme_universal_context.Access.Principal.{conflict, ok, err, ◌>>=◌}
use mneme_universal_context.Ingest.{StoredEvent, hash_in, hashes_of}
use mneme_universal_context.Ingest.Prepare.{hash_in-append}
use mneme_universal_context.Session.History.{
  update_execution_state, patch, load_execution_state, State,
}
use mneme_universal_context.Session.History.Recovery.{load-put}
use mneme_universal_context.Turns.{
  Turn, Store, Texts, get_turn, link_segments, from_keys, or_session_segment, put_turn,
  segment_id_for_event, turn_segment_ids, turn_event_hash, store_event_if,
  store_turn_complete_event, TurnResponse, turn_complete_response, state_patch, complete_new_turn,
  complete_turn,
}
use mneme_universal_context.Turns.Linked.{
  contains-from_keys, contains-or_session_segment, turn_segment_ids-names,
}
use mneme_universal_context.Turns.Recorded.{get-insert, Says, link_segments-Says}

All-contains : (P : ℕ → Type 0) (k : ℕ) (ks : List ℕ) → All P ks → contains k ks ≡ true → P k
All-contains P k [] h c = cc
All-contains P k (j ∷ ks) h c = elim (Bool-cases (k == j)) [
  | inl e ↦ let same : j ≡ k = ground arith in subst P same h.0
  | inr e ↦ All-contains P k ks h.1 (rw e at c)
]

hashes_of-snoc :
    (es : List StoredEvent) (e : StoredEvent)
    → hashes_of (es ++ e ∷ []) ≡ hashes_of es ++ (e.event_id, e.immutable_hash) ∷ []
hashes_of-snoc [] e = refl
hashes_of-snoc (d ∷ es) e = ap (λ l. (d.event_id, d.immutable_hash) ∷ l) (hashes_of-snoc es e)

module _ (x : Texts) (now session turn : ℕ) (body : Turn) (s : Store) where
  -- The store after the writes of the turn and of the state.
  abbrev pub turn_and_state : Store
  turn_and_state =
      let s1 = put_turn x session turn body (turn_segment_ids x session body s.segments) s in
      record s1 {
        states =
            (update_execution_state x.state_hash session now patch (state_patch x turn body)
              s1.states).0;
      }

  abbrev pub turn_event : StoredEvent
  turn_event = record {
    event_id = x.turn_event_id turn;
    session_id = session;
    immutable_hash = turn_event_hash x now session turn body;
  }

  abbrev pub response : TurnResponse
  response = turn_complete_response session turn body (turn_segment_ids x session body s.segments)

  turn_stored :
      get_turn session turn s.turns ≡ none → get_turn session turn turn_and_state.turns ≡ some body
  unfolding put_turn
  turn_stored h = get-insert session turn body s.turns h

  segments_say :
      (k : ℕ)
      → contains k response.segment_ids ≡ true
      → Says turn body.status k turn_and_state.segments
  unfolding put_turn
  segments_say k c =
      let ids = turn_segment_ids x session body s.segments in
      let ks = from_keys [] (or_session_segment x session ids) in
      All-contains (λ j. Says turn body.status j (link_segments x session turn body ks s.segments))
        k ks (link_segments-Says x session turn body ks s.segments)
        (contains-from_keys k [] (or_session_segment x session ids)
          ∙ contains-or_session_segment x session k ids c)

  state_stored :
      (st : State) × (load_execution_state session turn_and_state.states.execution_state ≡ some st)
      × (st.current_step ≡ x.turn_step turn body.status)
      × (st.intent_label ≡ some (x.turn_intent body.status))
  unfolding put_turn update_execution_state
  state_stored =
      let s1 = put_turn x session turn body (turn_segment_ids x session body s.segments) s in
      (
        (update_execution_state x.state_hash session now patch (state_patch x turn body)
            s1.states).1,
        load-put session _ s1.states.execution_state,
        refl,
        refl,
      )

  event_stored :
      hash_in (x.turn_event_id turn) (hashes_of s.events) ≡ none
      → hash_in (x.turn_event_id turn) (hashes_of (s.events ++ turn_event ∷ []))
        ≡ some turn_event.immutable_hash
  event_stored h =
      let self : (x.turn_event_id turn == x.turn_event_id turn) ≡ true = ground arith in
      rw
        (
          hashes_of-snoc s.events turn_event,
          hash_in-append (x.turn_event_id turn) (hashes_of s.events)
              ((x.turn_event_id turn, turn_event.immutable_hash) ∷ []),
          h,
          self,
        )
        refl

  complete_new :
      get_turn session turn s.turns ≡ none
      → complete_turn x now (ok tt) session turn (some body) s ≡ (
        (store_event_if
            (hash_in (x.turn_event_id turn) (hashes_of s.events))
            turn_event
            turn_and_state).0,
        (store_event_if
              (hash_in (x.turn_event_id turn) (hashes_of s.events))
              turn_event
              turn_and_state).1
            >>= λ u. ok response,
      )
  unfolding complete_turn complete_new_turn put_turn store_turn_complete_event
  complete_new h = rw h refl

-- A turn that is stored is answered, and nothing is written.
completed_before :
    (x : Texts) (now session turn : ℕ) (body existing : Turn) (s : Store)
    → get_turn session turn s.turns ≡ some existing
    → (x.canonical_json existing == x.canonical_json body) ≡ true
    → complete_turn x now (ok tt) session turn (some body) s ≡ (
      s,
      ok (
          turn_complete_response session turn existing
            (turn_segment_ids x session existing s.segments)),
    )
unfolding complete_turn
completed_before x now session turn body existing s found same = rw (found, same) refl

same_json : (x : Texts) (body : Turn) → (x.canonical_json body == x.canonical_json body) ≡ true
same_json x body = ground arith

-- What is recorded of a turn, and that the same request at any time is answered and writes nothing.
pub record IsRecorded (x : Texts) (now session turn : ℕ) (body : Turn) (before s : Store)
    (r : TurnResponse) : Type 0 where
  pub stored : get_turn session turn s.turns ≡ some body
  pub event :
      hash_in (x.turn_event_id turn) (hashes_of s.events)
      ≡ some (turn_event_hash x now session turn body)
  pub segments : (k : ℕ) → contains k r.segment_ids ≡ true → Says turn body.status k s.segments
  pub named :
      (e k : ℕ)
      → contains e body.event_ids ≡ true
      → segment_id_for_event x session e before.segments ≡ some k
      → contains k r.segment_ids ≡ true
  pub state :
      (st : State) × (load_execution_state session s.states.execution_state ≡ some st)
      × (st.current_step ≡ x.turn_step turn body.status)
      × (st.intent_label ≡ some (x.turn_intent body.status))
  pub again :
      (later : ℕ)
      → (r' : TurnResponse) × (complete_turn x later (ok tt) session turn (some body) s
          ≡ (s, ok r'))

written-IsRecorded :
    (x : Texts) (now session turn : ℕ) (body : Turn) (s : Store) (es : List StoredEvent)
    → get_turn session turn s.turns ≡ none
    → hash_in (x.turn_event_id turn) (hashes_of es) ≡ some (turn_event_hash x now session turn body)
    → IsRecorded x now session turn body s
        (record (turn_and_state x now session turn body s) { events = es })
        (response x now session turn body s)
written-IsRecorded x now session turn body s es absent event =
    let s2 = record (turn_and_state x now session turn body s) { events = es } in
    let there = turn_stored x now session turn body s absent in
    record {
      stored = there;
      event = event;
      segments = segments_say x now session turn body s;
      named = turn_segment_ids-names x session body s.segments;
      state = state_stored x now session turn body s;
      again = λ later. (
        turn_complete_response session turn body (turn_segment_ids x session body s2.segments),
        completed_before x later session turn body body s2 there (same_json x body),
      );
    }

same-IsRecorded :
    (x : Texts) (now session turn : ℕ) (body : Turn) (before s s' : Store) (r r' : TurnResponse)
    → s ≡ s'
    → r ≡ r'
    → IsRecorded x now session turn body before s r
    → IsRecorded x now session turn body before s' r'
same-IsRecorded x now session turn body before s s' r r' s_eq r_eq h =
    subst (λ t. IsRecorded x now session turn body before t r') s_eq
      (subst (λ t. IsRecorded x now session turn body before s t) r_eq h)

-- A turn that was not there and is completed is stored as it was sent; its event has the hash of
-- its immutable fields; the session's state has the step and the intent of the turn; and each
-- segment that the response names says that the turn was its last. The response names, for each
-- event of the turn that has a segment, the segment that `segment_id_for_event` finds in the store
-- before. The same request then, at any time, is answered and writes nothing.
pub complete_turn-IsRecorded :
    (x : Texts) (now session turn : ℕ) (body : Turn) (s s' : Store) (r : TurnResponse)
    → get_turn session turn s.turns ≡ none
    → complete_turn x now (ok tt) session turn (some body) s ≡ (s', ok r)
    → IsRecorded x now session turn body s s' r
unfolding put_turn
complete_turn-IsRecorded x now session turn body s s' r absent e =
    let e' = sym (complete_new x now session turn body s absent) ∙ e in
    let s1 = turn_and_state x now session turn body s in
    let hash = turn_event_hash x now session turn body in
    elim (Option-cases (hash_in (x.turn_event_id turn) (hashes_of s.events))) [
      | inl new ↦
          let s2 = record s1 { events = s.events ++ turn_event x now session turn body s ∷ [] } in
          let both : (s2, ok (response x now session turn body s)) ≡ (s', ok r) = rw new at e' in
          let s_eq : s2 ≡ s' = cc both in
          let r_eq : response x now session turn body s ≡ r = cc both in
          same-IsRecorded x now session turn body s s2 s' _ r s_eq r_eq (
            written-IsRecorded x now session turn body s s2.events absent
              (event_stored x now session turn body s new))
      | inr (known, found) ↦ elim (Bool-cases (known == hash)) [
        | inl same ↦
            let hash_eq : known ≡ hash = ground arith in
            let both : (s1, ok (response x now session turn body s)) ≡ (s', ok r) =
              rw (found, same) at e' in
            let s_eq : s1 ≡ s' = cc both in
            let r_eq : response x now session turn body s ≡ r = cc both in
            same-IsRecorded x now session turn body s s1 s' _ r s_eq r_eq (
              written-IsRecorded x now session turn body s s.events absent
                (found ∙ ap some hash_eq))
        | inr other ↦ cc (rw (found, other) at e')
      ]
    ]

-- Where the turn is not there and the identifier that the code makes for its event is stored
-- with another hash, the completion is refused as a conflict after the turn is written: no event
-- is, and the same request then, at any time, is answered as recorded.
pub complete_turn_partly :
    (x : Texts) (now later session turn known : ℕ) (body : Turn) (s : Store)
    → get_turn session turn s.turns ≡ none
    → hash_in (x.turn_event_id turn) (hashes_of s.events) ≡ some known
    → known ≢ turn_event_hash x now session turn body
    → (s' : Store) × (complete_turn x now (ok tt) session turn (some body) s ≡ (s', err conflict))
      × (get_turn session turn s'.turns ≡ some body)
      × (s'.events ≡ s.events)
      × ((r : TurnResponse) × (complete_turn x later (ok tt) session turn (some body) s'
            ≡ (s', ok r)))
complete_turn_partly x now later session turn known body s absent found differs =
    let s1 = turn_and_state x now session turn body s in
    let other : (known == turn_event_hash x now session turn body) ≡ false =
      ground (arith, differs) in
    let there = turn_stored x now session turn body s absent in
    (
      s1,
      complete_new x now session turn body s absent ∙ rw (found, other) refl,
      there,
      (unfold put_turn in refl),
      (
        turn_complete_response session turn body (turn_segment_ids x session body s1.segments),
        completed_before x later session turn body body s1 there (same_json x body),
      ),
    )

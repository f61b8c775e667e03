-- ===== src/Turns/Linked.antt =====
-- The segments that a turn's response names.
use mneme_universal_context.Prelude.{
  ℕ, ◌≡◌, inl, inr, ◌∙◌, true, ◌||◌, some, List, [], ◌∷◌, arith, ◌==◌, Bool-cases, Option-cases,
  contains, add_new,
}
use mneme_universal_context.Prelude.{contains-add_new}
use mneme_universal_context.Turns.{
  Turn, Texts, TurnSegment, from_keys, or_session_segment, or_active, event_segments,
  segment_id_for_event, turn_segment_ids,
}

pub contains-from_keys :
    (k : ℕ) (kept ks : List ℕ) → contains k (from_keys kept ks) ≡ (contains k kept || contains k ks)
contains-from_keys k kept [] = ground arith
contains-from_keys k kept (j ∷ ks) =
    contains-from_keys k (add_new j kept) ks ∙ ground (arith, contains-add_new k j kept)

pub contains-or_session_segment :
    (x : Texts) (session k : ℕ) (ks : List ℕ)
    → contains k ks ≡ true
    → contains k (or_session_segment x session ks) ≡ true
contains-or_session_segment x session k [] h = cc
contains-or_session_segment x session k (j ∷ ks) h = h

contains-event_segments :
    (x : Texts) (session e k : ℕ) (es : List ℕ) (ss : List TurnSegment)
    → contains e es ≡ true
    → segment_id_for_event x session e ss ≡ some k
    → contains k (event_segments x session es ss) ≡ true
contains-event_segments x session e k [] ss c found = cc c
contains-event_segments x session e k (d ∷ es) ss c found = elim (Bool-cases (e == d)) [
  | inl same ↦
      let eq : d ≡ e = ground arith in
      let found' : segment_id_for_event x session d ss ≡ some k = rw eq found in
      rw (found', contains) (ground arith)
  | inr other ↦
      let later = contains-event_segments x session e k es ss (rw other at c) found in
      elim (Option-cases (segment_id_for_event x session d ss)) [
        | inl nowhere ↦ rw (nowhere, contains) later
        | inr (j, first) ↦ rw (first, contains) (ground (arith, later))
      ]
]

contains-or_active :
    (k : ℕ) (ks active : List ℕ) → contains k ks ≡ true → contains k (or_active ks active) ≡ true
contains-or_active k [] active h = cc h
contains-or_active k (j ∷ ks) active h = h

-- The segment of each event of the turn is named.
pub turn_segment_ids-names :
    (x : Texts) (session : ℕ) (body : Turn) (ss : List TurnSegment) (e k : ℕ)
    → contains e body.event_ids ≡ true
    → segment_id_for_event x session e ss ≡ some k
    → contains k (turn_segment_ids x session body ss) ≡ true
unfolding turn_segment_ids
turn_segment_ids-names x session body ss e k c found =
    contains-from_keys k []
      (or_session_segment x session (or_active (event_segments x session body.event_ids ss) _))
    ∙ contains-or_session_segment x session k _ (
        contains-or_active k (event_segments x session body.event_ids ss) _
          (contains-event_segments x session e k body.event_ids ss c found))

-- ===== src/Session/Segments/Partition.antt =====
-- The segments of a session divide its user messages, in order.
use mneme_universal_context.Prelude.{
  ℕ, ◌≡◌, inl, inr, refl, sym, ap, ◌∙◌, ◌&&◌, some, List, [], ◌∷◌, ◌++◌, arith, ltb, Bool-cases,
  length-append,
}
use mathlib.Core.List.{append_assoc, append-nil}
use mneme_universal_context.Session.Segments.{
  active, DriftReason, session_start, Segment, Event, latest_active_segment, put_segment,
  new_segment, reason_of, is_break, close_segment, extend_segment, update_from,
  update_segment_for_event, update_segments, AreClosed, AreSegments, anchors, user_messages,
  put_segment_new, put_segment_last,
}

latest_is_first :
    (s : Segment) (ss : List Segment) → s.status ≡ active → latest_active_segment (s ∷ ss) ≡ some s
unfolding latest_active_segment
latest_is_first s ss h = rw h refl

-- What a user message makes of the segments.
IsStep : ℕ → List Segment → List Segment → Type 0
IsStep id ss ss' = AreSegments ss' × (anchors ss' ≡ anchors ss ++ id ∷ [])

start-IsStep : (e : Event) → IsStep e.event_id [] (put_segment (new_segment [] e session_start) [])
unfolding IsStep new_segment
start-IsStep e =
    rw (put_segment_new (new_segment [] e session_start) [] (omega arith) tt)
      (((omega arith, refl, refl, omega arith, tt), refl))

extend-IsStep :
    (e : Event) (s : Segment) (ss : List Segment)
    → AreSegments (s ∷ ss)
    → IsStep e.event_id (s ∷ ss) (put_segment (extend_segment s e) (s ∷ ss))
unfolding IsStep extend_segment
extend-IsStep e s ss (number, status, size, some_events, older) =
    rw (put_segment_last (extend_segment s e) s ss refl number older) (
      (
        number,
        status,
        omega (arith, length-append s.anchor_event_ids (e.event_id ∷ [])),
        omega arith,
        older,
      ),
      sym (append_assoc (anchors ss) s.anchor_event_ids (e.event_id ∷ [])),
    )

break-IsStep :
    (e : Event) (s : Segment) (ss : List Segment) (reason : DriftReason)
    → AreSegments (s ∷ ss)
    → let closed_first = put_segment (close_segment s) (s ∷ ss) in
      IsStep e.event_id (s ∷ ss) (put_segment (new_segment closed_first e reason) closed_first)
unfolding IsStep close_segment new_segment
break-IsStep e s ss reason (number, status, size, some_events, older) =
    let closed_older : AreClosed (close_segment s ∷ ss) = (number, refl, size, older) in
    rw
      (
        put_segment_last (close_segment s) s ss refl number older,
        put_segment_new (new_segment (close_segment s ∷ ss) e reason) (close_segment s ∷ ss)
            (omega arith) closed_older,
      )
      ((omega arith, refl, refl, omega arith, closed_older), refl)

update_last :
    (e : Event) (s : Segment) (ss : List Segment)
    → AreSegments (s ∷ ss)
    → IsStep e.event_id (s ∷ ss) (update_from (some s) e (s ∷ ss))
unfolding update_from
update_last e s ss h = elim (Bool-cases (is_break e.intent && ltb 0 s.event_count)) [
  | inl new ↦ rw new (break-IsStep e s ss (reason_of e) h)
  | inr same ↦ rw same (extend-IsStep e s ss h)
]

update_user_message :
    (e : Event) (ss : List Segment)
    → AreSegments ss
    → IsStep e.event_id ss (update_from (latest_active_segment ss) e ss)
unfolding latest_active_segment update_from
update_user_message e [] h = start-IsStep e
update_user_message e (s ∷ ss) h = rw (latest_is_first s ss h.1) (update_last e s ss h)

pub update_segment_for_event-AreSegments :
    (e : Event) (ss : List Segment)
    → AreSegments ss
    → AreSegments (update_segment_for_event e ss)
      × (anchors (update_segment_for_event e ss) ≡ anchors ss ++ user_messages (e ∷ []))
unfolding update_segment_for_event IsStep
update_segment_for_event-AreSegments e ss h = elim (Bool-cases e.is_user_message) [
  | inl user ↦ simp user (update_user_message e ss h)
  | inr other ↦ rw other (h, sym (append-nil (anchors ss)))
]

user_messages-cons :
    (e : Event) (es : List Event)
    → user_messages (e ∷ es) ≡ user_messages (e ∷ []) ++ user_messages es
user_messages-cons e es = elim (Bool-cases e.is_user_message) [
  | inl user ↦ rw user refl
  | inr other ↦ rw other refl
]

-- From segments that are so, however the classifier sees the events that follow, the segments
-- stay numbered without a gap, only the last one is active, each counts its anchors, and the
-- anchors of the segments, one segment after the other, are those before and then the user
-- messages of the events, in their order.
pub update_segments_partition :
    (es : List Event) (ss : List Segment)
    → AreSegments ss
    → AreSegments (update_segments es ss)
      × (anchors (update_segments es ss) ≡ anchors ss ++ user_messages es)
unfolding update_segments
update_segments_partition [] ss h = (h, sym (append-nil (anchors ss)))
update_segments_partition (e ∷ es) ss h =
    let (now, event) = update_segment_for_event-AreSegments e ss h in
    let (later, rest) = update_segments_partition es (update_segment_for_event e ss) now in
    (
      later,
      rest
          ∙ ap (λ l. l ++ user_messages es) event
          ∙ append_assoc (anchors ss) (user_messages (e ∷ [])) (user_messages es)
          ∙ ap (λ l. anchors ss ++ l) (sym (user_messages-cons e es)),
    )

-- ===== src/Turns/Recorded.antt =====
-- What the completion of a turn records.
use mneme_universal_context.Prelude.{
  ℕ, ◌≡◌, inl, inr, refl, sym, ◌∙◌, true, false, ◌&&◌, none, some, List, [], ◌∷◌, arith, ◌==◌,
  Bool-cases, Option-cases, All,
}
use mathlib.Core.Path.{subst}
use mneme_universal_context.Turns.{
  TurnStatus, Turn, TurnSegment, TurnRow, Texts, get_turn, insert_turn, find_segment,
  replace_segment, new_segment, linked, link_found, link_segments,
}

pub get-insert :
    (session turn : ℕ) (body : Turn) (rows : List TurnRow)
    → get_turn session turn rows ≡ none
    → get_turn session turn (insert_turn session turn body rows) ≡ some body
get-insert session turn body [] h =
    let self : (session == session && turn == turn) ≡ true = ground arith in rw self refl
get-insert session turn body (r ∷ rows) h =
    elim (Bool-cases (r.session_id == session && r.turn_id == turn)) [
      | inl here ↦ cc (rw here at h)
      | inr other ↦ rw other (get-insert session turn body rows (rw other at h))
    ]

-- The row of a segment that says that the turn was its last.
pub Says : ℕ → TurnStatus → ℕ → List TurnSegment → Type 0
Says turn status k ss =
    (s : TurnSegment) × (find_segment k ss ≡ some s)
    × (s.last_turn_id ≡ some turn)
    × (s.last_turn_status ≡ some status)

found_id :
    (k : ℕ) (ss : List TurnSegment) (s : TurnSegment)
    → find_segment k ss ≡ some s
    → s.segment_id ≡ k
found_id k [] s h = cc
found_id k (t ∷ ss) s h = elim (Bool-cases (t.segment_id == k)) [
  | inl e ↦ let same : t ≡ s = cc (rw e at h) in rw⁻¹ same (ground arith)
  | inr e ↦ found_id k ss s (rw e at h)
]

find-replace :
    (t s : TurnSegment) (ss : List TurnSegment)
    → find_segment t.segment_id ss ≡ some s
    → find_segment t.segment_id (replace_segment t ss) ≡ some t
find-replace t s [] h = cc
find-replace t s (q ∷ ss) h = elim (Bool-cases (q.segment_id == t.segment_id)) [
  | inl e ↦ let self : (t.segment_id == t.segment_id) ≡ true = ground arith in rw (e, self) refl
  | inr e ↦ rw (e, e) (find-replace t s ss (rw e at h))
]

find-replace_other :
    (k : ℕ) (t : TurnSegment) (ss : List TurnSegment)
    → (t.segment_id == k) ≡ false
    → find_segment k (replace_segment t ss) ≡ find_segment k ss
find-replace_other k t [] h = refl
find-replace_other k t (q ∷ ss) h = elim (Bool-cases (q.segment_id == t.segment_id)) [
  | inl e ↦
      let other : (q.segment_id == k) ≡ false = ground arith in
      rw (e, h, other) (find-replace_other k t ss h)
  | inr e ↦ elim (Bool-cases (q.segment_id == k)) [
    | inl f ↦ rw (e, f) refl
    | inr f ↦ rw (e, f) (find-replace_other k t ss h)
  ]
]

module _ (x : Texts) (session turn : ℕ) (body : Turn) where
  link_found-Says :
      (k : ℕ) (ss : List TurnSegment)
      → Says turn body.status k (link_found x session turn body k (find_segment k ss) ss)
  unfolding Says
  link_found-Says k ss = elim (Option-cases (find_segment k ss)) [
    | inl missing ↦
        let self : (k == k) ≡ true = ground arith in
        rw missing (linked x session turn body (new_segment x session k), rw self refl, refl, refl)
    | inr (s, found) ↦
        let id : s.segment_id ≡ k = found_id k ss s found in
        let there : find_segment s.segment_id ss ≡ some s =
          subst (λ j. find_segment j ss ≡ some s) (sym id) found in
        let t = linked x session turn body s in
        let replaced : find_segment k (replace_segment t ss) ≡ some t =
          subst (λ j. find_segment j (replace_segment t ss) ≡ some t) id
            (find-replace t s ss there) in
        rw found (t, replaced, refl, refl)
  ]

  link_found_keeps :
      (j k : ℕ) (ss : List TurnSegment)
      → Says turn body.status j ss
      → Says turn body.status j (link_found x session turn body k (find_segment k ss) ss)
  unfolding Says
  link_found_keeps j k ss (t, found, id, status) = elim (Bool-cases (k == j)) [
    | inl same ↦ let k_eq : k ≡ j = ground arith in rw⁻¹ k_eq (link_found-Says k ss)
    | inr other ↦ elim (Option-cases (find_segment k ss)) [
      | inl missing ↦ rw missing (t, rw other found, id, status)
      | inr (s, there) ↦
          let differs : (s.segment_id == j) ≡ false = rw (found_id k ss s there) other in
          rw there
            (t, find-replace_other j (linked x session turn body s) ss differs ∙ found, id, status)
    ]
  ]

  link_segments_keep :
      (j : ℕ) (ks : List ℕ) (ss : List TurnSegment)
      → Says turn body.status j ss
      → Says turn body.status j (link_segments x session turn body ks ss)
  link_segments_keep j [] ss h = h
  link_segments_keep j (k ∷ ks) ss h =
      link_segments_keep j ks (link_found x session turn body k (find_segment k ss) ss)
        (link_found_keeps j k ss h)

  pub link_segments-Says :
      (ks : List ℕ) (ss : List TurnSegment)
      → All (λ k. Says turn body.status k (link_segments x session turn body ks ss)) ks
  link_segments-Says [] ss = tt
  link_segments-Says (k ∷ ks) ss =
      let ss' = link_found x session turn body k (find_segment k ss) ss in
      (link_segments_keep k ks ss' (link_found-Says k ss), link_segments-Says ks ss')

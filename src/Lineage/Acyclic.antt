-- ===== src/Lineage/Acyclic.antt =====
-- `put_session_lineage` never closes a cycle.
use mneme_universal_context.Prelude.{
  ℕ, ◌≡◌, ◌≢◌, ◌⊎◌, inl, inr, sym, not, ◌&&◌, ◌||◌, List, [], ◌∷◌, ◌++◌, arith, ◌==◌, Bool-cases,
  contains,
}
use mneme_universal_context.Lineage.{
  Edge, children, lineage_session_ids, LineageTables, put_session_lineage,
}
use mneme_universal_context.Lineage.Paths.{
  Reaches, start, onward, IsAcyclic, children-parents, Reaches-trans, Reaches-first,
}
use mneme_universal_context.Lineage.Members.{lineage_session_ids_sound}

module _ (es : List Edge) (old new : ℕ) where
  abbrev added : List Edge
  added = es ++ record { old_session_id = old; new_session_id = new } ∷ []

  contains-children-added :
      (rows : List Edge) (x y : ℕ)
      → contains y (children (rows ++ record { old_session_id = old; new_session_id = new } ∷ []) x)
        ≡ (contains y (children rows x) || (x == old && y == new))
  contains-children-added [] x y = ground arith
  contains-children-added (e ∷ rows) x y = ground (arith, contains-children-added rows x y)

  -- A path through the new row goes from a session that reaches its old end to one that its
  -- new end reaches.
  split_path :
      {x y : ℕ}
      → Reaches (children added) x y
      → Reaches (children es) x y ⊎ (Reaches (children es) x old × Reaches (children es) new y)
  split_path start = inl start
  split_path {x} (onward {x = w} {y = z} r k m) = elim (Bool-cases (contains z (children es w))) [
    | inl was ↦ elim (split_path r) [
      | inl p ↦ inl (onward p was m)
      | inr (p, q) ↦ inr (p, onward q was m)
    ]
    | inr not_was ↦
        let ew : w ≡ old = ground (arith, contains-children-added es w z) in
        let ez : z ≡ new = ground (arith, contains-children-added es w z) in
        elim (split_path r) [
          | inl p ↦ inr (rw ew at p, rw (sym ez) start)
          | inr (p, q) ↦ inr (p, rw (sym ez) start)
        ]
  ]

  added-IsAcyclic : IsAcyclic es → ¬ (Reaches (children es) new old) → IsAcyclic added
  added-IsAcyclic a free x y h n r = elim (Bool-cases (contains y (children es x))) [
    | inl was ↦ elim (split_path r) [
      | inl p ↦ a x y was n p
      | inr (p, q) ↦ free (Reaches-trans q (Reaches-first (children es) x y old was n p))
    ]
    | inr not_was ↦
        let ex : x ≡ old = ground (arith, contains-children-added es x y) in
        let ey : y ≡ new = ground (arith, contains-children-added es x y) in
        elim (split_path r) [ inl p ↦ free (rw (← ex, ← ey) p) | inr (p, q) ↦ free (rw (← ex) q) ]
  ]

-- Adding a row keeps the lineage acyclic, whatever sessions are asked for.
pub put_session_lineage-IsAcyclic :
    (old new : ℕ) (t : LineageTables)
    → IsAcyclic t.edges
    → IsAcyclic (put_session_lineage old new t).0.edges
unfolding put_session_lineage
put_session_lineage-IsAcyclic old new t a = elim (Bool-cases (old == 0 || new == 0 || old == new)) [
  | inl bad ↦ rw bad a
  | inr ids ↦ elim (Bool-cases (not (contains old t.sessions) || not (contains new t.sessions))) [
    | inl missing ↦ rw (ids, missing) a
    | inr there ↦ elim (Bool-cases (contains new (lineage_session_ids t.edges old))) [
      | inl known ↦ rw (ids, there, known) a
      | inr fresh ↦
          let zo : old ≢ 0 = (λ e. ground arith) in
          let zn : new ≢ 0 = (λ e. ground arith) in
          rw (ids, there, fresh)
            (added-IsAcyclic t.edges old new a (λ r. cc (
              fresh,
              (lineage_session_ids_sound t.edges old zo).1 new (children-parents t.edges zn r),
            )))
    ]
  ]
]

-- The tables after a series of requests.
unfoldable pub put_all : List (ℕ × ℕ) → LineageTables → LineageTables
put_all [] t = t
put_all ((old, new) ∷ rest) t = put_all rest (put_session_lineage old new t).0

no_rows-IsAcyclic : IsAcyclic []
no_rows-IsAcyclic x y h n r = cc

put_all-keeps :
    (requests : List (ℕ × ℕ)) (t : LineageTables)
    → IsAcyclic t.edges
    → IsAcyclic (put_all requests t).edges
unfolding put_all
put_all-keeps [] t a = a
put_all-keeps ((old, new) ∷ rest) t a =
    put_all-keeps rest (put_session_lineage old new t).0 (put_session_lineage-IsAcyclic old new t a)

-- From an empty lineage table, whatever lineage requests are made, the rows stay acyclic.
pub put_all-IsAcyclic :
    (sessions : List ℕ) (requests : List (ℕ × ℕ))
    → IsAcyclic (put_all requests (record { sessions = sessions; edges = [] })).edges
put_all-IsAcyclic sessions requests =
    put_all-keeps requests (record { sessions = sessions; edges = [] }) no_rows-IsAcyclic

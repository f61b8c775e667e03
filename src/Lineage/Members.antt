-- ===== src/Lineage/Members.antt =====
-- Exactly which sessions `lineage_session_ids` lists.
use mneme_universal_context.Prelude.{
  ℕ, suc, ◌≤◌, ◌≡◌, ◌≢◌, ◌⊎◌, inl, inr, refl, sym, true, false, List, [], ◌∷◌, arith, ◌==◌,
  Bool-cases, length, All, contains, IsDistinct,
}
use mneme_universal_context.Lineage.{Edge, parents, children, ancestor_ids, lineage_session_ids}
use mneme_universal_context.Lineage.Walk.{walk}
use mneme_universal_context.Lineage.Walk.Reached.{walk-All, walk-IsDistinct, walk-keeps}
use mneme_universal_context.Lineage.Walk.Closed.{Within, Includes, unseen, walk-Closed}
use mneme_universal_context.Lineage.Paths.{
  Reaches, start, onward, IsAcyclic, parents-children, IsAcyclic-antisym,
}

abbrev olds : List Edge → List ℕ
olds [] = []
olds (e ∷ es) = e.old_session_id ∷ olds es

abbrev news : List Edge → List ℕ
news [] = []
news (e ∷ es) = e.new_session_id ∷ news es

parents-Within : (es : List Edge) (c : ℕ) → Within (parents es c) (olds es)
parents-Within [] c a h = h
parents-Within (e ∷ es) c a h = ground (arith, parents-Within es c a)

children-Within : (es : List Edge) (c : ℕ) → Within (children es c) (news es)
children-Within [] c a h = h
children-Within (e ∷ es) c a h = ground (arith, children-Within es c a)

unseen-olds-le : (es : List Edge) (o : List ℕ) → unseen (olds es) o ≤ length es
unseen-olds-le [] o = omega arith
unseen-olds-le (e ∷ es) o = ground (arith, unseen-olds-le es o)

unseen-news-le : (es : List Edge) (o : List ℕ) → unseen (news es) o ≤ length es
unseen-news-le [] o = omega arith
unseen-news-le (e ∷ es) o = ground (arith, unseen-news-le es o)

All-of_contains : (P : ℕ → Type 0) (xs : List ℕ) (x : ℕ) → All P xs → contains x xs ≡ true → P x
All-of_contains P [] x h k = cc
All-of_contains P (y ∷ xs) x (p, h) k = elim (Bool-cases (x == y)) [
  | inl same ↦ let e : x ≡ y = ground arith in rw e p
  | inr other ↦ All-of_contains P xs x h (ground arith)
]

All-of_All : {P : ℕ → Type 0} (xs : List ℕ) → ((x : ℕ) → contains x xs ≡ true → P x) → All P xs
All-of_All [] h = tt
All-of_All (x ∷ xs) h = (h x (ground arith), All-of_All xs (λ y k. h y (ground arith)))

-- Following rows keeps a predicate that includes all that a session reaches.
reach_step :
    (rows : ℕ → List ℕ) (s c : ℕ) → Reaches rows s c → All (λ a. a ≢ 0 → Reaches rows s a) (rows c)
reach_step rows s c r = All-of_All (rows c) (λ a k z. onward r k z)

module _ (es : List Edge) (s : ℕ) where
  ancestor_ids-sound : (x : ℕ) → contains x (ancestor_ids es s) ≡ true → Reaches (parents es) s x
  unfolding ancestor_ids
  ancestor_ids-sound x h =
      All-of_contains (Reaches (parents es) s) (ancestor_ids es s) x
        (walk-All (parents es) (Reaches (parents es) s) (Reaches (parents es) s) (λ y r. r)
          (reach_step (parents es) s) (suc (length es)) (s ∷ []) (s ∷ []) (start, tt) (start, tt))
        h

  ancestor_ids_start : contains s (ancestor_ids es s) ≡ true
  unfolding ancestor_ids
  ancestor_ids_start = walk-keeps (parents es) (suc (length es)) (s ∷ []) (s ∷ []) s (ground arith)

  ancestor_ids-closed :
      (x : ℕ) → contains x (ancestor_ids es s) ≡ true → Includes (parents es x) (ancestor_ids es s)
  unfolding ancestor_ids
  ancestor_ids-closed x h =
      elim (walk-Closed (parents es) (λ y. ⊥) (olds es) (parents-Within es) (suc (length es))
        (s ∷ []) (s ∷ []) (omega (arith, unseen-olds-le es (s ∷ []))) (λ y k. inr (inl k)) x h) [
          | inl bad ↦ absurd bad
          | inr done ↦ done
        ]

  ancestor_ids_complete : {x : ℕ} → Reaches (parents es) s x → contains x (ancestor_ids es s) ≡ true
  ancestor_ids_complete start = ancestor_ids_start
  ancestor_ids_complete (onward {x = w} {y = z} r k m) =
      ancestor_ids-closed w (ancestor_ids_complete r) z k m

  abbrev descendants : List ℕ
  descendants = walk (children es) (suc (length es)) (s ∷ []) (ancestor_ids es s)

  abbrev IsProperAncestor : ℕ → Type 0
  IsProperAncestor x = (contains x (ancestor_ids es s) ≡ true) × (x ≢ s)

  descendants-closed :
      (x : ℕ)
      → contains x descendants ≡ true
      → IsProperAncestor x ⊎ Includes (children es x) descendants
  descendants-closed =
      walk-Closed (children es) IsProperAncestor (news es) (children-Within es) (suc (length es))
        (s ∷ []) (ancestor_ids es s) (omega (arith, unseen-news-le es (ancestor_ids es s)))
        (λ y k. elim (Bool-cases (y == s)) [
          | inl same ↦ inr (inl (ground arith))
          | inr other ↦ inl (k, ground arith)
        ])

  descendants_complete :
      IsAcyclic es → s ≢ 0 → {x : ℕ} → Reaches (children es) s x → contains x descendants ≡ true
  descendants_complete a n start =
      walk-keeps (children es) (suc (length es)) (s ∷ []) (ancestor_ids es s) s ancestor_ids_start
  descendants_complete a n (onward {x = w} {y = z} r k m) =
      elim (descendants-closed w (descendants_complete a n r)) [
        | inl (anc, ne) ↦ absurd (
            IsAcyclic-antisym es a r (parents-children es n (ancestor_ids-sound w anc))
              (λ e. ne (sym e)))
        | inr done ↦ done z k m
      ]

module _ (es : List Edge) (s : ℕ) where
  abbrev IsRelated : ℕ → Type 0
  IsRelated x = Reaches (parents es) s x ⊎ Reaches (children es) s x

  descendants-IsRelated : (x : ℕ) → contains x (descendants es s) ≡ true → IsRelated x
  descendants-IsRelated x h =
      All-of_contains IsRelated (descendants es s) x
        (walk-All (children es) (Reaches (children es) s) IsRelated (λ y r. inr r)
          (reach_step (children es) s) (suc (length es)) (s ∷ []) (ancestor_ids es s) (start, tt)
          (All-of_All (ancestor_ids es s) (λ y k. inl (ancestor_ids-sound es s y k))))
        h

  ancestor_ids-IsDistinct : IsDistinct (ancestor_ids es s)
  unfolding ancestor_ids
  ancestor_ids-IsDistinct =
      walk-IsDistinct (parents es) (suc (length es)) (s ∷ []) (s ∷ []) (refl, tt)

-- For any rows and a session that is not empty: each session listed is reached from the asked
-- one, by parents or by children; every ancestor is listed, also if there are cycles; and none
-- is listed twice.
pub lineage_session_ids_sound :
    (es : List Edge) (s : ℕ)
    → s ≢ 0
    → ((x : ℕ)
        → contains x (lineage_session_ids es s) ≡ true
        → Reaches (parents es) s x ⊎ Reaches (children es) s x)
      × ((x : ℕ) → Reaches (parents es) s x → contains x (lineage_session_ids es s) ≡ true)
      × IsDistinct (lineage_session_ids es s)
unfolding lineage_session_ids
lineage_session_ids_sound es s n =
    let e : (s == 0) ≡ false = ground arith in
    rw e (
      descendants-IsRelated es s,
      λ x r.
          walk-keeps (children es) (suc (length es)) (s ∷ []) (ancestor_ids es s) x
            (ancestor_ids_complete es s r),
      walk-IsDistinct (children es) (suc (length es)) (s ∷ []) (ancestor_ids es s)
          (ancestor_ids-IsDistinct es s),
    )

-- If the rows are acyclic, every ancestor and every descendant of a session that is not empty is
-- listed.
pub lineage_session_ids_complete :
    (es : List Edge) (s x : ℕ)
    → s ≢ 0
    → IsAcyclic es
    → Reaches (parents es) s x ⊎ Reaches (children es) s x
    → contains x (lineage_session_ids es s) ≡ true
unfolding lineage_session_ids
lineage_session_ids_complete es s x n a r =
    let e : (s == 0) ≡ false = ground arith in
    rw e (elim r [
      | inl up ↦
          walk-keeps (children es) (suc (length es)) (s ∷ []) (ancestor_ids es s) x
            (ancestor_ids_complete es s up)
      | inr down ↦ descendants_complete es s a n down
    ])

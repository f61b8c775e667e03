-- ===== src/Lineage/Walk/Closed.antt =====
-- What the walk leaves out: with enough fuel, everything it lists has its rows listed, but for the
-- identifiers that were listed before it began.
use mneme_universal_context.Prelude.{
  ℕ, zero, suc, ◌+◌, ◌≤◌, ◌<◌, ◌≡◌, ◌≢◌, ◌⊎◌, inl, inr, refl, sym, true, false, not, ◌&&◌, List, [],
  ◌∷◌, ◌++◌, arith, ◌==◌, if◌then◌else◌, Bool-cases, length, length-append, contains,
}
use mathlib.Core.Path.{subst}
use mneme_universal_context.Prelude.{contains-append}
use mneme_universal_context.Lineage.Walk.{
  visit, visit-new, visit-old, visit-nil, visit_frontier, walk,
}

abbrev pub Includes : List ℕ → List ℕ → Type 0
Includes xs ys = (a : ℕ) → contains a xs ≡ true → a ≢ 0 → contains a ys ≡ true

abbrev pub Within : List ℕ → List ℕ → Type 0
Within xs ys = (a : ℕ) → contains a xs ≡ true → contains a ys ≡ true

-- How many entries of a list are not listed.
abbrev pub unseen : List ℕ → List ℕ → ℕ
unseen [] ordered = 0
unseen (v ∷ vs) ordered = (if contains v ordered then 0 else 1) + unseen vs ordered

unseen-snoc-le : (vs ordered : List ℕ) (a : ℕ) → unseen vs (ordered ++ a ∷ []) ≤ unseen vs ordered
unseen-snoc-le [] ordered a = omega arith
unseen-snoc-le (v ∷ vs) ordered a =
    ground (arith, unseen-snoc-le vs ordered a, contains-append v ordered (a ∷ []))

unseen-snoc-lt :
    (vs ordered : List ℕ) (a : ℕ)
    → contains a vs ≡ true
    → contains a ordered ≡ false
    → unseen vs (ordered ++ a ∷ []) < unseen vs ordered
unseen-snoc-lt [] ordered a h k = cc
unseen-snoc-lt (v ∷ vs) ordered a h k = ground (
  arith,
  unseen-snoc-le vs ordered a,
  unseen-snoc-lt vs ordered a,
  contains-append v ordered (a ∷ []),
  contains-append a ordered (a ∷ []),
)

module _ (rows : ℕ → List ℕ) (vs : List ℕ) (rows-Within : (c : ℕ) → Within (rows c) vs) where
  visit_measure :
      (bs ordered next : List ℕ)
      → Within bs vs
      → let (o, n) = visit rows bs ordered next in
        length n + unseen vs o ≤ length next + unseen vs ordered
  visit_measure [] ordered next w = rw (visit-nil rows ordered next) (omega arith)
  visit_measure (a ∷ bs) ordered next w =
      let w' : Within bs vs = λ x h. w x (ground arith) in
      elim (Bool-cases (not (a == 0) && not (contains a ordered))) [
        | inl new ↦ rw (visit-new rows a bs ordered next new) (
            omega (
              arith,
              visit_measure bs (ordered ++ a ∷ []) (next ++ a ∷ []) w',
              length-append next (a ∷ []),
              unseen-snoc-lt vs ordered a (w a (ground arith)) (ground arith),
            ))
        | inr old ↦ rw (visit-old rows a bs ordered next old) (visit_measure bs ordered next w')
      ]

  visit_frontier_measure :
      (cs ordered next : List ℕ)
      → let (o, n) = visit_frontier rows cs ordered next in
        length n + unseen vs o ≤ length next + unseen vs ordered
  visit_frontier_measure [] ordered next = omega arith
  visit_frontier_measure (c ∷ cs) ordered next =
      let (o, n) = visit rows (rows c) ordered next in
      omega
        (arith, visit_measure (rows c) ordered next (rows-Within c), visit_frontier_measure cs o n)

nil_of_length : (xs : List ℕ) → length xs ≡ 0 → xs ≡ []
nil_of_length [] h = refl
nil_of_length (x ∷ xs) h = absurd (omega arith)

module _ (rows : ℕ → List ℕ) where
  visit-keeps :
      (bs ordered next : List ℕ)
      → Within ordered (visit rows bs ordered next).0 × Within next (visit rows bs ordered next).1
  visit-keeps [] ordered next = rw (visit-nil rows ordered next) (λ a h. h, λ a h. h)
  visit-keeps (a ∷ bs) ordered next = elim (Bool-cases (not (a == 0) && not (contains a ordered))) [
    | inl new ↦
        let ih = visit-keeps bs (ordered ++ a ∷ []) (next ++ a ∷ []) in
        rw (visit-new rows a bs ordered next new) (
          λ x h. ih.0 x (ground (arith, contains-append x ordered (a ∷ []))),
          λ x h. ih.1 x (ground (arith, contains-append x next (a ∷ []))),
        )
    | inr old ↦ rw (visit-old rows a bs ordered next old) (visit-keeps bs ordered next)
  ]

  -- All rows but the empty one are listed.
  visit-Includes : (bs ordered next : List ℕ) → Includes bs (visit rows bs ordered next).0
  visit-Includes [] ordered next = λ a h z. cc
  visit-Includes (a ∷ bs) ordered next = λ x h z.
      elim (Bool-cases (not (a == 0) && not (contains a ordered))) [
        | inl new ↦ rw (visit-new rows a bs ordered next new) (elim (Bool-cases (x == a)) [
          | inl same ↦
              (visit-keeps bs (ordered ++ a ∷ []) (next ++ a ∷ [])).0 x
                (ground (arith, contains-append x ordered (a ∷ [])))
          | inr other ↦ visit-Includes bs (ordered ++ a ∷ []) (next ++ a ∷ []) x (ground arith) z
        ])
        | inr old ↦ rw (visit-old rows a bs ordered next old) (elim (Bool-cases (x == a)) [
          | inl same ↦
              let e : x ≡ a = ground arith in
              (visit-keeps bs ordered next).0 x (rw e (ground arith))
          | inr other ↦ visit-Includes bs ordered next x (ground arith) z
        ])
      ]

  -- What is listed was listed before or is in the next frontier.
  visit_origin :
      (bs ordered next : List ℕ) (x : ℕ)
      → let (o, n) = visit rows bs ordered next in
        contains x o ≡ true → (contains x ordered ≡ true) ⊎ (contains x n ≡ true)
  visit_origin [] ordered next x = rw (visit-nil rows ordered next) (λ h. inl h)
  visit_origin (a ∷ bs) ordered next x =
      elim (Bool-cases (not (a == 0) && not (contains a ordered))) [
        | inl new ↦ rw (visit-new rows a bs ordered next new) (λ h.
            elim (visit_origin bs (ordered ++ a ∷ []) (next ++ a ∷ []) x h) [
              | inr later ↦ inr later
              | inl before ↦ elim (Bool-cases (contains x ordered)) [
                | inl was ↦ inl was
                | inr not_was ↦ inr (
                    (visit-keeps bs (ordered ++ a ∷ []) (next ++ a ∷ [])).1 x (
                      ground (
                        arith,
                        contains-append x ordered (a ∷ []),
                        contains-append x next (a ∷ []),
                      )))
              ]
            ])
        | inr old ↦ rw (visit-old rows a bs ordered next old) (visit_origin bs ordered next x)
      ]

  module _ (Base : ℕ → Type 0) where
    -- Everything listed is of the base, in the frontier, in the next one, or has its rows listed.
    abbrev pub Pending : List ℕ → List ℕ → List ℕ → Type 0
    Pending cs ordered next =
        (x : ℕ)
        → contains x ordered ≡ true
        → Base x ⊎ (contains x cs ≡ true) ⊎ (contains x next ≡ true) ⊎ Includes (rows x) ordered

    visit-Pending :
        (c : ℕ) (cs ordered next : List ℕ)
        → Pending (c ∷ cs) ordered next
        → let (o, n) = visit rows (rows c) ordered next in Pending cs o n
    visit-Pending c cs ordered next p x h = elim (visit_origin (rows c) ordered next x h) [
      | inr later ↦ inr (inr (inl later))
      | inl before ↦ elim (p x before) [
        | inl base ↦ inl base
        | inr (inr (inl queued)) ↦ inr (inr (inl ((visit-keeps (rows c) ordered next).1 x queued)))
        | inr (inr (inr done)) ↦
            inr (inr (inr (λ a k z. (visit-keeps (rows c) ordered next).0 a (done a k z))))
        | inr (inl here) ↦ elim (Bool-cases (x == c)) [
          | inl same ↦
              let e : x ≡ c = ground arith in
              inr (inr (inr (rw e (visit-Includes (rows c) ordered next))))
          | inr other ↦ inr (inl (ground arith))
        ]
      ]
    ]

    visit_frontier-Pending :
        (cs ordered next : List ℕ)
        → Pending cs ordered next
        → let (o, n) = visit_frontier rows cs ordered next in Pending [] o n
    visit_frontier-Pending [] ordered next p = p
    visit_frontier-Pending (c ∷ cs) ordered next p =
        visit_frontier-Pending cs (visit rows (rows c) ordered next).0
          (visit rows (rows c) ordered next).1 (visit-Pending c cs ordered next p)

    walk-nil : (fuel : ℕ) (ordered : List ℕ) → walk rows fuel [] ordered ≡ ordered
    unfolding walk
    walk-nil zero ordered = refl
    walk-nil (suc fuel) ordered = refl

    all_done :
        (ordered : List ℕ)
        → Pending [] ordered []
        → (x : ℕ) → contains x ordered ≡ true
        → Base x ⊎ Includes (rows x) ordered
    all_done ordered p x h = elim (p x h) [
      | inl base ↦ inl base
      | inr (inl bad) ↦ cc
      | inr (inr (inl bad)) ↦ cc
      | inr (inr (inr done)) ↦ inr done
    ]

    requeue : (ordered next : List ℕ) → Pending [] ordered next → Pending next ordered []
    requeue ordered next p x h = elim (p x h) [
      | inl base ↦ inl base
      | inr (inl bad) ↦ cc
      | inr (inr (inl queued)) ↦ inr (inl queued)
      | inr (inr (inr done)) ↦ inr (inr (inr done))
    ]

    module _ (vs : List ℕ) (rows-Within : (c : ℕ) → Within (rows c) vs) where
      -- With fuel for every identifier that is not listed, what is listed in the end is of the
      -- base or has its rows listed.
      pub walk-Closed :
          (fuel : ℕ) (frontier ordered : List ℕ)
          → unseen vs ordered < fuel
          → Pending frontier ordered []
          → (x : ℕ) → contains x (walk rows fuel frontier ordered) ≡ true
          → Base x ⊎ Includes (rows x) (walk rows fuel frontier ordered)
      unfolding walk
      walk-Closed zero frontier ordered m p x h = absurd (omega arith)
      walk-Closed (suc fuel) [] ordered m p x h = elim (p x h) [
        | inl base ↦ inl base
        | inr (inl bad) ↦ cc
        | inr (inr (inl bad)) ↦ cc
        | inr (inr (inr done)) ↦ inr done
      ]
      walk-Closed (suc fuel) (c ∷ cs) ordered m p x h =
          let o = (visit_frontier rows (c ∷ cs) ordered []).0 in
          let n = (visit_frontier rows (c ∷ cs) ordered []).1 in
          let m' = visit_frontier_measure rows vs rows-Within (c ∷ cs) ordered [] in
          let p' = visit_frontier-Pending (c ∷ cs) ordered [] p in
          elim (Bool-cases (length n == 0)) [
            | inl empty ↦
                let e : n ≡ [] = nil_of_length n (ground arith) in
                subst (λ l. Base x ⊎ Includes (rows x) (walk rows fuel l o)) (sym e)
                  (rw (walk-nil fuel o) (
                    all_done o (rw e at p') x (
                      rw (walk-nil fuel o) at
                        (subst (λ l. contains x (walk rows fuel l o) ≡ true) e h))))
            | inr more ↦ walk-Closed fuel n o (ground (arith, m')) (requeue o n p') x h
          ]

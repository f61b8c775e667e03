-- ===== src/Session/History/Goals.antt =====
-- The recent goals of a session.
use mneme_universal_context.Prelude.{
  ℕ, zero, suc, ◌-◌, ◌<◌, ◌≡◌, inl, inr, refl, sym, ap, ◌∙◌, Bool, true, false, not, ◌&&◌, List, [],
  ◌∷◌, reverse, arith, leb, ◌==◌, Bool-cases, take, filter, All, contains,
}
use mneme_universal_context.Prelude.{filter_cong}
use mneme_universal_context.Session.History.{
  Tables, is_of, goal_rows, collect_goals, get_recent_unique_goals,
}

-- The first row of each goal.
abbrev pub first_rows : List (ℕ × ℕ) → List (ℕ × ℕ)
first_rows [] = []
first_rows (row ∷ rows) = row ∷ filter (λ r. not (r.1 == row.1)) (first_rows rows)

abbrev unseen : List ℕ → ℕ × ℕ → Bool
unseen seen row = not (contains row.1 seen)

filter-filter :
    (p q : ℕ × ℕ → Bool) (xs : List (ℕ × ℕ)) → filter p (filter q xs) ≡ filter (λ x. q x && p x) xs
filter-filter p q [] = refl
filter-filter p q (x ∷ xs) = elim (Bool-cases (q x)) [
  | inl e ↦ elim (Bool-cases (p x)) [
    | inl f ↦ rw (e, f) (ap (λ l. x ∷ l) (filter-filter p q xs))
    | inr f ↦ rw (e, f) (filter-filter p q xs)
  ]
  | inr e ↦ rw e (filter-filter p q xs)
]

all_true : {P : ℕ × ℕ → Type 0} → ((x : ℕ × ℕ) → P x) → (xs : List (ℕ × ℕ)) → All P xs
all_true f [] = tt
all_true f (x ∷ xs) = (f x, all_true f xs)

-- A goal that is seen need not be left out twice.
seen_once :
    (k : ℕ) (seen : List ℕ) (rows : List (ℕ × ℕ))
    → contains k seen ≡ true
    → filter (unseen seen) (filter (λ r. not (r.1 == k)) rows) ≡ filter (unseen seen) rows
seen_once k seen rows h =
    filter-filter (unseen seen) (λ r. not (r.1 == k)) rows
    ∙ filter_cong _ _ rows (
        all_true
          (λ r. elim (Bool-cases (r.1 == k)) [
            | inl e ↦ let same : r.1 ≡ k = ground arith in rw (same, h) (ground arith)
            | inr e ↦ rw e refl
          ])
          rows)

seen_more :
    (k : ℕ) (seen : List ℕ) (rows : List (ℕ × ℕ))
    → filter (unseen seen) (filter (λ r. not (r.1 == k)) rows) ≡ filter (unseen (k ∷ seen)) rows
seen_more k seen rows =
    filter-filter (unseen seen) (λ r. not (r.1 == k)) rows
    ∙ filter_cong _ _ rows (
        all_true (λ r. elim (Bool-cases (r.1 == k)) [ inl e ↦ rw e refl | inr e ↦ rw e refl ]) rows)

collect_goals_lem :
    (n : ℕ) (seen : List ℕ) (rows : List (ℕ × ℕ))
    → 0 < n
    → collect_goals n seen rows ≡ take n (filter (unseen seen) (first_rows rows))
collect_goals_lem zero seen rows h = absurd (omega (arith, h))
collect_goals_lem (suc n) seen [] h = refl
collect_goals_lem (suc n) seen (row ∷ rows) h = elim (Bool-cases (contains row.1 seen)) [
  | inl old ↦ rw old (
      collect_goals_lem (suc n) seen rows h
      ∙ ap (λ l. take (suc n) l) (sym (seen_once row.1 seen (first_rows rows) old)))
  | inr new ↦
      let one_less : suc n - 1 ≡ n = omega arith in
      elim (Bool-cases (leb (suc n) 1)) [
        | inl last ↦ let none_left : n ≡ 0 = ground arith in rw (new, last, none_left) refl
        | inr more ↦
            rw (new, more, one_less)
              (ap (λ l. row ∷ l)
                (collect_goals_lem n (row.1 ∷ seen) rows (ground arith)
                  ∙ ap (λ l. take n l) (sym (seen_more row.1 seen (first_rows rows)))))
      ]
]

all_unseen : (rows : List (ℕ × ℕ)) → filter (unseen []) rows ≡ rows
all_unseen [] = refl
all_unseen (row ∷ rows) = ap (λ l. row ∷ l) (all_unseen rows)

-- The recent goals are the latest occurrences of the session's goals that are not empty, of each
-- goal one, at most as many as the limit says, those that are latest, the oldest of them first.
pub get_recent_unique_goals_lem :
    (session limit : ℕ) (t : Tables)
    → get_recent_unique_goals session limit t
      ≡ reverse (take limit (first_rows (goal_rows (filter (is_of session) t.state_history))))
unfolding get_recent_unique_goals
get_recent_unique_goals_lem session zero t = refl
get_recent_unique_goals_lem session (suc limit) t =
    let rows = goal_rows (filter (is_of session) t.state_history) in
    let positive : (suc limit == 0) ≡ false = ground arith in
    rw positive (
      ap reverse (
        collect_goals_lem (suc limit) [] rows (omega arith)
        ∙ ap (λ l. take (suc limit) l) (all_unseen (first_rows rows))))

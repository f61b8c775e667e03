-- ===== src/Budget/Tail/Kept.antt =====
-- What `protected_tail_messages` keeps beside the latest message of the user.
use mneme_universal_context.Prelude.{
  ℕ, zero, suc, ◌+◌, ◌-◌, ◌≤◌, ◌<◌, ◌≡◌, ◌≢◌, inl, inr, refl, ap, ◌∙◌, Bool, true, false, ◌&&◌,
  ◌||◌, some, List, [], ◌∷◌, ◌++◌, arith, leb, ◌==◌, if◌then◌else◌, Bool-cases, Option-cases,
  length, get_elem?, contains,
}
use mneme_universal_context.Budget.Tail.{
  Message, Role, user, system, is_user, is_user_at, is_system, tokens_at, select_indices,
  at_indices, candidates, preserved_index, system_messages, latest_below, latest_user_message_index,
  protected_tail_messages, kept_messages,
}
use mneme_universal_context.Budget.Tail.Selected.{
  IsSelection, select_indices-IsSelection, tokens_between,
}

-- The messages at the indices, counted from `i`, that pass a test.
abbrev pub at_test : (ℕ → Bool) → ℕ → List Message → List Message
at_test f i [] = []
at_test f i (m ∷ ms) = let rest = at_test f (suc i) ms in if f i then m ∷ rest else rest

at_indices-eq-at_test :
    (selected : List ℕ) (f : ℕ → Bool) (i n : ℕ) (ms : List Message)
    → n ≡ i + length ms
    → ((j : ℕ) → j < n → contains j selected ≡ f j)
    → at_indices selected i ms ≡ at_test f i ms
at_indices-eq-at_test selected f i n [] e h = refl
at_indices-eq-at_test selected f i n (m ∷ ms) e h =
    rw (h i (omega arith), at_indices-eq-at_test selected f (suc i) n ms (omega arith) h)

-- The message stands in the list.
abbrev pub Holds : Message → List Message → Type 0
Holds m ms = (before : List Message) × (after : List Message) × (ms ≡ before ++ m ∷ after)

Holds-cons : (m x : Message) (ms : List Message) → Holds m ms → Holds m (x ∷ ms)
Holds-cons m x ms (b, a, e) = (x ∷ b, a, ap (λ l. x ∷ l) e)

Holds-append : (m : Message) (xs ms : List Message) → Holds m ms → Holds m (xs ++ ms)
Holds-append m [] ms h = h
Holds-append m (x ∷ xs) ms h = Holds-cons m x (xs ++ ms) (Holds-append m xs ms h)

at_test-Holds :
    (f : ℕ → Bool) (i k : ℕ) (ms : List Message) (m : Message)
    → get_elem? ms k ≡ some m
    → f (i + k) ≡ true
    → Holds m (at_test f i ms)
at_test-Holds f i k [] m e h = cc
at_test-Holds f i zero (x ∷ ms) m e h =
    let h' : f i ≡ true = (let z : i + 0 ≡ i = omega arith in rw z at h) in
    rw h' ([], at_test f (suc i) ms, ground arith)
at_test-Holds f i (suc k) (x ∷ ms) m e h =
    let z : i + suc k ≡ suc i + k = omega arith in
    let ih : Holds m (at_test f (suc i) ms) = at_test-Holds f (suc i) k ms m e (rw z at h) in
    elim (Bool-cases (f i)) [
      | inl taken ↦ rw taken (Holds-cons m x (at_test f (suc i) ms) ih)
      | inr left ↦ rw left ih
    ]

-- With a preserved candidate at index `p`, the kept messages are those from some `cut` on and
-- the preserved one; `used` is the tokens of the former, within the budget; and the message
-- before the cut, which is not the preserved one, would exceed the budget.
pub kept_messages_preserved :
    (budget p : ℕ) (cs : List Message)
    → let (kept, used) = kept_messages budget cs (some p) in
      (cut : ℕ) × (kept ≡ at_test (λ i. i == p || leb cut i) 0 cs)
      × (used ≡ tokens_between cs p cut (length cs - cut))
      × (used ≤ budget)
      × ((k : ℕ) → cut ≡ suc k → (k ≢ p) × (budget < used + tokens_at cs k))
unfolding kept_messages
kept_messages_preserved budget p cs =
    let out = select_indices cs budget p (length cs) (p ∷ []) 0 in
    let t : IsSelection cs budget p (length cs) (p ∷ []) 0 out =
      select_indices-IsSelection cs budget p (length cs) (p ∷ []) 0 in
    (
      t.cut,
      at_indices-eq-at_test out.0 (λ i. i == p || leb t.cut i) 0 (length cs) cs (omega arith)
          (λ j h. t.taken j ∙ ground arith),
      omega (arith, t.counts),
      t.within (omega arith),
      t.full,
    )

latest_below_lem :
    (ms : List Message) (n i : ℕ)
    → latest_below ms n ≡ some i
    → (i < n) × (is_user_at ms i ≡ true) × ((j : ℕ) → i < j → j < n → is_user_at ms j ≡ false)
unfolding latest_below
latest_below_lem ms zero i e = cc
latest_below_lem ms (suc n) i e = elim (Bool-cases (is_user_at ms n)) [
  | inl here ↦
      let e' : n ≡ i = ground arith in (omega arith, rw (← e') here, λ j h k. absurd (omega arith))
  | inr there ↦
      let r = latest_below_lem ms n i (ground arith) in
      (
        omega (arith, r.0),
        r.1,
        λ j h k. elim (Bool-cases (j == n)) [
          | inl same ↦ let e' : j ≡ n = ground arith in rw e' there
          | inr other ↦ r.2 j h (ground arith)
        ],
      )
]

user_at :
    (ms : List Message) (i : ℕ)
    → is_user_at ms i ≡ true
    → (m : Message) × (get_elem? ms i ≡ some m) × (is_user m.role ≡ true)
user_at ms i h = elim (Option-cases (get_elem? ms i)) [
  | inl e ↦ absurd (ground arith)
  | inr (m, e) ↦ (m, e, ground arith)
]

user_not_system : (r : Role) → is_user r ≡ true → is_system r ≡ false
user_not_system user h = refl
user_not_system system h = cc
user_not_system Role.developer h = cc
user_not_system Role.assistant h = cc
user_not_system Role.tool h = cc

and_right : (a b : Bool) → (a && b) ≡ true → b ≡ true
and_right a b h = ground arith

-- The latest message of the user, at the index `i`, is at `preserved_index` among the candidates.
preserved_index-latest :
    (preserve : Bool) (ms : List Message) (i : ℕ) (m : Message)
    → get_elem? ms i ≡ some m
    → is_user m.role ≡ true
    → i < length ms
    → (p : ℕ) × (preserved_index preserve ms (some i) ≡ some p)
      × (get_elem? (candidates preserve ms) p ≡ some m)
preserved_index-latest preserve [] i m e u lt = cc
preserved_index-latest preserve (x ∷ ms) zero m e u lt =
    elim (Bool-cases (preserve && is_system x.role)) [
      | inl prompt ↦
          let v : m.role ≡ x.role = ground arith in
          cc (user_not_system x.role (rw v at u), and_right preserve (is_system x.role) prompt)
      | inr none_set ↦ (0, rw none_set (ground arith), rw none_set e)
    ]
preserved_index-latest preserve (x ∷ ms) (suc i) m e u lt =
    elim (Bool-cases (preserve && is_system x.role)) [
      | inl prompt ↦ (i, rw prompt (ground arith), rw prompt e)
      | inr none_set ↦ (suc i, rw none_set (ground arith), rw none_set e)
    ]

test_self : (p cut : ℕ) → (0 + p == p || leb cut (0 + p)) ≡ true
test_self p cut = ground arith

-- If the user sent a message, then the latest such message is a candidate, at `p`, and is in the
-- protected tail whatever the budget is. The tail is the system messages, that message and the
-- candidates from some `cut` on; the tokens counted are those of the latter without the message of
-- the user, and are within the budget, which the candidate before the cut would exceed.
pub latest_user_message_protected :
    (ms : List Message) (budget : ℕ) (preserve : Bool) (i : ℕ)
    → latest_user_message_index ms ≡ some i
    → let (kept, used) = protected_tail_messages ms budget preserve (some i) in
      (m : Message) × (get_elem? ms i ≡ some m)
      × (is_user m.role ≡ true)
      × ((j : ℕ) → i < j → j < length ms → is_user_at ms j ≡ false)
      × Holds m kept
      × ((p : ℕ) × (cut : ℕ) × (get_elem? (candidates preserve ms) p ≡ some m)
          × (kept
              ≡ system_messages preserve ms
                ++ at_test (λ j. j == p || leb cut j) 0 (candidates preserve ms))
          × (used
              ≡ tokens_between
                  (candidates preserve ms)
                  p
                  cut
                  (length (candidates preserve ms) - cut))
          × (used ≤ budget)
          × ((k : ℕ)
              → cut ≡ suc k
              → (k ≢ p) × (budget < used + tokens_at (candidates preserve ms) k)))
unfolding latest_user_message_index protected_tail_messages
latest_user_message_protected ms budget preserve i e =
    let found = latest_below_lem ms (length ms) i e in
    let (m, at, u) = user_at ms i found.1 in
    let (p, index, at') = preserved_index-latest preserve ms i m at u found.0 in
    let k = kept_messages_preserved budget p (candidates preserve ms) in
    let holds : Holds m (at_test (λ j. j == p || leb k.0 j) 0 (candidates preserve ms)) =
      at_test-Holds (λ j. j == p || leb k.0 j) 0 p (candidates preserve ms) m at'
        (test_self p k.0) in
    rw index (
      m,
      at,
      u,
      found.2,
      Holds-append m (system_messages preserve ms) _ (rw k.1 holds),
      (p, k.0, at', ap (λ l. system_messages preserve ms ++ l) k.1, k.2, k.3, k.4),
    )

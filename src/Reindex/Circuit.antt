-- ===== src/Reindex/Circuit.antt =====
-- The circuit of the reindex jobs' provider: `reindex_provider_circuit_allows_call` and
-- `record_reindex_provider_outcome` of mneme_service/app.py. The comparison of the failure ratio
-- with the setting, on floating-point numbers, is an argument; the clock is read in ticks.
use mneme_universal_context.Prelude.{
  ℕ, zero, suc, ◌+◌, ◌-◌, ◌≤◌, max, ◌≡◌, refl, sym, ap, ◌∙◌, Bool, true, false, not, ◌&&◌, List, [],
  ◌∷◌, ◌++◌, arith, ltb, leb, ◌==◌, if◌then◌else◌, length, drop, filter, last_n, length-append,
  length-drop,
}
use mathlib.Core.List.{append_assoc, append-nil}

pub record Settings : Type 0 where
  pub min_calls : ℕ
  pub open_ticks : ℕ
  -- whether so many failures of so many outcomes reach the ratio
  pub reaches_ratio : ℕ → ℕ → Bool

pub record ProviderCircuit : Type 0 where
  pub open_until : ℕ
  pub recent_outcomes : List Bool

abbrev pub closed_circuit : ProviderCircuit
closed_circuit = record { open_until = 0; recent_outcomes = [] }

unfoldable pub allows_call : ℕ → ProviderCircuit → Bool × ProviderCircuit
allows_call now c =
    if c.open_until == 0
    then (true, c)
    else if leb c.open_until now
    then (true, closed_circuit)
    else (false, c)

abbrev pub max_window : Settings → ℕ
max_window s = max 1 s.min_calls

abbrev pub failures : List Bool → ℕ
failures outcomes = length (filter not outcomes)

unfoldable pub record_outcome : Settings → Bool → ℕ → ProviderCircuit → ProviderCircuit
record_outcome s success now c =
    let recent = last_n (max_window s) (c.recent_outcomes ++ success ∷ []) in
    if ltb (length recent) (max_window s)
    then record c { recent_outcomes = recent }
    else if s.reaches_ratio (failures recent) (length recent)
    then record { open_until = now + s.open_ticks; recent_outcomes = recent }
    else record c { recent_outcomes = recent }

-- Outcomes, each with the reading of the clock.
unfoldable pub record_outcomes : Settings → List (Bool × ℕ) → ProviderCircuit → ProviderCircuit
unfolding record_outcome
record_outcomes s [] c = c
record_outcomes s ((success, now) ∷ rest) c =
    record_outcomes s rest (record_outcome s success now c)

abbrev pub successes : List (Bool × ℕ) → List Bool
successes [] = []
successes ((b, now) ∷ rest) = b ∷ successes rest

drop-append : (k : ℕ) (xs ys : List Bool) → k ≤ length xs → drop k (xs ++ ys) ≡ drop k xs ++ ys
drop-append zero xs ys h = refl
drop-append (suc k) [] ys h = absurd (omega arith)
drop-append (suc k) (x ∷ xs) ys h = drop-append k xs ys (omega arith)

drop_nil : (n : ℕ) → drop {A = Bool} n [] ≡ []
drop_nil zero = refl
drop_nil (suc n) = refl

drop-drop : (j k : ℕ) (xs : List Bool) → drop j (drop k xs) ≡ drop (k + j) xs
drop-drop j zero xs = let e : 0 + j ≡ j = omega arith in rw e refl
drop-drop zero (suc k) [] = let e : suc k + 0 ≡ suc k = omega arith in rw e refl
drop-drop (suc j) (suc k) [] = let e : suc k + suc j ≡ suc (k + suc j) = omega arith in rw e refl
drop-drop j (suc k) (x ∷ xs) =
    let e : suc k + j ≡ suc (k + j) = omega arith in rw e (drop-drop j k xs)

-- Only the last entries matter for the last entries after one more.
last_n-last_n :
    (w : ℕ) (xs : List Bool) (b : Bool) → last_n w (last_n w xs ++ b ∷ []) ≡ last_n w (xs ++ b ∷ [])
last_n-last_n w xs b =
    let k = length xs - w in
    let moved : drop k (xs ++ b ∷ []) ≡ last_n w xs ++ b ∷ [] =
      drop-append k xs (b ∷ []) (omega arith) in
    let e : k + (length (last_n w xs ++ b ∷ []) - w) ≡ length (xs ++ b ∷ []) - w =
      omega (
        arith,
        length-append (last_n w xs) (b ∷ []),
        length-append xs (b ∷ []),
        length-drop k xs,
      ) in
    ap (λ l. drop (length (last_n w xs ++ b ∷ []) - w) l) (sym moved)
    ∙ drop-drop (length (last_n w xs ++ b ∷ []) - w) k (xs ++ b ∷ [])
    ∙ ap (λ n. drop n (xs ++ b ∷ [])) e

recent-if :
    (p q : Bool) (a b c : ProviderCircuit) (r : List Bool)
    → a.recent_outcomes ≡ r
    → b.recent_outcomes ≡ r
    → c.recent_outcomes ≡ r
    → (if p then a else if q then b else c).recent_outcomes ≡ r
recent-if true q a b c r h k m = h
recent-if false true a b c r h k m = k
recent-if false false a b c r h k m = m

open-if :
    (p q : Bool) (a b c : ProviderCircuit)
    → c.open_until ≡ a.open_until
    → (if p then a else if q then b else c).open_until
      ≡ (if not p && q then b.open_until else a.open_until)
open-if true q a b c h = refl
open-if false true a b c h = refl
open-if false false a b c h = h

abbrev window : Settings → List Bool → List Bool
window s outcomes = last_n (max_window s) outcomes

record_outcome-recent :
    (s : Settings) (b : Bool) (now : ℕ) (c : ProviderCircuit)
    → (record_outcome s b now c).recent_outcomes ≡ window s (c.recent_outcomes ++ b ∷ [])
unfolding record_outcome
record_outcome-recent s b now c =
    let recent = window s (c.recent_outcomes ++ b ∷ []) in
    recent-if (ltb (length recent) (max_window s))
      (s.reaches_ratio (failures recent) (length recent)) _ _ _ recent refl refl refl

record_outcomes-recent :
    (s : Settings) (os : List (Bool × ℕ)) (c : ProviderCircuit) (before : List Bool)
    → c.recent_outcomes ≡ window s before
    → (record_outcomes s os c).recent_outcomes ≡ window s (before ++ successes os)
unfolding record_outcomes
record_outcomes-recent s [] c before h = h ∙ ap (λ l. window s l) (sym (append-nil before))
record_outcomes-recent s ((b, now) ∷ os) c before h =
    record_outcomes-recent s os (record_outcome s b now c) (before ++ b ∷ []) (
      record_outcome-recent s b now c
      ∙ ap (λ l. window s (l ++ b ∷ [])) h
      ∙ last_n-last_n (max_window s) before b)
    ∙ ap (λ l. window s l) (append_assoc before (b ∷ []) (successes os))

-- Until when a circuit is open after an outcome with these last ones.
abbrev opens : Settings → List Bool → ℕ → ProviderCircuit → ℕ
opens s judged now c =
    if not (ltb (length judged) (max_window s)) && s.reaches_ratio (failures judged) (length judged)
    then now + s.open_ticks
    else c.open_until

opened :
    (s : Settings) (b : Bool) (now : ℕ) (c : ProviderCircuit)
    → (record_outcome s b now c).open_until ≡ opens s (window s (c.recent_outcomes ++ b ∷ [])) now c
unfolding record_outcome
opened s b now c =
    let recent = window s (c.recent_outcomes ++ b ∷ []) in
    open-if (ltb (length recent) (max_window s)) (s.reaches_ratio (failures recent) (length recent))
      _ _ _ refl

-- After any outcomes, recorded from a closed circuit, the next one is judged by the last
-- `min_calls` outcomes, itself included: the circuit is opened by it exactly if there are so many
-- and their failures reach the ratio, until its clock reading plus the setting; else the time
-- until which it is open stays.
pub record_outcome_window :
    (s : Settings) (os : List (Bool × ℕ)) (b : Bool) (now : ℕ)
    → let c = record_outcomes s os closed_circuit in
      let c' = record_outcome s b now c in
      let judged = last_n (max 1 s.min_calls) (successes os ++ b ∷ []) in
      (c'.recent_outcomes ≡ judged)
      × (c'.open_until ≡ (
          if not (ltb (length judged) (max 1 s.min_calls))
            && s.reaches_ratio (failures judged) (length judged)
          then now + s.open_ticks
          else c.open_until))
record_outcome_window s os b now =
    let c = record_outcomes s os closed_circuit in
    let same : window s (c.recent_outcomes ++ b ∷ []) ≡ window s (successes os ++ b ∷ []) =
      ap (λ l. window s (l ++ b ∷ []))
        (record_outcomes-recent s os closed_circuit [] (sym (drop_nil (0 - max_window s))))
      ∙ last_n-last_n (max_window s) (successes os) b in
    (record_outcome-recent s b now c ∙ same, opened s b now c ∙ ap (λ l. opens s l now c) same)

-- ===== src/Session/History/Recovery.antt =====
-- The latest row of a session's history has the goal, the step and the intent of its state.
use mneme_universal_context.Prelude.{
  ℕ, suc, ◌-◌, ◌≡◌, inl, inr, refl, sym, ap, ◌∙◌, true, false, Option, none, some, List, [], ◌∷◌,
  ◌++◌, arith, ◌==◌, if◌then◌else◌, Bool-cases, length, filter, last_n,
}
use mathlib.Core.Path.{subst}
use mathlib.Core.List.{append-nil}
use mneme_universal_context.Session.History.{
  State, Mode, auto, HistoryRow, Tables, Patch, or_none, or_empty, same_option,
  load_execution_state, put_state, is_of, latest, previous_of, history_row, same_entry,
  commit_execution_state, update_execution_state, apply_patch, base_of, get_state_history,
  recover_execution_state_from_history,
}

-- A call of one of the two methods that write the tables.
pub data Call : Type 0 where
  commit : ℕ → ℕ → State → Call
  update : ℕ → ℕ → Mode → Patch → Call

unfoldable pub call : (State → ℕ) → Call → Tables → Tables
unfolding commit_execution_state update_execution_state
call hash (commit session now s) t = commit_execution_state hash session now s t
call hash (update session now mode p) t = (update_execution_state hash session now mode p t).0

unfoldable pub calls : (State → ℕ) → List Call → Tables → Tables
unfolding call
calls hash [] t = t
calls hash (c ∷ cs) t = calls hash cs (call hash c t)

-- The row tells what the state says.
pub record Tells (r : HistoryRow) (s : State) : Type 0 where
  pub goal : r.goal ≡ or_none s.goal
  pub current_step : r.current_step ≡ or_none s.current_step
  pub intent_label : r.intent_label ≡ s.intent_label

pub IsCurrent : Tables → Type 0
IsCurrent t =
    (session : ℕ) (s : State)
    → load_execution_state session t.execution_state ≡ some s
    → (r : HistoryRow) × (latest (filter (is_of session) t.state_history) ≡ some r) × Tells r s

pub load-put :
    (session : ℕ) (s : State) (rows : List (ℕ × State))
    → load_execution_state session (put_state session s rows) ≡ some s
load-put session s [] = let self : (session == session) ≡ true = ground arith in rw self refl
load-put session s ((k, t) ∷ rows) = elim (Bool-cases (k == session)) [
  | inl e ↦ let self : (session == session) ≡ true = ground arith in rw (e, self) refl
  | inr e ↦ rw (e, e) (load-put session s rows)
]

load-put_other :
    (j session : ℕ) (s : State) (rows : List (ℕ × State))
    → (session == j) ≡ false
    → load_execution_state j (put_state session s rows) ≡ load_execution_state j rows
load-put_other j session s [] h = rw h refl
load-put_other j session s ((k, t) ∷ rows) h = elim (Bool-cases (k == session)) [
  | inl e ↦ let other : (k == j) ≡ false = ground arith in rw (e, h, other) refl
  | inr e ↦ elim (Bool-cases (k == j)) [
    | inl f ↦ rw (e, f) refl
    | inr f ↦ rw (e, f) (load-put_other j session s rows h)
  ]
]

latest-snoc : (rows : List HistoryRow) (r : HistoryRow) → latest (rows ++ r ∷ []) ≡ some r
latest-snoc [] r = refl
latest-snoc (q ∷ []) r = refl
latest-snoc (q ∷ p ∷ rows) r = latest-snoc (p ∷ rows) r

filter-snoc :
    (session : ℕ) (rows : List HistoryRow) (r : HistoryRow)
    → filter (is_of session) (rows ++ r ∷ [])
      ≡ filter (is_of session) rows ++ (if is_of session r then r ∷ [] else [])
filter-snoc session [] r = refl
filter-snoc session (q ∷ rows) r = elim (Bool-cases (is_of session q)) [
  | inl e ↦ rw e (ap (λ l. q ∷ l) (filter-snoc session rows r))
  | inr e ↦ rw e (filter-snoc session rows r)
]

same_option_eq : (a b : Option ℕ) → same_option a b ≡ true → a ≡ b
same_option_eq none none h = refl
same_option_eq none (some k) h = cc
same_option_eq (some j) none h = cc
same_option_eq (some j) (some k) h = ap some (ground arith)

-- Where no row is written, the latest tells the same.
same_entry-Tells :
    (o : Option HistoryRow) (entry : HistoryRow) (s : State)
    → same_entry o entry ≡ true
    → Tells entry s
    → (r : HistoryRow) × (o ≡ some r) × Tells r s
same_entry-Tells none entry s h tells = cc
same_entry-Tells (some r) entry s h tells = (
  r,
  refl,
  record {
    goal = same_option_eq r.goal entry.goal (ground arith) ∙ tells.goal;
    current_step =
        same_option_eq r.current_step entry.current_step (ground arith) ∙ tells.current_step;
    intent_label =
        same_option_eq r.intent_label entry.intent_label (ground arith) ∙ tells.intent_label;
  },
)

history_row-Tells :
    (session now : ℕ) (mode : Mode) (ds : List ℕ) (previous s : State) (hash : State → ℕ)
    → Tells (history_row session now mode ds previous s hash) s
unfolding history_row
history_row-Tells session now mode ds previous s hash = record {
  goal = refl;
  current_step = refl;
  intent_label = refl;
}

written-IsCurrent :
    (session : ℕ) (s : State) (t : Tables) (history : List HistoryRow)
    → ((r : HistoryRow) × (latest (filter (is_of session) history) ≡ some r) × Tells r s)
    → ((j : ℕ)
        → (session == j) ≡ false
        → filter (is_of j) history ≡ filter (is_of j) t.state_history)
    → IsCurrent t
    → IsCurrent (record {
      execution_state = put_state session s t.execution_state;
      state_history = history;
    })
unfolding IsCurrent
written-IsCurrent session s t history own others h j s' e = elim (Bool-cases (session == j)) [
  | inl same ↦
      let j_eq : session ≡ j = ground arith in
      let stored : load_execution_state session (put_state session s t.execution_state) ≡ some s' =
        subst (λ k. load_execution_state k (put_state session s t.execution_state) ≡ some s')
          (sym j_eq) e in
      let s_eq : s ≡ s' = cc (load-put session s t.execution_state, stored) in
      subst (λ k. (r : HistoryRow) × (latest (filter (is_of k) history) ≡ some r) × Tells r s') j_eq
        (subst
          (λ x. (r : HistoryRow) × (latest (filter (is_of session) history) ≡ some r) × Tells r x)
          s_eq own)
  | inr other ↦
      rw (others j other) (h j s' (sym (load-put_other j session s t.execution_state other) ∙ e))
]

appended-IsCurrent :
    (session : ℕ) (s : State) (t : Tables) (r : HistoryRow)
    → r.session_id ≡ session
    → Tells r s
    → IsCurrent t
    → IsCurrent (record {
      execution_state = put_state session s t.execution_state;
      state_history = t.state_history ++ r ∷ [];
    })
appended-IsCurrent session s t r own tells h =
    let mine : is_of session r ≡ true = ground (arith, own) in
    written-IsCurrent session s t (t.state_history ++ r ∷ [])
      (
        r,
        rw (filter-snoc session t.state_history r, mine)
            (latest-snoc (filter (is_of session) t.state_history) r),
        tells,
      )
      (λ j other.
        let not_its : is_of j r ≡ false = ground (arith, own) in
        rw (filter-snoc j t.state_history r, not_its)
          (append-nil (filter (is_of j) t.state_history)))
      h

call-IsCurrent :
    (hash : State → ℕ) (c : Call) (t : Tables) → IsCurrent t → IsCurrent (call hash c t)
unfolding call commit_execution_state update_execution_state history_row
call-IsCurrent hash (update session now mode p) t h =
    let previous = previous_of (load_execution_state session t.execution_state) in
    let s = apply_patch p (base_of mode previous) in
    appended-IsCurrent session s t (history_row session now mode [] previous s hash) refl
      (history_row-Tells session now mode [] previous s hash) h
call-IsCurrent hash (commit session now s) t h =
    let previous = previous_of (load_execution_state session t.execution_state) in
    let entry = history_row session now auto s.decisions previous s hash in
    elim (Bool-cases (same_entry (latest (filter (is_of session) t.state_history)) entry)) [
      | inl same ↦ rw same (
          written-IsCurrent session s t t.state_history
            (same_entry-Tells (latest (filter (is_of session) t.state_history)) entry s same
              (history_row-Tells session now auto s.decisions previous s hash))
            (λ j other. refl) h)
      | inr changed ↦ rw changed (
          appended-IsCurrent session s t entry refl
            (history_row-Tells session now auto s.decisions previous s hash) h)
    ]

abbrev pub no_rows : Tables
no_rows = record { execution_state = []; state_history = [] }

calls-IsCurrent :
    (hash : State → ℕ) (cs : List Call) (t : Tables) → IsCurrent t → IsCurrent (calls hash cs t)
unfolding calls
calls-IsCurrent hash [] t h = h
calls-IsCurrent hash (c ∷ cs) t h =
    calls-IsCurrent hash cs (call hash c t) (call-IsCurrent hash c t h)

latest-last : (rows : List HistoryRow) → latest (last_n 1 rows) ≡ latest rows
latest-last [] = refl
latest-last (r ∷ []) = refl
latest-last (r ∷ q ∷ rows) =
    let more : suc (suc (length rows)) - 1 ≡ suc (suc (length rows) - 1) = omega arith in
    rw more (latest-last (q ∷ rows))

or_empty-or_none : (k : ℕ) → or_empty (or_none k) ≡ k
or_empty-or_none k = elim (Bool-cases (k == 0)) [ inl e ↦ rw e (ground arith) | inr e ↦ rw e refl ]

-- From empty tables, whatever commits and updates of whatever sessions are made: for a session
-- with a stored state, what is recovered from its history alone has the goal, the step and the
-- intent of that state.
pub recover_execution_state-calls :
    (hash : State → ℕ) (cs : List Call) (session : ℕ) (s : State)
    → let t = calls hash cs no_rows in
      load_execution_state session t.execution_state ≡ some s
      → let r = recover_execution_state_from_history session t in
        (r.goal ≡ s.goal) × (r.current_step ≡ s.current_step) × (r.intent_label ≡ s.intent_label)
unfolding recover_execution_state_from_history get_state_history IsCurrent
recover_execution_state-calls hash cs session s e =
    let t = calls hash cs no_rows in
    let (r, found, tells) = calls-IsCurrent hash cs no_rows (λ j s' none_stored. cc) session s e in
    rw (latest-last (filter (is_of session) t.state_history), found)
      (
        ap or_empty tells.goal ∙ or_empty-or_none s.goal,
        ap or_empty tells.current_step ∙ or_empty-or_none s.current_step,
        tells.intent_label,
      )

-- ===== src/Session/History.antt =====
-- The stored execution states and their history: `commit_execution_state`,
-- `update_execution_state`, `get_state_history`, `recover_execution_state_from_history`,
-- `execution_state_or_default` and `get_recent_unique_goals` of mneme_service/storage.py, with
-- `history_entry_from_state` of mneme_service/state.py. Texts that are only compared are numbers,
-- 0 for the empty one; what no method reads of a state is one number.
pub mod Recovery
pub mod Goals
use mneme_universal_context.Prelude.{
  ℕ, zero, suc, ◌+◌, ◌-◌, ◌*◌, ◌/◌, ◌≤◌, ◌<◌, max, min, ◌≡◌, ◌≢◌, ◌↔◌, ◌⊎◌, inl, inr, refl, sym, ap,
  ◌∙◌, Bool, true, false, not, ◌&&◌, ◌||◌, Option, none, some, List, [], ◌∷◌, ◌++◌, map, reverse,
  arith, ltb, leb, ◌==◌, if◌then◌else◌, Bool-cases, Option-cases, length, get_elem?, take, drop,
  filter, any, All, last_n, length-append, length-take, length-drop, contains, count, add_new,
  IsDistinct,
}

-- `decisions` are those of `enrichment`.
pub record State : Type 0 where
  pub goal : ℕ
  pub current_step : ℕ
  pub intent_label : Option ℕ
  pub decisions : List ℕ
  pub decision_stack : List ℕ
  pub others : ℕ

pub data Mode : Type 0 where
  auto patch replace : Mode

-- A row of `state_history`, with `none` for NULL; NULL for the decisions is the empty list.
pub record HistoryRow : Type 0 where
  pub session_id : ℕ
  pub timestamp : ℕ
  pub goal : Option ℕ
  pub current_step : Option ℕ
  pub intent_label : Option ℕ
  pub decisions : List ℕ
  pub mode : Mode
  pub state_hash : ℕ
  pub previous_state_hash : ℕ

-- The rows of `execution_state` by their key, and those of `state_history` in the order of their
-- ids.
pub record Tables : Type 0 where
  pub execution_state : List (ℕ × State)
  pub state_history : List HistoryRow

-- The fields that an update gives; `enrichment` is replaced as a whole.
pub record Patch : Type 0 where
  pub goal : Option ℕ
  pub current_step : Option ℕ
  pub enrichment : Option (Option ℕ × List ℕ)
  pub decision_stack : Option (List ℕ)
  pub others : Option ℕ

abbrev pub default_state : State
default_state = record {
  goal = 0;
  current_step = 0;
  intent_label = none;
  decisions = [];
  decision_stack = [];
  others = 0;
}

-- `value or None`
abbrev pub or_none : ℕ → Option ℕ
or_none k = if k == 0 then none else some k

-- `value or ""`
abbrev pub or_empty : Option ℕ → ℕ
or_empty none = 0
or_empty (some k) = k

abbrev pub same_option : Option ℕ → Option ℕ → Bool
same_option none none = true
same_option none (some k) = false
same_option (some j) none = false
same_option (some j) (some k) = j == k

abbrev pub load_execution_state : ℕ → List (ℕ × State) → Option State
load_execution_state session [] = none
load_execution_state session ((k, s) ∷ rows) =
    if k == session then some s else load_execution_state session rows

-- INSERT OR REPLACE
abbrev pub put_state : ℕ → State → List (ℕ × State) → List (ℕ × State)
put_state session s [] = (session, s) ∷ []
put_state session s ((k, t) ∷ rows) =
    if k == session then (session, s) ∷ rows else (k, t) ∷ put_state session s rows

abbrev pub is_of : ℕ → HistoryRow → Bool
is_of session r = r.session_id == session

-- The row with the last id.
abbrev pub latest : List HistoryRow → Option HistoryRow
latest [] = none
latest (r ∷ []) = some r
latest (r ∷ q ∷ rows) = latest (q ∷ rows)

abbrev pub previous_of : Option State → State
previous_of none = default_state
previous_of (some s) = s

unfoldable pub history_row : ℕ → ℕ → Mode → List ℕ → State → State → (State → ℕ) → HistoryRow
history_row session now mode decisions previous s hash = record {
  session_id = session;
  timestamp = now;
  goal = or_none s.goal;
  current_step = or_none s.current_step;
  intent_label = s.intent_label;
  decisions = decisions;
  mode = mode;
  state_hash = hash s;
  previous_state_hash = hash previous;
}

abbrev pub same_entry : Option HistoryRow → HistoryRow → Bool
same_entry none entry = false
same_entry (some r) entry =
    same_option r.goal entry.goal
    && same_option r.current_step entry.current_step
    && same_option r.intent_label entry.intent_label

unfoldable pub commit_execution_state : (State → ℕ) → ℕ → ℕ → State → Tables → Tables
unfolding history_row
commit_execution_state hash session now s t =
    let previous = previous_of (load_execution_state session t.execution_state) in
    let entry = history_row session now auto s.decisions previous s hash in
    record {
      execution_state = put_state session s t.execution_state;
      state_history =
          if same_entry (latest (filter (is_of session) t.state_history)) entry
          then t.state_history
          else t.state_history ++ entry ∷ [];
    }

abbrev pub given {ℓ} : {A : Type ℓ} → Option A → A → A
given none a = a
given (some b) a = b

-- `state.update(state_patch)`
abbrev pub apply_patch : Patch → State → State
apply_patch p s = record {
  goal = given p.goal s.goal;
  current_step = given p.current_step s.current_step;
  intent_label = (given p.enrichment (s.intent_label, s.decisions)).0;
  decisions = (given p.enrichment (s.intent_label, s.decisions)).1;
  decision_stack = given p.decision_stack s.decision_stack;
  others = given p.others s.others;
}

abbrev pub base_of : Mode → State → State
base_of replace previous = default_state
base_of _ previous = previous

unfoldable pub update_execution_state : (State → ℕ) → ℕ → ℕ → Mode → Patch → Tables → Tables × State
unfolding history_row
update_execution_state hash session now mode p t =
    let previous = previous_of (load_execution_state session t.execution_state) in
    let s = apply_patch p (base_of mode previous) in
    (
      record {
        execution_state = put_state session s t.execution_state;
        state_history = t.state_history ++ history_row session now mode [] previous s hash ∷ [];
      },
      s,
    )

-- `ORDER BY id DESC LIMIT ?`, reversed.
unfoldable pub get_state_history : ℕ → ℕ → Tables → List HistoryRow
get_state_history session limit t = last_n limit (filter (is_of session) t.state_history)

abbrev pub is_nil : List ℕ → Bool
is_nil [] = true
is_nil (d ∷ ds) = false

abbrev pub recovered : Option HistoryRow → State
recovered none = default_state
recovered (some r) = record default_state {
  goal = or_empty r.goal;
  current_step = or_empty r.current_step;
  intent_label = r.intent_label;
  decision_stack = if is_nil r.decisions then [] else last_n 20 r.decisions;
}

unfoldable pub recover_execution_state_from_history : ℕ → Tables → State
unfolding get_state_history
recover_execution_state_from_history session t = recovered (latest (get_state_history session 1 t))

abbrev pub or_recover : Option State → State → State
or_recover none s = s
or_recover (some stored) s = stored

unfoldable pub execution_state_or_default : ℕ → Tables → State
unfolding recover_execution_state_from_history
execution_state_or_default session t =
    or_recover (load_execution_state session t.execution_state)
      (recover_execution_state_from_history session t)

-- The query of `get_recent_unique_goals`: time stamps and goals, the latest first.
abbrev pub goal_rows : List HistoryRow → List (ℕ × ℕ)
goal_rows [] = []
goal_rows (r ∷ rows) =
    let rest = goal_rows rows in
    if or_empty r.goal == 0 then rest else rest ++ (r.timestamp, or_empty r.goal) ∷ []

-- Its loop: `seen` are the goals that stand in the list, and `n` is how many more may.
abbrev pub collect_goals : ℕ → List ℕ → List (ℕ × ℕ) → List (ℕ × ℕ)
collect_goals n seen [] = []
collect_goals n seen (row ∷ rows) =
    let skipped = collect_goals n seen rows in
    let rest = collect_goals (n - 1) (row.1 ∷ seen) rows in
    if contains row.1 seen then skipped else row ∷ (if leb n 1 then [] else rest)

unfoldable pub get_recent_unique_goals : ℕ → ℕ → Tables → List (ℕ × ℕ)
get_recent_unique_goals session limit t =
    if limit == 0
    then []
    else reverse (collect_goals limit [] (goal_rows (filter (is_of session) t.state_history)))

-- ===== src/Budget/Tail.antt =====
-- The protected tail of the request's messages: `protected_tail_messages` and
-- `latest_user_message_index` of mneme_service/app.py. A message is its role and the text
-- `str(content)`, which is all that the code reads of it. Token counts are not negative, and
-- so is the budget: the caller takes it as a share of a positive budget.
pub mod Suffix
pub mod Selected
pub mod Kept
use mneme_universal_context.Prelude.{
  ℕ, zero, suc, ◌+◌, ◌-◌, ◌*◌, ◌/◌, ◌≤◌, ◌<◌, max, min, ◌≡◌, ◌≢◌, ◌⊎◌, inl, inr, refl, sym, ap, ◌∙◌,
  Bool, true, false, not, ◌&&◌, ◌||◌, Option, none, some, List, [], ◌∷◌, ◌++◌, map, reverse, arith,
  ltb, leb, ◌==◌, if◌then◌else◌, Bool-cases, Option-cases, length, get_elem?, take, drop, filter,
  any, All, last_n, length-append, length-take, length-drop, contains, count, add_new, IsDistinct,
}
use mneme_universal_context.Prelude.Text.{Text}
use mneme_universal_context.Budget.Estimate.{token_estimate}

pub data Role : Type 0 where
  system developer user assistant tool : Role

pub record Message : Type 0 where
  pub role : Role
  pub content : Text

abbrev pub is_user : Role → Bool
is_user user = true
is_user _ = false

abbrev pub is_system : Role → Bool
is_system system = true
is_system _ = false

abbrev pub message_tokens : Message → ℕ
message_tokens m = token_estimate m.content

abbrev pub is_empty : List Message → Bool
is_empty [] = true
is_empty (m ∷ ms) = false

-- The loop without a preserved message, over the candidates in reverse. `kept` is the list
-- `kept_reversed`, reversed.
pub keep_recent : ℕ → List Message → List Message → ℕ → List Message × ℕ
keep_recent budget [] kept used = (kept, used)
keep_recent budget (m ∷ ms) kept used =
    let rest = keep_recent budget ms (m ∷ kept) (used + message_tokens m) in
    if is_empty kept || leb (used + message_tokens m) budget then rest else (kept, used)

-- The tokens of the message at an index.
abbrev pub tokens_at : List Message → ℕ → ℕ
tokens_at ms i = elim (get_elem? ms i) [ none ↦ 0 | some m ↦ message_tokens m ]

-- The loop with a preserved message; `suc i` rounds are left when the index is `i`. The set
-- `selected_indices` is a list.
pub select_indices : List Message → ℕ → ℕ → ℕ → List ℕ → ℕ → List ℕ × ℕ
select_indices ms budget preserved zero selected used = (selected, used)
select_indices ms budget preserved (suc i) selected used =
    let skipped = select_indices ms budget preserved i selected used in
    let taken = select_indices ms budget preserved i (i ∷ selected) (used + tokens_at ms i) in
    if i == preserved
    then skipped
    else if leb (used + tokens_at ms i) budget
    then taken
    else (selected, used)

-- `[candidates[index] for index in sorted(selected_indices)]`, from index `i` on.
abbrev pub at_indices : List ℕ → ℕ → List Message → List Message
at_indices selected i [] = []
at_indices selected i (m ∷ ms) =
    let rest = at_indices selected (suc i) ms in if contains i selected then m ∷ rest else rest

abbrev pub is_user_at : List Message → ℕ → Bool
is_user_at ms i = elim (get_elem? ms i) [ none ↦ false | some m ↦ is_user m.role ]

-- The scan from the end; `suc i` rounds are left when the index is `i`.
pub latest_below : List Message → ℕ → Option ℕ
latest_below ms zero = none
latest_below ms (suc i) = let rest = latest_below ms i in if is_user_at ms i then some i else rest

unfoldable pub latest_user_message_index : List Message → Option ℕ
unfolding latest_below
latest_user_message_index ms = latest_below ms (length ms)

-- Whether the first message is set aside as the system prompt.
abbrev pub has_prompt : Bool → List Message → Bool
has_prompt preserve [] = false
has_prompt preserve (m ∷ ms) = preserve && is_system m.role

abbrev pub system_messages : Bool → List Message → List Message
system_messages preserve ms = if has_prompt preserve ms then take 1 ms else []

abbrev pub candidates : Bool → List Message → List Message
candidates preserve ms = if has_prompt preserve ms then drop 1 ms else ms

-- The index of the preserved message among the candidates; `index - 1` below 0 is no index.
abbrev pub preserved_index : Bool → List Message → Option ℕ → Option ℕ
preserved_index preserve ms none = none
preserved_index preserve ms (some i) =
    let j = if has_prompt preserve ms then i - 1 else i in
    let below = has_prompt preserve ms && i == 0 in
    if below || leb (length (candidates preserve ms)) j then none else some j

pub kept_messages : ℕ → List Message → Option ℕ → List Message × ℕ
unfolding keep_recent select_indices
kept_messages budget cs none = keep_recent budget (reverse cs) [] 0
kept_messages budget cs (some p) =
    let (selected, used) = select_indices cs budget p (length cs) (p ∷ []) 0 in
    (at_indices selected 0 cs, used)

pub protected_tail_messages : List Message → ℕ → Bool → Option ℕ → List Message × ℕ
unfolding kept_messages
protected_tail_messages ms budget preserve latest =
    let (kept, used) =
      kept_messages budget (candidates preserve ms) (preserved_index preserve ms latest) in
    (system_messages preserve ms ++ kept, used)

-- ===== src/Repair.antt =====
-- The repair of a truncated JSON object: `_repair_truncated_json` of mneme_service/enrichment.py.
pub mod Stack
pub mod Closes
mod Tests
use mneme_universal_context.Prelude.{
  ℕ, zero, suc, ◌+◌, ◌-◌, ◌*◌, ◌/◌, ◌≤◌, ◌<◌, max, min, ◌≡◌, ◌≢◌, ◌↔◌, ◌⊎◌, inl, inr, refl, sym, ap,
  ◌∙◌, Bool, true, false, not, ◌&&◌, ◌||◌, Option, none, some, List, [], ◌∷◌, ◌++◌, map, reverse,
  arith, ltb, leb, ◌==◌, if◌then◌else◌, Bool-cases, Option-cases, length, get_elem?, take, drop,
  filter, any, All, last_n, length-append, length-take, length-drop, contains, count, add_new,
  IsDistinct,
}
use mneme_universal_context.Prelude.Text.{Text, is_space, rstrip, drop_while, same_text}

pub data Opener : Type 0 where
  brace bracket quote : Opener

-- The stack, its top first, and whether the loop passes over the next character.
pub record Scan : Type 0 where
  pub stack : List Opener
  pub escaped : Bool

abbrev pub on : List Opener → Scan
on st = record { stack = st; escaped = false }

abbrev pub close_brace : List Opener → List Opener
close_brace (brace ∷ st) = st
close_brace st = st

abbrev pub close_bracket : List Opener → List Opener
close_bracket (bracket ∷ st) = st
close_bracket st = st

-- Outside of a string; 34 is a quote, and 123, 125, 91 and 93 are braces and brackets.
abbrev pub read_outside : ℕ → List Opener → List Opener
read_outside c st =
    if c == 34
    then quote ∷ st
    else if c == 123
    then brace ∷ st
    else if c == 91
    then bracket ∷ st
    else if c == 125
    then close_brace st
    else if c == 93
    then close_bracket st
    else st

-- In a string; 92 is a backslash.
abbrev pub read_inside : ℕ → List Opener → Scan
read_inside c st =
    if c == 92
    then record { stack = quote ∷ st; escaped = true }
    else if c == 34
    then on st
    else on (quote ∷ st)

abbrev pub read_on : ℕ → List Opener → Scan
read_on c [] = on (read_outside c [])
read_on c (quote ∷ st) = read_inside c st
read_on c (brace ∷ st) = on (read_outside c (brace ∷ st))
read_on c (bracket ∷ st) = on (read_outside c (bracket ∷ st))

-- A round of the loop. A backslash that is the last character skips nothing, and the stack stays.
unfoldable pub read : ℕ → Scan → Scan
read c s = if s.escaped then on s.stack else read_on c s.stack

unfoldable pub scan : Text → Scan → Scan
unfolding read
scan [] s = s
scan (c ∷ t) s = scan t (read c s)

-- `[,:\s]`
abbrev pub is_trailing : ℕ → Bool
is_trailing c = c == 44 || c == 58 || is_space c

abbrev pub closers : List Opener → Text
closers [] = []
closers (brace ∷ st) = 125 ∷ closers st
closers (bracket ∷ st) = 93 ∷ closers st
closers (quote ∷ st) = 93 ∷ closers st

-- The string that is open is closed, the trailing separators go, and the rest of the stack is
-- closed.
abbrev pub close_all : Text → List Opener → Text
close_all body (quote ∷ st) = rstrip is_trailing (body ++ 34 ∷ []) ++ closers st
close_all body st = rstrip is_trailing body ++ closers st

abbrev pub start : Scan
start = on []

unfoldable pub repaired : Text → Text
unfolding scan rstrip
repaired body = close_all body (scan body start).stack

abbrev pub unless_same : Text → Text → Option Text
unless_same body r = if same_text r body then none else some r

abbrev pub repair_body : Text → Option Text
repair_body [] = none
repair_body (c ∷ t) = unless_same (c ∷ t) (repaired (c ∷ t))

-- What follows the first opening brace.
abbrev pub from_brace : Text → Text
from_brace text = drop_while (λ c. not (c == 123)) text

unfoldable pub repair_truncated_json : Text → Option Text
unfolding repaired
repair_truncated_json text = repair_body (from_brace text)

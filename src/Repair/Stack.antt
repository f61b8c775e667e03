-- ===== src/Repair/Stack.antt =====
-- The stack of `_repair_truncated_json` has a quote on its top only.
use mneme_universal_context.Prelude.{
  ℕ, ◌≡◌, inl, inr, refl, Bool, true, false, List, [], ◌∷◌, ◌++◌, ◌==◌, Bool-cases,
}
use mneme_universal_context.Prelude.Text.{Text}
use mneme_universal_context.Repair.{
  Opener, brace, bracket, quote, Scan, on, close_brace, close_bracket, read_outside, read_inside,
  read_on, read, scan, closers, start,
}

pub scan-append : (s t : Text) (a : Scan) → scan (s ++ t) a ≡ scan t (scan s a)
unfolding scan
scan-append [] t a = refl
scan-append (c ∷ s) t a = scan-append s t (read c a)

abbrev pub IsUnquoted : List Opener → Type 0
IsUnquoted [] = Unit
IsUnquoted (quote ∷ st) = ⊥
IsUnquoted (brace ∷ st) = IsUnquoted st
IsUnquoted (bracket ∷ st) = IsUnquoted st

-- A quote stands on the top only, and a character is passed over in a string only.
abbrev pub IsStack : Bool → List Opener → Type 0
IsStack true [] = ⊥
IsStack true (quote ∷ st) = IsUnquoted st
IsStack true (brace ∷ st) = ⊥
IsStack true (bracket ∷ st) = ⊥
IsStack false [] = Unit
IsStack false (quote ∷ st) = IsUnquoted st
IsStack false (brace ∷ st) = IsUnquoted st
IsStack false (bracket ∷ st) = IsUnquoted st

unquoted-IsStack : (st : List Opener) → IsUnquoted st → IsStack false st
unquoted-IsStack [] h = tt
unquoted-IsStack (quote ∷ st) h = absurd h
unquoted-IsStack (brace ∷ st) h = h
unquoted-IsStack (bracket ∷ st) h = h

close_brace-IsUnquoted : (st : List Opener) → IsUnquoted st → IsUnquoted (close_brace st)
close_brace-IsUnquoted [] h = tt
close_brace-IsUnquoted (quote ∷ st) h = h
close_brace-IsUnquoted (brace ∷ st) h = h
close_brace-IsUnquoted (bracket ∷ st) h = h

close_bracket-IsUnquoted : (st : List Opener) → IsUnquoted st → IsUnquoted (close_bracket st)
close_bracket-IsUnquoted [] h = tt
close_bracket-IsUnquoted (quote ∷ st) h = h
close_bracket-IsUnquoted (brace ∷ st) h = h
close_bracket-IsUnquoted (bracket ∷ st) h = h

read_outside-IsStack :
    (c : ℕ) (st : List Opener) → IsUnquoted st → IsStack false (read_outside c st)
read_outside-IsStack c st h = elim (Bool-cases (c == 34)) [
  | inl e ↦ rw e h
  | inr e ↦ elim (Bool-cases (c == 123)) [
    | inl f ↦ rw (e, f) h
    | inr f ↦ elim (Bool-cases (c == 91)) [
      | inl g ↦ rw (e, f, g) h
      | inr g ↦ elim (Bool-cases (c == 125)) [
        | inl i ↦ rw (e, f, g, i) (unquoted-IsStack (close_brace st) (close_brace-IsUnquoted st h))
        | inr i ↦ elim (Bool-cases (c == 93)) [
          | inl j ↦
              rw (e, f, g, i, j)
                (unquoted-IsStack (close_bracket st) (close_bracket-IsUnquoted st h))
          | inr j ↦ rw (e, f, g, i, j) (unquoted-IsStack st h)
        ]
      ]
    ]
  ]
]

unfoldable pub IsScan : Scan → Type 0
IsScan a = IsStack a.escaped a.stack

read_inside-IsScan : (c : ℕ) (st : List Opener) → IsUnquoted st → IsScan (read_inside c st)
unfolding IsScan
read_inside-IsScan c st h = elim (Bool-cases (c == 92)) [
  | inl e ↦ rw e h
  | inr e ↦ elim (Bool-cases (c == 34)) [
    | inl f ↦ rw (e, f) (unquoted-IsStack st h)
    | inr f ↦ rw (e, f) h
  ]
]

read_on-IsScan : (c : ℕ) (st : List Opener) → IsStack false st → IsScan (read_on c st)
unfolding IsScan
read_on-IsScan c [] h = read_outside-IsStack c [] tt
read_on-IsScan c (quote ∷ st) h = read_inside-IsScan c st h
read_on-IsScan c (brace ∷ st) h = read_outside-IsStack c (brace ∷ st) h
read_on-IsScan c (bracket ∷ st) h = read_outside-IsStack c (bracket ∷ st) h

passed-IsStack : (st : List Opener) → IsStack true st → IsStack false st
passed-IsStack [] h = absurd h
passed-IsStack (quote ∷ st) h = h
passed-IsStack (brace ∷ st) h = absurd h
passed-IsStack (bracket ∷ st) h = absurd h

read_any-IsScan :
    (c : ℕ) (e : Bool) (st : List Opener)
    → IsStack e st
    → IsScan (read c (record { stack = st; escaped = e }))
unfolding IsScan read
read_any-IsScan c true st h = passed-IsStack st h
read_any-IsScan c false st h = read_on-IsScan c st h

read-IsScan : (c : ℕ) (a : Scan) → IsScan a → IsScan (read c a)
unfolding IsScan
read-IsScan c a h = read_any-IsScan c a.escaped a.stack h

pub scan-IsScan : (s : Text) (a : Scan) → IsScan a → IsScan (scan s a)
unfolding scan
scan-IsScan [] a h = h
scan-IsScan (c ∷ s) a h = scan-IsScan s (read c a) (read-IsScan c a h)

-- Reading what closes the stack empties it.
pub closers_close : (st : List Opener) → IsUnquoted st → scan (closers st) (on st) ≡ start
unfolding scan read
closers_close [] h = refl
closers_close (quote ∷ st) h = absurd h
closers_close (brace ∷ st) h = closers_close st h
closers_close (bracket ∷ st) h = closers_close st h

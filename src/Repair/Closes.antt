-- ===== src/Repair/Closes.antt =====
-- The repaired text closes all that it opens.
use mneme_universal_context.Prelude.{◌≡◌, ◌≢◌, Bool, true, false, List, [], ◌++◌, All}
use mneme_universal_context.Prelude.Text.{Text}
use mneme_universal_context.Repair.{Opener, Scan, scan, is_trailing, start}

module _ (body : Text) where
  abbrev found : Scan
  found = scan body start

-- Whether the last character was passed over decides if the stack is emptied.
Closed : Bool → List Opener → Type 0
Closed true st = st ≢ []
Closed false st = st ≡ []

-- The repaired text is the body without some separators at its end, and then more.
abbrev pub IsExtended : Text → Text → Type 0
IsExtended body r =
    (kept : Text) × ((ts : Text) × ((added : Text) × (body ≡ kept ++ ts)
        × All (λ c. is_trailing c ≡ true) ts
        × (r ≡ kept ++ added)))

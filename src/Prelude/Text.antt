-- ===== src/Prelude/Text.antt =====
-- Python's strings as lists of code points, and the string methods that the code uses.
use Prim.Native.Nat.{ℕ, ◌≤◌}
use Prim.Native.Char.{code}
use Prim.Native.String.{String}
use mathlib.Core.Bool.{Bool, true, false, ◌&&◌, ◌||◌}
use mathlib.Core.List.{List, [], ◌∷◌, reverse}
use native.Mathlib.Omega.{arith}
use mneme_universal_context.Prelude.Tests.{◌==◌, leb, if◌then◌else◌}
use mneme_universal_context.Prelude.Lists.{length, length-reverse}

abbrev pub Text : Type 0
Text = List ℕ

-- A literal as its code points.
abbrev pub codes : String → Text
codes String.[] = []
codes (String.◌∷◌ c s) = code c ∷ codes s

-- The characters that `str.isspace` accepts and `str.strip` removes.
abbrev pub is_space : ℕ → Bool
is_space c =
    (leb 9 c && leb c 13)
    || (leb 28 c && leb c 32)
    || c == 133
    || c == 160
    || c == 5760
    || (leb 8192 c && leb c 8202)
    || c == 8232
    || c == 8233
    || c == 8239
    || c == 8287
    || c == 12288

-- Drops the leading characters that pass a test.
abbrev pub drop_while : (ℕ → Bool) → Text → Text
drop_while p [] = []
drop_while p (c ∷ s) = let rest = drop_while p s in if p c then rest else c ∷ s

-- `s.rstrip()` and `s.strip()` for a set of characters given by a test.
unfoldable pub rstrip : (ℕ → Bool) → Text → Text
rstrip p s = reverse (drop_while p (reverse s))

unfoldable pub strip : (ℕ → Bool) → Text → Text
unfolding rstrip
strip p s = rstrip p (drop_while p s)

pub length-drop_while-le : (p : ℕ → Bool) (s : Text) → length (drop_while p s) ≤ length s
length-drop_while-le p [] = omega arith
length-drop_while-le p (c ∷ s) = ground (arith, length-drop_while-le p s)

pub length-rstrip-le : (p : ℕ → Bool) (s : Text) → length (rstrip p s) ≤ length s
unfolding rstrip
length-rstrip-le p s = omega (
  arith,
  length-reverse (drop_while p (reverse s)),
  length-reverse s,
  length-drop_while-le p (reverse s),
)

-- Equality of texts.
abbrev pub same_text : Text → Text → Bool
same_text [] [] = true
same_text [] (d ∷ t) = false
same_text (c ∷ s) [] = false
same_text (c ∷ s) (d ∷ t) = c == d && same_text s t

abbrev pub starts_with : Text → Text → Bool
starts_with [] t = true
starts_with (c ∷ s) [] = false
starts_with (c ∷ s) (d ∷ t) = c == d && starts_with s t

-- `s in t`
abbrev pub is_in : Text → Text → Bool
is_in s [] = starts_with s []
is_in s (c ∷ t) = starts_with s (c ∷ t) || is_in s t

abbrev pub ends_with : Text → Text → Bool
ends_with s t = starts_with (reverse s) (reverse t)

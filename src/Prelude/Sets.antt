-- ===== src/Prelude/Sets.antt =====
-- Python's sets and lists of identifiers, which are only compared. An identifier is a number,
-- and 0 stands for the empty string, the one identifier that Python takes for false.
use Prim.Native.Nat.{ℕ, ◌+◌}
use mathlib.Core.Path.{◌≡◌, refl}
use mathlib.Core.Bool.{Bool, false, ◌||◌}
use mathlib.Core.List.{List, [], ◌∷◌, ◌++◌}
use native.Mathlib.Omega.{arith}
use mneme_universal_context.Prelude.Tests.{◌==◌, if◌then◌else◌}

-- `k in xs`
abbrev pub contains : ℕ → List ℕ → Bool
contains k [] = false
contains k (x ∷ xs) = k == x || contains k xs

-- `xs` if `k` is in it, else `xs` with `k` at the end
abbrev pub add_new : ℕ → List ℕ → List ℕ
add_new k xs = if contains k xs then xs else xs ++ k ∷ []

-- No entry stands twice.
abbrev pub IsDistinct : List ℕ → Type 0
IsDistinct [] = Unit
IsDistinct (x ∷ xs) = (contains x xs ≡ false) × IsDistinct xs

-- How often `k` stands in `xs`.
abbrev pub count : ℕ → List ℕ → ℕ
count k [] = 0
count k (x ∷ xs) = (if k == x then 1 else 0) + count k xs

pub contains-append :
    (k : ℕ) (xs ys : List ℕ) → contains k (xs ++ ys) ≡ (contains k xs || contains k ys)
contains-append k [] ys = refl
contains-append k (x ∷ xs) ys = ground (arith, contains-append k xs ys)

pub IsDistinct-snoc :
    (k : ℕ) (xs : List ℕ) → contains k xs ≡ false → IsDistinct xs → IsDistinct (xs ++ k ∷ [])
IsDistinct-snoc k [] h d = (refl, tt)
IsDistinct-snoc k (x ∷ xs) h d = ground (arith, contains-append x xs (k ∷ []), IsDistinct-snoc k xs)

pub add_new-IsDistinct : (k : ℕ) (xs : List ℕ) → IsDistinct xs → IsDistinct (add_new k xs)
add_new-IsDistinct k xs d = ground (arith, IsDistinct-snoc k xs)

pub contains-add_new :
    (j k : ℕ) (xs : List ℕ) → contains j (add_new k xs) ≡ (j == k || contains j xs)
contains-add_new j k xs = ground (arith, contains-append j xs (k ∷ []))

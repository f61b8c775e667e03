-- ===== src/Prelude/Keys.antt =====
-- Tables with a key: the rows that a property selects, and those with their keys.
use Prim.Native.Nat.{ℕ, suc}
use mathlib.Core.Path.{◌≡◌, refl, ap}
use mathlib.Core.Logic.{inl, inr}
use mathlib.Core.Bool.{Bool, false}
use mathlib.Core.List.{List, [], ◌∷◌}
use native.Mathlib.Omega.{arith}
use mneme_universal_context.Prelude.Tests.{◌==◌, Bool-cases}
use mneme_universal_context.Prelude.Lists.{length, filter, All, All-map_weaken, filter_cong}
use mneme_universal_context.Prelude.Sets.{contains, IsDistinct}

abbrev pub keys {ℓ} : {A : Type ℓ} → (A → ℕ) → List A → List ℕ
keys key [] = []
keys key (x ∷ xs) = key x ∷ keys key xs

pub length-keys {ℓ} : {A : Type ℓ} (key : A → ℕ) (xs : List A) → length (keys key xs) ≡ length xs
length-keys key [] = refl
length-keys key (x ∷ xs) = ap suc (length-keys key xs)

module _ {ℓ} {A : Type ℓ} (key : A → ℕ) where
  key_absent :
      (k : ℕ) (p : A → Bool) (xs : List A)
      → contains k (keys key xs) ≡ false
      → contains k (keys key (filter p xs)) ≡ false
  key_absent k p [] h = refl
  key_absent k p (x ∷ xs) h = elim (Bool-cases (p x)) [
    | inl e ↦ rw e (ground (arith, key_absent k p xs))
    | inr e ↦ rw e (key_absent k p xs (ground arith))
  ]

  All-other :
      (k : ℕ) (xs : List A) → contains k (keys key xs) ≡ false → All (λ x. (key x == k) ≡ false) xs
  All-other k [] h = tt
  All-other k (x ∷ xs) h = (ground arith, All-other k xs (ground arith))

  among_more :
      (x : A) (p : A → Bool) (ks : List ℕ) (ys : List A)
      → All (λ y. contains (key y) ks ≡ p y) ys
      → All (λ y. (key y == key x) ≡ false) ys
      → All (λ y. contains (key y) (key x ∷ ks) ≡ p y) ys
  among_more x p ks [] h o = tt
  among_more x p ks (y ∷ ys) h o = (rw (o.0, h.0) refl, among_more x p ks ys h.1 o.1)

  -- With distinct keys, the rows whose key is one of a selected row's are the selected rows.
  pub All-among :
      (p : A → Bool) (xs : List A)
      → IsDistinct (keys key xs)
      → All (λ x. contains (key x) (keys key (filter p xs)) ≡ p x) xs
  All-among p [] d = tt
  All-among p (x ∷ xs) (new, d) = elim (Bool-cases (p x)) [
    | inl e ↦
        let same : filter p (x ∷ xs) ≡ x ∷ filter p xs = ground arith in
        (
          rw (same, e) (ground arith),
          All-map_weaken (λ y. contains (key y) (key x ∷ keys key (filter p xs)) ≡ p y) _
              (λ y h. rw same h) xs
              (among_more x p (keys key (filter p xs)) xs (All-among p xs d)
                (All-other (key x) xs new)),
        )
    | inr e ↦
        let same : filter p (x ∷ xs) ≡ filter p xs = ground arith in
        (
          rw (same, e) (key_absent (key x) p xs new),
          All-map_weaken (λ y. contains (key y) (keys key (filter p xs)) ≡ p y) _ (λ y h. rw same h)
              xs (All-among p xs d),
        )
  ]

  -- To delete by the selected rows' keys deletes the selected rows.
  pub filter-among :
      (p : A → Bool) (xs : List A)
      → IsDistinct (keys key xs)
      → filter (λ x. contains (key x) (keys key (filter p xs))) xs ≡ filter p xs
  filter-among p xs d = filter_cong _ _ xs (All-among p xs d)

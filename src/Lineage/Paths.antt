-- ===== src/Lineage/Paths.antt =====
-- Paths through the rows of the lineage table.
use mneme_universal_context.Prelude.{
  ℕ, ◌≡◌, ◌≢◌, refl, sym, ◌∙◌, true, List, [], ◌∷◌, arith, contains,
}
use mneme_universal_context.Lineage.{Edge, parents, children}

-- From a session by rows to another one; the empty identifier is never followed.
pub data Reaches (rows : ℕ → List ℕ) (s : ℕ) : ℕ → Type 0 where
  start : Reaches rows s s
  onward : {x y : ℕ} → Reaches rows s x → contains y (rows x) ≡ true → y ≢ 0 → Reaches rows s y

-- No row leads back: a session does not reach one whose child it is.
abbrev pub IsAcyclic : List Edge → Type 0
IsAcyclic es = (x y : ℕ) → contains y (children es x) ≡ true → y ≢ 0 → ¬ (Reaches (children es) y x)

pub contains-children :
    (es : List Edge) (x y : ℕ) → contains y (children es x) ≡ contains x (parents es y)
contains-children [] x y = refl
contains-children (e ∷ es) x y = ground (arith, contains-children es x y)

pub Reaches-first :
    (rows : ℕ → List ℕ) (x y z : ℕ)
    → contains y (rows x) ≡ true
    → y ≢ 0
    → Reaches rows y z
    → Reaches rows x z
Reaches-first rows x y z h n start = onward start h n
Reaches-first rows x y z h n (onward r k m) = onward (Reaches-first rows x y _ h n r) k m

pub Reaches-trans :
    {rows : ℕ → List ℕ} {x y z : ℕ} → Reaches rows x y → Reaches rows y z → Reaches rows x z
Reaches-trans p start = p
Reaches-trans p (onward r k m) = onward (Reaches-trans p r) k m

pub Reaches-nonzero : {rows : ℕ → List ℕ} {x y : ℕ} → x ≢ 0 → Reaches rows x y → y ≢ 0
Reaches-nonzero n start = n
Reaches-nonzero n (onward r k m) = m

pub children-parents :
    (es : List Edge) {x y : ℕ} → x ≢ 0 → Reaches (children es) x y → Reaches (parents es) y x
children-parents es n start = start
children-parents es {x} n (onward {x = w} {y = z} r k m) =
    Reaches-first (parents es) z w x (sym (contains-children es w z) ∙ k) (Reaches-nonzero n r)
      (children-parents es n r)

pub parents-children :
    (es : List Edge) {x y : ℕ} → x ≢ 0 → Reaches (parents es) x y → Reaches (children es) y x
parents-children es n start = start
parents-children es {x} n (onward {x = w} {y = z} r k m) =
    Reaches-first (children es) z w x (contains-children es z w ∙ k) (Reaches-nonzero n r)
      (parents-children es n r)

-- In an acyclic table no two sessions reach one another.
pub IsAcyclic-antisym :
    (es : List Edge) {x y : ℕ}
    → IsAcyclic es
    → Reaches (children es) x y
    → Reaches (children es) y x
    → ¬ (x ≢ y)
IsAcyclic-antisym es a start q ne = ne refl
IsAcyclic-antisym es a (onward {x = w} {y = z} r k m) q ne = a w z k m (Reaches-trans q r)

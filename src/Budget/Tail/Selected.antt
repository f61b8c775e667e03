-- ===== src/Budget/Tail/Selected.antt =====
-- The tail with a preserved message: a suffix of the candidates and the preserved one, whose
-- tokens are not counted.
use mneme_universal_context.Prelude.{
  ℕ, zero, suc, ◌+◌, ◌-◌, ◌≤◌, ◌<◌, ◌≡◌, ◌≢◌, inl, inr, ◌∙◌, not, ◌&&◌, ◌||◌, List, ◌∷◌, arith, ltb,
  leb, ◌==◌, if◌then◌else◌, Bool-cases, contains,
}
use mneme_universal_context.Budget.Tail.{Message, tokens_at, select_indices}

-- The tokens of the messages at the indices from `i` to `i + n`, but for the index `p`.
abbrev pub tokens_between : List Message → ℕ → ℕ → ℕ → ℕ
tokens_between ms p i zero = 0
tokens_between ms p i (suc n) =
    (if i == p then 0 else tokens_at ms i) + tokens_between ms p (suc i) n

-- What the loop over the indices below `n` returns: the indices from `cut` on are taken.
pub record IsSelection (ms : List Message) (budget p n : ℕ) (selected : List ℕ) (used : ℕ)
    (out : List ℕ × ℕ) : Type 0 where
  pub cut : ℕ
  pub below : cut ≤ n
  pub taken :
      (i : ℕ) → contains i out.0 ≡ (contains i selected || (leb cut i && ltb i n && not (i == p)))
  pub counts : out.1 ≡ used + tokens_between ms p cut (n - cut)
  pub within : used ≤ budget → out.1 ≤ budget
  pub full : (k : ℕ) → cut ≡ suc k → (k ≢ p) × (budget < out.1 + tokens_at ms k)

tokens_between-top :
    (ms : List Message) (p n i k : ℕ)
    → i + k ≡ n
    → tokens_between ms p i (suc k)
      ≡ tokens_between ms p i k + (if n == p then 0 else tokens_at ms n)
tokens_between-top ms p n i zero e = let e' : i ≡ n = omega arith in rw e' (omega arith)
tokens_between-top ms p n i (suc k) e =
    omega (arith, tokens_between-top ms p n (suc i) k (omega arith))

tokens_between-extend :
    (ms : List Message) (p cut n : ℕ)
    → cut ≤ n
    → tokens_between ms p cut (suc n - cut)
      ≡ tokens_between ms p cut (n - cut) + (if n == p then 0 else tokens_at ms n)
tokens_between-extend ms p cut n h =
    let e : suc n - cut ≡ suc (n - cut) = omega arith in
    rw e (tokens_between-top ms p n cut (n - cut) (omega arith))

pub select_indices-IsSelection :
    (ms : List Message) (budget p n : ℕ) (selected : List ℕ) (used : ℕ)
    → IsSelection ms budget p n selected used (select_indices ms budget p n selected used)
unfolding select_indices
select_indices-IsSelection ms budget p zero selected used = record {
  cut = 0;
  below = omega arith;
  taken = λ i. ground arith;
  counts = omega arith;
  within = λ h. h;
  full = λ k e. absurd (omega arith);
}
select_indices-IsSelection ms budget p (suc n) selected used = elim (Bool-cases (n == p)) [
  | inl same ↦
      let ih : IsSelection ms budget p n selected used
          (select_indices ms budget p n selected used) =
        select_indices-IsSelection ms budget p n selected used in
      rw same (record {
        cut = ih.cut;
        below = omega (arith, ih.below);
        taken = λ i. ih.taken i ∙ ground arith;
        counts = ih.counts ∙ ground (arith, tokens_between-extend ms p ih.cut n ih.below);
        within = ih.within;
        full = ih.full;
      })
  | inr other ↦ elim (Bool-cases (leb (used + tokens_at ms n) budget)) [
    | inl fits ↦
        let ih : IsSelection ms budget p n (n ∷ selected) (used + tokens_at ms n)
            (select_indices ms budget p n (n ∷ selected) (used + tokens_at ms n)) =
          select_indices-IsSelection ms budget p n (n ∷ selected) (used + tokens_at ms n) in
        rw (other, fits)
          (record {
            cut = ih.cut;
            below = omega (arith, ih.below);
            taken = λ i. ih.taken i ∙ ground (arith, ih.below);
            counts = ih.counts ∙ ground (arith, tokens_between-extend ms p ih.cut n ih.below);
            within = λ h. ih.within (ground arith);
            full = ih.full;
          })
    | inr over ↦
        rw (other, over)
          (record {
            cut = suc n;
            below = omega arith;
            taken = λ i. ground arith;
            counts = ground arith;
            within = λ h. h;
            full = λ k e. ground arith;
          })
  ]
]

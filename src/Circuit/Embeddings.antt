-- ===== src/Circuit/Embeddings.antt =====
-- `OpenAICompatibleEmbeddingProvider.embed_texts` of mneme_service/embeddings.py. An input is
-- whether it is a text with something to embed; the HTTP call is an argument: for each item of the
-- response what `_coerce_embedding` makes of it, or `none` where the call raises an error that the
-- method catches. `none` in an output is Python's `None`.
use mneme_universal_context.Prelude.{
  ℕ, zero, suc, ◌≡◌, inl, inr, refl, sym, ap, ◌∙◌, Bool, true, false, not, ◌||◌, Option, none, some,
  List, [], ◌∷◌, ◌++◌, arith, ◌==◌, if◌then◌else◌, Bool-cases, Option-cases, length, length-append,
}
use mathlib.Core.List.{append_assoc}
use mathlib.Core.Path.{subst}
use mneme_universal_context.Circuit.{
  Limits, Breaker, circuit_open, after_cooldown, record_success, record_failure,
}

module _ {E : Type 0} where
  abbrev pub set : List (Option E) → ℕ → Option E → List (Option E)
  set [] i v = []
  set (x ∷ xs) zero v = v ∷ xs
  set (x ∷ xs) (suc i) v = x ∷ set xs i v

  abbrev pub no_outputs : List Bool → List (Option E)
  no_outputs [] = []
  no_outputs (t ∷ ts) = none ∷ no_outputs ts

  -- `outputs[output_index] = embedding` over the pairs.
  abbrev pub write_all : List ℕ → List E → List (Option E) → List (Option E)
  write_all [] es outputs = outputs
  write_all (i ∷ is) [] outputs = outputs
  write_all (i ∷ is) (e ∷ es) outputs = write_all is es (set outputs i (some e))

  -- All items, or none if one could not be coerced.
  abbrev pub coerced : List (Option E) → Option (List E)
  coerced [] = some []
  coerced (none ∷ items) = none
  coerced (some e ∷ items) = elim (coerced items) [ none ↦ none | some es ↦ some (e ∷ es) ]

-- The indices of the texts that are sent.
abbrev pub indexed_from : ℕ → List Bool → List ℕ
indexed_from i [] = []
indexed_from i (t ∷ ts) = let rest = indexed_from (suc i) ts in if t then i ∷ rest else rest

module _ {E : Type 0} where
  abbrev pub accept : List Bool → Option (List E) → Option (List (Option E))
  accept texts none = none
  accept texts (some es) = some (write_all (indexed_from 0 texts) es (no_outputs texts))

  -- The outputs for a response, or `none` where the response counts as a failure.
  unfoldable pub outputs_for : List Bool → Option (List (Option E)) → Option (List (Option E))
  outputs_for texts none = none
  outputs_for texts (some items) =
      if length items == length (indexed_from 0 texts) then accept texts (coerced items) else none

  abbrev pub settle :
      Limits → Breaker → ℕ → List Bool → Option (List (Option E)) → List (Option E) × Breaker
  settle l b now texts none = (no_outputs texts, record_failure l b now)
  settle l b now texts (some outputs) = (outputs, record_success b)

  pub embed_texts :
      Limits
      → List Bool
      → Bool
      → Bool
      → Option (List (Option E))
      → ℕ
      → ℕ
      → ℕ
      → Breaker
      → List (Option E) × Breaker
  unfolding outputs_for
  embed_texts l texts endpoint_set model_set answer at_test at_cooldown at_failure b =
      if length (indexed_from 0 texts) == 0
      then (no_outputs texts, b)
      else if circuit_open b at_test
      then (no_outputs texts, b)
      else let b' = after_cooldown b at_cooldown in
        if not endpoint_set || not model_set
        then (no_outputs texts, record_failure l b' at_failure)
        else settle l b' at_failure texts (outputs_for texts answer)

  -- The embeddings in the order of the texts, with nothing at a text that was not sent.
  abbrev pub aligned : List Bool → List E → List (Option E)
  aligned [] es = []
  aligned (false ∷ ts) es = none ∷ aligned ts es
  aligned (true ∷ ts) [] = none ∷ aligned ts []
  aligned (true ∷ ts) (e ∷ es) = some e ∷ aligned ts es

  set-append :
      (pre : List (Option E)) (x v : Option E) (n : ℕ) (post : List (Option E))
      → n ≡ length pre
      → set (pre ++ x ∷ post) n v ≡ pre ++ v ∷ post
  set-append [] x v zero post e = refl
  set-append [] x v (suc n) post e = absurd (omega arith)
  set-append (y ∷ pre) x v zero post e = absurd (omega arith)
  set-append (y ∷ pre) x v (suc n) post e =
      ap (λ l. y ∷ l) (set-append pre x v n post (omega arith))

  write_all-aligned :
      (texts : List Bool) (es : List E) (pre : List (Option E)) (n : ℕ)
      → n ≡ length pre
      → length es ≡ length (indexed_from n texts)
      → write_all (indexed_from n texts) es (pre ++ no_outputs texts) ≡ pre ++ aligned texts es
  write_all-aligned [] [] pre n p e = refl
  write_all-aligned [] (x ∷ es) pre n p e = absurd (omega arith)
  write_all-aligned (false ∷ ts) es pre n p e =
      let q =
        write_all-aligned ts es (pre ++ none ∷ []) (suc n)
          (omega (arith, length-append pre (none ∷ []))) e in
      subst (λ l. write_all (indexed_from (suc n) ts) es l ≡ pre ++ none ∷ aligned ts es)
        (append_assoc pre (none ∷ []) (no_outputs ts))
        (q ∙ append_assoc pre (none ∷ []) (aligned ts es))
  write_all-aligned (true ∷ ts) [] pre n p e = absurd (omega arith)
  write_all-aligned (true ∷ ts) (x ∷ es) pre n p e =
      let q =
        write_all-aligned ts es (pre ++ some x ∷ []) (suc n)
          (omega (arith, length-append pre (some x ∷ []))) (omega arith) in
      ap (λ l. write_all (indexed_from (suc n) ts) es l)
        (set-append pre none (some x) n (no_outputs ts) p)
      ∙ subst (λ l. write_all (indexed_from (suc n) ts) es l ≡ pre ++ some x ∷ aligned ts es)
          (append_assoc pre (some x ∷ []) (no_outputs ts))
          (q ∙ append_assoc pre (some x ∷ []) (aligned ts es))

  length-coerced :
      (items : List (Option E)) (es : List E) → coerced items ≡ some es → length es ≡ length items
  length-coerced [] es e = ground arith
  length-coerced (none ∷ items) es e = cc
  length-coerced (some x ∷ items) es e = elim (Option-cases (coerced items)) [
    | inl bad ↦ absurd (ground arith)
    | inr (rest, good) ↦ ground (arith, length-coerced items rest good)
  ]

  -- A response is accepted only with one embedding for each text that was sent, and then each
  -- stands at its text and nothing stands at the others.
  pub outputs_for-aligned :
      (texts : List Bool) (items outputs : List (Option E))
      → outputs_for texts (some items) ≡ some outputs
      → (es : List E) × (coerced items ≡ some es)
        × (length items ≡ length (indexed_from 0 texts))
        × (outputs ≡ aligned texts es)
  unfolding outputs_for
  outputs_for-aligned texts items outputs e =
      elim (Bool-cases (length items == length (indexed_from 0 texts))) [
        | inr differ ↦ absurd (ground arith)
        | inl same ↦ elim (Option-cases (coerced items)) [
          | inl bad ↦ absurd (ground arith)
          | inr (es, good) ↦
              let n : length items ≡ length (indexed_from 0 texts) = ground arith in
              let w : write_all (indexed_from 0 texts) es (no_outputs texts) ≡ outputs =
                ground arith in
              (
                es,
                good,
                n,
                sym w ∙ write_all-aligned texts es [] 0 refl (length-coerced items es good ∙ n),
              )
        ]
      ]

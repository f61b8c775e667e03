-- ===== src/Budget/Tail/Suffix.antt =====
-- The tail without a preserved message is a suffix of the candidates that no further message fits.
use mneme_universal_context.Prelude.{
  ℕ, ◌+◌, ◌≤◌, ◌<◌, ◌≡◌, ◌≢◌, ◌⊎◌, inl, inr, refl, sym, ap, ◌∙◌, true, false, ◌||◌, List, [], ◌∷◌,
  ◌++◌, reverse, arith, leb, Bool-cases, length,
}
use mathlib.Core.List.{append_assoc, append-nil, reverse-append, reverse-reverse}
use mneme_universal_context.Budget.Tail.{Message, message_tokens, is_empty, keep_recent}

abbrev pub total_tokens : List Message → ℕ
total_tokens [] = 0
total_tokens (m ∷ ms) = message_tokens m + total_tokens ms

-- The next message, if there is one, would exceed the budget.
abbrev pub NextExceeds : ℕ → ℕ → List Message → Type 0
NextExceeds budget used [] = Unit
NextExceeds budget used (m ∷ ms) = budget < used + message_tokens m

-- The loop's result `out` when it began before `ms`, with `kept` kept: it leaves `rest` unread.
pub record IsTail (budget : ℕ) (ms kept : List Message) (out : List Message × ℕ) : Type 0 where
  pub rest : List Message
  pub splits : reverse ms ++ kept ≡ reverse rest ++ out.0
  pub counts : out.1 ≡ total_tokens out.0
  pub full : NextExceeds budget out.1 rest
  pub within : (out.1 ≤ budget) ⊎ (length out.0 ≤ 1)
  pub some_kept : (is_empty kept ≡ false) ⊎ (is_empty ms ≡ false) → is_empty out.0 ≡ false

move_over :
    (m : Message) (ms kept : List Message) → reverse (m ∷ ms) ++ kept ≡ reverse ms ++ m ∷ kept
move_over m ms kept = rw (reverse-append (m ∷ []) ms) (append_assoc (reverse ms) (m ∷ []) kept)

within_step :
    (budget used : ℕ) (m : Message) (kept : List Message)
    → (is_empty kept || leb (used + message_tokens m) budget) ≡ true
    → (used + message_tokens m ≤ budget) ⊎ (length (m ∷ kept) ≤ 1)
within_step budget used m [] h = inr (omega arith)
within_step budget used m (k ∷ kept) h = inl (ground arith)

keep_recent-IsTail :
    (budget : ℕ) (ms kept : List Message) (used : ℕ)
    → used ≡ total_tokens kept
    → (used ≤ budget) ⊎ (length kept ≤ 1)
    → IsTail budget ms kept (keep_recent budget ms kept used)
unfolding keep_recent
keep_recent-IsTail budget [] kept used c w = record {
  rest = [];
  splits = refl;
  counts = c;
  full = tt;
  within = w;
  some_kept = λ h. ground arith;
}
keep_recent-IsTail budget (m ∷ ms) kept used c w =
    elim (Bool-cases (is_empty kept || leb (used + message_tokens m) budget)) [
      | inl fits ↦
          let ih : IsTail budget ms (m ∷ kept)
              (keep_recent budget ms (m ∷ kept) (used + message_tokens m)) =
            keep_recent-IsTail budget ms (m ∷ kept) (used + message_tokens m) (omega arith)
              (within_step budget used m kept fits) in
          rw fits (record {
            rest = ih.rest;
            splits = move_over m ms kept ∙ ih.splits;
            counts = ih.counts;
            full = ih.full;
            within = ih.within;
            some_kept = λ h. ih.some_kept (inl refl);
          })
      | inr over ↦ rw over (record {
        rest = m ∷ ms;
        splits = refl;
        counts = c;
        full = ground arith;
        within = w;
        some_kept = λ h. ground arith;
      })
    ]

is_empty-snoc : (ms : List Message) (m : Message) → is_empty (ms ++ m ∷ []) ≡ false
is_empty-snoc [] m = refl
is_empty-snoc (x ∷ ms) m = refl

is_empty-reverse : (ms : List Message) → ms ≢ [] → is_empty (reverse ms) ≡ false
is_empty-reverse [] h = absurd (h refl)
is_empty-reverse (m ∷ ms) h = rw (reverse-append (m ∷ []) ms) (is_empty-snoc (reverse ms) m)

-- Without a preserved message the kept messages are a suffix of the candidates and `used` is
-- their tokens; that is within the budget unless a single message is kept; the message before
-- the suffix would exceed the budget; and something is kept if there is a candidate.
pub keep_recent_longest_suffix :
    (budget : ℕ) (cs : List Message)
    → let (kept, used) = keep_recent budget (reverse cs) [] 0 in
      (rest : List Message) × (cs ≡ reverse rest ++ kept)
      × (used ≡ total_tokens kept)
      × ((used ≤ budget) ⊎ (length kept ≤ 1))
      × NextExceeds budget used rest
      × (cs ≢ [] → kept ≢ [])
keep_recent_longest_suffix budget cs =
    let t : IsTail budget (reverse cs) [] (keep_recent budget (reverse cs) [] 0) =
      keep_recent-IsTail budget (reverse cs) [] 0 refl (inl (omega arith)) in
    (
      t.rest,
      (sym (reverse-reverse cs) ∙ sym (append-nil (reverse (reverse cs)))) ∙ t.splits,
      t.counts,
      t.within,
      t.full,
      λ h e. cc (t.some_kept (inr (is_empty-reverse cs h)), ap is_empty e),
    )

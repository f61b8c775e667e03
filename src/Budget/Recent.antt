-- ===== src/Budget/Recent.antt =====
-- `pack_events_under_token_limit` of mneme_service/app.py: the most recent events whose snippets
-- fit a limit. An event is the text of its content.
use mneme_universal_context.Prelude.{
  ℕ, ◌+◌, ◌≤◌, ◌<◌, ◌≡◌, inl, inr, refl, sym, ◌∙◌, Bool, true, false, Option, none, some, List, [],
  ◌∷◌, ◌++◌, reverse, arith, ltb, if◌then◌else◌, Bool-cases, take,
}
use mathlib.Core.List.{append_assoc, append-nil, reverse-append, reverse-reverse}
use mneme_universal_context.Prelude.Text.{Text}
use mneme_universal_context.Budget.Estimate.{token_estimate}

abbrev pub snippet_tokens : Text → ℕ
snippet_tokens text = token_estimate (take 240 text)

-- The loop over the events in reverse. `packed` is kept reversed, in the order of the events.
pub pack_recent : ℕ → List Text → List Text → ℕ → List Text × Bool
pack_recent limit [] packed used = (packed, false)
pack_recent limit (e ∷ es) packed used =
    let rest = pack_recent limit es (e ∷ packed) (used + snippet_tokens e) in
    if ltb limit (used + snippet_tokens e) then (packed, true) else rest

pub pack_events_under_token_limit : List Text → Option ℕ → List Text × Bool
unfolding pack_recent
pack_events_under_token_limit events none = (events, false)
pack_events_under_token_limit events (some limit) = pack_recent limit (reverse events) [] 0

abbrev pub snippets_tokens : List Text → ℕ
snippets_tokens [] = 0
snippets_tokens (e ∷ es) = snippet_tokens e + snippets_tokens es

-- What is left out, in reverse: nothing, or events of which the last exceeds the limit.
abbrev pub LeftOut : ℕ → ℕ → List Text → Bool → Type 0
LeftOut limit used [] truncated = truncated ≡ false
LeftOut limit used (e ∷ es) truncated = (truncated ≡ true) × (limit < used + snippet_tokens e)

pack_recent_lem :
    (limit : ℕ) (es packed : List Text) (used : ℕ)
    → used ≡ snippets_tokens packed
    → used ≤ limit
    → let (out, truncated) = pack_recent limit es packed used in
      (rest : List Text) × (reverse es ++ packed ≡ reverse rest ++ out)
      × (snippets_tokens out ≤ limit)
      × LeftOut limit (snippets_tokens out) rest truncated
unfolding pack_recent
pack_recent_lem limit [] packed used c h = ([], refl, omega arith, refl)
pack_recent_lem limit (e ∷ es) packed used c h =
    elim (Bool-cases (ltb limit (used + snippet_tokens e))) [
      | inl over ↦ rw over (e ∷ es, refl, omega arith, (refl, ground arith))
      | inr fits ↦
          let (rest, splits, within, out) =
            pack_recent_lem limit es (e ∷ packed) (used + snippet_tokens e) (omega arith)
              (ground arith) in
          rw fits (
            rest,
            (rw (reverse-append (e ∷ []) es) (append_assoc (reverse es) (e ∷ []) packed)) ∙ splits,
            within,
            out,
          )
    ]

-- Under a limit the packed events are a suffix of the events whose snippets are within the limit;
-- `truncated` says exactly whether an event is left out, and the last one left out would exceed it.
pub pack_events_longest_suffix :
    (limit : ℕ) (events : List Text)
    → let (packed, truncated) = pack_events_under_token_limit events (some limit) in
      (rest : List Text) × (events ≡ reverse rest ++ packed)
      × (snippets_tokens packed ≤ limit)
      × LeftOut limit (snippets_tokens packed) rest truncated
unfolding pack_events_under_token_limit
pack_events_longest_suffix limit events =
    let (rest, splits, within, out) =
      pack_recent_lem limit (reverse events) [] 0 refl (omega arith) in
    (
      rest,
      (sym (reverse-reverse events) ∙ sym (append-nil (reverse (reverse events)))) ∙ splits,
      within,
      out,
    )

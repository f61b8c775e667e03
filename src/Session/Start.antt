-- ===== src/Session/Start.antt =====
-- The start of a session: `classify_session_start` of mneme_service/session_drift.py, and the table
-- `session_context_fill` of mneme_service/storage.py that says whether its context is to be filled.
use mneme_universal_context.Prelude.{
  ℕ, ◌≡◌, refl, ap, ◌∙◌, Bool, true, false, not, ◌&&◌, ◌||◌, Option, none, some, List, [], ◌∷◌,
  ◌++◌, arith, ltb, ◌==◌, if◌then◌else◌, filter, Bool-cases, inl, inr,
}
use mneme_universal_context.Prelude.Text.{Text, codes, same_text}

-- What the metadata has: `lifecycle` is the text after `str(...).upper()`, and `lineage` the
-- values of LINEAGE_KEYS in their order, `none` where one is missing or not a string.
pub record Metadata : Type 0 where
  pub resume : Bool
  pub lifecycle : Text
  pub lineage : List (Option Text)

pub data Classification : Type 0 where
  fresh resumed : Classification

pub data ResumeSource : Type 0 where
  new_session existing_session_events adapter_metadata : ResumeSource

pub record SessionStart : Type 0 where
  pub classification : Classification
  pub resume_source : ResumeSource
  pub requires_context_fill : Bool
  pub adapter_resume_requested : Bool
  pub lineage_session_id : Option Text

abbrev pub first_metadata_string : List (Option Text) → Option Text
first_metadata_string [] = none
first_metadata_string (none ∷ vs) = first_metadata_string vs
first_metadata_string (some [] ∷ vs) = first_metadata_string vs
first_metadata_string (some (c ∷ s) ∷ vs) = some (c ∷ s)

abbrev pub is_resume_lifecycle : Text → Bool
is_resume_lifecycle t =
    same_text t (codes "RESUME")
    || same_text t (codes "RESUMED")
    || same_text t (codes "RESTART")
    || same_text t (codes "RESTARTED")

abbrev pub is_some : Option Text → Bool
is_some none = false
is_some (some t) = true

abbrev pub is_resumed : Classification → Bool
is_resumed resumed = true
is_resumed fresh = false

-- A count of the lineage that is not given is that of the session.
abbrev pub or_prior : Option ℕ → ℕ → ℕ
or_prior none n = n
or_prior (some m) n = m

unfoldable pub classify_session_start : Metadata → ℕ → ℕ → Option ℕ → Option ℕ → SessionStart
classify_session_start metadata prior_event_count prior_turn_count lineage_event_count
      lineage_turn_count =
    let lineage_session_id = first_metadata_string metadata.lineage in
    let requested =
      metadata.resume || is_resume_lifecycle metadata.lifecycle || is_some lineage_session_id in
    let has_prior_events =
      ltb 0 (or_prior lineage_event_count prior_event_count)
      || ltb 0 (or_prior lineage_turn_count prior_turn_count) in
    let classification =
      if has_prior_events then resumed else if requested then resumed else fresh in
    record {
      classification = classification;
      resume_source =
          if has_prior_events
          then existing_session_events
          else if requested
          then adapter_metadata
          else new_session;
      requires_context_fill = is_resumed classification && has_prior_events;
      adapter_resume_requested = requested;
      lineage_session_id = lineage_session_id;
    }

pub record ContextFill : Type 0 where
  pub session_id : ℕ
  pub required : Bool
  pub fulfilled : Bool

-- INSERT OR REPLACE under the session.
unfoldable pub set_context_fill_required : ℕ → Bool → List ContextFill → List ContextFill
set_context_fill_required s required t =
    filter (λ (c : ContextFill). not (c.session_id == s)) t
    ++ record { session_id = s; required = required; fulfilled = false } ∷ []

unfoldable pub context_fill_required : ℕ → List ContextFill → Bool
context_fill_required s [] = false
context_fill_required s (c ∷ t) =
    if c.session_id == s then c.required && not c.fulfilled else context_fill_required s t

unfoldable pub mark_context_fill_fulfilled : ℕ → List ContextFill → List ContextFill
mark_context_fill_fulfilled s [] = []
mark_context_fill_fulfilled s (c ∷ t) =
    (if c.session_id == s then record c { fulfilled = true } else c)
    ∷ mark_context_fill_fulfilled s t

-- A session starts, with its metadata, its numbers of events and turns and those of its lineage,
-- or a context is packed for it: whether events were selected for that context.
pub data FillEvent : Type 0 where
  starts : ℕ → Metadata → ℕ → ℕ → ℕ → ℕ → FillEvent
  packs : ℕ → Bool → FillEvent

unfoldable pub apply_fill : FillEvent → List ContextFill → List ContextFill
unfolding classify_session_start set_context_fill_required context_fill_required
    mark_context_fill_fulfilled
apply_fill (starts s m prior_events prior_turns events turns) t =
    set_context_fill_required s
      (classify_session_start m prior_events prior_turns (some events)
        (some turns)).requires_context_fill
      t
apply_fill (packs s selected) t =
    if context_fill_required s t && selected then mark_context_fill_fulfilled s t else t

unfoldable pub apply_fills : List FillEvent → List ContextFill → List ContextFill
unfolding apply_fill
apply_fills [] t = t
apply_fills (e ∷ es) t = apply_fills es (apply_fill e t)

-- Whether the context of a session is to be filled: it started with events or turns in its
-- lineage, and no context with selected events was packed since.
abbrev pub is_due : ℕ → Bool → List FillEvent → Bool
is_due s due [] = due
is_due s due (starts t m prior_events prior_turns events turns ∷ es) =
    is_due s (if t == s then ltb 0 events || ltb 0 turns else due) es
is_due s due (packs t selected ∷ es) = is_due s (if t == s && selected then false else due) es

filled_if_prior :
    (prior requested : Bool)
    → (is_resumed (if prior then resumed else if requested then resumed else fresh) && prior)
      ≡ prior
filled_if_prior true requested = refl
filled_if_prior false true = refl
filled_if_prior false false = refl

context_fill_required-set :
    (s t : ℕ) (required : Bool) (cs : List ContextFill)
    → context_fill_required s (set_context_fill_required t required cs)
      ≡ (if t == s then required else context_fill_required s cs)
unfolding context_fill_required set_context_fill_required
context_fill_required-set s t required [] = ground arith
context_fill_required-set s t required (c ∷ cs) =
    ground (arith, context_fill_required-set s t required cs)

context_fill_required-mark :
    (s t : ℕ) (cs : List ContextFill)
    → context_fill_required s (mark_context_fill_fulfilled t cs)
      ≡ (if t == s then false else context_fill_required s cs)
unfolding context_fill_required mark_context_fill_fulfilled
context_fill_required-mark s t [] = ground arith
context_fill_required-mark s t (c ∷ cs) = ground (arith, context_fill_required-mark s t cs)

unmarked :
    (s k : ℕ) (required selected due : Bool)
    → (k == s ≡ true → required ≡ due)
    → (required && selected) ≡ false
    → due ≡ (if k == s && selected then false else due)
unmarked s k required true due same h = elim (Bool-cases (k == s)) [
  | inl e ↦ let d = same e in rw e (ground arith)
  | inr e ↦ rw e refl
]
unmarked s k required false due same h = elim (Bool-cases (k == s)) [
  | inl e ↦ rw e refl
  | inr e ↦ rw e refl
]

context_fill_required-pack :
    (s k : ℕ) (selected : Bool) (cs : List ContextFill)
    → context_fill_required s (apply_fill (packs k selected) cs)
      ≡ (if k == s && selected then false else context_fill_required s cs)
unfolding apply_fill
context_fill_required-pack s k selected cs =
    elim (Bool-cases (context_fill_required k cs && selected)) [
      | inl marks ↦
          let given : selected ≡ true = ground arith in
          rw marks (context_fill_required-mark s k cs ∙ rw given (ground arith))
      | inr leaves ↦ rw leaves (
          unmarked s k (context_fill_required k cs) selected (context_fill_required s cs)
            (λ e. let same : k ≡ s = ground arith in rw same refl) leaves)
    ]

-- However sessions start and contexts are packed, the table requires the filling of a session's
-- context exactly if the session last started with events or turns in its lineage, whatever
-- its metadata asks for, and no context of it with selected events was packed since; a context
-- that was packed without events leaves it required.
pub context_fill_required_lem :
    (s : ℕ) (es : List FillEvent) (t : List ContextFill)
    → context_fill_required s (apply_fills es t) ≡ is_due s (context_fill_required s t) es
unfolding apply_fills apply_fill classify_session_start
context_fill_required_lem s [] t = refl
context_fill_required_lem s (starts k m prior_events prior_turns events turns ∷ es) t =
    context_fill_required_lem s es _
    ∙ ap (λ b. is_due s b es)
        (context_fill_required-set s k _ t
          ∙ ap (λ b. if k == s then b else context_fill_required s t)
              (filled_if_prior (ltb 0 events || ltb 0 turns) (
                m.resume
                || is_resume_lifecycle m.lifecycle
                || is_some (first_metadata_string m.lineage))))
context_fill_required_lem s (packs k selected ∷ es) t =
    context_fill_required_lem s es _
    ∙ ap (λ b. is_due s b es) (context_fill_required-pack s k selected t)

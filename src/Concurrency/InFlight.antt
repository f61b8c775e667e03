-- ===== src/Concurrency/InFlight.antt =====
-- `InFlightReadTracker` of mneme_service/app.py: the readers of each session, counted in a dict.
-- Both blocks run under the lock, so each is one step.
use mneme_universal_context.Prelude.{
  ℕ, ◌+◌, ◌-◌, ◌<◌, ◌≡◌, inl, inr, refl, ap, ◌∙◌, List, [], ◌∷◌, arith, ltb, ◌==◌, if◌then◌else◌,
  Bool-cases,
}

abbrev pub Counters : Type 0
Counters = List (ℕ × ℕ)

-- `counts.get(session_id, 0)`, also the method `count`
pub count_reads : ℕ → Counters → ℕ
count_reads s [] = 0
count_reads s ((k, n) ∷ cs) = if k == s then n else count_reads s cs

-- `counts[session_id] = n`
pub set_count : ℕ → ℕ → Counters → Counters
set_count s n [] = (s, n) ∷ []
set_count s n ((k, m) ∷ cs) =
    let rest = set_count s n cs in if k == s then (k, n) ∷ cs else (k, m) ∷ rest

-- `counts.pop(session_id, None)`
pub pop_count : ℕ → Counters → Counters
pop_count s [] = []
pop_count s ((k, m) ∷ cs) = let rest = pop_count s cs in if k == s then cs else (k, m) ∷ rest

pub enter : ℕ → Counters → Counters
unfolding set_count count_reads
enter s cs = set_count s (count_reads s cs + 1) cs

-- `remaining` may be negative in Python; it is then popped, as at 0.
pub exit : ℕ → Counters → Counters
unfolding set_count count_reads pop_count
exit s cs =
    let remaining = count_reads s cs - 1 in
    if ltb 0 remaining then set_count s remaining cs else pop_count s cs

-- Each session has one entry, and a positive count.
abbrev pub IsValid : Counters → Type 0
IsValid [] = Unit
IsValid ((k, n) ∷ cs) = (0 < n) × (count_reads k cs ≡ 0) × IsValid cs

pub count_reads-set_count :
    (s t n : ℕ) (cs : Counters)
    → count_reads t (set_count s n cs) ≡ (if s == t then n else count_reads t cs)
unfolding count_reads set_count
count_reads-set_count s t n [] = refl
count_reads-set_count s t n ((k, m) ∷ cs) = ground (arith, count_reads-set_count s t n cs)

pub count_reads-pop_count :
    (s t : ℕ) (cs : Counters)
    → IsValid cs
    → count_reads t (pop_count s cs) ≡ (if s == t then 0 else count_reads t cs)
unfolding count_reads pop_count
count_reads-pop_count s t [] v = ground arith
count_reads-pop_count s t ((k, m) ∷ cs) v = ground (arith, count_reads-pop_count s t cs v.2)

set_count-IsValid : (s n : ℕ) (cs : Counters) → 0 < n → IsValid cs → IsValid (set_count s n cs)
unfolding set_count
set_count-IsValid s n [] h v = (h, (unfold count_reads in refl), tt)
set_count-IsValid s n ((k, m) ∷ cs) h v =
    ground (arith, set_count-IsValid s n cs h v.2, count_reads-set_count s k n cs)

pop_count-IsValid : (s : ℕ) (cs : Counters) → IsValid cs → IsValid (pop_count s cs)
unfolding pop_count
pop_count-IsValid s [] v = tt
pop_count-IsValid s ((k, m) ∷ cs) v =
    ground (arith, pop_count-IsValid s cs v.2, count_reads-pop_count s k cs v.2)

pub data Event : Type 0 where
  entering leaving : ℕ → Event

abbrev pub apply_event : Event → Counters → Counters
apply_event (entering s) cs = enter s cs
apply_event (leaving s) cs = exit s cs

pub run_events : List Event → Counters → Counters
run_events [] cs = cs
run_events (e ∷ es) cs = run_events es (apply_event e cs)

-- The readers of a session that are inside, counted along the events.
abbrev pub inside : ℕ → ℕ → List Event → ℕ
inside t n [] = n
inside t n (entering s ∷ es) = inside t (if s == t then n + 1 else n) es
inside t n (leaving s ∷ es) = inside t (if s == t then n - 1 else n) es

apply_event_lem :
    (e : Event) (cs : Counters)
    → IsValid cs
    → IsValid (apply_event e cs)
      × ((t : ℕ)
          → (es : List Event)
          → inside t (count_reads t (apply_event e cs)) es ≡ inside t (count_reads t cs) (e ∷ es))
unfolding enter exit
apply_event_lem (entering s) cs v = (
  set_count-IsValid s (count_reads s cs + 1) cs (omega arith) v,
  λ t es.
      ap (λ n. inside t n es) (ground (arith, count_reads-set_count s t (count_reads s cs + 1) cs)),
)
apply_event_lem (leaving s) cs v = elim (Bool-cases (ltb 0 (count_reads s cs - 1))) [
  | inl more ↦ rw more (
    set_count-IsValid s (count_reads s cs - 1) cs (ground arith) v,
    λ t es.
        ap (λ n. inside t n es)
          (ground (arith, count_reads-set_count s t (count_reads s cs - 1) cs)),
  )
  | inr last ↦ rw last (
    pop_count-IsValid s cs v,
    λ t es. ap (λ n. inside t n es) (ground (arith, count_reads-pop_count s t cs v)),
  )
]

-- From valid counters, whatever the readers of all sessions do, in any order, `count` is the
-- number of readers of the session that are inside, and no session with none keeps an entry.
pub run_events-count :
    (es : List Event) (cs : Counters)
    → IsValid cs
    → IsValid (run_events es cs)
      × ((t : ℕ) → count_reads t (run_events es cs) ≡ inside t (count_reads t cs) es)
unfolding run_events
run_events-count [] cs v = (v, λ t. refl)
run_events-count (e ∷ es) cs v =
    let step = apply_event_lem e cs v in
    let ih = run_events-count es (apply_event e cs) step.0 in (ih.0, λ t. ih.1 t ∙ step.1 t es)

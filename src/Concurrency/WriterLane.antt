-- ===== src/Concurrency/WriterLane.antt =====
-- `WriterLane` of mneme_service/storage.py: the writers' semaphore of `max_queue_depth` slots and
-- the lock under which one of them writes. The threads that are inside `enter` are counted by
-- what they have done; each step is what one thread does between two waits, in any order.
use mneme_universal_context.Prelude.{
  ℕ, ◌+◌, ◌-◌, ◌*◌, ◌≤◌, ◌<◌, max, ◌≡◌, ◌↔◌, inl, inr, Option, none, some, arith, ◌==◌,
  if◌then◌else◌, Bool-cases,
}

pub record Lane : Type 0 where
  -- free slots of the semaphore
  pub slots : ℕ
  -- the counter `_in_use`
  pub in_use : ℕ
  -- threads that have a slot and have not counted themselves
  pub entered : ℕ
  -- threads that have counted themselves and wait for the lock to write
  pub counted : ℕ
  -- threads in the body, with the lock
  pub writing : ℕ
  -- threads behind the body, by the end or by an error
  pub leaving : ℕ
  -- threads that have taken themselves off the count and have the slot
  pub uncounted : ℕ

-- `max(1, int(max_queue_depth))`
unfoldable pub new_lane : ℕ → Lane
new_lane max_queue_depth = record {
  slots = max 1 max_queue_depth;
  in_use = 0;
  entered = 0;
  counted = 0;
  writing = 0;
  leaving = 0;
  uncounted = 0;
}

-- `acquire(blocking=False)`: `none` is the error WRITER_QUEUE_FULL.
unfoldable pub try_acquire : Lane → Option Lane
try_acquire l =
    if l.slots == 0 then none else some (record l { slots = l.slots - 1; entered = l.entered + 1 })

-- The lock is free exactly when no thread writes: the other blocks under it are one step.
pub data Step : Lane → Lane → Type 0 where
  acquire : (l : Lane) {l' : Lane} → try_acquire l ≡ some l' → Step l l'
  count_in :
      (l : Lane)
      → l.writing ≡ 0
      → 0 < l.entered
      → Step l
          (record l { entered = l.entered - 1; counted = l.counted + 1; in_use = l.in_use + 1 })
  begin_write :
      (l : Lane)
      → l.writing ≡ 0
      → 0 < l.counted
      → Step l (record l { counted = l.counted - 1; writing = 1 })
  end_write :
      (l : Lane)
      → 0 < l.writing
      → Step l (record l { writing = l.writing - 1; leaving = l.leaving + 1 })
  count_out :
      (l : Lane)
      → l.writing ≡ 0
      → 0 < l.leaving
      → Step l
          (record l { leaving = l.leaving - 1; uncounted = l.uncounted + 1; in_use = l.in_use - 1 })
  release :
      (l : Lane)
      → 0 < l.uncounted
      → Step l (record l { uncounted = l.uncounted - 1; slots = l.slots + 1 })

pub data Reachable (d : ℕ) : Lane → Type 0 where
  fresh : Reachable d (new_lane d)
  next : {l l' : Lane} → Reachable d l → Step l l' → Reachable d l'

-- At most one thread writes; the counter is the number of threads that have counted themselves in
-- and not out; and each thread inside has one of the slots.
pub record IsSafe (d : ℕ) (l : Lane) : Type 0 where
  pub one_writer : l.writing ≤ 1
  pub counter : l.in_use ≡ l.counted + l.writing + l.leaving
  pub accounted : l.slots + l.entered + l.counted + l.writing + l.leaving + l.uncounted ≡ max 1 d

new_lane-IsSafe : (d : ℕ) → IsSafe d (new_lane d)
unfolding new_lane
new_lane-IsSafe d = omega arith

Step-IsSafe : {d : ℕ} {l l' : Lane} → Step l l' → IsSafe d l → IsSafe d l'
unfolding try_acquire
Step-IsSafe (acquire l e) s = ground arith
Step-IsSafe (count_in l w h) s = omega arith
Step-IsSafe (begin_write l w h) s = omega arith
Step-IsSafe (end_write l h) s = omega arith
Step-IsSafe (count_out l w h) s = omega arith
Step-IsSafe (release l h) s = omega arith

-- However the writers' steps interleave: at most one writes, `depth` never exceeds the slots, and
-- a writer is turned away exactly when as many threads are inside as there are slots.
pub Reachable-IsSafe :
    {d : ℕ} {l : Lane}
    → Reachable d l
    → (l.writing ≤ 1)
      × (l.in_use ≤ max 1 d)
      × ((try_acquire l ≡ none)
          ↔ (l.entered + l.counted + l.writing + l.leaving + l.uncounted ≡ max 1 d))
unfolding try_acquire
Reachable-IsSafe {d} {l} r =
    let s : IsSafe d l = safe r in
    (
      omega (arith, s.one_writer),
      omega (arith, s.counter, s.accounted),
      (λ h. ground (arith, s.accounted), λ h. ground (arith, s.accounted)),
    )
  where
    safe : {l' : Lane} → Reachable d l' → IsSafe d l'
    safe fresh = new_lane-IsSafe d
    safe (next r st) = Step-IsSafe st (safe r)

-- The steps that the threads inside still have to take.
abbrev pub steps_left : Lane → ℕ
steps_left l = 5 * l.entered + 4 * l.counted + 3 * l.writing + 2 * l.leaving + l.uncounted

-- The writers never deadlock: while a thread is inside, one that is inside has a step, and it
-- brings the steps that are left down by one, so that all of them get out.
pub progress :
    (l : Lane)
    → 0 < l.entered + l.counted + l.writing + l.leaving + l.uncounted
    → (l' : Lane) × Step l l' × (steps_left l' + 1 ≡ steps_left l)
progress l h = elim (Bool-cases (l.writing == 0)) [
  | inr busy ↦ (_, end_write l (ground arith), ground arith)
  | inl free ↦
      let w : l.writing ≡ 0 = ground arith in
      elim (Bool-cases (l.entered == 0)) [
        | inr e ↦ (_, count_in l w (ground arith), ground arith)
        | inl e ↦ elim (Bool-cases (l.counted == 0)) [
          | inr c ↦ (_, begin_write l w (ground arith), ground arith)
          | inl c ↦ elim (Bool-cases (l.leaving == 0)) [
            | inr k ↦ (_, count_out l w (ground arith), ground arith)
            | inl k ↦ (_, release l (ground arith), ground arith)
          ]
        ]
      ]
]

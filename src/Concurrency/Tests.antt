-- ===== src/Concurrency/Tests.antt =====
-- Tests of the writers' lane and the counted readers.
use mneme_universal_context.Prelude.{◌+◌, ◌≤◌, max, ◌≡◌, ◌↔◌, refl, none, List, [], ◌∷◌, arith}
use mneme_universal_context.Concurrency.WriterLane.{
  Lane, Step, acquire, Reachable, fresh, next, new_lane, try_acquire, steps_left, Reachable-IsSafe,
  progress,
}
use mneme_universal_context.Concurrency.InFlight.{Event, entering, leaving}

-- One slot, and a writer that has it.
abbrev busy : Lane
busy = record {
  slots = 0;
  in_use = 0;
  entered = 1;
  counted = 0;
  writing = 0;
  leaving = 0;
  uncounted = 0;
}

Reachable-busy : Reachable 1 busy
unfolding new_lane try_acquire
Reachable-busy = next fresh (acquire (new_lane 1) refl)

Reachable-IsSafe_example :
    (busy.writing ≤ 1)
    × (busy.in_use ≤ max 1 1)
    × ((try_acquire busy ≡ none)
        ↔ (busy.entered + busy.counted + busy.writing + busy.leaving + busy.uncounted ≡ max 1 1))
Reachable-IsSafe_example = Reachable-IsSafe Reachable-busy

progress_example : (l' : Lane) × Step busy l' × (steps_left l' + 1 ≡ steps_left busy)
progress_example = progress busy (omega arith)

-- Two readers of session 1 come in, and one of session 2 comes and goes.
abbrev events : List Event
events = entering 1 ∷ entering 2 ∷ entering 1 ∷ leaving 2 ∷ []

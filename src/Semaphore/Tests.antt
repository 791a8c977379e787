-- ===== src/Semaphore/Tests.antt =====
-- Histories of two callers under a limit of one.
use parrot_coder.Base.{
  ◌≡◌, refl, ◌≤◌, ◌<◌, ◌+◌, ◌⊎◌, ◌≢◌, List, [], ◌∷◌, none, some, arith, length, All,
}
use parrot_coder.Semaphore.Counts.{count, erase}
use parrot_coder.Semaphore.{
  World, Event, tries, enters, wakes, cancels, releases, start, step, run, try_acquire, enter,
  release,
}
use parrot_coder.Semaphore.Order.{permits_bounded, release_serves_first, blocked_can_cancel}

abbrev contention : List Event
contention = enters ∷ enters ∷ tries ∷ enters ∷ []

abbrev contended : World
contended = record {
  sem = record { used = 1; limit = 1; waiters = 1 ∷ 2 ∷ []; closed = [] };
  blocked = 2 ∷ 1 ∷ [];
  permits = 0 ∷ [];
  next = 3;
}

contended_history : run (start 1) contention ≡ some contended
unfolding run step try_acquire enter
contended_history = refl

abbrev handed_over : World
handed_over = record {
  sem = record { used = 1; limit = 1; waiters = 2 ∷ []; closed = [] };
  blocked = 2 ∷ [];
  permits = 3 ∷ [];
  next = 4;
}

-- The permit goes to the first waiter, and a second Release of it does nothing.
run-contended : run contended (releases 0 ∷ wakes 1 ∷ releases 0 ∷ []) ≡ some handed_over
unfolding run step release count erase
run-contended = refl

permits_bounded_example :
    (length contended.permits ≤ 1)
    × ((contended.sem.waiters ≡ []) ⊎ (length contended.permits + length contended.sem.closed ≡ 1))
permits_bounded_example = permits_bounded 1 contention contended contended_history

release_serves_first_example :
    ((release contended.sem).closed ≡ 1 ∷ [])
    × ((release contended.sem).waiters ≡ 2 ∷ [])
    × ((release contended.sem).used ≡ 1)
    × All (λ later. 1 < later) (2 ∷ [])
release_serves_first_example =
    release_serves_first 1 contention contended contended_history 1 (2 ∷ []) refl

blocked_can_cancel_example : step contended (cancels 2) ≢ none
unfolding count
blocked_can_cancel_example =
    blocked_can_cancel 1 contention contended contended_history 2 (omega arith)

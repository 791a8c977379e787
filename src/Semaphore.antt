-- ===== src/Semaphore.antt =====
-- internal/agent/concurrency.go: the semaphore that bounds concurrent child turns.
pub mod Counts
pub mod Invariant
pub mod Order
mod Tests
use parrot_coder.Base.{
  ℕ, suc, ◌+◌, ◌-◌, Bool, true, false, not, ◌&&◌, ◌||◌, List, [], ◌∷◌, ◌++◌, Option, none, some,
  ltb, ◌==◌, if◌then◌else◌,
}
use Counts.{count, erase}

-- childTurnSemaphore. A waiter is known by its channel; `closed` holds the channels that `release`
-- has closed and whose acquire has not gone on yet.
pub record Sem : Type 0 where
  pub used : ℕ
  pub limit : ℕ
  pub waiters : List ℕ
  pub closed : List ℕ

abbrev pub new : ℕ → Sem
new limit = record { used = 0; limit = limit; waiters = []; closed = [] }

abbrev pub is_nil : List ℕ → Bool
is_nil [] = true
is_nil (_ ∷ _) = false

-- tryAcquire: the new state, and whether a permit was given.
pub try_acquire : Sem → Sem × Bool
try_acquire s =
    if s.used == s.limit || not (is_nil s.waiters)
    then (s, false)
    else (record s { used = suc s.used }, true)

-- The first critical section of acquire; `false` says that the caller waits on the channel `ready`.
pub enter : ℕ → Sem → Sem × Bool
enter ready s =
    if ltb s.used s.limit && is_nil s.waiters
    then (record s { used = suc s.used }, true)
    else (record s { waiters = s.waiters ++ ready ∷ [] }, false)

unfoldable pub release_first : List ℕ → Sem → Sem
release_first [] s = record s { used = s.used - 1 }
release_first (ready ∷ waiters) s = record s { waiters = waiters; closed = ready ∷ s.closed }

pub release : Sem → Sem
unfolding release_first
release s = release_first s.waiters s

-- The branch of acquire on a cancelled context. A waiter that is no longer in the list receives
-- from its channel and gives the permit back; `none` says that the channel is not closed.
pub cancel : ℕ → Sem → Option Sem
cancel ready s =
    if ltb 0 (count ready s.waiters)
    then some (record s { waiters = erase ready s.waiters })
    else if ltb 0 (count ready s.closed)
    then some (release (record s { closed = erase ready s.closed }))
    else none

-- The semaphore with its callers: `blocked` are the channels that an acquire waits on, `permits`
-- the permits that are out, each with a name of its own.
pub record World : Type 0 where
  pub sem : Sem
  pub blocked : List ℕ
  pub permits : List ℕ
  pub next : ℕ

abbrev pub start : ℕ → World
start limit = record { sem = new limit; blocked = []; permits = []; next = 0 }

pub data Event : Type 0 where
  tries enters : Event
  wakes cancels releases : ℕ → Event

abbrev pub give : Sem → World → World
give s w = record w { sem = s; permits = w.next ∷ w.permits; next = suc w.next }

unfoldable pub tried : Sem × Bool → World → World
tried (s, true) w = give s w
tried (s, false) w = w

unfoldable pub entered : Sem × Bool → World → World
entered (s, true) w = give s w
entered (s, false) w = record w { sem = s; blocked = w.next ∷ w.blocked; next = suc w.next }

unfoldable pub cancelled : ℕ → World → Option Sem → Option World
cancelled ready w none = none
cancelled ready w (some s) = some (record w { sem = s; blocked = erase ready w.blocked })

-- One atomic step of a caller; `none` if it cannot be taken now. Release works once per permit.
pub step : World → Event → Option World
unfolding tried entered cancelled
step w tries = some (tried (try_acquire w.sem) w)
step w enters = some (entered (enter w.next w.sem) w)
step w (wakes ready) =
    if ltb 0 (count ready w.sem.closed) && ltb 0 (count ready w.blocked)
    then some (
        give (record w.sem { closed = erase ready w.sem.closed })
          (record w { blocked = erase ready w.blocked }))
    else none
step w (cancels ready) =
    if ltb 0 (count ready w.blocked) then cancelled ready w (cancel ready w.sem) else none
step w (releases permit) =
    if ltb 0 (count permit w.permits)
    then some (record w { sem = release w.sem; permits = erase permit w.permits })
    else some w

-- A history of steps, each of which can be taken.
pub run : World → List Event → Option World
run w [] = some w
run w (e ∷ es) = elim (step w e) [ none ↦ none | some w' ↦ run w' es ]

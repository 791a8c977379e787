-- ===== src/Semaphore/Order.antt =====
-- Whole histories: the permits that are out, and the order of the waiters.
use parrot_coder.Base.{
  ℕ, suc, ◌+◌, ◌≡◌, ◌≢◌, refl, ◌≤◌, ◌<◌, ◌⊎◌, List, [], ◌∷◌, ◌++◌, none, some, arith, length, All,
  subst,
}
use parrot_coder.Semaphore.Counts.{count, erase}
use parrot_coder.Semaphore.{
  Sem, World, Event, tries, enters, wakes, cancels, releases, try_acquire, enter, release, cancel,
  step, run, start, tried, entered, cancelled,
}
use parrot_coder.Semaphore.Invariant.{After, start-Inv, run-step, run-Inv, cancel_never_stuck}

-- Channels are made in order of arrival, so later callers have larger ones.
abbrev pub IsAscending : List ℕ → ℕ → Type 0
IsAscending [] bound = Unit {0}
IsAscending (c ∷ cs) bound = (c < bound) × All (λ b. c < b) cs × IsAscending cs bound

All-append_one :
    (n c : ℕ) (cs : List ℕ) → All (λ b. n < b) cs → n < c → All (λ b. n < b) (cs ++ c ∷ [])
All-append_one n c [] a h = (h, tt)
All-append_one n c (x ∷ cs) a h = (a.0, All-append_one n c cs a.1 h)

IsAscending-mono :
    (cs : List ℕ) (bound bound' : ℕ) → bound ≤ bound' → IsAscending cs bound → IsAscending cs bound'
IsAscending-mono [] bound bound' h a = tt
IsAscending-mono (c ∷ cs) bound bound' h a =
    (omega arith, a.1, IsAscending-mono cs bound bound' h a.2)

IsAscending-append :
    (cs : List ℕ) (bound : ℕ) → IsAscending cs bound → IsAscending (cs ++ bound ∷ []) (suc bound)
IsAscending-append [] bound a = (omega arith, tt, tt)
IsAscending-append (c ∷ cs) bound a =
    (omega arith, All-append_one c bound cs a.1 a.0, IsAscending-append cs bound a.2)

All-erase : (n c : ℕ) (cs : List ℕ) → All (λ b. n < b) cs → All (λ b. n < b) (erase c cs)
unfolding erase
All-erase n c [] a = tt
All-erase n c (x ∷ cs) a = ground (arith, All-erase n c cs a.1)

IsAscending-erase :
    (c : ℕ) (cs : List ℕ) (bound : ℕ) → IsAscending cs bound → IsAscending (erase c cs) bound
unfolding erase
IsAscending-erase c [] bound a = tt
IsAscending-erase c (x ∷ cs) bound a =
    ground (arith, IsAscending-erase c cs bound a.2, All-erase x c cs a.1)

-- The limit never changes, and the waiters stay in order of arrival.
pub record Ordered (limit : ℕ) (w : World) : Type 0 where
  pub same_limit : w.sem.limit ≡ limit
  pub ascending : IsAscending w.sem.waiters w.next

release-IsAscending :
    (s : Sem) (bound : ℕ) → IsAscending s.waiters bound → IsAscending (release s).waiters bound
unfolding release
release-IsAscending s bound a = ground arith

release-limit : (s : Sem) → (release s).limit ≡ s.limit
unfolding release
release-limit s = ground arith

module _ (limit : ℕ) (w : World) (o : Ordered limit w) where
  tries-Ordered : Ordered limit (tried (try_acquire w.sem) w)
  unfolding tried try_acquire
  tries-Ordered = record {
    same_limit = ground (arith, o.same_limit);
    ascending = ground (
      arith,
      o.ascending,
      IsAscending-mono w.sem.waiters w.next (suc w.next) (omega arith) o.ascending,
    );
  }

  enters-Ordered : Ordered limit (entered (enter w.next w.sem) w)
  unfolding entered enter
  enters-Ordered = record {
    same_limit = ground (arith, o.same_limit);
    ascending = ground (
      arith,
      IsAscending-mono w.sem.waiters w.next (suc w.next) (omega arith) o.ascending,
      IsAscending-append w.sem.waiters w.next o.ascending,
    );
  }

  wakes-Ordered : (c : ℕ) → After (Ordered limit) (step w (wakes c))
  unfolding step
  wakes-Ordered c = ground (
    arith,
    o.same_limit,
    IsAscending-mono w.sem.waiters w.next (suc w.next) (omega arith) o.ascending,
  )

  cancels-Ordered : (c : ℕ) → After (Ordered limit) (step w (cancels c))
  unfolding step cancel cancelled
  cancels-Ordered c =
      let s = record w.sem { closed = erase c w.sem.closed } in
      ground (
        arith,
        o.same_limit,
        IsAscending-erase c w.sem.waiters w.next o.ascending,
        release-IsAscending s w.next o.ascending,
        release-limit s,
      )

  releases-Ordered : (c : ℕ) → After (Ordered limit) (step w (releases c))
  unfolding step
  releases-Ordered c =
      ground
        (arith, o.same_limit, release-IsAscending w.sem w.next o.ascending, release-limit w.sem)

step-Ordered :
    (limit : ℕ) (w : World) (e : Event) → Ordered limit w → After (Ordered limit) (step w e)
unfolding step
step-Ordered limit w tries o = tries-Ordered limit w o
step-Ordered limit w enters o = enters-Ordered limit w o
step-Ordered limit w (wakes c) o = wakes-Ordered limit w o c
step-Ordered limit w (cancels c) o = cancels-Ordered limit w o c
step-Ordered limit w (releases c) o = releases-Ordered limit w o c

run-Ordered :
    (limit : ℕ) (w w' : World) (es : List Event)
    → Ordered limit w
    → run w es ≡ some w'
    → Ordered limit w'
unfolding run
run-Ordered limit w w' [] o e = ground arith
run-Ordered limit w w' (x ∷ es) o e =
    let (u, f, g) = run-step (step w x) es w' e in
    run-Ordered limit u w' es (subst (After (Ordered limit)) f (step-Ordered limit w x o)) g

start-Ordered : (limit : ℕ) → Ordered limit (start limit)
start-Ordered limit = record { same_limit = refl; ascending = tt }

module _ (limit : ℕ) (es : List Event) (w : World) (history : run (start limit) es ≡ some w) where
  -- After every history of callers that try, enter, wake, cancel and release, in any order: at most
  -- `limit` permits are out, and while somebody waits in the list no permit is idle: each is out or
  -- on its way to a waiter whose channel is closed.
  pub permits_bounded :
      (length w.permits ≤ limit)
      × ((w.sem.waiters ≡ []) ⊎ (length w.permits + length w.sem.closed ≡ limit))
  permits_bounded =
      let v = run-Inv (start limit) w es (start-Inv limit) history in
      let o = run-Ordered limit (start limit) w es (start-Ordered limit) history in
      ground (arith, v.total, v.within, v.full, o.same_limit)

  -- After every history a release hands the permit to the waiter that came first of all that wait,
  -- and leaves the others in their order.
  pub release_serves_first :
      (first : ℕ) (rest : List ℕ)
      → w.sem.waiters ≡ first ∷ rest
      → ((release w.sem).closed ≡ first ∷ w.sem.closed)
        × ((release w.sem).waiters ≡ rest)
        × ((release w.sem).used ≡ w.sem.used)
        × All (λ later. first < later) rest
  unfolding release
  release_serves_first first rest e =
      let o = run-Ordered limit (start limit) w es (start-Ordered limit) history in
      (
        ground arith,
        ground arith,
        ground arith,
        (subst (λ l. IsAscending l w.next) e o.ascending).1,
      )

  -- After every history a caller whose acquire is blocked can cancel it without blocking.
  pub blocked_can_cancel : (c : ℕ) → 0 < count c w.blocked → step w (cancels c) ≢ none
  blocked_can_cancel = cancel_never_stuck w (run-Inv (start limit) w es (start-Inv limit) history)

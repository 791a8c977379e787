-- ===== src/Semaphore/Invariant.antt =====
-- The invariant of the semaphore under each step of its callers.
use parrot_coder.Base.{
  ℕ, ◌+◌, ◌≡◌, ◌≢◌, refl, ◌≤◌, ◌<◌, ◌⊎◌, inl, inr, Bool-cases, ◌&&◌, subst, true, List, [], ◌∷◌,
  Option, none, some, arith, ltb, length,
}
use parrot_coder.Semaphore.Counts.{count, erase, count-append, count-erase, length-erase}
use parrot_coder.Semaphore.{
  Sem, World, Event, tries, enters, wakes, cancels, releases, try_acquire, enter, release, cancel,
  step, run, start, tried, entered, cancelled,
}

-- Every permit is out or on its way to a waiter whose channel is closed; somebody waits only when
-- all permits are used; an acquire is blocked just while its channel is in the list or closed.
pub record Inv (w : World) : Type 0 where
  pub total : w.sem.used ≡ length w.permits + length w.sem.closed
  pub within : w.sem.used ≤ w.sem.limit
  pub full : (w.sem.waiters ≡ []) ⊎ (w.sem.used ≡ w.sem.limit)
  pub waiting : (c : ℕ) → count c w.blocked ≡ count c w.sem.waiters + count c w.sem.closed
  pub single : (c : ℕ) → count c w.blocked ≤ 1
  pub fresh : (c : ℕ) → w.next ≤ c → count c w.blocked ≡ 0

-- `P` after a step, if it can be taken.
abbrev pub After : (World → Type 0) → Option World → Type 0
After P none = Unit {0}
After P (some w) = P w

module _ (w : World) (v : Inv w) where
  tries-Inv : Inv (tried (try_acquire w.sem) w)
  unfolding tried try_acquire
  tries-Inv = record {
    total = ground (arith, v.total);
    within = ground (arith, v.within);
    full = ground (arith, v.full);
    waiting = λ c. ground (arith, v.waiting c);
    single = λ c. ground (arith, v.single c);
    fresh = λ c h. ground (arith, v.fresh c);
  }

  enters-Inv : Inv (entered (enter w.next w.sem) w)
  unfolding entered enter count
  enters-Inv = record {
    total = ground (arith, v.total);
    within = ground (arith, v.within);
    full = ground (arith, v.full, v.within);
    waiting = λ c. ground (arith, v.waiting c, count-append c w.sem.waiters (w.next ∷ []));
    single = λ c. ground (arith, v.single c, v.fresh c);
    fresh = λ c h. ground (arith, v.fresh c);
  }

-- Giving back a permit that is counted in `used`.
release-Inv :
    (s : Sem) (w : World)
    → s.used ≡ length w.permits + length s.closed + 1
    → s.used ≤ s.limit
    → (s.waiters ≡ []) ⊎ (s.used ≡ s.limit)
    → ((c : ℕ) → count c w.blocked ≡ count c s.waiters + count c s.closed)
    → ((c : ℕ) → count c w.blocked ≤ 1)
    → ((c : ℕ) → w.next ≤ c → count c w.blocked ≡ 0)
    → Inv (record w { sem = release s })
unfolding release count
release-Inv s w total within full waiting single fresh = record {
  total = ground arith;
  within = ground arith;
  full = ground arith;
  waiting = λ c. ground (arith, waiting c);
  single = single;
  fresh = fresh;
}

module _ (w : World) (v : Inv w) (c : ℕ) where
  wakes-Inv : After Inv (step w (wakes c))
  unfolding step
  wakes-Inv = elim (Bool-cases (ltb 0 (count c w.sem.closed) && ltb 0 (count c w.blocked))) [
    | inl e ↦ rw e (record {
      total = ground (arith, v.total, length-erase c w.sem.closed);
      within = v.within;
      full = v.full;
      waiting =
          λ b. ground (arith, v.waiting b, count-erase b c w.blocked, count-erase b c w.sem.closed);
      single = λ b. ground (arith, v.single b, count-erase b c w.blocked);
      fresh = λ b h. ground (arith, v.fresh b, count-erase b c w.blocked);
    })
    | inr e ↦ rw e tt
  ]

  releases-Inv : After Inv (step w (releases c))
  unfolding step
  releases-Inv = elim (Bool-cases (ltb 0 (count c w.permits))) [
    | inl e ↦ rw e (
        release-Inv w.sem (record w { permits = erase c w.permits })
          (ground (arith, v.total, length-erase c w.permits)) v.within v.full v.waiting v.single
          v.fresh)
    | inr e ↦ rw e v
  ]

  removed_waiter-Inv :
      ltb 0 (count c w.blocked) ≡ true
      → ltb 0 (count c w.sem.waiters) ≡ true
      → Inv (record w {
        sem = record w.sem { waiters = erase c w.sem.waiters };
        blocked = erase c w.blocked;
      })
  unfolding erase
  removed_waiter-Inv b e = record {
    total = v.total;
    within = v.within;
    full = ground (arith, v.full);
    waiting =
        λ a. ground (arith, v.waiting a, count-erase a c w.blocked, count-erase a c w.sem.waiters);
    single = λ a. ground (arith, v.single a, count-erase a c w.blocked);
    fresh = λ a h. ground (arith, v.fresh a, count-erase a c w.blocked);
  }

  removed_closed-Inv :
      ltb 0 (count c w.blocked) ≡ true
      → ltb 0 (count c w.sem.closed) ≡ true
      → Inv (record w {
        sem = release (record w.sem { closed = erase c w.sem.closed });
        blocked = erase c w.blocked;
      })
  removed_closed-Inv b e =
      release-Inv (record w.sem { closed = erase c w.sem.closed })
        (record w { blocked = erase c w.blocked })
        (ground (arith, v.total, length-erase c w.sem.closed)) v.within v.full
        (λ a. ground (arith, v.waiting a, count-erase a c w.blocked, count-erase a c w.sem.closed))
        (λ a. ground (arith, v.single a, count-erase a c w.blocked))
        (λ a h. ground (arith, v.fresh a, count-erase a c w.blocked))

  cancels-Inv : After Inv (step w (cancels c))
  unfolding step cancel cancelled
  cancels-Inv = elim (Bool-cases (ltb 0 (count c w.blocked))) [
    | inr b ↦ rw b tt
    | inl b ↦ elim (Bool-cases (ltb 0 (count c w.sem.waiters))) [
      | inl e ↦ rw (b, e) (removed_waiter-Inv b e)
      | inr e ↦ elim (Bool-cases (ltb 0 (count c w.sem.closed))) [
        | inl f ↦ rw (b, e, f) (removed_closed-Inv b f)
        | inr f ↦ rw (b, e, f) tt
      ]
    ]
  ]

  -- A caller that is blocked can always cancel: if its channel has left the list it is closed, so
  -- that receiving from it does not block.
  pub cancel_never_stuck : 0 < count c w.blocked → step w (cancels c) ≢ none
  unfolding step cancel cancelled
  cancel_never_stuck h = ground (arith, v.waiting c)

-- Every step that can be taken keeps the invariant.
pub step-Inv : (w : World) (e : Event) → Inv w → After Inv (step w e)
unfolding step
step-Inv w tries v = tries-Inv w v
step-Inv w enters v = enters-Inv w v
step-Inv w (wakes c) v = wakes-Inv w v c
step-Inv w (cancels c) v = cancels-Inv w v c
step-Inv w (releases c) v = releases-Inv w v c

pub start-Inv : (limit : ℕ) → Inv (start limit)
unfolding count
start-Inv limit = record {
  total = refl;
  within = omega arith;
  full = inl refl;
  waiting = λ c. refl;
  single = λ c. omega arith;
  fresh = λ c h. refl;
}

pub run-step :
    (o : Option World) (es : List Event) (w' : World)
    → (elim o [ none ↦ none | some u ↦ run u es ]) ≡ some w'
    → (u : World) × (o ≡ some u) × (run u es ≡ some w')
run-step none es w' e = cc
run-step (some u) es w' e = (u, refl, e)

pub run-Inv : (w w' : World) (es : List Event) → Inv w → run w es ≡ some w' → Inv w'
unfolding run
run-Inv w w' [] v e = ground arith
run-Inv w w' (x ∷ es) v e =
    let (u, f, g) = run-step (step w x) es w' e in
    run-Inv u w' es (subst (After Inv) f (step-Inv w x v)) g

-- ===== src/Event/History.antt =====
-- Everything that happens to one subscription: what is received and what is queued, tool output apart.
use mathlib.Core.List.{append_assoc, append-nil, Perm}
use mathlib.Core.List.Perm
use parrot_coder.Base.{
  ℕ, ◌≤◌, ◌<◌, ◌≡◌, refl, ap, sym, ◌∙◌, List, [], ◌∷◌, ◌++◌, length, Option, none, some, arith,
  length-append, subst,
}
use parrot_coder.Event.Transient.{Event, Listener, offer}
use parrot_coder.Event.Shared.{lasting, lasting-append, held}
use parrot_coder.Event.Kept.{Offered, offer-Offered}

-- What happens to one subscription: an event is offered, or the first one queued is received.
pub data Act : Type 0 where
  publishes : Event → Act
  receives : Act

abbrev pub receive : List Event → Listener → Listener
receive [] l = l
receive (e ∷ es) l = record l { received = l.received ++ (e ∷ []); queued = es }

unfoldable pub act : Act → Listener → Option Listener
act (publishes e) l = offer e l
act receives l = some (receive l.queued l)

-- `none` is a subscription that is closed.
unfoldable pub run_acts : List Act → Listener → Option Listener
unfolding act
run_acts [] l = some l
run_acts (a ∷ as') l = elim (act a l) [ none ↦ none | some l' ↦ run_acts as' l' ]

abbrev pub published : List Act → List Event
published [] = []
published (publishes e ∷ as') = e ∷ published as'
published (receives ∷ as') = published as'

-- What is received and what is queued, tool output apart, is some events in some order, within the capacity.
pub record Holds (all : List Event) (l : Listener) : Type 0 where
  pub same : Perm (held l) all
  pub count : length (held l) ≡ length all
  pub within : length l.queued ≤ l.capacity

receive-held : (q : List Event) (l : Listener) → l.queued ≡ q → held (receive q l) ≡ held l
receive-held [] l e = refl
receive-held (x ∷ q) l e =
    ap (λ r. r ++ lasting q) (lasting-append l.received (x ∷ []))
    ∙ (append_assoc (lasting l.received) (lasting (x ∷ [])) (lasting q)
        ∙ (ap (λ r. lasting l.received ++ r) (sym (lasting-append (x ∷ []) q))
            ∙ ap (λ r. lasting l.received ++ lasting r) (sym e)))

receive-within :
    (q : List Event) (l : Listener)
    → l.queued ≡ q
    → length l.queued ≤ l.capacity
    → (length (receive q l).queued ≤ (receive q l).capacity) × ((receive q l).capacity ≡ l.capacity)
receive-within [] l e h = (h, refl)
receive-within (x ∷ q) l e h = (omega (arith, ap length e), refl)

-- After `all` lasting events, for a subscription of this capacity: it is open and they are received or queued,
-- or it is closed and there were more of them than it has room for.
abbrev pub Followed : ℕ → List Event → Option Listener → Type 0
Followed capacity all none = capacity < length all
Followed capacity all (some l) = Holds all l × (l.capacity ≡ capacity)

Offered-Followed :
    (all : List Event) (e : Event) (l : Listener) (o : Option Listener)
    → Holds all l
    → Offered e l o
    → Followed l.capacity (all ++ lasting (e ∷ [])) o
Offered-Followed all e l none h (d, full) =
    let counted : length (lasting (e ∷ [])) ≡ 1 = rw d refl in
    omega (
      arith,
      h.count,
      length-append all (lasting (e ∷ [])),
      length-append (lasting l.received) (lasting l.queued),
    )
Offered-Followed all e l (some l') h o = (
  record {
    same = Perm.trans o.nothing_lost (Perm.append_right (lasting (e ∷ [])) h.same);
    count = omega (arith, o.counted, h.count, length-append all (lasting (e ∷ [])));
    within = o.within;
  },
  o.same_capacity,
)

-- What one act adds.
abbrev added : Act → List Event
added (publishes e) = lasting (e ∷ [])
added receives = []

act-Followed :
    (a : Act) (all : List Event) (l : Listener)
    → Holds all l
    → Followed l.capacity (all ++ added a) (act a l)
unfolding act
act-Followed (publishes e) all l h =
    Offered-Followed all e l (offer e l) h (offer-Offered e l h.within)
act-Followed receives all l h =
    let kept : held (receive l.queued l) ≡ held l = receive-held l.queued l refl in
    let (fits, room) = receive-within l.queued l refl h.within in
    (
      record {
        same =
            subst (λ (xs : List Event). Perm (held (receive l.queued l)) xs) (sym (append-nil all))
              (subst (λ (xs : List Event). Perm xs all) (sym kept) h.same);
        count = ap length kept ∙ (h.count ∙ ap length (sym (append-nil all)));
        within = fits;
      },
      room,
    )

added-published :
    (a : Act) (as' : List Act) → added a ++ lasting (published as') ≡ lasting (published (a ∷ as'))
added-published (publishes e) as' = sym (lasting-append (e ∷ []) (published as'))
added-published receives as' = refl

run_from :
    (capacity : ℕ) (all more : List Event) (as' : List Act) (o : Option Listener)
    → ((all : List Event) (l : Listener)
        → Holds all l
        → Followed l.capacity (all ++ more) (run_acts as' l))
    → Followed capacity all o
    → Followed capacity (all ++ more) (elim o [ none ↦ none | some l' ↦ run_acts as' l' ])
run_from capacity all more as' none later h = omega (arith, length-append all more)
run_from capacity all more as' (some l) later (h, e) =
    subst (λ (n : ℕ). Followed n (all ++ more) (run_acts as' l)) e (later all l h)

-- Whatever is published to a subscription and received from it, from a state within its capacity, also
-- while a send to the full channel is under way: while it is open, what was received and what is queued are,
-- tool output apart, just the events that were published, in some order, and no more is queued than
-- it has room for; and it is closed only when more than its capacity of events that are not
-- tool output were published.
pub run_acts-Followed :
    (as' : List Act) (all : List Event) (l : Listener)
    → Holds all l
    → Followed l.capacity (all ++ lasting (published as')) (run_acts as' l)
unfolding run_acts
run_acts-Followed [] all l h =
    (subst (λ (x : List Event). Holds x l) (sym (append-nil all)) h, refl)
run_acts-Followed (a ∷ as') all l h =
    subst (λ (x : List Event). Followed l.capacity x (run_acts (a ∷ as') l))
      (append_assoc all (added a) (lasting (published as'))
        ∙ ap (λ r. all ++ r) (added-published a as'))
      (run_from l.capacity (all ++ added a) (lasting (published as')) as' (act a l)
        (run_acts-Followed as') (act-Followed a all l h))

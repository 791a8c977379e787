-- ===== src/Event/Tests.antt =====
-- Live events at a small tree of sessions, and the laws there.
use mathlib.Core.List.Perm
use parrot_coder.Base.{
  ◌≡◌, refl, [], ◌∷◌, List, codes, some, none, Option, text_eq, text_eq_refl, Text, true, false,
  if◌then◌else◌, arith, Bool-cases, inl, inr,
}
use parrot_coder.Event.Transient.{Event, tool_output_delta, known, Listener, subscribe, offer}
use parrot_coder.Event.Broker.{seen, ancestry, next_parent, publish_event}
use parrot_coder.Event.Shared.{lasting}
use parrot_coder.Event.History.{publishes, receives, Followed, run_acts, run_acts-Followed}
use parrot_coder.Event.Route.{IsClimb, ancestry-IsClimb}
use parrot_coder.Event.Deliver.{deliver, choice, publish_event-deliver}

abbrev child : Text
child = codes "c"

abbrev root : Text
root = codes "r"

abbrev parent_of : Text → Option Text
parent_of s = if text_eq s child then some root else none

abbrev started : Event
started = record {
  id = [];
  type = known;
  session_id = child;
  payload = codes "{}";
  valid = true;
  sequence = some 4;
  created_at = none;
}

abbrev output : Event
output = record started { type = tool_output_delta }

abbrev one_place : Listener
one_place = record { session = child; id = 0; capacity = 1; queued = []; received = []; races = [] }

climbs : ancestry parent_of 2 child ≡ some (child ∷ root ∷ [])
unfolding ancestry text_eq
climbs = refl

subscribes : subscribe [] root 0 1 [] ≡ record one_place { session = root; id = 1 } ∷ []
unfolding subscribe
subscribes = refl

-- Tool output makes room for another event.
makes_room :
    offer started (record one_place { queued = output ∷ [] })
    ≡ some (record one_place { queued = started ∷ [] })
unfolding offer
makes_room = refl

-- The receiver takes the second event while the channel is emptied, and the first is put back behind it.
abbrev ready : Event
ready = record started { payload = codes "1" }

reorders :
    offer started (record one_place {
      capacity = 3;
      queued = started ∷ ready ∷ output ∷ [];
      races = record { taken = false ∷ true ∷ false ∷ []; early = 0 } ∷ [];
    })
    ≡ some
        (record one_place { capacity = 3; queued = started ∷ started ∷ []; received = ready ∷ [] })
unfolding offer
reorders = refl

-- The receiver makes room for the second send.
second_send_works :
    offer started
      (record one_place { queued = ready ∷ []; races = record { taken = []; early = 1 } ∷ [] })
    ≡ some (record one_place { queued = started ∷ []; received = ready ∷ [] })
unfolding offer
second_send_works = refl

run_acts-Followed_example :
    Followed 1 (lasting (started ∷ output ∷ started ∷ [])) (
      run_acts (publishes started ∷ publishes output ∷ receives ∷ publishes started ∷ []) one_place)
run_acts-Followed_example =
    run_acts-Followed (publishes started ∷ publishes output ∷ receives ∷ publishes started ∷ []) []
      one_place (record { same = Perm.refl []; count = refl; within = omega arith })

parent_of-closed : (s p : Text) → parent_of s ≡ some p → seen (root ∷ []) p ≡ true
parent_of-closed s p h = elim (Bool-cases (text_eq s child)) [
  | inl e ↦ let same : p ≡ root = ground arith in rw same (rw (text_eq_refl root) refl)
  | inr e ↦ absurd (ground arith)
]

ancestry-IsClimb_example :
    (rest : List Text) × (ancestry parent_of 2 child ≡ some (child ∷ rest))
    × IsClimb parent_of child (child ∷ []) rest
ancestry-IsClimb_example = ancestry-IsClimb parent_of (root ∷ []) child parent_of-closed

child-IsClimb : IsClimb parent_of child (child ∷ []) (root ∷ [])
unfolding text_eq next_parent
child-IsClimb = (refl, refl, refl, inr (λ p e. absurd (cc)))

publish_event-deliver_example :
    publish_event (child ∷ root ∷ []) started (codes "evt") (one_place ∷ [])
    ≡ deliver (choice child (root ∷ []) started (codes "evt")) (one_place ∷ [])
publish_event-deliver_example =
    publish_event-deliver parent_of started (root ∷ []) (codes "evt") (one_place ∷ []) child-IsClimb

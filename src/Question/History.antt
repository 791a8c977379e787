-- ===== src/Question/History.antt =====
-- The counts of IDs over whole histories of the broker.
use parrot_coder.Base.{
  ◌≡◌, inl, inr, refl, sym, ◌∙◌, subst, List, [], ◌∷◌, Option, none, some, Text, Option-cases,
  arith,
}
use parrot_coder.Question.Types.{validate_request}
use parrot_coder.Question.Broker.{
  World, start, find_request, find_sent, settle, ask, receive, cancel, cancelled, Event, asks,
  replies, rejects, receives, cancels, step, run,
}
use parrot_coder.Question.Once.{
  Counted, start-Counted, settle_found-Counted, entered-Counted, returns-Counted, received-Counted,
}

-- A property of every world that a step can lead to.
abbrev pub Next : (World → Type 0) → Option World → Type 0
Next P none = Unit {0}
Next P (some w) = P w

abbrev AllCounted : World → Type 0
AllCounted w = (id : Text) → Counted w id

step-AllCounted : (w : World) (e : Event) → AllCounted w → Next AllCounted (step w e)
unfolding step settle ask receive cancel
step-AllCounted w (asks id request) h = elim (Option-cases (find_request id w.asked)) [
  | inr (old, q) ↦ rw (ask, q) tt
  | inl q ↦ elim (Option-cases (validate_request request)) [
    | inr (e, u) ↦ rw (ask, q, u) h
    | inl u ↦ rw (ask, q, u) (λ other. entered-Counted id other request w q (h other) (h id))
  ]
]
step-AllCounted w (replies id response) h =
    λ other. settle_found-Counted id other (some response) w _ refl (h other) (h id)
step-AllCounted w (rejects id) h =
    λ other. settle_found-Counted id other none w _ refl (h other) (h id)
step-AllCounted w (receives id) h = elim (Option-cases (find_request id w.waiting)) [
  | inl q ↦ rw (receive, q) tt
  | inr (request, q) ↦ elim (Option-cases (find_sent id w.channels)) [
    | inl r ↦ rw (receive, q, r) tt
    | inr (outcome, r) ↦
        rw (receive, q, r)
          (λ other. received-Counted id other outcome request w q r (h other) (h id))
  ]
]
step-AllCounted w (cancels id) h = elim (Option-cases (find_request id w.waiting)) [
  | inl q ↦ rw (cancel, q) tt
  | inr (request, q) ↦
      rw (cancel, q) (λ other. returns-Counted id other cancelled request w q (h other) (h id))
]

run-step :
    (w w' : World) (e : Event) (es : List Event) → step w e ≡ some w' → run w (e ∷ es) ≡ run w' es
unfolding run
run-step w w' e es q = rw (run, q) refl

run-stuck : (w : World) (e : Event) (es : List Event) → step w e ≡ none → run w (e ∷ es) ≡ none
unfolding run
run-stuck w e es q = rw (run, q) refl

-- A property that every step keeps holds after every history.
pub run-keeps :
    (P : World → Type 0)
    → ((w : World) (e : Event) → P w → Next P (step w e))
    → (w : World) (events : List Event) (end : World) → run w events ≡ some end
    → P w
    → P end
unfolding run
run-keeps P keeps w [] end q h = subst (Next P) q h
run-keeps P keeps w (e ∷ es) end q h = elim (Option-cases (step w e)) [
  | inl u ↦ ground (arith, q, run-stuck w e es u)
  | inr (w', u) ↦
      run-keeps P keeps w' es end (sym (run-step w w' e es u) ∙ q) (subst (Next P) u (keeps w e h))
]

-- After any history, each ID has been asked at most once; its call of Ask has returned at most once,
-- and has not returned just while the request is pending or its result waits to be received.
pub run-Counted :
    (events : List Event) (end : World) (id : Text) → run start events ≡ some end → Counted end id
run-Counted events end id q =
    run-keeps AllCounted step-AllCounted start events end q start-Counted id

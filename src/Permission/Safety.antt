-- ===== src/Permission/Safety.antt =====
-- The stages of requests and the verdicts of Authorize over whole histories of the broker.
use parrot_coder.Base.{
  ◌≡◌, inl, inr, refl, sym, ◌∙◌, subst, Bool, true, false, not, ◌&&◌, is_empty, List, [], ◌∷◌,
  Option, none, some, Text, lookup, insert_own, Bool-cases, Option-cases, arith,
}
use parrot_coder.Permission.Broker.{
  Decision, allow, deny, other, Request, Reply, Failure, Stage, selecting, draining, returned,
  World, start, is_known, is_deny, decision, received, begin, authorize, reply_to, take_result,
  receive_at, give_up, end_at, Event, authorizes, replies, receives, ends, step, run,
}
use parrot_coder.Permission.Stages.{
  Fine, unasked, not_interactive, asked, replied, lost_race, decided, failed, FineAt, accept-Fine,
  call-Fine, denied-Fine, received-Fine, failed-Fine, lost-Fine, gone-Fine,
}

abbrev AllFine : World → Type 0
AllFine w = (id : Text) → FineAt w id

abbrev After : Option World → Type 0
After none = Unit {0}
After (some w) = AllFine w

begin-AllFine :
    (b : Bool) (id : Text) (request : Request) (w : World)
    → lookup id w.calls ≡ none
    → AllFine w
    → AllFine (begin b id request w)
unfolding begin
begin-AllFine true id request w q h = λ j. denied-Fine id j w q (h id) (h j)
begin-AllFine false id request w q h = λ j. call-Fine id j request w q (h id) (h j)

authorize-AllFine :
    (id : Text) (request : Request) (w : World) → AllFine w → After (authorize id request w)
unfolding authorize
authorize-AllFine id request w h = elim (Option-cases (lookup id w.calls)) [
  | inr (stage, q) ↦ rw (authorize, q) tt
  | inl q ↦ rw (authorize, q) (begin-AllFine w.noninteractive id request w q h)
]

reply_to-AllFine :
    (id : Text) (reply : Reply) (w : World) → AllFine w → AllFine (reply_to id reply w).1
unfolding reply_to
reply_to-AllFine id reply w h = elim (Bool-cases (is_known reply.decision)) [
  | inr u ↦ rw (reply_to, u) h
  | inl u ↦ elim (Option-cases (lookup id w.pending)) [
    | inl q ↦ rw (reply_to, u, q) h
    | inr (request, q) ↦ rw (reply_to, u, q) (λ j. accept-Fine id j request reply w q (h id) (h j))
  ]
]

take_result-AllFine : (id : Text) (w : World) → AllFine w → After (take_result id w)
unfolding take_result
take_result-AllFine id w h = elim (Option-cases (lookup id w.results)) [
  | inl q ↦ rw (take_result, q) tt
  | inr (reply, q) ↦ rw (take_result, q) (λ j. received-Fine id j reply w q (h id) (h j))
]

receive_at-AllFine :
    (id : Text) (w : World) (c : Option Stage) → AllFine w → After (receive_at id w c)
unfolding receive_at
receive_at-AllFine id w none h = tt
receive_at-AllFine id w (some selecting) h = take_result-AllFine id w h
receive_at-AllFine id w (some draining) h = take_result-AllFine id w h
receive_at-AllFine id w (some (returned verdict)) h = tt

give_up-AllFine :
    (id : Text) (failure : Failure) (w : World)
    → lookup id w.calls ≡ some selecting
    → AllFine w
    → AllFine (give_up id failure w)
unfolding give_up
give_up-AllFine id failure w c h = elim (Option-cases (lookup id w.pending)) [
  | inl q ↦ rw (give_up, q) (λ j. lost-Fine id j w c q (h id) (h j))
  | inr (request, q) ↦ rw (give_up, q) (λ j. failed-Fine id j request failure w q (h id) (h j))
]

end_at-AllFine :
    (id : Text) (failure : Failure) (w : World) (c : Option Stage)
    → lookup id w.calls ≡ c
    → AllFine w
    → After (end_at id failure w c)
unfolding end_at
end_at-AllFine id failure w none q h = tt
end_at-AllFine id failure w (some selecting) q h = give_up-AllFine id failure w q h
end_at-AllFine id failure w (some draining) q h = tt
end_at-AllFine id failure w (some (returned verdict)) q h = tt

step-AllFine : (w : World) (e : Event) → AllFine w → After (step w e)
unfolding step
step-AllFine w (authorizes id request) h = authorize-AllFine id request w h
step-AllFine w (replies id reply) h = reply_to-AllFine id reply w h
step-AllFine w (receives id) h = receive_at-AllFine id w (lookup id w.calls) h
step-AllFine w (ends id failure) h = end_at-AllFine id failure w (lookup id w.calls) refl h

run_next :
    (o : Option World) (es : List Event) (end : World)
    → (elim o [ none ↦ none | some w' ↦ run w' es ]) ≡ some end
    → (w' : World) × (o ≡ some w') × (run w' es ≡ some end)
run_next none es end q = cc
run_next (some w') es end q = (w', refl, q)

start-Fine : (noninteractive : Bool) (id : Text) → FineAt (start noninteractive) id
unfolding lookup
start-Fine noninteractive id = unasked

run-AllFine :
    (w : World) (events : List Event) (end : World)
    → run w events ≡ some end
    → AllFine w
    → AllFine end
unfolding run
run-AllFine w [] end q h = subst After q h
run-AllFine w (e ∷ es) end q h =
    let (w', u, rest) = run_next (step w e) es end q in
    run-AllFine w' es end rest (subst After u (step-AllFine w e h))

-- After any history each ID is in one of the stages of `Fine`: an accepted reply waits in the channel
-- of a call that can receive it, or is the verdict that the call has returned, and a call that has
-- returned without an accepted reply was denied.
pub run-Fine :
    (noninteractive : Bool) (events : List Event) (end : World) (id : Text)
    → run (start noninteractive) events ≡ some end
    → FineAt end id
run-Fine noninteractive events end id q =
    run-AllFine (start noninteractive) events end q (λ j. start-Fine noninteractive j) id

abbrev pub is_allow : Decision → Bool
is_allow allow = true
is_allow _ = false

-- Whether a call has returned Allow, and whether a reply that allows was accepted.
abbrev pub returned_allow : Option Stage → Bool
returned_allow (some (returned verdict)) = is_allow verdict.0
returned_allow _ = false

abbrev pub accepted_allow : Option Reply → Bool
accepted_allow none = false
accepted_allow (some reply) = is_allow reply.decision

deny_not_allow : (d : Decision) → is_deny d ≡ true → is_allow d ≡ false
deny_not_allow allow h = ground arith
deny_not_allow deny h = refl
deny_not_allow (other text) h = ground arith

decided_allow : (reply : Reply) → is_allow (decision reply).0 ≡ is_allow reply.decision
unfolding decision
decided_allow reply = elim (Bool-cases (is_deny reply.decision && not (is_empty reply.reason))) [
  | inl q ↦ rw q (sym (deny_not_allow reply.decision (ground arith)))
  | inr q ↦ rw q refl
]

Fine-allow :
    {p : Option Request} {r : Option Reply} {c : Option Stage} {a : Option Reply}
    → Fine p r c a
    → returned_allow c ≡ true
    → accepted_allow a ≡ true
Fine-allow unasked h = ground arith
Fine-allow not_interactive h = ground arith
Fine-allow (asked request) h = ground arith
Fine-allow (replied reply) h = ground arith
Fine-allow (lost_race reply) h = ground arith
Fine-allow (decided reply) h = sym (decided_allow reply) ∙ h
Fine-allow (failed failure) h = ground arith

-- A call of Authorize that has returned Allow has an accepted reply that allows, after any history:
-- no timeout, no end of a context, and no broker without a user allows anything.
pub run-accepted_allow :
    (noninteractive : Bool) (events : List Event) (end : World) (id : Text)
    → run (start noninteractive) events ≡ some end
    → returned_allow (lookup id end.calls) ≡ true
    → accepted_allow (lookup id end.accepted) ≡ true
run-accepted_allow noninteractive events end id q h =
    Fine-allow (run-Fine noninteractive events end id q) h

draining-gone :
    {p : Option Request} {r : Option Reply} {c : Option Stage} {a : Option Reply}
    → Fine p r c a
    → c ≡ some draining
    → p ≡ none
draining-gone unasked h = refl
draining-gone not_interactive h = refl
draining-gone (asked request) h = ground arith
draining-gone (replied reply) h = refl
draining-gone (lost_race reply) h = refl
draining-gone (decided reply) h = refl
draining-gone (failed failure) h = refl

taken :
    (id : Text) (w : World) (reply : Reply)
    → lookup id w.calls ≡ some draining
    → lookup id w.results ≡ some reply
    → step w (receives id) ≡ some (received id reply w)
unfolding step receive_at take_result
taken id w reply c r = rw (c, take_result, r) refl

-- A call that lost the race to a reply is never stuck: it receives the accepted reply, and returns the
-- verdict on it.
pub run-receives :
    (noninteractive : Bool) (events : List Event) (end : World) (id : Text)
    → run (start noninteractive) events ≡ some end
    → lookup id end.calls ≡ some draining
    → (reply : Reply) × (w : World) × (lookup id end.accepted ≡ some reply)
      × (step end (receives id) ≡ some w)
      × (lookup id w.calls ≡ some (returned (decision reply)))
unfolding step receive_at take_result
run-receives noninteractive events end id q c =
    let fine = run-Fine noninteractive events end id q in
    let (reply, r, a) = gone-Fine fine (inr c) (draining-gone fine c) in
    (
      reply,
      received id reply end,
      a,
      taken id end reply c r,
      insert_own id (returned (decision reply)) end.calls,
    )

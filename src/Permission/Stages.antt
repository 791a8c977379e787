-- ===== src/Permission/Stages.antt =====
-- Where a request can be, as an invariant of one ID, and the critical sections on it.
use parrot_coder.Base.{
  ◌≡◌, ◌⊎◌, inl, refl, Option, none, some, Text, each_key, lookup, insert_own, insert_other,
  remove_own, remove_other, arith,
}
use parrot_coder.Permission.Broker.{
  deny, Request, Reply, Failure, Stage, selecting, draining, returned, World, decision, returns,
  opened, received, given_up, beaten, accept,
}

-- A request from its call to the verdict: the pending request, the reply in the channel, the stage
-- of the call, the accepted reply.
pub data Fine : Option Request → Option Reply → Option Stage → Option Reply → Type 0 where
  unasked : Fine none none none none
  not_interactive : Fine none none (some (returned (deny, none))) none
  asked : (request : Request) → Fine (some request) none (some selecting) none
  replied : (reply : Reply) → Fine none (some reply) (some selecting) (some reply)
  lost_race : (reply : Reply) → Fine none (some reply) (some draining) (some reply)
  decided : (reply : Reply) → Fine none none (some (returned (decision reply))) (some reply)
  failed : (failure : Failure) → Fine none none (some (returned (deny, some failure))) none

abbrev pub FineAt : World → Text → Type 0
FineAt w id =
    Fine (lookup id w.pending) (lookup id w.results) (lookup id w.calls) (lookup id w.accepted)

-- An open request is in its select, and nothing has been accepted.
open-Fine :
    {p : Option Request} {r : Option Reply} {c : Option Stage} {a : Option Reply}
    → Fine p r c a
    → (request : Request) → p ≡ some request
    → (r ≡ none) × (c ≡ some selecting) × (a ≡ none)
open-Fine unasked request h = ground arith
open-Fine not_interactive request h = ground arith
open-Fine (asked q) request h = (refl, refl, refl)
open-Fine (replied reply) request h = ground arith
open-Fine (lost_race reply) request h = ground arith
open-Fine (decided reply) request h = ground arith
open-Fine (failed failure) request h = ground arith

-- A reply in a channel is the accepted one, and its call can receive it.
sent-Fine :
    {p : Option Request} {r : Option Reply} {c : Option Stage} {a : Option Reply}
    → Fine p r c a
    → (reply : Reply) → r ≡ some reply
    → (p ≡ none) × (a ≡ some reply)
sent-Fine unasked reply h = ground arith
sent-Fine not_interactive reply h = ground arith
sent-Fine (asked q) reply h = ground arith
sent-Fine (replied reply') reply h = (refl, h)
sent-Fine (lost_race reply') reply h = (refl, h)
sent-Fine (decided reply') reply h = ground arith
sent-Fine (failed failure) reply h = ground arith

-- A call whose request is no longer pending has its reply in the channel.
pub gone-Fine :
    {p : Option Request} {r : Option Reply} {c : Option Stage} {a : Option Reply}
    → Fine p r c a
    → (c ≡ some selecting) ⊎ (c ≡ some draining)
    → p ≡ none
    → (reply : Reply) × (r ≡ some reply) × (a ≡ some reply)
gone-Fine unasked h k = ground arith
gone-Fine not_interactive h k = ground arith
gone-Fine (asked q) h k = ground arith
gone-Fine (replied reply) h k = (reply, refl, refl)
gone-Fine (lost_race reply) h k = (reply, refl, refl)
gone-Fine (decided reply) h k = ground arith
gone-Fine (failed failure) h k = ground arith

new-Fine :
    {p : Option Request} {r : Option Reply} {c : Option Stage} {a : Option Reply}
    → Fine p r c a
    → c ≡ none
    → (p ≡ none) × (r ≡ none) × (a ≡ none)
new-Fine unasked h = (refl, refl, refl)
new-Fine not_interactive h = ground arith
new-Fine (asked q) h = ground arith
new-Fine (replied reply) h = ground arith
new-Fine (lost_race reply) h = ground arith
new-Fine (decided reply) h = ground arith
new-Fine (failed failure) h = ground arith

pub accept-Fine :
    (id other : Text) (request : Request) (reply : Reply) (w : World)
    → lookup id w.pending ≡ some request
    → FineAt w id
    → FineAt w other
    → FineAt (accept id reply w) other
accept-Fine id other request reply w q h k =
    let (r, c, a) = open-Fine h request q in
    each_key (FineAt (accept id reply w)) id other
      (rw
        (remove_own id w.pending, insert_own id reply w.results, c, insert_own id reply w.accepted)
        (replied reply))
      (λ e.
        rw
          (
            remove_other id other w.pending e,
            insert_other id other reply w.results e,
            insert_other id other reply w.accepted e,
          )
          k)

pub call-Fine :
    (id other : Text) (request : Request) (w : World)
    → lookup id w.calls ≡ none
    → FineAt w id
    → FineAt w other
    → FineAt (opened id request w) other
call-Fine id other request w q h k =
    let (p, r, a) = new-Fine h q in
    each_key (FineAt (opened id request w)) id other
      (rw (insert_own id request w.pending, r, insert_own id selecting w.calls, a) (asked request))
      (λ e.
        rw (insert_other id other request w.pending e, insert_other id other selecting w.calls e) k)

pub denied-Fine :
    (id other : Text) (w : World)
    → lookup id w.calls ≡ none
    → FineAt w id
    → FineAt w other
    → FineAt (returns id (deny, none) w) other
denied-Fine id other w q h k =
    let (p, r, a) = new-Fine h q in
    each_key (FineAt (returns id (deny, none) w)) id other
      (rw (p, r, insert_own id (returned (deny, none)) w.calls, a) not_interactive)
      (λ e. rw (insert_other id other (returned (deny, none)) w.calls e) k)

pub received-Fine :
    (id other : Text) (reply : Reply) (w : World)
    → lookup id w.results ≡ some reply
    → FineAt w id
    → FineAt w other
    → FineAt (received id reply w) other
received-Fine id other reply w q h k =
    let (p, a) = sent-Fine h reply q in
    each_key (FineAt (received id reply w)) id other
      (rw (p, remove_own id w.results, insert_own id (returned (decision reply)) w.calls, a)
        (decided reply))
      (λ e.
        rw
          (
            remove_other id other w.results e,
            insert_other id other (returned (decision reply)) w.calls e,
          )
          k)

pub failed-Fine :
    (id other : Text) (request : Request) (failure : Failure) (w : World)
    → lookup id w.pending ≡ some request
    → FineAt w id
    → FineAt w other
    → FineAt (given_up id failure w) other
failed-Fine id other request failure w q h k =
    let (r, c, a) = open-Fine h request q in
    each_key (FineAt (given_up id failure w)) id other
      (rw (remove_own id w.pending, r, insert_own id (returned (deny, some failure)) w.calls, a)
        (failed failure))
      (λ e.
        rw
          (
            remove_other id other w.pending e,
            insert_other id other (returned (deny, some failure)) w.calls e,
          )
          k)

pub lost-Fine :
    (id other : Text) (w : World)
    → lookup id w.calls ≡ some selecting
    → lookup id w.pending ≡ none
    → FineAt w id
    → FineAt w other
    → FineAt (beaten id w) other
lost-Fine id other w c p h k =
    let (reply, r, a) = gone-Fine h (inl c) p in
    each_key (FineAt (beaten id w)) id other
      (rw (p, r, insert_own id draining w.calls, a) (lost_race reply))
      (λ e. rw (insert_other id other draining w.calls e) k)

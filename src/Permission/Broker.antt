-- ===== src/Permission/Broker.antt =====
-- The broker with its blocked calls of Authorize. The steps are its critical sections and the receive
-- of a call; the send of a reply goes with its section, since the channel has a buffer.
use parrot_coder.Base.{
  Bool, true, false, not, ◌&&◌, List, [], ◌∷◌, Option, none, some, Text, Assoc, lookup, insert,
  remove, if◌then◌else◌, is_empty, sort_by,
}

-- A string, of which the broker takes two.
pub data Decision : Type 0 where
  allow deny : Decision
  other : Text → Decision

pub record Request : Type 0 where
  pub tool_id : Text
  pub description : Text
  pub session_id : Text
  pub workspace : Text

pub record Reply : Type 0 where
  pub decision : Decision
  pub reason : Text

-- Why Authorize fails: its context, the timer, or the reason of a rejection.
pub data Failure : Type 0 where
  context_ended timed_out : Failure
  reasoned : Text → Failure

pub data Error : Type 0 where
  invalid_decision unknown_request : Error

abbrev pub Verdict : Type 0
Verdict = Decision × Option Failure

-- A call of Authorize: in its select, past it and waiting for the reply that it lost a race to, or
-- returned.
pub data Stage : Type 0 where
  selecting draining : Stage
  returned : Verdict → Stage

-- `results` are the channels that hold a reply, `accepted` the replies that were taken.
pub record World : Type 0 where
  pub noninteractive : Bool
  pub pending : Assoc Request
  pub results : Assoc Reply
  pub calls : Assoc Stage
  pub accepted : Assoc Reply

abbrev pub start : Bool → World
start noninteractive = record {
  noninteractive = noninteractive;
  pending = [];
  results = [];
  calls = [];
  accepted = [];
}

abbrev pub is_deny : Decision → Bool
is_deny deny = true
is_deny _ = false

abbrev pub is_known : Decision → Bool
is_known (other _) = false
is_known _ = true

-- The verdict on a reply: a rejection with a reason is an error.
unfoldable pub decision : Reply → Verdict
decision reply =
    if is_deny reply.decision && not (is_empty reply.reason)
    then (deny, some (reasoned reply.reason))
    else (reply.decision, none)

abbrev pub returns : Text → Verdict → World → World
returns id verdict w = record w { calls = insert id (returned verdict) w.calls }

abbrev pub opened : Text → Request → World → World
opened id request w = record w {
  pending = insert id request w.pending;
  calls = insert id selecting w.calls;
}

-- Without a user nobody is asked; otherwise addPending, and the select.
unfoldable pub begin : Bool → Text → Request → World → World
begin true id request w = returns id (deny, none) w
begin false id request w = opened id request w

-- Authorize up to its select. An ID is 16 random bytes, taken to be
-- new; `none` if it is not.
unfoldable pub authorize : Text → Request → World → Option World
authorize id request w = elim (lookup id w.calls) [
  | some stage ↦ none
  | none ↦ some (begin w.noninteractive id request w)
]

-- The deletion of a request in `reply`, and the send.
abbrev pub accept : Text → Reply → World → World
accept id reply w = record w {
  pending = remove id w.pending;
  results = insert id reply w.results;
  accepted = insert id reply w.accepted;
}

unfoldable pub reply_to : Text → Reply → World → Option Error × World
reply_to id reply w =
    if not (is_known reply.decision)
    then (some invalid_decision, w)
    else elim (lookup id w.pending) [
      | none ↦ (some unknown_request, w)
      | some request ↦ (none, accept id reply w)
    ]

abbrev pub allowing : Reply
allowing = record { decision = allow; reason = [] }

-- Reject and RejectWithReason.
abbrev pub rejecting : Text → Reply
rejecting reason = record { decision = deny; reason = reason }

abbrev pub received : Text → Reply → World → World
received id reply w = returns id (decision reply) (record w { results = remove id w.results })

-- The receive of a call.
unfoldable pub take_result : Text → World → Option World
take_result id w = elim (lookup id w.results) [
  | none ↦ none
  | some reply ↦ some (received id reply w)
]

unfoldable pub receive_at : Text → World → Option Stage → Option World
receive_at id w none = none
receive_at id w (some selecting) = take_result id w
receive_at id w (some draining) = take_result id w
receive_at id w (some (returned verdict)) = none

abbrev pub given_up : Text → Failure → World → World
given_up id failure w = returns id (deny, some failure) (record w { pending = remove id w.pending })

abbrev pub beaten : Text → World → World
beaten id w = record w { calls = insert id draining w.calls }

-- The select takes the end of the context or the timer: removePending, and what follows it.
unfoldable pub give_up : Text → Failure → World → World
give_up id failure w = elim (lookup id w.pending) [
  | none ↦ beaten id w
  | some request ↦ given_up id failure w
]

unfoldable pub end_at : Text → Failure → World → Option Stage → Option World
end_at id failure w (some selecting) = some (give_up id failure w)
end_at id failure w none = none
end_at id failure w (some draining) = none
end_at id failure w (some (returned verdict)) = none

-- Pending: the requests in the order of their IDs.
unfoldable pub pending_list : World → List (Text × Request)
pending_list w = sort_by (λ p. p.0) w.pending

pub data Event : Type 0 where
  authorizes : Text → Request → Event
  replies : Text → Reply → Event
  receives : Text → Event
  ends : Text → Failure → Event

unfoldable pub step : World → Event → Option World
step w (authorizes id request) = authorize id request w
step w (replies id reply) = some (reply_to id reply w).1
step w (receives id) = receive_at id w (lookup id w.calls)
step w (ends id failure) = end_at id failure w (lookup id w.calls)

unfoldable pub run : World → List Event → Option World
run w [] = some w
run w (e ∷ es) = elim (step w e) [ none ↦ none | some w' ↦ run w' es ]

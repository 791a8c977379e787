-- ===== src/Question/Broker.antt =====
-- The broker with the callers of Ask. The steps are the critical sections of the broker and the
-- receive of a caller; the send of `settle` goes with its section, since the channel has a buffer.
use parrot_coder.Base.{List, [], ◌∷◌, Option, none, some, Text, text_eq, if◌then◌else◌, sort_by}
use parrot_coder.Question.Types.{
  Request, Response, Error, unknown_request, validate_request, validate_response,
}

pub record Pending : Type 0 where
  pub id : Text
  pub request : Request

-- What a call of Ask returns: a response, ErrRejected, or the error of its context.
pub data Outcome : Type 0 where
  answered : Response → Outcome
  rejected cancelled : Outcome

pub record Sent : Type 0 where
  pub id : Text
  pub outcome : Outcome

-- `pending` is the map of the broker, `channels` are the results that nobody has received yet.
-- `asked` are the requests so far, `waiting` the calls of Ask that block, `returned` what calls have
-- returned.
pub record World : Type 0 where
  pub pending : List Pending
  pub channels : List Sent
  pub asked : List Pending
  pub waiting : List Pending
  pub returned : List Sent

abbrev pub start : World
start = record { pending = []; channels = []; asked = []; waiting = []; returned = [] }

unfoldable pub find_request : Text → List Pending → Option Request
find_request id [] = none
find_request id (p ∷ ps) =
    let rest = find_request id ps in if text_eq p.id id then some p.request else rest

unfoldable pub find_sent : Text → List Sent → Option Outcome
find_sent id [] = none
find_sent id (s ∷ ss) =
    let rest = find_sent id ss in if text_eq s.id id then some s.outcome else rest

-- delete(b.pending, id)
unfoldable pub drop_pending : Text → List Pending → List Pending
drop_pending id [] = []
drop_pending id (p ∷ ps) =
    let rest = drop_pending id ps in if text_eq p.id id then rest else p ∷ rest

unfoldable pub drop_sent : Text → List Sent → List Sent
drop_sent id [] = []
drop_sent id (s ∷ ss) = let rest = drop_sent id ss in if text_eq s.id id then rest else s ∷ rest

-- The reply of the user: a response, or none for Reject.
abbrev pub outcome_of : Option Response → Outcome
outcome_of none = rejected
outcome_of (some response) = answered response

abbrev pub check_reply : Request → Option Response → Option Error
check_reply request none = none
check_reply request (some response) = validate_response request response

unfoldable pub settle_checked : Text → Option Response → World → Option Error → Option Error × World
settle_checked id reply w (some e) = (some e, w)
settle_checked id reply w none = (
  none,
  record w {
    pending = drop_pending id w.pending;
    channels = record { id = id; outcome = outcome_of reply } ∷ w.channels;
  },
)

unfoldable pub settle_found : Text → Option Response → World → Option Request → Option Error × World
settle_found id reply w none = (some unknown_request, w)
settle_found id reply w (some request) = settle_checked id reply w (check_reply request reply)

-- settle, for Reply and Reject.
unfoldable pub settle : Text → Option Response → World → Option Error × World
settle id reply w = settle_found id reply w (find_request id w.pending)

abbrev pub entered : Pending → World → World
entered p w = record w { pending = p ∷ w.pending; asked = p ∷ w.asked; waiting = p ∷ w.waiting }

-- Ask up to its select. An ID is 16 random bytes, taken to be new; `none` if it is not.
unfoldable pub ask : Text → Request → World → Option World
ask id request w = elim (find_request id w.asked) [
  | some old ↦ none
  | none ↦ elim (validate_request request) [
    | some e ↦ some w
    | none ↦ some (entered (record { id = id; request = request }) w)
  ]
]

abbrev pub returns : Text → Outcome → World → World
returns id outcome w = record w {
  channels = drop_sent id w.channels;
  waiting = drop_pending id w.waiting;
  returned = record { id = id; outcome = outcome } ∷ w.returned;
}

-- The select of a blocked call takes the result of its channel.
unfoldable pub receive : Text → World → Option World
receive id w = elim (find_request id w.waiting) [
  | none ↦ none
  | some request ↦ elim (find_sent id w.channels) [
    | none ↦ none
    | some outcome ↦ some (returns id outcome w)
  ]
]

-- The select of a blocked call takes the end of its context; a result in its channel is lost.
unfoldable pub cancel : Text → World → Option World
cancel id w = elim (find_request id w.waiting) [
  | none ↦ none
  | some request ↦ some (returns id cancelled (record w { pending = drop_pending id w.pending }))
]

-- Pending: the requests in the order of their IDs.
unfoldable pub pending_list : World → List Pending
pending_list w = sort_by (λ p. p.id) w.pending

pub data Event : Type 0 where
  asks : Text → Request → Event
  replies : Text → Response → Event
  rejects receives cancels : Text → Event

unfoldable pub step : World → Event → Option World
step w (asks id request) = ask id request w
step w (replies id response) = some (settle id (some response) w).1
step w (rejects id) = some (settle id none w).1
step w (receives id) = receive id w
step w (cancels id) = cancel id w

unfoldable pub run : World → List Event → Option World
run w [] = some w
run w (e ∷ es) = elim (step w e) [ none ↦ none | some w' ↦ run w' es ]

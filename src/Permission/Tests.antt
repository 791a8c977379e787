-- ===== src/Permission/Tests.antt =====
-- A reply that comes just before the timer, and a call without a user.
use parrot_coder.Base.{
  ◌≡◌, refl, true, false, List, [], ◌∷◌, Option, none, some, codes, text_eq, lookup, insert, remove,
}
use parrot_coder.Permission.Broker.{
  Request, Reply, timed_out, context_ended, returned, World, Event, start, authorizes, replies,
  receives, ends, allowing, rejecting, decision, begin, authorize, reply_to, take_result,
  receive_at, give_up, end_at, step, run,
}
use parrot_coder.Permission.Stages.{FineAt}
use parrot_coder.Permission.Safety.{accepted_allow, run-Fine, run-accepted_allow, run-receives}

abbrev request : Request
request = record {
  tool_id = codes "bash";
  description = codes "Run a command";
  session_id = codes "s";
  workspace = codes "/w";
}

-- The reply to the first call wins the race with the timer, and the second call ends with its context.
abbrev events : List Event
events =
    authorizes (codes "1") request
    ∷ authorizes (codes "2") request
    ∷ replies (codes "1") allowing
    ∷ ends (codes "1") timed_out
    ∷ ends (codes "2") context_ended
    ∷ replies (codes "2") (rejecting (codes "no"))
    ∷ []

abbrev ended : Option World → World
ended none = start false
ended (some w) = w

abbrev end : World
end = ended (run (start false) events)

events_run : run (start false) events ≡ some end
unfolding run step authorize begin reply_to receive_at end_at give_up lookup insert remove text_eq
events_run = refl

run-Fine_example : FineAt end (codes "2")
run-Fine_example = run-Fine false events end (codes "2") events_run

run-receives_example :
    (reply : Reply) × (w : World) × (lookup (codes "1") end.accepted ≡ some reply)
    × (step end (receives (codes "1")) ≡ some w)
    × (lookup (codes "1") w.calls ≡ some (returned (decision reply)))
unfolding run step authorize begin reply_to receive_at end_at give_up lookup insert remove text_eq
run-receives_example = run-receives false events end (codes "1") events_run refl

abbrev allowed_events : List Event
allowed_events =
    authorizes (codes "1") request ∷ replies (codes "1") allowing ∷ receives (codes "1") ∷ []

abbrev allowed_end : World
allowed_end = ended (run (start false) allowed_events)

run-accepted_allow_example : accepted_allow (lookup (codes "1") allowed_end.accepted) ≡ true
unfolding run step authorize begin reply_to receive_at take_result decision lookup insert remove
    text_eq
run-accepted_allow_example =
    run-accepted_allow false allowed_events allowed_end (codes "1") refl refl

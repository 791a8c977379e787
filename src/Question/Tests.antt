-- ===== src/Question/Tests.antt =====
-- One question with two options, asked and answered.
use parrot_coder.Base.{◌≡◌, refl, false, List, [], ◌∷◌, Option, none, some, codes, text_eq}
use mathlib.Core.List.{Perm}
use parrot_coder.Question.Types.{
  Request, Response, check_options, check_questions, validate_request, find_question, check_chosen,
  check_answer, check_named, check_answers, validate_response,
}
use parrot_coder.Question.Broker.{
  World, Event, start, asks, replies, rejects, receives, cancels, find_request, find_sent,
  drop_pending, drop_sent, settle_checked, settle_found, settle, ask, receive, cancel, step, run,
}
use parrot_coder.Question.Once.{Counted}
use parrot_coder.Question.History.{run-Counted}
use parrot_coder.Question.Validity.{Valid, run-Valid}
use parrot_coder.Question.Complete.{answer_ids, question_ids, validate_response-perm}

abbrev request : Request
request = record {
  session_id = codes "s";
  questions =
      record {
        id = codes "db";
        header = [];
        prompt = codes "Which store?";
        options =
            record { id = codes "a"; label = codes "SQLite"; description = [] }
            ∷ record { id = codes "b"; label = codes "Files"; description = [] }
            ∷ [];
        multiple = false;
        custom = false;
      }
      ∷ [];
}

abbrev response : Response
response = record { question_id = codes "db"; option_ids = codes "b" ∷ []; custom = [] } ∷ []

-- The second reply comes too late, and so does the end of the second call's context.
abbrev events : List Event
events =
    asks (codes "1") request
    ∷ asks (codes "2") request
    ∷ replies (codes "1") response
    ∷ rejects (codes "1")
    ∷ receives (codes "1")
    ∷ cancels (codes "2")
    ∷ []

abbrev ended : Option World → World
ended none = start
ended (some w) = w

abbrev end : World
end = ended (run start events)

events_run : run start events ≡ some end
unfolding run step ask receive cancel settle settle_found settle_checked find_request find_sent
    drop_pending drop_sent validate_request check_questions check_options validate_response
    check_answers check_named check_answer check_chosen find_question text_eq
events_run = refl

run-Counted_example : Counted end (codes "1")
run-Counted_example = run-Counted events end (codes "1") events_run

run-Valid_example : Valid end
run-Valid_example = run-Valid events end events_run

validate_response-perm_example : Perm (answer_ids response) (question_ids request.questions)
unfolding validate_response check_answers check_named check_answer check_chosen find_question
    text_eq
validate_response-perm_example = validate_response-perm request response refl

abbrev asked : World
asked = record start { pending = record { id = codes "1"; request = request } ∷ [] }

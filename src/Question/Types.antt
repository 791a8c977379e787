-- ===== src/Question/Types.antt =====
-- The questions, requests, answers and responses, and the checks of validateRequest and
-- validateResponse, whose first error is the result.
use parrot_coder.Base.{
  Bool, false, not, ◌&&◌, ◌||◌, List, [], ◌∷◌, Option, none, some, Text, text_eq, ltb, ◌==◌,
  if◌then◌else◌, length, is_empty,
}

-- The Go type Option.
pub record Choice : Type 0 where
  pub id : Text
  pub label : Text
  pub description : Text

pub record Question : Type 0 where
  pub id : Text
  pub header : Text
  pub prompt : Text
  pub options : List Choice
  pub multiple : Bool
  pub custom : Bool

pub record Request : Type 0 where
  pub session_id : Text
  pub questions : List Question

pub record Answer : Type 0 where
  pub question_id : Text
  pub option_ids : List Text
  pub custom : Text

abbrev pub Response : Type 0
Response = List Answer

pub data Error : Type 0 where
  question_count question_incomplete duplicate_question : Error
  option_incomplete duplicate_option no_input : Error
  answer_count unknown_question duplicate_answer custom_disabled multiple_disabled : Error
  unknown_option chosen_twice empty_answer : Error
  unknown_request : Error

abbrev pub member : Text → List Text → Bool
member x [] = false
member x (y ∷ ys) = text_eq y x || member x ys

-- The options of one question, after those seen.
unfoldable pub check_options : List Text → List Choice → Option Error
check_options seen [] = none
check_options seen (o ∷ os) =
    let rest = check_options (o.id ∷ seen) os in
    if is_empty o.id || is_empty o.label
    then some option_incomplete
    else if member o.id seen
    then some duplicate_option
    else rest

-- The first of two checks that fails.
abbrev pub or_check : Option Error → Option Error → Option Error
or_check (some e) rest = some e
or_check none rest = rest

unfoldable pub check_questions : List Text → List Question → Option Error
check_questions seen [] = none
check_questions seen (q ∷ qs) =
    let rest = check_questions (q.id ∷ seen) qs in
    if is_empty q.id || is_empty q.prompt
    then some question_incomplete
    else if member q.id seen
    then some duplicate_question
    else or_check (check_options [] q.options)
        (if is_empty q.options && not q.custom then some no_input else rest)

unfoldable pub validate_request : Request → Option Error
validate_request request =
    if is_empty request.questions || ltb 32 (length request.questions)
    then some question_count
    else check_questions [] request.questions

-- The map from IDs to questions, in which the last question with an ID counts.
unfoldable pub find_question : Text → List Question → Option Question
find_question id [] = none
find_question id (q ∷ qs) = elim (find_question id qs) [
  | some found ↦ some found
  | none ↦ if text_eq q.id id then some q else none
]

abbrev pub choice_ids : List Choice → List Text
choice_ids [] = []
choice_ids (o ∷ os) = o.id ∷ choice_ids os

unfoldable pub check_chosen : List Text → List Text → List Text → Option Error
check_chosen allowed chosen [] = none
check_chosen allowed chosen (id ∷ ids) =
    let rest = check_chosen allowed (id ∷ chosen) ids in
    if not (member id allowed)
    then some unknown_option
    else if member id chosen
    then some chosen_twice
    else rest

-- One answer to the question that it names.
unfoldable pub check_answer : Question → Answer → Option Error
check_answer item answer =
    if not (is_empty answer.custom) && not item.custom
    then some custom_disabled
    else if not item.multiple && ltb 1 (length answer.option_ids)
    then some multiple_disabled
    else or_check (check_chosen (choice_ids item.options) [] answer.option_ids)
        (if is_empty answer.option_ids && is_empty answer.custom then some empty_answer else none)

unfoldable pub check_named : List Text → Answer → Option Question → Option Error
check_named seen answer none = some unknown_question
check_named seen answer (some item) =
    if member answer.question_id seen then some duplicate_answer else check_answer item answer

unfoldable pub check_answers : List Question → List Text → Response → Option Error
check_answers questions seen [] = none
check_answers questions seen (a ∷ as') =
    or_check (check_named seen a (find_question a.question_id questions))
      (check_answers questions (a.question_id ∷ seen) as')

unfoldable pub validate_response : Request → Response → Option Error
validate_response request response =
    if length response == length request.questions
    then check_answers request.questions [] response
    else some answer_count

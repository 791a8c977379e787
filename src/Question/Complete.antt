-- ===== src/Question/Complete.antt =====
-- Which questions a response that validateResponse accepts answers.
use parrot_coder.Base.{
  suc, ◌≡◌, inl, inr, refl, sym, ap, ◌∙◌, subst, true, false, List, [], ◌∷◌, Option, none, some,
  Text, text_eq, text_eq_iff, text_eq_sym, text_eq_refl, ◌==◌, ==_iff, if◌then◌else◌, Bool-cases,
  Option-cases, arith, length,
}
use mathlib.Core.List.{Perm}
use mathlib.Core.List.Perm
use parrot_coder.Question.Types.{
  Question, Request, Answer, Response, Error, member, or_check, find_question, check_named,
  check_answers, validate_response,
}

abbrev pub question_ids : List Question → List Text
question_ids [] = []
question_ids (q ∷ qs) = q.id ∷ question_ids qs

abbrev pub answer_ids : Response → List Text
answer_ids [] = []
answer_ids (a ∷ as') = a.question_id ∷ answer_ids as'

unfoldable take_out : Text → List Text → List Text
take_out x [] = []
take_out x (y ∷ ys) = let rest = take_out x ys in if text_eq y x then ys else y ∷ rest

abbrev Distinct : List Text → Type 0
Distinct [] = Unit {0}
Distinct (x ∷ xs) = (member x xs ≡ false) × Distinct xs

abbrev Within : List Text → List Text → Type 0
Within [] ys = Unit {0}
Within (x ∷ xs) ys = (member x ys ≡ true) × Within xs ys

take_out-perm : (x : Text) (ys : List Text) → member x ys ≡ true → Perm ys (x ∷ take_out x ys)
unfolding take_out
take_out-perm x [] h = ground arith
take_out-perm x (y ∷ ys) h = elim (Bool-cases (text_eq y x)) [
  | inl q ↦
      rw q
        (subst (λ (z : Text). Perm (y ∷ ys) (z ∷ ys)) ((text_eq_iff y x).0 q) (Perm.refl (y ∷ ys)))
  | inr q ↦
      rw q (
        Perm.trans (Perm.cons y (take_out-perm x ys (ground arith)))
          (Perm.swap x y (take_out x ys)))
]

member-take_out :
    (x z : Text) (ys : List Text)
    → text_eq x z ≡ false
    → member z ys ≡ true
    → member z (take_out x ys) ≡ true
unfolding take_out
member-take_out x z [] h k = k
member-take_out x z (y ∷ ys) h k = elim (Bool-cases (text_eq y x)) [
  | inl q ↦ ground (arith, q, k, ap (λ (t : Text). text_eq t z) ((text_eq_iff y x).0 q) ∙ h)
  | inr q ↦ ground (arith, q, k, member-take_out x z ys h)
]

length-take_out :
    (x : Text) (ys : List Text) → member x ys ≡ true → suc (length (take_out x ys)) ≡ length ys
unfolding take_out
length-take_out x [] h = ground arith
length-take_out x (y ∷ ys) h = ground (arith, length-take_out x ys)

Within-take_out :
    (x : Text) (xs ys : List Text) → member x xs ≡ false → Within xs ys → Within xs (take_out x ys)
Within-take_out x [] ys h w = tt
Within-take_out x (z ∷ xs) ys h w = (
  member-take_out x z ys (text_eq_sym x z ∙ ground arith) w.0,
  Within-take_out x xs ys (ground arith) w.1,
)

-- As many distinct elements as there are places are all of them.
pigeonhole : (xs ys : List Text) → Distinct xs → Within xs ys → length xs ≡ length ys → Perm xs ys
pigeonhole [] [] d w e = Perm.refl []
pigeonhole [] (y ∷ ys) d w e = absurd (omega arith)
pigeonhole (x ∷ xs) ys d w e =
    Perm.trans
      (Perm.cons x (
        pigeonhole xs (take_out x ys) d.1 (Within-take_out x xs ys d.0 w.1)
          (omega (arith, e, length-take_out x ys w.0))))
      (Perm.symm (take_out-perm x ys w.0))

found-member :
    (id : Text) (qs : List Question) (q : Question)
    → find_question id qs ≡ some q
    → member id (question_ids qs) ≡ true
unfolding find_question
found-member id [] q h = ground arith
found-member id (p ∷ qs) q h = elim (Option-cases (find_question id qs)) [
  | inr (r, u) ↦ ground (arith, found-member id qs r u)
  | inl u ↦ ground (arith, h, u)
]

named-none :
    (seen : List Text) (a : Answer) (o : Option Question)
    → check_named seen a o ≡ none
    → (q : Question) × (o ≡ some q) × (member a.question_id seen ≡ false)
unfolding check_named
named-none seen a none h = ground arith
named-none seen a (some q) h = (q, refl, ground (arith, h))

or_check-none : (o rest : Option Error) → or_check o rest ≡ none → (o ≡ none) × (rest ≡ none)
or_check-none none rest h = (refl, h)
or_check-none (some e) rest h = ground arith

-- No answer names a question that has been seen.
not_seen :
    (questions : List Question) (seen : List Text) (as' : Response) (x : Text)
    → check_answers questions seen as' ≡ none
    → member x seen ≡ true
    → member x (answer_ids as') ≡ false
unfolding check_answers
not_seen questions seen [] x h k = refl
not_seen questions seen (a ∷ as') x h k =
    let (first, rest) = or_check-none _ _ h in
    let (q, found, new) = named-none seen a _ first in
    elim (Bool-cases (text_eq a.question_id x)) [
      | inl e ↦
          ground
            (arith, new, k, ap (λ (t : Text). member t seen) ((text_eq_iff a.question_id x).0 e))
      | inr e ↦ ground (arith, e, not_seen questions (a.question_id ∷ seen) as' x rest, k)
    ]

own_member : (x : Text) (xs : List Text) → member x (x ∷ xs) ≡ true
own_member x xs = rw (text_eq_refl x) refl

answers-Distinct :
    (questions : List Question) (seen : List Text) (as' : Response)
    → check_answers questions seen as' ≡ none
    → Distinct (answer_ids as')
unfolding check_answers
answers-Distinct questions seen [] h = tt
answers-Distinct questions seen (a ∷ as') h =
    let (first, rest) = or_check-none _ _ h in
    (
      not_seen questions (a.question_id ∷ seen) as' a.question_id rest
          (own_member a.question_id seen),
      answers-Distinct questions (a.question_id ∷ seen) as' rest,
    )

answers-Within :
    (questions : List Question) (seen : List Text) (as' : Response)
    → check_answers questions seen as' ≡ none
    → Within (answer_ids as') (question_ids questions)
unfolding check_answers
answers-Within questions seen [] h = tt
answers-Within questions seen (a ∷ as') h =
    let (first, rest) = or_check-none _ _ h in
    let (q, found, new) = named-none seen a _ first in
    (
      found-member a.question_id questions q found,
      answers-Within questions (a.question_id ∷ seen) as' rest,
    )

length-answer_ids : (as' : Response) → length (answer_ids as') ≡ length as'
length-answer_ids [] = refl
length-answer_ids (a ∷ as') = ap suc (length-answer_ids as')

length-question_ids : (qs : List Question) → length (question_ids qs) ≡ length qs
length-question_ids [] = refl
length-question_ids (q ∷ qs) = ap suc (length-question_ids qs)

-- The questions that an accepted response answers are just those of the request, each once.
pub validate_response-perm :
    (request : Request) (response : Response)
    → validate_response request response ≡ none
    → Perm (answer_ids response) (question_ids request.questions)
unfolding validate_response
validate_response-perm request response h =
    elim (Bool-cases (length response == length request.questions)) [
      | inr q ↦ ground (arith, h, q)
      | inl q ↦
          let checked : check_answers request.questions [] response ≡ none = ground (arith, h, q) in
          pigeonhole (answer_ids response) (question_ids request.questions)
            (answers-Distinct request.questions [] response checked)
            (answers-Within request.questions [] response checked)
            (length-answer_ids response
              ∙ (==_iff _ _).0 q
              ∙ sym (length-question_ids request.questions))
    ]

-- ===== src/Question/Counts.antt =====
-- How often an ID occurs among the requests and the results, and what finding and dropping do to it.
use parrot_coder.Base.{
  ℕ, ◌+◌, ◌≡◌, ◌<◌, refl, ap, ◌∙◌, Bool, true, false, List, [], ◌∷◌, none, some, Text, text_eq,
  text_eq_iff, arith,
}
use parrot_coder.Question.Types.{Request}
use parrot_coder.Question.Broker.{
  Pending, Outcome, Sent, find_request, find_sent, drop_pending, drop_sent,
}

-- One if the test holds.
abbrev pub bit : Bool → ℕ
bit true = 1
bit false = 0

unfoldable pub pendings : Text → List Pending → ℕ
pendings id [] = 0
pendings id (p ∷ ps) = bit (text_eq p.id id) + pendings id ps

unfoldable pub sents : Text → List Sent → ℕ
sents id [] = 0
sents id (s ∷ ss) = bit (text_eq s.id id) + sents id ss

pub found-pendings :
    (id : Text) (ps : List Pending) (request : Request)
    → find_request id ps ≡ some request
    → 0 < pendings id ps
unfolding find_request pendings
found-pendings id [] request h = ground arith
found-pendings id (p ∷ ps) request h = ground (arith, found-pendings id ps request)

pub missing-pendings :
    (id : Text) (ps : List Pending) → find_request id ps ≡ none → pendings id ps ≡ 0
unfolding find_request pendings
missing-pendings id [] h = refl
missing-pendings id (p ∷ ps) h = ground (arith, missing-pendings id ps)

pub found-sents :
    (id : Text) (ss : List Sent) (outcome : Outcome)
    → find_sent id ss ≡ some outcome
    → 0 < sents id ss
unfolding find_sent sents
found-sents id [] outcome h = ground arith
found-sents id (s ∷ ss) outcome h = ground (arith, found-sents id ss outcome)

-- Whether two IDs differ, as tests of a third.
apart : (x a b : Text) → text_eq a b ≡ false → text_eq x a ≡ true → text_eq x b ≡ false
apart x a b h k = ap (λ t. text_eq t b) ((text_eq_iff x a).0 k) ∙ h

pub pendings-drop_same : (id : Text) (ps : List Pending) → pendings id (drop_pending id ps) ≡ 0
unfolding drop_pending pendings
pendings-drop_same id [] = refl
pendings-drop_same id (p ∷ ps) = ground (arith, pendings-drop_same id ps)

pub sents-drop_same : (id : Text) (ss : List Sent) → sents id (drop_sent id ss) ≡ 0
unfolding drop_sent sents
sents-drop_same id [] = refl
sents-drop_same id (s ∷ ss) = ground (arith, sents-drop_same id ss)

pub pendings-drop_other :
    (id other : Text) (ps : List Pending)
    → text_eq id other ≡ false
    → pendings other (drop_pending id ps) ≡ pendings other ps
unfolding drop_pending pendings
pendings-drop_other id other [] h = refl
pendings-drop_other id other (p ∷ ps) h =
    ground (arith, pendings-drop_other id other ps h, apart p.id id other h)

pub sents-drop_other :
    (id other : Text) (ss : List Sent)
    → text_eq id other ≡ false
    → sents other (drop_sent id ss) ≡ sents other ss
unfolding drop_sent sents
sents-drop_other id other [] h = refl
sents-drop_other id other (s ∷ ss) h =
    ground (arith, sents-drop_other id other ss h, apart s.id id other h)

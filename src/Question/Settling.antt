-- ===== src/Question/Settling.antt =====
-- What Reply and Reject do to the requests, and the list that Pending gives.
use parrot_coder.Base.{
  ◌≡◌, inl, inr, refl, List, [], ◌∷◌, Option, none, some, Text, text_eq, Bool-cases, Option-cases,
  arith, sort_by-perm, sort_by-IsSorted, IsSorted,
}
use mathlib.Core.List.{Perm}
use parrot_coder.Question.Types.{Request, Response, unknown_request}
use parrot_coder.Question.Broker.{
  Pending, World, find_request, drop_pending, check_reply, settle_checked, settle_found, settle,
  pending_list,
}

dropped-none : (id : Text) (ps : List Pending) → find_request id (drop_pending id ps) ≡ none
unfolding find_request drop_pending
dropped-none id [] = refl
dropped-none id (p ∷ ps) = elim (Bool-cases (text_eq p.id id)) [
  | inl q ↦ rw q (dropped-none id ps)
  | inr q ↦ rw (q, q) (dropped-none id ps)
]

settle_gone :
    (id : Text) (reply : Option Response) (w : World) (r : Option Request)
    → (settle_found id reply w r).0 ≡ none
    → find_request id (settle_found id reply w r).1.pending ≡ none
unfolding settle_found settle_checked
settle_gone id reply w none h = ground arith
settle_gone id reply w (some request) h = elim (Option-cases (check_reply request reply)) [
  | inl u ↦ rw u (dropped-none id w.pending)
  | inr (e, u) ↦ ground (arith, h, u)
]

-- Once a reply or a rejection has settled a request, each later one, whatever it says, is refused
-- as unknown and changes nothing.
pub settle-settle :
    (id : Text) (reply later : Option Response) (w : World)
    → (settle id reply w).0 ≡ none
    → settle id later (settle id reply w).1 ≡ (some unknown_request, (settle id reply w).1)
unfolding settle settle_found
settle-settle id reply later w h = rw (settle_gone id reply w (find_request id w.pending) h) refl

-- The list of pending requests: each of them once, in the order of the IDs.
pub pending_list-IsSorted :
    (w : World)
    → Perm (pending_list w) w.pending × IsSorted (λ (p : Pending). p.id) (pending_list w)
unfolding pending_list
pending_list-IsSorted w = (
  sort_by-perm (λ (p : Pending). p.id) w.pending,
  sort_by-IsSorted (λ (p : Pending). p.id) w.pending,
)

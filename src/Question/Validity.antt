-- ===== src/Question/Validity.antt =====
-- The responses in the channels and in the returns of Ask, against the requests asked.
use parrot_coder.Base.{
  ◌≡◌, inl, inr, refl, sym, subst, true, false, List, [], ◌∷◌, Option, none, some, Text, text_eq,
  text_eq_iff, text_eq_refl, All-map, Bool-cases, Option-cases, arith, All,
}
use parrot_coder.Question.Types.{Request, Response, validate_request, validate_response}
use parrot_coder.Question.Broker.{
  Pending, Outcome, answered, rejected, cancelled, Sent, World, start, find_request, find_sent,
  drop_pending, drop_sent, outcome_of, check_reply, settle_checked, settle_found, settle, entered,
  ask, returns, receive, cancel, Event, asks, replies, rejects, receives, cancels, step, run,
}
use parrot_coder.Question.History.{Next, run-keeps}

-- An outcome that the request allows.
abbrev pub Allowed : Option Request → Outcome → Type 0
Allowed (some request) (answered response) = validate_response request response ≡ none
Allowed none (answered response) = false ≡ true
Allowed request rejected = Unit {0}
Allowed request cancelled = Unit {0}

-- A pending request is the one that was asked with its ID, and results are allowed by it.
pub record Valid (w : World) : Type 0 where
  pub pending_asked : All (λ p. find_request p.id w.asked ≡ some p.request) w.pending
  pub channels_valid : All (λ s. Allowed (find_request s.id w.asked) s.outcome) w.channels
  pub returned_valid : All (λ s. Allowed (find_request s.id w.asked) s.outcome) w.returned

-- What the value of an option satisfies, if there is one.
abbrev OfSome {ℓ} : {A : Type ℓ} → (A → Type 0) → Option A → Type 0
OfSome P none = Unit {0}
OfSome P (some a) = P a

All-found :
    (P : Text → Request → Type 0) (id : Text) (ps : List Pending)
    → All (λ p. P p.id p.request) ps
    → OfSome (P id) (find_request id ps)
unfolding find_request
All-found P id [] a = tt
All-found P id (p ∷ ps) a = elim (Bool-cases (text_eq p.id id)) [
  | inl q ↦ rw q (subst (λ (i : Text). P i p.request) ((text_eq_iff p.id id).0 q) a.0)
  | inr q ↦ rw q (All-found P id ps a.1)
]

All-found_sent :
    (P : Text → Outcome → Type 0) (id : Text) (ss : List Sent)
    → All (λ s. P s.id s.outcome) ss
    → OfSome (P id) (find_sent id ss)
unfolding find_sent
All-found_sent P id [] a = tt
All-found_sent P id (s ∷ ss) a = elim (Bool-cases (text_eq s.id id)) [
  | inl q ↦ rw q (subst (λ (i : Text). P i s.outcome) ((text_eq_iff s.id id).0 q) a.0)
  | inr q ↦ rw q (All-found_sent P id ss a.1)
]

All-drop_pending :
    (P : Pending → Type 0) (id : Text) (ps : List Pending) → All P ps → All P (drop_pending id ps)
unfolding drop_pending
All-drop_pending P id [] a = tt
All-drop_pending P id (p ∷ ps) a = elim (Bool-cases (text_eq p.id id)) [
  | inl q ↦ rw q (All-drop_pending P id ps a.1)
  | inr q ↦ rw q (a.0, All-drop_pending P id ps a.1)
]

All-drop_sent :
    (P : Sent → Type 0) (id : Text) (ss : List Sent) → All P ss → All P (drop_sent id ss)
unfolding drop_sent
All-drop_sent P id [] a = tt
All-drop_sent P id (s ∷ ss) a = elim (Bool-cases (text_eq s.id id)) [
  | inl q ↦ rw q (All-drop_sent P id ss a.1)
  | inr q ↦ rw q (a.0, All-drop_sent P id ss a.1)
]

reply-Allowed :
    (request : Request) (reply : Option Response)
    → check_reply request reply ≡ none
    → Allowed (some request) (outcome_of reply)
reply-Allowed request none h = tt
reply-Allowed request (some response) h = h

settle_found-Valid :
    (id : Text) (reply : Option Response) (w : World) (r : Option Request)
    → find_request id w.pending ≡ r
    → Valid w
    → Valid (settle_found id reply w r).1
unfolding settle_found settle_checked
settle_found-Valid id reply w none q v = v
settle_found-Valid id reply w (some request) q v =
    let asked : find_request id w.asked ≡ some request =
      subst (OfSome (λ (r : Request). find_request id w.asked ≡ some r)) q
        (All-found (λ i r. find_request i w.asked ≡ some r) id w.pending v.pending_asked) in
    elim (Option-cases (check_reply request reply)) [
      | inr (e, u) ↦ rw u v
      | inl u ↦ rw u (record {
        pending_asked = All-drop_pending _ id w.pending v.pending_asked;
        channels_valid = (
          subst (λ (o : Option Request). Allowed o (outcome_of reply)) (sym asked)
              (reply-Allowed request reply u),
          v.channels_valid,
        );
        returned_valid = v.returned_valid;
      })
    ]

-- A request with a new ID changes nothing for the others.
asked-extend :
    (p : Pending) (id : Text) (request : Request) (asked : List Pending)
    → find_request id asked ≡ none
    → find_request p.id asked ≡ some p.request
    → find_request p.id (record { id = id; request = request } ∷ asked) ≡ some p.request
unfolding find_request
asked-extend p id request asked h k = elim (Bool-cases (text_eq id p.id)) [
  | inr q ↦ rw q k
  | inl q ↦
      let same : id ≡ p.id = (text_eq_iff id p.id).0 q in
      ground (arith, subst (λ (i : Text). find_request i asked ≡ none) same h, k)
]

unasked :
    (request : Request) (outcome : Outcome) → Allowed none outcome → Allowed (some request) outcome
unasked request (answered response) h = ground arith
unasked request rejected h = tt
unasked request cancelled h = tt

Allowed-extend :
    (s : Sent) (id : Text) (request : Request) (asked : List Pending)
    → find_request id asked ≡ none
    → Allowed (find_request s.id asked) s.outcome
    → Allowed (find_request s.id (record { id = id; request = request } ∷ asked)) s.outcome
unfolding find_request
Allowed-extend s id request asked h k = elim (Bool-cases (text_eq id s.id)) [
  | inr q ↦ rw q k
  | inl q ↦ rw q (
      unasked request s.outcome (
        subst (λ (o : Option Request). Allowed o s.outcome)
          (subst (λ (i : Text). find_request i asked ≡ none) ((text_eq_iff id s.id).0 q) h) k))
]

find_request_own :
    (id : Text) (request : Request) (ps : List Pending)
    → find_request id (record { id = id; request = request } ∷ ps) ≡ some request
unfolding find_request
find_request_own id request ps = rw (text_eq_refl id) refl

entered-Valid :
    (id : Text) (request : Request) (w : World)
    → find_request id w.asked ≡ none
    → Valid w
    → Valid (entered (record { id = id; request = request }) w)
entered-Valid id request w q v = record {
  pending_asked = (
    find_request_own id request w.asked,
    All-map (λ p. asked-extend p id request w.asked q) w.pending v.pending_asked,
  );
  channels_valid = All-map (λ s. Allowed-extend s id request w.asked q) w.channels v.channels_valid;
  returned_valid = All-map (λ s. Allowed-extend s id request w.asked q) w.returned v.returned_valid;
}

returns-Valid :
    (id : Text) (outcome : Outcome) (w : World)
    → Allowed (find_request id w.asked) outcome
    → Valid w
    → Valid (returns id outcome w)
returns-Valid id outcome w a v = record {
  pending_asked = v.pending_asked;
  channels_valid = All-drop_sent _ id w.channels v.channels_valid;
  returned_valid = (a, v.returned_valid);
}

dropped-Valid :
    (id : Text) (w : World) → Valid w → Valid (record w { pending = drop_pending id w.pending })
dropped-Valid id w v = record {
  pending_asked = All-drop_pending _ id w.pending v.pending_asked;
  channels_valid = v.channels_valid;
  returned_valid = v.returned_valid;
}

Allowed-cancelled : (o : Option Request) → Allowed o cancelled
Allowed-cancelled none = tt
Allowed-cancelled (some request) = tt

step-Valid : (w : World) (e : Event) → Valid w → Next Valid (step w e)
unfolding step settle ask receive cancel
step-Valid w (asks id request) v = elim (Option-cases (find_request id w.asked)) [
  | inr (old, q) ↦ rw (ask, q) tt
  | inl q ↦ elim (Option-cases (validate_request request)) [
    | inr (e, u) ↦ rw (ask, q, u) v
    | inl u ↦ rw (ask, q, u) (entered-Valid id request w q v)
  ]
]
step-Valid w (replies id response) v = settle_found-Valid id (some response) w _ refl v
step-Valid w (rejects id) v = settle_found-Valid id none w _ refl v
step-Valid w (receives id) v = elim (Option-cases (find_request id w.waiting)) [
  | inl q ↦ rw (receive, q) tt
  | inr (request, q) ↦ elim (Option-cases (find_sent id w.channels)) [
    | inl r ↦ rw (receive, q, r) tt
    | inr (outcome, r) ↦
        rw (receive, q, r)
          (returns-Valid id outcome w
            (subst (OfSome (λ (o : Outcome). Allowed (find_request id w.asked) o)) r (
              All-found_sent (λ i o. Allowed (find_request i w.asked) o) id w.channels
                v.channels_valid))
            v)
  ]
]
step-Valid w (cancels id) v = elim (Option-cases (find_request id w.waiting)) [
  | inl q ↦ rw (cancel, q) tt
  | inr (request, q) ↦
      rw (cancel, q)
        (returns-Valid id cancelled (record w { pending = drop_pending id w.pending })
          (Allowed-cancelled (find_request id w.asked)) (dropped-Valid id w v))
]

-- After any history, every response that a call of Ask has returned, and every one that waits to be
-- received, passes validateResponse for the request with that ID.
pub run-Valid : (events : List Event) (end : World) → run start events ≡ some end → Valid end
run-Valid events end q =
    run-keeps Valid step-Valid start events end q
      (record { pending_asked = tt; channels_valid = tt; returned_valid = tt })

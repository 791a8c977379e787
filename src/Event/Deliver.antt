-- ===== src/Event/Deliver.antt =====
-- PublishEvent reaches each subscription once: those of the session, and those of its ancestors.
use parrot_coder.Base.{
  ◌≡◌, refl, ap, sym, ◌∙◌, inl, inr, List, [], ◌∷◌, Text, Bool, true, false, ◌||◌, if◌then◌else◌,
  Option, none, some, text_eq, text_eq_iff, text_eq_sym, is_empty, arith, Bool-cases,
}
use parrot_coder.Event.Transient.{
  EventType, tool_output_delta, known, unknown, Event, Listener, offer, keep_open, offer_each,
  offer_some, acceptable, with_id, publish,
}
use parrot_coder.Event.Broker.{seen, projected, project_each, publish_event}
use parrot_coder.Event.Route.{IsClimb}
use parrot_coder.Event.Open.{offer-session}

abbrev pub delivered : Option Event → Listener → List Listener → List Listener
delivered none l rest = l ∷ rest
delivered (some e) l rest = keep_open (offer e l) rest

-- One pass over the subscriptions: each is offered the event chosen for its session, if there is one.
abbrev pub deliver : (Text → Option Event) → List Listener → List Listener
deliver choose [] = []
deliver choose (l ∷ ls) = delivered (choose l.session) l (deliver choose ls)

abbrev pub choosing : Text → Event → (Text → Option Event) → Text → Option Event
choosing route e choose s = if text_eq route s then some e else choose s

deliver-same :
    (f g : Text → Option Event) (ls : List Listener)
    → ((s : Text) → f s ≡ g s)
    → deliver f ls ≡ deliver g ls
deliver-same f g [] h = refl
deliver-same f g (l ∷ ls) h =
    ap (λ (o : Option Event). delivered o l (deliver f ls)) (h l.session)
    ∙ ap (delivered (g l.session) l) (deliver-same f g ls h)

deliver-nothing : (ls : List Listener) → deliver (λ s. none) ls ≡ ls
deliver-nothing [] = refl
deliver-nothing (l ∷ ls) = ap (λ r. l ∷ r) (deliver-nothing ls)

module _ (route : Text) (e : Event) where
  -- A subscription that the pass has left open for another session.
  pass_by :
      (l : Listener) (o : Option Listener) (rest : List Listener)
      → text_eq l.session route ≡ false
      → ((l' : Listener) → o ≡ some l' → l'.session ≡ l.session)
      → offer_each route e (keep_open o rest) ≡ keep_open o (offer_each route e rest)
  unfolding offer_each
  pass_by l none rest other key = refl
  pass_by l (some l') rest other key =
      let apart : text_eq l'.session route ≡ false =
        ap (λ (t : Text). text_eq t route) (key l' refl) ∙ other in
      rw (offer_each, apart) refl

  -- A second offer to a subscription that the pass has dealt with.
  offer_each-delivered :
      (o : Option Event) (l : Listener) (rest : List Listener)
      → (text_eq route l.session ≡ true → o ≡ none)
      → offer_each route e (delivered o l rest)
        ≡ delivered (if text_eq route l.session then some e else o) l (offer_each route e rest)
  unfolding offer_each
  offer_each-delivered none l rest h = elim (Bool-cases (text_eq route l.session)) [
    | inl t ↦ rw t (rw (text_eq_sym l.session route ∙ t) refl)
    | inr t ↦ rw t (rw (text_eq_sym l.session route ∙ t) refl)
  ]
  offer_each-delivered (some e') l rest h = elim (Bool-cases (text_eq route l.session)) [
    | inl t ↦ absurd (ground (arith, h t))
    | inr t ↦
        rw t (pass_by l (offer e' l) rest (text_eq_sym l.session route ∙ t) (offer-session e' l))
  ]

  offer_each-deliver :
      (f : Text → Option Event) (ls : List Listener)
      → f route ≡ none
      → offer_each route e (deliver f ls) ≡ deliver (choosing route e f) ls
  unfolding offer_each
  offer_each-deliver f [] h = refl
  offer_each-deliver f (l ∷ ls) h =
      offer_each-delivered (f l.session) l (deliver f ls)
        (λ t. ap f (sym ((text_eq_iff route l.session).0 t)) ∙ h)
      ∙ ap (delivered (choosing route e f l.session) l) (offer_each-deliver f ls h)

-- What can be published: an event of a named session and of a known type, with valid data.
abbrev pub type_known : EventType → Bool
type_known tool_output_delta = true
type_known known = true
type_known unknown = false

abbrev pub publishable : Event → Bool
publishable e =
    if is_empty e.session_id then false else (if type_known e.type then e.valid else false)

-- The event for the session itself: as it is, or with the new ID, if there is one.
abbrev pub identified : Text → Event → Option Event
identified fresh e =
    if is_empty e.id
    then (if is_empty fresh
        then none
        else some (record {
          id = fresh;
          type = e.type;
          session_id = e.session_id;
          payload = e.payload;
          valid = e.valid;
          sequence = e.sequence;
          created_at = e.created_at;
        }))
    else some e

-- The event for an ancestor.
abbrev pub stripped : Event → Event
stripped e = record {
  id = [];
  type = e.type;
  session_id = e.session_id;
  payload = e.payload;
  valid = e.valid;
  sequence = none;
  created_at = none;
}

-- The event that a session's subscriptions are offered: its own with its ID, or the one for an ancestor.
abbrev pub choice : Text → List Text → Event → Text → Text → Option Event
choice origin ancestors e fresh s =
    if publishable e
    then (if text_eq origin s
        then identified fresh e
        else (if seen ancestors s then some (stripped e) else none))
    else none

acceptable-publishable : (e : Event) → acceptable e.session_id e ≡ publishable e
acceptable-publishable e = elim (Bool-cases (is_empty e.session_id)) [
  | inl a ↦ rw a refl
  | inr a ↦ elim (Bool-cases (type_known e.type)) [
    | inl b ↦ rw (a, b) refl
    | inr b ↦ rw (a, b) refl
  ]
]

with_id-identified : (fresh : Text) (e : Event) → with_id fresh e ≡ identified fresh e
with_id-identified fresh e = elim (Bool-cases (is_empty e.id)) [
  | inl a ↦ rw a refl
  | inr a ↦ rw a refl
]

if_same : (b : Bool) (o : Option Event) → (if b then o else o) ≡ o
if_same true o = refl
if_same false o = refl

own_first :
    (a b : Bool) (w x : Option Event)
    → (b ≡ true → a ≡ false)
    → (if a then x else (if b then w else none)) ≡ (if b then w else (if a then x else none))
own_first true true w x h = absurd (ground (arith, h refl))
own_first true false w x h = refl
own_first false true w x h = refl
own_first false false w x h = refl

publish-refused :
    (route : Text) (e : Event) (assign : Bool) (fresh : Text) (ls : List Listener)
    → acceptable route e ≡ false
    → publish route e assign fresh ls ≡ ls
unfolding publish
publish-refused route e assign fresh ls h = rw h refl

publish-own :
    (route : Text) (e : Event) (fresh : Text) (ls : List Listener)
    → acceptable route e ≡ true
    → publish route e true fresh ls ≡ offer_some route (with_id fresh e) ls
unfolding publish
publish-own route e fresh ls h = rw h refl

refused_everywhere :
    (e : Event) (p : Text) → acceptable e.session_id e ≡ false → acceptable p (projected e) ≡ false
refused_everywhere e p h = ground arith

accepted_everywhere :
    (e : Event) (p : Text)
    → acceptable e.session_id e ≡ true
    → is_empty p ≡ false
    → acceptable p (projected e) ≡ true
accepted_everywhere e p h k = ground arith

-- No session of the route is among the ancestors that follow.
climb-new :
    (parent : Text → Option Text) (current : Text) (route ps : List Text) (s : Text)
    → IsClimb parent current route ps
    → seen route s ≡ true
    → seen ps s ≡ false
climb-new parent current route [] s c h = refl
climb-new parent current route (p ∷ ps) s (is, named, fresh, c) h =
    elim (Bool-cases (text_eq p s)) [
      | inl t ↦ absurd (ground (arith, ap (seen route) ((text_eq_iff p s).0 t)))
      | inr t ↦ rw t (climb-new parent p (p ∷ route) ps s c (rw t h))
    ]

either_way :
    (a b : Bool) (x : Event) (o : Option Event)
    → (if a then some x else (if b then some x else o)) ≡ (if b || a then some x else o)
either_way true true x o = refl
either_way true false x o = refl
either_way false true x o = refl
either_way false false x o = refl

module _ (parent : Text → Option Text) (e : Event) where
  new_later :
      (p : Text) (route : List Text) (f : Text → Option Event)
      → ((s : Text) → seen route s ≡ false → f s ≡ none)
      → (s : Text) → seen (p ∷ route) s ≡ false
      → choosing p (projected e) f s ≡ none
  new_later p route f new s h = elim (Bool-cases (text_eq p s)) [
    | inl t ↦ absurd (ground arith)
    | inr t ↦ rw t (new s (rw t at h))
  ]

  -- The ancestors, on top of what the sessions of the route are offered.
  project_each-deliver :
      (current : Text) (route ps : List Text) (f : Text → Option Event) (ls : List Listener)
      → IsClimb parent current route ps
      → ((s : Text) → seen route s ≡ false → f s ≡ none)
      → ((p : Text) → is_empty p ≡ false → acceptable p (projected e) ≡ true)
      → project_each ps e (deliver f ls)
        ≡ deliver (λ s. if seen ps s then some (projected e) else f s) ls
  unfolding project_each publish
  project_each-deliver current route [] f ls c new good = refl
  project_each-deliver current route (p ∷ ps) f ls (is, named, fresh, c) new good =
      rw (good p named) (
        ap (project_each ps e) (offer_each-deliver p (projected e) f ls (new p fresh))
        ∙ (project_each-deliver p (p ∷ route) ps (choosing p (projected e) f) ls c
              (new_later p route f new) good
            ∙ deliver-same _ _ ls (λ s. either_way (seen ps s) (text_eq p s) (projected e) (f s))))

  project_each-refused :
      (ps : List Text) (ls : List Listener)
      → ((p : Text) → acceptable p (projected e) ≡ false)
      → project_each ps e ls ≡ ls
  unfolding project_each publish
  project_each-refused [] ls h = refl
  project_each-refused (p ∷ ps) ls h = rw (h p) (project_each-refused ps ls h)

  -- The session's own subscriptions.
  own-deliver :
      (origin : Text) (o : Option Event) (ls : List Listener)
      → offer_some origin o ls ≡ deliver (λ s. if text_eq origin s then o else none) ls
  own-deliver origin none ls =
      sym
        (deliver-same _ (λ s. none) ls (λ s. if_same (text_eq origin s) none) ∙ deliver-nothing ls)
  own-deliver origin (some e') ls =
      ap (offer_each origin e') (sym (deliver-nothing ls))
      ∙ offer_each-deliver origin e' (λ s. none) ls refl

  own_only :
      (s : Text)
      → seen (e.session_id ∷ []) s ≡ false
      → (o : Option Event) → (if text_eq e.session_id s then o else none) ≡ none
  own_only s h o = let apart : text_eq e.session_id s ≡ false = ground arith in rw apart refl

  -- An event of a session with these ancestors, published: every subscription is offered one event or none,
  -- once. Those of the session get the event with its ID, those of each ancestor the event without ID,
  -- sequence and time, and no other; and an event that is not acceptable reaches none.
  pub publish_event-deliver :
      (ancestors : List Text) (fresh : Text) (ls : List Listener)
      → IsClimb parent e.session_id (e.session_id ∷ []) ancestors
      → publish_event (e.session_id ∷ ancestors) e fresh ls
        ≡ deliver (choice e.session_id ancestors e fresh) ls
  unfolding publish_event
  publish_event-deliver ancestors fresh ls c = elim (Bool-cases (acceptable e.session_id e)) [
    | inr refuses ↦
        ap (project_each ancestors e) (publish-refused e.session_id e true fresh ls refuses)
        ∙ (project_each-refused ancestors ls (λ p. refused_everywhere e p refuses)
            ∙ sym (
                deliver-same (choice e.session_id ancestors e fresh) (λ s. none) ls
                  (λ s. rw (sym (acceptable-publishable e) ∙ refuses) refl)
                ∙ deliver-nothing ls))
    | inl accepts ↦
        let own : Text → Option Event =
          λ s. if text_eq e.session_id s then with_id fresh e else none in
        ap (project_each ancestors e) (
          publish-own e.session_id e fresh ls accepts
          ∙ own-deliver e.session_id (with_id fresh e) ls)
        ∙ (project_each-deliver e.session_id (e.session_id ∷ []) ancestors own ls c
              (λ s h. own_only s h (with_id fresh e)) (λ p k. accepted_everywhere e p accepts k)
            ∙ deliver-same (λ s. if seen ancestors s then some (projected e) else own s)
                (choice e.session_id ancestors e fresh) ls
                (λ s.
                  rw (sym (acceptable-publishable e) ∙ accepts, sym (with_id-identified fresh e))
                    (own_first (seen ancestors s) (text_eq e.session_id s) (with_id fresh e)
                      (some (projected e))
                      (λ t.
                        climb-new parent e.session_id (e.session_id ∷ []) ancestors s c
                          (rw t refl)))))
  ]

-- ===== src/Event/Open.antt =====
-- An event that is offered to a subscription leaves its session.
use parrot_coder.Base.{
  ◌++◌, take, drop, ℕ, ltb, length, subst, ◌≡◌, refl, inl, inr, List, [], ◌∷◌, Option, none, some,
  Bool-cases,
}
use parrot_coder.Event.Transient.{
  Event, Listener, offer, offer_full, offer_next, offer_raced, divide, evict, after_evict,
  second_send, Race, disposable,
}

-- An open subscription keeps its session.
abbrev KeepsSession : Listener → Option Listener → Type 0
KeepsSession l none = Unit {0}
KeepsSession l (some l') = l'.session ≡ l.session

second_send-KeepsSession :
    (e : Event) (l v : Listener) → v.session ≡ l.session → KeepsSession l (second_send e v)
unfolding second_send
second_send-KeepsSession e l v key = elim (Bool-cases (ltb (length v.queued) v.capacity)) [
  | inl a ↦ rw a key
  | inr a ↦ rw a tt
]

after_evict-KeepsSession :
    (early : ℕ) (e : Event) (l v : Listener) (o : Option (List Event))
    → v.session ≡ l.session
    → KeepsSession l (after_evict early e v o)
unfolding after_evict
after_evict-KeepsSession early e l v (some es) key = key
after_evict-KeepsSession early e l v none key =
    second_send-KeepsSession e l
      (record v { received = v.received ++ take early v.queued; queued = drop early v.queued }) key

raced-KeepsSession :
    (race : Race) (e : Event) (l v : Listener)
    → v.session ≡ l.session
    → KeepsSession l (offer_raced race e v)
unfolding offer_raced
raced-KeepsSession race e l v key =
    let (theirs, mine) = divide race.taken v.queued in
    after_evict-KeepsSession race.early e l
      (record v { received = v.received ++ theirs; queued = mine }) (evict mine) key

next-KeepsSession :
    (races : List Race) (e : Event) (l : Listener) → KeepsSession l (offer_next races e l)
unfolding offer_next
next-KeepsSession [] e l = raced-KeepsSession (record { taken = []; early = 0 }) e l l refl
next-KeepsSession (r ∷ rs) e l = raced-KeepsSession r e l (record l { races = rs }) refl

offer-KeepsSession : (e : Event) (l : Listener) → KeepsSession l (offer e l)
unfolding offer offer_full
offer-KeepsSession e l = elim (Bool-cases (ltb (length l.queued) l.capacity)) [
  | inl a ↦ rw a refl
  | inr a ↦ elim (Bool-cases (disposable e)) [
    | inl b ↦ rw (a, b) refl
    | inr b ↦ rw (a, b) (next-KeepsSession l.races e l)
  ]
]

pub offer-session : (e : Event) (l l' : Listener) → offer e l ≡ some l' → l'.session ≡ l.session
offer-session e l l' h = subst (KeepsSession l) h (offer-KeepsSession e l)

-- ===== src/Event/Kept.antt =====
-- A subscription that stays open loses nothing but tool output, whatever its receiver takes meanwhile.
use mathlib.Core.List.{append-nil, append_assoc, Perm}
use mathlib.Core.List.Perm
use parrot_coder.Base.{
  ◌+◌, ◌≤◌, ◌≡◌, refl, ap, sym, ◌∙◌, inl, inr, List, [], ◌∷◌, ◌++◌, false, ltb, length, Option,
  none, some, arith, Bool-cases, length-append, length-drop, ℕ, take, drop, take-append-drop, subst,
}
use parrot_coder.Event.Transient.{
  Event, disposable, Race, Listener, evict, divide, second_send, after_evict, offer_raced,
  offer_next, offer_full, offer,
}
use parrot_coder.Event.Shared.{
  lasting, lasting-append, evict-lasting, evict-none, held, divide-perm, count-divide,
  length-divide,
}

-- The state of a subscription after an event.
pub record IsOffered (e : Event) (l l' : Listener) : Type 0 where
  pub same_key : l'.session ≡ l.session
  pub same_capacity : l'.capacity ≡ l.capacity
  pub within : length l'.queued ≤ l'.capacity
  pub nothing_lost : Perm (held l') (held l ++ lasting (e ∷ []))
  pub counted : length (held l') ≡ length (held l) + length (lasting (e ∷ []))

-- What an offer comes to: a subscription is closed only if it has at least its capacity of events that
-- must not be lost queued, and the event is another.
abbrev pub Offered : Event → Listener → Option Listener → Type 0
Offered e l none = (disposable e ≡ false) × (l.capacity ≤ length (lasting l.queued))
Offered e l (some l') = IsOffered e l l'

-- Received, divided and added events against received, queued and added ones.
regroup : (r t m q x : List Event) → Perm (t ++ m) q → Perm ((r ++ t) ++ (m ++ x)) ((r ++ q) ++ x)
regroup r t m q x p =
    let left : (r ++ t) ++ (m ++ x) ≡ r ++ ((t ++ m) ++ x) =
      append_assoc r t (m ++ x) ∙ ap (λ ys. r ++ ys) (sym (append_assoc t m x)) in
    subst (λ (ys : List Event). Perm ys ((r ++ q) ++ x)) (sym left)
      (subst (λ (ys : List Event). Perm (r ++ ((t ++ m) ++ x)) ys) (sym (append_assoc r q x))
        (Perm.append_left r (Perm.append_right x p)))

module _ (e : Event) (l : Listener) where
  -- The receiver has `theirs`, and `kept` are queued with the event behind them.
  share-Offered :
      (theirs kept : List Event) (v : Listener)
      → Perm (lasting theirs ++ lasting kept) (lasting l.queued)
      → length (lasting theirs) + length (lasting kept) ≡ length (lasting l.queued)
      → v.received ≡ l.received ++ theirs
      → v.queued ≡ kept ++ (e ∷ [])
      → v.capacity ≡ l.capacity
      → v.session ≡ l.session
      → length v.queued ≤ v.capacity
      → IsOffered e l v
  share-Offered theirs kept v share count got left room key within =
      let all : held v
          ≡ (lasting l.received ++ lasting theirs) ++ (lasting kept ++ lasting (e ∷ [])) =
        ap (λ xs. lasting xs ++ lasting v.queued) got
        ∙ (ap (λ xs. lasting (l.received ++ theirs) ++ lasting xs) left
            ∙ (ap (λ xs. xs ++ lasting (kept ++ (e ∷ []))) (lasting-append l.received theirs)
                ∙ ap (λ xs. (lasting l.received ++ lasting theirs) ++ xs)
                    (lasting-append kept (e ∷ [])))) in
      record {
        same_key = key;
        same_capacity = room;
        within = within;
        nothing_lost =
            subst (λ (xs : List Event). Perm xs (held l ++ lasting (e ∷ []))) (sym all)
              (regroup (lasting l.received) (lasting theirs) (lasting kept) (lasting l.queued)
                (lasting (e ∷ [])) share);
        counted =
            ap length all
            ∙ omega (
              arith,
              count,
              length-append (lasting l.received ++ lasting theirs)
                  (lasting kept ++ lasting (e ∷ [])),
              length-append (lasting l.received) (lasting theirs),
              length-append (lasting kept) (lasting (e ∷ [])),
              length-append (lasting l.received) (lasting l.queued),
            );
      }

  -- Nothing to evict is left, and the receiver takes some of what is put back.
  early_share :
      (early : ℕ) (theirs mine : List Event)
      → lasting (theirs ++ take early mine) ++ lasting (drop early mine)
        ≡ lasting theirs ++ lasting mine
  early_share early theirs mine =
      ap (λ xs. xs ++ lasting (drop early mine)) (lasting-append theirs (take early mine))
      ∙ (append_assoc (lasting theirs) (lasting (take early mine)) (lasting (drop early mine))
          ∙ (ap (λ xs. lasting theirs ++ xs)
                (sym (lasting-append (take early mine) (drop early mine)))
              ∙ ap (λ xs. lasting theirs ++ lasting xs) (take-append-drop early mine)))

  second-Offered :
      (early : ℕ) (theirs mine : List Event) (v : Listener)
      → disposable e ≡ false
      → Perm (lasting theirs ++ lasting mine) (lasting l.queued)
      → length (lasting theirs) + length (lasting mine) ≡ length (lasting l.queued)
      → lasting mine ≡ mine
      → v.received ≡ (l.received ++ theirs) ++ take early mine
      → v.queued ≡ drop early mine
      → v.capacity ≡ l.capacity
      → v.session ≡ l.session
      → Offered e l (second_send e v)
  unfolding second_send
  second-Offered early theirs mine v d share count plain got left room key =
      elim (Bool-cases (ltb (length v.queued) v.capacity)) [
        | inr full ↦
            let most : v.capacity ≤ length v.queued = ground arith in
            rw full (
              d,
              omega (
                arith,
                length-drop early mine,
                ap length left,
                most,
                count,
                ap length plain,
                room,
              ),
            )
        | inl space ↦
            let fits : length (v.queued ++ (e ∷ [])) ≤ v.capacity =
              ground (arith, length-append v.queued (e ∷ [])) in
            rw space (
              share-Offered (theirs ++ take early mine) (drop early mine) _
                (subst (λ (xs : List Event). Perm xs (lasting l.queued))
                  (sym (early_share early theirs mine)) share)
                (sym (
                    length-append (lasting (theirs ++ take early mine)) (lasting (drop early mine)))
                  ∙ (ap length (early_share early theirs mine)
                      ∙ (length-append (lasting theirs) (lasting mine) ∙ count)))
                (got ∙ append_assoc l.received theirs (take early mine))
                (ap (λ xs. xs ++ (e ∷ [])) left) room key fits)
      ]

  -- The eviction took `mine`, and the receiver `theirs`.
  evict-Offered :
      (early : ℕ) (theirs mine : List Event) (v : Listener) (o : Option (List Event))
      → disposable e ≡ false
      → Perm (lasting theirs ++ lasting mine) (lasting l.queued)
      → length (lasting theirs) + length (lasting mine) ≡ length (lasting l.queued)
      → length mine ≤ l.capacity
      → evict mine ≡ o
      → v.received ≡ l.received ++ theirs
      → v.queued ≡ mine
      → v.capacity ≡ l.capacity
      → v.session ≡ l.session
      → Offered e l (after_evict early e v o)
  unfolding after_evict
  evict-Offered early theirs mine v none d share count fits q got left room key =
      second-Offered early theirs mine
        (record v { received = v.received ++ take early v.queued; queued = drop early v.queued }) d
        share count (evict-none mine q)
        (ap (λ xs. xs ++ take early v.queued) got
          ∙ ap (λ xs. (l.received ++ theirs) ++ take early xs) left)
        (ap (λ xs. drop early xs) left) room key
  evict-Offered early theirs mine v (some es) d share count fits q got left room key =
      let (same, shorter) = evict-lasting mine es q in
      share-Offered theirs es (record v { queued = es ++ (e ∷ []) })
        (subst (λ (xs : List Event). Perm (lasting theirs ++ xs) (lasting l.queued)) (sym same)
          share)
        (omega (arith, count, ap length same)) got refl room key
        (omega (arith, length-append es (e ∷ []), room))

  raced-Offered :
      (race : Race) (v : Listener)
      → disposable e ≡ false
      → length l.queued ≤ l.capacity
      → v.received ≡ l.received
      → v.queued ≡ l.queued
      → v.capacity ≡ l.capacity
      → v.session ≡ l.session
      → Offered e l (offer_raced race e v)
  unfolding offer_raced
  raced-Offered race v d fits got left room key =
      evict-Offered race.early (divide race.taken v.queued).0 (divide race.taken v.queued).1
        (record v {
          received = v.received ++ (divide race.taken v.queued).0;
          queued = (divide race.taken v.queued).1;
        })
        _ d
        (subst
          (λ (q : List Event).
            Perm (lasting (divide race.taken v.queued).0 ++ lasting (divide race.taken v.queued).1)
              (lasting q))
          left (divide-perm race.taken v.queued))
        (count-divide race.taken v.queued ∙ ap (λ (q : List Event). length (lasting q)) left)
        (omega (arith, length-divide race.taken v.queued, ap length left)) refl
        (ap (λ xs. xs ++ (divide race.taken v.queued).0) got) refl room key

  next-Offered :
      (races : List Race)
      → disposable e ≡ false
      → length l.queued ≤ l.capacity
      → Offered e l (offer_next races e l)
  unfolding offer_next
  next-Offered [] d fits =
      raced-Offered (record { taken = []; early = 0 }) l d fits refl refl refl refl
  next-Offered (race ∷ races) d fits = raced-Offered race _ d fits refl refl refl refl

  pub offer-Offered : length l.queued ≤ l.capacity → Offered e l (offer e l)
  unfolding offer offer_full
  offer-Offered h = elim (Bool-cases (ltb (length l.queued) l.capacity)) [
    | inl room ↦
        let fits : length (l.queued ++ (e ∷ [])) ≤ l.capacity =
          ground (arith, length-append l.queued (e ∷ [])) in
        rw room (
          share-Offered [] l.queued _ (Perm.refl (lasting l.queued)) (omega arith)
            (sym (append-nil l.received)) refl refl refl fits)
    | inr full ↦ elim (Bool-cases (disposable e)) [
      | inr d ↦ rw (full, d) (next-Offered l.races d h)
      | inl d ↦
          let none_new : lasting (e ∷ []) ≡ [] = rw d refl in
          rw (full, d)
            (record {
              same_key = refl;
              same_capacity = refl;
              within = h;
              nothing_lost =
                  subst (λ (xs : List Event). Perm (held l) xs)
                    (sym (ap (λ xs. held l ++ xs) none_new ∙ append-nil (held l)))
                    (Perm.refl (held l));
              counted = omega (arith, ap length none_new);
            })
    ]
  ]

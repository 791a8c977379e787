-- ===== src/Event/Shared.antt =====
-- What must not be lost of a queue, when part of it is evicted or taken.
use mathlib.Core.List.{Perm, perm_middle}
use mathlib.Core.List.Perm
use parrot_coder.Base.{
  ◌+◌, suc, ◌≤◌, ◌≡◌, refl, ap, inl, inr, List, [], ◌∷◌, ◌++◌, false, if◌then◌else◌, length, none,
  some, arith, Bool-cases, Option-cases, true, Bool,
}
use parrot_coder.Event.Transient.{Event, disposable, Listener, evict, divide}

-- The events that must not be lost.
abbrev pub lasting : List Event → List Event
lasting [] = []
lasting (e ∷ es) = let rest = lasting es in if disposable e then rest else e ∷ rest

pub lasting-append : (xs ys : List Event) → lasting (xs ++ ys) ≡ lasting xs ++ lasting ys
lasting-append [] ys = refl
lasting-append (x ∷ xs) ys = elim (Bool-cases (disposable x)) [
  | inl e ↦ rw e (lasting-append xs ys)
  | inr e ↦ rw e (ap (λ r. x ∷ r) (lasting-append xs ys))
]

-- What is evicted is one tool output.
pub evict-lasting :
    (es es' : List Event)
    → evict es ≡ some es'
    → (lasting es' ≡ lasting es) × (suc (length es') ≡ length es)
unfolding evict
evict-lasting [] es' h = absurd (cc)
evict-lasting (e ∷ es) es' h = elim (Bool-cases (disposable e)) [
  | inl d ↦ let same : es' ≡ es = ground arith in rw (same, d) (refl, refl)
  | inr d ↦ elim (Option-cases (evict es)) [
    | inl n ↦ absurd (ground arith)
    | inr (rest, q) ↦
        let (a, b) = evict-lasting es rest q in
        let same : es' ≡ e ∷ rest = ground arith in rw same (rw d (ap (λ r. e ∷ r) a), omega arith)
  ]
]

pub evict-none : (es : List Event) → evict es ≡ none → lasting es ≡ es
unfolding evict
evict-none [] h = refl
evict-none (e ∷ es) h = elim (Bool-cases (disposable e)) [
  | inl d ↦ absurd (ground arith)
  | inr d ↦ elim (Option-cases (evict es)) [
    | inl n ↦ rw d (ap (λ r. e ∷ r) (evict-none es n))
    | inr (rest, q) ↦ absurd (ground arith)
  ]
]

-- What must not be lost of what a subscription has received or has queued.
abbrev pub held : Listener → List Event
held l = lasting l.received ++ lasting l.queued

-- The receiver and the eviction share what was queued.
pub divide-perm :
    (bs : List Bool) (es : List Event)
    → Perm (lasting (divide bs es).0 ++ lasting (divide bs es).1) (lasting es)
divide-perm bs [] = Perm.refl []
divide-perm [] (e ∷ es) = Perm.refl (lasting (e ∷ es))
divide-perm (true ∷ bs) (e ∷ es) = elim (Bool-cases (disposable e)) [
  | inl d ↦ rw d (divide-perm bs es)
  | inr d ↦ rw d (Perm.cons e (divide-perm bs es))
]
divide-perm (false ∷ bs) (e ∷ es) = elim (Bool-cases (disposable e)) [
  | inl d ↦ rw d (divide-perm bs es)
  | inr d ↦ rw d (
      Perm.trans (perm_middle (lasting (divide bs es).0) (lasting (divide bs es).1))
        (Perm.cons e (divide-perm bs es)))
]

pub count-divide :
    (bs : List Bool) (es : List Event)
    → length (lasting (divide bs es).0) + length (lasting (divide bs es).1) ≡ length (lasting es)
count-divide bs [] = refl
count-divide [] (e ∷ es) = omega arith
count-divide (true ∷ bs) (e ∷ es) = elim (Bool-cases (disposable e)) [
  | inl d ↦ rw d (count-divide bs es)
  | inr d ↦ rw d (omega (arith, count-divide bs es))
]
count-divide (false ∷ bs) (e ∷ es) = elim (Bool-cases (disposable e)) [
  | inl d ↦ rw d (count-divide bs es)
  | inr d ↦ rw d (omega (arith, count-divide bs es))
]

pub length-divide : (bs : List Bool) (es : List Event) → length (divide bs es).1 ≤ length es
length-divide bs [] = omega arith
length-divide [] (e ∷ es) = omega arith
length-divide (true ∷ bs) (e ∷ es) = omega (arith, length-divide bs es)
length-divide (false ∷ bs) (e ∷ es) = omega (arith, length-divide bs es)

-- ===== src/Compaction/Groups.antt =====
-- The loop over the tool calls: which cuts come inside a group.
use mathlib.Core.Bool.{Bool-set}
use mathlib.Core.Logic.Or
use mathlib.Core.List.{Mem, mem-cons, mem-cons_self, not-mem-nil}
use parrot_coder.Base.{
  ℕ, ◌≤◌, ◌<◌, ◌≡◌, refl, inl, inr, List, [], ◌∷◌, true, false, Option, none, some, arith,
  Bool-cases, ap, sym, ◌∙◌, subst,
}
use parrot_coder.Compaction.Cut.{Group, splits, lower, lower_all}

-- The end is not before the index; a call without a result has not ended.
abbrev pub Reaches : Option ℕ → ℕ → Type 0
Reaches none index = Unit {0}
Reaches (some e) index = index ≤ e

abbrev pub EndsBy : Option ℕ → Option ℕ → Type 0
EndsBy end none = Unit {0}
EndsBy none (some b) = ⊥
EndsBy (some a) (some b) = a ≤ b

-- Two groups do not cross: one that starts inside another ends inside it.
abbrev pub Nests : Group → Group → Type 0
Nests g h = g.start < h.start → Reaches g.end h.start → EndsBy h.end g.end

abbrev pub EachNests : List Group → Type 0
EachNests gs = (g h : Group) → Mem g gs → Mem h gs → Nests g h

-- A cut inside the inner group is inside the outer one.
nested_split :
    (a b index : ℕ) (d e : Option ℕ)
    → (a < b → Reaches d b → EndsBy e d)
    → splits b (record { start = a; end = d }) ≡ true
    → splits index (record { start = b; end = e }) ≡ true
    → splits index (record { start = a; end = d }) ≡ true
nested_split a b index none e nests h k = ground arith
nested_split a b index (some d) none nests h k = absurd (nests (ground arith) (ground arith))
nested_split a b index (some d) (some e) nests h k =
    let by : e ≤ d = nests (ground arith) (ground arith) in ground arith

lower-le : (g : Group) (index : ℕ) → lower g index ≤ index
lower-le g index = elim (Bool-cases (splits index g)) [
  | inr e ↦ let same : lower g index ≡ index = rw e refl in omega arith
  | inl e ↦
      let same : lower g index ≡ g.start = rw e refl in
      let below : g.start < index = ground arith in omega arith
]

pub lower_all-le : (gs : List Group) (index : ℕ) → lower_all gs index ≤ index
unfolding lower_all
lower_all-le [] index = omega arith
lower_all-le (g ∷ gs) index = omega (arith, lower_all-le gs (lower g index), lower-le g index)

-- A group that is not split stays so while another lowers the index.
lower-keeps :
    (g h : Group) (index : ℕ)
    → Nests g h
    → splits index g ≡ false
    → splits (lower h index) g ≡ false
lower-keeps g h index nests whole = elim (Bool-cases (splits index h)) [
  | inr e ↦ let same : lower h index ≡ index = rw e refl in ap (λ (i : ℕ). splits i g) same ∙ whole
  | inl e ↦
      let same : lower h index ≡ h.start = rw e refl in
      elim (Bool-cases (splits h.start g)) [
        | inr f ↦ ap (λ (i : ℕ). splits i g) same ∙ f
        | inl f ↦ absurd (ground (arith, nested_split g.start h.start index g.end h.end nests f e))
      ]
]

not_below_itself : (g : Group) → splits g.start g ≡ false
not_below_itself g = ground arith

lower-whole : (g : Group) (index : ℕ) → splits (lower g index) g ≡ false
lower-whole g index = elim (Bool-cases (splits index g)) [
  | inr e ↦ let same : lower g index ≡ index = rw e refl in ap (λ (i : ℕ). splits i g) same ∙ e
  | inl e ↦
      let same : lower g index ≡ g.start = rw e refl in
      ap (λ (i : ℕ). splits i g) same ∙ not_below_itself g
]

lower_all-keeps :
    (g : Group) (hs : List Group) (index : ℕ)
    → ((h : Group) → Mem h hs → Nests g h)
    → splits index g ≡ false
    → splits (lower_all hs index) g ≡ false
unfolding lower_all
lower_all-keeps g [] index nests whole = whole
lower_all-keeps g (h ∷ hs) index nests whole =
    lower_all-keeps g hs (lower h index) (λ k m. nests k (mem-cons.1 (Or.inr m)))
      (lower-keeps g h index (nests h mem-cons_self) whole)

-- After the loop no group is split, if none of them cross.
pub lower_all-whole :
    (gs : List Group) (index : ℕ)
    → EachNests gs
    → (g : Group) → Mem g gs
    → splits (lower_all gs index) g ≡ false
unfolding lower_all
lower_all-whole [] index nests g m = absurd (not-mem-nil m)
lower_all-whole (h ∷ hs) index nests g m =
    Or.elim (Bool-set _ _) (mem-cons.0 m)
      (λ here.
        subst (λ (k : Group). splits (lower_all hs (lower h index)) k ≡ false) (sym here)
          (lower_all-keeps h hs (lower h index)
            (λ k n. nests h k mem-cons_self (mem-cons.1 (Or.inr n))) (lower-whole h index)))
      (λ later.
        lower_all-whole hs (lower h index)
          (λ k l n o. nests k l (mem-cons.1 (Or.inr n)) (mem-cons.1 (Or.inr o))) g later)

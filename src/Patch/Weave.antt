-- ===== src/Patch/Weave.antt =====
-- Replacements put in from the last to the first, against one pass over the lines.
use mathlib.Core.List.{append_assoc}
use parrot_coder.Base.{
  ℕ, zero, suc, ◌+◌, ◌-◌, ◌≤◌, ◌≡◌, refl, ap, sym, List, [], ◌∷◌, ◌++◌, length, take, drop, arith,
  take-append-drop,
}
use parrot_coder.Patch.Lines.{FileLine}
use parrot_coder.Patch.Apply.{Replacement, splice, splice_all}

-- The replacements stand in order from line `i` on, in ranges that do not overlap and that end within `n` lines.
abbrev pub Disjoint : ℕ → ℕ → List Replacement → Type 0
Disjoint n i [] = i ≤ n
Disjoint n i (r ∷ rs) = (i ≤ r.start) × (r.start + r.old ≤ n) × Disjoint n (r.start + r.old) rs

-- One pass over the lines from line `i` on: those between the ranges stay as they are, those of a
-- range give way to the lines of its replacement.
unfoldable pub weave : ℕ → List Replacement → List FileLine → List FileLine
weave i [] lines = lines
weave i (r ∷ rs) lines =
    take (r.start - i) lines
    ++ (r.lines ++ weave (r.start + r.old) rs (drop (r.start + r.old - i) lines))

sub_zero : (a : ℕ) → a - 0 ≡ a
sub_zero a = omega arith

sub_suc : (a i : ℕ) → suc a - suc i ≡ a - i
sub_suc a i = omega arith

module _ {ℓ} {A : Type ℓ} where
  take_nil : (n : ℕ) → ◌≡◌ {A = List A} (take n []) []
  take_nil zero = refl
  take_nil (suc n) = refl

  drop_nil : (n : ℕ) → ◌≡◌ {A = List A} (drop n []) []
  drop_nil zero = refl
  drop_nil (suc n) = refl

  take-take_append :
      (a b : ℕ) (xs ys : List A) → a ≤ b → b ≤ length xs → take a (take b xs ++ ys) ≡ take a xs
  take-take_append zero b xs ys h k = refl
  take-take_append (suc a) zero xs ys h k = absurd (omega arith)
  take-take_append (suc a) (suc b) [] ys h k = absurd (omega arith)
  take-take_append (suc a) (suc b) (x ∷ xs) ys h k =
      ap (λ r. x ∷ r) (take-take_append a b xs ys (omega arith) (omega arith))

  drop-take_append : (b : ℕ) (xs ys : List A) → b ≤ length xs → drop b (take b xs ++ ys) ≡ ys
  drop-take_append zero xs ys k = refl
  drop-take_append (suc b) [] ys k = absurd (omega arith)
  drop-take_append (suc b) (x ∷ xs) ys k = drop-take_append b xs ys (omega arith)

  take-split : (i a : ℕ) (xs : List A) → i ≤ a → take i xs ++ take (a - i) (drop i xs) ≡ take a xs
  take-split zero a xs h = ap (λ (n : ℕ). take n xs) (sub_zero a)
  take-split (suc i) zero xs h = absurd (omega arith)
  take-split (suc i) (suc a) [] h = take_nil (suc a - suc i)
  take-split (suc i) (suc a) (x ∷ xs) h =
      rw (sub_suc a i) (ap (λ r. x ∷ r) (take-split i a xs (omega arith)))

  drop-drop : (i b : ℕ) (xs : List A) → i ≤ b → drop (b - i) (drop i xs) ≡ drop b xs
  drop-drop zero b xs h = ap (λ (n : ℕ). drop n xs) (sub_zero b)
  drop-drop (suc i) zero xs h = absurd (omega arith)
  drop-drop (suc i) (suc b) [] h = drop_nil (suc b - suc i)
  drop-drop (suc i) (suc b) (x ∷ xs) h = rw (sub_suc b i) (drop-drop i b xs (omega arith))

pub splice-weave :
    (i : ℕ) (rs : List Replacement) (lines : List FileLine)
    → Disjoint (length lines) i rs
    → splice_all rs lines ≡ take i lines ++ weave i rs (drop i lines)
unfolding splice_all weave splice
splice-weave i [] lines d = sym (take-append-drop i lines)
splice-weave i (r ∷ rs) lines d =
    let end : ℕ = r.start + r.old in
    let rest : List FileLine = weave end rs (drop end lines) in
    rw (splice-weave end rs lines d.2) (
      rw
        (
          take-take_append r.start end lines rest (omega arith) d.1,
          drop-take_append end lines rest d.1,
        )
        (rw (drop-drop i end lines (omega arith)) (
          rw (← take-split i r.start lines d.0)
            (append_assoc (take i lines) (take (r.start - i) (drop i lines)) (r.lines ++ rest)))))

-- ===== src/Editor/Measure.antt =====
-- How the limits on a text behave when texts are joined and cut.
use parrot_coder.Base.{
  ℕ, zero, suc, ◌+◌, ◌≡◌, ◌≤◌, ap, ◌∙◌, Bool, true, [], ◌∷◌, ◌++◌, Text, arith, length, take, drop,
  all, length-append, take-append-drop, all-append,
}
use parrot_coder.Editor.Types.{Editor, bytes, is_allowed, valid_input, fits}

-- A text within limits, as a proposition.
pub record Within (max_bytes max_runes : ℕ) (s : Text) : Type 0 where
  pub valid : all is_allowed s ≡ true
  pub few_bytes : bytes s ≤ max_bytes
  pub few_runes : length s ≤ max_runes

abbrev pub Fits : Editor → Text → Type 0
Fits e s = Within e.max_input_bytes e.max_input_runes s

pub fits-Fits : (e : Editor) (s : Text) → fits e s ≡ true → Fits e s
unfolding fits valid_input
fits-Fits e s h = record {
  valid = ground arith;
  few_bytes = ground arith;
  few_runes = ground arith;
}

pub bytes-append : (s t : Text) → bytes (s ++ t) ≡ bytes s + bytes t
bytes-append [] t = omega arith
bytes-append (r ∷ s) t = omega (arith, bytes-append s t)

all_left : (p : ℕ → Bool) (s t : Text) → all p (s ++ t) ≡ true → all p s ≡ true
all_left p s t h = ground (arith, all-append p s t)

all_right : (p : ℕ → Bool) (s t : Text) → all p (s ++ t) ≡ true → all p t ≡ true
all_right p s t h = ground (arith, all-append p s t)

pub all_join : (p : ℕ → Bool) (s t : Text) → all p s ≡ true → all p t ≡ true → all p (s ++ t) ≡ true
all_join p s t h k = ground (arith, all-append p s t)

-- What a prefix of a fitting text is.
pub Within-prefix : (m n : ℕ) (s t : Text) → Within m n (s ++ t) → Within m n s
Within-prefix m n s t w = record {
  valid = all_left is_allowed s t w.valid;
  few_bytes = omega (arith, bytes-append s t, w.few_bytes);
  few_runes = omega (arith, length-append s t, w.few_runes);
}

all-take : (p : ℕ → Bool) (n : ℕ) (s : Text) → all p s ≡ true → all p (take n s) ≡ true
all-take p n s h = all_left p (take n s) (drop n s) (ap (all p) (take-append-drop n s) ∙ h)

all-drop : (p : ℕ → Bool) (n : ℕ) (s : Text) → all p s ≡ true → all p (drop n s) ≡ true
all-drop p n s h = all_right p (take n s) (drop n s) (ap (all p) (take-append-drop n s) ∙ h)

bytes-drop_le : (n : ℕ) (s : Text) → bytes (drop n s) ≤ bytes s
bytes-drop_le zero s = omega arith
bytes-drop_le (suc n) [] = omega arith
bytes-drop_le (suc n) (r ∷ s) = omega (arith, bytes-drop_le n s)

bytes-cut : (i j : ℕ) (s : Text) → i ≤ j → bytes (take i s ++ drop j s) ≤ bytes s
bytes-cut zero j s h = bytes-drop_le j s
bytes-cut (suc i) zero s h = absurd (omega arith)
bytes-cut (suc i) (suc j) [] h = omega arith
bytes-cut (suc i) (suc j) (r ∷ s) h = omega (arith, bytes-cut i j s (omega arith))

-- The length of what is left, for a cut inside the text.
pub length-cut :
    (i j : ℕ) (s : Text) → i ≤ j → j ≤ length s → length (take i s ++ drop j s) + j ≡ length s + i
length-cut zero zero s h k = omega arith
length-cut zero (suc j) [] h k = absurd (omega arith)
length-cut zero (suc j) (r ∷ s) h k = omega (arith, length-cut zero j s (omega arith) (omega arith))
length-cut (suc i) zero s h k = absurd (omega arith)
length-cut (suc i) (suc j) [] h k = absurd (omega arith)
length-cut (suc i) (suc j) (r ∷ s) h k = omega (arith, length-cut i j s (omega arith) (omega arith))

pub Within-cut :
    (m n i j : ℕ) (s : Text)
    → i ≤ j
    → j ≤ length s
    → Within m n s
    → Within m n (take i s ++ drop j s)
Within-cut m n i j s h k w = record {
  valid =
      all_join is_allowed (take i s) (drop j s) (all-take is_allowed i s w.valid)
        (all-drop is_allowed j s w.valid);
  few_bytes = omega (arith, bytes-cut i j s h, w.few_bytes);
  few_runes = omega (arith, length-cut i j s h k, w.few_runes);
}

pub length-splice : (c : ℕ) (s a : Text) → length (take c s ++ a ++ drop c s) ≡ length s + length a
length-splice zero s a = omega (arith, length-append a s)
length-splice (suc c) [] a = omega (arith, length-append a [])
length-splice (suc c) (r ∷ s) a = omega (arith, length-splice c s a)

pub all-splice :
    (p : ℕ → Bool) (c : ℕ) (s a : Text)
    → all p s ≡ true
    → all p a ≡ true
    → all p (take c s ++ a ++ drop c s) ≡ true
all-splice p c s a h k =
    all_join p (take c s ++ a) (drop c s) (all_join p (take c s) a (all-take p c s h) k)
      (all-drop p c s h)

-- ===== src/Patch/Outcome.antt =====
-- What seekPatchSequence finds, against the places where a pattern occurs.
use parrot_coder.Base.{
  ℕ, zero, suc, ◌+◌, ◌-◌, ◌≤◌, ◌<◌, ◌≡◌, ◌⊎◌, inl, inr, refl, List, [], ◌∷◌, Text, Bool, true,
  false, ltb, leb, length, drop, Option, none, some, Bool-cases, length-drop, arith, lt→ltb, leb→le,
  subst,
}
use parrot_coder.Patch.Spaces.{Comparator, comparators}
use parrot_coder.Patch.Seek.{
  Sought, at_line, failed, ambiguous, patch_sequence_equal, Scan, scan_places, verdict, at_file_end,
  seek_one, seek_each, seek_patch_sequence,
}
use parrot_coder.Patch.Found.{Seen, unseen, once, several, scan, scan-Seen}

le-not-ltb : (a b : ℕ) → b ≤ a → ltb a b ≡ false
le-not-ltb a b h = ground arith

equal-length :
    (ls ps : List Text) (equal : Comparator)
    → patch_sequence_equal ls ps equal ≡ true
    → length ps ≤ length ls
unfolding patch_sequence_equal
equal-length ls [] equal h = omega arith
equal-length [] (p ∷ ps) equal h = absurd (cc)
equal-length (l ∷ ls) (p ∷ ps) equal h = ground (arith, equal-length ls ps equal)

-- The pattern occurs at line `q`, line by line under the comparator.
abbrev pub occurs : List Text → List Text → Comparator → ℕ → Bool
occurs lines pattern equal q = patch_sequence_equal (drop q lines) pattern equal

module _ (lines pattern : List Text) (start : ℕ) (end_of_file : Bool) where
  -- One comparator decides: it finds the last place of a hunk that ends the file, or the only
  -- place from `start` on; or it finds two places.
  abbrev pub Decides : Comparator → Sought → Type 0
  Decides equal (at_line p) =
      (start ≤ p)
      × (occurs lines pattern equal p ≡ true)
      × (((end_of_file ≡ true) × (p ≡ length lines - length pattern))
          ⊎ ((q : ℕ) → start ≤ q → occurs lines pattern equal q ≡ true → q ≡ p))
  Decides equal failed = ⊥
  Decides equal (ambiguous c) =
      (p : ℕ) × (p' : ℕ) × (start ≤ p)
      × (p < p')
      × (occurs lines pattern equal p ≡ true)
      × (occurs lines pattern equal p' ≡ true)

  -- The first comparator under which the pattern occurs anywhere from `start` on decides.
  abbrev pub Outcome : List Comparator → Sought → Type 0
  Outcome [] r = r ≡ failed
  Outcome (e ∷ es) r =
      Decides e r ⊎ (((q : ℕ) → start ≤ q → occurs lines pattern e q ≡ false) × Outcome es r)

module _ (lines pattern : List Text) (start : ℕ) (end_of_file : Bool) (equal : Comparator) where
  places-scan :
      (n i : ℕ) (s : Scan)
      → scan_places equal lines pattern n i s ≡ scan (occurs lines pattern equal) start n i s
  unfolding scan_places scan
  places-scan zero i s = refl
  places-scan (suc n) i s = places-scan n (suc i) _

  -- An occurrence ends within the lines.
  occurs-below :
      (q : ℕ)
      → 0 < length pattern
      → occurs lines pattern equal q ≡ true
      → q + length pattern ≤ length lines
  occurs-below q h o =
      omega (arith, equal-length (drop q lines) pattern equal o, length-drop q lines)

  -- What `seek_one` gives: a decision, or no occurrence.
  Agrees : Option Sought → Type 0
  Agrees none = (q : ℕ) → start ≤ q → occurs lines pattern equal q ≡ false
  Agrees (some r) = Decides lines pattern start end_of_file equal r

  verdict-Agrees :
      (i : ℕ) (s : Scan)
      → ((q : ℕ) → occurs lines pattern equal q ≡ true → q < i)
      → Seen (occurs lines pattern equal) start i s
      → Agrees (verdict s)
  unfolding Agrees
  verdict-Agrees i s limit (unseen f c a) = rw c (λ q h.
      elim (Bool-cases (occurs lines pattern equal q)) [ inl o ↦ a q h (limit q o) | inr o ↦ o ])
  verdict-Agrees i s limit (once p f c h k o u) =
      rw (c, f) (h, o, inr (λ q m y. u q m (limit q y) y))
  verdict-Agrees i s limit (several p p' c h k l o o') =
      rw (lt→ltb 1 s.count c) (p, p', h, k, o, o')

  file_end :
      at_file_end equal lines pattern start end_of_file ≡ true
      → (end_of_file ≡ true)
        × (start + length pattern ≤ length lines)
        × (occurs lines pattern equal (length lines - length pattern) ≡ true)
  file_end e =
      let test : leb (start + length pattern) (length lines) ≡ true = ground arith in
      (ground arith, leb→le (start + length pattern) (length lines) test, ground arith)

  seek_one-Agrees : 0 < length pattern → Agrees (seek_one equal lines pattern start end_of_file)
  unfolding Agrees seek_one
  seek_one-Agrees h = elim (Bool-cases (at_file_end equal lines pattern start end_of_file)) [
    | inl e ↦ let (last, fits, here) = file_end e in rw e (omega arith, here, inl (last, refl))
    | inr e ↦
        rw (e, places-scan rounds start (record { found = none; count = 0 }))
          (verdict-Agrees (start + rounds) _ (λ q o. omega (arith, occurs-below q h o))
            (scan-Seen (occurs lines pattern equal) start rounds start _ (omega arith)
              (unseen refl refl (λ q m k. absurd (omega arith)))))
  ]
    where
      rounds : ℕ
      rounds = length lines + 1 - length pattern - start

outcome_cons :
    (e : Comparator) (es : List Comparator) (lines pattern : List Text) (start : ℕ) (last : Bool)
    (o : Option Sought) (rest : Sought)
    → Agrees lines pattern start last e o
    → Outcome lines pattern start last es rest
    → Outcome lines pattern start last (e ∷ es) (elim o [ some r ↦ r | none ↦ rest ])
unfolding Agrees
outcome_cons e es lines pattern start last none rest a later = inr (a, later)
outcome_cons e es lines pattern start last (some r) rest a later = inl a

pub seek_each-Outcome :
    (es : List Comparator) (lines pattern : List Text) (start : ℕ) (last : Bool)
    → 0 < length pattern
    → Outcome lines pattern start last es (seek_each es lines pattern start last)
unfolding seek_each
seek_each-Outcome [] lines pattern start last h = refl
seek_each-Outcome (e ∷ es) lines pattern start last h =
    outcome_cons e es lines pattern start last _ _ (seek_one-Agrees lines pattern start last e h)
      (seek_each-Outcome es lines pattern start last h)

-- For a pattern of at least one line and a start within the file, the search decides by the first
-- of the four comparators, from the strictest on, under which the pattern occurs anywhere from the
-- start on: the line it finds is such an occurrence, and the only one or, for a hunk that ends the
-- file, the last place where the pattern fits; an ambiguous search has two occurrences; and a
-- failed one has none under any comparator.
pub seek_patch_sequence-Outcome :
    (lines pattern : List Text) (start : ℕ) (last : Bool)
    → 0 < length pattern
    → start ≤ length lines
    → Outcome lines pattern start last comparators (seek_patch_sequence lines pattern start last)
unfolding seek_patch_sequence
seek_patch_sequence-Outcome lines [] start last h k = absurd (omega arith)
seek_patch_sequence-Outcome lines (p ∷ ps) start last h k =
    rw (le-not-ltb (length lines) start k)
      (seek_each-Outcome comparators lines (p ∷ ps) start last h)

Outcome-within :
    (es : List Comparator) (lines pattern : List Text) (start : ℕ) (last : Bool) (p : ℕ)
    → 0 < length pattern
    → Outcome lines pattern start last es (at_line p)
    → (start ≤ p) × (p + length pattern ≤ length lines)
Outcome-within [] lines pattern start last p h o = absurd (cc)
Outcome-within (e ∷ es) lines pattern start last p h (inl d) =
    (d.0, occurs-below lines pattern start last e p h d.1)
Outcome-within (e ∷ es) lines pattern start last p h (inr (_, later)) =
    Outcome-within es lines pattern start last p h later

-- What is found lies within the lines, from the start on.
pub seek-within :
    (lines pattern : List Text) (start : ℕ) (last : Bool) (p : ℕ)
    → 0 < length pattern
    → start ≤ length lines
    → seek_patch_sequence lines pattern start last ≡ at_line p
    → (start ≤ p) × (p + length pattern ≤ length lines)
seek-within lines pattern start last p h k e =
    Outcome-within comparators lines pattern start last p h (
      subst (Outcome lines pattern start last comparators) e
        (seek_patch_sequence-Outcome lines pattern start last h k))

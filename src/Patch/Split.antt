-- ===== src/Patch/Split.antt =====
-- A file is its lines, written one after the other.
use parrot_coder.Base.{
  ℕ, zero, suc, ◌≤◌, ◌≡◌, refl, ap, ◌∙◌, List, [], ◌∷◌, ◌++◌, Text, Bool, true, false, ◌==◌, inl,
  inr, Bool-cases, length, drop, arith, any, ◌&&◌, length-append, length-drop, ◌⊎◌,
}
use parrot_coder.Patch.Lines.{
  FileLine, is_break, before_break, from_break, terminator_of, line_round, split_rounds,
  split_file_lines, write_lines,
}

before-from : (s : Text) → before_break s ++ from_break s ≡ s
unfolding before_break from_break
before-from [] = refl
before-from (c ∷ s) = elim (Bool-cases (is_break c)) [
  | inl e ↦ rw e refl
  | inr e ↦ rw e (ap (λ (r : Text). c ∷ r) (before-from s))
]

-- The terminator and what is left after it.
terminator-drop :
    (c : ℕ) (s : Text) → terminator_of c s ++ drop (length (terminator_of c s)) (c ∷ s) ≡ c ∷ s
unfolding terminator_of
terminator-drop c [] = refl
terminator-drop c (d ∷ s) = elim (Bool-cases (c == 13)) [
  | inl e ↦ elim (Bool-cases (d == 10)) [ inl f ↦ rw (e, f) refl | inr f ↦ rw (e, f) refl ]
  | inr e ↦ rw e refl
]

terminator-length : (c : ℕ) (s : Text) → 1 ≤ length (terminator_of c s)
unfolding terminator_of
terminator-length c [] = omega arith
terminator-length c (d ∷ s) = ground arith

from_break-length : (s : Text) → length (from_break s) ≤ length s
from_break-length s =
    omega (arith, ap length (before-from s), length-append (before_break s) (from_break s))

-- A round writes what it read, if the rounds that follow do.
round-write :
    (n : ℕ) (before from : Text) (more : Text → List FileLine)
    → length from ≤ suc n
    → ((r : Text) → length r ≤ n → write_lines (more r) ≡ r)
    → write_lines (line_round before from more) ≡ before ++ from
unfolding line_round write_lines
round-write n before [] more h later = refl
round-write n before (c ∷ s) more h later =
    let end : Text = terminator_of c s in
    let tail : Text = drop (length end) (c ∷ s) in
    let short : length tail ≤ n =
      omega (arith, length-drop (length end) (c ∷ s), terminator-length c s) in
    ap (λ r. before ++ (end ++ r)) (later tail short) ∙ ap (λ r. before ++ r) (terminator-drop c s)

-- With as many rounds as bytes, every byte is in some line.
write-split_rounds : (n : ℕ) (s : Text) → length s ≤ n → write_lines (split_rounds n s) ≡ s
unfolding split_rounds write_lines
write-split_rounds zero [] h = refl
write-split_rounds zero (c ∷ s) h = absurd (omega arith)
write-split_rounds (suc n) [] h = refl
write-split_rounds (suc n) (c ∷ s) h =
    round-write n (before_break (c ∷ s)) (from_break (c ∷ s)) (split_rounds n)
      (omega (arith, from_break-length (c ∷ s))) (write-split_rounds n)
    ∙ before-from (c ∷ s)

-- Writing out the lines that a file is split into gives the file back, byte for byte.
pub write-split_file_lines : (s : Text) → write_lines (split_file_lines s) ≡ s
unfolding split_file_lines
write-split_file_lines s = write-split_rounds (length s) s (omega arith)

-- "\r", "\n" or "\r\n".
abbrev pub is_terminator : Text → Bool
is_terminator [] = false
is_terminator (c ∷ []) = is_break c
is_terminator (c ∷ d ∷ []) = c == 13 && d == 10
is_terminator (c ∷ d ∷ e ∷ s) = false

-- No line has a terminator inside, and each but the last ends in one.
abbrev pub AreLines : List FileLine → Type 0
AreLines [] = Unit {0}
AreLines (l ∷ []) =
    (any is_break l.text ≡ false) × ((l.terminator ≡ []) ⊎ (is_terminator l.terminator ≡ true))
AreLines (l ∷ m ∷ ls) =
    (any is_break l.text ≡ false) × (is_terminator l.terminator ≡ true) × AreLines (m ∷ ls)

any-before_break : (s : Text) → any is_break (before_break s) ≡ false
unfolding before_break
any-before_break [] = refl
any-before_break (c ∷ s) = elim (Bool-cases (is_break c)) [
  | inl e ↦ rw e refl
  | inr e ↦ rw e (rw e (any-before_break s))
]

from_break-starts : (s r : Text) (c : ℕ) → from_break s ≡ c ∷ r → is_break c ≡ true
unfolding from_break
from_break-starts [] r c h = absurd (cc)
from_break-starts (d ∷ s) r c h = elim (Bool-cases (is_break d)) [
  | inl e ↦ ground arith
  | inr e ↦ from_break-starts s r c (ground arith)
]

terminator_lem : (c : ℕ) (s : Text) → is_break c ≡ true → is_terminator (terminator_of c s) ≡ true
unfolding terminator_of
terminator_lem c [] h = h
terminator_lem c (d ∷ s) h = ground arith

AreLines-cons :
    (l : FileLine) (ls : List FileLine)
    → any is_break l.text ≡ false
    → is_terminator l.terminator ≡ true
    → AreLines ls
    → AreLines (l ∷ ls)
AreLines-cons l [] h k a = (h, inr k)
AreLines-cons l (m ∷ ls) h k a = (h, k, a)

round-AreLines :
    (before from : Text) (more : Text → List FileLine)
    → any is_break before ≡ false
    → ((c : ℕ) (r : Text) → from ≡ c ∷ r → is_break c ≡ true)
    → ((r : Text) → AreLines (more r))
    → AreLines (line_round before from more)
unfolding line_round
round-AreLines before [] more h k later = (h, inl refl)
round-AreLines before (c ∷ s) more h k later =
    AreLines-cons (record { text = before; terminator = terminator_of c s }) _ h
      (terminator_lem c s (k c s refl)) (later _)

split_rounds-AreLines : (n : ℕ) (s : Text) → AreLines (split_rounds n s)
unfolding split_rounds
split_rounds-AreLines zero s = tt
split_rounds-AreLines (suc n) [] = tt
split_rounds-AreLines (suc n) (c ∷ s) =
    round-AreLines _ _ (split_rounds n) (any-before_break (c ∷ s))
      (λ d r e. from_break-starts (c ∷ s) r d e) (split_rounds-AreLines n)

pub split_file_lines-AreLines : (s : Text) → AreLines (split_file_lines s)
unfolding split_file_lines
split_file_lines-AreLines s = split_rounds-AreLines (length s) s

-- A file of any bytes is split into lines that have no terminator inside, of which each but the
-- last ends in "\r", "\n" or "\r\n" and the last ends in one or in none; and written one after the
-- other these lines are the file, byte for byte.
pub split_file_lines_lem :
    (s : Text) → AreLines (split_file_lines s) × (write_lines (split_file_lines s) ≡ s)
split_file_lines_lem s = (split_file_lines-AreLines s, write-split_file_lines s)

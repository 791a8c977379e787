-- ===== src/Patch/Lines.antt =====
-- splitFileLines, lineTexts and lineEndingAt: a file as lines with their own terminators.
use parrot_coder.Base.{
  ℕ, zero, suc, List, [], ◌∷◌, ◌++◌, Text, Bool, ◌||◌, ◌==◌, if◌then◌else◌, length, take, drop,
  reverse, Option, none, some,
}

pub record FileLine : Type 0 where
  pub text : Text
  pub terminator : Text

-- '\r' or '\n'.
abbrev pub is_break : ℕ → Bool
is_break c = c == 13 || c == 10

-- data[:index], where index is that of the first terminator, or everything.
unfoldable pub before_break : Text → Text
before_break [] = []
before_break (c ∷ s) = let rest = before_break s in if is_break c then [] else c ∷ rest

-- data[index:], or nothing.
unfoldable pub from_break : Text → Text
from_break [] = []
from_break (c ∷ s) = let rest = from_break s in if is_break c then c ∷ s else rest

-- data[index:end]: a '\r' takes the '\n' behind it along.
unfoldable pub terminator_of : ℕ → Text → Text
terminator_of c [] = c ∷ []
terminator_of c (d ∷ s) = if c == 13 then (if d == 10 then c ∷ d ∷ [] else c ∷ []) else c ∷ []

-- One round of the loop, with the rounds that follow.
unfoldable pub line_round : Text → Text → (Text → List FileLine) → List FileLine
unfolding terminator_of
line_round before [] more = record { text = before; terminator = [] } ∷ []
line_round before (c ∷ s) more =
    let end = terminator_of c s in
    record { text = before; terminator = end } ∷ more (drop (length end) (c ∷ s))

unfoldable pub split_rounds : ℕ → Text → List FileLine
unfolding before_break from_break line_round
split_rounds zero s = []
split_rounds (suc n) [] = []
split_rounds (suc n) (c ∷ s) =
    line_round (before_break (c ∷ s)) (from_break (c ∷ s)) (split_rounds n)

-- Each round takes a byte at least.
unfoldable pub split_file_lines : Text → List FileLine
unfolding split_rounds
split_file_lines s = split_rounds (length s) s

unfoldable pub line_texts : List FileLine → List Text
line_texts [] = []
line_texts (l ∷ ls) = l.text ∷ line_texts ls

-- The first terminator that is not empty.
unfoldable pub first_terminator : List FileLine → Option Text
first_terminator [] = none
first_terminator (l ∷ ls) =
    let rest = first_terminator ls in elim l.terminator [ [] ↦ rest | c ∷ s ↦ some (c ∷ s) ]

-- The line itself, then those before it from the last, then those after it.
unfoldable pub line_ending_at : List FileLine → ℕ → Text
unfolding first_terminator
line_ending_at lines index = elim (first_terminator (take 1 (drop index lines))) [
  | some end ↦ end
  | none ↦ elim (first_terminator (reverse (take index lines))) [
    | some end ↦ end
    | none ↦ elim (first_terminator (drop (suc index) lines)) [ some end ↦ end | none ↦ 10 ∷ [] ]
  ]
]

-- The loop that writes the lines of the result out.
unfoldable pub write_lines : List FileLine → Text
write_lines [] = []
write_lines (l ∷ ls) = l.text ++ (l.terminator ++ write_lines ls)

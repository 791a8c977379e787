-- ===== src/Patch/Apply.antt =====
-- applyHunks: the places of the hunks, and the file with their lines put in.
use parrot_coder.Base.{
  ℕ, suc, ◌+◌, List, [], ◌∷◌, ◌++◌, Text, false, ◌&&◌, ltb, ◌==◌, if◌then◌else◌, is_empty, length,
  take, drop, Option, none, some,
}
use parrot_coder.Patch.Lines.{FileLine, split_file_lines, line_texts, line_ending_at, write_lines}
use parrot_coder.Patch.Seek.{Sought, at_line, failed, ambiguous, seek_patch_sequence}
use parrot_coder.Patch.Replace.{
  LineKind, context_line, old_line, new_line, PatchLine, PatchHunk, replacement_lines,
}

pub record Replacement : Type 0 where
  pub start : ℕ
  pub old : ℕ
  pub lines : List FileLine

-- The texts of the lines that are not '+'.
abbrev pub keep_old : LineKind → Text → List Text → List Text
keep_old context_line t ts = t ∷ ts
keep_old old_line t ts = t ∷ ts
keep_old new_line t ts = ts

unfoldable pub old_lines : List PatchLine → List Text
old_lines [] = []
old_lines (p ∷ ps) = keep_old p.kind p.text (old_lines ps)

-- An error of a hunk, with its number from 0: its context line, or its old lines.
pub data MatchError : Type 0 where
  no_context : ℕ → Sought → MatchError
  no_match : ℕ → Sought → MatchError

-- The variables of the loop in applyHunks.
pub record Placing : Type 0 where
  pub replacements : List Replacement
  pub errors : List MatchError
  pub line_index : ℕ

abbrev pub refuse : MatchError → Placing → Placing
refuse e s = record s { errors = s.errors ++ (e ∷ []) }

-- A hunk that is found at `start` goes on the list; `none` is an index out of range.
unfoldable pub place_at : List FileLine → PatchHunk → ℕ → Placing → Option Placing
place_at lines h start s =
    let old = length (old_lines h.lines) in
    elim (replacement_lines h.lines (take old (drop start lines)) (line_ending_at lines start)) [
      | none ↦ none
      | some new ↦ some (record s {
        replacements = s.replacements ++ (record { start = start; old = old; lines = new } ∷ []);
      })
    ]

-- Where the old lines are found, the next hunk starts behind them.
unfoldable pub place_old : List FileLine → PatchHunk → ℕ → Sought → Placing → Option Placing
unfolding place_at
place_old lines h n (at_line i) s =
    place_at lines h i (record s { line_index = i + length (old_lines h.lines) })
place_old lines h n failed s = some (refuse (no_match n failed) s)
place_old lines h n (ambiguous c) s = some (refuse (no_match n (ambiguous c)) s)

-- A hunk with no old lines goes to the end of the file.
unfoldable pub place_hunk : List FileLine → PatchHunk → ℕ → Placing → Option Placing
unfolding place_old old_lines
place_hunk lines h n s =
    if is_empty (old_lines h.lines)
    then place_at lines h (length lines) s
    else place_old lines h n
        (seek_patch_sequence (line_texts lines) (old_lines h.lines) s.line_index h.end_of_file) s

-- The context line first, if the hunk has one.
unfoldable pub after_context : List FileLine → PatchHunk → ℕ → Sought → Placing → Option Placing
unfolding place_hunk
after_context lines h n (at_line i) s = place_hunk lines h n (record s { line_index = i + 1 })
after_context lines h n failed s = some (refuse (no_context n failed) s)
after_context lines h n (ambiguous c) s = some (refuse (no_context n (ambiguous c)) s)

unfoldable pub hunk_round : List FileLine → PatchHunk → ℕ → Placing → Option Placing
unfolding after_context place_hunk
hunk_round lines h n s =
    if is_empty h.context
    then place_hunk lines h n s
    else after_context lines h n
        (seek_patch_sequence (line_texts lines) (h.context ∷ []) s.line_index false) s

unfoldable pub place_hunks : List FileLine → List PatchHunk → ℕ → Placing → Option Placing
unfolding hunk_round
place_hunks lines [] n s = some s
place_hunks lines (h ∷ hs) n s = elim (hunk_round lines h n s) [
  | none ↦ none
  | some s' ↦ place_hunks lines hs (suc n) s'
]

-- sort.SliceStable by the start: equal starts keep their order.
unfoldable pub place_start : Replacement → List Replacement → List Replacement
place_start r [] = r ∷ []
place_start r (q ∷ qs) =
    let rest = place_start r qs in if ltb q.start r.start then q ∷ rest else r ∷ q ∷ qs

unfoldable pub sort_starts : List Replacement → List Replacement
unfolding place_start
sort_starts [] = []
sort_starts (r ∷ rs) = place_start r (sort_starts rs)

-- One round of the loop from the last replacement to the first.
unfoldable pub splice : Replacement → List FileLine → List FileLine
splice r lines = take r.start lines ++ (r.lines ++ drop (r.start + r.old) lines)

unfoldable pub splice_all : List Replacement → List FileLine → List FileLine
unfolding splice
splice_all [] lines = lines
splice_all (r ∷ rs) lines = splice r (splice_all rs lines)

-- The file's new data, the errors of its hunks, or an index out of range.
pub data Applied : Type 0 where
  patched : Text → Applied
  refused : List MatchError → Applied
  out_of_range : Applied

-- The bytes EF BB BF.
unfoldable pub bom_of : Text → Text
bom_of (a ∷ b ∷ c ∷ s) = if a == 239 && b == 187 && c == 191 then a ∷ b ∷ c ∷ [] else []
bom_of s = []

unfoldable pub finish_hunks : Text → List FileLine → Placing → Applied
unfolding sort_starts splice_all
finish_hunks bom lines s =
    if is_empty s.errors
    then patched (bom ++ write_lines (splice_all (sort_starts s.replacements) lines))
    else refused s.errors

unfoldable pub apply_hunks : Text → List PatchHunk → Applied
unfolding bom_of place_hunks finish_hunks
apply_hunks content hunks =
    let bom = bom_of content in
    let lines = split_file_lines (drop (length bom) content) in
    elim (place_hunks lines hunks 0 (record { replacements = []; errors = []; line_index = 0 })) [
      | none ↦ out_of_range
      | some s ↦ finish_hunks bom lines s
    ]

-- ===== src/Patch/Replace.antt =====
-- replacementLines: the lines that a hunk puts in place of those it matches.
use parrot_coder.Base.{
  List, [], ◌∷◌, ◌++◌, Text, Bool, true, false, not, ◌&&◌, if◌then◌else◌, is_empty, Option, none,
  some,
}
use parrot_coder.Patch.Lines.{FileLine}

-- The bytes ' ', '-' and '+', the kinds that the parsers make.
pub data LineKind : Type 0 where
  context_line old_line new_line : LineKind

pub record PatchLine : Type 0 where
  pub kind : LineKind
  pub text : Text

pub record PatchHunk : Type 0 where
  pub lines : List PatchLine
  pub context : Text
  pub end_of_file : Bool

-- The variables of the loop in replacementLines, with the lines that are matched from oldIndex on.
pub record Replacing : Type 0 where
  pub result : List FileLine
  pub matched : List FileLine
  pub matched_deletion : Bool
  pub line_ending : Text

-- The separator changes at the first deleted line, if that line has one.
abbrev pub delete_line : Replacing → FileLine → List FileLine → Replacing
delete_line r l ls = record r {
  matched = ls;
  matched_deletion = true;
  line_ending =
      if not r.matched_deletion && not (is_empty l.terminator) then l.terminator else r.line_ending;
}

abbrev pub insert_line : Replacing → Text → Replacing
insert_line r text = record r {
  result = r.result ++ (record { text = text; terminator = r.line_ending } ∷ []);
}

-- One line of the hunk; `none` is an index past the lines that are matched.
unfoldable pub replace_line : LineKind → Text → List FileLine → Replacing → Option Replacing
replace_line context_line text [] r = none
replace_line context_line text (l ∷ ls) r =
    some (record r { result = r.result ++ (l ∷ []); matched = ls })
replace_line old_line text [] r = none
replace_line old_line text (l ∷ ls) r = some (delete_line r l ls)
replace_line new_line text ls r = some (insert_line r text)

unfoldable pub replace_each : List PatchLine → Replacing → Option (List FileLine)
unfolding replace_line
replace_each [] r = some r.result
replace_each (p ∷ ps) r = elim (replace_line p.kind p.text r.matched r) [
  | none ↦ none
  | some r' ↦ replace_each ps r'
]

-- The last line of the result loses its terminator.
unfoldable pub end_unterminated : List FileLine → List FileLine
end_unterminated [] = []
end_unterminated (l ∷ []) = record l { terminator = [] } ∷ []
end_unterminated (l ∷ m ∷ ls) = l ∷ end_unterminated (m ∷ ls)

-- Whether the last line that is matched has no terminator.
unfoldable pub ends_unterminated : List FileLine → Bool
ends_unterminated [] = false
ends_unterminated (l ∷ []) = is_empty l.terminator
ends_unterminated (l ∷ m ∷ ls) = ends_unterminated (m ∷ ls)

unfoldable pub replacement_lines : List PatchLine → List FileLine → Text → Option (List FileLine)
unfolding replace_each ends_unterminated end_unterminated
replacement_lines ps matched line_ending =
    elim (replace_each ps (record {
      result = [];
      matched = matched;
      matched_deletion = false;
      line_ending = line_ending;
    })) [
      | none ↦ none
      | some result ↦ some (if ends_unterminated matched then end_unterminated result else result)
    ]

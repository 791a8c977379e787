-- ===== src/Editor/Setup.antt =====
-- NewEditor with its options, SetCompletions and AddHistory.
use parrot_coder.Base.{
  ℕ, zero, suc, ◌-◌, Bool, true, false, not, ◌&&◌, ◌||◌, List, [], ◌∷◌, ◌++◌, Text, ltb,
  if◌then◌else◌, text_eq, text_lt, length, drop, is_empty, all, ◌==◌,
}
use parrot_coder.Editor.Types.{Candidate, Editor, is_white, bytes, fits, valid_single_line}

-- strings.HasPrefix: the text, then the prefix.
unfoldable pub has_prefix : Text → Text → Bool
has_prefix s [] = true
has_prefix [] (b ∷ bs) = false
has_prefix (a ∷ s) (b ∷ bs) = (a == b) && has_prefix s bs

-- The test that SetCompletions keeps a candidate by.
unfoldable pub valid_candidate : Candidate → Bool
unfolding valid_single_line has_prefix
valid_candidate c =
    valid_single_line c.value && valid_single_line c.description && has_prefix c.value (47 ∷ [])

abbrev pub valid_candidates : List Candidate → List Candidate
valid_candidates [] = []
valid_candidates (c ∷ cs) =
    let rest = valid_candidates cs in if valid_candidate c then c ∷ rest else rest

-- The order of the candidates: by value, then by description.
unfoldable pub before : Candidate → Candidate → Bool
before a b =
    if text_eq a.value b.value then text_lt a.description b.description else text_lt a.value b.value

-- sort.SliceStable, as insertion from the right before the first that is not smaller.
unfoldable pub place_candidate : Candidate → List Candidate → List Candidate
place_candidate c [] = c ∷ []
place_candidate c (d ∷ ds) =
    let rest = place_candidate c ds in if before d c then d ∷ rest else c ∷ d ∷ ds

unfoldable pub sort_candidates : List Candidate → List Candidate
unfolding place_candidate
sort_candidates [] = []
sort_candidates (c ∷ cs) = place_candidate c (sort_candidates cs)

unfoldable pub set_completions : List Candidate → Editor → Editor
unfolding sort_candidates
set_completions candidates e = record e {
  completions = sort_candidates (valid_candidates candidates);
}

-- Whether the newest entry is this text.
unfoldable pub is_newest : Text → List Text → Bool
is_newest value [] = false
is_newest value (h ∷ []) = text_eq h value
is_newest value (h ∷ g ∷ hs) = is_newest value (g ∷ hs)

-- The newest entries, at most `limit`.
unfoldable pub keep_newest : ℕ → List Text → List Text
keep_newest limit hs = if ltb limit (length hs) then drop (length hs - limit) hs else hs

unfoldable pub add_history : Text → Editor → Editor
unfolding fits is_newest keep_newest
add_history value e =
    if is_empty value || not (fits e value)
    then e
    else if is_newest value e.history
    then e
    else record e { history = keep_newest e.max_history (e.history ++ value ∷ []) }

abbrev pub add_all : List Text → Editor → Editor
add_all [] e = e
add_all (h ∷ hs) e = add_all hs (add_history h e)

-- WithEditorLimits: a limit that is not positive, written as zero, keeps its default.
abbrev pub positive_or : ℕ → ℕ → ℕ
positive_or default zero = default
positive_or default (suc n) = suc n

-- newEditor with the options for the prompt, the limits, the history and the completions.
abbrev pub new_editor : Text → ℕ → ℕ → ℕ → ℕ → List Text → List Candidate → Editor
new_editor prompt max_bytes max_runes max_history rows history completions = add_all history (
    set_completions completions (record {
      prompt = prompt;
      max_input_bytes = positive_or 65_536 max_bytes;
      max_input_runes = positive_or 65_536 max_runes;
      max_history = positive_or 100 max_history;
      max_completion_rows = positive_or 9 rows;
      history = [];
      completions = [];
    }))

-- completionMatches: an exact match goes to the front of those found before it.
abbrev pub matches_from : Text → List Candidate → List Candidate → List Candidate
matches_from input found [] = found
matches_from input found (c ∷ cs) =
    if text_eq c.value input
    then matches_from input (c ∷ found) cs
    else if has_prefix c.value input
    then matches_from input (found ++ c ∷ []) cs
    else matches_from input found cs

abbrev pub has_newline : Text → Bool
has_newline [] = false
has_newline (r ∷ s) = r == 10 || has_newline s

unfoldable pub completion_matches : Editor → Text → List Candidate
unfolding has_prefix
completion_matches e input =
    if not (has_prefix input (47 ∷ [])) || has_newline input
    then []
    else matches_from input [] e.completions

unfoldable pub visible_matches : Editor → Text → Bool → List Candidate → List Candidate
visible_matches e input closed tabs =
    if closed then [] else if is_empty tabs then completion_matches e input else tabs

-- Whether the text starts with white space.
abbrev pub starts_with_space : Text → Bool
starts_with_space [] = false
starts_with_space (r ∷ s) = is_white r

-- The longest command that the input goes on from after a space.
abbrev pub longest_command : Text → Text → List Candidate → Text
longest_command input longest [] = longest
longest_command input longest (c ∷ cs) =
    let rest = drop (length c.value) input in
    if ltb (bytes longest) (bytes c.value)
      && has_prefix input c.value
      && not (bytes input == bytes c.value)
      && starts_with_space rest
    then longest_command input c.value cs
    else longest_command input longest cs

-- A command is followed by something that strings.TrimSpace leaves.
unfoldable pub has_command_arguments : Editor → Text → Bool
has_command_arguments e input =
    let longest = longest_command input [] e.completions in
    not (is_empty longest) && not (all is_white (drop (length longest) input))

-- ===== src/Patch/Seek.antt =====
-- seekPatchSequence: the one place where the old lines of a hunk occur.
use parrot_coder.Base.{
  ℕ, zero, suc, ◌+◌, ◌-◌, List, [], ◌∷◌, Text, Bool, true, false, ◌||◌, ◌&&◌, ltb, leb, ◌==◌,
  if◌then◌else◌, is_empty, length, drop, Option, none, some,
}
use parrot_coder.Patch.Spaces.{Comparator, comparators}

-- The place, or which of the two errors.
pub data Sought : Type 0 where
  at_line : ℕ → Sought
  failed : Sought
  ambiguous : ℕ → Sought

-- The lines start with the pattern.
unfoldable pub patch_sequence_equal : List Text → List Text → Comparator → Bool
patch_sequence_equal lines [] equal = true
patch_sequence_equal [] (p ∷ ps) equal = false
patch_sequence_equal (l ∷ ls) (p ∷ ps) equal = equal l p && patch_sequence_equal ls ps equal

-- The variables found and count of the scan.
pub record Scan : Type 0 where
  pub found : Option ℕ
  pub count : ℕ

-- A match at line `i`.
abbrev pub note_match : ℕ → Scan → Scan
note_match i s = record {
  found = elim s.found [ none ↦ some i | some j ↦ some j ];
  count = s.count + 1;
}

-- The scan loop from line `i`, with the rounds left.
unfoldable pub scan_places : Comparator → List Text → List Text → ℕ → ℕ → Scan → Scan
scan_places equal lines pattern zero i s = s
scan_places equal lines pattern (suc n) i s =
    scan_places equal lines pattern n (suc i)
      (if patch_sequence_equal (drop i lines) pattern equal then note_match i s else s)

-- What one comparator decides; `none` hands over to the next.
abbrev pub verdict : Scan → Option Sought
verdict s =
    if ltb 1 s.count
    then some (ambiguous s.count)
    else if s.count == 1
    then elim s.found [ none ↦ none | some i ↦ some (at_line i) ]
    else none

-- The last place where the pattern fits, if it is not above `start` and the hunk ends the file.
abbrev pub at_file_end : Comparator → List Text → List Text → ℕ → Bool → Bool
at_file_end equal lines pattern start end_of_file =
    end_of_file
    && leb (start + length pattern) (length lines)
    && patch_sequence_equal (drop (length lines - length pattern) lines) pattern equal

unfoldable pub seek_one : Comparator → List Text → List Text → ℕ → Bool → Option Sought
unfolding scan_places patch_sequence_equal
seek_one equal lines pattern start end_of_file =
    if at_file_end equal lines pattern start end_of_file
    then some (at_line (length lines - length pattern))
    else verdict (
        scan_places equal lines pattern (length lines + 1 - length pattern - start) start
          (record { found = none; count = 0 }))

unfoldable pub seek_each : List Comparator → List Text → List Text → ℕ → Bool → Sought
unfolding seek_one
seek_each [] lines pattern start end_of_file = failed
seek_each (equal ∷ es) lines pattern start end_of_file =
    let rest = seek_each es lines pattern start end_of_file in
    elim (seek_one equal lines pattern start end_of_file) [ some r ↦ r | none ↦ rest ]

unfoldable pub seek_patch_sequence : List Text → List Text → ℕ → Bool → Sought
unfolding seek_each
seek_patch_sequence lines pattern start end_of_file =
    if is_empty pattern || ltb (length lines) start
    then failed
    else seek_each comparators lines pattern start end_of_file

-- ===== src/Patch/Blocks.antt =====
-- The first half of ParsePatch: the lines of a patch as SEARCH/REPLACE blocks.
use parrot_coder.Base.{
  ℕ, zero, suc, ◌+◌, List, [], ◌∷◌, ◌++◌, Text, Bool, not, ◌||◌, ◌&&◌, leb, ◌==◌, if◌then◌else◌,
  any, all, is_empty, length, Option, none, some, text_eq, codes, has_prefix, with_newlines,
  split_on, clean_path, dot_dot,
}
use parrot_coder.Patch.Spaces.{trim_unicode}

-- Why a patch is refused; the numbers are those of lines, from 1.
pub data PatchError : Type 0 where
  nul_byte no_blocks duplicate_path overlapping_paths : PatchError
  bad_path no_path no_divider no_replace mixed_block : ℕ → PatchError
  empty_creation : PatchError
  quoted_path mismatched_paths bad_syntax renames copies binaries : PatchError
  invalid_path not_added no_headers : PatchError

pub data Parsed {ℓ} (A : Type ℓ) : Type ℓ where
  ok : A → Parsed A
  bad : PatchError → Parsed A

-- "<<<<<<< SEARCH" and ">>>>>>> REPLACE"
abbrev pub search_marker : Text
search_marker = codes "<<<<<<< SEARCH"

abbrev pub replace_marker : Text
replace_marker = codes ">>>>>>> REPLACE"

-- patchLines.
unfoldable pub patch_lines : Text → Parsed (List Text)
patch_lines text =
    if any (λ c. c == 0) text
    then bad nul_byte
    else ok (split_on 10 (trim_unicode (with_newlines text)))

-- isPatchDivider: seven '=' at least, and nothing else but space around them.
unfoldable pub is_patch_divider : Text → Bool
is_patch_divider line = let t = trim_unicode line in leb 7 (length t) && all (λ c. c == 61) t

unfoldable pub is_replace_line : Text → Bool
is_replace_line line = text_eq (trim_unicode line) replace_marker

-- validPatchPath.
unfoldable pub valid_patch_path : Text → Bool
valid_patch_path path =
    not (is_empty path)
    && text_eq (clean_path path) path
    && not (text_eq path (46 ∷ []))
    && not (text_eq path dot_dot)
    && not (has_prefix path (46 ∷ 46 ∷ 47 ∷ []))

pub record Block : Type 0 where
  pub path : Text
  pub line : ℕ
  pub search : List Text
  pub replace : List Text

-- The loop that stops at the first line with the test: the lines before it, and those from it on.
unfoldable pub lines_before : (Text → Bool) → List Text → List Text
lines_before stop [] = []
lines_before stop (l ∷ ls) = let rest = lines_before stop ls in if stop l then [] else l ∷ rest

unfoldable pub lines_from : (Text → Bool) → List Text → List Text
lines_from stop [] = []
lines_from stop (l ∷ ls) = let rest = lines_from stop ls in if stop l then l ∷ ls else rest

-- A blank line or a fence.
abbrev pub is_noise : Text → Bool
is_noise line = is_empty line || has_prefix line (codes "```")

-- The variables of the loop: the index, the lines from it on, the path and the blocks.
pub record Reading : Type 0 where
  pub index : ℕ
  pub rest : List Text
  pub path : Text
  pub blocks : List Block

-- The loop goes on, or returns an error.
pub data Next : Type 0 where
  goes : Reading → Next
  fails : PatchError → Next

-- The REPLACE section: `search` is read, and the lines behind the divider follow.
unfoldable pub replace_section : Reading → ℕ → List Text → List Text → List Text → Next
replace_section r line search replace [] = fails (no_replace line)
replace_section r line search replace (close ∷ after) = goes (record r {
  index = line + length search + length replace + 2;
  rest = after;
  blocks =
      r.blocks ++ (record { path = r.path; line = line; search = search; replace = replace } ∷ []);
})

-- The SEARCH section and the divider.
unfoldable pub search_section : Reading → ℕ → List Text → List Text → Next
unfolding replace_section lines_before lines_from
search_section r line search [] = fails (no_divider line)
search_section r line search (divider ∷ after) =
    replace_section r line search (lines_before is_replace_line after)
      (lines_from is_replace_line after)

-- A block that starts behind the marker.
unfoldable pub read_block : Reading → List Text → Next
unfolding search_section is_patch_divider is_replace_line
read_block r after =
    if is_empty r.path
    then fails (no_path (r.index + 1))
    else search_section r (r.index + 1) (lines_before is_patch_divider after)
        (lines_from is_patch_divider after)

-- One round, on the trimmed line and the lines behind it.
unfoldable pub read_line : Reading → Text → List Text → Next
unfolding read_block valid_patch_path
read_line r line after =
    if is_noise line
    then goes (record r { index = r.index + 1; rest = after })
    else if not (text_eq line search_marker)
    then if valid_patch_path line
      then goes (record r { index = r.index + 1; rest = after; path = line })
      else fails (bad_path (r.index + 1))
    else read_block r after

unfoldable pub read_round : Reading → List Text → Option Next
unfolding read_line
read_round r [] = none
read_round r (l ∷ after) = some (read_line r (trim_unicode l) after)

-- The loop, with rounds to spare; `none` means that they ran out.
unfoldable pub read_rounds : ℕ → Reading → Option (Parsed (List Block))
unfolding read_round
read_rounds zero r = none
read_rounds (suc n) r = elim (read_round r r.rest) [
  | none ↦ some (ok r.blocks)
  | some (fails e) ↦ some (bad e)
  | some (goes r') ↦ read_rounds n r'
]

abbrev pub reading : List Text → Reading
reading lines = record { index = 0; rest = lines; path = []; blocks = [] }

-- Every round takes a line at least.
unfoldable pub read_blocks : List Text → Option (Parsed (List Block))
unfolding read_rounds
read_blocks lines = read_rounds (suc (length lines)) (reading lines)

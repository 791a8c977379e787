-- ===== src/Patch/Tests.antt =====
-- Runs of the patch code, and the laws at them.
use mathlib.Core.List.{Nodup}
use parrot_coder.Base.{
  ◌≡◌, refl, [], ◌∷◌, List, codes, false, true, text_eq, clean_path, map, some, arith, has_prefix,
  ◌++◌, sort_by, split_on, text_lt, with_newlines, any, ◌==◌,
}
use parrot_coder.Patch.Lines.{split_file_lines, line_ending_at, write_lines, line_texts}
use parrot_coder.Patch.Spaces.{comparators, trim_unicode}
use parrot_coder.Patch.Seek.{seek_patch_sequence}
use parrot_coder.Patch.Replace.{PatchHunk, old_line, new_line, replacement_lines}
use parrot_coder.Patch.Apply.{apply_hunks, patched}
use parrot_coder.Patch.Split.{AreLines, split_file_lines_lem}
use parrot_coder.Patch.Outcome.{Outcome, seek_patch_sequence-Outcome}
use parrot_coder.Patch.Rounds.{Comes, apply_hunks-Comes}
use parrot_coder.Patch.Blocks.{
  Parsed, ok, Block, read_blocks, valid_patch_path, is_patch_divider, is_replace_line, patch_lines,
}
use parrot_coder.Patch.Written.{IsWritable, patch_text, located, read_blocks-written}
use parrot_coder.Patch.Unified.{GitFile, op_add, parse_unified_diff}
use parrot_coder.Patch.Converted.{IsAccepted, parse_unified_diff-IsAccepted}
use parrot_coder.Patch.Operations.{
  Operation, add, update, finalize_patch, merge_patch, hunk_of, parse_patch, parse_lines,
  validate_patch_paths, check_paths, check_from,
}
use parrot_coder.Patch.Merged.{hunks_at, hunks_for, merge_patch-hunks, parse_patch-some}
use parrot_coder.Patch.Paths.{
  beside, inside, validate_patch_paths-Nodup, validate_patch_paths-misses,
}

abbrev swap_b : PatchHunk
swap_b = record {
  lines =
      record { kind = old_line; text = codes "b" }
      ∷ record { kind = new_line; text = codes "x" }
      ∷ [];
  context = [];
  end_of_file = false;
}

abbrev add_new : PatchHunk
add_new = record {
  lines = record { kind = new_line; text = codes "new" } ∷ [];
  context = [];
  end_of_file = false;
}

swaps : apply_hunks (codes "a\r\n b \r\nc") (swap_b ∷ []) ≡ patched (codes "a\r\nx\r\nc")
unfolding apply_hunks split_file_lines line_texts line_ending_at write_lines seek_patch_sequence
    comparators replacement_lines text_eq
swaps = refl

-- A hunk of additions alone is glued to a last line that has no terminator.
glued : apply_hunks (codes "abc") (add_new ∷ []) ≡ patched (codes "abcnew\n")
unfolding apply_hunks split_file_lines line_texts line_ending_at write_lines seek_patch_sequence
    comparators replacement_lines
glued = refl

abbrev block_b : Block
block_b = record {
  path = codes "a/f.go";
  line = 2;
  search = codes "b" ∷ [];
  replace = codes "x" ∷ [];
}

block_b-IsWritable : IsWritable block_b
unfolding trim_unicode text_eq has_prefix valid_patch_path is_patch_divider is_replace_line
    clean_path
block_b-IsWritable = record {
  trimmed = refl;
  some_path = refl;
  loud = refl;
  no_marker = refl;
  clean = refl;
  searches = (refl, tt);
  replaces = (refl, tt);
}

reads_text :
    parse_patch (codes "a/f.go\n<<<<<<< SEARCH\r\nb\n=======\nx\n>>>>>>> REPLACE\n")
    ≡ some (
        ok (
          record {
            kind = update;
            path = codes "a/f.go";
            content = [];
            hunks = hunk_of block_b ∷ [];
          }
          ∷ []))
unfolding parse_patch parse_lines patch_lines read_blocks merge_patch trim_unicode text_eq
    has_prefix with_newlines split_on clean_path sort_by
reads_text = refl

cleans : clean_path (codes "a/./b//../c") ≡ codes "a/c"
unfolding clean_path text_eq
cleans = refl

split_file_lines_lem_example :
    AreLines (split_file_lines (codes "a\r\nb\rc"))
    × (write_lines (split_file_lines (codes "a\r\nb\rc")) ≡ codes "a\r\nb\rc")
split_file_lines_lem_example = split_file_lines_lem (codes "a\r\nb\rc")

seek_patch_sequence-Outcome_example :
    Outcome
      (codes "a" ∷ codes "b " ∷ [])
      (codes "b" ∷ [])
      0
      false
      comparators
      (seek_patch_sequence (codes "a" ∷ codes "b " ∷ []) (codes "b" ∷ []) 0 false)
seek_patch_sequence-Outcome_example =
    seek_patch_sequence-Outcome (codes "a" ∷ codes "b " ∷ []) (codes "b" ∷ []) 0 false (omega arith)
      (omega arith)

apply_hunks-Comes_example :
    Comes (codes "a\r\nb\r\nc") (swap_b ∷ []) (apply_hunks (codes "a\r\nb\r\nc") (swap_b ∷ []))
apply_hunks-Comes_example = apply_hunks-Comes (codes "a\r\nb\r\nc") (swap_b ∷ [])

read_blocks-written_example :
    read_blocks (patch_text (block_b ∷ [])) ≡ some (ok (located 0 (block_b ∷ [])))
read_blocks-written_example = read_blocks-written (block_b ∷ []) (block_b-IsWritable, tt)

abbrev merged_b : List Operation
merged_b =
    record {
      kind = update;
      path = codes "a/f.go";
      content = [];
      hunks = hunk_of block_b ∷ hunk_of block_b ∷ [];
    }
    ∷ []

merges_b : merge_patch (block_b ∷ block_b ∷ []) ≡ ok merged_b
unfolding merge_patch text_eq has_prefix sort_by clean_path
merges_b = refl

merge_patch-hunks_example :
    hunks_at (codes "a/f.go") merged_b ≡ hunks_for (codes "a/f.go") (block_b ∷ block_b ∷ [])
merge_patch-hunks_example =
    merge_patch-hunks (codes "a/f.go") (block_b ∷ block_b ∷ []) merged_b merges_b

parse_patch-some_example :
    (p : Parsed (List Operation)) × (parse_patch (codes "a\n<<<<<<< SEARCH") ≡ some p)
parse_patch-some_example = parse_patch-some (codes "a\n<<<<<<< SEARCH")

two_paths : validate_patch_paths (codes "b" ∷ codes "a/c" ∷ []) ≡ ok tt
unfolding validate_patch_paths check_paths check_from sort_by clean_path text_eq text_lt has_prefix
two_paths = refl

validate_patch_paths-Nodup_example : Nodup (map clean_path (codes "b" ∷ codes "a/c" ∷ []))
validate_patch_paths-Nodup_example =
    validate_patch_paths-Nodup (codes "b" ∷ codes "a/c" ∷ []) two_paths

clean_lib : clean_path (codes "lib") ≡ codes "lib"
unfolding clean_path text_eq
clean_lib = refl

clean_beside : clean_path (beside (codes "lib") (codes "old")) ≡ beside (codes "lib") (codes "old")
unfolding clean_path text_eq
clean_beside = refl

clean_inside : clean_path (inside (codes "lib") (codes "x")) ≡ inside (codes "lib") (codes "x")
unfolding clean_path text_eq
clean_inside = refl

validate_patch_paths-misses_example :
    (validate_patch_paths
        (codes "lib" ∷ beside (codes "lib") (codes "old") ∷ inside (codes "lib") (codes "x") ∷ [])
      ≡ ok tt)
    × (has_prefix (inside (codes "lib") (codes "x")) (codes "lib" ++ (47 ∷ [])) ≡ true)
validate_patch_paths-misses_example =
    validate_patch_paths-misses (codes "lib") (codes "old") (codes "x") clean_lib clean_beside
      clean_inside

abbrev added_file : GitFile
added_file = record {
  is_rename = false;
  is_copy = false;
  is_binary = false;
  is_new = true;
  is_delete = false;
  old_name = [];
  new_name = codes "b/f";
  fragments = (record { op = op_add; line = codes "x\n" } ∷ []) ∷ [];
}

abbrev added_f : List Operation
added_f = record { kind = add; path = codes "f"; content = codes "x\n"; hunks = [] } ∷ []

accepts_f : parse_unified_diff (λ t. some (added_file ∷ [])) (codes "+++ b/f") ≡ ok added_f
unfolding parse_unified_diff trim_unicode text_eq has_prefix with_newlines split_on clean_path
    sort_by finalize_patch valid_patch_path
accepts_f = refl

parse_unified_diff-IsAccepted_example :
    (any (λ c. c == 0) (codes "+++ b/f") ≡ false) × IsAccepted added_f
parse_unified_diff-IsAccepted_example =
    parse_unified_diff-IsAccepted (λ t. some (added_file ∷ [])) (codes "+++ b/f") added_f accepts_f

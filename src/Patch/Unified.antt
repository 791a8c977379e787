-- ===== src/Patch/Unified.antt =====
-- internal/change/unified.go: unified diffs, read by a parser that the model takes as a function.
use parrot_coder.Base.{
  List, [], ◌∷◌, ◌++◌, Text, Bool, false, not, ◌||◌, ◌&&◌, ◌==◌, if◌then◌else◌, any, is_empty, drop,
  Option, none, some, text_eq, codes, has_prefix, with_newlines, split_on,
}
use parrot_coder.Patch.Spaces.{trim_unicode}
use parrot_coder.Patch.Replace.{context_line, old_line, new_line, PatchLine, PatchHunk}
use parrot_coder.Patch.Blocks.{
  nul_byte, quoted_path, mismatched_paths, bad_syntax, renames, copies, binaries, invalid_path,
  not_added, no_headers, Parsed, ok, bad, valid_patch_path,
}
use parrot_coder.Patch.Operations.{◌>>=◌, Operation, add, update, delete, finalize_patch}

-- What gitdiff gives for a file: the lines of its text fragments.
pub data LineOp : Type 0 where
  op_context op_delete op_add op_other : LineOp

pub record GitLine : Type 0 where
  pub op : LineOp
  pub line : Text

pub record GitFile : Type 0 where
  pub is_rename : Bool
  pub is_copy : Bool
  pub is_binary : Bool
  pub is_new : Bool
  pub is_delete : Bool
  pub old_name : Text
  pub new_name : Text
  pub fragments : List (List GitLine)

-- The text before the first tab, or all of it.
unfoldable pub before_tab : Text → Text
before_tab [] = []
before_tab (c ∷ s) = let rest = before_tab s in if c == 9 then [] else c ∷ rest

-- strings.TrimPrefix for a prefix of two bytes.
unfoldable pub without_prefix : Text → Text → Text
without_prefix prefix s = if has_prefix s prefix then drop 2 s else s

-- One header prefix on one line.
unfoldable pub quoted_after : Text → Text → Bool
unfolding before_tab without_prefix
quoted_after prefix line =
    has_prefix line prefix
    && has_prefix
        (without_prefix (codes "b/")
          (without_prefix (codes "a/") (before_tab (trim_unicode (drop 4 line)))))
        (34 ∷ [])

-- containsQuotedPath.
unfoldable pub contains_quoted_path : Text → Bool
unfolding quoted_after
contains_quoted_path text =
    any (λ l. quoted_after (codes "--- ") l || quoted_after (codes "+++ ") l) (split_on 10 text)

-- cleanDiffPath.
unfoldable pub clean_diff_path : Text → Text
clean_diff_path path =
    if has_prefix path (codes "a/")
    then drop 2 path
    else if has_prefix path (codes "b/")
    then drop 2 path
    else path

unfoldable pub extract_header_path : Text → Text
unfolding before_tab clean_diff_path
extract_header_path value =
    let path = trim_unicode (before_tab value) in
    if text_eq path (codes "/dev/null") then [] else clean_diff_path path

abbrev is_noise_header : Text → Bool
is_noise_header t =
    is_empty t
    || has_prefix t (codes "\\")
    || has_prefix t (codes "```")
    || has_prefix t (codes "diff ")

-- The first line that is no noise starts a fragment.
unfoldable pub has_fragment : List Text → Bool
has_fragment [] = false
has_fragment (l ∷ ls) =
    let rest = has_fragment ls in
    let t = trim_unicode l in if is_noise_header t then rest else has_prefix t (codes "@@ -")

-- The paths of a header that is confirmed: both are there, and they differ.
abbrev paths_differ : Text → Text → Bool
paths_differ source target =
    not (is_empty source) && not (is_empty target) && not (text_eq source target)

-- The round of the loop at a line, with the line behind it and the lines behind both.
unfoldable pub mismatch_at : Text → List Text → Bool
unfolding has_fragment extract_header_path
mismatch_at l [] = false
mismatch_at l (next ∷ after) =
    not (has_prefix l (codes "diff --git "))
    && has_prefix l (codes "--- ")
    && has_prefix next (codes "+++ ")
    && has_fragment after
    && paths_differ (extract_header_path (drop 4 l)) (extract_header_path (drop 4 next))

-- checkMismatchedHeaderPaths, on the lines.
unfoldable pub mismatched_headers : List Text → Bool
unfolding mismatch_at
mismatched_headers [] = false
mismatched_headers (l ∷ ls) = mismatch_at l ls || mismatched_headers ls

-- strings.TrimSuffix(_, "\n").
unfoldable pub trim_newline : Text → Text
trim_newline [] = []
trim_newline (c ∷ []) = if c == 10 then [] else c ∷ []
trim_newline (c ∷ d ∷ s) = c ∷ trim_newline (d ∷ s)

-- A created file may only add lines.
unfoldable pub added_content : List GitLine → Parsed Text
unfolding trim_newline
added_content [] = ok []
added_content (l ∷ ls) = elim l.op [
  | op_add ↦ added_content ls >>= λ rest. ok (trim_newline l.line ++ (10 ∷ rest))
  | _ ↦ bad not_added
]

unfoldable pub created_content : List (List GitLine) → Parsed Text
unfolding added_content
created_content [] = ok []
created_content (f ∷ fs) = added_content f >>= λ t. created_content fs >>= λ rest. ok (t ++ rest)

unfoldable pub hunk_lines : List GitLine → List PatchLine
unfolding trim_newline
hunk_lines [] = []
hunk_lines (l ∷ ls) =
    let rest = hunk_lines ls in
    elim l.op [
      | op_context ↦ record { kind = context_line; text = trim_newline l.line } ∷ rest
      | op_delete ↦ record { kind = old_line; text = trim_newline l.line } ∷ rest
      | op_add ↦ record { kind = new_line; text = trim_newline l.line } ∷ rest
      | op_other ↦ rest
    ]

-- The hunks that have a line.
unfoldable pub file_hunks : List (List GitLine) → List PatchHunk
unfolding hunk_lines
file_hunks [] = []
file_hunks (f ∷ fs) =
    let rest = file_hunks fs in
    let lines = hunk_lines f in
    if is_empty lines
    then rest
    else record { lines = lines; context = []; end_of_file = false } ∷ rest

abbrev pub at_path : Text → Parsed Operation → Parsed Operation
at_path path result = if valid_patch_path path then result else bad invalid_path

abbrev pub update_path : GitFile → Text
update_path f =
    let path = clean_diff_path f.new_name in
    if is_empty path then clean_diff_path f.old_name else path

unfoldable pub convert_file : GitFile → Parsed Operation
unfolding clean_diff_path created_content file_hunks
convert_file f =
    if f.is_rename
    then bad renames
    else if f.is_copy
    then bad copies
    else if f.is_binary
    then bad binaries
    else if f.is_new
    then at_path (clean_diff_path f.new_name) (
        created_content f.fragments >>= λ content.
        ok
          (record { kind = add; path = clean_diff_path f.new_name; content = content; hunks = [] }))
    else if f.is_delete
    then at_path (clean_diff_path f.old_name)
        (ok (record { kind = delete; path = clean_diff_path f.old_name; content = []; hunks = [] }))
    else at_path (update_path f) (
        ok (record {
          kind = update;
          path = update_path f;
          content = [];
          hunks = file_hunks f.fragments;
        }))

unfoldable pub convert_files : List GitFile → Parsed (List Operation)
unfolding convert_file
convert_files [] = ok []
convert_files (f ∷ fs) = convert_file f >>= λ o. convert_files fs >>= λ os. ok (o ∷ os)

abbrev pub with_headers : List Operation → Parsed (List Operation)
with_headers [] = bad no_headers
with_headers (o ∷ os) = finalize_patch (o ∷ os)

abbrev pub convert_parsed : Option (List GitFile) → Parsed (List Operation)
convert_parsed none = bad bad_syntax
convert_parsed (some files) = convert_files files >>= with_headers

-- ParseUnifiedDiff, with gitdiff.Parse as a function that may refuse the text.
unfoldable pub parse_unified_diff : (Text → Option (List GitFile)) → Text → Parsed (List Operation)
unfolding contains_quoted_path mismatched_headers convert_files
parse_unified_diff parse source =
    let text = with_newlines source in
    if any (λ c. c == 0) source
    then bad nul_byte
    else if contains_quoted_path text
    then bad quoted_path
    else if mismatched_headers (split_on 10 text)
    then bad mismatched_paths
    else convert_parsed (parse text)

-- ===== src/Patch/Operations.antt =====
-- The second half of ParsePatch: one operation for each path, and the checks of the paths.
use parrot_coder.Base.{
  List, [], ◌∷◌, ◌++◌, Text, Bool, true, false, if◌then◌else◌, is_empty, map, Option, none, some,
  text_eq, has_prefix, clean_path, sort_by,
}
use parrot_coder.Patch.Replace.{old_line, new_line, PatchLine, PatchHunk}
use parrot_coder.Patch.Blocks.{
  no_blocks, mixed_block, empty_creation, duplicate_path, overlapping_paths, Parsed, ok, bad, Block,
  patch_lines, read_blocks,
}

infixl 5 ◌>>=◌
abbrev pub ◌>>=◌ {ℓ κ} : {A : Type ℓ} {B : Type κ} → Parsed A → (A → Parsed B) → Parsed B
ok a >>= f = f a
bad e >>= f = bad e

-- The kinds; `unset` is the empty string.
pub data OperationKind : Type 0 where
  unset add update delete : OperationKind

pub record Operation : Type 0 where
  pub kind : OperationKind
  pub path : Text
  pub content : Text
  pub hunks : List PatchHunk

abbrev pub fresh : Text → Operation
fresh path = record { kind = unset; path = path; content = []; hunks = [] }

-- The lines of a new file, each with a '\n'.
unfoldable pub created : List Text → Text
created [] = []
created (l ∷ ls) = l ++ (10 ∷ created ls)

abbrev removed_lines : List Text → List PatchLine
removed_lines = map λ (t : Text). record { kind = old_line; text = t }

abbrev added_lines : List Text → List PatchLine
added_lines = map λ (t : Text). record { kind = new_line; text = t }

abbrev pub hunk_of : Block → PatchHunk
hunk_of b = record {
  lines = removed_lines b.search ++ added_lines b.replace;
  context = [];
  end_of_file = false;
}

-- An empty SEARCH section creates the file.
unfoldable pub merge_kind : OperationKind → Bool → Block → Operation → Parsed Operation
merge_kind unset true b o = ok (record o { kind = add; content = o.content ++ created b.replace })
merge_kind _ true b o = bad (mixed_block b.line)
merge_kind add false b o = bad (mixed_block b.line)
merge_kind _ false b o = ok (record o { kind = update; hunks = o.hunks ++ (hunk_of b ∷ []) })

unfoldable pub merge_into : Block → Operation → Parsed Operation
unfolding merge_kind
merge_into b o = merge_kind o.kind (is_empty b.search) b o

-- The operation of the block's path, a new one at the end if there is none.
unfoldable pub merge_block : Block → List Operation → Parsed (List Operation)
unfolding merge_into
merge_block b [] = merge_into b (fresh b.path) >>= λ o. ok (o ∷ [])
merge_block b (o ∷ os) =
    let rest = merge_block b os in
    if text_eq o.path b.path
    then (merge_into b o >>= λ o'. ok (o' ∷ os))
    else (rest >>= λ os'. ok (o ∷ os'))

unfoldable pub merge_blocks : List Block → List Operation → Parsed (List Operation)
unfolding merge_block
merge_blocks [] os = ok os
merge_blocks (b ∷ bs) os = merge_block b os >>= λ os'. merge_blocks bs os'

abbrev pub is_empty_creation : OperationKind → Text → Bool
is_empty_creation add [] = true
is_empty_creation _ content = false

unfoldable pub creations_filled : List Operation → Parsed (Unit {0})
creations_filled [] = ok tt
creations_filled (o ∷ os) =
    let rest = creations_filled os in
    if is_empty_creation o.kind o.content then bad empty_creation else rest

-- Each path against the one before it.
unfoldable pub check_from : Text → List Text → Parsed (Unit {0})
check_from previous [] = ok tt
check_from previous (path ∷ paths) =
    let rest = check_from path paths in
    if text_eq path previous
    then bad duplicate_path
    else if has_prefix path (previous ++ (47 ∷ []))
    then bad overlapping_paths
    else rest

unfoldable pub check_paths : List Text → Parsed (Unit {0})
unfolding check_from
check_paths [] = ok tt
check_paths (path ∷ paths) = check_from path paths

abbrev pub path_of : Operation → Text
path_of o = o.path

-- validatePatchPaths.
unfoldable pub validate_patch_paths : List Text → Parsed (Unit {0})
unfolding check_paths sort_by
validate_patch_paths paths = check_paths (sort_by (λ t. t) (map clean_path paths))

unfoldable pub finalize_patch : List Operation → Parsed (List Operation)
unfolding creations_filled validate_patch_paths
finalize_patch os =
    creations_filled os >>= λ _. validate_patch_paths (map path_of os) >>= λ _. ok os

unfoldable pub merge_patch : List Block → Parsed (List Operation)
unfolding merge_blocks finalize_patch
merge_patch [] = bad no_blocks
merge_patch (b ∷ bs) = merge_blocks (b ∷ bs) [] >>= finalize_patch

abbrev pub then_merge : Option (Parsed (List Block)) → Option (Parsed (List Operation))
then_merge none = none
then_merge (some p) = some (p >>= merge_patch)

-- ParsePatch on the lines of a patch; `none` would be a loop that goes on.
unfoldable pub parse_lines : Parsed (List Text) → Option (Parsed (List Operation))
unfolding read_blocks merge_patch
parse_lines (bad e) = some (bad e)
parse_lines (ok lines) = then_merge (read_blocks lines)

unfoldable pub parse_patch : Text → Option (Parsed (List Operation))
unfolding parse_lines patch_lines
parse_patch text = parse_lines (patch_lines text)

-- ===== src/Patch/Converted.antt =====
-- The operations that a unified diff is converted into.
use mathlib.Core.List.{Nodup}
use parrot_coder.Base.{
  ◌≡◌, refl, inl, inr, List, [], ◌∷◌, Text, true, false, is_empty, any, map, split_on,
  with_newlines, clean_path, All, arith, Bool-cases, Option, none, some, ◌==◌,
}
use parrot_coder.Patch.Replace.{PatchHunk}
use parrot_coder.Patch.Blocks.{Parsed, ok, valid_patch_path}
use parrot_coder.Patch.Merged.{>>=-eq-ok}
use parrot_coder.Patch.Paths.{validate_patch_paths-Nodup}
use parrot_coder.Patch.Operations.{
  ◌>>=◌, OperationKind, unset, add, update, delete, Operation, is_empty_creation, creations_filled,
  path_of, validate_patch_paths, finalize_patch,
}
use parrot_coder.Patch.Unified.{
  GitLine, GitFile, hunk_lines, file_hunks, at_path, update_path, clean_diff_path, created_content,
  convert_file, convert_files, with_headers, convert_parsed, contains_quoted_path,
  mismatched_headers, parse_unified_diff,
}

-- Every hunk has a line.
abbrev pub Filled : List PatchHunk → Type 0
Filled = All (λ h. is_empty h.lines ≡ false)

-- What the operation of a kind holds.
abbrev pub KindShape : OperationKind → Operation → Type 0
KindShape unset o = ⊥
KindShape add o = o.hunks ≡ []
KindShape update o = (o.content ≡ []) × Filled o.hunks
KindShape delete o = (o.hunks ≡ []) × (o.content ≡ [])

abbrev pub Shaped : Operation → Type 0
Shaped o = (valid_patch_path o.path ≡ true) × KindShape o.kind o

file_hunks-Filled : (fs : List (List GitLine)) → Filled (file_hunks fs)
unfolding file_hunks
file_hunks-Filled [] = tt
file_hunks-Filled (f ∷ fs) = elim (Bool-cases (is_empty (hunk_lines f))) [
  | inl e ↦ rw e (file_hunks-Filled fs)
  | inr e ↦ rw e (e, file_hunks-Filled fs)
]

at_path-eq-ok :
    (path : Text) (r : Parsed Operation) (o : Operation)
    → at_path path r ≡ ok o
    → (valid_patch_path path ≡ true) × (r ≡ ok o)
at_path-eq-ok path r o h = (ground arith, ground arith)

Shaped-eq : (p o : Operation) → Shaped p → ◌≡◌ {A = Parsed Operation} (ok p) (ok o) → Shaped o
Shaped-eq p o s e = let same : p ≡ o = cc in rw (← same) s

convert_file-Shaped : (f : GitFile) (o : Operation) → convert_file f ≡ ok o → Shaped o
unfolding convert_file
convert_file-Shaped f o h = elim (Bool-cases f.is_rename) [
  | inl a ↦ absurd (ground arith)
  | inr a ↦ elim (Bool-cases f.is_copy) [
    | inl b ↦ absurd (ground arith)
    | inr b ↦ elim (Bool-cases f.is_binary) [
      | inl c ↦ absurd (ground arith)
      | inr c ↦ elim (Bool-cases f.is_new) [
        | inl d ↦
            let (valid, e) =
              at_path-eq-ok (clean_diff_path f.new_name) _ o (rw (a, b, c, d) at h) in
            let (content, g, k) = >>=-eq-ok (created_content f.fragments) _ o e in
            Shaped-eq _ o (valid, refl) k
        | inr d ↦ elim (Bool-cases f.is_delete) [
          | inl e ↦
              let (valid, k) =
                at_path-eq-ok (clean_diff_path f.old_name) _ o (rw (a, b, c, d, e) at h) in
              Shaped-eq _ o (valid, (refl, refl)) k
          | inr e ↦
              let (valid, k) = at_path-eq-ok (update_path f) _ o (rw (a, b, c, d, e) at h) in
              Shaped-eq _ o (valid, (refl, file_hunks-Filled f.fragments)) k
        ]
      ]
    ]
  ]
]

convert_files-Shaped :
    (fs : List GitFile) (os : List Operation) → convert_files fs ≡ ok os → All Shaped os
unfolding convert_files
convert_files-Shaped [] os h = let same : os ≡ [] = cc in rw same tt
convert_files-Shaped (f ∷ fs) os h =
    let (o, e, g) =
      >>=-eq-ok (convert_file f) (λ o. convert_files fs >>= λ rest. ok (o ∷ rest)) os h in
    let (rest, k, l) = >>=-eq-ok (convert_files fs) (λ rest. ok (o ∷ rest)) os g in
    let same : os ≡ o ∷ rest = cc in
    rw same (convert_file-Shaped f o e, convert_files-Shaped fs rest k)

-- No file is created with nothing in it.
abbrev pub NotEmptyCreation : Operation → Type 0
NotEmptyCreation o = is_empty_creation o.kind o.content ≡ false

creations_filled-All : (os : List Operation) → creations_filled os ≡ ok tt → All NotEmptyCreation os
unfolding creations_filled
creations_filled-All [] h = tt
creations_filled-All (o ∷ os) h = elim (Bool-cases (is_empty_creation o.kind o.content)) [
  | inl e ↦ absurd (ground arith)
  | inr e ↦ (e, creations_filled-All os (rw e at h))
]

-- The checks that every format shares, passed.
finalize_patch-eq-ok :
    (os os' : List Operation)
    → finalize_patch os ≡ ok os'
    → (os' ≡ os) × All NotEmptyCreation os × Nodup (map clean_path (map path_of os))
unfolding finalize_patch
finalize_patch-eq-ok os os' h =
    let (u, g, k) =
      >>=-eq-ok (creations_filled os) (λ _. validate_patch_paths (map path_of os) >>= λ _. ok os)
        os' h in
    let (v, l, m) = >>=-eq-ok (validate_patch_paths (map path_of os)) (λ _. ok os) os' k in
    (cc, creations_filled-All os g, validate_patch_paths-Nodup (map path_of os) l)

-- The patch that a diff is accepted as: its operations have valid paths and what their kinds hold,
-- none creates an empty file, and no two are of one path.
pub record IsAccepted (os : List Operation) : Type 0 where
  pub shaped : All Shaped os
  pub filled : All NotEmptyCreation os
  pub distinct : Nodup (map clean_path (map path_of os))

accepted : (os os' : List Operation) → All Shaped os → finalize_patch os ≡ ok os' → IsAccepted os'
accepted os os' s h =
    let (e, f, d) = finalize_patch-eq-ok os os' h in
    rw e (record { shaped = s; filled = f; distinct = d })

with_headers-IsAccepted :
    (os os' : List Operation) → All Shaped os → with_headers os ≡ ok os' → IsAccepted os'
with_headers-IsAccepted [] os' s h = absurd (cc)
with_headers-IsAccepted (o ∷ os) os' s h = accepted (o ∷ os) os' s h

convert_parsed-IsAccepted :
    (files : Option (List GitFile)) (os : List Operation)
    → convert_parsed files ≡ ok os
    → IsAccepted os
convert_parsed-IsAccepted none os h = absurd (cc)
convert_parsed-IsAccepted (some files) os h =
    let (converted, e, f) = >>=-eq-ok (convert_files files) with_headers os h in
    with_headers-IsAccepted converted os (convert_files-Shaped files converted e) f

-- Whatever the diff parser gives, a unified diff that is accepted has no byte 0 and becomes operations
-- with valid paths, no two of one clean path: a creation has content and no hunks, a deletion has
-- neither, and an update has no content and only hunks with a line.
pub parse_unified_diff-IsAccepted :
    (parse : Text → Option (List GitFile)) (source : Text) (os : List Operation)
    → parse_unified_diff parse source ≡ ok os
    → (any (λ c. c == 0) source ≡ false) × IsAccepted os
unfolding parse_unified_diff
parse_unified_diff-IsAccepted parse source os h = elim (Bool-cases (any (λ c. c == 0) source)) [
  | inl a ↦ absurd (ground arith)
  | inr a ↦ elim (Bool-cases (contains_quoted_path (with_newlines source))) [
    | inl b ↦ absurd (ground arith)
    | inr b ↦ elim (Bool-cases (mismatched_headers (split_on 10 (with_newlines source)))) [
      | inl c ↦ absurd (ground arith)
      | inr c ↦ (a, convert_parsed-IsAccepted (parse (with_newlines source)) os (rw (a, b, c) at h))
    ]
  ]
]

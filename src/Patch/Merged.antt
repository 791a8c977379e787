-- ===== src/Patch/Merged.antt =====
-- The operations of a patch, against the blocks of each path.
use mathlib.Core.List.{append_assoc, append-nil}
use parrot_coder.Base.{
  ◌≡◌, refl, ap, sym, ◌∙◌, inl, inr, List, [], ◌∷◌, ◌++◌, Text, Bool, true, false, if◌then◌else◌,
  is_empty, Option, some, map, text_eq, text_eq_iff, text_eq_refl, text_eq_sym, arith, Bool-cases,
}
use parrot_coder.Patch.Replace.{PatchHunk}
use parrot_coder.Patch.Blocks.{Parsed, ok, bad, Block, patch_lines, read_blocks}
use parrot_coder.Patch.Reads.{read_blocks-some}
use parrot_coder.Patch.Operations.{
  ◌>>=◌, OperationKind, unset, add, update, delete, Operation, fresh, hunk_of, merge_kind,
  merge_into, merge_block, merge_blocks, parse_lines, parse_patch, then_merge, merge_patch,
  finalize_patch, creations_filled, validate_patch_paths, path_of,
}

-- The hunks that the blocks of a path ask for, in the order of the patch.
abbrev pub hunks_for : Text → List Block → List PatchHunk
hunks_for path [] = []
hunks_for path (b ∷ bs) =
    (if text_eq b.path path then (if is_empty b.search then [] else hunk_of b ∷ []) else [])
    ++ hunks_for path bs

-- The hunks of the operation of a path.
abbrev pub hunks_at : Text → List Operation → List PatchHunk
hunks_at path [] = []
hunks_at path (o ∷ os) = if text_eq o.path path then o.hunks else hunks_at path os

merge_kind-hunks :
    (k : OperationKind) (e : Bool) (b : Block) (o o' : Operation)
    → merge_kind k e b o ≡ ok o'
    → (o'.path ≡ o.path) × (o'.hunks ≡ o.hunks ++ (if e then [] else hunk_of b ∷ []))
unfolding merge_kind
merge_kind-hunks unset true b o o' h = (ground arith, ground (arith, append-nil o.hunks))
merge_kind-hunks add true b o o' h = absurd (cc)
merge_kind-hunks update true b o o' h = absurd (cc)
merge_kind-hunks delete true b o o' h = absurd (cc)
merge_kind-hunks add false b o o' h = absurd (cc)
merge_kind-hunks unset false b o o' h = (ground arith, ground arith)
merge_kind-hunks update false b o o' h = (ground arith, ground arith)
merge_kind-hunks delete false b o o' h = (ground arith, ground arith)

pub >>=-eq-ok :
    {A B : Type 0} (m : Parsed A) (f : A → Parsed B) (b : B)
    → (m >>= f) ≡ ok b
    → (a : A) × (m ≡ ok a) × (f a ≡ ok b)
>>=-eq-ok (ok a) f b h = (a, refl, h)
>>=-eq-ok (bad e) f b h = absurd (cc)

-- The list after one operation takes in a block.
head-hunks :
    (path : Text) (b : Block) (o o' : Operation) (os : List Operation)
    → text_eq o.path b.path ≡ true
    → merge_into b o ≡ ok o'
    → hunks_at path (o' ∷ os) ≡ hunks_at path (o ∷ os) ++ hunks_for path (b ∷ [])
unfolding merge_into
head-hunks path b o o' os same h =
    let (p, q) = merge_kind-hunks o.kind (is_empty b.search) b o o' h in
    let one : o.path ≡ b.path = (text_eq_iff o.path b.path).0 same in
    rw (p, q, one) (split (text_eq b.path path) (is_empty b.search))
  where
    split :
        (mine empty : Bool)
        → (if mine then o.hunks ++ (if empty then [] else hunk_of b ∷ []) else hunks_at path os)
          ≡ (if mine then o.hunks else hunks_at path os)
            ++ ((if mine then (if empty then [] else hunk_of b ∷ []) else []) ++ [])
    split true true = refl
    split true false = refl
    split false empty = sym (append-nil _)

if_same : (c : Bool) (hs : List PatchHunk) → (if c then hs else hs) ≡ hs
if_same true hs = refl
if_same false hs = refl

-- Another operation stands before the one that takes in the block.
tail-hunks :
    (path : Text) (b : Block) (o : Operation) (rest os : List Operation)
    → text_eq o.path b.path ≡ false
    → hunks_at path rest ≡ hunks_at path os ++ hunks_for path (b ∷ [])
    → hunks_at path (o ∷ rest) ≡ hunks_at path (o ∷ os) ++ hunks_for path (b ∷ [])
tail-hunks path b o rest os other ih = elim (Bool-cases (text_eq o.path path)) [
  | inl e ↦
      let here : o.path ≡ path = (text_eq_iff o.path path).0 e in
      let apart : text_eq b.path path ≡ false =
        text_eq_sym b.path path ∙ (ap (λ (t : Text). text_eq t b.path) (sym here) ∙ other) in
      rw (e, apart) (sym (append-nil o.hunks))
  | inr e ↦ rw e ih
]

merge_block-hunks :
    (path : Text) (b : Block) (os os' : List Operation)
    → merge_block b os ≡ ok os'
    → hunks_at path os' ≡ hunks_at path os ++ hunks_for path (b ∷ [])
unfolding merge_block
merge_block-hunks path b [] os' h =
    let (o, e, f) = >>=-eq-ok (merge_into b (fresh b.path)) (λ o. ok (o ∷ [])) os' h in
    let list : os' ≡ o ∷ [] = cc in
    rw list (
      head-hunks path b (fresh b.path) o [] (text_eq_refl b.path) e
      ∙ rw (if_same (text_eq b.path path) []) refl)
merge_block-hunks path b (o ∷ os) os' h = elim (Bool-cases (text_eq o.path b.path)) [
  | inl e ↦
      let (o', f, g) = >>=-eq-ok (merge_into b o) (λ o'. ok (o' ∷ os)) os' (rw e at h) in
      let list : os' ≡ o' ∷ os = cc in rw list (head-hunks path b o o' os e f)
  | inr e ↦
      let (rest, f, g) = >>=-eq-ok (merge_block b os) (λ rest. ok (o ∷ rest)) os' (rw e at h) in
      let list : os' ≡ o ∷ rest = cc in
      rw list (tail-hunks path b o rest os e (merge_block-hunks path b os rest f))
]

hunks_for-append :
    (path : Text) (b : Block) (bs : List Block)
    → hunks_for path (b ∷ []) ++ hunks_for path bs ≡ hunks_for path (b ∷ bs)
hunks_for-append path b bs = ap (λ hs. hs ++ hunks_for path bs) (append-nil _)

merge_blocks-hunks :
    (path : Text) (bs : List Block) (os os' : List Operation)
    → merge_blocks bs os ≡ ok os'
    → hunks_at path os' ≡ hunks_at path os ++ hunks_for path bs
unfolding merge_blocks
merge_blocks-hunks path [] os os' h =
    let same : os' ≡ os = cc in rw same (sym (append-nil (hunks_at path os)))
merge_blocks-hunks path (b ∷ bs) os os' h =
    let (middle, e, f) = >>=-eq-ok (merge_block b os) (merge_blocks bs) os' h in
    merge_blocks-hunks path bs middle os' f
    ∙ (ap (λ hs. hs ++ hunks_for path bs) (merge_block-hunks path b os middle e)
        ∙ (append_assoc (hunks_at path os) (hunks_for path (b ∷ [])) (hunks_for path bs)
            ∙ ap (λ hs. hunks_at path os ++ hs) (hunks_for-append path b bs)))

-- The blocks of a patch that is accepted are merged into operations so that the hunks at each path
-- are those of its blocks, in the order of the patch.
pub merge_patch-hunks :
    (path : Text) (bs : List Block) (os : List Operation)
    → merge_patch bs ≡ ok os
    → hunks_at path os ≡ hunks_for path bs
unfolding merge_patch finalize_patch
merge_patch-hunks path [] os h = absurd (cc)
merge_patch-hunks path (b ∷ bs) os h =
    let (merged, e, f) = >>=-eq-ok (merge_blocks (b ∷ bs) []) finalize_patch os h in
    let (u, g, k) =
      >>=-eq-ok (creations_filled merged)
        (λ _. validate_patch_paths (map path_of merged) >>= λ _. ok merged) os f in
    let (v, l, m) = >>=-eq-ok (validate_patch_paths (map path_of merged)) (λ _. ok merged) os k in
    let same : os ≡ merged = cc in rw same (merge_blocks-hunks path (b ∷ bs) [] merged e)

then_merge-some :
    (o : Option (Parsed (List Block)))
    → ((p : Parsed (List Block)) × (o ≡ some p))
    → (p : Parsed (List Operation)) × (then_merge o ≡ some p)
then_merge-some o (p, e) = ((p >>= merge_patch), rw e refl)

parse_lines-some :
    (l : Parsed (List Text)) → (p : Parsed (List Operation)) × (parse_lines l ≡ some p)
unfolding parse_lines
parse_lines-some (bad e) = (bad e, refl)
parse_lines-some (ok ls) = then_merge-some (read_blocks ls) (read_blocks-some ls)

-- Parsing ends on any text, in operations or in an error: the loop over the lines takes one at
-- least in each round.
pub parse_patch-some : (text : Text) → (p : Parsed (List Operation)) × (parse_patch text ≡ some p)
unfolding parse_patch
parse_patch-some text = parse_lines-some (patch_lines text)

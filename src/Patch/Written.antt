-- ===== src/Patch/Written.antt =====
-- Blocks written as lines are read back.
use mathlib.Core.List.{append_assoc, append-nil}
use parrot_coder.Base.{
  ℕ, zero, suc, ◌+◌, ◌<◌, ◌≡◌, refl, ap, sym, ◌∙◌, List, [], ◌∷◌, ◌++◌, Text, Bool, true, false,
  length, arith, some, is_empty, text_eq, text_eq_refl, has_prefix, codes, All, length-append,
}
use parrot_coder.Patch.Spaces.{trim_unicode}
use parrot_coder.Patch.Blocks.{
  ok, Block, lines_before, lines_from, Reading, goes, replace_section, search_section, read_block,
  read_line, read_round, read_rounds, read_blocks, is_patch_divider, is_replace_line, search_marker,
  replace_marker, is_noise, valid_patch_path,
}

abbrev divider : Text
divider = codes "======="

-- A block with its path line, as a patch has it.
abbrev pub block_lines : Block → List Text
block_lines b =
    b.path ∷ search_marker ∷ (b.search ++ (divider ∷ (b.replace ++ (replace_marker ∷ []))))

abbrev pub patch_text : List Block → List Text
patch_text [] = []
patch_text (b ∷ bs) = block_lines b ++ patch_text bs

-- What the format can say: a path that stands trimmed on its line and is clean, and no line that
-- closes the section it is in.
pub record IsWritable (b : Block) : Type 0 where
  pub trimmed : trim_unicode b.path ≡ b.path
  pub some_path : is_empty b.path ≡ false
  pub loud : is_noise b.path ≡ false
  pub no_marker : text_eq b.path search_marker ≡ false
  pub clean : valid_patch_path b.path ≡ true
  pub searches : All (λ l. is_patch_divider l ≡ false) b.search
  pub replaces : All (λ l. is_replace_line l ≡ false) b.replace

-- The blocks with the numbers of their marker lines; the first path is line `i` from 0.
abbrev pub located : ℕ → List Block → List Block
located i [] = []
located i (b ∷ bs) =
    record b { line = i + 1 + 1 } ∷ located (i + 1 + 1 + length b.search + length b.replace + 2) bs

module _ (stop : Text → Bool) (l : Text) (after : List Text) (stops : stop l ≡ true) where
  lines_before-append :
      (ls : List Text) → All (λ x. stop x ≡ false) ls → lines_before stop (ls ++ (l ∷ after)) ≡ ls
  unfolding lines_before
  lines_before-append [] a = rw stops refl
  lines_before-append (x ∷ ls) a = rw a.0 (ap (λ r. x ∷ r) (lines_before-append ls a.1))

  lines_from-append :
      (ls : List Text)
      → All (λ x. stop x ≡ false) ls
      → lines_from stop (ls ++ (l ∷ after)) ≡ l ∷ after
  unfolding lines_from
  lines_from-append [] a = rw stops refl
  lines_from-append (x ∷ ls) a = rw a.0 (lines_from-append ls a.1)

divider-stops : is_patch_divider divider ≡ true
unfolding is_patch_divider trim_unicode
divider-stops = refl

marker-stops : is_replace_line replace_marker ≡ true
unfolding is_replace_line trim_unicode text_eq
marker-stops = refl

-- The block behind its marker line is read whole.
read_block-lines :
    (r : Reading) (search replace after : List Text)
    → is_empty r.path ≡ false
    → All (λ l. is_patch_divider l ≡ false) search
    → All (λ l. is_replace_line l ≡ false) replace
    → read_block r (search ++ (divider ∷ (replace ++ (replace_marker ∷ after))))
      ≡ goes (record r {
        index = r.index + 1 + length search + length replace + 2;
        rest = after;
        blocks =
            r.blocks
            ++ (record { path = r.path; line = r.index + 1; search = search; replace = replace }
                ∷ []);
      })
unfolding read_block search_section replace_section
read_block-lines r search replace after p s t =
    rw
      (
        p,
        lines_before-append is_patch_divider divider (replace ++ (replace_marker ∷ after))
            divider-stops search s,
        lines_from-append is_patch_divider divider (replace ++ (replace_marker ∷ after))
            divider-stops search s,
        lines_before-append is_replace_line replace_marker after marker-stops replace t,
        lines_from-append is_replace_line replace_marker after marker-stops replace t,
      )
      refl

-- One round whose line is read.
step_round :
    (i n : ℕ) (l : Text) (path : Text) (blocks : List Block) (after : List Text) (r' : Reading)
    → read_line
        (record { index = i; rest = l ∷ after; path = path; blocks = blocks })
        (trim_unicode l)
        after
      ≡ goes r'
    → read_rounds (suc n) (record { index = i; rest = l ∷ after; path = path; blocks = blocks })
      ≡ read_rounds n r'
unfolding read_rounds read_round
step_round i n l path blocks after r' e = rw (read_rounds, e) refl

path_round :
    (b : Block) (i n : ℕ) (path : Text) (blocks : List Block) (after : List Text)
    → IsWritable b
    → read_rounds
        (suc n)
        (record { index = i; rest = b.path ∷ after; path = path; blocks = blocks })
      ≡ read_rounds n (record { index = i + 1; rest = after; path = b.path; blocks = blocks })
unfolding read_line
path_round b i n path blocks after w =
    step_round i n b.path path blocks after
      (record { index = i + 1; rest = after; path = b.path; blocks = blocks })
      (rw (w.trimmed, w.loud, w.no_marker, w.clean) refl)

marker_quiet : is_noise search_marker ≡ false
unfolding has_prefix
marker_quiet = refl

marker_trimmed : trim_unicode search_marker ≡ search_marker
unfolding trim_unicode
marker_trimmed = refl

marker_round :
    (i n : ℕ) (path : Text) (blocks : List Block) (after : List Text) (r' : Reading)
    → read_block
        (record { index = i; rest = search_marker ∷ after; path = path; blocks = blocks })
        after
      ≡ goes r'
    → read_rounds
        (suc n)
        (record { index = i; rest = search_marker ∷ after; path = path; blocks = blocks })
      ≡ read_rounds n r'
unfolding read_line
marker_round i n path blocks after r' e =
    step_round i n search_marker path blocks after r'
      (rw (marker_trimmed) (rw (marker_quiet, text_eq_refl search_marker) e))

block_round :
    (b : Block) (i n : ℕ) (path : Text) (blocks : List Block) (after : List Text)
    → IsWritable b
    → read_rounds
        (suc (suc n))
        (record { index = i; rest = block_lines b ++ after; path = path; blocks = blocks })
      ≡ read_rounds n (record {
        index = i + 1 + 1 + length b.search + length b.replace + 2;
        rest = after;
        path = b.path;
        blocks = blocks ++ (record b { line = i + 1 + 1 } ∷ []);
      })
block_round b i n path blocks after w =
    path_round b i (suc n) path blocks _ w ∙ marker_round (i + 1) n b.path blocks _ _ read
  where
    flat :
        (b.search ++ (divider ∷ (b.replace ++ (replace_marker ∷ [])))) ++ after
        ≡ b.search ++ (divider ∷ (b.replace ++ (replace_marker ∷ after)))
    flat = simp append_assoc

    read :
        read_block
          (record {
            index = i + 1;
            rest =
                search_marker
                ∷ ((b.search ++ (divider ∷ (b.replace ++ (replace_marker ∷ [])))) ++ after);
            path = b.path;
            blocks = blocks;
          })
          ((b.search ++ (divider ∷ (b.replace ++ (replace_marker ∷ [])))) ++ after)
        ≡ goes (record {
          index = i + 1 + 1 + length b.search + length b.replace + 2;
          rest = after;
          path = b.path;
          blocks = blocks ++ (record b { line = i + 1 + 1 } ∷ []);
        })
    read = rw flat (
        read_block-lines
          (record {
            index = i + 1;
            rest =
                search_marker ∷ (b.search ++ (divider ∷ (b.replace ++ (replace_marker ∷ after))));
            path = b.path;
            blocks = blocks;
          })
          b.search b.replace after w.some_path w.searches w.replaces)

read_rounds-written :
    (bs : List Block) (i n : ℕ) (path : Text) (blocks : List Block)
    → All IsWritable bs
    → length (patch_text bs) < n
    → read_rounds n (record { index = i; rest = patch_text bs; path = path; blocks = blocks })
      ≡ some (ok (blocks ++ located i bs))
unfolding read_rounds read_round
read_rounds-written [] i zero path blocks w h = absurd (omega arith)
read_rounds-written [] i (suc n) path blocks w h =
    ap (λ (l : List Block). some (ok l)) (sym (append-nil blocks))
read_rounds-written (b ∷ bs) i zero path blocks w h = absurd (omega arith)
read_rounds-written (b ∷ bs) i (suc zero) path blocks w h = absurd (omega arith)
read_rounds-written (b ∷ bs) i (suc (suc n)) path blocks w h =
    let next : ℕ = i + 1 + 1 + length b.search + length b.replace + 2 in
    let more : List Block = blocks ++ (record b { line = i + 1 + 1 } ∷ []) in
    let short : length (patch_text bs) < n =
      omega (arith, length-append (block_lines b) (patch_text bs)) in
    block_round b i n path blocks (patch_text bs) w.0
    ∙ (read_rounds-written bs next n b.path more w.1 short
        ∙ ap (λ (l : List Block). some (ok l))
            (append_assoc blocks (record b { line = i + 1 + 1 } ∷ []) (located next bs)))

-- Blocks that the format can say, written as lines with their paths, are read back: the same
-- paths, SEARCH and REPLACE sections in the same order, with the numbers of their lines.
pub read_blocks-written :
    (bs : List Block) → All IsWritable bs → read_blocks (patch_text bs) ≡ some (ok (located 0 bs))
unfolding read_blocks
read_blocks-written bs w =
    read_rounds-written bs 0 (suc (length (patch_text bs))) [] [] w (omega arith)

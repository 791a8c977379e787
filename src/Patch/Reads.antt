-- ===== src/Patch/Reads.antt =====
-- The loop over the lines of a patch ends, and reads the blocks that a patch is written from.
use parrot_coder.Base.{
  ℕ, zero, suc, ◌+◌, ◌≤◌, ◌<◌, ◌≡◌, inl, inr, refl, List, [], ◌∷◌, Text, Bool, length, arith,
  Bool-cases, some, is_empty, text_eq,
}
use parrot_coder.Patch.Spaces.{trim_unicode}
use parrot_coder.Patch.Blocks.{
  Parsed, ok, bad, Block, lines_before, lines_from, Reading, Next, goes, fails, replace_section,
  search_section, read_block, read_line, read_round, read_rounds, reading, read_blocks,
  is_patch_divider, is_replace_line, search_marker, is_noise, valid_patch_path,
}

lines_from-le : (stop : Text → Bool) (ls : List Text) → length (lines_from stop ls) ≤ length ls
unfolding lines_from
lines_from-le stop [] = omega arith
lines_from-le stop (l ∷ ls) = ground (arith, lines_from-le stop ls)

-- A round takes a line at least.
abbrev Shorter : ℕ → Next → Type 0
Shorter n (goes r) = length r.rest ≤ n
Shorter n (fails e) = Unit {0}

replace_section-Shorter :
    (r : Reading) (line : ℕ) (search replace from : List Text) (n : ℕ)
    → length from ≤ n
    → Shorter n (replace_section r line search replace from)
unfolding replace_section
replace_section-Shorter r line search replace [] n h = tt
replace_section-Shorter r line search replace (c ∷ after) n h = omega arith

search_section-Shorter :
    (r : Reading) (line : ℕ) (search from : List Text) (n : ℕ)
    → length from ≤ n
    → Shorter n (search_section r line search from)
unfolding search_section
search_section-Shorter r line search [] n h = tt
search_section-Shorter r line search (d ∷ after) n h =
    replace_section-Shorter r line search (lines_before is_replace_line after)
      (lines_from is_replace_line after) n (omega (arith, lines_from-le is_replace_line after))

read_line-Shorter :
    (r : Reading) (line : Text) (after : List Text)
    → Shorter (length after) (read_line r line after)
unfolding read_line read_block
read_line-Shorter r line after = elim (Bool-cases (is_noise line)) [
  | inl e ↦ rw e (omega arith)
  | inr e ↦ elim (Bool-cases (text_eq line search_marker)) [
    | inl m ↦ elim (Bool-cases (is_empty r.path)) [
      | inl p ↦ rw (e, m, p) tt
      | inr p ↦
          rw (e, m, p)
            (search_section-Shorter r (r.index + 1) (lines_before is_patch_divider after)
              (lines_from is_patch_divider after) (length after)
              (lines_from-le is_patch_divider after))
    ]
    | inr m ↦ elim (Bool-cases (valid_patch_path line)) [
      | inl v ↦ rw (e, m, v) (omega arith)
      | inr v ↦ rw (e, m, v) tt
    ]
  ]
]

-- The rounds that follow, by what this one comes to.
take_round :
    (n : ℕ) (r : Reading) (rest : List Text)
    → length rest ≤ n
    → r.rest ≡ rest
    → ((r' : Reading)
        → length r'.rest < n
        → (p : Parsed (List Block)) × (read_rounds n r' ≡ some p))
    → (p : Parsed (List Block)) × (read_rounds (suc n) r ≡ some p)
unfolding read_rounds read_round
take_round n r [] h e later = (ok r.blocks, rw (read_rounds, e) refl)
take_round n r (l ∷ after) h e later =
    go (read_line r (trim_unicode l) after) refl (read_line-Shorter r (trim_unicode l) after)
  where
    go :
        (t : Next)
        → read_line r (trim_unicode l) after ≡ t
        → Shorter (length after) t
        → (p : Parsed (List Block)) × (read_rounds (suc n) r ≡ some p)
    go (goes r') q short =
        let (p, f) = later r' (omega arith) in (p, rw (read_rounds, e) (rw (q) f))
    go (fails why) q short = (bad why, rw (read_rounds, e) (rw (q) refl))

-- With more rounds than lines the loop ends.
read_rounds-some :
    (n : ℕ) (r : Reading)
    → length r.rest < n
    → (p : Parsed (List Block)) × (read_rounds n r ≡ some p)
read_rounds-some zero r h = absurd (omega arith)
read_rounds-some (suc n) r h = take_round n r r.rest (omega arith) refl (read_rounds-some n)

-- The loop over the lines of any patch ends, in blocks or in an error: each round takes a line.
pub read_blocks-some :
    (lines : List Text) → (p : Parsed (List Block)) × (read_blocks lines ≡ some p)
unfolding read_blocks
read_blocks-some lines = read_rounds-some (suc (length lines)) (reading lines) (omega arith)

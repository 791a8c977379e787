-- ===== src/Queue/Names.antt =====
-- Queue names and file names: validName, path and the scan of directory entries.
use Prim.Native.Nat.{ℕ}
use parrot_coder.Base.{
  ◌≡◌, Bool, false, ◌&&◌, ◌||◌, List, [], ◌∷◌, ◌++◌, Option, none, some, Text, codes, text_eq,
  text_eq_iff, leb, ◌==◌, if◌then◌else◌, all, arith, length, length-append, ap,
}

-- a-z and 0-9
abbrev pub is_word_byte : ℕ → Bool
is_word_byte c = (leb b'a' c && leb c b'z') || (leb b'0' c && leb c b'9')

abbrev pub extend_head : ℕ → List Text → List Text
extend_head c [] = (c ∷ []) ∷ []
extend_head c (part ∷ parts) = (c ∷ part) ∷ parts

-- strings.Split by a one-byte separator.
unfoldable pub split : ℕ → Text → List Text
split sep [] = [] ∷ []
split sep (c ∷ s) = let rest = split sep s in if c == sep then [] ∷ rest else extend_head c rest

abbrev pub is_part : Text → Bool
is_part [] = false
is_part (c ∷ s) = is_word_byte c && all is_word_byte s

unfoldable pub valid_name : Text → Bool
unfolding split
valid_name name = all is_part (split b'-' name)

abbrev pub jsonl : Text
jsonl = codes ".jsonl"

abbrev pub file_name : Text → Text
file_name name = name ++ jsonl

abbrev pub lock_name : Text → Text
lock_name name = file_name name ++ codes ".lock"

abbrev cons_some : ℕ → Option Text → Option Text
cons_some c none = none
cons_some c (some s) = some (c ∷ s)

-- filepath.Ext is ".jsonl" just when the name ends in ".jsonl"; `some` holds what TrimSuffix leaves.
unfoldable pub cut_suffix : Text → Text → Option Text
cut_suffix suffix [] = if text_eq [] suffix then some [] else none
cut_suffix suffix (c ∷ s) =
    let rest = cut_suffix suffix s in if text_eq (c ∷ s) suffix then some [] else cons_some c rest

suffix_longer : (c : ℕ) (s suffix : Text) → text_eq (c ∷ (s ++ suffix)) suffix ≡ false
suffix_longer c s suffix = ground (
  arith,
  text_eq_iff (c ∷ (s ++ suffix)) suffix,
  λ (e : (c ∷ (s ++ suffix)) ≡ suffix). ap length e,
  length-append s suffix,
)

cut_suffix_self : (suffix : Text) → cut_suffix suffix suffix ≡ some []
unfolding cut_suffix
cut_suffix_self [] = ground (arith, text_eq_iff [] [])
cut_suffix_self (c ∷ s) = ground (arith, text_eq_iff (c ∷ s) (c ∷ s))

-- The file of a queue gives back its name.
pub cut_suffix-append : (s suffix : Text) → cut_suffix suffix (s ++ suffix) ≡ some s
unfolding cut_suffix
cut_suffix-append [] suffix = cut_suffix_self suffix
cut_suffix-append (c ∷ s) suffix =
    ground (arith, suffix_longer c s suffix, cut_suffix-append s suffix)

-- ===== src/Patch/Spaces.antt =====
-- The comparators of seekPatchSequence: trimming of UTF-8 text at its ends, and normalizePatchUnicode.
use parrot_coder.Base.{
  ℕ, zero, suc, List, [], ◌∷◌, ◌++◌, Text, Bool, ◌||◌, ◌&&◌, ◌==◌, leb, if◌then◌else◌, length, drop,
  reverse, Option, none, some, text_eq, is_space,
}

-- isPatchSpace.
abbrev pub is_patch_space : ℕ → Bool
is_patch_space c = c == 32 || c == 9 || c == 13 || c == 10

-- Three bytes that encode a space of unicode.IsSpace: U+1680, U+2000 to U+200A, U+2028, U+2029,
-- U+202F, U+205F and U+3000.
is_wide_space : ℕ → ℕ → ℕ → Bool
is_wide_space a b c =
    (a == 225 && b == 154 && c == 128)
    || (a == 226 && b == 128 && ((leb 128 c && leb c 138) || c == 168 || c == 169 || c == 175))
    || (a == 226 && b == 129 && c == 159)
    || (a == 227 && b == 128 && c == 128)

-- U+0085 and U+00A0.
is_pair_space : ℕ → ℕ → Bool
is_pair_space a b = a == 194 && (b == 133 || b == 160)

wide_size : ℕ → ℕ → Text → ℕ
unfolding is_wide_space
wide_size a b [] = 0
wide_size a b (c ∷ s) = if is_wide_space a b c then 3 else 0

pair_size : ℕ → Text → ℕ
unfolding is_pair_space wide_size
pair_size a [] = 0
pair_size a (b ∷ s) = if is_pair_space a b then 2 else wide_size a b s

-- The bytes of the space that a text starts with, 0 if it starts with none.
space_size : Text → ℕ
unfolding pair_size
space_size [] = 0
space_size (a ∷ s) = if is_space a then 1 else pair_size a s

wide_size_back : ℕ → ℕ → Text → ℕ
unfolding is_wide_space
wide_size_back c b [] = 0
wide_size_back c b (a ∷ s) = if is_wide_space a b c then 3 else 0

pair_size_back : ℕ → Text → ℕ
unfolding is_pair_space wide_size_back
pair_size_back b [] = 0
pair_size_back b (a ∷ s) = if is_pair_space a b then 2 else wide_size_back b a s

-- The same at the end of a text, which is given from its last byte on.
space_size_back : Text → ℕ
unfolding pair_size_back
space_size_back [] = 0
space_size_back (a ∷ s) = if is_space a then 1 else pair_size_back a s

patch_space_size : Text → ℕ
patch_space_size [] = 0
patch_space_size (c ∷ s) = if is_patch_space c then 1 else 0

-- Drop what `size` measures for as long as it measures something; each round drops a byte at least.
drop_spaces : (Text → ℕ) → ℕ → Text → Text
drop_spaces size zero s = s
drop_spaces size (suc n) s = elim (size s) [
  | zero ↦ s
  | suc k ↦ drop_spaces size n (drop (suc k) s)
]

-- strings.TrimRightFunc(_, isPatchSpace).
unfoldable pub trim_patch_right : Text → Text
unfolding drop_spaces patch_space_size
trim_patch_right s = reverse (drop_spaces patch_space_size (length s) (reverse s))

-- strings.TrimSpace.
unfoldable pub trim_unicode : Text → Text
unfolding drop_spaces space_size space_size_back
trim_unicode s =
    let left = drop_spaces space_size (length s) s in
    reverse (drop_spaces space_size_back (length left) (reverse left))

-- What stands for the character with the bytes 226, 128 and `c`.
punctuation : ℕ → Option Text
punctuation c =
    if leb 152 c && leb c 155
    then some (39 ∷ [])
    else if leb 156 c && leb c 159
    then some (34 ∷ [])
    else if leb 144 c && leb c 149
    then some (45 ∷ [])
    else if c == 166
    then some (46 ∷ 46 ∷ 46 ∷ [])
    else none

third_byte : ℕ → Text → Option (Text × ℕ)
unfolding punctuation
third_byte a [] = none
third_byte a (c ∷ s) =
    if a == 128 then elim (punctuation c) [ none ↦ none | some t ↦ some (t, 2) ] else none

-- The replacement of the character that starts with the byte `a`, and its bytes after `a`.
replacement_of : ℕ → Text → Option (Text × ℕ)
unfolding third_byte
replacement_of a [] = none
replacement_of a (b ∷ s) =
    if a == 194 && b == 160 then some (32 ∷ [], 1) else if a == 226 then third_byte b s else none

-- Go on from the byte `c`, past the bytes `skip` of a character that is replaced already.
replace_from : ℕ → Text → Text
unfolding replacement_of
replace_from skip [] = []
replace_from zero (c ∷ s) = elim (replacement_of c s) [
  | none ↦ c ∷ replace_from zero s
  | some (t, rest) ↦ t ++ replace_from rest s
]
replace_from (suc skip) (c ∷ s) = replace_from skip s

unfoldable pub normalize_patch_unicode : Text → Text
unfolding replace_from
normalize_patch_unicode = replace_from zero

-- The comparators, the strictest first.
abbrev pub Comparator : Type 0
Comparator = Text → Text → Bool

unfoldable pub same_right_trimmed : Comparator
unfolding trim_patch_right
same_right_trimmed a b = text_eq (trim_patch_right a) (trim_patch_right b)

unfoldable pub same_trimmed : Comparator
unfolding trim_unicode
same_trimmed a b = text_eq (trim_unicode a) (trim_unicode b)

unfoldable pub same_normalized : Comparator
unfolding trim_unicode normalize_patch_unicode
same_normalized a b =
    text_eq (normalize_patch_unicode (trim_unicode a)) (normalize_patch_unicode (trim_unicode b))

unfoldable pub comparators : List Comparator
unfolding same_right_trimmed same_trimmed same_normalized
comparators = text_eq ∷ same_right_trimmed ∷ same_trimmed ∷ same_normalized ∷ []

-- ===== src/Diff/Common.antt =====
-- What two texts have in common at their start and at their end.
use parrot_coder.Base.{
  ℕ, ◌-◌, ◌≡◌, ◌≤◌, inl, inr, refl, sym, ap, ◌∙◌, List, [], ◌∷◌, Text, text_eq, text_eq_iff,
  Bool-cases, arith, length, take, drop, reverse, length-reverse, take-reverse,
}
use mathlib.Core.List.{reverse-reverse}
use parrot_coder.Diff.Script.{common_prefix, common_suffix}

pub take-common_prefix :
    (as' bs : List Text) → take (common_prefix as' bs) as' ≡ take (common_prefix as' bs) bs
unfolding common_prefix
take-common_prefix [] bs = refl
take-common_prefix (a ∷ as') [] = refl
take-common_prefix (a ∷ as') (b ∷ bs) = elim (Bool-cases (text_eq a b)) [
  | inr q ↦ rw q refl
  | inl q ↦ rw q (
      ap (λ t. t ∷ take (common_prefix as' bs) as') ((text_eq_iff a b).0 q)
      ∙ ap (λ r. b ∷ r) (take-common_prefix as' bs))
]

pub common_prefix_le :
    (as' bs : List Text) → (common_prefix as' bs ≤ length as') × (common_prefix as' bs ≤ length bs)
unfolding common_prefix
common_prefix_le [] bs = (omega arith, omega arith)
common_prefix_le (a ∷ as') [] = (omega arith, omega arith)
common_prefix_le (a ∷ as') (b ∷ bs) = elim (Bool-cases (text_eq a b)) [
  | inr q ↦ rw q (omega arith, omega arith)
  | inl q ↦ let (h, k) = common_prefix_le as' bs in rw q (omega (arith, h), omega (arith, k))
]

pub common_suffix_le :
    (as' bs : List Text) → (common_suffix as' bs ≤ length as') × (common_suffix as' bs ≤ length bs)
unfolding common_suffix
common_suffix_le as' bs =
    let (h, k) = common_prefix_le (reverse as') (reverse bs) in
    (omega (arith, h, length-reverse as'), omega (arith, k, length-reverse bs))

pub drop-common_suffix :
    (as' bs : List Text)
    → drop (length as' - common_suffix as' bs) as' ≡ drop (length bs - common_suffix as' bs) bs
unfolding common_suffix
drop-common_suffix as' bs =
    let (h, k) = common_prefix_le (reverse as') (reverse bs) in
    let n : ℕ = common_prefix (reverse as') (reverse bs) in
    sym (reverse-reverse (drop (length as' - n) as'))
    ∙ ap reverse (
        sym (take-reverse n as' (omega (arith, h, length-reverse as')))
        ∙ take-common_prefix (reverse as') (reverse bs)
        ∙ take-reverse n bs (omega (arith, k, length-reverse bs)))
    ∙ reverse-reverse (drop (length bs - n) bs)

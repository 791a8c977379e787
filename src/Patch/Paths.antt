-- ===== src/Patch/Paths.antt =====
-- validatePatchPaths: what the check of sorted neighbours finds, and what it lets through.
use mathlib.Core.HLevel.{⊥_prop}
use mathlib.Core.Logic.Or
use mathlib.Core.List.Pairwise
use mathlib.Core.List.{Mem, Nodup, mem-cons, not-mem-nil}
use mathlib.Core.List.Perm
use parrot_coder.Base.{
  ℕ, ◌≡◌, ◌≢◌, refl, ap, sym, ◌∙◌, inl, inr, List, [], ◌∷◌, ◌++◌, Text, true, false, text_eq,
  text_lt, map, text_eq_iff, text_lt_irrefl, text_lt_asym, text_lt_trans, text_lt_total, arith,
  Bool-cases, has_prefix, clean_path, All, All-map, sort_by, sort_by-perm, sort_by-IsSorted,
  IsSorted,
}
use parrot_coder.Patch.Blocks.{ok}
use parrot_coder.Patch.Operations.{check_from, check_paths, validate_patch_paths}

-- Each path is below all that follow.
Ascending : List Text → Type 0
Ascending [] = Unit {0}
Ascending (x ∷ xs) = All (λ y. text_lt x y ≡ true) xs × Ascending xs

check_from-above :
    (previous : Text) (paths : List Text)
    → IsSorted (λ t. t) (previous ∷ paths)
    → check_from previous paths ≡ ok tt
    → Ascending (previous ∷ paths)
unfolding check_from Ascending
check_from-above previous [] s h = (tt, tt)
check_from-above previous (p ∷ ps) s h = elim (Bool-cases (text_eq p previous)) [
  | inl e ↦ absurd (ground arith)
  | inr e ↦ elim (Bool-cases (has_prefix p (previous ++ (47 ∷ [])))) [
    | inl f ↦ absurd (ground arith)
    | inr f ↦
        let apart : previous ≢ p = λ q. ground (arith, (text_eq_iff p previous).1 (sym q)) in
        let above : text_lt previous p ≡ true =
          text_lt_total p previous s.0.0 (λ q. apart (sym q)) in
        let rest : Ascending (p ∷ ps) = check_from-above p ps s.1 (ground arith) in
        ((above, All-map (λ y l. text_lt_trans previous p y above l) ps rest.0), rest)
  ]
]

above_apart :
    (x : Text) (xs : List Text) → All (λ y. text_lt x y ≡ true) xs → (y : Text) → Mem y xs → x ≢ y
above_apart x [] a y m q = absurd (not-mem-nil m)
above_apart x (z ∷ zs) a y m q =
    Or.elim ⊥_prop (mem-cons.0 m)
      (λ here. ground (arith, ap (text_lt x) (q ∙ here), text_lt_irrefl x, a.0))
      (λ later. above_apart x zs a.1 y later q)

Ascending-Nodup : (xs : List Text) → Ascending xs → Nodup xs
unfolding Ascending
Ascending-Nodup [] a = Pairwise.nil
Ascending-Nodup (x ∷ xs) a = Pairwise.cons (above_apart x xs a.0) (Ascending-Nodup xs a.1)

check_paths-Nodup :
    (paths : List Text) → IsSorted (λ t. t) paths → check_paths paths ≡ ok tt → Nodup paths
unfolding check_paths
check_paths-Nodup [] s h = Pairwise.nil
check_paths-Nodup (p ∷ ps) s h = Ascending-Nodup (p ∷ ps) (check_from-above p ps s h)

-- Paths that pass the check are different files: no two of them are one path once they are clean.
pub validate_patch_paths-Nodup :
    (paths : List Text) → validate_patch_paths paths ≡ ok tt → Nodup (map clean_path paths)
unfolding validate_patch_paths
validate_patch_paths-Nodup paths h = Perm.nodup (sort_by-perm (λ t. t) (map clean_path paths)) (
    check_paths-Nodup (sort_by (λ t. t) (map clean_path paths))
      (sort_by-IsSorted (λ t. t) (map clean_path paths)) h)

-- A path, one with '-' behind it, and one in a directory of its name.
abbrev pub beside : Text → Text → Text
beside p s = p ++ (45 ∷ s)

abbrev pub inside : Text → Text → Text
inside p t = p ++ (47 ∷ t)

longer_above : (p s : Text) (c : ℕ) → text_lt p (p ++ (c ∷ s)) ≡ true
unfolding text_lt
longer_above [] s c = refl
longer_above (a ∷ p) s c = ground (arith, longer_above p s c)

dash_below : (p s t : Text) → text_lt (p ++ (45 ∷ s)) (p ++ (47 ∷ t)) ≡ true
unfolding text_lt
dash_below [] s t = refl
dash_below (a ∷ p) s t = ground (arith, dash_below p s t)

dash_outside : (p s : Text) → has_prefix (p ++ (45 ∷ s)) (p ++ (47 ∷ [])) ≡ false
unfolding has_prefix
dash_outside [] s = refl
dash_outside (a ∷ p) s = ground (arith, dash_outside p s)

slash_outside : (p s t : Text) → has_prefix (p ++ (47 ∷ t)) ((p ++ (45 ∷ s)) ++ (47 ∷ [])) ≡ false
unfolding has_prefix
slash_outside [] s t = refl
slash_outside (a ∷ p) s t = ground (arith, slash_outside p s t)

lt_differs : (x y : Text) → text_lt x y ≡ true → text_eq y x ≡ false
lt_differs x y h = elim (Bool-cases (text_eq y x)) [
  | inl e ↦ absurd (ground (arith, text_lt_irrefl x, ap (text_lt x) ((text_eq_iff y x).0 e)))
  | inr e ↦ e
]

sort-three :
    (x y z : Text)
    → text_lt x y ≡ true
    → text_lt y z ≡ true
    → sort_by (λ t. t) (x ∷ y ∷ z ∷ []) ≡ x ∷ y ∷ z ∷ []
unfolding sort_by
sort-three x y z h k = rw (text_lt_asym y z k) (rw (text_lt_asym x y h) refl)

inside_below : (p t : Text) → has_prefix (p ++ (47 ∷ t)) (p ++ (47 ∷ [])) ≡ true
unfolding has_prefix
inside_below [] t = refl
inside_below (a ∷ p) t = ground (arith, inside_below p t)

-- The check looks at sorted neighbours only: of a path, one with '-' behind it and one below it,
-- all clean, it lets all three through, although the third is inside the first.
pub validate_patch_paths-misses :
    (p s t : Text)
    → clean_path p ≡ p
    → clean_path (beside p s) ≡ beside p s
    → clean_path (inside p t) ≡ inside p t
    → (validate_patch_paths (p ∷ beside p s ∷ inside p t ∷ []) ≡ ok tt)
      × (has_prefix (inside p t) (p ++ (47 ∷ [])) ≡ true)
unfolding validate_patch_paths check_paths check_from
validate_patch_paths-misses p s t a b c = (
  rw (a, b, c)
      (rw (sort-three p (beside p s) (inside p t) (longer_above p s 45) (dash_below p s t)) (
        rw
          (
            lt_differs p (beside p s) (longer_above p s 45),
            dash_outside p s,
            lt_differs (beside p s) (inside p t) (dash_below p s t),
            slash_outside p s t,
          )
          refl)),
  inside_below p t,
)

-- ===== src/Diff/Sides.antt =====
-- The two sides of an edit script, and the numbers of its lines.
use parrot_coder.Base.{
  ℕ, suc, ◌+◌, ◌-◌, ◌≡◌, refl, ap, subst, ◌∙◌, List, [], ◌∷◌, ◌++◌, Text, arith, length, take, drop,
  length-take, take-append-drop,
}
use parrot_coder.Diff.Script.{
  EditKind, same, removed, added, Edit, common_prefix, common_suffix, keep, removals, additions,
  script_after, fallback_edit_script,
}
use parrot_coder.Diff.Common.{take-common_prefix, common_prefix_le, drop-common_suffix}

-- The lines of a kind of edit on the old side, and on the new side.
abbrev pub old_lines : EditKind → Text → List Text → List Text
old_lines same t ts = t ∷ ts
old_lines removed t ts = t ∷ ts
old_lines added t ts = ts

abbrev pub new_lines : EditKind → Text → List Text → List Text
new_lines same t ts = t ∷ ts
new_lines removed t ts = ts
new_lines added t ts = t ∷ ts

-- The text before the script, and after it.
abbrev pub old_side : List Edit → List Text
old_side [] = []
old_side (e ∷ es) = old_lines e.kind e.text (old_side es)

abbrev pub new_side : List Edit → List Text
new_side [] = []
new_side (e ∷ es) = new_lines e.kind e.text (new_side es)

abbrev after_old : EditKind → ℕ → ℕ
after_old same n = suc n
after_old removed n = suc n
after_old added n = n

abbrev after_new : EditKind → ℕ → ℕ
after_new same n = suc n
after_new removed n = n
after_new added n = suc n

-- Each edit has the numbers of the lines that come next on both sides.
abbrev pub IsNumbered : ℕ → ℕ → List Edit → Type 0
IsNumbered old new [] = Unit {0}
IsNumbered old new (e ∷ es) =
    (e.old_line ≡ old)
    × (e.new_line ≡ new)
    × IsNumbered (after_old e.kind old) (after_new e.kind new) es

old_lines-append :
    (k : EditKind) (t : Text) (ts us : List Text)
    → old_lines k t (ts ++ us) ≡ old_lines k t ts ++ us
old_lines-append same t ts us = refl
old_lines-append removed t ts us = refl
old_lines-append added t ts us = refl

new_lines-append :
    (k : EditKind) (t : Text) (ts us : List Text)
    → new_lines k t (ts ++ us) ≡ new_lines k t ts ++ us
new_lines-append same t ts us = refl
new_lines-append removed t ts us = refl
new_lines-append added t ts us = refl

old_side-append : (es fs : List Edit) → old_side (es ++ fs) ≡ old_side es ++ old_side fs
old_side-append [] fs = refl
old_side-append (e ∷ es) fs =
    ap (old_lines e.kind e.text) (old_side-append es fs)
    ∙ old_lines-append e.kind e.text (old_side es) (old_side fs)

new_side-append : (es fs : List Edit) → new_side (es ++ fs) ≡ new_side es ++ new_side fs
new_side-append [] fs = refl
new_side-append (e ∷ es) fs =
    ap (new_lines e.kind e.text) (new_side-append es fs)
    ∙ new_lines-append e.kind e.text (new_side es) (new_side fs)

-- The sides of the three runs.
keep_sides :
    (o n : ℕ) (ts : List Text) → (old_side (keep o n ts) ≡ ts) × (new_side (keep o n ts) ≡ ts)
unfolding keep
keep_sides o n [] = (refl, refl)
keep_sides o n (t ∷ ts) =
    let (h, k) = keep_sides (suc o) (suc n) ts in (ap (λ r. t ∷ r) h, ap (λ r. t ∷ r) k)

removals_sides :
    (o n : ℕ) (ts : List Text)
    → (old_side (removals o n ts) ≡ ts) × (new_side (removals o n ts) ≡ [])
unfolding removals
removals_sides o n [] = (refl, refl)
removals_sides o n (t ∷ ts) = let (h, k) = removals_sides (suc o) n ts in (ap (λ r. t ∷ r) h, k)

additions_sides :
    (o n : ℕ) (ts : List Text)
    → (old_side (additions o n ts) ≡ []) × (new_side (additions o n ts) ≡ ts)
unfolding additions
additions_sides o n [] = (refl, refl)
additions_sides o n (t ∷ ts) = let (h, k) = additions_sides o (suc n) ts in (h, ap (λ r. t ∷ r) k)

renumber :
    (o o' n n' : ℕ) (es : List Edit) → o ≡ o' → n ≡ n' → IsNumbered o n es → IsNumbered o' n' es
renumber o o' n n' es h k a =
    subst (λ (i : ℕ). IsNumbered i n' es) h (subst (λ (i : ℕ). IsNumbered o i es) k a)

-- A run with its numbers, followed by a numbered script.
keep-IsNumbered :
    (o n : ℕ) (ts : List Text) (es : List Edit)
    → IsNumbered (o + length ts) (n + length ts) es
    → IsNumbered o n (keep o n ts ++ es)
unfolding keep
keep-IsNumbered o n [] es h = renumber _ o _ n es (omega arith) (omega arith) h
keep-IsNumbered o n (t ∷ ts) es h = (
  refl,
  refl,
  keep-IsNumbered (suc o) (suc n) ts es (renumber _ _ _ _ es (omega arith) (omega arith) h),
)

removals-IsNumbered :
    (o n : ℕ) (ts : List Text) (es : List Edit)
    → IsNumbered (o + length ts) n es
    → IsNumbered o n (removals o n ts ++ es)
unfolding removals
removals-IsNumbered o n [] es h = renumber _ o n n es (omega arith) refl h
removals-IsNumbered o n (t ∷ ts) es h =
    (refl, refl, removals-IsNumbered (suc o) n ts es (renumber _ _ n n es (omega arith) refl h))

additions-IsNumbered :
    (o n : ℕ) (ts : List Text) (es : List Edit)
    → IsNumbered o (n + length ts) es
    → IsNumbered o n (additions o n ts ++ es)
unfolding additions
additions-IsNumbered o n [] es h = renumber o o _ n es refl (omega arith) h
additions-IsNumbered o n (t ∷ ts) es h =
    (refl, refl, additions-IsNumbered o (suc n) ts es (renumber o o _ _ es refl (omega arith) h))

-- The script of a whole change: applied to the old text it gives the new one, with right numbers.
pub record Edits (old new : List Text) (es : List Edit) : Type 0 where
  pub from_old : old_side es ≡ old
  pub to_new : new_side es ≡ new
  pub numbered : IsNumbered 1 1 es

-- Four runs after one another.
runs_old :
    (o₁ n₁ o₂ n₂ o₃ n₃ o₄ n₄ : ℕ) (as' bs cs ds : List Text)
    → old_side (keep o₁ n₁ as' ++ (removals o₂ n₂ bs ++ (additions o₃ n₃ cs ++ keep o₄ n₄ ds)))
      ≡ as' ++ (bs ++ ds)
runs_old o₁ n₁ o₂ n₂ o₃ n₃ o₄ n₄ as' bs cs ds =
    rw
      (
        old_side-append (keep o₁ n₁ as')
            (removals o₂ n₂ bs ++ (additions o₃ n₃ cs ++ keep o₄ n₄ ds)),
        old_side-append (removals o₂ n₂ bs) (additions o₃ n₃ cs ++ keep o₄ n₄ ds),
        old_side-append (additions o₃ n₃ cs) (keep o₄ n₄ ds),
        (keep_sides o₁ n₁ as').0,
        (removals_sides o₂ n₂ bs).0,
        (additions_sides o₃ n₃ cs).0,
        (keep_sides o₄ n₄ ds).0,
      )
      refl

runs_new :
    (o₁ n₁ o₂ n₂ o₃ n₃ o₄ n₄ : ℕ) (as' bs cs ds : List Text)
    → new_side (keep o₁ n₁ as' ++ (removals o₂ n₂ bs ++ (additions o₃ n₃ cs ++ keep o₄ n₄ ds)))
      ≡ as' ++ (cs ++ ds)
runs_new o₁ n₁ o₂ n₂ o₃ n₃ o₄ n₄ as' bs cs ds =
    rw
      (
        new_side-append (keep o₁ n₁ as')
            (removals o₂ n₂ bs ++ (additions o₃ n₃ cs ++ keep o₄ n₄ ds)),
        new_side-append (removals o₂ n₂ bs) (additions o₃ n₃ cs ++ keep o₄ n₄ ds),
        new_side-append (additions o₃ n₃ cs) (keep o₄ n₄ ds),
        (keep_sides o₁ n₁ as').1,
        (removals_sides o₂ n₂ bs).1,
        (additions_sides o₃ n₃ cs).1,
        (keep_sides o₄ n₄ ds).1,
      )
      refl

keep_all-IsNumbered : (o n : ℕ) (ts : List Text) → IsNumbered o n (keep o n ts)
unfolding keep
keep_all-IsNumbered o n [] = tt
keep_all-IsNumbered o n (t ∷ ts) = (refl, refl, keep_all-IsNumbered (suc o) (suc n) ts)

script_after-Edits :
    (start old new : List Text)
    → Edits (start ++ old) (start ++ new) (script_after (length start) start old new)
unfolding script_after
script_after-Edits start old new =
    let suffix : ℕ = common_suffix old new in
    let o : ℕ = length old - suffix in
    let n : ℕ = length new - suffix in
    record {
      from_old =
          runs_old _ _ _ _ _ _ _ _ start (take o old) (take n new) (drop o old)
          ∙ ap (λ r. start ++ r) (take-append-drop o old);
      to_new =
          runs_new _ _ _ _ _ _ _ _ start (take o old) (take n new) (drop o old)
          ∙ ap (λ r. start ++ (take n new ++ r)) (drop-common_suffix old new)
          ∙ ap (λ r. start ++ r) (take-append-drop n new);
      numbered = keep-IsNumbered 1 1 start _ (
          renumber _ _ _ _ _ (omega arith) (omega arith) (
            removals-IsNumbered (length start + 1) (length start + 1) (take o old) _ (
              renumber _ _ _ _ _ (omega (arith, length-take o old)) refl (
                additions-IsNumbered (length start + o + 1) (length start + 1) (take n new) _ (
                  renumber _ _ _ _ _ refl (omega (arith, length-take n new)) (
                    keep_all-IsNumbered (length start + o + 1) (length start + n + 1)
                      (drop o old)))))));
    }

-- The fallback script gives back the old text on its old side and the new text on its new side, and
-- numbers the lines of both rightly.
pub fallback_edit_script-Edits :
    (old new : List Text) → Edits old new (fallback_edit_script old new)
unfolding fallback_edit_script
fallback_edit_script-Edits old new =
    let p : ℕ = common_prefix old new in
    let exact : length (take p old) ≡ p =
      omega (arith, length-take p old, (common_prefix_le old new).0) in
    let starts : take p old ++ drop p new ≡ new =
      ap (λ r. r ++ drop p new) (take-common_prefix old new) ∙ take-append-drop p new in
    subst (λ (i : ℕ). Edits old new (script_after i (take p old) (drop p old) (drop p new))) exact
      (subst
        (λ (u : List Text).
          Edits u new (script_after (length (take p old)) (take p old) (drop p old) (drop p new)))
        (take-append-drop p old)
        (subst
          (λ (u : List Text).
            Edits (take p old ++ drop p old) u
              (script_after (length (take p old)) (take p old) (drop p old) (drop p new)))
          starts (script_after-Edits (take p old) (drop p old) (drop p new))))

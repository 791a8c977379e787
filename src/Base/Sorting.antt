-- ===== src/Base/Sorting.antt =====
-- `sort.Slice` by a string key, as insertion sort.
use mathlib.Core.Path.{◌≡◌}
use mathlib.Core.Bool.{false}
use mathlib.Core.Logic.{inl, inr}
use mathlib.Core.List.{List, [], ◌∷◌, Perm}
use mathlib.Core.List.Perm
use parrot_coder.Base.Tests.{if◌then◌else◌, Bool-cases}
use parrot_coder.Base.Texts.{Text, text_lt, text_lt_asym, text_le_trans}
use parrot_coder.Base.Lists.{All}

module _ {ℓ} {A : Type ℓ} (key : A → Text) where
  unfoldable pub place : A → List A → List A
  place x [] = x ∷ []
  place x (y ∷ ys) =
      let rest = place x ys in if text_lt (key y) (key x) then y ∷ rest else x ∷ y ∷ ys

  unfoldable pub sort_by : List A → List A
  unfolding place
  sort_by [] = []
  sort_by (x ∷ xs) = place x (sort_by xs)

  -- No later key is below an earlier one.
  abbrev pub IsSorted : List A → Type 0
  IsSorted [] = Unit {0}
  IsSorted (x ∷ xs) = All (λ y. text_lt (key y) (key x) ≡ false) xs × IsSorted xs

module _ {ℓ} {A : Type ℓ} (key : A → Text) where
  place-perm : (x : A) (xs : List A) → Perm (place key x xs) (x ∷ xs)
  unfolding place
  place-perm x [] = Perm.refl (x ∷ [])
  place-perm x (y ∷ ys) = elim (Bool-cases (text_lt (key y) (key x))) [
    | inl e ↦ rw e (Perm.trans (Perm.cons y (place-perm x ys)) (Perm.swap x y ys))
    | inr e ↦ rw e (Perm.refl (x ∷ y ∷ ys))
  ]

  pub sort_by-perm : (xs : List A) → Perm (sort_by key xs) xs
  unfolding sort_by
  sort_by-perm [] = Perm.refl []
  sort_by-perm (x ∷ xs) = Perm.trans (place-perm x (sort_by key xs)) (Perm.cons x (sort_by-perm xs))

  All-place :
      (z : Text) (x : A) (xs : List A)
      → text_lt (key x) z ≡ false
      → All (λ y. text_lt (key y) z ≡ false) xs
      → All (λ y. text_lt (key y) z ≡ false) (place key x xs)
  unfolding place
  All-place z x [] h a = (h, tt)
  All-place z x (y ∷ ys) h a = elim (Bool-cases (text_lt (key y) (key x))) [
    | inl e ↦ rw e (a.0, All-place z x ys h a.1)
    | inr e ↦ rw e (h, a)
  ]

  All-above :
      (x y : A) (ys : List A)
      → text_lt (key y) (key x) ≡ false
      → All (λ u. text_lt (key u) (key y) ≡ false) ys
      → All (λ u. text_lt (key u) (key x) ≡ false) ys
  All-above x y [] h a = tt
  All-above x y (u ∷ us) h a = (text_le_trans (key x) (key y) (key u) h a.0, All-above x y us h a.1)

  place-IsSorted : (x : A) (xs : List A) → IsSorted key xs → IsSorted key (place key x xs)
  unfolding place
  place-IsSorted x [] s = (tt, tt)
  place-IsSorted x (y ∷ ys) s = elim (Bool-cases (text_lt (key y) (key x))) [
    | inl e ↦
        rw e (All-place (key y) x ys (text_lt_asym (key y) (key x) e) s.0, place-IsSorted x ys s.1)
    | inr e ↦ rw e ((e, All-above x y ys e s.0), s)
  ]

  pub sort_by-IsSorted : (xs : List A) → IsSorted key (sort_by key xs)
  unfolding sort_by
  sort_by-IsSorted [] = tt
  sort_by-IsSorted (x ∷ xs) = place-IsSorted x (sort_by key xs) (sort_by-IsSorted xs)

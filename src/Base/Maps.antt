-- ===== src/Base/Maps.antt =====
-- Go maps with string keys, as association lists.
use mathlib.Core.Path.{◌≡◌, refl, ◌∙◌}
use mathlib.Core.Bool.{Bool, false}
use mathlib.Core.List.{List, [], ◌∷◌}
use mathlib.Core.Option.{Option, none, some}
use native.Mathlib.Omega.{arith}
use parrot_coder.Base.Tests.{if◌then◌else◌}
use parrot_coder.Base.Texts.{Text, text_eq, text_eq_iff, text_eq_refl}

abbrev pub Assoc {ℓ} : Type ℓ → Type ℓ
Assoc V = List (Text × V)

module _ {ℓ} {V : Type ℓ} where
  unfoldable pub lookup : Text → Assoc V → Option V
  lookup k [] = none
  lookup k ((j, v) ∷ m) = if text_eq j k then some v else lookup k m

  -- m[k] = v
  unfoldable pub insert : Text → V → Assoc V → Assoc V
  insert k v [] = (k, v) ∷ []
  insert k v ((j, w) ∷ m) = if text_eq j k then (k, v) ∷ m else (j, w) ∷ insert k v m

  -- delete(m, k)
  unfoldable pub remove : Text → Assoc V → Assoc V
  remove k [] = []
  remove k ((j, w) ∷ m) = let rest = remove k m in if text_eq j k then rest else (j, w) ∷ rest

  pub lookup-insert :
      (k j : Text) (v : V) (m : Assoc V)
      → lookup j (insert k v m) ≡ (if text_eq k j then some v else lookup j m)
  unfolding lookup insert
  lookup-insert k j v [] = refl
  lookup-insert k j v ((i, w) ∷ m) =
      ground (arith, text_eq_iff k j, text_eq_iff i k, text_eq_iff i j, lookup-insert k j v m)

  pub lookup-remove :
      (k j : Text) (m : Assoc V)
      → lookup j (remove k m) ≡ (if text_eq k j then none else lookup j m)
  unfolding lookup remove
  lookup-remove k j [] = ground arith
  lookup-remove k j ((i, w) ∷ m) =
      ground (arith, text_eq_iff k j, text_eq_iff i k, text_eq_iff i j, lookup-remove k j m)

pub ruleset map_laws = (lookup-insert, lookup-remove, text_eq_refl)

-- A test that fails keeps the old value, one that holds takes the new one.
keeps_other {ℓ} : {A : Type ℓ} (b : Bool) (x y : A) → b ≡ false → (if b then x else y) ≡ y
keeps_other b x y e = rw e refl

takes_new {ℓ} : {A : Type ℓ} (k : Text) (x y : A) → (if text_eq k k then x else y) ≡ x
takes_new k x y = rw (text_eq_refl k) refl

-- What a map holds after a write or a deletion, at its key and elsewhere.
pub insert_own {ℓ} :
    {V : Type ℓ} (k : Text) (v : V) (m : List (Text × V)) → lookup k (insert k v m) ≡ some v
insert_own k v m = lookup-insert k k v m ∙ takes_new k (some v) (lookup k m)

pub insert_other {ℓ} :
    {V : Type ℓ} (k j : Text) (v : V) (m : List (Text × V))
    → text_eq k j ≡ false
    → lookup j (insert k v m) ≡ lookup j m
insert_other k j v m e = lookup-insert k j v m ∙ keeps_other (text_eq k j) (some v) (lookup j m) e

pub remove_own {ℓ} : {V : Type ℓ} (k : Text) (m : List (Text × V)) → lookup k (remove k m) ≡ none
remove_own k m = lookup-remove k k m ∙ takes_new k none (lookup k m)

pub remove_other {ℓ} :
    {V : Type ℓ} (k j : Text) (m : List (Text × V))
    → text_eq k j ≡ false
    → lookup j (remove k m) ≡ lookup j m
remove_other k j m e = lookup-remove k j m ∙ keeps_other (text_eq k j) none (lookup j m) e

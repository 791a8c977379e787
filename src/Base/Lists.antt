-- ===== src/Base/Lists.antt =====
-- Lists measured and indexed by native numbers, under the library's names.
use Prim.Native.Nat.{ℕ, zero, suc, ◌+◌, ◌-◌, ◌≤◌, ◌<◌, min}
use mathlib.Core.Path.{◌≡◌, refl, ap, sym, ◌≡⟨◌⟩◌, ◌∎}
use mathlib.Core.Bool.{Bool, true, false, ◌&&◌, ◌||◌}
use mathlib.Core.Option.{Option, none, some}
use mathlib.Core.List.{List, [], ◌∷◌, ◌++◌, reverse, reverse-cons, reverse-append}
use native.Mathlib.Omega.{arith}

module _ {ℓ} {A : Type ℓ} where
  abbrev pub length : List A → ℕ
  length [] = 0
  length (x ∷ xs) = suc (length xs)

  abbrev pub take : ℕ → List A → List A
  take zero xs = []
  take (suc n) [] = []
  take (suc n) (x ∷ xs) = x ∷ take n xs

  abbrev pub drop : ℕ → List A → List A
  drop zero xs = xs
  drop (suc n) [] = []
  drop (suc n) (x ∷ xs) = drop n xs

  abbrev pub get_elem? : List A → ℕ → Option A
  get_elem? [] n = none
  get_elem? (x ∷ xs) zero = some x
  get_elem? (x ∷ xs) (suc n) = get_elem? xs n

  abbrev pub is_empty : List A → Bool
  is_empty [] = true
  is_empty (x ∷ xs) = false

  abbrev pub any : (A → Bool) → List A → Bool
  any p [] = false
  any p (x ∷ xs) = p x || any p xs

  abbrev pub all : (A → Bool) → List A → Bool
  all p [] = true
  all p (x ∷ xs) = p x && all p xs

  -- Every element satisfies `P`.
  abbrev pub All {κ} : (A → Type κ) → List A → Type κ
  All P [] = Unit
  All P (x ∷ xs) = P x × All P xs

module _ {ℓ} {A : Type ℓ} where
  pub length-append : (xs ys : List A) → length (xs ++ ys) ≡ length xs + length ys
  length-append [] ys = omega arith
  length-append (x ∷ xs) ys = omega (arith, length-append xs ys)

  pub length-reverse : (xs : List A) → length (reverse xs) ≡ length xs
  length-reverse [] = refl
  length-reverse (x ∷ xs) =
      omega (
        arith,
        ap length (reverse-cons x xs),
        length-append (reverse xs) (x ∷ []),
        length-reverse xs,
      )

  pub take-append-drop : (n : ℕ) (xs : List A) → take n xs ++ drop n xs ≡ xs
  take-append-drop zero xs = refl
  take-append-drop (suc n) [] = refl
  take-append-drop (suc n) (x ∷ xs) = ap (λ r. x ∷ r) (take-append-drop n xs)

  pub length-take : (n : ℕ) (xs : List A) → length (take n xs) ≡ min n (length xs)
  length-take zero xs = omega arith
  length-take (suc n) [] = omega arith
  length-take (suc n) (x ∷ xs) = omega (arith, length-take n xs)

  pub length-drop : (n : ℕ) (xs : List A) → length (drop n xs) ≡ length xs - n
  length-drop zero xs = omega arith
  length-drop (suc n) [] = omega arith
  length-drop (suc n) (x ∷ xs) = omega (arith, length-drop n xs)

module _ {ℓ} {A : Type ℓ} where
  -- Taking as many as the front part has.
  pub take-append_exact : (n : ℕ) (xs ys : List A) → n ≡ length xs → take n (xs ++ ys) ≡ xs
  take-append_exact zero [] ys e = refl
  take-append_exact zero (x ∷ xs) ys e = absurd (omega arith)
  take-append_exact (suc n) [] ys e = absurd (omega arith)
  take-append_exact (suc n) (x ∷ xs) ys e =
      ap (λ r. x ∷ r) (take-append_exact n xs ys (omega arith))

  -- The last `n` elements, the last first.
  pub take-reverse :
      (n : ℕ) (xs : List A)
      → n ≤ length xs
      → take n (reverse xs) ≡ reverse (drop (length xs - n) xs)
  take-reverse n xs h =
      take n (reverse xs)
      ≡⟨ ap (λ (l : List A). take n (reverse l)) (sym (take-append-drop k xs)) ⟩
        take n (reverse (take k xs ++ drop k xs))
      ≡⟨ ap (take n) (reverse-append (take k xs) (drop k xs)) ⟩
        take n (reverse (drop k xs) ++ reverse (take k xs))
      ≡⟨ take-append_exact n (reverse (drop k xs)) (reverse (take k xs)) exact ⟩
        reverse (drop k xs) ∎
    where
      k : ℕ
      k = length xs - n

      exact : n ≡ length (reverse (drop k xs))
      exact = omega (arith, length-reverse (drop k xs), length-drop k xs)

module _ {ℓ} {A : Type ℓ} where
  -- An index below the length finds an element, and one that satisfies what all do.
  pub get_elem?-All {κ} :
      {P : A → Type κ} (n : ℕ) (xs : List A)
      → n < length xs
      → All P xs
      → (x : A) × (get_elem? xs n ≡ some x) × P x
  get_elem?-All n [] h a = absurd (omega arith)
  get_elem?-All zero (x ∷ xs) h a = (x, refl, a.0)
  get_elem?-All (suc n) (x ∷ xs) h a = get_elem?-All n xs (omega arith) a.1

  pub All-append {κ} : (P : A → Type κ) (xs ys : List A) → All P xs → All P ys → All P (xs ++ ys)
  All-append P [] ys a b = b
  All-append P (x ∷ xs) ys a b = (a.0, All-append P xs ys a.1 b)

  pub All-map {κ κ'} :
      {P : A → Type κ} {Q : A → Type κ'}
      → ((x : A) → P x → Q x)
      → (xs : List A) → All P xs
      → All Q xs
  All-map f [] a = tt
  All-map f (x ∷ xs) a = (f x a.0, All-map f xs a.1)

  pub All-drop {κ} : (P : A → Type κ) (n : ℕ) (xs : List A) → All P xs → All P (drop n xs)
  All-drop P zero xs a = a
  All-drop P (suc n) [] a = tt
  All-drop P (suc n) (x ∷ xs) a = All-drop P n xs a.1

  pub all-append : (p : A → Bool) (xs ys : List A) → all p (xs ++ ys) ≡ (all p xs && all p ys)
  all-append p [] ys = refl
  all-append p (x ∷ xs) ys = ground (arith, all-append p xs ys)

  pub is_empty-length : (xs : List A) → is_empty xs ≡ false → 0 < length xs
  is_empty-length [] h = ground arith
  is_empty-length (x ∷ xs) h = omega arith

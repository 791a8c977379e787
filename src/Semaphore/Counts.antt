-- ===== src/Semaphore/Counts.antt =====
-- How often a number stands in a list, and removing it once.
use parrot_coder.Base.{
  ℕ, ◌+◌, ◌-◌, ◌≡◌, ◌<◌, List, [], ◌∷◌, ◌++◌, arith, ◌==◌, if◌then◌else◌, length,
}

unfoldable pub count : ℕ → List ℕ → ℕ
count a [] = 0
count a (x ∷ xs) = (if x == a then 1 else 0) + count a xs

unfoldable pub erase : ℕ → List ℕ → List ℕ
erase a [] = []
erase a (x ∷ xs) = let rest = erase a xs in if x == a then xs else x ∷ rest

pub count-append : (a : ℕ) (xs ys : List ℕ) → count a (xs ++ ys) ≡ count a xs + count a ys
unfolding count
count-append a [] ys = omega arith
count-append a (x ∷ xs) ys = omega (arith, count-append a xs ys)

pub count-erase :
    (b a : ℕ) (xs : List ℕ) → count b (erase a xs) ≡ count b xs - (if a == b then 1 else 0)
unfolding count erase
count-erase b a [] = ground arith
count-erase b a (x ∷ xs) = ground (arith, count-erase b a xs)

pub length-erase : (a : ℕ) (xs : List ℕ) → 0 < count a xs → length (erase a xs) + 1 ≡ length xs
unfolding count erase
length-erase a [] h = elim h [ ]
length-erase a (x ∷ xs) h = ground (arith, length-erase a xs)

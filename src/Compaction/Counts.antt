-- ===== src/Compaction/Counts.antt =====
-- How many complete messages a cut keeps, and that those before it are complete.
use parrot_coder.Base.{
  ℕ, zero, suc, ◌+◌, ◌≤◌, ◌<◌, ◌≡◌, refl, ap, sym, ◌∙◌, inl, inr, List, [], ◌∷◌, true,
  if◌then◌else◌, ltb, length, take, drop, arith, Bool-cases, All,
}
use parrot_coder.Compaction.Cut.{Message, is_complete, complete_at, go_back, first_incomplete}

-- The complete messages of a list.
abbrev pub complete_count : List Message → ℕ
complete_count [] = 0
complete_count (m ∷ ms) = let rest = complete_count ms in if is_complete m then suc rest else rest

count-drop :
    (ms : List Message) (i : ℕ)
    → i < length ms
    → complete_count (drop i ms) ≡ (
        if complete_at ms i
        then suc (complete_count (drop (suc i) ms))
        else complete_count (drop (suc i) ms))
count-drop [] i h = absurd (omega arith)
count-drop (m ∷ ms) zero h = refl
count-drop (m ∷ ms) (suc i) h = count-drop ms i (omega arith)

pub count-le :
    (ms : List Message) (i j : ℕ) → j ≤ i → complete_count (drop i ms) ≤ complete_count (drop j ms)
count-le [] zero zero h = omega arith
count-le [] zero (suc j) h = absurd (omega arith)
count-le [] (suc i) zero h = omega arith
count-le [] (suc i) (suc j) h = omega arith
count-le (m ∷ ms) zero zero h = omega arith
count-le (m ∷ ms) zero (suc j) h = absurd (omega arith)
count-le (m ∷ ms) (suc i) zero h = ground (arith, count-le ms i 0)
count-le (m ∷ ms) (suc i) (suc j) h = count-le ms i j (omega arith)

-- The loop back counts the complete messages from its index on.
pub go_back-Counts :
    (ms : List Message) (recent i complete : ℕ)
    → i ≤ length ms
    → complete ≡ complete_count (drop i ms)
    → ((go_back ms recent i complete).0 ≤ i)
      × ((go_back ms recent i complete).1
          ≡ complete_count (drop (go_back ms recent i complete).0 ms))
unfolding go_back
go_back-Counts ms recent zero complete h e = (omega arith, e)
go_back-Counts ms recent (suc i) complete h e = elim (Bool-cases (ltb complete recent)) [
  | inr more ↦ rw more (omega arith, e)
  | inl more ↦
      let next : (if complete_at ms i then suc complete else complete)
          ≡ complete_count (drop i ms) =
        ap (λ (n : ℕ). if complete_at ms i then suc n else n) e
        ∙ sym (count-drop ms i (omega arith)) in
      let (a, b) =
        go_back-Counts ms recent i (if complete_at ms i then suc complete else complete)
          (omega arith) next in
      rw more (omega arith, b)
]

-- The messages before the index are complete.
abbrev pub Prefix : ℕ → List Message → Type 0
Prefix n ms = All (λ m. is_complete m ≡ true) (take n ms)

pub Prefix-le : (ms : List Message) (i j : ℕ) → j ≤ i → Prefix i ms → Prefix j ms
Prefix-le ms i zero h p = tt
Prefix-le [] i (suc j) h p = tt
Prefix-le (m ∷ ms) zero (suc j) h p = absurd (omega arith)
Prefix-le (m ∷ ms) (suc i) (suc j) h p = (p.0, Prefix-le ms i j (omega arith) p.1)

-- How many of the first `n` messages come before one that is not complete.
leading : ℕ → List Message → ℕ
leading zero ms = 0
leading (suc n) [] = suc n
leading (suc n) (m ∷ ms) = let rest = leading n ms in if is_complete m then suc rest else 0

first-leading : (ms : List Message) (i n : ℕ) → first_incomplete ms i (i + n) ≡ i + leading n ms
unfolding first_incomplete leading
first-leading [] i zero = refl
first-leading [] i (suc n) = refl
first-leading (m ∷ ms) i zero = ground arith
first-leading (m ∷ ms) i (suc n) =
    let next : first_incomplete ms (suc i) (suc i + n) ≡ suc i + leading n ms =
      first-leading ms (suc i) n in
    let shift : i + suc n ≡ suc i + n = omega arith in rw shift (ground (arith, next))

leading-le : (n : ℕ) (ms : List Message) → leading n ms ≤ n
unfolding leading
leading-le zero ms = omega arith
leading-le (suc n) [] = omega arith
leading-le (suc n) (m ∷ ms) = ground (arith, leading-le n ms)

leading-Prefix : (n : ℕ) (ms : List Message) → Prefix (leading n ms) ms
unfolding leading
leading-Prefix zero ms = tt
leading-Prefix (suc n) [] = tt
leading-Prefix (suc n) (m ∷ ms) = elim (Bool-cases (is_complete m)) [
  | inl e ↦ rw e (e, leading-Prefix n ms)
  | inr e ↦ rw e tt
]

pub first_incomplete-Prefix :
    (ms : List Message) (index : ℕ)
    → (first_incomplete ms 0 index ≤ index) × Prefix (first_incomplete ms 0 index) ms
first_incomplete-Prefix ms index =
    let from_zero : 0 + index ≡ index = omega arith in
    let here : first_incomplete ms 0 index ≡ leading index ms =
      ap (first_incomplete ms 0) (sym from_zero) ∙ (first-leading ms 0 index ∙ omega arith) in
    rw here (leading-le index ms, leading-Prefix index ms)

-- ===== src/Patch/Places.antt =====
-- Where applyHunks puts the hunks: in ranges of the file that do not overlap.
use parrot_coder.Base.{
  ℕ, ◌+◌, ◌≤◌, ◌<◌, ◌≡◌, ◌⊎◌, inl, inr, refl, List, [], ◌∷◌, ◌++◌, false, ltb, arith, Bool-cases,
}
use parrot_coder.Patch.Weave.{Disjoint}
use parrot_coder.Patch.Apply.{Replacement, place_start, sort_starts}

-- A replacement of nothing, at the end of the file.
abbrev pub AtEnd : ℕ → Replacement → Type 0
AtEnd n r = (r.old ≡ 0) × (r.start ≡ n)

-- In the order of the hunks: each stands at the end of the file, or behind those before it; they
-- end at line `j` of `n`.
abbrev pub Ranged : ℕ → ℕ → ℕ → List Replacement → Type 0
Ranged n i j [] = (i ≤ j) × (j ≤ n)
Ranged n i j (r ∷ rs) =
    (AtEnd n r × Ranged n i j rs) ⊎ ((i ≤ r.start) × (0 < r.old) × Ranged n (r.start + r.old) j rs)

pub Ranged-le : (n i j : ℕ) (rs : List Replacement) → Ranged n i j rs → (i ≤ j) × (j ≤ n)
Ranged-le n i j [] h = h
Ranged-le n i j (r ∷ rs) (inl (e, h)) = Ranged-le n i j rs h
Ranged-le n i j (r ∷ rs) (inr (a, b, h)) =
    let (k, l) = Ranged-le n (r.start + r.old) j rs h in (omega arith, l)

pub Ranged-raise :
    (n i j k : ℕ) (rs : List Replacement) → j ≤ k → k ≤ n → Ranged n i j rs → Ranged n i k rs
Ranged-raise n i j k [] h l (a, b) = (omega arith, l)
Ranged-raise n i j k (r ∷ rs) h l (inl (e, a)) = inl (e, Ranged-raise n i j k rs h l a)
Ranged-raise n i j k (r ∷ rs) h l (inr (a, b, c)) =
    inr (a, b, Ranged-raise n (r.start + r.old) j k rs h l c)

pub Ranged-end :
    (n i j : ℕ) (rs : List Replacement) (r : Replacement)
    → AtEnd n r
    → Ranged n i j rs
    → Ranged n i j (rs ++ (r ∷ []))
Ranged-end n i j [] r e h = inl (e, h)
Ranged-end n i j (q ∷ rs) r e (inl (a, h)) = inl (a, Ranged-end n i j rs r e h)
Ranged-end n i j (q ∷ rs) r e (inr (a, b, h)) =
    inr (a, b, Ranged-end n (q.start + q.old) j rs r e h)

pub Ranged-snoc :
    (n i j : ℕ) (rs : List Replacement) (r : Replacement)
    → j ≤ r.start
    → 0 < r.old
    → r.start + r.old ≤ n
    → Ranged n i j rs
    → Ranged n i (r.start + r.old) (rs ++ (r ∷ []))
Ranged-snoc n i j [] r a b c (h, k) = inr (omega arith, b, (omega arith, c))
Ranged-snoc n i j (q ∷ rs) r a b c (inl (e, h)) = inl (e, Ranged-snoc n i j rs r a b c h)
Ranged-snoc n i j (q ∷ rs) r a b c (inr (d, e, h)) =
    inr (d, e, Ranged-snoc n (q.start + q.old) j rs r a b c h)

-- Sorted by their starts, such replacements are disjoint.
end-Disjoint :
    (n i : ℕ) (r : Replacement) (qs : List Replacement)
    → AtEnd n r
    → Disjoint n i qs
    → Disjoint n i (place_start r qs)
unfolding place_start
end-Disjoint n i r [] (a, b) d = (omega arith, omega arith, omega arith)
end-Disjoint n i r (q ∷ qs) (a, b) (d, e, f) = elim (Bool-cases (ltb q.start r.start)) [
  | inl t ↦ rw t (d, e, end-Disjoint n (q.start + q.old) r qs (a, b) f)
  | inr t ↦
      let last : q.start ≡ n = ground arith in rw t (omega arith, omega arith, (omega arith, e, f))
]

first_place :
    (n : ℕ) (r : Replacement) (qs : List Replacement)
    → 0 < r.old
    → Disjoint n (r.start + r.old) qs
    → place_start r qs ≡ r ∷ qs
unfolding place_start
first_place n r [] h d = refl
first_place n r (q ∷ qs) h (a, b, c) =
    let behind : ltb q.start r.start ≡ false = ground arith in rw behind refl

Disjoint-le : (n i : ℕ) (qs : List Replacement) → Disjoint n i qs → i ≤ n
Disjoint-le n i [] d = d
Disjoint-le n i (q ∷ qs) (a, b, c) = omega arith

pub sort_starts-Disjoint :
    (n i j : ℕ) (rs : List Replacement) → Ranged n i j rs → Disjoint n i (sort_starts rs)
unfolding sort_starts
sort_starts-Disjoint n i j [] (a, b) = omega arith
sort_starts-Disjoint n i j (r ∷ rs) (inl (e, h)) =
    end-Disjoint n i r (sort_starts rs) e (sort_starts-Disjoint n i j rs h)
sort_starts-Disjoint n i j (r ∷ rs) (inr (a, b, h)) =
    let sorted : Disjoint n (r.start + r.old) (sort_starts rs) =
      sort_starts-Disjoint n (r.start + r.old) j rs h in
    rw (first_place n r (sort_starts rs) b sorted)
      (a, Disjoint-le n (r.start + r.old) (sort_starts rs) sorted, sorted)

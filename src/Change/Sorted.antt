-- ===== src/Change/Sorted.antt =====
-- Mutations sorted by their paths: what holds of them all, and that neighbours that differ suffice.
use parrot_coder.Base.{
  ◌≡◌, refl, ap, sym, ◌∙◌, inl, inr, List, [], ◌∷◌, Text, Bool, true, false, ◌||◌, text_eq,
  text_eq_iff, text_lt, text_lt_irrefl, text_lt_trans, text_lt_total, arith, Bool-cases, All,
  All-map, sort_by, IsSorted, place,
}
use parrot_coder.Change.Disk.{Mutation}
use parrot_coder.Change.Calls.{covers}
use parrot_coder.Change.Undo.{paths}
use parrot_coder.Change.Apply.{Distinct}
use parrot_coder.Change.Commit.{paths_differ, paths_differ_from, mutation_path}

module _ {ℓ} (P : Mutation → Type ℓ) where
  All-place :
      (x : Mutation) (ys : List Mutation) → P x → All P ys → All P (place mutation_path x ys)
  unfolding place
  All-place x [] p a = (p, tt)
  All-place x (y ∷ ys) p a = elim (Bool-cases (text_lt y.path x.path)) [
    | inl e ↦ rw e (a.0, All-place x ys p a.1)
    | inr e ↦ rw e (p, a)
  ]

  pub All-sort_by : (xs : List Mutation) → All P xs → All P (sort_by mutation_path xs)
  unfolding sort_by
  All-sort_by [] a = tt
  All-sort_by (x ∷ xs) a = All-place x (sort_by mutation_path xs) a.0 (All-sort_by xs a.1)

  All-unplace :
      (x : Mutation) (ys : List Mutation) → All P (place mutation_path x ys) → P x × All P ys
  unfolding place
  All-unplace x [] a = a
  All-unplace x (y ∷ ys) a = elim (Bool-cases (text_lt y.path x.path)) [
    | inl e ↦
        let b : P y × All P (place mutation_path x ys) = rw e at a in
        let (p, rest) = All-unplace x ys b.1 in (p, (b.0, rest))
    | inr e ↦ rw e at a
  ]

  pub All-unsort : (xs : List Mutation) → All P (sort_by mutation_path xs) → All P xs
  unfolding sort_by
  All-unsort [] a = tt
  All-unsort (x ∷ xs) a =
      let (p, rest) = All-unplace x (sort_by mutation_path xs) a in (p, All-unsort xs rest)

or_swap : (a b c : Bool) → (a || (b || c)) ≡ (b || (a || c))
or_swap true true c = refl
or_swap true false c = refl
or_swap false b c = refl

covers-place :
    (x : Mutation) (ys : List Mutation) (q : Text)
    → covers (paths (place mutation_path x ys)) q ≡ (text_eq x.path q || covers (paths ys) q)
unfolding place
covers-place x [] q = refl
covers-place x (y ∷ ys) q = elim (Bool-cases (text_lt y.path x.path)) [
  | inl e ↦ rw e (
      rw (covers-place x ys q)
        (or_swap (text_eq y.path q) (text_eq x.path q) (covers (paths ys) q)))
  | inr e ↦ rw e refl
]

pub covers-sort_by :
    (xs : List Mutation) (q : Text)
    → covers (paths (sort_by mutation_path xs)) q ≡ covers (paths xs) q
unfolding sort_by
covers-sort_by [] q = refl
covers-sort_by (x ∷ xs) q =
    covers-place x (sort_by mutation_path xs) q
    ∙ ap (λ b. text_eq x.path q || b) (covers-sort_by xs q)

-- A path below all of a list is not among them.
above-covers :
    (p : Text) (ms : List Mutation)
    → All (λ m. text_lt p m.path ≡ true) ms
    → covers (paths ms) p ≡ false
above-covers p [] a = refl
above-covers p (m ∷ ms) a = elim (Bool-cases (text_eq m.path p)) [
  | inl e ↦
      absurd (ground (arith, a.0, ap (text_lt p) ((text_eq_iff m.path p).0 e), text_lt_irrefl p))
  | inr e ↦ rw e (above-covers p ms a.1)
]

differ-above :
    (p : Text) (ms : List Mutation)
    → All (λ m. text_lt m.path p ≡ false) ms
    → IsSorted mutation_path ms
    → paths_differ_from p ms ≡ true
    → All (λ m. text_lt p m.path ≡ true) ms × Distinct ms
unfolding paths_differ_from
differ-above p [] a s h = (tt, tt)
differ-above p (m ∷ ms) a s h =
    let other : text_eq p m.path ≡ false = ground arith in
    let above : text_lt p m.path ≡ true =
      text_lt_total m.path p a.0 (λ e. ground (arith, (text_eq_iff p m.path).1 (sym e))) in
    let (rest, distinct) = differ-above m.path ms s.0 s.1 (ground arith) in
    (
      (above, All-map (λ n l. text_lt_trans p m.path n.path above l) ms rest),
      (above-covers m.path ms rest, distinct),
    )

pub sorted-Distinct :
    (ms : List Mutation) → IsSorted mutation_path ms → paths_differ ms ≡ true → Distinct ms
sorted-Distinct [] s h = tt
sorted-Distinct (m ∷ ms) s h =
    let (above, distinct) = differ-above m.path ms s.0 s.1 h in
    (above-covers m.path ms above, distinct)

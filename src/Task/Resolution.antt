-- ===== src/Task/Resolution.antt =====
-- What resolve finds.
use parrot_coder.Base.{
  ◌≤◌, ◌≡◌, ◌⊎◌, inl, inr, refl, Bool, true, false, List, [], ◌∷◌, Option, none, some, Text,
  Bool-cases, arith, is_empty,
}
use parrot_coder.Task.Manager.{
  Kind, Entry, Resolution, found, wrong_kind, ambiguous, not_found, seen_by_id, seen_by_name,
  after_ids, resolve,
}
use parrot_coder.Task.Scans.{
  Listed, fits_id, fits_name, matches, IdScan, NameScan, scan_ids-IdScan, scan_names-NameScan,
}

-- What resolve gives for a caller: a task that the caller sees and that has the kind, by its ID or,
-- if no task with such an ID is seen, as the only one of its name; ambiguity only of names; the wrong kind
-- for a task that is seen by its ID, or else by its name; no such task if none is seen by either.
abbrev pub Resolved : Text → Text → Kind → List Entry → Resolution → Type 0
Resolved caller identifier kind es (found e) =
    Listed e es
    × ((fits_id caller identifier kind e ≡ true)
        ⊎ ((fits_name caller identifier kind e ≡ true)
            × (matches (seen_by_id caller identifier) es ≡ 0)
            × (matches (fits_name caller identifier kind) es ≡ 1)))
Resolved caller identifier kind es ambiguous =
    (matches (seen_by_id caller identifier) es ≡ 0)
    × (2 ≤ matches (fits_name caller identifier kind) es)
Resolved caller identifier kind es wrong_kind =
    (matches (fits_id caller identifier kind) es ≡ 0)
    × ((1 ≤ matches (seen_by_id caller identifier) es)
        ⊎ ((matches (seen_by_id caller identifier) es ≡ 0)
            × (matches (fits_name caller identifier kind) es ≡ 0)
            × (1 ≤ matches (seen_by_name caller identifier) es)))
Resolved caller identifier kind es not_found =
    (matches (seen_by_id caller identifier) es ≡ 0)
    × (matches (seen_by_name caller identifier) es ≡ 0)

unseen-matches :
    (caller identifier : Text) (kind : Kind) (es : List Entry)
    → matches (seen_by_id caller identifier) es ≡ 0
    → matches (fits_id caller identifier kind) es ≡ 0
unseen-matches caller identifier kind [] h = refl
unseen-matches caller identifier kind (x ∷ es) h =
    elim (Bool-cases (seen_by_id caller identifier x)) [
      | inl q ↦ absurd (ground arith)
      | inr q ↦ rw q (unseen-matches caller identifier kind es (ground arith))
    ]

names-Resolved :
    (caller identifier : Text) (kind : Kind) (es : List Entry) (r : Resolution)
    → matches (seen_by_id caller identifier) es ≡ 0
    → NameScan caller identifier kind false none es r
    → Resolved caller identifier kind es r
names-Resolved caller identifier kind es (found e) h (inl q, n) = ground arith
names-Resolved caller identifier kind es (found e) h (inr s, n) =
    (s.0, inr (s.1, h, omega (arith, n)))
names-Resolved caller identifier kind es wrong_kind h (a, inl b) = absurd (cc)
names-Resolved caller identifier kind es wrong_kind h (a, inr b) =
    (unseen-matches caller identifier kind es h, inr (h, omega arith, b))
names-Resolved caller identifier kind es ambiguous h n = (h, omega (arith, n))
names-Resolved caller identifier kind es not_found h (a, n) = (h, omega (arith, n))

after_ids-Resolved :
    (caller identifier : Text) (kind : Kind) (es : List Entry) (r : Option Entry × Bool)
    → IdScan caller identifier kind false es r
    → Resolved caller identifier kind es (after_ids caller identifier kind es r)
after_ids-Resolved caller identifier kind es (some e, wrong) s = (s.0, inl s.1)
after_ids-Resolved caller identifier kind es (none, true) (a, inl b) = absurd (cc)
after_ids-Resolved caller identifier kind es (none, true) (a, inr b) = (a, inl b)
after_ids-Resolved caller identifier kind es (none, false) (a, b) =
    names-Resolved caller identifier kind es _ b
      (scan_names-NameScan caller identifier kind none false es)

-- For a caller and an identifier that are not empty, in whatever order the map gives the tasks: a
-- task is found by an ID, or, if no task with this ID is seen, by a name that only it has; it is seen by
-- the caller and has the kind. The kind is wrong when a task is seen by the ID but none of the kind, or,
-- with none seen by the ID, one is seen by the name but none of the kind. A name is ambiguous when two tasks of
-- the kind have it, and no task is found when none is seen by either.
pub resolve-Resolved :
    (caller identifier : Text) (kind : Kind) (es : List Entry)
    → is_empty caller ≡ false
    → is_empty identifier ≡ false
    → Resolved caller identifier kind es (resolve caller identifier kind es)
unfolding resolve
resolve-Resolved caller identifier kind es h k =
    rw (h, k)
      (after_ids-Resolved caller identifier kind es _
        (scan_ids-IdScan caller identifier kind false es))

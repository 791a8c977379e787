-- ===== src/Task/Scans.antt =====
-- What the two loops of resolve find.
use parrot_coder.Base.{
  ℕ, suc, ◌+◌, ◌≤◌, ◌≡◌, ◌⊎◌, inl, inr, refl, sym, ap, ◌∙◌, Bool, true, false, ◌&&◌, List, [], ◌∷◌,
  Option, none, some, Text, if◌then◌else◌, Bool-cases, arith,
}
use parrot_coder.Task.Manager.{
  Kind, Entry, kind_eq, Resolution, found, wrong_kind, ambiguous, not_found, seen_by_id,
  seen_by_name, scan_ids, named, scan_names,
}

abbrev pub Listed : Entry → List Entry → Type 0
Listed e [] = false ≡ true
Listed e (x ∷ xs) = (x ≡ e) ⊎ Listed e xs

-- A task of the kind that a caller sees by its ID, or by its name.
abbrev pub fits_id : Text → Text → Kind → Entry → Bool
fits_id caller identifier kind e = seen_by_id caller identifier e && kind_eq e.snapshot.kind kind

abbrev pub fits_name : Text → Text → Kind → Entry → Bool
fits_name caller identifier kind e =
    seen_by_name caller identifier e && kind_eq e.snapshot.kind kind

-- How many entries pass a test.
abbrev pub matches : (Entry → Bool) → List Entry → ℕ
matches p [] = 0
matches p (e ∷ es) = if p e then suc (matches p es) else matches p es

-- The first loop gives a task that fits, and nothing only if none does; then the flag says whether
-- it was set before or a task with this ID was met.
abbrev pub IdScan : Text → Text → Kind → Bool → List Entry → Option Entry × Bool → Type 0
IdScan caller identifier kind was es (some e, wrong) =
    Listed e es × (fits_id caller identifier kind e ≡ true)
IdScan caller identifier kind was es (none, true) =
    (matches (fits_id caller identifier kind) es ≡ 0)
    × ((was ≡ true) ⊎ (1 ≤ matches (seen_by_id caller identifier) es))
IdScan caller identifier kind was es (none, false) =
    (was ≡ false) × (matches (seen_by_id caller identifier) es ≡ 0)

IdScan-unseen :
    (caller identifier : Text) (kind : Kind) (was : Bool) (x : Entry) (es : List Entry)
    (r : Option Entry × Bool)
    → seen_by_id caller identifier x ≡ false
    → IdScan caller identifier kind was es r
    → IdScan caller identifier kind was (x ∷ es) r
IdScan-unseen caller identifier kind was x es (some e, wrong) h s = (inr s.0, s.1)
IdScan-unseen caller identifier kind was x es (none, true) h (a, b) = (ground arith, ground arith)
IdScan-unseen caller identifier kind was x es (none, false) h (a, b) = (a, ground arith)

IdScan-other :
    (caller identifier : Text) (kind : Kind) (was : Bool) (x : Entry) (es : List Entry)
    (r : Option Entry × Bool)
    → seen_by_id caller identifier x ≡ true
    → fits_id caller identifier kind x ≡ false
    → IdScan caller identifier kind true es r
    → IdScan caller identifier kind was (x ∷ es) r
IdScan-other caller identifier kind was x es (some e, wrong) h k s = (inr s.0, s.1)
IdScan-other caller identifier kind was x es (none, true) h k (a, b) =
    (rw k a, inr (rw h (omega arith)))
IdScan-other caller identifier kind was x es (none, false) h k (a, b) = absurd (cc)

pub scan_ids-IdScan :
    (caller identifier : Text) (kind : Kind) (wrong : Bool) (es : List Entry)
    → IdScan caller identifier kind wrong es (scan_ids caller identifier kind wrong es)
unfolding scan_ids
scan_ids-IdScan caller identifier kind true [] = (refl, inl refl)
scan_ids-IdScan caller identifier kind false [] = (refl, refl)
scan_ids-IdScan caller identifier kind wrong (x ∷ es) =
    elim (Bool-cases (seen_by_id caller identifier x)) [
      | inr q ↦
          rw (scan_ids, q)
            (IdScan-unseen caller identifier kind wrong x es _ q
              (scan_ids-IdScan caller identifier kind wrong es))
      | inl q ↦ elim (Bool-cases (kind_eq x.snapshot.kind kind)) [
        | inr r ↦
            rw (scan_ids, q, r)
              (IdScan-other caller identifier kind wrong x es _ q (ground (arith, r))
                (scan_ids-IdScan caller identifier kind true es))
        | inl r ↦ rw (scan_ids, q, r) (inl refl, ground (arith, q, r))
      ]
    ]

abbrev or_else : Entry → Option Entry → Entry
or_else e none = e
or_else e (some x) = x

abbrev pub held : Option Entry → ℕ
held none = 0
held (some e) = 1

-- The second loop by the number of tasks that fit, the one held so far included.
abbrev pub NameScan : Text → Text → Kind → Bool → Option Entry → List Entry → Resolution → Type 0
NameScan caller identifier kind was sofar es (found e) =
    ((sofar ≡ some e) ⊎ (Listed e es × (fits_name caller identifier kind e ≡ true)))
    × (held sofar + matches (fits_name caller identifier kind) es ≡ 1)
NameScan caller identifier kind was sofar es ambiguous =
    2 ≤ held sofar + matches (fits_name caller identifier kind) es
NameScan caller identifier kind was sofar es wrong_kind =
    (held sofar + matches (fits_name caller identifier kind) es ≡ 0)
    × ((was ≡ true) ⊎ (1 ≤ matches (seen_by_name caller identifier) es))
NameScan caller identifier kind was sofar es not_found =
    (was ≡ false) × (held sofar + matches (seen_by_name caller identifier) es ≡ 0)

some_injective : {a b : Entry} → some a ≡ some b → a ≡ b
some_injective {a} q = ap (or_else a) q

NameScan-unseen :
    (caller identifier : Text) (kind : Kind) (was : Bool) (sofar : Option Entry) (x : Entry)
    (es : List Entry) (r : Resolution)
    → seen_by_name caller identifier x ≡ false
    → NameScan caller identifier kind was sofar es r
    → NameScan caller identifier kind was sofar (x ∷ es) r
NameScan-unseen caller identifier kind was sofar x es (found e) h (inl q, n) = (inl q, ground arith)
NameScan-unseen caller identifier kind was sofar x es (found e) h (inr s, n) =
    (inr (inr s.0, s.1), ground arith)
NameScan-unseen caller identifier kind was sofar x es wrong_kind h (a, b) =
    (ground arith, ground arith)
NameScan-unseen caller identifier kind was sofar x es ambiguous h s = ground arith
NameScan-unseen caller identifier kind was sofar x es not_found h (a, b) = (a, ground arith)

NameScan-other :
    (caller identifier : Text) (kind : Kind) (was : Bool) (sofar : Option Entry) (x : Entry)
    (es : List Entry) (r : Resolution)
    → seen_by_name caller identifier x ≡ true
    → fits_name caller identifier kind x ≡ false
    → NameScan caller identifier kind true sofar es r
    → NameScan caller identifier kind was sofar (x ∷ es) r
NameScan-other caller identifier kind was sofar x es (found e) h k (inl q, n) = (inl q, rw k n)
NameScan-other caller identifier kind was sofar x es (found e) h k (inr s, n) =
    (inr (inr s.0, s.1), rw k n)
NameScan-other caller identifier kind was sofar x es wrong_kind h k (a, b) =
    (rw k a, inr (rw h (omega arith)))
NameScan-other caller identifier kind was sofar x es ambiguous h k s = rw k s
NameScan-other caller identifier kind was sofar x es not_found h k (a, b) = absurd (cc)

-- The step that holds a task for the first time.
NameScan-hold :
    (caller identifier : Text) (kind : Kind) (was : Bool) (x : Entry) (es : List Entry)
    (r : Resolution)
    → seen_by_name caller identifier x ≡ true
    → fits_name caller identifier kind x ≡ true
    → NameScan caller identifier kind was (some x) es r
    → NameScan caller identifier kind was none (x ∷ es) r
NameScan-hold caller identifier kind was x es (found e) g h (inl q, n) = (
  inr (inl (some_injective q), ap (fits_name caller identifier kind) (sym (some_injective q)) ∙ h),
  rw h (omega (arith, n)),
)
NameScan-hold caller identifier kind was x es (found e) g h (inr s, n) =
    (inr (inr s.0, s.1), rw h (omega (arith, n)))
NameScan-hold caller identifier kind was x es wrong_kind g h (a, b) = absurd (omega arith)
NameScan-hold caller identifier kind was x es ambiguous g h s = rw h (omega (arith, s))
NameScan-hold caller identifier kind was x es not_found g h (a, b) = absurd (omega arith)

named-NameScan :
    (caller identifier : Text) (kind : Kind) (sofar : Option Entry) (wrong : Bool)
    → NameScan caller identifier kind wrong sofar [] (named sofar wrong)
named-NameScan caller identifier kind (some e) wrong = (inl refl, omega arith)
named-NameScan caller identifier kind none true = (omega arith, inl refl)
named-NameScan caller identifier kind none false = (refl, omega arith)

held_step :
    (caller identifier : Text) (kind : Kind) (sofar : Option Entry) (wrong : Bool) (x : Entry)
    (es : List Entry)
    → seen_by_name caller identifier x ≡ true
    → fits_name caller identifier kind x ≡ true
    → NameScan caller identifier kind wrong
        (some x)
        es
        (scan_names caller identifier kind (some x) wrong es)
    → NameScan caller identifier kind wrong sofar (x ∷ es) (elim sofar [
      | some old ↦ ambiguous
      | none ↦ scan_names caller identifier kind (some x) wrong es
    ])
held_step caller identifier kind none wrong x es g h s =
    NameScan-hold caller identifier kind wrong x es _ g h s
held_step caller identifier kind (some old) wrong x es g h s = rw h (omega arith)

pub scan_names-NameScan :
    (caller identifier : Text) (kind : Kind) (sofar : Option Entry) (wrong : Bool) (es : List Entry)
    → NameScan caller identifier kind wrong sofar es
        (scan_names caller identifier kind sofar wrong es)
unfolding scan_names
scan_names-NameScan caller identifier kind sofar wrong [] =
    named-NameScan caller identifier kind sofar wrong
scan_names-NameScan caller identifier kind sofar wrong (x ∷ es) =
    elim (Bool-cases (seen_by_name caller identifier x)) [
      | inr q ↦
          rw (scan_names, q)
            (NameScan-unseen caller identifier kind wrong sofar x es _ q
              (scan_names-NameScan caller identifier kind sofar wrong es))
      | inl q ↦ elim (Bool-cases (kind_eq x.snapshot.kind kind)) [
        | inr r ↦
            rw (scan_names, q, r)
              (NameScan-other caller identifier kind wrong sofar x es _ q (ground (arith, r))
                (scan_names-NameScan caller identifier kind sofar true es))
        | inl r ↦
            rw (scan_names, q, r)
              (held_step caller identifier kind sofar wrong x es q (ground (arith, q, r))
                (scan_names-NameScan caller identifier kind (some x) wrong es))
      ]
    ]

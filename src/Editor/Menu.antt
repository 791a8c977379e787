-- ===== src/Editor/Menu.antt =====
-- What the completion menu offers for a text.
use parrot_coder.Base.{
  ◌≡◌, inl, inr, refl, sym, subst, Bool, true, false, ◌||◌, List, [], ◌∷◌, ◌++◌, Text, text_eq,
  text_eq_iff, if◌then◌else◌, Bool-cases, arith, any,
}
use mathlib.Core.List.{Perm, perm_middle, append_assoc, append-nil}
use mathlib.Core.List.Perm
use parrot_coder.Editor.Types.{Candidate, Editor}
use parrot_coder.Editor.Setup.{has_prefix, has_newline, matches_from, completion_matches}

-- The candidates that go on from the input.
abbrev pub going_on : Text → List Candidate → List Candidate
going_on input [] = []
going_on input (c ∷ cs) =
    let rest = going_on input cs in if has_prefix c.value input then c ∷ rest else rest

has_prefix_refl : (s : Text) → has_prefix s s ≡ true
unfolding has_prefix
has_prefix_refl [] = refl
has_prefix_refl (a ∷ s) = ground (arith, has_prefix_refl s)

same-has_prefix : (s t : Text) → text_eq s t ≡ true → has_prefix s t ≡ true
same-has_prefix s t h =
    subst (λ (x : Text). has_prefix s x ≡ true) ((text_eq_iff s t).0 h) (has_prefix_refl s)

matches_from-perm :
    (input : Text) (found cs : List Candidate)
    → Perm (matches_from input found cs) (found ++ going_on input cs)
matches_from-perm input found [] =
    subst (λ (l : List Candidate). Perm found l) (sym (append-nil found)) (Perm.refl found)
matches_from-perm input found (c ∷ cs) = elim (Bool-cases (text_eq c.value input)) [
  | inl q ↦
      rw (q, same-has_prefix c.value input q)
        (Perm.trans (matches_from-perm input (c ∷ found) cs)
          (Perm.symm (perm_middle {a = c} found (going_on input cs))))
  | inr q ↦ elim (Bool-cases (has_prefix c.value input)) [
    | inl r ↦
        rw (q, r)
          (subst (λ (l : List Candidate). Perm (matches_from input (found ++ c ∷ []) cs) l)
            (append_assoc found (c ∷ []) (going_on input cs))
            (matches_from-perm input (found ++ c ∷ []) cs))
    | inr r ↦ rw (q, r) (matches_from-perm input found cs)
  ]
]

-- Whether the first candidate is the input itself.
abbrev pub leads : Text → List Candidate → Bool
leads input [] = false
leads input (c ∷ cs) = text_eq c.value input

abbrev pub is_exact : Text → Candidate → Bool
is_exact input c = text_eq c.value input

leads-append_one :
    (input : Text) (found : List Candidate) (c : Candidate)
    → text_eq c.value input ≡ false
    → leads input (found ++ c ∷ []) ≡ leads input found
leads-append_one input [] c h = h
leads-append_one input (d ∷ found) c h = refl

leads-matches_from :
    (input : Text) (found cs : List Candidate)
    → leads input (matches_from input found cs) ≡ (leads input found || any (is_exact input) cs)
leads-matches_from input found [] = ground arith
leads-matches_from input found (c ∷ cs) = elim (Bool-cases (text_eq c.value input)) [
  | inl q ↦ ground (arith, q, leads-matches_from input (c ∷ found) cs)
  | inr q ↦ elim (Bool-cases (has_prefix c.value input)) [
    | inl r ↦ ground (
      arith,
      q,
      r,
      leads-matches_from input (found ++ c ∷ []) cs,
      leads-append_one input found c q,
    )
    | inr r ↦ ground (arith, q, r, leads-matches_from input found cs)
  ]
]

-- What is offered for a command: the completions that go on from it, each once, and the command
-- itself first just if it is a completion.
pub record Offered (e : Editor) (input : Text) : Type 0 where
  pub complete : Perm (completion_matches e input) (going_on input e.completions)
  pub exact_first : leads input (completion_matches e input) ≡ any (is_exact input) e.completions

-- A text that starts with a slash and has no line break is offered just the completions that it is
-- a prefix of, and an exact match is the first of them.
pub completion_matches-Offered :
    (e : Editor) (input : Text)
    → has_prefix input (47 ∷ []) ≡ true
    → has_newline input ≡ false
    → Offered e input
unfolding completion_matches
completion_matches-Offered e input h k = record {
  complete = rw (h, k) (matches_from-perm input [] e.completions);
  exact_first = rw (h, k) (leads-matches_from input [] e.completions);
}

-- ===== src/Patch/Served.antt =====
-- What each hunk of applyHunks does: where it goes, and what it puts there.
use mathlib.Core.List.{append_assoc, append-nil}
use mathlib.Core.List.{Perm}
use mathlib.Core.List.Perm
use parrot_coder.Base.{
  is_empty-length, ℕ, suc, ◌+◌, ◌≡◌, ◌⊎◌, inl, inr, refl, ap, sym, ◌∙◌, subst, List, [], ◌∷◌, ◌++◌,
  true, false, ltb, is_empty, length, take, drop, arith, Option, none, some, Bool-cases,
  Option-cases,
}
use parrot_coder.Patch.Lines.{FileLine, line_texts, line_ending_at}
use parrot_coder.Patch.Spaces.{comparators}
use parrot_coder.Patch.Replace.{PatchHunk, replacement_lines}
use parrot_coder.Patch.Seek.{Sought, at_line, failed, ambiguous, seek_patch_sequence}
use parrot_coder.Patch.Outcome.{Outcome, seek_patch_sequence-Outcome}
use parrot_coder.Patch.Apply.{
  Replacement, Placing, old_lines, place_at, place_old, place_hunk, after_context, hunk_round,
  place_hunks, place_start, sort_starts,
}
use parrot_coder.Patch.Edited.{edited, replacement_lines-edited}

is_empty-snoc {ℓ} : {A : Type ℓ} (xs : List A) (x : A) → is_empty (xs ++ (x ∷ [])) ≡ true → ⊥
is_empty-snoc [] x e = absurd (cc)
is_empty-snoc (y ∷ xs) x e = absurd (cc)

module _ (lines : List FileLine) where
  -- Where a hunk goes: to the end of the file if it has no old lines, else where the search for them,
  -- from some line on, decides.
  abbrev pub Goes : PatchHunk → ℕ → Type 0
  Goes h start =
      ((is_empty (old_lines h.lines) ≡ true) × (start ≡ length lines))
      ⊎ ((from : ℕ) × Outcome (line_texts lines) (old_lines h.lines) from h.end_of_file comparators
            (at_line start))

  -- The replacement of a hunk: as many lines as its old lines, where it goes, with their texts as
  -- the hunk edits them.
  pub record Serves (h : PatchHunk) (r : Replacement) : Type 0 where
    pub counted : r.old ≡ length (old_lines h.lines)
    pub placed : Goes h r.start
    pub texts : line_texts r.lines ≡ edited h.lines (line_texts (take r.old (drop r.start lines)))

  -- Each hunk has its replacement, in the order of the hunks.
  abbrev pub EachServes : List PatchHunk → List Replacement → Type 0
  EachServes [] rs = rs ≡ []
  EachServes (h ∷ hs) rs =
      (r : Replacement) × (rest : List Replacement) × (rs ≡ r ∷ rest)
      × Serves h r
      × EachServes hs rest

  -- A round that adds no error adds the replacement of its hunk.
  abbrev After : PatchHunk → Placing → Option Placing → Type 0
  After h s none = Unit {0}
  After h s (some s') =
      is_empty s'.errors ≡ true
      → (is_empty s.errors ≡ true)
        × ((r : Replacement) × (s'.replacements ≡ s.replacements ++ (r ∷ [])) × Serves h r)

  place_at-After :
      (h : PatchHunk) (start : ℕ) (s : Placing)
      → Goes h start
      → After h s (place_at lines h start s)
  unfolding place_at
  place_at-After h start s goes =
      let old : ℕ = length (old_lines h.lines) in
      elim (Option-cases
        (replacement_lines h.lines (take old (drop start lines)) (line_ending_at lines start))) [
          | inl q ↦ rw (place_at, q) tt
          | inr (new, q) ↦
              rw (place_at, q)
                (λ e. (
                  e,
                  (
                    record { start = start; old = old; lines = new },
                    refl,
                    record {
                      counted = refl;
                      placed = goes;
                      texts =
                          replacement_lines-edited h.lines (take old (drop start lines)) _ new q;
                    },
                  ),
                ))
        ]

  -- What the search gives, if it finds a line.
  abbrev FoundAt : PatchHunk → ℕ → Sought → Type 0
  FoundAt h from (at_line p) = Goes h p
  FoundAt h from failed = Unit {0}
  FoundAt h from (ambiguous c) = Unit {0}

  found :
      (h : PatchHunk) (from : ℕ) (r : Sought)
      → Outcome (line_texts lines) (old_lines h.lines) from h.end_of_file comparators r
      → FoundAt h from r
  found h from (at_line p) o = inr (from, o)
  found h from failed o = tt
  found h from (ambiguous c) o = tt

  seek-FoundAt :
      (h : PatchHunk) (from : ℕ)
      → is_empty (old_lines h.lines) ≡ false
      → FoundAt h from
          (seek_patch_sequence (line_texts lines) (old_lines h.lines) from h.end_of_file)
  unfolding seek_patch_sequence
  seek-FoundAt h from some_old = elim (Bool-cases (ltb (length (line_texts lines)) from)) [
    | inl e ↦ rw (seek_patch_sequence, some_old, e) tt
    | inr e ↦ found h from _ (
        seek_patch_sequence-Outcome (line_texts lines) (old_lines h.lines) from h.end_of_file
          (is_empty-length (old_lines h.lines) some_old) (ground arith))
  ]

  place_old-After :
      (h : PatchHunk) (n from : ℕ) (r : Sought) (s : Placing)
      → FoundAt h from r
      → After h s (place_old lines h n r s)
  unfolding place_old
  place_old-After h n from (at_line p) s found = place_at-After h p _ found
  place_old-After h n from failed s found = λ e. absurd (is_empty-snoc s.errors _ e)
  place_old-After h n from (ambiguous c) s found = λ e. absurd (is_empty-snoc s.errors _ e)

  place_hunk-After : (h : PatchHunk) (n : ℕ) (s : Placing) → After h s (place_hunk lines h n s)
  unfolding place_hunk
  place_hunk-After h n s = elim (Bool-cases (is_empty (old_lines h.lines))) [
    | inl e ↦ rw e (place_at-After h (length lines) s (inl (e, refl)))
    | inr e ↦ rw e (place_old-After h n s.line_index _ s (seek-FoundAt h s.line_index e))
  ]

  after_context-After :
      (h : PatchHunk) (n : ℕ) (r : Sought) (s : Placing) → After h s (after_context lines h n r s)
  unfolding after_context
  after_context-After h n (at_line p) s = place_hunk-After h n (record s { line_index = p + 1 })
  after_context-After h n failed s = λ e. absurd (is_empty-snoc s.errors _ e)
  after_context-After h n (ambiguous c) s = λ e. absurd (is_empty-snoc s.errors _ e)

  hunk_round-After : (h : PatchHunk) (n : ℕ) (s : Placing) → After h s (hunk_round lines h n s)
  unfolding hunk_round
  hunk_round-After h n s = elim (Bool-cases (is_empty h.context)) [
    | inl e ↦ rw e (place_hunk-After h n s)
    | inr e ↦ rw e (after_context-After h n _ s)
  ]

  pub place_hunks-EachServes :
      (hs : List PatchHunk) (n : ℕ) (s s' : Placing)
      → place_hunks lines hs n s ≡ some s'
      → is_empty s'.errors ≡ true
      → (is_empty s.errors ≡ true)
        × ((rs : List Replacement) × (s'.replacements ≡ s.replacements ++ rs) × EachServes hs rs)
  unfolding place_hunks
  place_hunks-EachServes [] n s s' h e =
      let same : s ≡ s' = cc in
      (
        ap (λ (p : Placing). is_empty p.errors) same ∙ e,
        (
          [],
          ap (λ (p : Placing). p.replacements) (sym same) ∙ sym (append-nil s.replacements),
          refl,
        ),
      )
  place_hunks-EachServes (k ∷ hs) n s s' h e = elim (Option-cases (hunk_round lines k n s)) [
    | inl q ↦
        let stops : place_hunks lines (k ∷ hs) n s ≡ none = rw (place_hunks, q) refl in absurd (cc)
    | inr (t, q) ↦
        let goes_on : place_hunks lines (k ∷ hs) n s ≡ place_hunks lines hs (suc n) t =
          rw (place_hunks, q) refl in
        let later : place_hunks lines hs (suc n) t ≡ some s' = sym goes_on ∙ h in
        let (none_yet, (rs, more, rest)) = place_hunks-EachServes hs (suc n) t s' later e in
        let (before, (r, one, serves)) = subst (After k s) q (hunk_round-After k n s) none_yet in
        (
          before,
          (
            r ∷ rs,
            more ∙ (ap (λ xs. xs ++ rs) one ∙ append_assoc s.replacements (r ∷ []) rs),
            (r, rs, refl, serves, rest),
          ),
        )
  ]

place_start-perm : (r : Replacement) (rs : List Replacement) → Perm (place_start r rs) (r ∷ rs)
unfolding place_start
place_start-perm r [] = Perm.refl (r ∷ [])
place_start-perm r (q ∷ qs) = elim (Bool-cases (ltb q.start r.start)) [
  | inl e ↦ rw e (Perm.trans (Perm.cons q (place_start-perm r qs)) (Perm.swap r q qs))
  | inr e ↦ rw e (Perm.refl (r ∷ q ∷ qs))
]

pub sort_starts-perm : (rs : List Replacement) → Perm (sort_starts rs) rs
unfolding sort_starts
sort_starts-perm [] = Perm.refl []
sort_starts-perm (r ∷ rs) =
    Perm.trans (place_start-perm r (sort_starts rs)) (Perm.cons r (sort_starts-perm rs))

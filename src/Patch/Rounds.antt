-- ===== src/Patch/Rounds.antt =====
-- The loop of applyHunks over the hunks, and the file it makes.
use parrot_coder.Base.{
  sym, subst, ℕ, suc, ◌+◌, ◌≤◌, ◌<◌, ◌≡◌, inl, inr, refl, ap, List, [], ◌∷◌, ◌++◌, Text, Bool, true,
  false, is_empty, length, drop, arith, Option, some, Bool-cases, is_empty-length, length-append,
}
use parrot_coder.Patch.Lines.{FileLine, line_texts, split_file_lines, write_lines}
use parrot_coder.Patch.Replace.{PatchHunk}
use parrot_coder.Patch.Seek.{Sought, at_line, failed, ambiguous, seek_patch_sequence}
use parrot_coder.Patch.Outcome.{seek-within}
use parrot_coder.Patch.Matched.{place_at-some}
use mathlib.Core.List.{Perm}
use parrot_coder.Patch.Served.{EachServes, place_hunks-EachServes, sort_starts-perm}
use parrot_coder.Patch.Weave.{Disjoint, weave, splice-weave}
use parrot_coder.Patch.Places.{
  Ranged, Ranged-le, Ranged-raise, Ranged-end, Ranged-snoc, sort_starts-Disjoint,
}
use parrot_coder.Patch.Apply.{
  Replacement, Placing, MatchError, refuse, old_lines, place_old, place_hunk, after_context,
  hunk_round, place_hunks, sort_starts, finish_hunks, apply_hunks, Applied, patched, refused,
  out_of_range, bom_of,
}

pub empty-length {ℓ} : {A : Type ℓ} (xs : List A) → is_empty xs ≡ true → length xs ≡ 0
empty-length [] h = refl
empty-length (x ∷ xs) h = absurd (cc)

length-line_texts : (ls : List FileLine) → length (line_texts ls) ≡ length ls
unfolding line_texts
length-line_texts [] = refl
length-line_texts (l ∷ ls) = omega (arith, length-line_texts ls)

module _ (lines : List FileLine) where
  -- After the first `k` hunks: those placed are apart, and each has a replacement or an error.
  abbrev Fine : ℕ → Placing → Type 0
  Fine k s =
      Ranged (length lines) 0 s.line_index s.replacements
      × (length s.replacements + length s.errors ≡ k)

  -- A step goes on.
  abbrev GoesOn : ℕ → Option Placing → Type 0
  GoesOn k o = (s' : Placing) × (o ≡ some s') × Fine k s'

  refuse-Fine : (k : ℕ) (e : MatchError) (s : Placing) → Fine k s → Fine (suc k) (refuse e s)
  refuse-Fine k e s (fine, count) = (fine, omega (arith, length-append s.errors (e ∷ [])))

  one_more :
      (k : ℕ) (r : Replacement) (s : Placing)
      → length s.replacements + length s.errors ≡ k
      → length (s.replacements ++ (r ∷ [])) + length s.errors ≡ suc k
  one_more k r s count = omega (arith, length-append s.replacements (r ∷ []))

  -- The search finds nothing, or a place within the lines.
  abbrev Within : ℕ → ℕ → Sought → Type 0
  Within start size r = (p : ℕ) → r ≡ at_line p → (start ≤ p) × (p + size ≤ length lines)

  seek-Within :
      (pattern : List Text) (last : Bool) (s : Placing)
      → Ranged (length lines) 0 s.line_index s.replacements
      → 0 < length pattern
      → Within s.line_index
          (length pattern)
          (seek_patch_sequence (line_texts lines) pattern s.line_index last)
  seek-Within pattern last s fine h p e =
      let below : s.line_index ≤ length lines =
        (Ranged-le (length lines) 0 s.line_index s.replacements fine).1 in
      let (a, b) =
        seek-within (line_texts lines) pattern s.line_index last p h
          (omega (arith, length-line_texts lines)) e in
      (a, omega (arith, length-line_texts lines))

  place_old-GoesOn :
      (h : PatchHunk) (n k : ℕ) (r : Sought) (s : Placing)
      → 0 < length (old_lines h.lines)
      → Within s.line_index (length (old_lines h.lines)) r
      → Fine k s
      → GoesOn (suc k) (place_old lines h n r s)
  unfolding place_old
  place_old-GoesOn h n k (at_line p) s some_old within (fine, count) =
      let (a, b) = within p refl in
      let moved : Placing = record s { line_index = p + length (old_lines h.lines) } in
      let (new, e) = place_at-some lines h p moved b in
      let r : Replacement = record { start = p; old = length (old_lines h.lines); lines = new } in
      (
        _,
        e,
        (
          Ranged-snoc (length lines) 0 s.line_index s.replacements r a some_old b fine,
          one_more k r s count,
        ),
      )
  place_old-GoesOn h n k failed s some_old within fine = (_, refl, refuse-Fine k _ s fine)
  place_old-GoesOn h n k (ambiguous c) s some_old within fine = (_, refl, refuse-Fine k _ s fine)

  place_hunk-GoesOn :
      (h : PatchHunk) (n k : ℕ) (s : Placing) → Fine k s → GoesOn (suc k) (place_hunk lines h n s)
  unfolding place_hunk
  place_hunk-GoesOn h n k s (fine, count) = elim (Bool-cases (is_empty (old_lines h.lines))) [
    | inl e ↦
        let none_old : length (old_lines h.lines) ≡ 0 = empty-length (old_lines h.lines) e in
        let (new, q) = place_at-some lines h (length lines) s (omega arith) in
        let r : Replacement = record {
          start = length lines;
          old = length (old_lines h.lines);
          lines = new;
        } in
        rw e (
          _,
          q,
          (
            Ranged-end (length lines) 0 s.line_index s.replacements r (none_old, refl) fine,
            one_more k r s count,
          ),
        )
    | inr e ↦
        let some_old : 0 < length (old_lines h.lines) = is_empty-length (old_lines h.lines) e in
        rw e (
          place_old-GoesOn h n k _ s some_old
            (seek-Within (old_lines h.lines) h.end_of_file s fine some_old) (fine, count))
  ]

  after_context-GoesOn :
      (h : PatchHunk) (n k : ℕ) (r : Sought) (s : Placing)
      → Within s.line_index 1 r
      → Fine k s
      → GoesOn (suc k) (after_context lines h n r s)
  unfolding after_context
  after_context-GoesOn h n k (at_line p) s within (fine, count) =
      let (a, b) = within p refl in
      place_hunk-GoesOn h n k (record s { line_index = p + 1 })
        (
          Ranged-raise (length lines) 0 s.line_index (p + 1) s.replacements (omega arith) b fine,
          count,
        )
  after_context-GoesOn h n k failed s within fine = (_, refl, refuse-Fine k _ s fine)
  after_context-GoesOn h n k (ambiguous c) s within fine = (_, refl, refuse-Fine k _ s fine)

  hunk_round-GoesOn :
      (h : PatchHunk) (n k : ℕ) (s : Placing) → Fine k s → GoesOn (suc k) (hunk_round lines h n s)
  unfolding hunk_round
  hunk_round-GoesOn h n k s (fine, count) = elim (Bool-cases (is_empty h.context)) [
    | inl e ↦ rw e (place_hunk-GoesOn h n k s (fine, count))
    | inr e ↦ rw e (
        after_context-GoesOn h n k _ s (seek-Within (h.context ∷ []) false s fine (omega arith))
          (fine, count))
  ]

  place_hunks-GoesOn :
      (hs : List PatchHunk) (n : ℕ) (s : Placing)
      → Fine n s
      → GoesOn (n + length hs) (place_hunks lines hs n s)
  unfolding place_hunks
  place_hunks-GoesOn [] n s (fine, count) = (s, refl, (fine, omega arith))
  place_hunks-GoesOn (h ∷ hs) n s fine =
      let (s', e, fine') = hunk_round-GoesOn h n n s fine in
      let (t, f, fine'') = place_hunks-GoesOn hs (suc n) s' fine' in
      (t, rw (place_hunks, e) f, (fine''.0, omega (arith, fine''.1)))

module _ (content : Text) where
  -- The lines of the file behind a byte order mark.
  abbrev pub body_lines : List FileLine
  body_lines = split_file_lines (drop (length (bom_of content)) content)

  -- What applying hunks may come to: errors and no change; or each hunk has its replacement, and
  -- in the order of the file they are apart and the file is rewritten in one pass.
  abbrev pub Comes : List PatchHunk → Applied → Type 0
  Comes hunks (patched out) =
      (rs : List Replacement) × (qs : List Replacement) × EachServes body_lines hunks rs
      × Perm qs rs
      × Disjoint (length body_lines) 0 qs
      × (out ≡ bom_of content ++ write_lines (weave 0 qs body_lines))
  Comes hunks (refused errors) = (0 < length errors) × (length errors ≤ length hunks)
  Comes hunks out_of_range = ⊥

  finish_hunks-Comes :
      (hunks : List PatchHunk) (s : Placing)
      → Fine body_lines (length hunks) s
      → (is_empty s.errors ≡ true → EachServes body_lines hunks s.replacements)
      → Comes hunks (finish_hunks (bom_of content) body_lines s)
  unfolding finish_hunks
  finish_hunks-Comes hunks s (fine, count) served = elim (Bool-cases (is_empty s.errors)) [
    | inl e ↦
        let apart : Disjoint (length body_lines) 0 (sort_starts s.replacements) =
          sort_starts-Disjoint (length body_lines) 0 s.line_index s.replacements fine in
        rw e (
          s.replacements,
          sort_starts s.replacements,
          served e,
          sort_starts-perm s.replacements,
          apart,
          ap (λ ls. bom_of content ++ write_lines ls)
              (splice-weave 0 (sort_starts s.replacements) body_lines apart),
        )
    | inr e ↦ rw e (is_empty-length s.errors e, omega arith)
  ]

  -- Hunks applied to a file of any bytes never run past the lines they match. Either some hunks have
  -- errors, at most one each, and nothing is changed; or each hunk has one replacement. It stands at the
  -- end of the file, if the hunk has no old lines, or else where the search for the old lines decides, and
  -- covers as many lines; its texts are those of the context lines as they are in the file and those of
  -- the new lines, in the order of the hunk. The ranges are in the file and do not overlap, and the new
  -- file is the byte order mark and the old lines in one pass, those outside the ranges
  -- byte for byte as they were.
  pub apply_hunks-Comes : (hunks : List PatchHunk) → Comes hunks (apply_hunks content hunks)
  unfolding apply_hunks
  apply_hunks-Comes hunks =
      let start : Placing = record { replacements = []; errors = []; line_index = 0 } in
      let (s, e, fine) =
        place_hunks-GoesOn body_lines hunks 0 start ((omega arith, omega arith), omega arith) in
      rw (apply_hunks, e)
        (finish_hunks-Comes hunks s (fine.0, omega (arith, fine.1))
          (λ none_left.
            let (before, (rs, same, served)) =
              place_hunks-EachServes body_lines hunks 0 start s e none_left in
            subst (EachServes body_lines hunks) (sym same) served))

-- ===== src/Patch/Matched.antt =====
-- A hunk runs through the lines it matches, and not past them.
use parrot_coder.Base.{
  ℕ, ◌+◌, ◌≤◌, ◌≡◌, refl, ap, false, List, [], ◌∷◌, ◌++◌, Text, if◌then◌else◌, length, take, drop,
  some, arith, length-take, length-drop,
}
use parrot_coder.Patch.Lines.{FileLine, line_ending_at}
use parrot_coder.Patch.Replace.{
  LineKind, context_line, old_line, new_line, PatchLine, PatchHunk, Replacing, replace_line,
  replace_each, replacement_lines, ends_unterminated, end_unterminated,
}
use parrot_coder.Patch.Apply.{Placing, keep_old, old_lines, place_at}

line-matched :
    (k : LineKind) (t : Text) (ms : List FileLine) (r : Replacing) (ts : List Text)
    → r.matched ≡ ms
    → length ms ≡ length (keep_old k t ts)
    → (r' : Replacing) × (replace_line k t ms r ≡ some r') × (length r'.matched ≡ length ts)
unfolding replace_line
line-matched context_line t [] r ts e h = absurd (omega arith)
line-matched context_line t (m ∷ ms) r ts e h = (_, refl, omega arith)
line-matched old_line t [] r ts e h = absurd (omega arith)
line-matched old_line t (m ∷ ms) r ts e h = (_, refl, omega arith)
line-matched new_line t ms r ts e h = (_, refl, omega (arith, ap length e))

each-matched :
    (ps : List PatchLine) (r : Replacing)
    → length r.matched ≡ length (old_lines ps)
    → (new : List FileLine) × (replace_each ps r ≡ some new)
unfolding replace_each old_lines
each-matched [] r h = (r.result, refl)
each-matched (p ∷ ps) r h =
    let (r', e, h') = line-matched p.kind p.text r.matched r (old_lines ps) refl h in
    let (new, f) = each-matched ps r' h' in (new, rw (replace_each, e) f)

replacement_lines-some :
    (ps : List PatchLine) (matched : List FileLine) (line_ending : Text)
    → length matched ≡ length (old_lines ps)
    → (new : List FileLine) × (replacement_lines ps matched line_ending ≡ some new)
unfolding replacement_lines
replacement_lines-some ps matched line_ending h =
    let (new, e) =
      each-matched ps
        (record {
          result = [];
          matched = matched;
          matched_deletion = false;
          line_ending = line_ending;
        })
        h in
    (
      if ends_unterminated matched then end_unterminated new else new,
      rw (replacement_lines, e) refl,
    )

-- A hunk that is placed within the lines gets its replacement.
pub place_at-some :
    (lines : List FileLine) (h : PatchHunk) (start : ℕ) (s : Placing)
    → start + length (old_lines h.lines) ≤ length lines
    → (new : List FileLine) × (place_at lines h start s
        ≡ some (record s {
          replacements =
              s.replacements
              ++ (record { start = start; old = length (old_lines h.lines); lines = new } ∷ []);
        }))
unfolding place_at
place_at-some lines h start s fits =
    let old : ℕ = length (old_lines h.lines) in
    let full : length (take old (drop start lines)) ≡ old =
      omega (arith, length-take old (drop start lines), length-drop start lines) in
    let (new, e) =
      replacement_lines-some h.lines (take old (drop start lines)) (line_ending_at lines start)
        full in
    (new, rw (place_at, e) refl)

-- ===== src/Patch/Edited.antt =====
-- The texts that a hunk puts in place of the lines it matches.
use mathlib.Core.List.{append_assoc, append-nil}
use parrot_coder.Base.{
  ◌≡◌, inl, inr, refl, ap, sym, ◌∙◌, subst, List, [], ◌∷◌, ◌++◌, Text, false, arith, Option, none,
  some, Bool-cases, Option-cases,
}
use parrot_coder.Patch.Lines.{FileLine, line_texts}
use parrot_coder.Patch.Replace.{
  LineKind, context_line, old_line, new_line, PatchLine, Replacing, replace_line, replace_each,
  replacement_lines, ends_unterminated, end_unterminated,
}

-- The texts that lines of a hunk leave of the lines they match: a context line keeps the file's own
-- text, an old line goes, a new line brings its text.
abbrev pub edit_text : LineKind → Text → List Text → (List Text → List Text) → List Text
edit_text context_line t [] rest = []
edit_text context_line t (m ∷ ms) rest = m ∷ rest ms
edit_text old_line t [] rest = []
edit_text old_line t (m ∷ ms) rest = rest ms
edit_text new_line t ms rest = t ∷ rest ms

unfoldable pub edited : List PatchLine → List Text → List Text
edited [] ms = []
edited (p ∷ ps) ms = edit_text p.kind p.text ms (edited ps)

line_texts-append : (a b : List FileLine) → line_texts (a ++ b) ≡ line_texts a ++ line_texts b
unfolding line_texts
line_texts-append [] b = refl
line_texts-append (x ∷ a) b = ap (λ ts. x.text ∷ ts) (line_texts-append a b)

module _ (ps : List PatchLine) where
  -- The texts after one line of the hunk, in front of those of the others.
  unfoldable Continues : LineKind → Text → List FileLine → List FileLine → Option Replacing → Type 0
  Continues k t ms result none = Unit {0}
  Continues k t ms result (some r) =
      line_texts r.result ++ edited ps (line_texts r.matched)
      ≡ line_texts result ++ edit_text k t (line_texts ms) (edited ps)

  kept_text :
      (result : List FileLine) (l : FileLine) (ts : List Text)
      → line_texts (result ++ (l ∷ [])) ++ ts ≡ line_texts result ++ (l.text ∷ ts)
  unfolding line_texts
  kept_text result l ts =
      ap (λ xs. xs ++ ts) (line_texts-append result (l ∷ []))
      ∙ append_assoc (line_texts result) (l.text ∷ []) ts

  replace_line-Continues :
      (k : LineKind) (t : Text) (ms : List FileLine) (r : Replacing)
      → r.matched ≡ ms
      → Continues k t ms r.result (replace_line k t ms r)
  unfolding replace_line Continues line_texts
  replace_line-Continues context_line t [] r e = tt
  replace_line-Continues context_line t (m ∷ ms) r e =
      kept_text r.result m (edited ps (line_texts ms))
  replace_line-Continues old_line t [] r e = tt
  replace_line-Continues old_line t (m ∷ ms) r e = refl
  replace_line-Continues new_line t ms r e =
      kept_text r.result (record { text = t; terminator = r.line_ending })
        (edited ps (line_texts r.matched))
      ∙ ap (λ xs. line_texts r.result ++ (t ∷ edited ps (line_texts xs))) e

replace_each-edited :
    (ps : List PatchLine) (r : Replacing) (new : List FileLine)
    → replace_each ps r ≡ some new
    → line_texts new ≡ line_texts r.result ++ edited ps (line_texts r.matched)
unfolding replace_each edited Continues
replace_each-edited [] r new h =
    let same : r.result ≡ new = cc in
    ap line_texts (sym same) ∙ sym (append-nil (line_texts r.result))
replace_each-edited (p ∷ ps) r new h =
    elim (Option-cases (replace_line p.kind p.text r.matched r)) [
      | inl q ↦ absurd (ground (arith, q))
      | inr (r', q) ↦
          let later : replace_each ps r' ≡ some new = ground (arith, q) in
          let step : Continues ps p.kind p.text r.matched r.result (some r') =
            subst (Continues ps p.kind p.text r.matched r.result) q
              (replace_line-Continues ps p.kind p.text r.matched r refl) in
          replace_each-edited ps r' new later ∙ step
    ]

line_texts-end_unterminated :
    (ls : List FileLine) → line_texts (end_unterminated ls) ≡ line_texts ls
unfolding end_unterminated line_texts
line_texts-end_unterminated [] = refl
line_texts-end_unterminated (l ∷ []) = refl
line_texts-end_unterminated (l ∷ m ∷ ls) =
    ap (λ ts. l.text ∷ ts) (line_texts-end_unterminated (m ∷ ls))

pub replacement_lines-edited :
    (ps : List PatchLine) (matched : List FileLine) (ending : Text) (new : List FileLine)
    → replacement_lines ps matched ending ≡ some new
    → line_texts new ≡ edited ps (line_texts matched)
unfolding replacement_lines line_texts
replacement_lines-edited ps matched ending new h =
    elim (Option-cases (
      replace_each ps (record {
        result = [];
        matched = matched;
        matched_deletion = false;
        line_ending = ending;
      }))) [
        | inl q ↦ absurd (ground (arith, q))
        | inr (out, q) ↦
            let texts : line_texts out ≡ edited ps (line_texts matched) =
              replace_each-edited ps _ out q in
            elim (Bool-cases (ends_unterminated matched)) [
              | inl e ↦
                  let same : end_unterminated out ≡ new = ground (arith, q, e) in
                  ap line_texts (sym same) ∙ (line_texts-end_unterminated out ∙ texts)
              | inr e ↦
                  let same : out ≡ new = ground (arith, q, e) in ap line_texts (sym same) ∙ texts
            ]
      ]

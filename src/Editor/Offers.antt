-- ===== src/Editor/Offers.antt =====
-- The limits on texts, for the menu of completions and for the history of an editor.
use parrot_coder.Base.{
  ℕ, ◌-◌, min, ◌≡◌, inl, inr, true, not, ◌||◌, List, [], ◌∷◌, ◌++◌, Text, ltb, Bool-cases, text_eq,
  arith, length, All, All-append, All-drop, is_empty, length-append, length-drop,
}
use parrot_coder.Editor.Types.{Candidate, Editor, State, fits}
use parrot_coder.Editor.Setup.{
  has_prefix, matches_from, completion_matches, visible_matches, add_history, keep_newest,
  is_newest, has_command_arguments,
}
use parrot_coder.Editor.Measure.{Fits, fits-Fits}
use parrot_coder.Editor.Keys.{visible}
use parrot_coder.Editor.Invariant.{Roomy, SoundEditor, Sound}

All-matches_from :
    (P : Candidate → Type 0) (input : Text) (found cs : List Candidate)
    → All P found
    → All P cs
    → All P (matches_from input found cs)
All-matches_from P input found [] a b = a
All-matches_from P input found (c ∷ cs) a b = elim (Bool-cases (text_eq c.value input)) [
  | inl q ↦ rw q (All-matches_from P input (c ∷ found) cs (b.0, a) b.1)
  | inr q ↦ elim (Bool-cases (has_prefix c.value input)) [
    | inl r ↦
        rw (q, r)
          (All-matches_from P input (found ++ c ∷ []) cs (All-append P found (c ∷ []) a (b.0, tt))
            b.1)
    | inr r ↦ rw (q, r) (All-matches_from P input found cs a b.1)
  ]
]

-- What is offered has the properties of all completions.
pub All-completion_matches :
    (P : Candidate → Type 0) (e : Editor) (input : Text)
    → All P e.completions
    → All P (completion_matches e input)
unfolding completion_matches
All-completion_matches P e input a =
    elim (Bool-cases
      (not (has_prefix input (47 ∷ [])) || parrot_coder.Editor.Setup.has_newline input)) [
        | inl q ↦ rw q tt
        | inr q ↦ rw q (All-matches_from P input [] e.completions tt a)
      ]

pub visible-Roomy :
    (e : Editor) (s : State) → SoundEditor e → Sound e s → All (Roomy e) (visible e s)
unfolding visible_matches
visible-Roomy e s d h = elim (Bool-cases s.menu_closed) [
  | inl q ↦ rw q tt
  | inr q ↦ elim (Bool-cases (is_empty s.tab_matches)) [
    | inl r ↦ rw (q, r) (All-completion_matches (Roomy e) e s.buffer d.completions_fit)
    | inr r ↦ rw (q, r) h.tabs_fit
  ]
]

All-keep_newest : (P : Text → Type 0) (n : ℕ) (hs : List Text) → All P hs → All P (keep_newest n hs)
unfolding keep_newest
All-keep_newest P n hs a = elim (Bool-cases (ltb n (length hs))) [
  | inl q ↦ rw q (All-drop P (length hs - n) hs a)
  | inr q ↦ rw q a
]

pub length-keep_newest : (n : ℕ) (hs : List Text) → length (keep_newest n hs) ≡ min n (length hs)
unfolding keep_newest
length-keep_newest n hs = ground (arith, length-drop (length hs - n) hs)

abbrev pub with_newest : Text → Editor → Editor
with_newest value e = record e { history = keep_newest e.max_history (e.history ++ value ∷ []) }

-- An entry is refused or put at the end, and a property of both cases is one of the result.
pub add_history_cases :
    (P : Editor → Type 0) (value : Text) (e : Editor)
    → P e
    → (fits e value ≡ true → P (with_newest value e))
    → P (add_history value e)
unfolding add_history
add_history_cases P value e old new = elim (Bool-cases (is_empty value || not (fits e value))) [
  | inl q₁ ↦ rw q₁ old
  | inr q₁ ↦ elim (Bool-cases (is_newest value e.history)) [
    | inl q₂ ↦ rw (q₁, q₂) old
    | inr q₂ ↦ rw (q₁, q₂) (new (ground arith))
  ]
]

pub add_history-SoundEditor :
    (value : Text) (e : Editor) → SoundEditor e → SoundEditor (add_history value e)
add_history-SoundEditor value e d = add_history_cases SoundEditor value e d (λ f. record {
  entries_fit =
      All-keep_newest (Fits e) e.max_history (e.history ++ value ∷ [])
        (All-append (Fits e) e.history (value ∷ []) d.entries_fit (fits-Fits e value f, tt));
  few_entries = omega (arith, length-keep_newest e.max_history (e.history ++ value ∷ []));
  completions_fit = d.completions_fit;
})

-- A session stays sound, since the limits stay and the history gets no shorter.
pub add_history-Sound :
    (value : Text) (e : Editor) (s : State)
    → SoundEditor e
    → Sound e s
    → Sound (add_history value e) s
add_history-Sound value e s d h =
    add_history_cases (λ e'. Sound e' s) value e h
      (λ f. record {
        cursor_in = h.cursor_in;
        buffer_fits = h.buffer_fits;
        draft_fits = h.draft_fits;
        index_in = omega (
          arith,
          h.index_in,
          d.few_entries,
          length-keep_newest e.max_history (e.history ++ value ∷ []),
          length-append e.history (value ∷ []),
        );
        tabs_fit = h.tabs_fit;
      })

-- ===== src/Editor/Candidates.antt =====
-- The completions that an editor keeps and the ones it offers, and the editor that NewEditor makes.
use parrot_coder.Base.{
  ℕ, ◌≡◌, inl, inr, sym, true, false, ◌≢◌, subst, ◌∙◌, List, [], ◌∷◌, ◌++◌, Text, text_eq,
  text_eq_iff, text_eq_sym, text_lt, text_lt_asym, text_lt_total, text_le_trans, if◌then◌else◌,
  Bool-cases, arith, All,
}
use mathlib.Core.Bool.{true≢false}
use mathlib.Core.List.{Perm}
use mathlib.Core.List.Perm
use parrot_coder.Editor.Types.{Candidate, Editor}
use parrot_coder.Editor.Setup.{
  valid_candidate, valid_candidates, before, place_candidate, sort_candidates, set_completions,
  add_history, add_all, positive_or, new_editor,
}
use parrot_coder.Editor.Measure.{Within}
use parrot_coder.Editor.Invariant.{SoundEditor}
use parrot_coder.Editor.Offers.{add_history-SoundEditor}

-- No later candidate comes before an earlier one.
abbrev pub IsOrdered : List Candidate → Type 0
IsOrdered [] = Unit {0}
IsOrdered (c ∷ cs) = All (λ d. before d c ≡ false) cs × IsOrdered cs

before_asym : (a b : Candidate) → before a b ≡ true → before b a ≡ false
unfolding before
before_asym a b h = ground (
  arith,
  text_lt_asym a.description b.description,
  text_lt_asym a.value b.value,
  text_eq_sym a.value b.value,
)

-- A text that is neither below nor above another is that text.
crossed : (s t u : Text) → text_lt t s ≡ false → text_lt u t ≡ false → text_eq t s ≡ false → u ≢ s
crossed s t u h k q e = true≢false (
    sym (text_lt_total t s h (λ (d : t ≡ s). true≢false (sym ((text_eq_iff t s).1 d) ∙ q)))
    ∙ subst (λ (x : Text). text_lt x t ≡ false) e k)

-- The order on the two texts of a candidate: the first decides unless it is the same.
pair_le_trans :
    (s t u s' t' u' : Text)
    → (if text_eq t s then text_lt t' s' else text_lt t s) ≡ false
    → (if text_eq u t then text_lt u' t' else text_lt u t) ≡ false
    → (if text_eq u s then text_lt u' s' else text_lt u s) ≡ false
pair_le_trans s t u s' t' u' h k = elim (Bool-cases (text_eq t s)) [
  | inl q ↦
      let same : t ≡ s = (text_eq_iff t s).0 q in
      subst (λ (x : Text). (if text_eq u x then text_lt u' s' else text_lt u x) ≡ false) same
        (elim (Bool-cases (text_eq u t)) [
          | inl r ↦ rw r (text_le_trans s' t' u' (ground arith) (ground arith))
          | inr r ↦ rw r (ground arith)
        ])
  | inr q ↦ elim (Bool-cases (text_eq u t)) [
    | inl r ↦
        let same : u ≡ t = (text_eq_iff u t).0 r in
        subst (λ (x : Text). (if text_eq x s then text_lt u' s' else text_lt x s) ≡ false)
          (sym same) (rw q (ground arith))
    | inr r ↦ elim (Bool-cases (text_eq u s)) [
      | inl w ↦ absurd (crossed s t u (ground arith) (ground arith) q ((text_eq_iff u s).0 w))
      | inr w ↦ rw w (text_le_trans s t u (ground arith) (ground arith))
    ]
  ]
]

before_trans : (a b c : Candidate) → before b a ≡ false → before c b ≡ false → before c a ≡ false
unfolding before
before_trans a b c h k =
    pair_le_trans a.value b.value c.value a.description b.description c.description h k

place_candidate-perm : (c : Candidate) (ds : List Candidate) → Perm (place_candidate c ds) (c ∷ ds)
unfolding place_candidate
place_candidate-perm c [] = Perm.refl (c ∷ [])
place_candidate-perm c (d ∷ ds) = elim (Bool-cases (before d c)) [
  | inl q ↦ rw q (Perm.trans (Perm.cons d (place_candidate-perm c ds)) (Perm.swap c d ds))
  | inr q ↦ rw q (Perm.refl (c ∷ d ∷ ds))
]

sort_candidates-perm : (cs : List Candidate) → Perm (sort_candidates cs) cs
unfolding sort_candidates
sort_candidates-perm [] = Perm.refl []
sort_candidates-perm (c ∷ cs) =
    Perm.trans (place_candidate-perm c (sort_candidates cs)) (Perm.cons c (sort_candidates-perm cs))

All-place_candidate :
    (P : Candidate → Type 0) (c : Candidate) (ds : List Candidate)
    → P c
    → All P ds
    → All P (place_candidate c ds)
unfolding place_candidate
All-place_candidate P c [] p a = (p, tt)
All-place_candidate P c (d ∷ ds) p a = elim (Bool-cases (before d c)) [
  | inl q ↦ rw q (a.0, All-place_candidate P c ds p a.1)
  | inr q ↦ rw q (p, a)
]

All-above :
    (c d : Candidate) (ds : List Candidate)
    → before d c ≡ false
    → All (λ u. before u d ≡ false) ds
    → All (λ u. before u c ≡ false) ds
All-above c d [] h a = tt
All-above c d (u ∷ us) h a = (before_trans c d u h a.0, All-above c d us h a.1)

place_candidate-IsOrdered :
    (c : Candidate) (ds : List Candidate) → IsOrdered ds → IsOrdered (place_candidate c ds)
unfolding place_candidate
place_candidate-IsOrdered c [] a = (tt, tt)
place_candidate-IsOrdered c (d ∷ ds) a = elim (Bool-cases (before d c)) [
  | inl q ↦ rw q (
    All-place_candidate (λ u. before u d ≡ false) c ds (before_asym d c q) a.0,
    place_candidate-IsOrdered c ds a.1,
  )
  | inr q ↦ rw q ((q, All-above c d ds q a.0), a)
]

sort_candidates-IsOrdered : (cs : List Candidate) → IsOrdered (sort_candidates cs)
unfolding sort_candidates
sort_candidates-IsOrdered [] = tt
sort_candidates-IsOrdered (c ∷ cs) =
    place_candidate-IsOrdered c (sort_candidates cs) (sort_candidates-IsOrdered cs)

All-sort_candidates :
    (P : Candidate → Type 0) (cs : List Candidate) → All P cs → All P (sort_candidates cs)
unfolding sort_candidates
All-sort_candidates P [] a = tt
All-sort_candidates P (c ∷ cs) a =
    All-place_candidate P c (sort_candidates cs) a.0 (All-sort_candidates P cs a.1)

All-valid_candidates :
    (P : Candidate → Type 0) (cs : List Candidate) → All P cs → All P (valid_candidates cs)
All-valid_candidates P [] a = tt
All-valid_candidates P (c ∷ cs) a = elim (Bool-cases (valid_candidate c)) [
  | inl q ↦ rw q (a.0, All-valid_candidates P cs a.1)
  | inr q ↦ rw q (All-valid_candidates P cs a.1)
]

valid_candidates-All :
    (cs : List Candidate) → All (λ c. valid_candidate c ≡ true) (valid_candidates cs)
valid_candidates-All [] = tt
valid_candidates-All (c ∷ cs) = elim (Bool-cases (valid_candidate c)) [
  | inl q ↦ rw q (q, valid_candidates-All cs)
  | inr q ↦ rw q (valid_candidates-All cs)
]

-- What SetCompletions keeps: the valid candidates, each as often as it was given, in the order of
-- value and description, and nothing that is not valid.
pub record Completed (given : List Candidate) (e : Editor) : Type 0 where
  pub same : Perm e.completions (valid_candidates given)
  pub ordered : IsOrdered e.completions
  pub all_valid : All (λ c. valid_candidate c ≡ true) e.completions

-- SetCompletions keeps the valid candidates, sorted, whatever the editor had before.
pub set_completions-Completed :
    (given : List Candidate) (e : Editor) → Completed given (set_completions given e)
unfolding set_completions
set_completions-Completed given e = record {
  same = sort_candidates-perm (valid_candidates given);
  ordered = sort_candidates-IsOrdered (valid_candidates given);
  all_valid =
      All-sort_candidates (λ c. valid_candidate c ≡ true) (valid_candidates given)
        (valid_candidates-All given);
}

add_all-SoundEditor : (hs : List Text) (e : Editor) → SoundEditor e → SoundEditor (add_all hs e)
add_all-SoundEditor [] e d = d
add_all-SoundEditor (h ∷ hs) e d =
    add_all-SoundEditor hs (add_history h e) (add_history-SoundEditor h e d)

-- Room for a completion and a space, within the limits that are asked for.
abbrev pub HasRoom : ℕ → ℕ → Candidate → Type 0
HasRoom max_bytes max_runes c =
    Within (positive_or 65_536 max_bytes) (positive_or 65_536 max_runes) c.value
    × Within (positive_or 65_536 max_bytes) (positive_or 65_536 max_runes) (c.value ++ 32 ∷ [])

-- NewEditor makes a sound editor, whatever history and options it is given, if each completion has
-- room within the limits: entries that do not fit are dropped, and the history is bounded.
pub new_editor-SoundEditor :
    (prompt : Text) (max_bytes max_runes max_history rows : ℕ) (history : List Text)
    (completions : List Candidate)
    → All (HasRoom max_bytes max_runes) completions
    → SoundEditor (new_editor prompt max_bytes max_runes max_history rows history completions)
unfolding set_completions
new_editor-SoundEditor prompt max_bytes max_runes max_history rows history completions a =
    add_all-SoundEditor history _ (record {
      entries_fit = tt;
      few_entries = omega arith;
      completions_fit =
          All-sort_candidates (HasRoom max_bytes max_runes) (valid_candidates completions)
            (All-valid_candidates (HasRoom max_bytes max_runes) completions a);
    })

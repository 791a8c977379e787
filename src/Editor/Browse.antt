-- ===== src/Editor/Browse.antt =====
-- The keys that move in the history and in the menu, and the ones that take a candidate.
use parrot_coder.Base.{
  ℕ, suc, ◌-◌, min, ◌≤◌, inl, inr, refl, not, ◌&&◌, some, Text, ltb, ◌==◌, Bool-cases, text_eq,
  arith, length, get_elem?-All, is_empty, is_empty-length,
}
use parrot_coder.Editor.Types.{Candidate, Editor, State, canceled}
use parrot_coder.Editor.Setup.{has_command_arguments}
use parrot_coder.Editor.Measure.{Fits}
use parrot_coder.Editor.Keys.{
  recalled, older, newer, visible, up_key, down_key, escape_key, submit, choose, enter_key,
}
use parrot_coder.Editor.Invariant.{
  Roomy, SoundEditor, Sound, SoundAction, Works, Sound-put, stopped-Works,
}
use parrot_coder.Editor.Offers.{visible-Roomy, add_history-SoundEditor, add_history-Sound}

recalled-Works :
    (e : Editor) (s : State) (value : Text)
    → Sound e s
    → Fits e value
    → Works e (recalled s (some value))
recalled-Works e s value h f = (_, refl, Sound-put e s value (length value) h f (omega arith))

at_index :
    (e : Editor) (s : State) (i : ℕ)
    → Sound e s
    → i ≤ length e.history
    → Sound e (record s { history_index = i })
at_index e s i h k = record {
  cursor_in = h.cursor_in;
  buffer_fits = h.buffer_fits;
  draft_fits = h.draft_fits;
  index_in = k;
  tabs_fit = h.tabs_fit;
}

pub reselected : (e : Editor) (s : State) (i : ℕ) → Sound e s → Sound e (record s { selected = i })
reselected e s i h = record {
  cursor_in = h.cursor_in;
  buffer_fits = h.buffer_fits;
  draft_fits = h.draft_fits;
  index_in = h.index_in;
  tabs_fit = h.tabs_fit;
}

pub older-Works : (e : Editor) (s : State) → SoundEditor e → Sound e s → Works e (older e s)
unfolding older
older-Works e s d h = elim (Bool-cases (ltb 0 s.history_index)) [
  | inr q ↦ rw q (_, refl, h)
  | inl q ↦
      let (value, r, f) =
        get_elem?-All (s.history_index - 1) e.history (ground (arith, h.index_in)) d.entries_fit in
      rw (q, r)
        (
          _,
          refl,
          record {
            cursor_in = omega arith;
            buffer_fits = f;
            draft_fits = elim (Bool-cases (s.history_index == length e.history)) [
              | inl u ↦ rw u h.buffer_fits
              | inr u ↦ rw u h.draft_fits
            ];
            index_in = omega (arith, h.index_in);
            tabs_fit = h.tabs_fit;
          },
        )
]

pub newer-Works : (e : Editor) (s : State) → SoundEditor e → Sound e s → Works e (newer e s)
unfolding newer
newer-Works e s d h = elim (Bool-cases (ltb s.history_index (length e.history))) [
  | inr q ↦ rw q (_, refl, h)
  | inl q ↦ elim (Bool-cases (suc s.history_index == length e.history)) [
    | inl u ↦
        rw (q, u)
          (recalled-Works e (record s { history_index = suc s.history_index }) s.history_draft
            (at_index e s (suc s.history_index) h (ground arith)) h.draft_fits)
    | inr u ↦
        let (value, r, f) =
          get_elem?-All (suc s.history_index) e.history (ground arith) d.entries_fit in
        rw (q, u, r)
          (recalled-Works e (record s { history_index = suc s.history_index }) value
            (at_index e s (suc s.history_index) h (ground arith)) f)
  ]
]

pub up_key-Works : (e : Editor) (s : State) → SoundEditor e → Sound e s → Works e (up_key e s)
unfolding up_key
up_key-Works e s d h = elim (Bool-cases (ltb 0 (length (visible e s)))) [
  | inl q ↦ rw q (_, refl, reselected e s _ h)
  | inr q ↦ rw q (older-Works e s d h)
]

pub down_key-Works : (e : Editor) (s : State) → SoundEditor e → Sound e s → Works e (down_key e s)
unfolding down_key
down_key-Works e s d h = elim (Bool-cases (ltb 0 (length (visible e s)))) [
  | inl q ↦ rw q (_, refl, reselected e s _ h)
  | inr q ↦ rw q (newer-Works e s d h)
]

pub escape_key-Works :
    (e : Editor) (s : State) → SoundEditor e → Sound e s → Works e (escape_key e s)
unfolding escape_key
escape_key-Works e s d h = elim (Bool-cases (is_empty (visible e s))) [
  | inl q ↦ rw q (_, refl, stopped-Works e s canceled d h)
  | inr q ↦ rw q (
    _,
    refl,
    record {
      cursor_in = h.cursor_in;
      buffer_fits = h.buffer_fits;
      draft_fits = h.draft_fits;
      index_in = h.index_in;
      tabs_fit = tt;
    },
  )
]

submit-Sound : (e : Editor) (s : State) → SoundEditor e → Sound e s → SoundAction e (submit e s)
submit-Sound e s d h =
    let h' = add_history-Sound s.buffer e s d h in
    (add_history-SoundEditor s.buffer e d, h', h'.buffer_fits)

choose-Works :
    (e : Editor) (s : State) (c : Candidate)
    → SoundEditor e
    → Sound e s
    → Roomy e c
    → Works e (choose e s (some c))
unfolding choose
choose-Works e s c d h r =
    elim (Bool-cases (not (text_eq s.buffer c.value) && not (has_command_arguments e s.buffer))) [
      | inl q ↦ rw q (
        _,
        refl,
        record {
          cursor_in = omega arith;
          buffer_fits = r.1;
          draft_fits = h.draft_fits;
          index_in = h.index_in;
          tabs_fit = tt;
        },
      )
      | inr q ↦ rw q (_, refl, submit-Sound e s d h)
    ]

pub enter_key-Works : (e : Editor) (s : State) → SoundEditor e → Sound e s → Works e (enter_key e s)
unfolding enter_key
enter_key-Works e s d h = elim (Bool-cases (is_empty (visible e s))) [
  | inl q ↦ rw q (_, refl, submit-Sound e s d h)
  | inr q ↦
      let at = min s.selected (length (visible e s) - 1) in
      let (c, r, f) =
        get_elem?-All at (visible e s) (omega (arith, is_empty-length (visible e s) q))
          (visible-Roomy e s d h) in
      rw (q, r) (choose-Works e (record s { selected = at }) c d (reselected e s at h) f)
]

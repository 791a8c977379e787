-- ===== src/Editor/Safety.antt =====
-- The keys of EditorState.Handle on a session that has been drawn.
use parrot_coder.Base.{
  with_newlines, ℕ, suc, ◌-◌, ◌%◌, ◌≡◌, ◌<◌, inl, inr, refl, true, false, ◌∷◌, List, [], some, ltb,
  Bool-cases, arith, length, All, get_elem?-All, is_empty, is_empty-length,
}
use native.Mathlib.Nat.{mod-lt}
use parrot_coder.Editor.Types.{
  Candidate, Editor, State, Key, rune, paste, left, right, home, end, backspace, delete, kill_line,
  end_of_file, newline, up, down, tab, escape, interrupt, mode_switch, ignored, enter, interrupted,
  eof,
}
use parrot_coder.Editor.Setup.{completion_matches}
use parrot_coder.Editor.Measure.{Fits}
use parrot_coder.Editor.Keys.{
  Action, edited, kept, returned, select_tab, tab_key, act, Reply, finished, handle, line_start,
  line_end,
}
use parrot_coder.Editor.Invariant.{
  Roomy, SoundEditor, Sound, SoundAction, Works, Sound-put, stopped-Works, insert_key-Works,
  delete_key-Sound, backspace_key-Works, kill_key-Sound, line_start_le, line_end_le,
}
use parrot_coder.Editor.Browse.{up_key-Works, down_key-Works, escape_key-Works, enter_key-Works}
use parrot_coder.Editor.Offers.{All-completion_matches}

-- The selection is an index of the completions that the tab key would start from.
abbrev pub IsDrawn : Editor → State → Type 0
IsDrawn e s =
    is_empty s.tab_matches ≡ true
    → 0 < length (completion_matches e s.buffer)
    → s.selected < length (completion_matches e s.buffer)

taken-Works :
    (e : Editor) (s : State)
    → Sound e s
    → (is_empty s.tab_matches ≡ false → s.tab_index < length s.tab_matches)
    → Works e (select_tab s)
unfolding select_tab
taken-Works e s h k = elim (Bool-cases (is_empty s.tab_matches)) [
  | inl q ↦ rw q (_, refl, h)
  | inr q ↦
      let (c, r, f) = get_elem?-All s.tab_index s.tab_matches (k q) h.tabs_fit in
      rw (q, r)
        (
          _,
          refl,
          record {
            cursor_in = omega arith;
            buffer_fits = f.0;
            draft_fits = h.draft_fits;
            index_in = h.index_in;
            tabs_fit = h.tabs_fit;
          },
        )
]

with_tabs :
    (e : Editor) (s : State) (tabs : List Candidate) (i : ℕ)
    → Sound e s
    → All (Roomy e) tabs
    → Sound e (record s { tab_matches = tabs; tab_index = i })
with_tabs e s tabs i h a = record {
  cursor_in = h.cursor_in;
  buffer_fits = h.buffer_fits;
  draft_fits = h.draft_fits;
  index_in = h.index_in;
  tabs_fit = a;
}

tab_key-Works :
    (e : Editor) (s : State) → SoundEditor e → Sound e s → IsDrawn e s → Works e (tab_key e s)
unfolding tab_key
tab_key-Works e s d h k = elim (Bool-cases (is_empty s.tab_matches)) [
  | inl q ↦ rw q (
      taken-Works e
        (record s { tab_matches = completion_matches e s.buffer; tab_index = s.selected })
        (with_tabs e s (completion_matches e s.buffer) s.selected h
          (All-completion_matches (Roomy e) e s.buffer d.completions_fit))
        (λ r. k q (is_empty-length (completion_matches e s.buffer) r)))
  | inr q ↦ rw q (
      taken-Works e (record s { tab_index = suc s.tab_index % length s.tab_matches })
        (with_tabs e s s.tab_matches (suc s.tab_index % length s.tab_matches) h h.tabs_fit)
        (λ r. mod-lt (suc s.tab_index) (is_empty-length s.tab_matches r)))
]

-- A key on a drawn session.
act-Works :
    (e : Editor) (s : State) (key : Key)
    → SoundEditor e
    → Sound e s
    → IsDrawn e s
    → Works e (act e s key)
unfolding act
act-Works e s (rune r) d h k = insert_key-Works e s (r ∷ []) d h
act-Works e s (paste text) d h k = insert_key-Works e s (with_newlines text) d h
act-Works e s left d h k =
    (_, refl, Sound-put e s s.buffer (s.cursor - 1) h h.buffer_fits (omega (arith, h.cursor_in)))
act-Works e s right d h k = elim (Bool-cases (ltb s.cursor (length s.buffer))) [
  | inl q ↦ rw q (_, refl, Sound-put e s s.buffer (suc s.cursor) h h.buffer_fits (ground arith))
  | inr q ↦ rw q (_, refl, h)
]
act-Works e s home d h k = (
  _,
  refl,
  Sound-put e s s.buffer (line_start s.buffer s.cursor) h h.buffer_fits
      (omega (arith, h.cursor_in, line_start_le s.buffer s.cursor)),
)
act-Works e s end d h k = (
  _,
  refl,
  Sound-put e s s.buffer (line_end s.buffer s.cursor) h h.buffer_fits
      (line_end_le s.buffer s.cursor h.cursor_in),
)
act-Works e s backspace d h k = backspace_key-Works e s h
act-Works e s delete d h k = (_, refl, delete_key-Sound e s h)
act-Works e s kill_line d h k = (_, refl, kill_key-Sound e s h)
act-Works e s end_of_file d h k = elim (Bool-cases (is_empty s.buffer)) [
  | inl q ↦ rw q (_, refl, stopped-Works e s eof d h)
  | inr q ↦ rw q (_, refl, delete_key-Sound e s h)
]
act-Works e s newline d h k = insert_key-Works e s (10 ∷ []) d h
act-Works e s up d h k = up_key-Works e s d h
act-Works e s down d h k = down_key-Works e s d h
act-Works e s tab d h k = tab_key-Works e s d h k
act-Works e s escape d h k = escape_key-Works e s d h
act-Works e s interrupt d h k = (_, refl, stopped-Works e s interrupted d h)
act-Works e s mode_switch d h k = (_, refl, h)
act-Works e s ignored d h k = (_, refl, h)
act-Works e s enter d h k = enter_key-Works e s d h

-- A reply whose editor and session are sound, with a value within the limits.
pub record SoundReply (reply : Reply) : Type 0 where
  pub editor_sound : SoundEditor reply.editor
  pub state_sound : Sound reply.editor reply.state
  pub value_fits : Fits reply.editor reply.result.value

finished-SoundReply :
    (e : Editor) (a : Action) → SoundEditor e → SoundAction e a → SoundReply (finished e a)
unfolding finished
finished-SoundReply e (edited s) d h = record {
  editor_sound = d;
  state_sound = record {
    cursor_in = h.cursor_in;
    buffer_fits = h.buffer_fits;
    draft_fits = h.draft_fits;
    index_in = omega arith;
    tabs_fit = tt;
  };
  value_fits = record { valid = refl; few_bytes = omega arith; few_runes = omega arith };
}
finished-SoundReply e (kept s) d h = record {
  editor_sound = d;
  state_sound = h;
  value_fits = record { valid = refl; few_bytes = omega arith; few_runes = omega arith };
}
finished-SoundReply e (returned e' s r) d h = record {
  editor_sound = h.0;
  state_sound = h.1;
  value_fits = h.2;
}

-- On a sound session that is drawn, each key is handled without a panic, and the editor and the
-- session stay sound: the cursor is in the text, the text and the history are within the limits.
pub handle-SoundReply :
    (e : Editor) (s : State) (key : Key)
    → SoundEditor e
    → Sound e s
    → IsDrawn e s
    → (reply : Reply) × (handle e s key ≡ some reply) × SoundReply reply
unfolding handle
handle-SoundReply e s key d h k =
    let (a, q, w) = act-Works e s key d h k in
    rw q (finished e a, refl, finished-SoundReply e a d w)

-- ===== src/Editor/Reading.antt =====
-- The loop of ReadInitial, with the redraw before each key.
use parrot_coder.Base.{
  ℕ, ◌-◌, min, ◌≡◌, ◌<◌, inl, inr, refl, Bool, true, false, ◌∷◌, List, [], Option, none, some, Text,
  Bool-cases, arith, length, is_empty,
}
use parrot_coder.Editor.Types.{Candidate, Editor, State, Error, fits}
use parrot_coder.Editor.Setup.{completion_matches, visible_matches}
use parrot_coder.Editor.Measure.{Fits, fits-Fits}
use parrot_coder.Editor.Keys.{visible}
use parrot_coder.Editor.Invariant.{SoundEditor, Sound}
use parrot_coder.Editor.Browse.{reselected}
use parrot_coder.Editor.Session.{
  fresh, start, prompt_state, Input, pressed, read_fails, draw_fails, Reading, waiting, ready,
  Screen, drawn, finish, read_keys, read_initial,
}
use parrot_coder.Editor.Safety.{IsDrawn, handle-SoundReply}

clamped :
    (e : Editor) (input : Text) (closed : Bool) (tabs : List Candidate) (i : ℕ)
    → is_empty tabs ≡ true
    → 0 < length (completion_matches e input)
    → min i (length (visible_matches e input closed tabs) - 1) < length (completion_matches e input)
unfolding visible_matches
clamped e input true tabs i q k = omega arith
clamped e input false tabs i q k = rw q (omega arith)

-- After a redraw the session is drawn.
pub prompt_state-IsDrawn : (e : Editor) (s : State) → IsDrawn e (prompt_state e s)
unfolding prompt_state
prompt_state-IsDrawn e s q k = clamped e s.buffer s.menu_closed s.tab_matches s.selected q k

prompt_state-Sound : (e : Editor) (s : State) → Sound e s → Sound e (prompt_state e s)
unfolding prompt_state
prompt_state-Sound e s h = reselected e s (min s.selected (length (visible e s) - 1)) h

pub fresh-Sound : (e : Editor) (initial : Text) → Fits e initial → Sound e (fresh e initial)
fresh-Sound e initial f = record {
  cursor_in = omega arith;
  buffer_fits = f;
  draft_fits = record { valid = refl; few_bytes = omega arith; few_runes = omega arith };
  index_in = omega arith;
  tabs_fit = tt;
}

-- A reading that is still going on is sound, and one that has ended gives a text within the limits.
abbrev pub SoundReading : Reading → Type 0
SoundReading (waiting e s) = SoundEditor e × Sound e s
SoundReading (ready e value failure) = SoundEditor e × Fits e value

finish-SoundReading :
    (screen : Screen) (e : Editor) (value : Text) (failure : Option Error)
    → SoundEditor e
    → Fits e value
    → SoundReading (finish screen e value failure)
unfolding finish
finish-SoundReading screen e value none d f = (d, f)
finish-SoundReading screen e value (some failure) d f = (d, f)

nil-Fits : (e : Editor) → Fits e []
nil-Fits e = record { valid = refl; few_bytes = omega arith; few_runes = omega arith }

read_keys-SoundReading :
    (clears : Bool) (e : Editor) (s : State) (inputs : List Input)
    → SoundEditor e
    → Sound e s
    → (r : Reading) × (read_keys (record { renders = true; clears = clears }) e s inputs ≡ some r)
      × SoundReading r
unfolding read_keys drawn
read_keys-SoundReading clears e s [] d h = (_, refl, (d, prompt_state-Sound e s h))
read_keys-SoundReading clears e s (draw_fails ∷ inputs) d h = (_, refl, (d, nil-Fits e))
read_keys-SoundReading clears e s (read_fails ∷ inputs) d h =
    (_, refl, finish-SoundReading _ e [] _ d (nil-Fits e))
read_keys-SoundReading clears e s (pressed key ∷ inputs) d h =
    let (reply, q, w) =
      handle-SoundReply e (prompt_state e s) key d (prompt_state-Sound e s h)
        (prompt_state-IsDrawn e s) in
    elim (Bool-cases reply.result.done) [
      | inl u ↦
          rw (read_keys, q, u)
            (
              _,
              refl,
              finish-SoundReading _ reply.editor reply.result.value reply.result.err w.editor_sound
                  w.value_fits,
            )
      | inr u ↦
          rw (read_keys, q, u)
            (read_keys-SoundReading clears reply.editor reply.state inputs w.editor_sound
              w.state_sound)
    ]

-- For an editor whose history entries fit its limits, and whose completions do with a space behind
-- them: a reading with a renderer never panics, whatever keys and errors come, and the text it
-- returns is within the limits of the editor.
pub read_initial-SoundReading :
    (clears : Bool) (e : Editor) (initial : Text) (inputs : List Input)
    → SoundEditor e
    → (r : Reading) × (read_initial (record { renders = true; clears = clears }) e initial inputs
        ≡ some r)
      × SoundReading r
unfolding read_initial start
read_initial-SoundReading clears e initial inputs d = elim (Bool-cases (fits e initial)) [
  | inl q ↦
      rw (read_initial, q)
        (read_keys-SoundReading clears e (fresh e initial) inputs d
          (fresh-Sound e initial (fits-Fits e initial q)))
  | inr q ↦ rw (read_initial, q) (_, refl, (d, nil-Fits e))
]

-- ===== src/Editor/Tests.antt =====
-- An editor with three commands and one entry of history.
use parrot_coder.Base.{
  ◌≡◌, refl, true, false, ◌≤◌, List, [], ◌∷◌, none, some, codes, Text, arith, ◌++◌, length, all,
  All, length-append, text_eq, text_lt,
}
use parrot_coder.Editor.Measure.{bytes-append}
use parrot_coder.Editor.Types.{
  bytes, is_allowed, Candidate, Editor, State, rune, down, up, tab, escape, fits, valid_input,
  valid_single_line,
}
use parrot_coder.Editor.Setup.{
  has_prefix, valid_candidate, before, place_candidate, sort_candidates, set_completions,
  add_history, is_newest, keep_newest, completion_matches, visible_matches,
}
use parrot_coder.Editor.Keys.{
  insert, settled, insert_key, older, up_key, down_key, select_tab, tab_key, escape_key, act,
  finished, handle, Reply,
}
use parrot_coder.Editor.Session.{
  fresh, start, Input, pressed, Reading, Screen, drawn, read_keys, read_initial,
}
use parrot_coder.Editor.Invariant.{SoundEditor, Sound}
use parrot_coder.Editor.Safety.{SoundReply, IsDrawn, handle-SoundReply}
use parrot_coder.Editor.Reading.{SoundReading, read_initial-SoundReading}
use parrot_coder.Editor.Candidates.{HasRoom}

abbrev command : Text → Candidate
command value = record { value = value; description = [] }

abbrev commands : List Candidate
commands = command (codes "/goal") ∷ command (codes "/mode") ∷ command (codes "/model") ∷ []

abbrev editor : Editor
editor = record {
  prompt = codes "> ";
  max_input_bytes = 64;
  max_input_runes = 16;
  max_history = 2;
  max_completion_rows = 9;
  history = codes "/model" ∷ [];
  completions = commands;
}

abbrev slash_tab : List Input
slash_tab =
    pressed (rune 47) ∷ pressed down ∷ pressed down ∷ pressed escape ∷ pressed up ∷ pressed tab ∷ []

abbrev with_screen : Screen
with_screen = record { renders = true; clears = true }

abbrev without_screen : Screen
without_screen = record { renders = false; clears = true }

-- The third entry of a menu is selected, and the menu is closed with it. The tab key then looks for
-- a third completion of a text that has one, which is a panic when nothing is redrawn.
without_redraw : read_initial without_screen editor [] slash_tab ≡ none
unfolding read_initial start read_keys drawn handle act finished insert_key settled insert fits
    valid_input has_prefix valid_candidate valid_single_line before place_candidate sort_candidates
    set_completions add_history is_newest keep_newest completion_matches visible_matches up_key
    older down_key select_tab tab_key escape_key text_eq text_lt
without_redraw = refl

command_room :
    (value : Text)
    → all is_allowed value ≡ true
    → all is_allowed (value ++ 32 ∷ []) ≡ true
    → bytes (value ++ 32 ∷ []) ≤ 64
    → length (value ++ 32 ∷ []) ≤ 16
    → HasRoom 64 16 (command value)
command_room value h h' k k' = (
  record {
    valid = h;
    few_bytes = omega (arith, k, bytes-append value (32 ∷ []));
    few_runes = omega (arith, k', length-append value (32 ∷ []));
  },
  record { valid = h'; few_bytes = k; few_runes = k' },
)

rooms : All (HasRoom 64 16) commands
rooms = (
  command_room (codes "/goal") refl refl (omega arith) (omega arith),
  (
    command_room (codes "/mode") refl refl (omega arith) (omega arith),
    (command_room (codes "/model") refl refl (omega arith) (omega arith), tt),
  ),
)

editor-SoundEditor : SoundEditor editor
editor-SoundEditor = record {
  entries_fit = (record { valid = refl; few_bytes = omega arith; few_runes = omega arith }, tt);
  few_entries = omega arith;
  completions_fit = rooms;
}

read_initial-SoundReading_example :
    (r : Reading) × (read_initial with_screen editor [] slash_tab ≡ some r) × SoundReading r
read_initial-SoundReading_example =
    read_initial-SoundReading true editor [] slash_tab editor-SoundEditor

-- Three letters, with the cursor behind the first.
abbrev session : State
session = record (fresh editor (codes "abc")) { cursor = 1 }

-- A command that goes on in two ways, the first of them selected.
abbrev slash_session : State
slash_session = fresh editor (codes "/mode")

slash_session-Sound : Sound editor slash_session
slash_session-Sound = record {
  cursor_in = omega arith;
  buffer_fits = record { valid = refl; few_bytes = omega arith; few_runes = omega arith };
  draft_fits = record { valid = refl; few_bytes = omega arith; few_runes = omega arith };
  index_in = omega arith;
  tabs_fit = tt;
}

slash_session-IsDrawn : IsDrawn editor slash_session
slash_session-IsDrawn q k = k

handle-SoundReply_example :
    (reply : Reply) × (handle editor slash_session tab ≡ some reply) × SoundReply reply
handle-SoundReply_example =
    handle-SoundReply editor slash_session tab editor-SoundEditor slash_session-Sound
      slash_session-IsDrawn

abbrev closed_session : State
closed_session = record session { menu_closed = true }

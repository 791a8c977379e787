-- ===== src/Editor/Types.antt =====
-- internal/terminal/editor.go: the editor with its limits and history, one editing session, and
-- the keys. A Go string is the list of its runes; bytes that are not UTF-8 have no counterpart.
use parrot_coder.Base.{
  ℕ, ◌+◌, Bool, not, ◌&&◌, ◌||◌, List, [], ◌∷◌, Option, Text, leb, ltb, ◌==◌, if◌then◌else◌, length,
  all,
}

pub record Candidate : Type 0 where
  pub value : Text
  pub description : Text

pub record Editor : Type 0 where
  pub prompt : Text
  pub max_input_bytes : ℕ
  pub max_input_runes : ℕ
  pub max_history : ℕ
  pub max_completion_rows : ℕ
  pub history : List Text
  pub completions : List Candidate

-- EditorState without the pointer to its editor.
pub record State : Type 0 where
  pub buffer : Text
  pub cursor : ℕ
  pub history_index : ℕ
  pub history_draft : Text
  pub selected : ℕ
  pub menu_closed : Bool
  pub tab_matches : List Candidate
  pub tab_index : ℕ

pub data Error : Type 0 where
  canceled interrupted input_limit control_character eof read_failed draw_failed clear_failed :
      Error

pub record Result : Type 0 where
  pub value : Text
  pub done : Bool
  pub err : Option Error

pub data Key : Type 0 where
  rune : ℕ → Key
  paste : Text → Key
  left right home end backspace delete kill_line end_of_file newline : Key
  up down tab escape interrupt mode_switch ignored enter : Key

-- The bytes of a rune in UTF-8; Go writes a value that is no rune as U+FFFD, in three bytes.
abbrev pub rune_len : ℕ → ℕ
rune_len r =
    if ltb r 128
    then 1
    else if ltb r 2_048
    then 2
    else if ltb r 65_536
    then 3
    else if leb r 1_114_111
    then 4
    else 3

-- len of a string.
abbrev pub bytes : Text → ℕ
bytes [] = 0
bytes (r ∷ s) = rune_len r + bytes s

-- unicode.IsControl: the category Cc.
abbrev pub is_control : ℕ → Bool
is_control r = ltb r 32 || (leb 127 r && ltb r 160)

-- unicode.IsSpace.
abbrev pub is_white : ℕ → Bool
is_white r =
    (leb 9 r && leb r 13)
    || r == 32
    || r == 133
    || r == 160
    || r == 5_760
    || (leb 8_192 r && leb r 8_202)
    || r == 8_232
    || r == 8_233
    || r == 8_239
    || r == 8_287
    || r == 12_288

abbrev pub is_allowed : ℕ → Bool
is_allowed r = not (is_control r && not (r == 10))

unfoldable pub valid_input : Text → Bool
valid_input s = all is_allowed s

unfoldable pub valid_single_line : Text → Bool
valid_single_line s = all (λ r. not (r == 13) && not (r == 10) && not (is_control r)) s

-- The test of Start, Reset and AddHistory.
unfoldable pub fits : Editor → Text → Bool
unfolding valid_input
fits e s = valid_input s && leb (bytes s) e.max_input_bytes && leb (length s) e.max_input_runes

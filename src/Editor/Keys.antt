-- ===== src/Editor/Keys.antt =====
-- EditorState.Handle: what each key does. `none` stands for an index or a slice bound out of range,
-- where Go panics.
use parrot_coder.Base.{
  with_newlines, ℕ, zero, suc, ◌+◌, ◌-◌, ◌%◌, min, true, false, not, ◌&&◌, List, [], ◌∷◌, ◌++◌,
  Option, none, some, Text, ltb, ◌==◌, if◌then◌else◌, text_eq, length, take, drop, all, is_empty,
  get_elem?,
}
use parrot_coder.Editor.Types.{
  Candidate, Editor, State, Error, canceled, interrupted, input_limit, control_character, eof,
  Result, Key, rune, paste, left, right, home, end, backspace, delete, kill_line, end_of_file,
  newline, up, down, tab, escape, interrupt, mode_switch, ignored, enter, bytes, is_allowed,
}
use parrot_coder.Editor.Setup.{
  add_history, completion_matches, visible_matches, has_command_arguments,
}

-- What a key does before the common ending: `edited` sets the Go variable `changed`, `returned`
-- leaves the handler at once.
pub data Action : Type 0 where
  edited kept : State → Action
  returned : Editor → State → Result → Action

abbrev pub stopped : Editor → State → Error → Option Action
stopped e s failure = some (returned e s (record { value = []; done = true; err = some failure }))

abbrev pub put : State → Text → ℕ → State
put s buffer cursor = record s { buffer = buffer; cursor = cursor }

pub data Insertion : Type 0 where
  refused : Error → Insertion
  inserted : Text → ℕ → Insertion

-- buffer[:cursor] + addition + buffer[cursor:]
abbrev pub spliced : Text → ℕ → Text → Text
spliced buffer cursor addition = take cursor buffer ++ addition ++ drop cursor buffer

unfoldable pub insert : Editor → Text → ℕ → Text → Option Insertion
insert e buffer cursor addition =
    if not (all is_allowed addition)
    then some (refused control_character)
    else if ltb e.max_input_runes (length buffer + length addition)
    then some (refused input_limit)
    else if ltb (length buffer) cursor
    then none
    else if ltb e.max_input_bytes (bytes (spliced buffer cursor addition))
    then some (refused input_limit)
    else some (inserted (spliced buffer cursor addition) (cursor + length addition))

unfoldable pub settled : Editor → State → Option Insertion → Option Action
settled e s none = none
settled e s (some (refused failure)) = stopped e s failure
settled e s (some (inserted buffer cursor)) = some (edited (put s buffer cursor))

unfoldable pub insert_key : Editor → State → Text → Option Action
unfolding settled
insert_key e s addition = settled e s (insert e s.buffer s.cursor addition)

unfoldable pub line_start : Text → ℕ → ℕ
line_start buffer zero = zero
line_start buffer (suc c) = elim (get_elem? buffer c) [
  | none ↦ suc c
  | some r ↦ let rest = line_start buffer c in if r == 10 then suc c else rest
]

-- The length of the first line.
unfoldable pub line_length : Text → ℕ
line_length [] = 0
line_length (r ∷ s) = let rest = line_length s in if r == 10 then 0 else suc rest

unfoldable pub line_end : Text → ℕ → ℕ
unfolding line_length
line_end buffer cursor = cursor + line_length (drop cursor buffer)

-- append(buffer[:i], buffer[j:]...)
abbrev pub cut : ℕ → ℕ → Text → Text
cut i j buffer = take i buffer ++ drop j buffer

-- The branch of KeyDelete, which KeyEOF shares.
unfoldable pub delete_key : State → Action
delete_key s =
    if ltb s.cursor (length s.buffer)
    then edited (put s (cut s.cursor (suc s.cursor) s.buffer) s.cursor)
    else kept s

unfoldable pub backspace_key : State → Option Action
backspace_key s =
    if ltb (length s.buffer) s.cursor
    then none
    else if ltb 0 s.cursor
    then some (edited (put s (cut (s.cursor - 1) s.cursor s.buffer) (s.cursor - 1)))
    else some (kept s)

-- The end of what KeyKillLine removes: a line break at the cursor goes too.
unfoldable pub kill_end : Text → ℕ → ℕ
unfolding line_end
kill_end buffer cursor =
    let stop = line_end buffer cursor in
    if (stop == cursor) && ltb stop (length buffer) then suc stop else stop

unfoldable pub kill_key : State → Action
unfolding kill_end
kill_key s =
    let stop = kill_end s.buffer s.cursor in
    if ltb s.cursor stop then edited (put s (cut s.cursor stop s.buffer) s.cursor) else kept s

abbrev pub recalled : State → Option Text → Option Action
recalled s none = none
recalled s (some value) = some (kept (put s value (length value)))

unfoldable pub older : Editor → State → Option Action
older e s =
    if not (ltb 0 s.history_index)
    then some (kept s)
    else recalled
        (record s {
          history_draft = if s.history_index == length e.history then s.buffer else s.history_draft;
          history_index = s.history_index - 1;
        })
        (get_elem? e.history (s.history_index - 1))

unfoldable pub newer : Editor → State → Option Action
newer e s =
    let i = suc s.history_index in
    if not (ltb s.history_index (length e.history))
    then some (kept s)
    else recalled (record s { history_index = i })
        (if i == length e.history then some s.history_draft else get_elem? e.history i)

abbrev pub visible : Editor → State → List Candidate
visible e s = visible_matches e s.buffer s.menu_closed s.tab_matches

unfoldable pub up_key : Editor → State → Option Action
unfolding older
up_key e s =
    let n = length (visible e s) in
    if ltb 0 n then some (kept (record s { selected = (s.selected + n - 1) % n })) else older e s

unfoldable pub down_key : Editor → State → Option Action
unfolding newer
down_key e s =
    let n = length (visible e s) in
    if ltb 0 n then some (kept (record s { selected = suc s.selected % n })) else newer e s

abbrev pub accepted : State → Option Candidate → Option Action
accepted s none = none
accepted s (some c) = some (
    kept (record s {
      buffer = c.value;
      cursor = length c.value;
      selected = s.tab_index;
      menu_closed = false;
    }))

unfoldable pub select_tab : State → Option Action
select_tab s =
    if is_empty s.tab_matches
    then some (kept s)
    else accepted s (get_elem? s.tab_matches s.tab_index)

unfoldable pub tab_key : Editor → State → Option Action
tab_key e s =
    if is_empty s.tab_matches
    then select_tab
        (record s { tab_matches = completion_matches e s.buffer; tab_index = s.selected })
    else select_tab (record s { tab_index = suc s.tab_index % length s.tab_matches })

unfoldable pub escape_key : Editor → State → Option Action
escape_key e s =
    if is_empty (visible e s)
    then stopped e s canceled
    else some (kept (record s { menu_closed = true; tab_matches = [] }))

abbrev pub submit : Editor → State → Action
submit e s =
    returned (add_history s.buffer e) s (record { value = s.buffer; done = true; err = none })

-- Enter on the selected candidate: it is completed, unless the text is complete.
unfoldable pub choose : Editor → State → Option Candidate → Option Action
choose e s none = none
choose e s (some c) =
    if not (text_eq s.buffer c.value) && not (has_command_arguments e s.buffer)
    then some (
        kept (record s {
          buffer = c.value ++ 32 ∷ [];
          cursor = length (c.value ++ 32 ∷ []);
          menu_closed = true;
          tab_matches = [];
        }))
    else some (submit e s)

unfoldable pub enter_key : Editor → State → Option Action
unfolding choose
enter_key e s =
    let matches = visible e s in
    let at = min s.selected (length matches - 1) in
    if is_empty matches
    then some (submit e s)
    else choose e (record s { selected = at }) (get_elem? matches at)

unfoldable pub act : Editor → State → Key → Option Action
act e s (rune r) = insert_key e s (r ∷ [])
act e s (paste text) = insert_key e s (with_newlines text)
act e s left = some (kept (record s { cursor = s.cursor - 1 }))
act e s right =
    some (kept (if ltb s.cursor (length s.buffer) then record s { cursor = suc s.cursor } else s))
act e s home = some (kept (record s { cursor = line_start s.buffer s.cursor }))
act e s end = some (kept (record s { cursor = line_end s.buffer s.cursor }))
act e s backspace = backspace_key s
act e s delete = some (delete_key s)
act e s kill_line = some (kill_key s)
act e s end_of_file = if is_empty s.buffer then stopped e s eof else some (delete_key s)
act e s newline = insert_key e s (10 ∷ [])
act e s up = up_key e s
act e s down = down_key e s
act e s tab = tab_key e s
act e s escape = escape_key e s
act e s interrupt = stopped e s interrupted
act e s mode_switch = some (kept s)
act e s ignored = some (kept s)
act e s enter = enter_key e s

pub record Reply : Type 0 where
  pub editor : Editor
  pub state : State
  pub result : Result

abbrev pub nothing : Result
nothing = record { value = []; done = false; err = none }

-- The common ending: an edit leaves the history and closes what the menu had selected.
unfoldable pub finished : Editor → Action → Reply
finished e (edited s) = record {
  editor = e;
  state = record s {
    history_index = length e.history;
    menu_closed = false;
    tab_matches = [];
    selected = 0;
  };
  result = nothing;
}
finished e (kept s) = record { editor = e; state = s; result = nothing }
finished e (returned e' s result) = record { editor = e'; state = s; result = result }

abbrev pub ended : Editor → Option Action → Option Reply
ended e none = none
ended e (some a) = some (finished e a)

unfoldable pub handle : Editor → State → Key → Option Reply
handle e s key = ended e (act e s key)

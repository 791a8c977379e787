-- ===== src/Editor/Session.antt =====
-- Start, Reset, PromptState and the loop of ReadInitial.
use parrot_coder.Base.{
  ◌-◌, min, Bool, false, not, ◌&&◌, List, [], ◌∷◌, Option, none, some, Text, if◌then◌else◌, length,
}
use parrot_coder.Editor.Types.{
  Editor, State, Error, input_limit, read_failed, draw_failed, clear_failed, Key, fits,
}
use parrot_coder.Editor.Keys.{handle, visible}

abbrev pub fresh : Editor → Text → State
fresh e initial = record {
  buffer = initial;
  cursor = length initial;
  history_index = length e.history;
  history_draft = [];
  selected = 0;
  menu_closed = false;
  tab_matches = [];
  tab_index = 0;
}

-- Start: no state is made of a text beyond the limits.
unfoldable pub start : Editor → Text → Option State
start e initial = if fits e initial then some (fresh e initial) else none

-- Reset: the state after it, and its error.
unfoldable pub reset : Editor → Text → State → State × Option Error
reset e value s = if fits e value then (fresh e value, none) else (s, some input_limit)

-- What PromptState does to the state; a menu that shows nothing has its first entry selected.
unfoldable pub prompt_state : Editor → State → State
prompt_state e s = record s { selected = min s.selected (length (visible e s) - 1) }

-- What the loop meets next: a key after a redraw that worked, or an error of the redraw or of the
-- decoder.
pub data Input : Type 0 where
  pressed : Key → Input
  read_fails draw_fails : Input

pub data Reading : Type 0 where
  waiting : Editor → State → Reading
  ready : Editor → Text → Option Error → Reading

-- The renderer: whether there is one, and whether its Clear works.
pub record Screen : Type 0 where
  pub renders : Bool
  pub clears : Bool

-- The redraw before each key; without a renderer nothing is drawn.
unfoldable pub drawn : Bool → Editor → State → State
drawn renders e s = if renders then prompt_state e s else s

-- finish: a failing Clear is the error of a read that has none.
unfoldable pub finish : Screen → Editor → Text → Option Error → Reading
finish screen e value (some failure) = ready e value (some failure)
finish screen e value none =
    ready e value (if screen.renders && not screen.clears then some clear_failed else none)

unfoldable pub read_keys : Screen → Editor → State → List Input → Option Reading
read_keys screen e s [] = some (waiting e (drawn screen.renders e s))
read_keys screen e s (draw_fails ∷ inputs) =
    let rest = read_keys screen e s inputs in
    if screen.renders then some (ready e [] (some draw_failed)) else rest
read_keys screen e s (read_fails ∷ inputs) = some (finish screen e [] (some read_failed))
read_keys screen e s (pressed key ∷ inputs) = elim (handle e (drawn screen.renders e s) key) [
  | none ↦ none
  | some reply ↦
      let rest = read_keys screen reply.editor reply.state inputs in
      if reply.result.done
      then some (finish screen reply.editor reply.result.value reply.result.err)
      else rest
]

unfoldable pub read_initial : Screen → Editor → Text → List Input → Option Reading
read_initial screen e initial inputs = elim (start e initial) [
  | none ↦ some (ready e [] (some input_limit))
  | some s ↦ read_keys screen e s inputs
]

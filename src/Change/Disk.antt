-- ===== src/Change/Disk.antt =====
-- readState, stageFile, applyState and restoreState over the nodes of a disk, where each call may fail.
use parrot_coder.Base.{
  ℕ, List, [], ◌∷◌, ◌++◌, Text, Bool, true, false, not, ◌&&◌, ◌||◌, ◌==◌, ◌%◌, ltb, if◌then◌else◌,
  is_empty, length, Option, none, some, text_eq, codes,
}

-- What stands at a path; the modes are numbers with their type bits.
pub data Node : Type 0 where
  regular : ℕ → Text → Node
  link : ℕ → Text → Node
  directory : Node

abbrev pub Disk : Type 0
Disk = Text → Option Node

abbrev pub put : Text → Option Node → Disk → Disk
put path n d q = if text_eq path q then n else d q

pub record FileState : Type 0 where
  pub path : Text
  pub exists : Bool
  pub mode : ℕ
  pub symlink_target : Text
  pub content : Text
  pub hash : Text

pub record Mutation : Type 0 where
  pub requested_path : Text
  pub path : Text
  pub before : FileState
  pub after : FileState

pub record Plan : Type 0 where
  pub mutations : List Mutation
  pub directories : List Text

-- The disk, and for each call to come whether it fails; then none does.
pub record World : Type 0 where
  pub disk : Disk
  pub faults : List Bool

abbrev pub Call : Type 0
Call = World → Bool × World

abbrev pub set_node : Text → Option Node → World → World
set_node path n w = record w { disk = put path n w.disk }

abbrev pub with_fault : List Bool → Call → Call
with_fault [] call w = call w
with_fault (true ∷ fs) call w = (false, record w { faults = fs })
with_fault (false ∷ fs) call w = call (record w { faults = fs })

-- A call that reports an error and does nothing, or does its work.
unfoldable pub attempt : Call → Call
attempt call w = with_fault w.faults call w

abbrev pub nothing : Call
nothing w = (true, w)

abbrev pub is_free : Option Node → Bool
is_free none = true
is_free (some n) = false

abbrev pub is_directory : Option Node → Bool
is_directory (some directory) = true
is_directory n = false

-- os.Remove, where a missing file is no error.
unfoldable pub remove_node : Text → Call
unfolding attempt
remove_node path = attempt λ w. (true, set_node path none w)

unfoldable pub mkdir : Text → Call
unfolding attempt
mkdir path =
    attempt
      λ w. if is_free (w.disk path) then (true, set_node path (some directory) w) else (false, w)

-- os.Rename of a staged file.
unfoldable pub rename_staged : Text → Node → Call
unfolding attempt
rename_staged path n =
    attempt λ w. if is_directory (w.disk path) then (false, w) else (true, set_node path (some n) w)

unfoldable pub symlink : Text → Node → Call
unfolding attempt
symlink path n =
    attempt λ w. if is_free (w.disk path) then (true, set_node path (some n) w) else (false, w)

-- stageFile: a temporary file beside the others, or nothing.
unfoldable pub stage_file : Call
unfolding attempt
stage_file = attempt nothing

-- A call after one that reported no error.
abbrev pub and_then : Bool × World → Call → Bool × World
and_then (true, w) call = call w
and_then (false, w) call = (false, w)

-- The permission bits of a mode.
abbrev pub perm : ℕ → ℕ
perm mode = mode % 512

-- The node that a state is put in place as: stageFile sets the permission bits alone.
unfoldable pub node_of : FileState → Option Node
node_of s =
    if not s.exists
    then none
    else if is_empty s.symlink_target
    then some (regular (perm s.mode) s.content)
    else some (link s.mode s.symlink_target)

abbrev pub is_regular_state : FileState → Bool
is_regular_state s = s.exists && is_empty s.symlink_target

-- applyState; `staged` says that there is a staged file.
unfoldable pub apply_state : FileState → Bool → Call
unfolding remove_node rename_staged symlink
apply_state s staged w =
    if not s.exists
    then remove_node s.path w
    else if not (is_empty s.symlink_target)
    then and_then (remove_node s.path w) (symlink s.path (link s.mode s.symlink_target))
    else if staged
    then rename_staged s.path (regular (perm s.mode) s.content) w
    else (false, w)

-- restoreState.
unfoldable pub restore_state : FileState → Call
unfolding apply_state stage_file
restore_state s w =
    if is_regular_state s
    then and_then (stage_file w) (apply_state s true)
    else apply_state s false w

module _ (sha : Text → Text) (limit : ℕ) where
  -- readState, on what stands at the path; `none` is an error.
  unfoldable pub read_state : Text → Option Node → Option FileState
  read_state path none = some (record {
    path = path;
    exists = false;
    mode = 0;
    symlink_target = [];
    content = [];
    hash = [];
  })
  read_state path (some directory) = none
  read_state path (some (link mode target)) = some (record {
    path = path;
    exists = true;
    mode = mode;
    symlink_target = target;
    content = target;
    hash = sha (codes "symlink" ++ (0 ∷ target));
  })
  read_state path (some (regular mode content)) =
      if ltb limit (length content)
      then none
      else some (record {
        path = path;
        exists = true;
        mode = mode;
        symlink_target = [];
        content = content;
        hash = sha content;
      })

-- sameState.
unfoldable pub same_state : FileState → FileState → Bool
same_state a b =
    text_eq a.path b.path
    && (not a.exists && not b.exists
        || (a.exists && b.exists)
          && (a.mode == b.mode
              && text_eq a.symlink_target b.symlink_target
              && text_eq a.hash b.hash))

-- ===== src/Change/Tests.antt =====
-- Commits at a small disk, and the law at them.
use parrot_coder.Base.{
  ◌≡◌, refl, [], ◌∷◌, List, codes, false, true, text_eq, if◌then◌else◌, none, some, Bool, sort_by,
  text_lt, has_prefix,
}
use parrot_coder.Base.{Bool-cases, Text, Option, inl, inr}
use parrot_coder.Patch.Blocks.{ok}
use parrot_coder.Patch.Apply.{apply_hunks}
use parrot_coder.Patch.Operations.{add, update, Operation}
use parrot_coder.Patch.Replace.{PatchHunk, old_line, new_line, replacement_lines}
use parrot_coder.Patch.Lines.{split_file_lines, line_texts, line_ending_at, write_lines}
use parrot_coder.Patch.Spaces.{comparators}
use parrot_coder.Patch.Seek.{seek_patch_sequence}
use parrot_coder.Change.Disk.{read_state}
use parrot_coder.Change.Planner.{is_special, planned, plan_patch}
use parrot_coder.Change.Planned.{LinksNamed, Committable, plan_patch-Committable}
use parrot_coder.Change.Disk.{
  regular, Disk, FileState, Mutation, Plan, World, attempt, apply_state, restore_state, same_state,
  mkdir, stage_file,
}
use parrot_coder.Change.Calls.{covers}
use parrot_coder.Change.Make.{Outcome}
use parrot_coder.Change.Atomic.{IsPlanned, commit-Outcome}
use parrot_coder.Change.Commit.{Service, failed, commit}

abbrev small_disk : Disk
small_disk q = if text_eq q (codes "/w/a") then some (regular 420 (codes "x")) else none

abbrev open_service : Service
open_service = record {
  resolve_read = λ d p. some p;
  resolve_create = λ d p. some p;
  sha = λ s. s;
  limit = 100;
}

abbrev old_a : FileState
old_a = record {
  path = codes "/w/a";
  exists = true;
  mode = 420;
  symlink_target = [];
  content = codes "x";
  hash = codes "x";
}

abbrev new_b : Mutation
new_b = record {
  requested_path = codes "/w/d/b";
  path = codes "/w/d/b";
  before = record {
    path = codes "/w/d/b";
    exists = false;
    mode = 0;
    symlink_target = [];
    content = [];
    hash = [];
  };
  after = record {
    path = codes "/w/d/b";
    exists = true;
    mode = 384;
    symlink_target = [];
    content = codes "b";
    hash = codes "b";
  };
}

abbrev change_a : Mutation
change_a = record {
  requested_path = codes "/w/a";
  path = codes "/w/a";
  before = old_a;
  after = record old_a { content = codes "y"; hash = codes "y" };
}

abbrev small_plan : Plan
small_plan = record { mutations = new_b ∷ change_a ∷ []; directories = codes "/w/d" ∷ [] }

abbrev world : List Bool → World
world fs = record { disk = small_disk; faults = fs }

commits :
    (commit open_service small_plan (world [])).1.disk (codes "/w/d/b")
    ≡ some (regular 384 (codes "b"))
unfolding commit apply_state attempt same_state sort_by text_eq text_lt has_prefix mkdir stage_file
commits = refl

-- The second rename fails: the first one is undone.
undoes :
    (commit open_service small_plan (
        world (
          false ∷ false ∷ false ∷ false ∷ false ∷ false ∷ false ∷ false ∷ false ∷ false ∷ true
          ∷ []))).1.disk
      (codes "/w/a")
    ≡ some (regular 420 (codes "x"))
unfolding commit apply_state attempt same_state sort_by text_eq text_lt has_prefix restore_state
    mkdir stage_file
undoes = refl

undoes_result :
    (commit open_service small_plan (
      world (
        false ∷ false ∷ false ∷ false ∷ false ∷ false ∷ false ∷ false ∷ false ∷ false ∷ true
        ∷ []))).0
    ≡ failed true
unfolding commit apply_state attempt same_state sort_by text_eq text_lt has_prefix restore_state
    mkdir stage_file
undoes_result = refl

-- A link in place of a file: os.Symlink fails, and the file that was removed for it is not restored.
abbrev link_a : Plan
link_a = record {
  mutations = record change_a { after = record old_a { symlink_target = codes "b" } } ∷ [];
  directories = [];
}

loses_file :
    (commit open_service link_a (world (false ∷ false ∷ false ∷ false ∷ true ∷ []))).1.disk
      (codes "/w/a")
    ≡ none
unfolding commit apply_state attempt same_state sort_by text_eq text_lt has_prefix restore_state
    mkdir stage_file
loses_file = refl

change_a-IsPlanned : IsPlanned open_service small_disk change_a
unfolding text_eq
change_a-IsPlanned = record {
  before_hash = λ e. refl;
  no_collision = λ mode content at same. same;
  named_link = λ mode target at. absurd (cc);
  after_path = refl;
  plain = refl;
}

new_b-IsPlanned : IsPlanned open_service small_disk new_b
unfolding text_eq
new_b-IsPlanned = record {
  before_hash = λ e. absurd (cc);
  no_collision = λ mode content at same. same;
  named_link = λ mode target at. absurd (cc);
  after_path = refl;
  plain = refl;
}

commit-Outcome_example :
    Outcome small_disk
      (new_b ∷ change_a ∷ [])
      (covers (codes "/w/d" ∷ []))
      (commit open_service small_plan (world (false ∷ false ∷ true ∷ [])))
commit-Outcome_example =
    commit-Outcome open_service small_plan (world (false ∷ false ∷ true ∷ []))
      (new_b-IsPlanned, (change_a-IsPlanned, tt))

-- A patch that edits one file and adds another.
abbrev write_y : PatchHunk
write_y = record {
  lines =
      record { kind = old_line; text = codes "x" }
      ∷ record { kind = new_line; text = codes "y" }
      ∷ [];
  context = [];
  end_of_file = false;
}

abbrev small_patch : List Operation
small_patch =
    record { kind = add; path = codes "/w/d/b"; content = codes "b"; hunks = [] }
    ∷ record { kind = update; path = codes "/w/a"; content = []; hunks = write_y ∷ [] }
    ∷ []

abbrev parents : Disk → Text → Option (List Text)
parents d path = some (codes "/w/d" ∷ [])

plans :
    plan_patch open_service parents small_disk (ok small_patch) []
    ≡ planned (record { mutations = change_a ∷ new_b ∷ []; directories = codes "/w/d" ∷ [] })
unfolding plan_patch apply_hunks split_file_lines line_texts line_ending_at write_lines
    seek_patch_sequence text_eq sort_by text_lt read_state is_special comparators replacement_lines
plans = refl

small_disk-LinksNamed : LinksNamed open_service parents small_disk
unfolding text_eq
small_disk-LinksNamed path target mode at = elim (Bool-cases (text_eq path (codes "/w/a"))) [
  | inl e ↦ absurd (cc)
  | inr e ↦ absurd (cc)
]

plan_patch-Committable_example :
    Committable open_service parents small_disk
      (world (false ∷ false ∷ true ∷ []))
      []
      small_patch
      (plan_patch open_service parents small_disk (ok small_patch) [])
plan_patch-Committable_example =
    plan_patch-Committable open_service parents small_disk small_patch []
      (world (false ∷ false ∷ true ∷ [])) small_disk-LinksNamed refl

-- ===== src/Change/Planner.antt =====
-- PlanPatch: the mutations that a patch asks for, each from what stands at its path.
use parrot_coder.Base.{
  ℕ, ◌%◌, ◌/◌, ◌^◌, ◌==◌, ◌||◌, List, [], ◌∷◌, ◌++◌, Text, Bool, true, false, not, ◌&&◌, ltb,
  if◌then◌else◌, is_empty, length, any, Option, none, some, text_eq, sort_by,
}
use parrot_coder.Patch.Blocks.{PatchError, Parsed, ok, bad}
use parrot_coder.Patch.Apply.{MatchError, Applied, patched, refused, out_of_range, apply_hunks}
use parrot_coder.Patch.Operations.{OperationKind, unset, add, update, delete, Operation}
use parrot_coder.Change.Disk.{Disk, FileState, Mutation, Plan, read_state}
use parrot_coder.Change.Commit.{Service, mutation_path}

-- Why an operation is not planned, with its path.
pub data Reason : Type 0 where
  unresolved bad_parent too_large unreadable not_regular not_empty : Reason
  mismatch : MatchError → Reason

pub data PlanError : Type 0 where
  plan_error : Text → Reason → PlanError

-- absentState and regularState; the permission bits are the last nine.
abbrev pub absent_state : Text → FileState
absent_state path = record {
  path = path;
  exists = false;
  mode = 0;
  symlink_target = [];
  content = [];
  hash = [];
}

abbrev pub regular_state : (Text → Text) → Text → Text → ℕ → FileState
regular_state sha path content mode = record {
  path = path;
  exists = true;
  mode = mode % 512;
  symlink_target = [];
  content = content;
  hash = sha content;
}

-- The mutation and the directories of an operation, or its errors, or an index out of range.
pub data Step : Type 0 where
  mutates : Mutation → List Text → Step
  errs : List PlanError → Step
  panics : Step

abbrev pub err : Operation → Reason → Step
err o why = errs (plan_error o.path why ∷ [])

-- FileMode.IsRegular: none of the bits of ModeType is set.
abbrev pub is_regular_mode : ℕ → Bool
is_regular_mode mode =
    not (any (λ k. mode / 2 ^ k % 2 == 1) (31 ∷ 27 ∷ 26 ∷ 25 ∷ 24 ∷ 21 ∷ 19 ∷ []))

-- SymlinkTarget != "" || !Mode.IsRegular().
unfoldable pub is_special : FileState → Bool
is_special s = not (is_empty s.symlink_target) || not (is_regular_mode s.mode)

-- The mode of a created file, 0600 unless an empty file is there.
abbrev pub created_mode : FileState → ℕ
created_mode s = if s.exists then s.mode else 384

abbrev pub mutation : Operation → Text → FileState → FileState → Mutation
mutation o path before after = record {
  requested_path = o.path;
  path = path;
  before = before;
  after = after;
}

-- missingParentDirectories is an argument: it asks the file system for each parent.
module _ (c : Service) (missing_parents : Disk → Text → Option (List Text)) (d : Disk) where
  unfoldable pub plan_add_state : Operation → Text → List Text → FileState → Step
  plan_add_state o path parents before =
      if before.exists && is_special before
      then err o not_regular
      else if before.exists && not (is_empty before.content)
      then err o not_empty
      else mutates
          (mutation o path before (regular_state c.sha path o.content (created_mode before)))
          parents

  -- PatchAdd, at the path that it resolves to.
  unfoldable pub plan_add : Operation → Text → Step
  unfolding plan_add_state
  plan_add o path = elim (missing_parents d path) [
    | none ↦ err o bad_parent
    | some parents ↦
        if ltb c.limit (length o.content)
        then err o too_large
        else elim (read_state c.sha c.limit path (d path)) [
          | none ↦ err o unreadable
          | some before ↦ plan_add_state o path parents before
        ]
  ]

  unfoldable pub match_errors : Operation → List MatchError → List PlanError
  match_errors o [] = []
  match_errors o (e ∷ es) = plan_error o.path (mismatch e) ∷ match_errors o es

  unfoldable pub plan_content : Operation → Text → FileState → Applied → Step
  unfolding match_errors
  plan_content o path before (patched out) =
      if ltb c.limit (length out)
      then err o too_large
      else mutates (mutation o path before (regular_state c.sha path out before.mode)) []
  plan_content o path before (refused es) = errs (match_errors o es)
  plan_content o path before out_of_range = panics

  -- PatchUpdate and PatchDelete, on the state that is read.
  unfoldable pub plan_state : OperationKind → Operation → Text → FileState → Step
  unfolding plan_content
  plan_state update o path before =
      if is_special before
      then err o not_regular
      else plan_content o path before (apply_hunks before.content o.hunks)
  plan_state _ o path before =
      if is_special before
      then err o not_regular
      else mutates (mutation o path before (absent_state path)) []

  abbrev pub on_state : OperationKind → Operation → Text → Option FileState → Step
  on_state k o path none = err o unreadable
  on_state k o path (some before) = plan_state k o path before

  abbrev pub at_add : Operation → Option Text → Step
  at_add o none = err o unresolved
  at_add o (some path) = plan_add o path

  abbrev pub at_read : OperationKind → Operation → Option Text → Step
  at_read k o none = err o unresolved
  at_read k o (some path) = on_state k o path (read_state c.sha c.limit path (d path))

  unfoldable pub plan_kind : OperationKind → Operation → Step
  unfolding plan_add plan_state
  plan_kind unset o = errs []
  plan_kind add o = at_add o (c.resolve_create d o.path)
  plan_kind update o = at_read update o (c.resolve_read d o.path)
  plan_kind delete o = at_read delete o (c.resolve_read d o.path)

-- The variables of the loop.
pub record Planning : Type 0 where
  pub mutations : List Mutation
  pub directories : List Text
  pub errors : List PlanError

abbrev pub note : Step → Planning → Option Planning
note (mutates m ds) p =
    some (record p { mutations = p.mutations ++ (m ∷ []); directories = p.directories ++ ds })
note (errs es) p = some (record p { errors = p.errors ++ es })
note panics p = none

-- uniquePaths: the first of each.
unfoldable pub unique_from : List Text → List Text → List Text
unique_from seen [] = []
unique_from seen (p ∷ ps) =
    let old = unique_from seen ps in
    let new = unique_from (p ∷ seen) ps in if any (λ x. text_eq x p) seen then old else p ∷ new

-- What PlanPatch returns, if it does not panic; the text of the diff is left out.
pub data PlanResult : Type 0 where
  planned : Plan → PlanResult
  bad_patch : PatchError → PlanResult
  failing : List PlanError → PlanResult
  ended panicked : PlanResult

unfoldable pub finish_plan : Planning → PlanResult
unfolding sort_by unique_from
finish_plan p =
    if is_empty p.errors
    then planned (record {
      mutations = sort_by mutation_path p.mutations;
      directories = unique_from [] p.directories;
    })
    else failing p.errors

module _ (c : Service) (missing_parents : Disk → Text → Option (List Text)) (d : Disk) where
  -- The loop over the operations, each with whether the context has ended by then.
  unfoldable pub plan_each : List Operation → List Bool → Planning → PlanResult
  unfolding plan_kind finish_plan
  plan_each [] cs p = finish_plan p
  plan_each (o ∷ os) (true ∷ cs) p = ended
  plan_each (o ∷ os) (false ∷ cs) p = elim (note (plan_kind c missing_parents d o.kind o) p) [
    | none ↦ panicked
    | some next ↦ plan_each os cs next
  ]
  plan_each (o ∷ os) [] p = elim (note (plan_kind c missing_parents d o.kind o) p) [
    | none ↦ panicked
    | some next ↦ plan_each os [] next
  ]

  -- PlanPatch on what the parser of the format gives.
  unfoldable pub plan_patch : Parsed (List Operation) → List Bool → PlanResult
  unfolding plan_each
  plan_patch (bad e) cs = bad_patch e
  plan_patch (ok os) cs = plan_each os cs (record { mutations = []; directories = []; errors = [] })

-- ===== src/Change/Commit.antt =====
-- Commit and rollback: all mutations of a plan, or none.
use parrot_coder.Base.{
  ℕ, suc, List, [], ◌∷◌, Text, Bool, true, false, not, ◌&&◌, ◌==◌, ltb, if◌then◌else◌, is_empty,
  Option, none, some, text_eq, clean_path, sort_by,
}
use parrot_coder.Change.Disk.{
  Disk, FileState, Mutation, Plan, World, Call, attempt, nothing, remove_node, mkdir, stage_file,
  apply_state, restore_state, read_state, same_state, is_regular_state, is_free,
}

-- What Commit returns: no error; an error before anything is written; or an error after that, with
-- whether what followed it (rollback, removal of directories) reported none.
pub data Committed : Type 0 where
  committed refused : Committed
  failed : Bool → Committed

-- Where a call reported no error, and where it did.
abbrev pub branch {ℓ} : {R : Type ℓ} → Bool × World → (World → R) → (World → R) → R
branch (true, w) good bad = good w
branch (false, w) good bad = bad w

abbrev count_slash : Text → ℕ
count_slash [] = 0
count_slash (c ∷ s) = let rest = count_slash s in if c == 47 then suc rest else rest

-- pathDepth.
unfoldable pub path_depth : Text → ℕ
path_depth path = count_slash (clean_path path)

-- sort.Slice by a test of order.
unfoldable pub place_path : (Text → Text → Bool) → Text → List Text → List Text
place_path below x [] = x ∷ []
place_path below x (y ∷ ys) =
    let rest = place_path below x ys in if below y x then y ∷ rest else x ∷ y ∷ ys

unfoldable pub sort_paths : (Text → Text → Bool) → List Text → List Text
unfolding place_path
sort_paths below [] = []
sort_paths below (x ∷ xs) = place_path below x (sort_paths below xs)

abbrev pub shallower : Text → Text → Bool
shallower a b = ltb (path_depth a) (path_depth b)

abbrev pub deeper : Text → Text → Bool
deeper a b = ltb (path_depth b) (path_depth a)

-- All of them, the errors joined.
unfoldable pub remove_each : List Text → Call
remove_each [] w = (true, w)
remove_each (d ∷ ds) w =
    let (done, w') = remove_node d w in let (rest, w'') = remove_each ds w' in (done && rest, w'')

-- removeDirectories.
unfoldable pub remove_directories : List Text → Call
unfolding remove_each sort_paths
remove_directories ds = remove_each (sort_paths deeper ds)

-- rollback, over the mutations that are applied, the last first.
unfoldable pub rollback : List Mutation → Call
rollback [] w = (true, w)
rollback (m ∷ ms) w =
    let (done, w') = restore_state m.before w in
    let (rest, w'') = rollback ms w' in (done && rest, w'')

-- What follows an error once files are written.
unfoldable pub undo : List Mutation → List Text → World → Committed × World
unfolding rollback remove_directories
undo applied created w =
    let (restored, w') = rollback applied w in
    let (removed, w'') = remove_directories created w' in (failed (restored && removed), w'')

-- The loop that stages the regular outputs, up to the first error.
unfoldable pub stage_each : List Mutation → Call
stage_each [] w = (true, w)
stage_each (m ∷ ms) w =
    if is_regular_state m.after
    then branch (stage_file w) (stage_each ms) (λ w'. (false, w'))
    else stage_each ms w

-- The loop that applies the mutations, the applied ones kept with the last first. The context is
-- asked first, and InjectFailure after each; every regular output is staged by then.
unfoldable pub apply_each : List Mutation → List Mutation → List Text → World → Committed × World
unfolding undo
apply_each [] applied created w =
    branch (attempt nothing w) (λ w'. (committed, w')) (undo applied created)
apply_each (m ∷ ms) applied created w =
    branch (attempt nothing w)
      (λ w1.
        branch (apply_state m.after (is_regular_state m.after) w1)
          (λ w2.
            branch (attempt nothing w2) (apply_each ms (m ∷ applied) created)
              (undo (m ∷ applied) created))
          (undo applied created))
      (undo applied created)

-- Stage, then apply.
unfoldable pub write_all : List Mutation → List Text → World → Committed × World
unfolding stage_each apply_each remove_directories
write_all ms created w = branch (stage_each ms w) (apply_each ms [] created) (undo [] created)

-- The loop that makes the directories, with those made so far, the last first.
unfoldable pub make_each : List Text → List Text → List Mutation → World → Committed × World
unfolding write_all
make_each [] created ms w = write_all ms created w
make_each (d ∷ ds) created ms w =
    branch (mkdir d w) (make_each ds (d ∷ created) ms) (undo [] created)

-- The workspace's ResolveRead and ResolveCreate, SHA256 and MaxFileBytes.
pub record Service : Type 0 where
  pub resolve_read : Disk → Text → Option Text
  pub resolve_create : Disk → Text → Option Text
  pub sha : Text → Text
  pub limit : ℕ

abbrev pub is_at : Option Text → Text → Bool
is_at none path = false
is_at (some p) path = text_eq p path

abbrev pub is_state : Option FileState → FileState → Bool
is_state none s = false
is_state (some t) s = same_state t s

-- The paths of sorted mutations are different.
unfoldable pub paths_differ_from : Text → List Mutation → Bool
paths_differ_from path [] = true
paths_differ_from path (m ∷ ms) = not (text_eq path m.path) && paths_differ_from m.path ms

abbrev pub paths_differ : List Mutation → Bool
paths_differ [] = true
paths_differ (m ∷ ms) = paths_differ_from m.path ms

abbrev pub mutation_path : Mutation → Text
mutation_path m = m.path

module _ (c : Service) where
  -- revalidate, on the disk.
  unfoldable pub still_valid : Disk → Mutation → Bool
  unfolding read_state
  still_valid d m =
      is_at
        (if m.before.exists
          then c.resolve_read d m.requested_path
          else c.resolve_create d m.requested_path)
        m.path
      && is_state (read_state c.sha c.limit m.path (d m.path)) m.before

  -- The loop over the mutations; the context or a call to read may fail.
  unfoldable pub revalidate_each : List Mutation → Call
  unfolding still_valid
  revalidate_each [] w = (true, w)
  revalidate_each (m ∷ ms) w =
      branch (attempt nothing w)
        (λ w'. elim (still_valid w'.disk m) [ false ↦ (false, w') | true ↦ revalidate_each ms w' ])
        (λ w'. (false, w'))

  -- A directory to make is clean and not there.
  unfoldable pub directories_free : Disk → List Text → Bool
  directories_free d [] = true
  directories_free d (p ∷ ps) =
      is_at (c.resolve_create d p) p && is_free (d p) && directories_free d ps

  -- After the mutations are found valid; a call that looks at the directories may fail.
  unfoldable pub commit_valid : List Mutation → List Text → World → Committed × World
  unfolding directories_free paths_differ_from make_each
  commit_valid ms directories w =
      if paths_differ ms
      then branch (attempt nothing w)
          (λ w'.
            if directories_free w'.disk directories
            then make_each directories [] ms w'
            else (refused, w'))
          (λ w'. (refused, w'))
      else (refused, w)

  -- Commit.
  unfoldable pub commit : Plan → World → Committed × World
  unfolding commit_valid revalidate_each sort_paths
  commit plan w =
      let ms = sort_by mutation_path plan.mutations in
      if is_empty plan.mutations
      then (refused, w)
      else branch (revalidate_each ms w) (commit_valid ms (sort_paths shallower plan.directories))
          (λ w'. (refused, w'))

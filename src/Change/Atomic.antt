-- ===== src/Change/Atomic.antt =====
-- Commit as a whole: a plan that is still valid is committed whole or not at all.
use parrot_coder.Base.{
  ℕ, ◌≡◌, refl, ap, sym, ◌∙◌, inl, inr, List, [], ◌∷◌, Text, Bool, true, false, ◌||◌, if◌then◌else◌,
  is_empty, length, ltb, Option, none, some, text_eq, text_eq_iff, arith, Bool-cases, subst, All,
  sort_by, sort_by-IsSorted, IsSorted,
}
use parrot_coder.Change.Disk.{
  Node, regular, link, directory, Disk, Mutation, Plan, World, attempt, nothing, node_of,
  is_regular_state, read_state, same_state,
}
use parrot_coder.Change.Calls.{covers, nothing-disk}
use parrot_coder.Change.Undo.{kept, Known, covers-sort_paths}
use parrot_coder.Change.Apply.{branch_ind}
use parrot_coder.Change.Make.{Outcome, make_each-Outcome}
use parrot_coder.Change.Sorted.{All-sort_by, All-unsort, covers-sort_by, sorted-Distinct}
use parrot_coder.Change.Commit.{
  Committed, committed, refused, failed, branch, Service, still_valid, revalidate_each,
  directories_free, paths_differ, mutation_path, commit_valid, commit, sort_paths, shallower,
  is_state,
}

-- What PlanPatch makes: states that were read, or that describe a regular file or none; and on the
-- disk no other content with the hash that was read, and no link to the empty name.
pub record IsPlanned (c : Service) (d0 : Disk) (m : Mutation) : Type 0 where
  pub before_hash : is_regular_state m.before ≡ true → m.before.hash ≡ c.sha m.before.content
  pub no_collision :
      (mode : ℕ) (content : Text)
      → d0 m.path ≡ some (regular mode content)
      → c.sha content ≡ c.sha m.before.content
      → content ≡ m.before.content
  pub named_link :
      (mode : ℕ) (target : Text) → d0 m.path ≡ some (link mode target) → is_empty target ≡ false
  pub after_path : m.after.path ≡ m.path
  pub plain : is_empty m.after.symlink_target ≡ true

module _ (c : Service) (d0 : Disk) where
  state-node :
      (m : Mutation) (o : Option Node)
      → IsPlanned c d0 m
      → d0 m.path ≡ o
      → is_state (read_state c.sha c.limit m.path o) m.before ≡ true
      → (kept o ≡ node_of m.before) × (m.before.path ≡ m.path)
  unfolding read_state same_state node_of
  state-node m none p e h = (ground arith, ground (arith, text_eq_iff m.path m.before.path))
  state-node m (some directory) p e h = absurd (cc)
  state-node m (some (link mode target)) p e h =
      let there : m.before.exists ≡ true = ground arith in
      let same : text_eq target m.before.symlink_target ≡ true = ground arith in
      let to : target ≡ m.before.symlink_target =
        (text_eq_iff target m.before.symlink_target).0 same in
      let named : is_empty target ≡ false = p.named_link mode target e in
      (ground arith, ground (arith, text_eq_iff m.path m.before.path))
  state-node m (some (regular mode content)) p e h =
      elim (Bool-cases (ltb c.limit (length content))) [
        | inl large ↦ absurd (ground arith)
        | inr small ↦
            let k : same_state
                  (record {
                    path = m.path;
                    exists = true;
                    mode = mode;
                    symlink_target = [];
                    content = content;
                    hash = c.sha content;
                  })
                  m.before
                ≡ true =
              rw small at h in
            let there : m.before.exists ≡ true = ground arith in
            let plain : m.before.symlink_target ≡ [] =
              sym ((text_eq_iff [] m.before.symlink_target).0 (ground arith)) in
            let hash : c.sha content ≡ m.before.hash =
              (text_eq_iff (c.sha content) m.before.hash).0 (ground arith) in
            let was : m.before.hash ≡ c.sha m.before.content = p.before_hash (ground arith) in
            let content_is : content ≡ m.before.content =
              p.no_collision mode content e (hash ∙ was) in
            (ground arith, ground (arith, text_eq_iff m.path m.before.path))
      ]

  -- What the loop over the mutations reports.
  Revalidated : List Mutation → Bool × World → Type 0
  Revalidated ms (true, v) = (v.disk ≡ d0) × All (Known d0) ms
  Revalidated ms (false, v) = v.disk ≡ d0

  valid-Known : (m : Mutation) → IsPlanned c d0 m → still_valid c d0 m ≡ true → Known d0 m
  unfolding still_valid
  valid-Known m p h =
      let (node, path) = state-node m (d0 m.path) p refl (ground arith) in
      record { node = node; before_path = path; after_path = p.after_path; plain = p.plain }

  revalidate-cons :
      (m : Mutation) (ms : List Mutation) (r : Bool × World)
      → Known d0 m
      → Revalidated ms r
      → Revalidated (m ∷ ms) r
  unfolding Revalidated
  revalidate-cons m ms (true, v) k h = (h.0, (k, h.1))
  revalidate-cons m ms (false, v) k h = h

  revalidate_each-Revalidated :
      (ms : List Mutation) (w : World)
      → All (IsPlanned c d0) ms
      → w.disk ≡ d0
      → Revalidated ms (revalidate_each c ms w)
  unfolding Revalidated revalidate_each
  revalidate_each-Revalidated [] w p e = (e, tt)
  revalidate_each-Revalidated (m ∷ ms) w p e =
      branch_ind (Revalidated (m ∷ ms)) (attempt nothing w) _ _
        (λ v f.
          let same : v.disk ≡ d0 =
            ap (λ (x : Bool × World). x.1.disk) (sym f) ∙ (nothing-disk w ∙ e) in
          elim (Bool-cases (still_valid c v.disk m)) [
            | inl t ↦ rw t (
                revalidate-cons m ms (revalidate_each c ms v) (valid-Known m p.0 (rw same at t))
                  (revalidate_each-Revalidated ms v p.1 same))
            | inr t ↦ rw t same
          ])
        (λ v f. ap (λ (x : Bool × World). x.1.disk) (sym f) ∙ (nothing-disk w ∙ e))

  free-All : (ds : List Text) → directories_free c d0 ds ≡ true → All (λ p. d0 p ≡ none) ds
  unfolding directories_free
  free-All [] h = tt
  free-All (p ∷ ds) h = (ground arith, free-All ds (ground arith))

module _ (c : Service) where
  commit_valid-Outcome :
      (ms : List Mutation) (ds : List Text) (w : World)
      → All (Known w.disk) ms
      → IsSorted mutation_path ms
      → Outcome w.disk ms (λ q. covers ds q || false) (commit_valid c ms ds w)
  unfolding commit_valid
  commit_valid-Outcome ms ds w k s = elim (Bool-cases (paths_differ ms)) [
    | inr e ↦ rw e (λ q. refl)
    | inl e ↦ rw e (
        branch_ind (Outcome w.disk ms (λ q. covers ds q || false)) (attempt nothing w) _ _
          (λ v f.
            let same : v.disk ≡ w.disk =
              ap (λ (x : Bool × World). x.1.disk) (sym f) ∙ nothing-disk w in
            elim (Bool-cases (directories_free c v.disk ds)) [
              | inl g ↦ rw g (
                  make_each-Outcome w.disk ms ds [] v k (sorted-Distinct ms s e)
                    (free-All c w.disk ds (rw same at g)) tt (λ q. ap (λ (d : Disk). d q) same))
              | inr g ↦ rw g (λ q. ap (λ (d : Disk). d q) same)
            ])
          (λ v f q.
            ap (λ (d : Disk). d q) (ap (λ (x : Bool × World). x.1.disk) (sym f) ∙ nothing-disk w)))
  ]

after_revalidation :
    (c : Service) (ms : List Mutation) (ds : List Text) (w : World) (r : Bool × World)
    → IsSorted mutation_path ms
    → Revalidated c w.disk ms r
    → Outcome w.disk ms
        (λ q. covers ds q || false)
        (branch r (commit_valid c ms ds) (λ v. (refused, v)))
unfolding Revalidated
after_revalidation c ms ds w (true, v) s (same, known) =
    subst (λ (d : Disk). Outcome d ms (λ q. covers ds q || false) (commit_valid c ms ds v)) same
      (commit_valid-Outcome c ms ds v (subst (λ (d : Disk). All (Known d) ms) (sym same) known) s)
after_revalidation c ms ds w (false, v) s same = λ q. ap (λ (d : Disk). d q) same

or_false : (b : Bool) → (b || false) ≡ b
or_false true = refl
or_false false = refl

-- The same outcome, in the order of the plan.
unsorted :
    (d0 : Disk) (plan : Plan) (r : Committed × World)
    → Outcome d0
        (sort_by mutation_path plan.mutations)
        (λ q. covers (sort_paths shallower plan.directories) q || false)
        r
    → Outcome d0 plan.mutations (covers plan.directories) r
unsorted d0 plan (committed, v) (same, placed) = (
  (λ q h.
      same q (covers-sort_by plan.mutations q ∙ h)
      ∙ ap (λ b. if b then some directory else d0 q)
          (or_false _ ∙ covers-sort_paths shallower plan.directories q)),
  All-unsort (λ m. v.disk m.path ≡ node_of m.after) plan.mutations placed,
)
unsorted d0 plan (refused, v) h = h
unsorted d0 plan (failed clean, v) h = h

-- Committing a plan of files to write and to remove, with no links to make, from states that were read,
-- does one of two things, whatever calls fail on the way. It reports no error: then every mutated path
-- holds its new state, the planned directories are there, and every other path is as it was. Or it
-- reports an error: then every path is as it was, or is the file that was there with the permission bits
-- of its mode alone, unless a call of the rollback or of the removal of directories failed too.
pub commit-Outcome :
    (c : Service) (plan : Plan) (w : World)
    → All (IsPlanned c w.disk) plan.mutations
    → Outcome w.disk plan.mutations (covers plan.directories) (commit c plan w)
unfolding commit
commit-Outcome c plan w p = elim (Bool-cases (is_empty plan.mutations)) [
  | inl e ↦ rw e (λ q. refl)
  | inr e ↦
      let ms : List Mutation = sort_by mutation_path plan.mutations in
      rw e (
        unsorted w.disk plan _ (
          after_revalidation c ms (sort_paths shallower plan.directories) w _
            (sort_by-IsSorted mutation_path plan.mutations)
            (revalidate_each-Revalidated c w.disk ms w
              (All-sort_by (IsPlanned c w.disk) plan.mutations p) refl)))
]

-- ===== src/Change/Makes.antt =====
-- What PlanPatch makes of one operation: a mutation with the effect of the operation, or an error.
use parrot_coder.Base.{
  suc, ◌%◌, ◌⊎◌, ◌<◌, ℕ, ◌≡◌, refl, ap, sym, inl, inr, List, [], ◌∷◌, Text, true, false, not, ◌&&◌,
  ltb, is_empty, length, Option, none, some, arith, Bool-cases, Option-cases, subst,
}
use parrot_coder.Patch.Rounds.{Comes, apply_hunks-Comes}
use parrot_coder.Patch.Apply.{MatchError, Applied, patched, refused, out_of_range, apply_hunks}
use parrot_coder.Patch.Operations.{OperationKind, unset, add, update, delete, Operation}
use parrot_coder.Change.Disk.{Disk, FileState, Mutation, read_state}
use parrot_coder.Change.Commit.{Service}
use parrot_coder.Change.Planner.{
  match_errors, Step, mutates, errs, is_special, panics, plan_add_state, plan_add, plan_content,
  plan_state, on_state, at_add, at_read, plan_kind,
}

-- What an operation of a kind puts in place, within the limit: its own content where no content is, what
-- its hunks make of the content that is there with its permissions, or nothing.
abbrev pub Effect : ℕ → OperationKind → Operation → Mutation → Type 0
Effect limit unset o m = ⊥
Effect limit add o m =
    (m.after.exists ≡ true)
    × (m.after.content ≡ o.content)
    × (ltb limit (length m.after.content) ≡ false)
    × (m.before.exists && not (is_empty m.before.content)) ≡ false
Effect limit update o m =
    (m.after.exists ≡ true)
    × (apply_hunks m.before.content o.hunks ≡ patched m.after.content)
    × (ltb limit (length m.after.content) ≡ false)
    × m.after.mode ≡ m.before.mode % 512
Effect limit delete o m = m.after.exists ≡ false

module _ (c : Service) (missing_parents : Disk → Text → Option (List Text)) (d : Disk) where
  abbrev pub resolve : OperationKind → Text → Option Text
  resolve add path = c.resolve_create d path
  resolve _ path = c.resolve_read d path

  -- A mutation that is planned on this disk for an operation.
  pub record IsMade (k : OperationKind) (o : Operation) (m : Mutation) : Type 0 where
    pub requested : m.requested_path ≡ o.path
    pub resolved : resolve k o.path ≡ some m.path
    pub effect : Effect c.limit k o m
    pub read : read_state c.sha c.limit m.path (d m.path) ≡ some m.before
    pub after_path : m.after.path ≡ m.path
    pub plain : is_empty m.after.symlink_target ≡ true

  -- The step that an operation of a kind comes to.
  abbrev pub Makes : OperationKind → Operation → Step → Type 0
  Makes k o (mutates m ds) = IsMade k o m
  Makes k o (errs es) = (k ≡ unset) ⊎ (0 < length es)
  Makes k o panics = ⊥

  plan_add_state-Makes :
      (o : Operation) (path : Text) (parents : List Text) (before : FileState)
      → resolve add o.path ≡ some path
      → ltb c.limit (length o.content) ≡ false
      → read_state c.sha c.limit path (d path) ≡ some before
      → Makes add o (plan_add_state c missing_parents d o path parents before)
  unfolding plan_add_state
  plan_add_state-Makes o path parents before at small read =
      elim (Bool-cases (before.exists && is_special before)) [
        | inl a ↦ rw a (inr (omega arith))
        | inr a ↦ elim (Bool-cases (before.exists && not (is_empty before.content))) [
          | inl b ↦ rw (a, b) (inr (omega arith))
          | inr b ↦
              rw (a, b)
                (record {
                  requested = refl;
                  resolved = at;
                  effect = (refl, refl, small, b);
                  read = read;
                  after_path = refl;
                  plain = refl;
                })
        ]
      ]

  length-match_errors :
      (o : Operation) (es : List MatchError)
      → length (match_errors c missing_parents d o es) ≡ length es
  unfolding match_errors
  length-match_errors o [] = refl
  length-match_errors o (e ∷ es) = ap suc (length-match_errors o es)

  plan_content-Makes :
      (o : Operation) (path : Text) (before : FileState) (r : Applied)
      → resolve update o.path ≡ some path
      → apply_hunks before.content o.hunks ≡ r
      → Comes before.content o.hunks r
      → read_state c.sha c.limit path (d path) ≡ some before
      → Makes update o (plan_content c missing_parents d o path before r)
  unfolding plan_content
  plan_content-Makes o path before (patched out) at applied comes read =
      elim (Bool-cases (ltb c.limit (length out))) [
        | inl a ↦ rw a (inr (omega arith))
        | inr a ↦ rw a (record {
          requested = refl;
          resolved = at;
          effect = (refl, applied, a, refl);
          read = read;
          after_path = refl;
          plain = refl;
        })
      ]
  plan_content-Makes o path before (refused es) at applied comes read =
      inr (subst (λ (n : ℕ). 0 < n) (sym (length-match_errors o es)) comes.0)
  plan_content-Makes o path before out_of_range at applied comes read = absurd comes

  plan_add-Makes :
      (o : Operation) (path : Text)
      → resolve add o.path ≡ some path
      → Makes add o (plan_add c missing_parents d o path)
  unfolding plan_add
  plan_add-Makes o path at = elim (Option-cases (missing_parents d path)) [
    | inl n ↦ rw (plan_add, n) (inr (omega arith))
    | inr (parents, q) ↦ elim (Bool-cases (ltb c.limit (length o.content))) [
      | inl a ↦ rw (plan_add, q, a) (inr (omega arith))
      | inr a ↦ elim (Option-cases (read_state c.sha c.limit path (d path))) [
        | inl n ↦ rw (plan_add, q, a, n) (inr (omega arith))
        | inr (before, r) ↦
            rw (plan_add, q, a, r) (plan_add_state-Makes o path parents before at a r)
      ]
    ]
  ]

  plan_update-Makes :
      (o : Operation) (path : Text) (before : FileState)
      → resolve update o.path ≡ some path
      → read_state c.sha c.limit path (d path) ≡ some before
      → Makes update o (plan_state c missing_parents d update o path before)
  unfolding plan_state
  plan_update-Makes o path before at read = elim (Bool-cases (is_special before)) [
    | inl a ↦ rw a (inr (omega arith))
    | inr a ↦ rw a (
        plan_content-Makes o path before (apply_hunks before.content o.hunks) at refl
          (apply_hunks-Comes before.content o.hunks) read)
  ]

  plan_delete-Makes :
      (o : Operation) (path : Text) (before : FileState)
      → resolve delete o.path ≡ some path
      → read_state c.sha c.limit path (d path) ≡ some before
      → Makes delete o (plan_state c missing_parents d delete o path before)
  unfolding plan_state
  plan_delete-Makes o path before at read = elim (Bool-cases (is_special before)) [
    | inl a ↦ rw a (inr (omega arith))
    | inr a ↦ rw a (record {
      requested = refl;
      resolved = at;
      effect = refl;
      read = read;
      after_path = refl;
      plain = refl;
    })
  ]

  -- The state that is read, for an update or a deletion.
  read-Makes :
      (o : Operation) (k : OperationKind) (path : Text) (r : Option FileState)
      → ((before : FileState)
          → r ≡ some before
          → Makes k o (plan_state c missing_parents d k o path before))
      → Makes k o (on_state c missing_parents d k o path r)
  read-Makes o k path none h = inr (omega arith)
  read-Makes o k path (some before) h = h before refl

  at_read-Makes :
      (o : Operation) (k : OperationKind) (r : Option Text)
      → ((path : Text) (before : FileState)
          → r ≡ some path
          → read_state c.sha c.limit path (d path) ≡ some before
          → Makes k o (plan_state c missing_parents d k o path before))
      → Makes k o (at_read c missing_parents d k o r)
  at_read-Makes o k none h = inr (omega arith)
  at_read-Makes o k (some path) h =
      read-Makes o k path (read_state c.sha c.limit path (d path))
        (λ before q. h path before refl q)

  at_add-Makes :
      (o : Operation) (r : Option Text)
      → resolve add o.path ≡ r
      → Makes add o (at_add c missing_parents d o r)
  at_add-Makes o none e = inr (omega arith)
  at_add-Makes o (some path) e = plan_add-Makes o path e

  pub plan_kind-Makes :
      (k : OperationKind) (o : Operation) → Makes k o (plan_kind c missing_parents d k o)
  unfolding plan_kind
  plan_kind-Makes unset o = inl refl
  plan_kind-Makes add o = at_add-Makes o (c.resolve_create d o.path) refl
  plan_kind-Makes update o =
      at_read-Makes o update (c.resolve_read d o.path)
        (λ path before e q. plan_update-Makes o path before e q)
  plan_kind-Makes delete o =
      at_read-Makes o delete (c.resolve_read d o.path)
        (λ path before e q. plan_delete-Makes o path before e q)

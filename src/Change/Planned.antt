-- ===== src/Change/Planned.antt =====
-- What PlanPatch plans, and that a plan is committed whole or not at all on the disk it was made for.
use parrot_coder.Base.{
  ◌||◌, ◌⊎◌, ◌<◌, is_empty-length, ℕ, ◌≡◌, refl, ap, sym, ◌∙◌, inl, inr, List, [], ◌∷◌, ◌++◌, Text,
  Bool, true, false, is_empty, length, Option, none, some, arith, Bool-cases, All, sort_by, subst,
}
use mathlib.Core.List.{append_assoc, append-nil}
use parrot_coder.Patch.Rounds.{empty-length}
use parrot_coder.Patch.Blocks.{ok}
use parrot_coder.Patch.Operations.{OperationKind, unset, Operation}
use parrot_coder.Change.Disk.{
  Node, regular, link, directory, Disk, Mutation, World, read_state, is_regular_state,
}
use parrot_coder.Change.Calls.{covers}
use parrot_coder.Change.Make.{Outcome}
use parrot_coder.Change.Sorted.{All-sort_by}
use parrot_coder.Change.Atomic.{IsPlanned, commit-Outcome}
use parrot_coder.Change.Commit.{Service, mutation_path, commit}
use parrot_coder.Change.Planner.{
  PlanError, Step, mutates, errs, panics, panicked, plan_kind, note, Planning, PlanResult, planned,
  bad_patch, failing, ended, finish_plan, plan_each, plan_patch,
}
use parrot_coder.Change.Makes.{IsMade, Makes, plan_kind-Makes}

-- Whether the context has ended at one of the operations.
abbrev pub ended_by : List Operation → List Bool → Bool
ended_by [] cs = false
ended_by (o ∷ os) [] = false
ended_by (o ∷ os) (b ∷ cs) = b || ended_by os cs

module _ (c : Service) (missing_parents : Disk → Text → Option (List Text)) (d : Disk) where
  -- The mutations that a list of operations makes, in its order; an operation of no kind makes none.
  abbrev pub Answers : List Operation → List Mutation → Type 0
  Answers [] ms = ms ≡ []
  Answers (o ∷ os) ms =
      ((o.kind ≡ unset) × Answers os ms)
      ⊎ ((m : Mutation) × (rest : List Mutation) × (ms ≡ m ∷ rest)
          × IsMade c missing_parents d o.kind o m
          × Answers os rest)

  -- What a loop over the operations that are left comes to.
  abbrev pub Plans : Bool → Planning → List Operation → PlanResult → Type 0
  Plans stop p os (planned plan) =
      (stop ≡ false)
      × (is_empty p.errors ≡ true)
      × ((ms : List Mutation) × Answers os ms
          × (plan.mutations ≡ sort_by mutation_path (p.mutations ++ ms)))
  Plans stop p os (bad_patch e) = ⊥
  Plans stop p os (failing es) = 0 < length es
  Plans stop p os ended = stop ≡ true
  Plans stop p os panicked = ⊥

  finish_plan-Plans : (p : Planning) → Plans false p [] (finish_plan p)
  unfolding finish_plan
  finish_plan-Plans p = elim (Bool-cases (is_empty p.errors)) [
    | inl e ↦
        rw e
          (refl, e, ([], refl, ap (λ ms. sort_by mutation_path ms) (sym (append-nil p.mutations))))
    | inr e ↦ rw e (is_empty-length p.errors e)
  ]

  is_empty-append :
      {A : Type 0} (xs ys : List A)
      → is_empty (xs ++ ys) ≡ true
      → (is_empty xs ≡ true) × (is_empty ys ≡ true)
  is_empty-append [] ys e = (refl, e)
  is_empty-append (x ∷ xs) ys e = absurd (cc)

  after_mutation :
      (stop : Bool) (o : Operation) (os : List Operation) (p next : Planning) (m : Mutation)
      (r : PlanResult)
      → next.errors ≡ p.errors
      → next.mutations ≡ p.mutations ++ (m ∷ [])
      → IsMade c missing_parents d o.kind o m
      → Plans stop next os r
      → Plans stop p (o ∷ os) r
  after_mutation stop o os p next m (planned plan) same_errors more made
        (on, none_yet, (ms, answers, sorted)) =
      (
        on,
        ap is_empty (sym same_errors) ∙ none_yet,
        (
          m ∷ ms,
          inr (m, ms, refl, made, answers),
          sorted
              ∙ ap (λ xs. sort_by mutation_path xs)
                  (ap (λ xs. xs ++ ms) more ∙ append_assoc p.mutations (m ∷ []) ms),
        ),
      )
  after_mutation stop o os p next m (bad_patch e) same_errors more made h = h
  after_mutation stop o os p next m (failing es) same_errors more made h = h
  after_mutation stop o os p next m ended same_errors more made h = h
  after_mutation stop o os p next m panicked same_errors more made h = h

  after_errors :
      (stop : Bool) (o : Operation) (os : List Operation) (p next : Planning) (es : List PlanError)
      (r : PlanResult)
      → next.errors ≡ p.errors ++ es
      → next.mutations ≡ p.mutations
      → (o.kind ≡ unset) ⊎ (0 < length es)
      → Plans stop next os r
      → Plans stop p (o ∷ os) r
  after_errors stop o os p next es (planned plan) more same why
        (on, none_yet, (ms, answers, sorted)) =
      let (before, now) = is_empty-append p.errors es (ap is_empty (sym more) ∙ none_yet) in
      let no_kind : o.kind ≡ unset = elim why [
        | inl k ↦ k
        | inr some_error ↦ absurd (omega (arith, empty-length es now, some_error))
      ] in
      (
        on,
        before,
        (ms, inl (no_kind, answers), sorted ∙ ap (λ xs. sort_by mutation_path (xs ++ ms)) same),
      )
  after_errors stop o os p next es (bad_patch e) more same why h = h
  after_errors stop o os p next es (failing fs) more same why h = h
  after_errors stop o os p next es ended more same why h = h
  after_errors stop o os p next es panicked more same why h = h

  -- The loop, once what an operation came to is noted.
  noted-Plans :
      (stop : Bool) (o : Operation) (os : List Operation) (cs : List Bool) (p : Planning) (t : Step)
      → Makes c missing_parents d o.kind o t
      → ((next : Planning) → Plans stop next os (plan_each c missing_parents d os cs next))
      → Plans stop p (o ∷ os) (elim (note t p) [
        | none ↦ panicked
        | some next ↦ plan_each c missing_parents d os cs next
      ])
  noted-Plans stop o os cs p (mutates m ds) made h =
      after_mutation stop o os p
        (record p { mutations = p.mutations ++ (m ∷ []); directories = p.directories ++ ds }) m _
        refl refl made (h _)
  noted-Plans stop o os cs p (errs es) made h =
      after_errors stop o os p (record p { errors = p.errors ++ es }) es _ refl refl made (h _)
  noted-Plans stop o os cs p panics made h = absurd made

  not_ended : (os : List Operation) → ended_by os [] ≡ false
  not_ended [] = refl
  not_ended (o ∷ os) = refl

  plan_each-Plans :
      (os : List Operation) (cs : List Bool) (p : Planning)
      → Plans (ended_by os cs) p os (plan_each c missing_parents d os cs p)
  unfolding plan_each
  plan_each-Plans [] cs p = finish_plan-Plans p
  plan_each-Plans (o ∷ os) (true ∷ cs) p = refl
  plan_each-Plans (o ∷ os) (false ∷ cs) p =
      noted-Plans (ended_by os cs) o os cs p (plan_kind c missing_parents d o.kind o)
        (plan_kind-Makes c missing_parents d o.kind o) (plan_each-Plans os cs)
  plan_each-Plans (o ∷ os) [] p =
      noted-Plans false o os [] p (plan_kind c missing_parents d o.kind o)
        (plan_kind-Makes c missing_parents d o.kind o)
        (λ next.
          subst (λ (b : Bool). Plans b next os (plan_each c missing_parents d os [] next))
            (not_ended os) (plan_each-Plans os [] next))

  -- No link on the disk has the empty name.
  abbrev pub LinksNamed : Type 0
  LinksNamed =
      (path target : Text) (mode : ℕ) → d path ≡ some (link mode target) → is_empty target ≡ false

  made-hash :
      (m : Mutation) (n : Option Node)
      → read_state c.sha c.limit m.path n ≡ some m.before
      → is_regular_state m.before ≡ true
      → ((target : Text) (mode : ℕ) → n ≡ some (link mode target) → is_empty target ≡ false)
      → m.before.hash ≡ c.sha m.before.content
  unfolding read_state
  made-hash m none e r named = absurd (cc)
  made-hash m (some directory) e r named = absurd (cc)
  made-hash m (some (link mode target)) e r named =
      let n : is_empty target ≡ false = named target mode refl in ground arith
  made-hash m (some (regular mode content)) e r named = ground arith

  made-content :
      (m : Mutation) (mode : ℕ) (content : Text)
      → read_state c.sha c.limit m.path (some (regular mode content)) ≡ some m.before
      → content ≡ m.before.content
  unfolding read_state
  made-content m mode content e = ground arith

  made-IsPlanned :
      (k : OperationKind) (o : Operation) (m : Mutation)
      → LinksNamed
      → IsMade c missing_parents d k o m
      → IsPlanned c d m
  made-IsPlanned k o m named p = record {
    before_hash =
        λ r. made-hash m (d m.path) p.read r (λ target mode at. named m.path target mode at);
    no_collision = λ mode content at same.
        made-content m mode content (
          subst (λ (n : Option Node). read_state c.sha c.limit m.path n ≡ some m.before) at p.read);
    named_link = λ mode target at. named m.path target mode at;
    after_path = p.after_path;
    plain = p.plain;
  }

  Answers-IsPlanned :
      (os : List Operation) (ms : List Mutation)
      → LinksNamed
      → Answers os ms
      → All (IsPlanned c d) ms
  Answers-IsPlanned [] ms named e = subst (All (IsPlanned c d)) (sym e) tt
  Answers-IsPlanned (o ∷ os) ms named (inl (k, answers)) = Answers-IsPlanned os ms named answers
  Answers-IsPlanned (o ∷ os) ms named (inr (m, rest, e, made, answers)) =
      subst (All (IsPlanned c d)) (sym e)
        (made-IsPlanned o.kind o m named made, Answers-IsPlanned os rest named answers)

  -- What a plan for a patch comes to, and its commit in a world.
  abbrev pub Committable : World → List Bool → List Operation → PlanResult → Type 0
  Committable w cs os (planned plan) =
      (ended_by os cs ≡ false)
      × ((ms : List Mutation) × Answers os ms × (plan.mutations ≡ sort_by mutation_path ms))
      × Outcome d plan.mutations (covers plan.directories) (commit c plan w)
  Committable w cs os (bad_patch e) = ⊥
  Committable w cs os (failing es) = 0 < length es
  Committable w cs os ended = ended_by os cs ≡ true
  Committable w cs os panicked = ⊥

  committable :
      (os : List Operation) (cs : List Bool) (w : World) (r : PlanResult)
      → LinksNamed
      → w.disk ≡ d
      → Plans (ended_by os cs) (record { mutations = []; directories = []; errors = [] }) os r
      → Committable w cs os r
  committable os cs w (planned plan) named here (on, e, (ms, answers, sorted)) = (
    on,
    (ms, answers, sorted),
    subst (λ (x : Disk). Outcome x plan.mutations (covers plan.directories) (commit c plan w)) here
        (commit-Outcome c plan w (
          subst (λ (x : Disk). All (IsPlanned c x) plan.mutations) (sym here)
            (subst (All (IsPlanned c d)) (sym sorted)
              (All-sort_by (IsPlanned c d) ms (Answers-IsPlanned os ms named answers))))),
  )
  committable os cs w (bad_patch e) named here h = h
  committable os cs w (failing es) named here h = h
  committable os cs w ended named here h = h
  committable os cs w panicked named here h = h

  -- Planning the operations of a patch never panics. It reports at least one error, or the context
  -- has ended by one of them, or it has not and there is a plan. A plan has, in the order of the paths, one mutation for each
  -- operation that has a kind and no other: at the path that the operation's name resolves to, from the
  -- state that is read there, with the operation's effect. When no link on the disk has an empty
  -- target, committing the plan on that disk, whatever calls fail, either reports no error and
  -- has every mutation and directory in place and all else as it was, or reports an error and
  -- leaves the disk as it was, but for bits of modes that are not permissions, unless a call of the
  -- rollback or of the removal of directories failed too.
  pub plan_patch-Committable :
      (os : List Operation) (cs : List Bool) (w : World)
      → LinksNamed
      → w.disk ≡ d
      → Committable w cs os (plan_patch c missing_parents d (ok os) cs)
  unfolding plan_patch
  plan_patch-Committable os cs w named here =
      committable os cs w _ named here
        (plan_each-Plans os cs (record { mutations = []; directories = []; errors = [] }))

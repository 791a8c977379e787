-- ===== src/Goal/Atomic.antt =====
-- What single requests do, when they fail and when they succeed.
use parrot_coder.Base.{
  ◌≡◌, refl, sym, ap, ◌∙◌, Bool, true, not, ◌||◌, inl, inr, [], ◌∷◌, ◌++◌, Option, none, some, Text,
  ℤ, arith, text_eq, if◌then◌else◌, Bool-cases,
}
use parrot_coder.Patch.Spaces.{trim_unicode}
use parrot_coder.Goal.Types.{active, Goal, Result, ok, err, EventType, updated, Store, Call}
use parrot_coder.Goal.Service.{
  is_complete, Change, write, committed, insert_goal, new_goal, create, create_as, bad_budget,
}

-- A call that fails leaves the store, and one that succeeds satisfies `P`.
abbrev pub Outcome : {A : Type 0} → Store → (A → Store → Type 0) → Result A × Store → Type 0
Outcome s P (ok a, s') = P a s'
Outcome s P (err e, s') = s' ≡ s

-- The new row and, if events are on, one event for it at the end of the log.
abbrev pub Published : Bool → EventType → Store → Option Goal → Goal → Store → Type 0
Published logged type s row goal s' =
    (s'.row ≡ row)
    × (s'.session ≡ s.session)
    × (s'.events ≡ (if logged then s.events ++ (type, goal) ∷ [] else s.events))

committed-Outcome :
    (logged : Bool) (type : EventType) (s : Store) (r : Result Change)
    → Outcome s
        (λ g s'. (row : Option Goal) × (r ≡ ok (row, g)) × Published logged type s row g s')
        (committed logged type s r)
unfolding committed
committed-Outcome logged type s (ok (row, g)) = (row, refl, (refl, refl, refl))
committed-Outcome logged type s (err e) = refl

-- Every call that goes through `write`.
pub write-Outcome :
    (logged : Bool) (call : Call) (type : EventType) (mutate : Option Goal → Result Change)
    (s : Store)
    → Outcome s
        (λ g s'.
          (row : Option Goal) × (mutate s.row ≡ ok (row, g)) × Published logged type s row g s')
        (write logged call type mutate s)
unfolding write
write-Outcome logged call type mutate s = elim (Bool-cases (not s.session)) [
  | inl e ↦ rw e refl
  | inr e ↦ elim (Bool-cases (not call.database_ok)) [
    | inl f ↦ rw (e, f) refl
    | inr f ↦ rw (e, f) (committed-Outcome logged type s (mutate s.row))
  ]
]

pub Outcome-mono :
    {A : Type 0} (s : Store) (P Q : A → Store → Type 0) (r : Result A × Store)
    → ((a : A) (s' : Store) → P a s' → Q a s')
    → Outcome s P r
    → Outcome s Q r
Outcome-mono s P Q (ok a, s') f o = f a s' o
Outcome-mono s P Q (err e, s') f o = o

-- There is no goal, or only a completed one.
abbrev pub IsFinished : Option Goal → Type 0
IsFinished none = Unit {0}
IsFinished (some old) = is_complete old.status ≡ true

insert_goal-IsFinished :
    (g g' : Goal) (row row' : Option Goal)
    → insert_goal g row ≡ ok (row', g')
    → IsFinished row × (row' ≡ some g) × (g' ≡ g)
unfolding insert_goal
insert_goal-IsFinished g g' none row' e = (tt, cc, cc)
insert_goal-IsFinished g g' (some old) row' e = (ground arith, ground arith, ground arith)

-- What a successful Create gives.
abbrev pub Created : Bool → Text → Option ℤ → Store → Goal → Store → Type 0
Created logged objective budget s g s' =
    IsFinished s.row
    × (g.status ≡ active)
    × (g.objective ≡ trim_unicode objective)
    × (g.token_budget ≡ budget)
    × (g.tokens_used ≡ 0)
    × (g.elapsed_seconds ≡ 0)
    × Published logged updated s (some g) g s'

create_as-Outcome :
    (logged : Bool) (call : Call) (objective : Text) (budget : Option ℤ) (id : Option Text)
    (s : Store)
    → Outcome s
        (Created logged objective budget s)
        (create_as logged call (trim_unicode objective) budget id s)
unfolding create_as
create_as-Outcome logged call objective budget none s = refl
create_as-Outcome logged call objective budget (some id) s =
    let new = new_goal call id (trim_unicode objective) budget in
    Outcome-mono s _ _ (write logged call updated (insert_goal new) s)
      (λ g s' p.
        let (finished, e, f) = insert_goal-IsFinished new g s.row p.0 p.1 in
        (
          finished,
          ap (λ (g : Goal). g.status) f,
          ap (λ (g : Goal). g.objective) f,
          ap (λ (g : Goal). g.token_budget) f,
          ap (λ (g : Goal). g.tokens_used) f,
          ap (λ (g : Goal). g.elapsed_seconds) f,
          (p.2.0 ∙ e ∙ ap some (sym f), p.2.1, p.2.2),
        ))
      (write-Outcome logged call updated (insert_goal new) s)

-- Create, in every store: if it succeeds there was no goal or a completed one, and the row is the
-- new active goal with the trimmed objective, the budget given and all counts at zero, published as
-- one event if events are on; if it fails the store is as before.
pub create_lem :
    (logged : Bool) (call : Call) (objective : Text) (budget : Option ℤ) (s : Store)
    → Outcome s (Created logged objective budget s) (create logged call objective budget s)
unfolding create
create_lem logged call objective budget s =
    elim (Bool-cases (text_eq (trim_unicode objective) [] || bad_budget budget)) [
      | inl e ↦ rw e refl
      | inr e ↦ rw e (create_as-Outcome logged call objective budget call.fresh_id s)
    ]

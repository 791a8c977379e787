-- ===== src/Goal/Budget.antt =====
-- The token budget and the count of tokens under single requests.
use parrot_coder.Base.{
  ℕ, ◌≤◌, ◌≡◌, refl, Bool, false, ◌&&◌, Option, none, some, Text, ℤ, pos_part, arith, Bool-cases,
  inl, inr,
}
use parrot_coder.Patch.Spaces.{trim_unicode}
use parrot_coder.Goal.Types.{
  Status, Goal, Mutation, Usage, Result, ok, err, EventType, updated, cleared, Store, Call,
  max_int64, over_budget,
}
use parrot_coder.Goal.Service.{
  is_active, is_complete, new_goal, trim_objective, Change, write, with_goal, insert_goal, create,
  create_as, settle_status, update_goal, update_row, update, clear, clear_row, update_agent_status,
  usage_delta, charge, charge_row, account_usage, mark_usage_limited, limit_goal, bad_budget,
  committed,
}

-- No active goal has reached its budget, and the count of tokens is an int64.
abbrev pub IsSound : Option Goal → Type 0
IsSound none = Unit {0}
IsSound (some g) =
    ((is_active g.status && over_budget g.tokens_used g.token_budget) ≡ false)
    × (g.tokens_used ≤ max_int64)

abbrev SoundChange : Result Change → Type 0
SoundChange (ok (row, goal)) = IsSound row
SoundChange (err e) = Unit {0}

committed-IsSound :
    (logged : Bool) (type : EventType) (s : Store) (r : Result Change)
    → IsSound s.row
    → SoundChange r
    → IsSound (committed logged type s r).1.row
unfolding committed
committed-IsSound logged type s (ok c) v w = w
committed-IsSound logged type s (err e) v w = v

write-IsSound :
    (logged : Bool) (call : Call) (type : EventType) (mutate : Option Goal → Result Change)
    (s : Store)
    → IsSound s.row
    → SoundChange (mutate s.row)
    → IsSound (write logged call type mutate s).1.row
unfolding write
write-IsSound logged call type mutate s v w =
    ground (arith, v, committed-IsSound logged type s (mutate s.row) v w)

with_goal-IsSound :
    (change : Goal → Result Change) (row : Option Goal)
    → ((g : Goal) → IsSound (some g) → SoundChange (change g))
    → IsSound row
    → SoundChange (with_goal change row)
unfolding with_goal
with_goal-IsSound change none keep v = tt
with_goal-IsSound change (some g) keep v = keep g v

update_goal-IsSound :
    (call : Call) (m : Mutation) (g : Goal)
    → IsSound (some g)
    → IsSound (some (update_goal call m g))
unfolding update_goal settle_status
update_goal-IsSound call m g v = (ground arith, v.1)

usage_delta-le : (u : Usage) → pos_part u.output_tokens ≤ max_int64 → usage_delta u ≤ max_int64
unfolding usage_delta
usage_delta-le u h = omega arith

charge-IsSound :
    (call : Call) (delta : ℕ) (g : Goal)
    → delta ≤ max_int64
    → IsSound (some g)
    → IsSound (some (charge call delta g))
unfolding charge
charge-IsSound call delta g h v = (ground (arith, v.0), ground (arith, v.1))

inserted-IsSound :
    (call : Call) (id objective : Text) (budget : Option ℤ) (row : Option Goal)
    → bad_budget budget ≡ false
    → SoundChange (insert_goal (new_goal call id objective budget) row)
unfolding insert_goal
inserted-IsSound call id objective none none h = (refl, omega arith)
inserted-IsSound call id objective none (some old) h = elim (Bool-cases (is_complete old.status)) [
  | inl e ↦ rw e (refl, omega arith)
  | inr e ↦ rw e tt
]
inserted-IsSound call id objective (some b) none h = (ground arith, omega arith)
inserted-IsSound call id objective (some b) (some old) h =
    elim (Bool-cases (is_complete old.status)) [
      | inl e ↦ rw e (ground arith, omega arith)
      | inr e ↦ rw e tt
    ]

module _ (logged : Bool) (call : Call) (s : Store) (v : IsSound s.row) where
  created-IsSound :
      (objective : Text) (budget : Option ℤ) (id : Option Text)
      → bad_budget budget ≡ false
      → IsSound (create_as logged call objective budget id s).1.row
  unfolding create_as
  created-IsSound objective budget none h = v
  created-IsSound objective budget (some id) h =
      write-IsSound logged call updated (insert_goal (new_goal call id objective budget)) s v
        (inserted-IsSound call id objective budget s.row h)

  pub create-IsSound :
      (objective : Text) (budget : Option ℤ) → IsSound (create logged call objective budget s).1.row
  unfolding create
  create-IsSound objective budget =
      ground (arith, v, created-IsSound (trim_unicode objective) budget call.fresh_id)

  pub update-IsSound : (m : Mutation) → IsSound (update logged call m s).1.row
  unfolding update update_row
  update-IsSound m =
      let m' = record m { objective = trim_objective m.objective } in
      ground (
        arith,
        v,
        write-IsSound logged call updated (with_goal (update_row call m')) s v
            (with_goal-IsSound (update_row call m') s.row (update_goal-IsSound call m') v),
      )

  pub update_agent_status-IsSound :
      (status : Status) → IsSound (update_agent_status logged call status s).1.row
  unfolding update_agent_status
  update_agent_status-IsSound status = ground (
    arith,
    v,
    update-IsSound (record {
      objective = none;
      status = some status;
      token_budget = none;
      clear_token_budget = false;
    }),
  )

  pub clear-IsSound : IsSound (clear logged call s).1.row
  unfolding clear
  clear-IsSound =
      write-IsSound logged call cleared (with_goal clear_row) s v
        (with_goal-IsSound clear_row s.row (λ g h. tt) v)

  pub account_usage-IsSound :
      (u : Usage)
      → pos_part u.output_tokens ≤ max_int64
      → IsSound (account_usage logged call u s).1.row
  unfolding account_usage charge_row
  account_usage-IsSound u h =
      let delta = usage_delta u in
      write-IsSound logged call updated (with_goal (charge_row call delta)) s v (
        with_goal-IsSound (charge_row call delta) s.row
          (λ g w. charge-IsSound call delta g (usage_delta-le u h) w) v)

  limit_goal-IsSound :
      (row : Option Goal) → IsSound row → IsSound (limit_goal logged call s row).1.row
  unfolding limit_goal
  limit_goal-IsSound none w = v
  limit_goal-IsSound (some g) w = elim (Bool-cases (is_active g.status)) [
    | inl e ↦ rw e (refl, w.1)
    | inr e ↦ rw e v
  ]

  pub mark_usage_limited-IsSound : IsSound (mark_usage_limited logged call s).1.row
  unfolding mark_usage_limited
  mark_usage_limited-IsSound = ground (arith, v, limit_goal-IsSound s.row v)

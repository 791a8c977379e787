-- ===== src/Goal/Charging.antt =====
-- Accounting of tokens, the statuses that the agent may set, and the provider's usage limit.
use parrot_coder.Base.{
  ℕ, ◌+◌, ◌-◌, ◌≤◌, ◌≡◌, refl, sym, ◌∙◌, min, Bool, true, false, not, ◌⊎◌, inl, inr, Option, none,
  some, pos_part, arith, if◌then◌else◌, Bool-cases, subst,
}
use parrot_coder.Goal.Types.{
  Status, blocked, usage_limited, budget_limited, complete, Goal, Mutation, Usage, Result, ok,
  updated, Store, Call, max_int64, over_budget,
}
use parrot_coder.Goal.Service.{
  valid_status, is_active, write, with_goal, update, update_row, update_goal, settle_status,
  update_agent_status, usage_delta, charge, charge_row, account_usage, mark_usage_limited,
  limit_goal, agent_may_set, Change,
}
use parrot_coder.Goal.Budget.{IsSound}
use parrot_coder.Goal.Atomic.{Outcome, Outcome-mono, Published, write-Outcome}

-- A change that returns the row that it stores.
abbrev same_row : Goal → Result Change
same_row g = ok (some g, g)

with_goal-ok :
    (change : Goal → Result Change) (row : Option Goal) (c : Change)
    → with_goal change row ≡ ok c
    → (old : Goal) × (row ≡ some old) × (change old ≡ ok c)
unfolding with_goal
with_goal-ok change none c e = cc
with_goal-ok change (some g) c e = (g, refl, e)

one_goal :
    (change : Goal → Goal) (old : Goal) (c : Change)
    → same_row (change old) ≡ ok c
    → (change old ≡ c.1) × (c.0 ≡ some c.1)
one_goal change old c e = (ground arith, ground arith)

-- The tokens that count: input that was not cached, and all output.
abbrev pub counted : Usage → ℕ
counted u = (pos_part u.input_tokens - pos_part u.cached_input_tokens) + pos_part u.output_tokens

-- What charging does to a goal.
abbrev pub Charged : Usage → Goal → Goal → Type 0
Charged u old g =
    (g.objective ≡ old.objective)
    × (g.token_budget ≡ old.token_budget)
    × (((is_active old.status ≡ false) × (g ≡ old))
        ⊎ ((is_active old.status ≡ true)
            × (g.tokens_used ≡ min (old.tokens_used + counted u) max_int64)
            × (g.status ≡ (
                if over_budget g.tokens_used g.token_budget then budget_limited else old.status))))

charge_lem :
    (call : Call) (u : Usage) (old : Goal)
    → pos_part u.output_tokens ≤ max_int64
    → old.tokens_used ≤ max_int64
    → Charged u old (charge call (usage_delta u) old)
unfolding charge usage_delta
charge_lem call u old h k = elim (Bool-cases (is_active old.status)) [
  | inl e ↦ (ground arith, ground arith, inr (e, ground arith, ground arith))
  | inr e ↦ (ground arith, ground arith, inl (e, rw e refl))
]

-- AccountUsage, for counts in the range of an int64: it fails and changes nothing, or there was a
-- goal. An inactive goal stays as it is; of an active one the uncached input and the output are
-- added to the tokens used, up to the largest int64, and it becomes budget-limited just if it has a
-- budget and has now reached it. The row is published as one event if events are on.
pub account_usage_lem :
    (logged : Bool) (call : Call) (u : Usage) (s : Store)
    → pos_part u.output_tokens ≤ max_int64
    → IsSound s.row
    → Outcome s
        (λ g s'.
          (old : Goal) × (s.row ≡ some old)
          × Charged u old g
          × Published logged updated s (some g) g s')
        (account_usage logged call u s)
unfolding account_usage charge_row
account_usage_lem logged call u s h v =
    let delta = usage_delta u in
    Outcome-mono s _ _ (write logged call updated (with_goal (charge_row call delta)) s)
      (λ g s' p.
        let (old, e, f) = with_goal-ok (charge_row call delta) s.row (p.0, g) p.1 in
        let (same, whole) = one_goal (charge call delta) old (p.0, g) f in
        let sound : IsSound (some old) = subst IsSound e v in
        (
          old,
          e,
          subst (Charged u old) same (charge_lem call u old h sound.1),
          (p.2.0 ∙ whole, p.2.1, p.2.2),
        ))
      (write-Outcome logged call updated (with_goal (charge_row call delta)) s)

-- What an agent's request does to a goal.
abbrev pub StatusSet : Status → Goal → Goal → Type 0
StatusSet status old g =
    (g.status ≡ status)
    × (g.objective ≡ old.objective)
    × (g.token_budget ≡ old.token_budget)
    × (g.tokens_used ≡ old.tokens_used)
    × (g.id ≡ old.id)

abbrev agent_mutation : Status → Mutation
agent_mutation status = record {
  objective = none;
  status = some status;
  token_budget = none;
  clear_token_budget = false;
}

update_goal-StatusSet :
    (call : Call) (status : Status) (old : Goal)
    → agent_may_set status ≡ true
    → StatusSet status old (update_goal call (agent_mutation status) old)
unfolding update_goal settle_status
update_goal-StatusSet call status old h = (ground arith, refl, refl, refl, refl)

agent_update-Outcome :
    (logged : Bool) (call : Call) (status : Status) (s : Store)
    → agent_may_set status ≡ true
    → Outcome s
        (λ g s'.
          (old : Goal) × (s.row ≡ some old)
          × StatusSet status old g
          × Published logged updated s (some g) g s')
        (write logged call updated (with_goal (update_row call (agent_mutation status))) s)
unfolding update_row
agent_update-Outcome logged call status s h =
    let change = update_row call (agent_mutation status) in
    Outcome-mono s _ _ (write logged call updated (with_goal change) s)
      (λ g s' p.
        let (old, e, f) = with_goal-ok change s.row (p.0, g) p.1 in
        let (same, whole) = one_goal (update_goal call (agent_mutation status)) old (p.0, g) f in
        (
          old,
          e,
          subst (StatusSet status old) same (update_goal-StatusSet call status old h),
          (p.2.0 ∙ whole, p.2.1, p.2.2),
        ))
      (write-Outcome logged call updated (with_goal change) s)

-- UpdateAgentStatus succeeds only for the statuses complete and blocked, on an existing goal, whose
-- objective, budget, tokens and ID it leaves; it then has just that status. In every other case, an
-- unknown status included, the store stays as it is.
pub update_agent_status_lem :
    (logged : Bool) (call : Call) (status : Status) (s : Store)
    → Outcome s
        (λ g s'.
          ((status ≡ complete) ⊎ (status ≡ blocked))
          × ((old : Goal) × (s.row ≡ some old)
              × StatusSet status old g
              × Published logged updated s (some g) g s'))
        (update_agent_status logged call status s)
unfolding update_agent_status update valid_status
update_agent_status_lem logged call complete s =
    Outcome-mono s _ _
      (write logged call updated (with_goal (update_row call (agent_mutation complete))) s)
      (λ g s' p. (inl refl, p)) (agent_update-Outcome logged call complete s refl)
update_agent_status_lem logged call blocked s =
    Outcome-mono s _ _
      (write logged call updated (with_goal (update_row call (agent_mutation blocked))) s)
      (λ g s' p. (inr refl, p)) (agent_update-Outcome logged call blocked s refl)
update_agent_status_lem logged call _ s = refl

-- What marking a goal as limited by the provider does.
abbrev pub Limited : Bool → Store → Goal → Goal × Bool → Store → Type 0
Limited logged s old (g, moved) s' =
    ((is_active old.status ≡ true)
      × (moved ≡ true)
      × (g.status ≡ usage_limited)
      × (g.tokens_used ≡ old.tokens_used)
      × (g.token_budget ≡ old.token_budget)
      × Published logged updated s (some g) g s')
    ⊎ ((is_active old.status ≡ false) × (moved ≡ false) × (g ≡ old) × (s' ≡ s))

limit_goal-Outcome :
    (logged : Bool) (call : Call) (s : Store) (row : Option Goal)
    → row ≡ s.row
    → Outcome s
        (λ r s'. (old : Goal) × (s.row ≡ some old) × Limited logged s old r s')
        (limit_goal logged call s row)
unfolding limit_goal
limit_goal-Outcome logged call s none e = refl
limit_goal-Outcome logged call s (some g) e = elim (Bool-cases (is_active g.status)) [
  | inl a ↦ rw a (g, sym e, inl (a, refl, refl, refl, refl, (refl, refl, refl)))
  | inr a ↦ rw a (g, sym e, inr (a, refl, refl, refl))
]

-- MarkUsageLimited moves an active goal, and only such, to usage-limited, reports the move and
-- publishes it; a goal that another call has meanwhile made inactive stays, and nothing is
-- published; without a goal, or on failure, the store stays as it is.
pub mark_usage_limited_lem :
    (logged : Bool) (call : Call) (s : Store)
    → Outcome s
        (λ r s'. (old : Goal) × (s.row ≡ some old) × Limited logged s old r s')
        (mark_usage_limited logged call s)
unfolding mark_usage_limited
mark_usage_limited_lem logged call s = elim (Bool-cases (not s.session)) [
  | inl e ↦ rw e refl
  | inr e ↦ elim (Bool-cases (not call.database_ok)) [
    | inl f ↦ rw (e, f) refl
    | inr f ↦ rw (e, f) (limit_goal-Outcome logged call s s.row refl)
  ]
]

-- ===== src/Goal/Service.antt =====
-- The methods of GoalService. A method that fails rolls its transaction back.
use parrot_coder.Base.{
  ℕ, ◌+◌, ◌-◌, min, Bool, true, false, not, ◌&&◌, ◌||◌, [], ◌∷◌, ◌++◌, Option, none, some, Text, ℤ,
  pos_part, text_eq, if◌then◌else◌,
}
use parrot_coder.Patch.Spaces.{trim_unicode}
use parrot_coder.Goal.Types.{
  Status, active, paused, blocked, usage_limited, budget_limited, complete, other, Goal, Mutation,
  Usage, no_session, goal_exists, goal_not_found, invalid_goal, no_id, empty_update, set_and_clear,
  objective_required, invalid_status, budget_not_positive, agent_status, database, Result, ok, err,
  EventType, updated, cleared, Store, Call, max_int64, seconds_since, is_positive, over_budget,
}

unfoldable pub valid_status : Status → Bool
valid_status (other _) = false
valid_status _ = true

abbrev pub is_active : Status → Bool
is_active active = true
is_active _ = false

abbrev pub is_complete : Status → Bool
is_complete complete = true
is_complete _ = false

abbrev pub is_budget_limited : Status → Bool
is_budget_limited budget_limited = true
is_budget_limited _ = false

abbrev pub is_none {ℓ} : {A : Type ℓ} → Option A → Bool
is_none none = true
is_none (some _) = false

-- goal.ElapsedSeconds += …, for an active goal only.
abbrev pub elapsed : ℕ → Goal → ℕ
elapsed now g =
    if is_active g.status
    then g.elapsed_seconds + seconds_since now g.updated_at
    else g.elapsed_seconds

-- A change that a transaction makes: the new row, and the goal that is returned and published.
abbrev pub Change : Type 0
Change = Option Goal × Goal

-- `write`: the change and its event commit together. `logged` says that events are configured.
unfoldable pub committed : Bool → EventType → Store → Result Change → Result Goal × Store
committed logged type s (err e) = (err e, s)
committed logged type s (ok (row, goal)) = (
  ok goal,
  record s { row = row; events = if logged then s.events ++ (type, goal) ∷ [] else s.events },
)

unfoldable pub write :
    Bool → Call → EventType → (Option Goal → Result Change) → Store → Result Goal × Store
unfolding committed
write logged call type mutate s =
    if not s.session
    then (err no_session, s)
    else if not call.database_ok
    then (err database, s)
    else committed logged type s (mutate s.row)

-- scanGoal: the row, or ErrGoalNotFound.
unfoldable pub with_goal : (Goal → Result Change) → Option Goal → Result Change
with_goal change none = err goal_not_found
with_goal change (some g) = change g

unfoldable pub scanned : ℕ → Option Goal → Result Goal
scanned now none = err goal_not_found
scanned now (some g) = ok (record g { elapsed_seconds = elapsed now g })

unfoldable pub get : Call → Store → Result Goal
unfolding scanned
get call s =
    if not s.session
    then err no_session
    else if not call.database_ok
    then err database
    else scanned call.since s.row

-- Active: `none` stands for the missing goal, which is no error.
unfoldable pub current : Call → Store → Result (Option (Goal × Bool))
unfolding get
current call s = elim (get call s) [
  | ok g ↦ ok (some (g, is_active g.status))
  | err goal_not_found ↦ ok none
  | err e ↦ err e
]

abbrev pub bad_budget : Option ℤ → Bool
bad_budget none = false
bad_budget (some budget) = not (is_positive budget)

unfoldable pub insert_goal : Goal → Option Goal → Result Change
insert_goal g none = ok (some g, g)
insert_goal g (some old) = if is_complete old.status then ok (some g, g) else err goal_exists

abbrev pub new_goal : Call → Text → Text → Option ℤ → Goal
new_goal call id objective budget = record {
  id = id;
  objective = objective;
  status = active;
  token_budget = budget;
  tokens_used = 0;
  elapsed_seconds = 0;
  created_at = call.now;
  updated_at = call.now;
}

unfoldable pub create_as : Bool → Call → Text → Option ℤ → Option Text → Store → Result Goal × Store
create_as logged call objective budget none s = (err no_id, s)
create_as logged call objective budget (some id) s =
    write logged call updated (insert_goal (new_goal call id objective budget)) s

unfoldable pub create : Bool → Call → Text → Option ℤ → Store → Result Goal × Store
create logged call objective budget s =
    let trimmed = trim_unicode objective in
    if text_eq trimmed [] || bad_budget budget
    then (err invalid_goal, s)
    else create_as logged call trimmed budget call.fresh_id s

abbrev pub or_else {ℓ} : {A : Type ℓ} → Option A → A → A
or_else none a = a
or_else (some b) a = b

-- The fields that the request sets, before the budget is looked at.
abbrev pub set_fields : Mutation → Goal → Goal
set_fields m g = record g {
  objective = or_else m.objective g.objective;
  status = or_else m.status g.status;
  token_budget =
      if not (is_none m.token_budget) || m.clear_token_budget
      then m.token_budget
      else g.token_budget;
}

-- The status after a request: the budget may end or pause the goal.
unfoldable pub settle_status : Bool → Mutation → Goal → Status
settle_status was_budget_limited m g =
    if is_active g.status && over_budget g.tokens_used g.token_budget
    then budget_limited
    else if was_budget_limited && is_none m.status && not (over_budget g.tokens_used g.token_budget)
    then paused
    else g.status

unfoldable pub update_goal : Call → Mutation → Goal → Goal
update_goal call m g =
    let g' = set_fields m g in
    record g' {
      elapsed_seconds = elapsed call.since g;
      status = settle_status (is_budget_limited g.status) m g';
      updated_at = call.now;
    }

unfoldable pub update_row : Call → Mutation → Goal → Result Change
update_row call m g = let g' = update_goal call m g in ok (some g', g')

abbrev pub trim_objective : Option Text → Option Text
trim_objective none = none
trim_objective (some objective) = some (trim_unicode objective)

abbrev pub blank : Option Text → Bool
blank none = false
blank (some objective) = text_eq objective []

abbrev pub bad_status : Option Status → Bool
bad_status none = false
bad_status (some status) = not (valid_status status)

unfoldable pub update : Bool → Call → Mutation → Store → Result Goal × Store
unfolding with_goal update_row
update logged call m s =
    let trimmed = trim_objective m.objective in
    if is_none m.objective && is_none m.status && is_none m.token_budget && not m.clear_token_budget
    then (err empty_update, s)
    else if not (is_none m.token_budget) && m.clear_token_budget
    then (err set_and_clear, s)
    else if blank trimmed
    then (err objective_required, s)
    else if bad_status m.status
    then (err invalid_status, s)
    else if bad_budget m.token_budget
    then (err budget_not_positive, s)
    else write logged call updated (with_goal (update_row call (record m { objective = trimmed })))
        s

unfoldable pub clear_row : Goal → Result Change
clear_row g = ok (none, g)

unfoldable pub clear : Bool → Call → Store → Result Goal × Store
unfolding with_goal clear_row
clear logged call s = write logged call cleared (with_goal clear_row) s

abbrev pub agent_may_set : Status → Bool
agent_may_set complete = true
agent_may_set blocked = true
agent_may_set _ = false

unfoldable pub update_agent_status : Bool → Call → Status → Store → Result Goal × Store
update_agent_status logged call status s =
    if not (agent_may_set status)
    then (err agent_status, s)
    else update logged call
        (record {
          objective = none;
          status = some status;
          token_budget = none;
          clear_token_budget = false;
        })
        s

-- Uncached input and all output, at most the largest int64.
unfoldable pub usage_delta : Usage → ℕ
usage_delta u =
    let output = pos_part u.output_tokens in
    min (pos_part u.input_tokens - pos_part u.cached_input_tokens) (max_int64 - output) + output

unfoldable pub charge : Call → ℕ → Goal → Goal
charge call delta g =
    let used = min g.tokens_used (max_int64 - delta) + delta in
    if not (is_active g.status) then g else record g {
      elapsed_seconds = elapsed call.since g;
      tokens_used = used;
      status = if over_budget used g.token_budget then budget_limited else g.status;
      updated_at = call.now;
    }

unfoldable pub charge_row : Call → ℕ → Goal → Result Change
charge_row call delta g = let g' = charge call delta g in ok (some g', g')

unfoldable pub account_usage : Bool → Call → Usage → Store → Result Goal × Store
unfolding with_goal charge_row
account_usage logged call u s =
    write logged call updated (with_goal (charge_row call (usage_delta u))) s

-- MarkUsageLimited: the goal, whether it moved, and the new state. Only a move is published.
unfoldable pub limit_goal : Bool → Call → Store → Option Goal → Result (Goal × Bool) × Store
limit_goal logged call s none = (err goal_not_found, s)
limit_goal logged call s (some g) =
    let g' = record g {
      elapsed_seconds = elapsed call.since g;
      status = usage_limited;
      updated_at = call.now;
    } in
    if not (is_active g.status) then (ok (g, false), s) else (
      ok (g', true),
      record s {
        row = some g';
        events = if logged then s.events ++ (updated, g') ∷ [] else s.events;
      },
    )

unfoldable pub mark_usage_limited : Bool → Call → Store → Result (Goal × Bool) × Store
unfolding limit_goal
mark_usage_limited logged call s =
    if not s.session
    then (err no_session, s)
    else if not call.database_ok
    then (err database, s)
    else limit_goal logged call s s.row

-- ===== src/Goal/Tests.antt =====
-- A goal with a budget of ten tokens.
use parrot_coder.Base.{
  ◌≡◌, refl, ◌⊎◌, true, List, [], ◌∷◌, Option, none, some, codes, pos, arith, text_eq,
}
use parrot_coder.Patch.Spaces.{trim_unicode}
use parrot_coder.Goal.Types.{
  Status, active, complete, blocked, budget_limited, Goal, Usage, Store, Call, updated,
}
use parrot_coder.Goal.Service.{
  create, create_as, insert_goal, account_usage, update_agent_status, write, charge, usage_delta,
}
use parrot_coder.Goal.Budget.{IsSound}
use parrot_coder.Goal.History.{Request, creates, accounts, serve_all, serve, serve_all-IsSound}
use parrot_coder.Goal.Atomic.{Outcome, Published}
use parrot_coder.Goal.Charging.{account_usage_lem, Charged, update_agent_status_lem, StatusSet}

abbrev call : Call
call = record {
  since = 5_000_000_000;
  now = 5_000_000_001;
  fresh_id = some (codes "goal_1");
  database_ok = true;
}

abbrev empty_store : Store
empty_store = record { session = true; row = none; events = [] }

abbrev usage : Usage
usage = record { input_tokens = pos 9; cached_input_tokens = pos 2; output_tokens = pos 4 }

abbrev requests : List (Call × Request)
requests = (call, creates (codes " ship it ") (some (pos 10))) ∷ (call, accounts usage) ∷ []

abbrev status_of : Option Goal → Option Status
status_of none = none
status_of (some g) = some g.status

-- Seven uncached tokens and four of output pass a budget of ten.
budget_ends_goal : status_of (serve_all true requests empty_store).row ≡ some budget_limited
unfolding serve_all serve create account_usage write charge usage_delta trim_unicode text_eq
    create_as insert_goal
budget_ends_goal = refl

serve_all-IsSound_example : IsSound (serve_all true requests empty_store).row
serve_all-IsSound_example = serve_all-IsSound true requests empty_store (tt, (omega arith, tt)) tt

abbrev goal : Goal
goal = record {
  id = codes "goal_0";
  objective = codes "ship it";
  status = active;
  token_budget = some (pos 10);
  tokens_used = 3;
  elapsed_seconds = 0;
  created_at = 0;
  updated_at = 0;
}

abbrev busy : Store
busy = record { session = true; row = some goal; events = [] }

account_usage_lem_example :
    Outcome busy
      (λ g s'.
        (old : Goal) × (busy.row ≡ some old)
        × Charged usage old g
        × Published true updated busy (some g) g s')
      (account_usage true call usage busy)
account_usage_lem_example = account_usage_lem true call usage busy (omega arith) (refl, omega arith)

update_agent_status_lem_example :
    Outcome busy
      (λ g s'.
        ((◌≡◌ {A = Status} complete complete) ⊎ (complete ≡ blocked))
        × ((old : Goal) × (busy.row ≡ some old)
            × StatusSet complete old g
            × Published true updated busy (some g) g s'))
      (update_agent_status true call complete busy)
update_agent_status_lem_example = update_agent_status_lem true call complete busy

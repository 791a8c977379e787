-- ===== src/Goal/Types.antt =====
-- The goal of a session, the requests that change it, and the table row with its event log.
use parrot_coder.Base.{
  ℕ, ◌-◌, ◌/◌, ◌^◌, Bool, false, List, Option, none, some, Text, ℤ, pos, ltb_ℤ, not,
}

pub data Status : Type 0 where
  active paused blocked usage_limited budget_limited complete : Status
  other : Text → Status

pub record Goal : Type 0 where
  pub id : Text
  pub objective : Text
  pub status : Status
  pub token_budget : Option ℤ
  pub tokens_used : ℕ
  pub elapsed_seconds : ℕ
  pub created_at : ℕ
  pub updated_at : ℕ

pub record Mutation : Type 0 where
  pub objective : Option Text
  pub status : Option Status
  pub token_budget : Option ℤ
  pub clear_token_budget : Bool

-- The tokens that a provider reports; an `int` may be negative.
pub record Usage : Type 0 where
  pub input_tokens : ℤ
  pub cached_input_tokens : ℤ
  pub output_tokens : ℤ

pub data Error : Type 0 where
  no_session goal_exists goal_not_found invalid_goal no_id : Error
  empty_update set_and_clear objective_required invalid_status budget_not_positive : Error
  agent_status database : Error

pub data Result {ℓ} (A : Type ℓ) : Type ℓ where
  ok : A → Result A
  err : Error → Result A

pub data EventType : Type 0 where
  updated cleared : EventType

-- One session: whether it exists, its row of session_goal, and the goal events appended so far.
pub record Store : Type 0 where
  pub session : Bool
  pub row : Option Goal
  pub events : List (EventType × Goal)

-- What a call meets: the clock in nanoseconds as it is read first and again, the ID generator, and
-- whether the database carries the statements out.
pub record Call : Type 0 where
  pub since : ℕ
  pub now : ℕ
  pub fresh_id : Option Text
  pub database_ok : Bool

abbrev pub max_int64 : ℕ
max_int64 = 2 ^ 63 - 1

-- max(int64(time.Since(updated).Seconds()), 0)
abbrev pub seconds_since : ℕ → ℕ → ℕ
seconds_since now then_ = (now - then_) / 1_000_000_000

abbrev pub is_positive : ℤ → Bool
is_positive n = ltb_ℤ (pos 0) n

-- TokensUsed >= *TokenBudget
abbrev pub reached : ℕ → ℤ → Bool
reached used budget = not (ltb_ℤ (pos used) budget)

abbrev pub over_budget : ℕ → Option ℤ → Bool
over_budget used none = false
over_budget used (some budget) = reached used budget

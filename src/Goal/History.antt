-- ===== src/Goal/History.antt =====
-- Histories of requests to one session's goal.
use parrot_coder.Base.{◌≤◌, Bool, List, [], ◌∷◌, Option, Text, ℤ, pos_part, All}
use parrot_coder.Goal.Types.{Status, Mutation, Usage, Store, Call, max_int64}
use parrot_coder.Goal.Service.{
  create, update, clear, update_agent_status, account_usage, mark_usage_limited,
}
use parrot_coder.Goal.Budget.{
  IsSound, create-IsSound, update-IsSound, clear-IsSound, update_agent_status-IsSound,
  account_usage-IsSound, mark_usage_limited-IsSound,
}

pub data Request : Type 0 where
  creates : Text → Option ℤ → Request
  updates : Mutation → Request
  clears : Request
  agent_sets : Status → Request
  accounts : Usage → Request
  limits : Request

-- The state after a request, whether it succeeds or fails.
unfoldable pub serve : Bool → Call → Request → Store → Store
serve logged call (creates objective budget) s = (create logged call objective budget s).1
serve logged call (updates m) s = (update logged call m s).1
serve logged call clears s = (clear logged call s).1
serve logged call (agent_sets status) s = (update_agent_status logged call status s).1
serve logged call (accounts u) s = (account_usage logged call u s).1
serve logged call limits s = (mark_usage_limited logged call s).1

unfoldable pub serve_all : Bool → List (Call × Request) → Store → Store
serve_all logged [] s = s
serve_all logged ((call, r) ∷ rs) s = serve_all logged rs (serve logged call r s)

-- What a Go `int` holds.
abbrev pub InRange : Call × Request → Type 0
InRange (call, accounts u) = pos_part u.output_tokens ≤ max_int64
InRange _ = Unit {0}

serve-IsSound :
    (logged : Bool) (call : Call) (r : Request) (s : Store)
    → InRange (call, r)
    → IsSound s.row
    → IsSound (serve logged call r s).row
unfolding serve
serve-IsSound logged call (creates objective budget) s h v =
    create-IsSound logged call s v objective budget
serve-IsSound logged call (updates m) s h v = update-IsSound logged call s v m
serve-IsSound logged call clears s h v = clear-IsSound logged call s v
serve-IsSound logged call (agent_sets status) s h v =
    update_agent_status-IsSound logged call s v status
serve-IsSound logged call (accounts u) s h v = account_usage-IsSound logged call s v u h
serve-IsSound logged call limits s h v = mark_usage_limited-IsSound logged call s v

-- From a sound row, after any history of requests, failing or not, at any times: an active goal has
-- not reached its token budget, and the count of tokens used is at most the largest int64.
pub serve_all-IsSound :
    (logged : Bool) (rs : List (Call × Request)) (s : Store)
    → All InRange rs
    → IsSound s.row
    → IsSound (serve_all logged rs s).row
unfolding serve_all
serve_all-IsSound logged [] s h v = v
serve_all-IsSound logged ((call, r) ∷ rs) s h v =
    serve_all-IsSound logged rs (serve logged call r s) h.1 (serve-IsSound logged call r s h.0 v)

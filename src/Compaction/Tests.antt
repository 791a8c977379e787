-- ===== src/Compaction/Tests.antt =====
-- Cuts of small histories, and the law at one.
use mathlib.Core.List.{mem-cons, not-mem-nil}
use mathlib.Core.List.Perm
use mathlib.Core.HLevel.{⊥_prop}
use mathlib.Core.Logic.Or
use parrot_coder.Base.{
  ℕ, ◌≡◌, refl, ap, [], ◌∷◌, List, codes, some, text_eq, reverse, arith, lookup, insert,
}
use parrot_coder.Compaction.Cut.{
  Part, tool_call, tool_result, other, Message, Group, tool_groups, safe_index, safe_cut,
}
use parrot_coder.Compaction.Groups.{EachNests}
use parrot_coder.Compaction.Sound.{IsSafe, safe_index-IsSafe}

abbrev done : List Part → ℕ → Message
done parts n = record { status = codes "complete"; parts = parts; sequence = n }

-- A call with its result, and two messages after it.
abbrev short_history : List Message
short_history =
    done (other ∷ []) 1
    ∷ done (tool_call (codes "a") ∷ []) 2
    ∷ done (tool_result (codes "a") ∷ []) 3
    ∷ done (other ∷ []) 4
    ∷ []

-- Two calls that cross.
abbrev crossed_history : List Message
crossed_history =
    done (other ∷ []) 1
    ∷ done (tool_call (codes "a") ∷ []) 2
    ∷ done (tool_call (codes "b") ∷ []) 3
    ∷ done (tool_result (codes "a") ∷ []) 4
    ∷ done (tool_result (codes "b") ∷ []) 5
    ∷ done (other ∷ []) 6
    ∷ []

cuts_before_call : safe_cut (λ gs. gs) short_history 2 ≡ some 2
unfolding safe_cut text_eq lookup insert
cuts_before_call = refl

-- The cut depends on the order of the loop over the map of calls, and one order splits a call.
crossed_one_way : safe_index (λ gs. gs) crossed_history 2 ≡ some 2
unfolding safe_index text_eq lookup insert
crossed_one_way = refl

crossed_other_way : safe_index reverse crossed_history 2 ≡ some 1
unfolding safe_index text_eq lookup insert
crossed_other_way = refl

one_group : tool_groups short_history ≡ record { start = 1; end = some 2 } ∷ []
unfolding tool_groups text_eq lookup insert
one_group = refl

short-EachNests : EachNests (tool_groups short_history)
unfolding tool_groups text_eq lookup insert
short-EachNests g h m n before reach = absurd (
    Or.elim ⊥_prop (mem-cons.0 m)
      (λ e.
        Or.elim ⊥_prop (mem-cons.0 n)
          (λ f. omega (arith, ap (λ (k : Group). k.start) e, ap (λ (k : Group). k.start) f))
          (λ k. not-mem-nil k))
      (λ k. not-mem-nil k))

short_cut : safe_index (λ gs. gs) short_history 2 ≡ some 1
unfolding safe_index text_eq lookup insert
short_cut = refl

safe_index-IsSafe_example : IsSafe short_history 2 1
safe_index-IsSafe_example =
    safe_index-IsSafe (λ gs. gs) short_history 2 1 (Perm.refl (tool_groups short_history))
      short-EachNests short_cut

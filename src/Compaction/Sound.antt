-- ===== src/Compaction/Sound.antt =====
-- What a cut leaves on each side.
use mathlib.Core.List.{Perm}
use mathlib.Core.List.Perm
use parrot_coder.Base.{
  ℕ, ◌≤◌, ◌<◌, ◌≡◌, refl, ap, sym, ◌∙◌, inl, inr, List, [], ◌∷◌, ◌||◌, ◌==◌, ltb, leb, length, drop,
  some, arith, Bool-cases,
}
use parrot_coder.Compaction.Cut.{
  Message, Group, splits, go_back, first_incomplete, tool_groups, lower_all, in_range, cut_from,
  safe_index,
}
use parrot_coder.Compaction.Counts.{
  complete_count, Prefix, Prefix-le, count-le, go_back-Counts, first_incomplete-Prefix,
}
use parrot_coder.Compaction.Placed.{KeepsCalls}
use parrot_coder.Compaction.Calls.{whole-KeepsCalls}
use parrot_coder.Compaction.Groups.{EachNests, lower_all-le, lower_all-whole}

-- The cut leaves messages on both sides, complete ones alone before it, enough complete ones from it
-- on, and every tool call on one side with its results, or after it without any.
pub record IsSafe (ms : List Message) (recent i : ℕ) : Type 0 where
  pub some_before : 0 < i
  pub some_after : i < length ms
  pub prefix : Prefix i ms
  pub keeps : recent ≤ complete_count (drop i ms)
  pub calls : KeepsCalls ms i

in_range-some :
    (ms : List Message) (index i : ℕ)
    → in_range ms index ≡ some i
    → (index ≡ i) × (0 < i) × (i < length ms)
in_range-some ms index i h = elim (Bool-cases (index == 0 || leb (length ms) index)) [
  | inl e ↦ absurd (ground arith)
  | inr e ↦ let same : index ≡ i = ground arith in (same, ground arith, ground arith)
]

none_left : (ms : List Message) → 0 ≡ complete_count (drop (length ms) ms)
none_left [] = refl
none_left (m ∷ ms) = none_left ms

module _ (order : List Group → List Group) (ms : List Message) (recent : ℕ) where
  cut_from-IsSafe :
      (index complete i : ℕ)
      → Perm (order (tool_groups ms)) (tool_groups ms)
      → EachNests (tool_groups ms)
      → complete ≡ complete_count (drop index ms)
      → cut_from order ms recent index complete ≡ some i
      → IsSafe ms recent i
  unfolding cut_from
  cut_from-IsSafe index complete i same nests counted h =
      elim (Bool-cases (ltb complete recent || index == 0)) [
        | inl e ↦ absurd (ground arith)
        | inr e ↦
            let lowered : ℕ = first_incomplete ms 0 index in
            let groups : List Group = order (tool_groups ms) in
            let (below, prefix) = first_incomplete-Prefix ms index in
            let found : in_range ms (lower_all groups lowered) ≡ some i = rw e at h in
            let (here, before, after) = in_range-some ms (lower_all groups lowered) i found in
            let le : i ≤ lowered = omega (arith, lower_all-le groups lowered) in
            let enough : recent ≤ complete = ground arith in
            record {
              some_before = before;
              some_after = after;
              prefix = Prefix-le ms lowered i le prefix;
              keeps = omega (arith, count-le ms index i (omega arith));
              calls = whole-KeepsCalls ms i (λ g m.
                  ap (λ (k : ℕ). splits k g) (sym here)
                  ∙ lower_all-whole groups lowered
                      (λ a b p q. nests a b (Perm.subset same a p) (Perm.subset same b q)) g
                      (Perm.subset (Perm.symm same) g m));
            }
      ]

  -- In whatever order the loop over the calls goes, if no two calls cross: a cut leaves a message
  -- before it and one after it, every message before it is complete, at least `recent` complete
  -- messages are kept. And the last call of each ID stays with the results behind it, of an ID that is not
  -- empty, on one side of the cut; where it has none, it is kept.
  pub safe_index-IsSafe :
      (i : ℕ)
      → Perm (order (tool_groups ms)) (tool_groups ms)
      → EachNests (tool_groups ms)
      → safe_index order ms recent ≡ some i
      → IsSafe ms recent i
  unfolding safe_index
  safe_index-IsSafe i same nests h = elim (Bool-cases (ltb recent 1)) [
    | inl e ↦ absurd (ground arith)
    | inr e ↦
        let (below, counted) =
          go_back-Counts ms recent (length ms) 0 (omega arith) (none_left ms) in
        cut_from-IsSafe (go_back ms recent (length ms) 0).0 (go_back ms recent (length ms) 0).1 i
          same nests counted (rw e at h)
  ]

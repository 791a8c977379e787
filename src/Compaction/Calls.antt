-- ===== src/Compaction/Calls.antt =====
-- What the loops of SafeCut note of the tool calls of a history.
use mathlib.Core.Logic.Or
use mathlib.Core.List.{Mem, mem-cons}
use parrot_coder.Base.{
  ℕ, ◌≤◌, ◌<◌, ◌≡◌, ◌⊎◌, refl, ap, sym, ◌∙◌, inl, inr, subst, List, [], ◌∷◌, ◌++◌, Text, true,
  false, Option, none, some, Option-cases, ltb, arith, text_eq, text_eq_refl, text_eq_iff, is_empty,
  Assoc, lookup, insert, insert_own, insert_other, map, Bool-cases,
}
use parrot_coder.Compaction.Cut.{
  Part, tool_call, tool_result, other, Message, Group, note_part, note_messages, tool_groups,
  splits,
}
use parrot_coder.Compaction.Placed.{
  Placed, parts_from, calls, answers, NoCall, NoResult, KeepsCalls, note_all, note_all-parts_from,
  note_all-append, Rising, Rising-le, Rising-parts_from, Rising-after,
}

-- The map has the call at `j`, and a last result not before `k`.
Noted : Text → ℕ → ℕ → Assoc Group → Type 0
Noted id j k groups =
    (e : ℕ) × (lookup id groups ≡ some (record { start = j; end = some e })) × (k ≤ e)

Open : Text → ℕ → Assoc Group → Type 0
Open id j groups = lookup id groups ≡ some (record { start = j; end = none })

Called : Text → ℕ → Assoc Group → Type 0
Called id j groups = (e : Option ℕ) × (lookup id groups ≡ some (record { start = j; end = e }))

-- A part that is not about the ID leaves its entry.
note_part-other :
    (id : Text) (i : ℕ) (p : Part) (groups : Assoc Group)
    → calls id p ≡ false
    → answers id p ≡ false
    → lookup id (note_part i p groups) ≡ lookup id groups
unfolding note_part
note_part-other id i (tool_call x) groups h k = insert_other x id _ groups h
note_part-other id i (tool_result x) groups h k = elim (Bool-cases (is_empty x)) [
  | inl a ↦ rw a refl
  | inr a ↦ elim (Option-cases (lookup x groups)) [
    | inl n ↦ rw (a, n) refl
    | inr (g, q) ↦ rw (a, q) (insert_other x id _ groups k)
  ]
]
note_part-other id i other groups h k = refl

-- A result of the ID ends its call.
note_part-result :
    (id x : Text) (i : ℕ) (g : Group) (groups : Assoc Group)
    → is_empty id ≡ false
    → text_eq x id ≡ true
    → lookup id groups ≡ some g
    → lookup id (note_part i (tool_result x) groups) ≡ some (record g { end = some i })
unfolding note_part
note_part-result id x i g groups named h q =
    let same : x ≡ id = (text_eq_iff x id).0 h in
    rw (same, named, q) (insert_own id (record g { end = some i }) groups)

note_all-Open :
    (id : Text) (j : ℕ) (ps : List Placed) (groups : Assoc Group)
    → NoCall id ps
    → NoResult id ps
    → Open id j groups
    → Open id j (note_all ps groups)
unfolding Open
note_all-Open id j [] groups h k o = o
note_all-Open id j ((i, p) ∷ ps) groups h k o =
    note_all-Open id j ps (note_part i p groups) h.1 k.1 (note_part-other id i p groups h.0 k.0 ∙ o)

note_part-Called :
    (id : Text) (j i : ℕ) (p : Part) (groups : Assoc Group)
    → is_empty id ≡ false
    → calls id p ≡ false
    → Called id j groups
    → Called id j (note_part i p groups)
unfolding Called
note_part-Called id j i (tool_call x) groups named h (e, q) =
    (e, note_part-other id i (tool_call x) groups h refl ∙ q)
note_part-Called id j i (tool_result x) groups named h (e, q) = elim (Bool-cases (text_eq x id)) [
  | inl t ↦ (some i, note_part-result id x i _ groups named t q)
  | inr t ↦ (e, note_part-other id i (tool_result x) groups refl t ∙ q)
]
note_part-Called id j i other groups named h (e, q) =
    (e, note_part-other id i other groups refl refl ∙ q)

note_all-Called :
    (id : Text) (j : ℕ) (ps : List Placed) (groups : Assoc Group)
    → is_empty id ≡ false
    → NoCall id ps
    → Called id j groups
    → Called id j (note_all ps groups)
note_all-Called id j [] groups named h c = c
note_all-Called id j ((i, p) ∷ ps) groups named h c =
    note_all-Called id j ps (note_part i p groups) named h.1
      (note_part-Called id j i p groups named h.0 c)

note_part-Noted :
    (id : Text) (j k i : ℕ) (p : Part) (groups : Assoc Group)
    → is_empty id ≡ false
    → k ≤ i
    → calls id p ≡ false
    → Noted id j k groups
    → Noted id j k (note_part i p groups)
unfolding Noted
note_part-Noted id j k i (tool_call x) groups named le h (e, q, b) =
    (e, note_part-other id i (tool_call x) groups h refl ∙ q, b)
note_part-Noted id j k i (tool_result x) groups named le h (e, q, b) =
    elim (Bool-cases (text_eq x id)) [
      | inl t ↦ (i, note_part-result id x i _ groups named t q, le)
      | inr t ↦ (e, note_part-other id i (tool_result x) groups refl t ∙ q, b)
    ]
note_part-Noted id j k i other groups named le h (e, q, b) =
    (e, note_part-other id i other groups refl refl ∙ q, b)

note_all-Noted :
    (id : Text) (j k : ℕ) (ps : List Placed) (groups : Assoc Group)
    → is_empty id ≡ false
    → Rising k ps
    → NoCall id ps
    → Noted id j k groups
    → Noted id j k (note_all ps groups)
note_all-Noted id j k [] groups named r h c = c
note_all-Noted id j k ((i, p) ∷ ps) groups named r h c =
    note_all-Noted id j k ps (note_part i p groups) named (Rising-le k i ps r.0 r.1) h.1
      (note_part-Noted id j k i p groups named r.0 h.0 c)

abbrev second : Text × Group → Group
second (id, g) = g

lookup-Mem :
    (id : Text) (g : Group) (groups : Assoc Group)
    → lookup id groups ≡ some g
    → Mem g (map second groups)
unfolding lookup
lookup-Mem id g [] q = absurd (cc)
lookup-Mem id g ((x, h) ∷ groups) q = elim (Bool-cases (text_eq x id)) [
  | inl t ↦ let same : g ≡ h = ground (arith, t) in mem-cons.1 (Or.inl same)
  | inr t ↦ mem-cons.1 (Or.inr (lookup-Mem id g groups (ground (arith, t))))
]

module _ (ms : List Message) (i : ℕ)
    (whole : (g : Group) → Mem g (tool_groups ms) → splits i g ≡ false) where
  -- A call that the map has at the end is not split.
  final-whole :
      (id : Text) (g : Group)
      → lookup id (note_all (parts_from 0 ms) []) ≡ some g
      → splits i g ≡ false
  unfolding tool_groups
  final-whole id g q = whole g (
      lookup-Mem id g (note_messages 0 ms [])
        (ap (lookup id) (sym (note_all-parts_from 0 ms [])) ∙ q))

  kept_pending :
      (id : Text) (j : ℕ) (before after : List Placed)
      → parts_from 0 ms ≡ before ++ ((j, tool_call id) ∷ after)
      → NoCall id after
      → NoResult id after
      → i ≤ j
  unfolding Open note_part
  kept_pending id j before after parts h k =
      let start : Assoc Group = note_all before [] in
      let open_ : Open id j (note_all after (insert id (record { start = j; end = none }) start)) =
        note_all-Open id j after _ h k (insert_own id (record { start = j; end = none }) start) in
      let last : splits i (record { start = j; end = none }) ≡ false =
        final-whole id (record { start = j; end = none })
          (ap (λ ps. lookup id (note_all ps [])) parts
            ∙ (ap (lookup id) (note_all-append before ((j, tool_call id) ∷ after) []) ∙ open_)) in
      ground arith

  kept_together :
      (id : Text) (j k : ℕ) (before between after : List Placed)
      → parts_from 0 ms ≡ before ++ ((j, tool_call id) ∷ (between ++ ((k, tool_result id) ∷ after)))
      → is_empty id ≡ false
      → NoCall id between
      → NoCall id after
      → (i ≤ j) ⊎ (k < i)
  unfolding Noted Called note_part
  kept_together id j k before between after parts named h h' =
      let later : List Placed = between ++ ((k, tool_result id) ∷ after) in
      let start : Assoc Group = insert id (record { start = j; end = none }) (note_all before []) in
      let (e, q) =
        note_all-Called id j between start named h
          (none, insert_own id (record { start = j; end = none }) (note_all before [])) in
      let ended : Noted id j k (note_part k (tool_result id) (note_all between start)) = (
        k,
        note_part-result id id k _ (note_all between start) named (text_eq_refl id) q,
        omega arith,
      ) in
      let rises : Rising k after =
        Rising-after j between (k, tool_result id) after
          (Rising-after 0 before (j, tool_call id) later
            (subst (Rising 0) parts (Rising-parts_from 0 ms))) in
      let (f, r, b) = note_all-Noted id j k after _ named rises h' ended in
      let last : splits i (record { start = j; end = some f }) ≡ false =
        final-whole id (record { start = j; end = some f })
          (ap (λ ps. lookup id (note_all ps [])) parts
            ∙ (ap (lookup id) (
                  note_all-append before ((j, tool_call id) ∷ later) []
                  ∙ note_all-append between ((k, tool_result id) ∷ after) start)
                ∙ r)) in
      elim (Bool-cases (ltb j i)) [ inr a ↦ inl (ground arith) | inl a ↦ inr (ground arith) ]

  pub whole-KeepsCalls : KeepsCalls ms i
  whole-KeepsCalls = record { together = kept_together; pending = kept_pending }

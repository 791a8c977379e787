-- ===== src/Compaction/Cut.antt =====
-- SafeCut: the first message that a compaction keeps.
use parrot_coder.Base.{
  ℕ, zero, suc, List, [], ◌∷◌, Text, Bool, true, false, ◌&&◌, ◌||◌, ◌==◌, ltb, leb, if◌then◌else◌,
  length, get_elem?, Option, none, some, text_eq, codes, is_empty, Assoc, lookup, insert, map,
}

-- The parts that matter: a tool call, a tool result with the ID of its call, or another part.
pub data Part : Type 0 where
  tool_call tool_result : Text → Part
  other : Part

pub record Message : Type 0 where
  pub status : Text
  pub parts : List Part
  pub sequence : ℕ

abbrev pub is_complete : Message → Bool
is_complete m = text_eq m.status (codes "complete")

abbrev pub complete_at : List Message → ℕ → Bool
complete_at ms i = elim (get_elem? ms i) [ some m ↦ is_complete m | none ↦ false ]

-- The loop back from the end: the index and the complete messages from it on.
unfoldable pub go_back : List Message → ℕ → ℕ → ℕ → ℕ × ℕ
go_back ms recent zero complete = (0, complete)
go_back ms recent (suc i) complete =
    let rest = go_back ms recent i (if complete_at ms i then suc complete else complete) in
    if ltb complete recent then rest else (suc i, complete)

-- The loop forward from `i`, with the messages from there on, up to the first that is not complete.
unfoldable pub first_incomplete : List Message → ℕ → ℕ → ℕ
first_incomplete [] i index = index
first_incomplete (m ∷ ms) i index =
    let rest = first_incomplete ms (suc i) index in
    if ltb i index then (if is_complete m then rest else i) else index

-- A tool call: its message, and the message of its last result, if there is one.
pub record Group : Type 0 where
  pub start : ℕ
  pub end : Option ℕ

abbrev ended : ℕ → Text → Assoc Group → Option Group → Assoc Group
ended i id groups none = groups
ended i id groups (some g) = insert id (record g { end = some i }) groups

-- One part of message `i`; callStart and callEnd are one map, as they have the same keys.
unfoldable pub note_part : ℕ → Part → Assoc Group → Assoc Group
note_part i (tool_call id) groups = insert id (record { start = i; end = none }) groups
note_part i (tool_result id) groups =
    if is_empty id then groups else ended i id groups (lookup id groups)
note_part i other groups = groups

unfoldable pub note_parts : ℕ → List Part → Assoc Group → Assoc Group
unfolding note_part
note_parts i [] groups = groups
note_parts i (p ∷ ps) groups = note_parts i ps (note_part i p groups)

unfoldable pub note_messages : ℕ → List Message → Assoc Group → Assoc Group
unfolding note_parts
note_messages i [] groups = groups
note_messages i (m ∷ ms) groups = note_messages (suc i) ms (note_parts i m.parts groups)

abbrev group_of : Text × Group → Group
group_of (id, g) = g

unfoldable pub tool_groups : List Message → List Group
unfolding note_messages
tool_groups ms = map group_of (note_messages 0 ms [])

-- The cut at `index` would come inside the group.
abbrev pub splits : ℕ → Group → Bool
splits index g = ltb g.start index && elim g.end [ none ↦ true | some e ↦ leb index e ]

-- One round over the groups.
abbrev pub lower : Group → ℕ → ℕ
lower g index = if splits index g then g.start else index

unfoldable pub lower_all : List Group → ℕ → ℕ
lower_all [] index = index
lower_all (g ∷ gs) index = lower_all gs (lower g index)

abbrev pub in_range : List Message → ℕ → Option ℕ
in_range ms index = if index == 0 || leb (length ms) index then none else some index

unfoldable pub cut_from : (List Group → List Group) → List Message → ℕ → ℕ → ℕ → Option ℕ
unfolding first_incomplete tool_groups lower_all
cut_from order ms recent index complete =
    if ltb complete recent || index == 0
    then none
    else in_range ms (lower_all (order (tool_groups ms)) (first_incomplete ms 0 index))

abbrev pub cut_back : (List Group → List Group) → List Message → ℕ → ℕ × ℕ → Option ℕ
cut_back order ms recent (index, complete) = cut_from order ms recent index complete

-- The index of the first message kept; `order` is that of a loop over a map.
unfoldable pub safe_index : (List Group → List Group) → List Message → ℕ → Option ℕ
unfolding go_back cut_from
safe_index order ms recent =
    if ltb recent 1 then none else cut_back order ms recent (go_back ms recent (length ms) 0)

abbrev sequence_at : List Message → Option ℕ → Option ℕ
sequence_at ms none = none
sequence_at ms (some i) = elim (get_elem? ms i) [ none ↦ none | some m ↦ some m.sequence ]

-- SafeCut.
unfoldable pub safe_cut : (List Group → List Group) → List Message → ℕ → Option ℕ
unfolding safe_index
safe_cut order ms recent = sequence_at ms (safe_index order ms recent)

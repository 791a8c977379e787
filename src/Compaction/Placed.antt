-- ===== src/Compaction/Placed.antt =====
-- The parts of a history in order, and how a cut keeps its tool calls.
use parrot_coder.Base.{
  ℕ, suc, ◌≤◌, ◌<◌, ◌≡◌, ◌⊎◌, refl, ◌∙◌, List, [], ◌∷◌, ◌++◌, Text, Bool, false, arith, All,
  text_eq, is_empty, Assoc,
}
use parrot_coder.Compaction.Cut.{
  Part, tool_call, tool_result, other, Message, Group, note_part, note_parts, note_messages,
}

-- A part, with the index of its message.
abbrev pub Placed : Type 0
Placed = ℕ × Part

abbrev pub placed : ℕ → List Part → List Placed → List Placed
placed i [] rest = rest
placed i (p ∷ ps) rest = (i, p) ∷ placed i ps rest

-- The parts of the messages from index `i` on, in order.
abbrev pub parts_from : ℕ → List Message → List Placed
parts_from i [] = []
parts_from i (m ∷ ms) = placed i m.parts (parts_from (suc i) ms)

abbrev pub calls : Text → Part → Bool
calls id (tool_call x) = text_eq x id
calls id (tool_result x) = false
calls id other = false

abbrev pub answers : Text → Part → Bool
answers id (tool_call x) = false
answers id (tool_result x) = text_eq x id
answers id other = false

abbrev pub NoCall : Text → List Placed → Type 0
NoCall id = All λ (p : Placed). calls id p.1 ≡ false

abbrev pub NoResult : Text → List Placed → Type 0
NoResult id = All λ (p : Placed). answers id p.1 ≡ false

-- The cut keeps every result behind the last call of its ID with the call, and a call without one.
pub record KeepsCalls (ms : List Message) (i : ℕ) : Type 0 where
  pub together :
      (id : Text) (j k : ℕ) (before between after : List Placed)
      → parts_from 0 ms ≡ before ++ ((j, tool_call id) ∷ (between ++ ((k, tool_result id) ∷ after)))
      → is_empty id ≡ false
      → NoCall id between
      → NoCall id after
      → (i ≤ j) ⊎ (k < i)
  pub pending :
      (id : Text) (j : ℕ) (before after : List Placed)
      → parts_from 0 ms ≡ before ++ ((j, tool_call id) ∷ after)
      → NoCall id after
      → NoResult id after
      → i ≤ j

-- The loops as one.
abbrev pub note_all : List Placed → Assoc Group → Assoc Group
note_all [] groups = groups
note_all ((i, p) ∷ ps) groups = note_all ps (note_part i p groups)

note_all-placed :
    (i : ℕ) (ps : List Part) (rest : List Placed) (groups : Assoc Group)
    → note_all (placed i ps rest) groups ≡ note_all rest (note_parts i ps groups)
unfolding note_parts
note_all-placed i [] rest groups = refl
note_all-placed i (p ∷ ps) rest groups = note_all-placed i ps rest (note_part i p groups)

pub note_all-parts_from :
    (i : ℕ) (ms : List Message) (groups : Assoc Group)
    → note_all (parts_from i ms) groups ≡ note_messages i ms groups
unfolding note_messages
note_all-parts_from i [] groups = refl
note_all-parts_from i (m ∷ ms) groups =
    note_all-placed i m.parts (parts_from (suc i) ms) groups
    ∙ note_all-parts_from (suc i) ms (note_parts i m.parts groups)

pub note_all-append :
    (xs ys : List Placed) (groups : Assoc Group)
    → note_all (xs ++ ys) groups ≡ note_all ys (note_all xs groups)
note_all-append [] ys groups = refl
note_all-append ((i, p) ∷ xs) ys groups = note_all-append xs ys (note_part i p groups)

-- The indices do not go down.
abbrev pub Rising : ℕ → List Placed → Type 0
Rising n [] = Unit {0}
Rising n (x ∷ xs) = (n ≤ x.0) × Rising x.0 xs

pub Rising-le : (m n : ℕ) (xs : List Placed) → m ≤ n → Rising n xs → Rising m xs
Rising-le m n [] h r = tt
Rising-le m n (x ∷ xs) h (a, b) = (omega arith, b)

Rising-placed :
    (i : ℕ) (ps : List Part) (rest : List Placed) → Rising i rest → Rising i (placed i ps rest)
Rising-placed i [] rest r = r
Rising-placed i (p ∷ ps) rest r = (omega arith, Rising-placed i ps rest r)

pub Rising-parts_from : (i : ℕ) (ms : List Message) → Rising i (parts_from i ms)
Rising-parts_from i [] = tt
Rising-parts_from i (m ∷ ms) =
    Rising-placed i m.parts (parts_from (suc i) ms)
      (Rising-le i (suc i) (parts_from (suc i) ms) (omega arith) (Rising-parts_from (suc i) ms))

pub Rising-after :
    (n : ℕ) (xs : List Placed) (y : Placed) (ys : List Placed)
    → Rising n (xs ++ (y ∷ ys))
    → Rising y.0 ys
Rising-after n [] y ys (a, b) = b
Rising-after n (x ∷ xs) y ys (a, b) = Rising-after x.0 xs y ys b

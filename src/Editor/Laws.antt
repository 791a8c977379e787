-- ===== src/Editor/Laws.antt =====
-- Pairs of keys: a rune and Backspace, Up and Down.
use parrot_coder.Base.{
  ℕ, zero, suc, ◌+◌, ◌-◌, ◌≡◌, ◌≤◌, ◌<◌, refl, ap, ◌∙◌, true, false, List, [], ◌∷◌, Option, none,
  some, Text, ltb, ◌==◌, arith, All, length, all, get_elem?, get_elem?-All,
}
use parrot_coder.Editor.Types.{
  Editor, State, Key, rune, backspace, up, down, is_allowed, bytes, rune_len,
}
use parrot_coder.Editor.Setup.{visible_matches}
use parrot_coder.Editor.Keys.{
  kept, Reply, put, edited, spliced, cut, insert, inserted, settled, insert_key, backspace_key,
  older, newer, up_key, down_key, visible, act, finished, handle,
}
use parrot_coder.Editor.Measure.{length-splice, bytes-append}

-- Keys one after another, with no redraw between them: the text and the cursor at the end.
abbrev pub press : Editor → State → List Key → Option (Text × ℕ)
press e s [] = some (s.buffer, s.cursor)
press e s (key ∷ keys) = elim (handle e s key) [
  | none ↦ none
  | some reply ↦ press reply.editor reply.state keys
]

press-handle :
    (e : Editor) (s : State) (key : Key) (keys : List Key) (reply : Reply)
    → handle e s key ≡ some reply
    → press e s (key ∷ keys) ≡ press reply.editor reply.state keys
press-handle e s key keys reply q = rw (press, q) refl

spliced-cut : (c r : ℕ) (s : Text) → c ≤ length s → cut c (suc c) (spliced s c (r ∷ [])) ≡ s
spliced-cut zero r s h = refl
spliced-cut (suc c) r [] h = absurd (omega arith)
spliced-cut (suc c) r (x ∷ s) h = ap (λ t. x ∷ t) (spliced-cut c r s (omega arith))

bytes-spliced : (c : ℕ) (s a : Text) → bytes (spliced s c a) ≡ bytes s + bytes a
bytes-spliced zero s a = omega (arith, bytes-append a s)
bytes-spliced (suc c) [] a = omega (arith, bytes-append a [])
bytes-spliced (suc c) (r ∷ s) a = omega (arith, bytes-spliced c s a)

not_above : (n c : ℕ) → c ≤ n → ltb n c ≡ false
not_above n c h = ground arith

allowed_one : (r : ℕ) → is_allowed r ≡ true → all is_allowed (r ∷ []) ≡ true
allowed_one r h = ground arith

insert_one :
    (e : Editor) (s : State) (r : ℕ)
    → s.cursor ≤ length s.buffer
    → is_allowed r ≡ true
    → length s.buffer < e.max_input_runes
    → bytes s.buffer + rune_len r ≤ e.max_input_bytes
    → insert e s.buffer s.cursor (r ∷ [])
      ≡ some (inserted (spliced s.buffer s.cursor (r ∷ [])) (suc s.cursor))
unfolding insert
insert_one e s r h a k b =
    rw
      (
        allowed_one r a,
        not_above e.max_input_runes (length s.buffer + 1) (omega (arith, k)),
        not_above (length s.buffer) s.cursor h,
        not_above e.max_input_bytes (bytes (spliced s.buffer s.cursor (r ∷ [])))
            (omega (arith, b, bytes-spliced s.cursor s.buffer (r ∷ []))),
      )
      (ap (λ n. some (inserted (spliced s.buffer s.cursor (r ∷ [])) n)) (omega arith))

-- The session after an edit.
abbrev edited_as : Editor → State → Text → ℕ → Reply
edited_as e s buffer cursor = finished e (edited (put s buffer cursor))

rune-handle :
    (e : Editor) (s : State) (r : ℕ)
    → s.cursor ≤ length s.buffer
    → is_allowed r ≡ true
    → length s.buffer < e.max_input_runes
    → bytes s.buffer + rune_len r ≤ e.max_input_bytes
    → handle e s (rune r) ≡ some (edited_as e s (spliced s.buffer s.cursor (r ∷ [])) (suc s.cursor))
unfolding handle act insert_key settled
rune-handle e s r h a k b = rw (insert_one e s r h a k b) refl

backspace-handle :
    (e : Editor) (s : State) (buffer : Text) (c : ℕ)
    → suc c ≤ length buffer
    → handle e (put s buffer (suc c)) backspace ≡ some (edited_as e s (cut c (suc c) buffer) c)
unfolding handle act backspace_key
backspace-handle e s buffer c h =
    let moved : ltb 0 (suc c) ≡ true = ground arith in
    let back : suc c - 1 ≡ c = omega arith in
    rw (not_above (length buffer) (suc c) h, moved, back) refl

-- A rune that is typed and taken back with Backspace leaves the text and the cursor as they were.
pub rune-backspace :
    (e : Editor) (s : State) (r : ℕ)
    → s.cursor ≤ length s.buffer
    → is_allowed r ≡ true
    → length s.buffer < e.max_input_runes
    → bytes s.buffer + rune_len r ≤ e.max_input_bytes
    → press e s (rune r ∷ backspace ∷ []) ≡ some (s.buffer, s.cursor)
unfolding finished
rune-backspace e s r h a k b =
    let text : Text = spliced s.buffer s.cursor (r ∷ []) in
    let typed : Reply = edited_as e s text (suc s.cursor) in
    press-handle e s (rune r) (backspace ∷ []) typed (rune-handle e s r h a k b)
    ∙ press-handle e typed.state backspace [] _ (
        backspace-handle e typed.state text s.cursor
          (omega (arith, length-splice s.cursor s.buffer (r ∷ []))))
    ∙ ap (λ (t : Text). some (t, s.cursor)) (spliced-cut s.cursor r s.buffer h)

up-handle :
    (e : Editor) (s : State) (t : Text)
    → visible e s ≡ []
    → ltb 0 s.history_index ≡ true
    → (s.history_index == length e.history) ≡ true
    → get_elem? e.history (s.history_index - 1) ≡ some t
    → handle e s up
      ≡ some (
          finished e (
            kept (record s {
              history_draft = s.buffer;
              history_index = s.history_index - 1;
              buffer = t;
              cursor = length t;
            })))
unfolding handle act up_key older
up-handle e s t v q₁ q₂ q₃ = rw (ap length v, q₁, q₂, q₃) refl

down-handle :
    (e : Editor) (s : State)
    → visible e s ≡ []
    → ltb s.history_index (length e.history) ≡ true
    → (suc s.history_index == length e.history) ≡ true
    → handle e s down
      ≡ some (
          finished e (
            kept (record s {
              history_index = suc s.history_index;
              buffer = s.history_draft;
              cursor = length s.history_draft;
            })))
unfolding handle act down_key newer
down-handle e s v q₁ q₂ = rw (ap length v, q₁, q₂) refl

-- Up and then Down from the newest end of a history brings the draft back, with the cursor at its
-- end, if no menu is shown for the draft nor for an entry.
pub up-down :
    (e : Editor) (s : State)
    → 0 < length e.history
    → s.history_index ≡ length e.history
    → visible e s ≡ []
    → All (λ t. visible_matches e t s.menu_closed s.tab_matches ≡ []) e.history
    → press e s (up ∷ down ∷ []) ≡ some (s.buffer, length s.buffer)
unfolding finished
up-down e s h k v a =
    let (t, q, v') = get_elem?-All (s.history_index - 1) e.history (omega arith) a in
    let older_state : State = record s {
      history_draft = s.buffer;
      history_index = s.history_index - 1;
      buffer = t;
      cursor = length t;
    } in
    press-handle e s up (down ∷ []) (finished e (kept older_state))
      (up-handle e s t v (ground arith) (ground arith) q)
    ∙ press-handle e older_state down [] _
        (down-handle e older_state v' (ground arith) (ground arith))

-- ===== src/Editor/Invariant.antt =====
-- What holds of an editor and of a session between two keys, and the keys that edit the text.
use parrot_coder.Base.{
  ℕ, zero, suc, ◌+◌, ◌-◌, ◌≡◌, ◌≤◌, inl, inr, refl, true, false, [], ◌∷◌, ◌++◌, Option, some, Text,
  ltb, Bool-cases, arith, length, drop, all, All, length-drop,
}
use parrot_coder.Editor.Types.{Candidate, Editor, State, Error, is_allowed, bytes}
use parrot_coder.Editor.Measure.{Fits, Within-cut, length-cut, length-splice, all-splice}
use parrot_coder.Editor.Keys.{
  Action, edited, kept, returned, put, Insertion, refused, inserted, spliced, insert, settled,
  insert_key, line_start, line_length, line_end, cut, delete_key, backspace_key, kill_end, kill_key,
}

-- A completion leaves room for itself and the space behind it.
abbrev pub Roomy : Editor → Candidate → Type 0
Roomy e c = Fits e c.value × Fits e (c.value ++ 32 ∷ [])

pub record SoundEditor (e : Editor) : Type 0 where
  pub entries_fit : All (Fits e) e.history
  pub few_entries : length e.history ≤ e.max_history
  pub completions_fit : All (Roomy e) e.completions

pub record Sound (e : Editor) (s : State) : Type 0 where
  pub cursor_in : s.cursor ≤ length s.buffer
  pub buffer_fits : Fits e s.buffer
  pub draft_fits : Fits e s.history_draft
  pub index_in : s.history_index ≤ length e.history
  pub tabs_fit : All (Roomy e) s.tab_matches

-- The action of a key that does not panic and leaves everything sound. What a read returns fits.
abbrev pub SoundAction : Editor → Action → Type 0
SoundAction e (edited s) = Sound e s
SoundAction e (kept s) = Sound e s
SoundAction e (returned e' s r) = SoundEditor e' × Sound e' s × Fits e' r.value

abbrev pub Works : Editor → Option Action → Type 0
Works e o = (a : Action) × (o ≡ some a) × SoundAction e a

pub Sound-put :
    (e : Editor) (s : State) (buffer : Text) (cursor : ℕ)
    → Sound e s
    → Fits e buffer
    → cursor ≤ length buffer
    → Sound e (put s buffer cursor)
Sound-put e s buffer cursor h f k = record {
  cursor_in = k;
  buffer_fits = f;
  draft_fits = h.draft_fits;
  index_in = h.index_in;
  tabs_fit = h.tabs_fit;
}

nil-Fits : (e : Editor) → Fits e []
nil-Fits e = record { valid = refl; few_bytes = omega arith; few_runes = omega arith }

pub stopped-Works :
    (e : Editor) (s : State) (failure : Error)
    → SoundEditor e
    → Sound e s
    → SoundAction e (returned e s (record { value = []; done = true; err = some failure }))
stopped-Works e s failure d h = (d, h, nil-Fits e)

not_past : {n c : ℕ} → c ≤ n → ltb n c ≡ false
not_past h = ground arith

-- An insertion is refused, or it fits with its cursor behind the addition.
abbrev pub Inserted : Editor → Text → Insertion → Type 0
Inserted e addition (refused failure) = Unit {0}
Inserted e addition (inserted buffer cursor) = Fits e buffer × (cursor ≤ length buffer)

insert-Inserted :
    (e : Editor) (buffer : Text) (cursor : ℕ) (addition : Text)
    → Fits e buffer
    → cursor ≤ length buffer
    → (i : Insertion) × (insert e buffer cursor addition ≡ some i) × Inserted e addition i
unfolding insert
insert-Inserted e buffer cursor addition f h = elim (Bool-cases (all is_allowed addition)) [
  | inr e₁ ↦ rw e₁ (_, refl, tt)
  | inl e₁ ↦ elim (Bool-cases (ltb e.max_input_runes (length buffer + length addition))) [
    | inl e₂ ↦ rw (e₁, e₂) (_, refl, tt)
    | inr e₂ ↦ elim (Bool-cases (ltb e.max_input_bytes (bytes (spliced buffer cursor addition)))) [
      | inl e₃ ↦ rw (e₁, e₂, not_past h, e₃) (_, refl, tt)
      | inr e₃ ↦
          rw (e₁, e₂, not_past h, e₃)
            (
              _,
              refl,
              (
                record {
                  valid = all-splice is_allowed cursor buffer addition f.valid e₁;
                  few_bytes = ground arith;
                  few_runes = ground (arith, length-splice cursor buffer addition);
                },
                omega (arith, length-splice cursor buffer addition),
              ),
            )
    ]
  ]
]

settled-Works :
    (e : Editor) (s : State) (addition : Text) (i : Insertion)
    → SoundEditor e
    → Sound e s
    → Inserted e addition i
    → Works e (settled e s (some i))
unfolding settled
settled-Works e s addition (refused failure) d h p = (_, refl, stopped-Works e s failure d h)
settled-Works e s addition (inserted buffer cursor) d h p =
    (_, refl, Sound-put e s buffer cursor h p.0 p.1)

pub insert_key-Works :
    (e : Editor) (s : State) (addition : Text)
    → SoundEditor e
    → Sound e s
    → Works e (insert_key e s addition)
unfolding insert_key
insert_key-Works e s addition d h =
    let (i, q, p) = insert-Inserted e s.buffer s.cursor addition h.buffer_fits h.cursor_in in
    rw q (settled-Works e s addition i d h p)

cut-Sound :
    (e : Editor) (s : State) (i j : ℕ)
    → i ≤ j
    → j ≤ length s.buffer
    → Sound e s
    → Sound e (put s (cut i j s.buffer) i)
cut-Sound e s i j h k w =
    Sound-put e s (cut i j s.buffer) i w
      (Within-cut e.max_input_bytes e.max_input_runes i j s.buffer h k w.buffer_fits)
      (omega (arith, length-cut i j s.buffer h k))

pub delete_key-Sound : (e : Editor) (s : State) → Sound e s → SoundAction e (delete_key s)
unfolding delete_key
delete_key-Sound e s h = elim (Bool-cases (ltb s.cursor (length s.buffer))) [
  | inl q ↦ rw q (cut-Sound e s s.cursor (suc s.cursor) (omega arith) (ground arith) h)
  | inr q ↦ rw q h
]

pub backspace_key-Works : (e : Editor) (s : State) → Sound e s → Works e (backspace_key s)
unfolding backspace_key
backspace_key-Works e s h = elim (Bool-cases (ltb 0 s.cursor)) [
  | inl q ↦
      rw (not_past h.cursor_in, q)
        (_, refl, cut-Sound e s (s.cursor - 1) s.cursor (omega arith) h.cursor_in h)
  | inr q ↦ rw (not_past h.cursor_in, q) (_, refl, h)
]

pub line_start_le : (buffer : Text) (c : ℕ) → line_start buffer c ≤ c
unfolding line_start
line_start_le buffer zero = omega arith
line_start_le buffer (suc c) = ground (arith, line_start_le buffer c)

line_length_le : (s : Text) → line_length s ≤ length s
unfolding line_length
line_length_le [] = omega arith
line_length_le (r ∷ s) = ground (arith, line_length_le s)

pub line_end_le : (buffer : Text) (c : ℕ) → c ≤ length buffer → line_end buffer c ≤ length buffer
unfolding line_end
line_end_le buffer c h = omega (arith, line_length_le (drop c buffer), length-drop c buffer)

kill_end_le : (buffer : Text) (c : ℕ) → c ≤ length buffer → kill_end buffer c ≤ length buffer
unfolding kill_end
kill_end_le buffer c h = ground (arith, line_end_le buffer c h)

pub kill_key-Sound : (e : Editor) (s : State) → Sound e s → SoundAction e (kill_key s)
unfolding kill_key
kill_key-Sound e s h = elim (Bool-cases (ltb s.cursor (kill_end s.buffer s.cursor))) [
  | inl q ↦ rw q (
      cut-Sound e s s.cursor (kill_end s.buffer s.cursor) (ground arith)
        (kill_end_le s.buffer s.cursor h.cursor_in) h)
  | inr q ↦ rw q h
]
